-- ===== src/Parser/Filled.antt =====
-- internal/parser/parser.go: Parser implements the interface Service.
use ocap2_extension.Parser.{Service}
use ocap2_extension.Parser.Decode.{Decoder}
use ocap2_extension.Parser.Start.{parse_mission}
use ocap2_extension.Parser.Units.{
  parse_soldier, parse_soldier_delete, parse_soldier_state, parse_vehicle, parse_vehicle_delete,
  parse_vehicle_state,
}
use ocap2_extension.Parser.Reports.{
  parse_general_event, parse_sector_event, parse_end_mission_event, parse_kill_event,
  parse_time_state, parse_chat_event, parse_radio_event, parse_ace3_death_event,
  parse_ace3_unconscious_event, parse_focus_start, parse_focus_end,
}
use ocap2_extension.Parser.Map.{
  parse_marker_create, parse_marker_move, parse_marker_delete, parse_placed_object,
  parse_placed_object_event,
}
use ocap2_extension.Parser.Arrays.{parse_projectile_event, parse_telemetry_event}

abbrev pub parser : Decoder → Service
parser d = record {
  parse_mission = parse_mission d;
  parse_soldier = parse_soldier d;
  parse_vehicle = parse_vehicle d;
  parse_soldier_state = parse_soldier_state d;
  parse_vehicle_state = parse_vehicle_state d;
  parse_projectile_event = parse_projectile_event d;
  parse_general_event = parse_general_event d;
  parse_sector_event = parse_sector_event d;
  parse_end_mission_event = parse_end_mission_event d;
  parse_kill_event = parse_kill_event d;
  parse_chat_event = parse_chat_event d;
  parse_radio_event = parse_radio_event d;
  parse_time_state = parse_time_state d;
  parse_ace3_death_event = parse_ace3_death_event d;
  parse_ace3_unconscious_event = parse_ace3_unconscious_event d;
  parse_marker_create = parse_marker_create d;
  parse_marker_move = parse_marker_move d;
  parse_marker_delete = parse_marker_delete d;
  parse_soldier_delete = parse_soldier_delete d;
  parse_vehicle_delete = parse_vehicle_delete d;
  parse_telemetry_event = parse_telemetry_event d;
  parse_placed_object = parse_placed_object d;
  parse_placed_object_event = parse_placed_object_event d;
  parse_focus_start = parse_focus_start d;
  parse_focus_end = parse_focus_end d;
}
