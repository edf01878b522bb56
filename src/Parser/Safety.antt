-- ===== src/Parser/Safety.antt =====
-- The parse functions come back, with a value or an error, when they get enough arguments.
use ocap2_extension.Prelude.{String, List, ◌≡◌, true, leb, length, map}
use ocap2_extension.Parser.Decode.{Decoder, clean}
use ocap2_extension.Parser.Returns.{Returns, chains, readers}
use ocap2_extension.Parser.Units.{
  parse_soldier, parse_soldier_delete, parse_soldier_state, parse_vehicle, parse_vehicle_delete,
  parse_vehicle_state, entity_delete, scores_if, condition_of, turret_of, seat_of, group_and_side,
}
use ocap2_extension.Parser.Reports.{
  parse_general_event, parse_sector_event, parse_end_mission_event, parse_kill_event,
  parse_time_state, parse_chat_event, parse_radio_event, parse_ace3_death_event,
  parse_ace3_unconscious_event, parse_focus_frame, extra_data_of, sector_side, sector_position,
  frequency,
}
use ocap2_extension.Parser.Map.{
  parse_marker_create, parse_marker_move, parse_marker_delete, parse_placed_object,
  parse_placed_object_event, place_of, hit_entity,
}
use ocap2_extension.Parser.Arrays.{parse_projectile_event, parse_telemetry_event}

module _ (d : Decoder) where
  condition_of-Returns :
      (raw : List String) → leb 15 (length raw) ≡ true → Returns (condition_of d (map clean raw))
  unfolding condition_of
  condition_of-Returns raw h = search (chains, readers) depth 60 fits 8000

  turret_of-Returns :
      (raw : List String) → leb 15 (length raw) ≡ true → Returns (turret_of d (map clean raw))
  unfolding turret_of
  turret_of-Returns raw h = search (chains, readers) depth 60 fits 8000

  seat_of-Returns :
      (raw : List String) → leb 15 (length raw) ≡ true → Returns (seat_of d (map clean raw))
  unfolding seat_of
  seat_of-Returns raw h = search (chains, readers) depth 60 fits 8000

  pub parse_soldier-Returns :
      (raw : List String) → leb 11 (length raw) ≡ true → Returns (parse_soldier d raw)
  unfolding parse_soldier
  parse_soldier-Returns raw h = search (chains, readers) depth 60 fits 8000

  pub parse_vehicle-Returns :
      (raw : List String) → leb 7 (length raw) ≡ true → Returns (parse_vehicle d raw)
  unfolding parse_vehicle
  parse_vehicle-Returns raw h = search (chains, readers) depth 60 fits 8000

  pub parse_soldier_state-Returns :
      (raw : List String) → leb 15 (length raw) ≡ true → Returns (parse_soldier_state d raw)
  unfolding parse_soldier_state scores_if group_and_side
  parse_soldier_state-Returns raw h = search (seat_of-Returns, chains, readers) depth 60 fits 8000

  pub parse_vehicle_state-Returns :
      (raw : List String) → leb 15 (length raw) ≡ true → Returns (parse_vehicle_state d raw)
  unfolding parse_vehicle_state
  parse_vehicle_state-Returns raw h =
      search (condition_of-Returns, turret_of-Returns, chains, readers) depth 60 fits 8000

  pub parse_time_state-Returns :
      (raw : List String) → leb 5 (length raw) ≡ true → Returns (parse_time_state d raw)
  unfolding parse_time_state
  parse_time_state-Returns raw h = search (chains, readers) depth 60 fits 8000

  pub parse_chat_event-Returns :
      (raw : List String) → leb 7 (length raw) ≡ true → Returns (parse_chat_event d raw)
  unfolding parse_chat_event
  parse_chat_event-Returns raw h = search (chains, readers) depth 60 fits 8000

  pub parse_radio_event-Returns :
      (raw : List String) → leb 9 (length raw) ≡ true → Returns (parse_radio_event d raw)
  unfolding parse_radio_event frequency
  parse_radio_event-Returns raw h = search (chains, readers) depth 60 fits 8000

  pub parse_ace3_death_event-Returns :
      (raw : List String) → leb 4 (length raw) ≡ true → Returns (parse_ace3_death_event d raw)
  unfolding parse_ace3_death_event
  parse_ace3_death_event-Returns raw h = search (chains, readers) depth 60 fits 8000

  pub parse_ace3_unconscious_event-Returns :
      (raw : List String) → leb 3 (length raw) ≡ true → Returns (parse_ace3_unconscious_event d raw)
  unfolding parse_ace3_unconscious_event
  parse_ace3_unconscious_event-Returns raw h = search (chains, readers) depth 60 fits 8000

  pub parse_marker_create-Returns :
      (raw : List String) → leb 14 (length raw) ≡ true → Returns (parse_marker_create d raw)
  unfolding parse_marker_create place_of
  parse_marker_create-Returns raw h = search (chains, readers) depth 60 fits 8000

  pub parse_marker_delete-Returns :
      (raw : List String) → leb 2 (length raw) ≡ true → Returns (parse_marker_delete d raw)
  unfolding parse_marker_delete
  parse_marker_delete-Returns raw h = search (chains, readers) depth 60 fits 8000

  pub parse_soldier_delete-Returns : (raw : List String) → Returns (parse_soldier_delete d raw)
  unfolding parse_soldier_delete entity_delete
  parse_soldier_delete-Returns raw = search (chains, readers) depth 60 fits 8000

  pub parse_vehicle_delete-Returns : (raw : List String) → Returns (parse_vehicle_delete d raw)
  unfolding parse_vehicle_delete entity_delete
  parse_vehicle_delete-Returns raw = search (chains, readers) depth 60 fits 8000

  pub parse_marker_move-Returns : (raw : List String) → Returns (parse_marker_move d raw)
  unfolding parse_marker_move
  parse_marker_move-Returns raw = search (chains, readers) depth 60 fits 8000

  pub parse_placed_object-Returns : (raw : List String) → Returns (parse_placed_object d raw)
  unfolding parse_placed_object
  parse_placed_object-Returns raw = search (chains, readers) depth 60 fits 8000

  pub parse_placed_object_event-Returns :
      (raw : List String) → Returns (parse_placed_object_event d raw)
  unfolding parse_placed_object_event hit_entity
  parse_placed_object_event-Returns raw = search (chains, readers) depth 60 fits 8000

  pub parse_projectile_event-Returns : (raw : List String) → Returns (parse_projectile_event d raw)
  unfolding parse_projectile_event
  parse_projectile_event-Returns raw = search (chains, readers) depth 60 fits 8000

  pub parse_telemetry_event-Returns : (raw : List String) → Returns (parse_telemetry_event d raw)
  unfolding parse_telemetry_event
  parse_telemetry_event-Returns raw = search (chains, readers) depth 60 fits 8000

  pub parse_general_event-Returns : (raw : List String) → Returns (parse_general_event d raw)
  unfolding parse_general_event extra_data_of
  parse_general_event-Returns raw = search (chains, readers) depth 60 fits 8000

  pub parse_sector_event-Returns : (raw : List String) → Returns (parse_sector_event d raw)
  unfolding parse_sector_event sector_side sector_position
  parse_sector_event-Returns raw = search (chains, readers) depth 60 fits 8000

  pub parse_end_mission_event-Returns :
      (raw : List String) → Returns (parse_end_mission_event d raw)
  unfolding parse_end_mission_event
  parse_end_mission_event-Returns raw = search (chains, readers) depth 60 fits 8000

  pub parse_kill_event-Returns :
      (raw : List String) → leb 5 (length raw) ≡ true → Returns (parse_kill_event d raw)
  unfolding parse_kill_event
  parse_kill_event-Returns raw h = search (chains, readers) depth 60 fits 8000

  pub parse_focus_frame-Returns : (raw : List String) → Returns (parse_focus_frame d raw)
  unfolding parse_focus_frame
  parse_focus_frame-Returns raw = search (chains, readers) depth 60 fits 8000
