-- ===== src/Worker/Commands.antt =====
-- internal/worker/dispatch.go: RegisterHandlers, and the handler of each command.
use ocap2_extension.Prelude.{ℕ, String, List, [], ◌∷◌, string_eq}
use ocap2_extension.Core.Result.{Exec}
use ocap2_extension.Parser.{Service}
use ocap2_extension.Storage.{Storage}
use ocap2_extension.Worker.State.{Manager}
use ocap2_extension.Worker.Entities.{
  handle_new_soldier, handle_new_vehicle, handle_new_placed, handle_soldier_delete,
  handle_vehicle_delete,
}
use ocap2_extension.Worker.Movement.{
  handle_soldier_state, handle_vehicle_state, handle_placed_event, handle_time_state,
}
use ocap2_extension.Worker.Events.{
  handle_projectile_event, handle_general_event, handle_sector_event, handle_end_mission_event,
  handle_kill_event, handle_chat_event, handle_radio_event, handle_telemetry_event,
  handle_ace3_death_event, handle_ace3_unconscious_event,
}
use ocap2_extension.Worker.Markers.{
  handle_marker_create, handle_marker_move, handle_marker_delete, handle_focus_start,
  handle_focus_end,
}

pub data Command : Type 0 where
  soldier_create : Command
  vehicle_create : Command
  soldier_state : Command
  vehicle_state : Command
  time_state : Command
  event_projectile : Command
  event_kill : Command
  event_general : Command
  event_sector : Command
  event_endmission : Command
  event_chat : Command
  event_radio : Command
  telemetry_frame : Command
  ace3_death : Command
  ace3_unconscious : Command
  placed_create : Command
  placed_event : Command
  soldier_delete : Command
  vehicle_delete : Command
  marker_create : Command
  marker_state : Command
  marker_delete : Command
  mission_focus_start : Command
  mission_focus_end : Command

-- Name, handler and buffer size in the order of registration; 0 is a handler that runs in the call.
abbrev pub registrations : List (String × (Command × ℕ))
registrations =
    (":SOLDIER:CREATE:", (soldier_create, 0))
    ∷ (":VEHICLE:CREATE:", (vehicle_create, 0))
    ∷ (":SOLDIER:STATE:", (soldier_state, 10_000))
    ∷ (":VEHICLE:STATE:", (vehicle_state, 10_000))
    ∷ (":TIME:STATE:", (time_state, 100))
    ∷ (":EVENT:PROJECTILE:", (event_projectile, 5_000))
    ∷ (":EVENT:KILL:", (event_kill, 2_000))
    ∷ (":EVENT:GENERAL:", (event_general, 1_000))
    ∷ (":EVENT:SECTOR:", (event_sector, 1_000))
    ∷ (":EVENT:ENDMISSION:", (event_endmission, 100))
    ∷ (":EVENT:CHAT:", (event_chat, 1_000))
    ∷ (":EVENT:RADIO:", (event_radio, 1_000))
    ∷ (":TELEMETRY:FRAME:", (telemetry_frame, 100))
    ∷ (":ACE3:DEATH:", (ace3_death, 1_000))
    ∷ (":ACE3:UNCONSCIOUS:", (ace3_unconscious, 1_000))
    ∷ (":PLACED:CREATE:", (placed_create, 0))
    ∷ (":PLACED:EVENT:", (placed_event, 1_000))
    ∷ (":SOLDIER:DELETE:", (soldier_delete, 500))
    ∷ (":VEHICLE:DELETE:", (vehicle_delete, 500))
    ∷ (":MARKER:CREATE:", (marker_create, 0))
    ∷ (":MARKER:STATE:", (marker_state, 1_000))
    ∷ (":MARKER:DELETE:", (marker_delete, 500))
    ∷ (":MISSION:FOCUS_START:", (mission_focus_start, 0))
    ∷ (":MISSION:FOCUS_END:", (mission_focus_end, 0))
    ∷ []

module _ {S : Type 0} (p : Service) (b : Storage S) where
  unfoldable pub handle : Command → List String → Exec (Manager S) (Unit {0})
  handle soldier_create = handle_new_soldier p b
  handle vehicle_create = handle_new_vehicle p b
  handle soldier_state = handle_soldier_state p b
  handle vehicle_state = handle_vehicle_state p b
  handle time_state = handle_time_state p b
  handle event_projectile = handle_projectile_event p b
  handle event_kill = handle_kill_event p b
  handle event_general = handle_general_event p b
  handle event_sector = handle_sector_event p b
  handle event_endmission = handle_end_mission_event p b
  handle event_chat = handle_chat_event p b
  handle event_radio = handle_radio_event p b
  handle telemetry_frame = handle_telemetry_event p b
  handle ace3_death = handle_ace3_death_event p b
  handle ace3_unconscious = handle_ace3_unconscious_event p b
  handle placed_create = handle_new_placed p b
  handle placed_event = handle_placed_event p b
  handle soldier_delete = handle_soldier_delete p b
  handle vehicle_delete = handle_vehicle_delete p b
  handle marker_create = handle_marker_create p b
  handle marker_state = handle_marker_move p b
  handle marker_delete = handle_marker_delete p b
  handle mission_focus_start = handle_focus_start p b
  handle mission_focus_end = handle_focus_end p b

  -- Messages one after another, whatever each returns.
  unfoldable pub handle_all : List (Command × List String) → Manager S → Manager S
  handle_all [] m = m
  handle_all ((c, args) ∷ ms) m = handle_all ms (handle c args m).1
