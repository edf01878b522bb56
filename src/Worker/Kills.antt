-- ===== src/Worker/Kills.antt =====
-- The ids in recorded kills through the handlers of internal/worker/dispatch.go.
use ocap2_extension.Prelude.{
  String, List, [], ◌∷◌, Option-cases, inl, inr, arith, nat_eq, string_eq, All,
}
use ocap2_extension.Prelude.Map.{lookup, contains}
use ocap2_extension.Core.{Std, Mission, World}
use ocap2_extension.Cache.MarkerCache.{MarkerCache}
use ocap2_extension.Parser.{Service}
use ocap2_extension.Memory.State.{Backend}
use ocap2_extension.Memory.Lifecycle.{Exported, start_mission}
use ocap2_extension.Memory.Storage.{memory}
use ocap2_extension.Memory.Record.{
  add_soldier, delete_soldier, record_soldier_state, add_vehicle, add_placed_object, delete_vehicle,
  record_vehicle_state, record_placed_object_event, record_projectile_event, record_general_event,
  record_sector_event, record_end_mission_event, record_kill_event, record_chat_event,
  record_radio_event, record_telemetry_event, record_time_state, record_ace3_death_event,
  record_ace3_unconscious_event,
}
use ocap2_extension.Memory.Markers.{add_marker, record_marker_state, delete_marker}
use ocap2_extension.Memory.Focus.{focus_start, focus_end}
use ocap2_extension.Worker.State.{Manager}
use ocap2_extension.Worker.Entities.{
  handle_new_soldier, handle_new_vehicle, handle_new_placed, handle_soldier_delete,
  handle_vehicle_delete,
}
use ocap2_extension.Worker.Movement.{
  note_player, handle_soldier_state, handle_vehicle_state, handle_placed_event, handle_time_state,
}
use ocap2_extension.Worker.Events.{
  handle_projectile_event, handle_general_event, handle_sector_event, handle_end_mission_event,
  handle_kill_event, handle_chat_event, handle_radio_event, handle_telemetry_event,
  handle_ace3_death_event, handle_ace3_unconscious_event,
}
use ocap2_extension.Worker.Markers.{
  handle_marker_create, handle_marker_move, handle_marker_delete, handle_focus_start,
  handle_focus_end,
}
use ocap2_extension.Worker.Commands.{
  Command, handle, handle_all, soldier_create, vehicle_create, soldier_state, vehicle_state,
  event_kill, soldier_delete, vehicle_delete,
}
use ocap2_extension.Worker.Atomic.{Result-cases}
use ocap2_extension.Worker.Exported.{started}
use ocap2_extension.Worker.References.{KillRefers}
use ocap2_extension.Worker.Resolution.{
  Resolved, create_soldier-IsResolved, create_vehicle-IsResolved, adjust_soldier-IsResolved,
  adjust_vehicle-IsResolved, note_player-IsResolved, add_kill-IsResolved, same-IsResolved,
}

module _ (p : Service) (std : Std) (how : Exported) where
  handle-Resolved :
      (c : Command) (args : List String) (m : Manager Backend)
      → Resolved m
      → Resolved (handle p (memory std how) c args m).1
  unfolding handle handle_new_soldier handle_new_vehicle handle_new_placed handle_soldier_delete
      handle_vehicle_delete handle_soldier_state handle_vehicle_state handle_placed_event
      handle_time_state handle_projectile_event handle_general_event handle_sector_event
      handle_end_mission_event handle_kill_event handle_chat_event handle_radio_event
      handle_telemetry_event handle_ace3_death_event handle_ace3_unconscious_event
      handle_marker_create handle_marker_move handle_marker_delete handle_focus_start
      handle_focus_end note_player add_soldier delete_soldier record_soldier_state add_vehicle
      add_placed_object delete_vehicle record_vehicle_state record_placed_object_event
      record_projectile_event record_general_event record_sector_event record_end_mission_event
      record_kill_event record_chat_event record_radio_event record_telemetry_event
      record_time_state record_ace3_death_event record_ace3_unconscious_event add_marker
      record_marker_state delete_marker focus_start focus_end
  handle-Resolved soldier_create args m h = elim (Result-cases (p.parse_soldier args)) [
    | inl (e, q) ↦ rw q h
    | inr (s, q) ↦ rw q (create_soldier-IsResolved s _ _ _ _ _ _ h)
  ]
  handle-Resolved vehicle_create args m h = elim (Result-cases (p.parse_vehicle args)) [
    | inl (e, q) ↦ rw q h
    | inr (v, q) ↦ rw q (create_vehicle-IsResolved v _ _ _ _ _ _ h)
  ]
  handle-Resolved soldier_delete args m h = elim (Result-cases (p.parse_soldier_delete args)) [
    | inl (e, q) ↦ rw q h
    | inr ((id, frame), q) ↦ rw q (adjust_soldier-IsResolved _ id _ _ _ _ _ h)
  ]
  handle-Resolved vehicle_delete args m h = elim (Result-cases (p.parse_vehicle_delete args)) [
    | inl (e, q) ↦ rw q h
    | inr ((id, frame), q) ↦ rw q (adjust_vehicle-IsResolved _ id _ _ _ _ _ h)
  ]
  handle-Resolved vehicle_state args m h = elim (Result-cases (p.parse_vehicle_state args)) [
    | inl (e, q) ↦ rw q h
    | inr (x, q) ↦ rw q (elim (Option-cases (lookup x.vehicle_id m.entity_cache.vehicles)) [
      | inl n ↦ rw n h
      | inr (s, n) ↦ rw n (adjust_vehicle-IsResolved _ x.vehicle_id _ _ _ _ _ h)
    ])
  ]
  handle-Resolved soldier_state args m h = elim (Result-cases (p.parse_soldier_state args)) [
    | inl (e, q) ↦ rw q h
    | inr (x, q) ↦ rw q (elim (Option-cases (lookup x.soldier_id m.entity_cache.soldiers)) [
      | inl n ↦ rw n h
      | inr (s, n) ↦ rw n (
          adjust_soldier-IsResolved _ x.soldier_id _ _ _ _ _
            (note_player-IsResolved s x m.entity_cache _ _ _ n h))
    ])
  ]
  handle-Resolved event_kill args m h = elim (Result-cases (p.parse_kill_event args)) [
    | inl (e, q) ↦ rw q h
    | inr (k, q) ↦ rw q (add_kill-IsResolved m.entity_cache k _ _ _ h)
  ]
  handle-Resolved _ args m h =
      same-IsResolved (ground arith) (ground arith) (ground arith) (ground arith) (ground arith) h

  handle_all-Resolved :
      (ms : List (Command × List String)) (m : Manager Backend)
      → Resolved m
      → Resolved (handle_all p (memory std how) ms m)
  unfolding handle_all
  handle_all-Resolved [] m h = h
  handle_all-Resolved ((c, args) ∷ ms) m h =
      handle_all-Resolved ms (handle p (memory std how) c args m).1 (handle-Resolved c args m h)

  started-Resolved :
      (mission : Mission) (world : World) (b : Backend) (markers : MarkerCache)
      → Resolved (started mission world b markers)
  unfolding start_mission lookup contains
  started-Resolved mission world b markers = record {
    own_ids = λ id s e. absurd (ground arith);
    soldiers = λ id c. absurd (ground arith);
    vehicles = λ id c. absurd (ground arith);
    kills = tt;
  }

  -- After any messages since a mission started with an empty entity cache, every unit id in a recorded
  -- kill, of the victim or of the killer, soldier or vehicle, names a unit of that kind that the backend
  -- has a record of.
  pub handle_all-KillRefers :
      (ms : List (Command × List String)) (mission : Mission) (world : World) (b : Backend)
      (markers : MarkerCache)
      → let m = handle_all p (memory std how) ms (started mission world b markers) in
        All (KillRefers m.backend.soldiers m.backend.vehicles) m.backend.log.kill_events
  handle_all-KillRefers ms mission world b markers =
      (handle_all-Resolved ms (started mission world b markers)
        (started-Resolved mission world b markers)).kills
