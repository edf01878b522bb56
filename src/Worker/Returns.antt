-- ===== src/Worker/Returns.antt =====
-- A command with enough arguments comes back, with or without an error: the parser of
-- internal/parser and the handlers of internal/worker do not panic over the memory backend.
use ocap2_extension.Prelude.{ℕ, String, List, ◌≡◌, true, leb, length, Option, none, some, arith}
use ocap2_extension.Core.{Std}
use ocap2_extension.Core.Result.{Result, ok, err, Error, Exec, then_on, ◌>>=◌}
use ocap2_extension.Cache.EntityCache.{EntityCache}
use ocap2_extension.Memory.State.{Backend}
use ocap2_extension.Memory.Lifecycle.{Exported}
use ocap2_extension.Memory.Storage.{memory}
use ocap2_extension.Memory.Focus.{
  focus_start, focus_end, set_focus_start, set_focus_end, open_range, before_last,
}
use ocap2_extension.Parser.Decode.{Decoder}
use ocap2_extension.Parser.Filled.{parser}
use ocap2_extension.Parser.Returns.{Returns, IsError, wrapping-Returns}
use ocap2_extension.Parser.Safety
use ocap2_extension.Worker.State.{Manager, finding_if_set, or_error, checked}
use ocap2_extension.Worker.Entities.{
  handle_new_soldier, handle_new_vehicle, handle_new_placed, handle_soldier_delete,
  handle_vehicle_delete,
}
use ocap2_extension.Worker.Movement.{
  handle_soldier_state, handle_vehicle_state, handle_placed_event, handle_time_state,
}
use ocap2_extension.Worker.Events.{
  handle_projectile_event, handle_general_event, handle_sector_event, handle_end_mission_event,
  handle_kill_event, handle_chat_event, handle_radio_event, handle_telemetry_event,
  handle_ace3_death_event, handle_ace3_unconscious_event, no_sender, no_source,
}
use ocap2_extension.Worker.Markers.{
  handle_marker_create, handle_marker_move, handle_marker_delete, handle_focus_start,
  handle_focus_end,
}
use ocap2_extension.Worker.Commands.{
  Command, handle, soldier_create, vehicle_create, soldier_state, vehicle_state, time_state,
  event_projectile, event_kill, event_general, event_sector, event_endmission, event_chat,
  event_radio, telemetry_frame, ace3_death, ace3_unconscious, placed_create, placed_event,
  soldier_delete, vehicle_delete, marker_create, marker_state, marker_delete, mission_focus_start,
  mission_focus_end,
}

-- The number of arguments that a command needs: 0 where the parser counts them itself.
unfoldable pub arity : Command → ℕ
arity soldier_create = 11
arity vehicle_create = 7
arity soldier_state = 15
arity vehicle_state = 15
arity time_state = 5
arity event_kill = 5
arity event_chat = 7
arity event_radio = 9
arity ace3_death = 4
arity ace3_unconscious = 3
arity marker_create = 14
arity marker_delete = 2
arity _ = 0

module _ {S A B : Type 0} where
  bind-Returns :
      (m : Exec S A) (f : A → Exec S B) (s : S)
      → Returns (m s).0
      → ((a : A) (t : S) → Returns (f a t).0)
      → Returns ((m >>= f) s).0
  bind-Returns m f s h k = go (m s) h
    where
      go : (x : Result A × S) → Returns x.0 → Returns (then_on x.0 f x.1).0
      go (ok a, t) h = k a t
      go (err e, t) h = h

or_error-Returns : {A : Type 0} (e : Error) (o : Option A) → IsError e → Returns (or_error e o)
or_error-Returns e none h = h
or_error-Returns e (some a) h = tt

checked-Returns : {A : Type 0} (e : Error) (o : Option A) → IsError e → Returns (checked e o)
checked-Returns e none h = h
checked-Returns e (some a) h = tt

finding_if_set-Returns :
    {S A : Type 0} (e : ℕ → Error) (f : EntityCache → ℕ → Option A) (o : Option ℕ) (m : Manager S)
    → ((id : ℕ) → IsError (e id))
    → Returns (finding_if_set e f o m).0
finding_if_set-Returns e f none m h = tt
finding_if_set-Returns e f (some id) m h = checked-Returns _ _ (h id)

focus_start-Returns : (frame : ℕ) (b : Backend) → Returns (focus_start frame b).0
unfolding focus_start set_focus_start open_range before_last
focus_start-Returns frame b = ground arith

focus_end-Returns : (frame : ℕ) (b : Backend) → Returns (focus_end frame b).0
unfolding focus_end set_focus_end
focus_end-Returns frame b = ground arith

ruleset steps =
    (bind-Returns, wrapping-Returns, or_error-Returns, checked-Returns, finding_if_set-Returns)

module _ (d : Decoder) (std : Std) (how : Exported) where
  -- A command that has at least as many arguments as its parse function reads does not panic. Where
  -- the parse function counts its arguments, no number of them makes it panic.
  pub handle-Returns :
      (c : Command) (args : List String) (m : Manager Backend)
      → leb (arity c) (length args) ≡ true
      → Returns (handle (parser d) (memory std how) c args m).0
  unfolding handle arity handle_new_soldier handle_new_vehicle handle_new_placed
      handle_soldier_delete handle_vehicle_delete handle_soldier_state handle_vehicle_state
      handle_placed_event handle_time_state handle_projectile_event handle_general_event
      handle_sector_event handle_end_mission_event handle_kill_event handle_chat_event
      handle_radio_event handle_telemetry_event handle_ace3_death_event
      handle_ace3_unconscious_event handle_marker_create handle_marker_move handle_marker_delete
      handle_focus_start handle_focus_end no_sender no_source
  handle-Returns soldier_create args m h = search (steps, Safety.parse_soldier-Returns)
  handle-Returns vehicle_create args m h = search (steps, Safety.parse_vehicle-Returns)
  handle-Returns soldier_state args m h = search (steps, Safety.parse_soldier_state-Returns)
  handle-Returns vehicle_state args m h = search (steps, Safety.parse_vehicle_state-Returns)
  handle-Returns time_state args m h = search (steps, Safety.parse_time_state-Returns)
  handle-Returns event_projectile args m h = search (steps, Safety.parse_projectile_event-Returns)
  handle-Returns event_kill args m h = search (steps, Safety.parse_kill_event-Returns)
  handle-Returns event_general args m h = search (steps, Safety.parse_general_event-Returns)
  handle-Returns event_sector args m h = search (steps, Safety.parse_sector_event-Returns)
  handle-Returns event_endmission args m h = search (steps, Safety.parse_end_mission_event-Returns)
  handle-Returns event_chat args m h = search (steps, Safety.parse_chat_event-Returns) depth 8
  handle-Returns event_radio args m h = search (steps, Safety.parse_radio_event-Returns) depth 8
  handle-Returns telemetry_frame args m h = search (steps, Safety.parse_telemetry_event-Returns)
  handle-Returns ace3_death args m h = search (steps, Safety.parse_ace3_death_event-Returns) depth 8
  handle-Returns ace3_unconscious args m h =
      search (steps, Safety.parse_ace3_unconscious_event-Returns) depth 8
  handle-Returns placed_create args m h = search (steps, Safety.parse_placed_object-Returns)
  handle-Returns placed_event args m h = search (steps, Safety.parse_placed_object_event-Returns)
  handle-Returns soldier_delete args m h = search (steps, Safety.parse_soldier_delete-Returns)
  handle-Returns vehicle_delete args m h = search (steps, Safety.parse_vehicle_delete-Returns)
  handle-Returns marker_create args m h = search (steps, Safety.parse_marker_create-Returns)
  handle-Returns marker_state args m h = search (steps, Safety.parse_marker_move-Returns)
  handle-Returns marker_delete args m h = search (steps, Safety.parse_marker_delete-Returns)
  handle-Returns mission_focus_start args m h =
      search (steps, Safety.parse_focus_frame-Returns, focus_start-Returns)
  handle-Returns mission_focus_end args m h =
      search (steps, Safety.parse_focus_frame-Returns, focus_end-Returns)
