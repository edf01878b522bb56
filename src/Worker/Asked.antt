-- ===== src/Worker/Asked.antt =====
-- The operation of the memory backend that a message of internal/worker/dispatch.go stands for, read
-- off its arguments and the caches alone.
use ocap2_extension.Prelude.{ℕ, String, List, Option, none, some, nat_eq, string_eq}
use ocap2_extension.Core.Result.{Result, ok, err}
use ocap2_extension.Parser.{Service}
use ocap2_extension.Memory.State.{Backend}
use ocap2_extension.Memory.Trace.{
  Op, adds_soldier, adds_vehicle, adds_placed, adds_marker, deletes_soldier, deletes_vehicle,
  deletes_marker, soldier_moves, vehicle_moves, placed_fires, marker_moves, times, general, sector,
  ends_mission, kills, projectile, chats, radios, focuses, unfocuses,
}
use ocap2_extension.Cache.EntityCache.{get_soldier, get_vehicle, get_placed_object}
use ocap2_extension.Cache.MarkerCache.{get}
use ocap2_extension.Worker.State.{Manager}
use ocap2_extension.Worker.Movement.{filled}
use ocap2_extension.Worker.Events.{any_soldier, any_unit, projectile_of, kill_of}
use ocap2_extension.Worker.Markers.{moved}
use ocap2_extension.Worker.Commands.{
  Command, soldier_create, vehicle_create, soldier_state, vehicle_state, time_state,
  event_projectile, event_kill, event_general, event_sector, event_endmission, event_chat,
  event_radio, telemetry_frame, ace3_death, ace3_unconscious, placed_create, placed_event,
  soldier_delete, vehicle_delete, marker_create, marker_state, marker_delete, mission_focus_start,
  mission_focus_end,
}

-- Arguments that parse, and an entry that is there.
abbrev pub if_parsed : {A : Type 0} → Result A → (A → Option Op) → Option Op
if_parsed (err e) f = none
if_parsed (ok a) f = f a

abbrev pub if_known : {A : Type 0} → Option A → (A → Option Op) → Option Op
if_known none f = none
if_known (some a) f = f a

-- An optional id is absent or known.
abbrev pub if_asked : {A : Type 0} → (ℕ → Option A) → Option ℕ → Option Op → Option Op
if_asked f none o = o
if_asked f (some id) o = if_known (f id) (λ a. o)

module _ (p : Service) where
  unfoldable pub asked : Command → List String → Manager Backend → Option Op
  asked soldier_create args m = if_parsed (p.parse_soldier args) (λ s. some (adds_soldier s))
  asked vehicle_create args m = if_parsed (p.parse_vehicle args) (λ v. some (adds_vehicle v))
  asked placed_create args m = if_parsed (p.parse_placed_object args) (λ o. some (adds_placed o))
  asked soldier_delete args m =
      if_parsed (p.parse_soldier_delete args) (λ (id, frame). some (deletes_soldier id frame))
  asked vehicle_delete args m =
      if_parsed (p.parse_vehicle_delete args) (λ (id, frame). some (deletes_vehicle id frame))
  asked soldier_state args m = if_parsed (p.parse_soldier_state args) (λ x.
      if_known (get_soldier m.entity_cache x.soldier_id) (λ s. some (soldier_moves (filled s x))))
  asked vehicle_state args m =
      if_parsed (p.parse_vehicle_state args)
        (λ x. if_known (get_vehicle m.entity_cache x.vehicle_id) (λ v. some (vehicle_moves x)))
  asked placed_event args m =
      if_parsed (p.parse_placed_object_event args)
        (λ x. if_known (get_placed_object m.entity_cache x.placed_id) (λ o. some (placed_fires x)))
  asked time_state args m = if_parsed (p.parse_time_state args) (λ t. some (times t))
  asked event_projectile args m =
      if_parsed (p.parse_projectile_event args)
        (λ x. some (projectile (projectile_of m.entity_cache x)))
  asked event_kill args m =
      if_parsed (p.parse_kill_event args) (λ k. some (kills (kill_of m.entity_cache k)))
  asked event_general args m = if_parsed (p.parse_general_event args) (λ x. some (general x))
  asked event_sector args m = if_parsed (p.parse_sector_event args) (λ x. some (sector x))
  asked event_endmission args m =
      if_parsed (p.parse_end_mission_event args) (λ x. some (ends_mission x))
  asked event_chat args m =
      if_parsed (p.parse_chat_event args)
        (λ x. if_asked (any_soldier m.entity_cache) x.soldier_id (some (chats x)))
  asked event_radio args m =
      if_parsed (p.parse_radio_event args)
        (λ x. if_asked (any_soldier m.entity_cache) x.soldier_id (some (radios x)))
  asked telemetry_frame args m =
      if_parsed (p.parse_telemetry_event args) (λ x. some (Op.telemetry x))
  asked ace3_death args m = if_parsed (p.parse_ace3_death_event args) (λ x.
      if_known (any_soldier m.entity_cache x.soldier_id)
        (λ id. if_asked (any_unit m.entity_cache) x.last_damage_source_id (some (Op.ace3_death x))))
  asked ace3_unconscious args m =
      if_parsed (p.parse_ace3_unconscious_event args) (λ x.
        if_known (any_soldier m.entity_cache x.soldier_id) (λ id. some (Op.ace3_unconscious x)))
  asked marker_create args m = if_parsed (p.parse_marker_create args) (λ k. some (adds_marker k))
  asked marker_state args m =
      if_parsed (p.parse_marker_move args)
        (λ x. if_known (get m.marker_cache x.marker_name) (λ id. some (marker_moves (moved id x))))
  asked marker_delete args m = if_parsed (p.parse_marker_delete args) (λ k. some (deletes_marker k))
  asked mission_focus_start args m = if_parsed (p.parse_focus_start args) (λ f. some (focuses f))
  asked mission_focus_end args m = if_parsed (p.parse_focus_end args) (λ f. some (unfocuses f))
