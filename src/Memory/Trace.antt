-- ===== src/Memory/Trace.antt =====
-- A history of the backend: the methods that change what a mission holds, as events, and their
-- effect. Every method of `storage.Backend` but the lifecycle ones is here.
use ocap2_extension.Prelude.{ℕ, List, [], ◌∷◌, ◌≡◌, refl, ◌∙◌}
use ocap2_extension.Core.{
  Frame, Soldier, SoldierState, Vehicle, VehicleState, Marker, MarkerState, DeleteMarker,
  PlacedObject, PlacedObjectEvent, FiredEvent, GeneralEvent, SectorEvent, EndMissionEvent, HitEvent,
  KillEvent, ChatEvent, RadioEvent, TelemetryEvent, TimeState, Ace3DeathEvent, Ace3UnconsciousEvent,
  ProjectileEvent,
}
use ocap2_extension.Memory.State.{Backend}
use ocap2_extension.Memory.Record
use ocap2_extension.Memory.Markers
use ocap2_extension.Memory.Focus

pub data Op : Type 0 where
  adds_soldier : Soldier → Op
  adds_vehicle : Vehicle → Op
  adds_marker : Marker → Op
  adds_placed : PlacedObject → Op
  deletes_soldier : ℕ → Frame → Op
  deletes_vehicle : ℕ → Frame → Op
  deletes_marker : DeleteMarker → Op
  soldier_moves : SoldierState → Op
  vehicle_moves : VehicleState → Op
  marker_moves : MarkerState → Op
  fires : FiredEvent → Op
  placed_fires : PlacedObjectEvent → Op
  projectile : ProjectileEvent → Op
  general : GeneralEvent → Op
  sector : SectorEvent → Op
  ends_mission : EndMissionEvent → Op
  hits : HitEvent → Op
  kills : KillEvent → Op
  chats : ChatEvent → Op
  radios : RadioEvent → Op
  telemetry : TelemetryEvent → Op
  times : TimeState → Op
  ace3_death : Ace3DeathEvent → Op
  ace3_unconscious : Ace3UnconsciousEvent → Op
  focuses : Frame → Op
  unfocuses : Frame → Op

unfoldable pub step : Op → Backend → Backend
unfolding Record.add_soldier Record.add_vehicle Markers.add_marker Record.add_placed_object
    Record.delete_soldier Record.delete_vehicle Markers.delete_marker Record.record_soldier_state
    Record.record_vehicle_state Markers.record_marker_state Record.record_fired_event
    Record.record_placed_object_event Record.record_projectile_event Record.record_general_event
    Record.record_sector_event Record.record_end_mission_event Record.record_hit_event
    Record.record_kill_event Record.record_chat_event Record.record_radio_event
    Record.record_telemetry_event Record.record_time_state Record.record_ace3_death_event
    Record.record_ace3_unconscious_event Focus.focus_start Focus.focus_end
step (adds_soldier s) b = Record.add_soldier s b
step (adds_vehicle v) b = Record.add_vehicle v b
step (adds_marker m) b = (Markers.add_marker m b).1
step (adds_placed p) b = Record.add_placed_object p b
step (deletes_soldier id f) b = Record.delete_soldier id f b
step (deletes_vehicle id f) b = Record.delete_vehicle id f b
step (deletes_marker dm) b = Markers.delete_marker dm b
step (soldier_moves s) b = Record.record_soldier_state s b
step (vehicle_moves s) b = Record.record_vehicle_state s b
step (marker_moves s) b = Markers.record_marker_state s b
step (fires e) b = Record.record_fired_event e b
step (placed_fires e) b = Record.record_placed_object_event e b
step (projectile e) b = Record.record_projectile_event e b
step (general e) b = Record.record_general_event e b
step (sector e) b = Record.record_sector_event e b
step (ends_mission e) b = Record.record_end_mission_event e b
step (hits e) b = Record.record_hit_event e b
step (kills e) b = Record.record_kill_event e b
step (chats e) b = Record.record_chat_event e b
step (radios e) b = Record.record_radio_event e b
step (telemetry e) b = Record.record_telemetry_event e b
step (times t) b = Record.record_time_state t b
step (ace3_death e) b = Record.record_ace3_death_event e b
step (ace3_unconscious e) b = Record.record_ace3_unconscious_event e b
step (focuses f) b = (Focus.focus_start f b).1
step (unfocuses f) b = (Focus.focus_end f b).1

unfoldable pub run : List Op → Backend → Backend
run [] b = b
run (o ∷ os) b = run os (step o b)

pub step-mission : (o : Op) (b : Backend) → (step o b).mission ≡ b.mission
unfolding step
step-mission (adds_soldier s) b = refl
step-mission _ b = refl

pub step-world : (o : Op) (b : Backend) → (step o b).world ≡ b.world
unfolding step
step-world (adds_soldier s) b = refl
step-world _ b = refl

-- No method but the lifecycle ones changes the mission or the world.
pub run-mission : (os : List Op) (b : Backend) → (run os b).mission ≡ b.mission
unfolding run
run-mission [] b = refl
run-mission (o ∷ os) b = run-mission os (step o b) ∙ step-mission o b

pub run-world : (os : List Op) (b : Backend) → (run os b).world ≡ b.world
unfolding run
run-world [] b = refl
run-world (o ∷ os) b = run-world os (step o b) ∙ step-world o b
