-- ===== src/Storage.antt =====
-- internal/storage/storage.go: the interface that every backend fills, over the backend's state. A
-- method is one step, which leaves a state also where it fails.
use ocap2_extension.Prelude.{ℕ}
use ocap2_extension.Core.{
  Exec, Frame, Mission, World, Soldier, SoldierState, Vehicle, VehicleState, Marker, MarkerState,
  DeleteMarker, PlacedObject, PlacedObjectEvent, FiredEvent, GeneralEvent, SectorEvent,
  EndMissionEvent, HitEvent, KillEvent, ChatEvent, RadioEvent, TelemetryEvent, TimeState,
  Ace3DeathEvent, Ace3UnconsciousEvent, ProjectileEvent,
}

pub record Storage (S : Type 0) : Type 0 where
  pub start_mission : Mission → World → Exec S (Unit {0})
  pub end_mission : Exec S (Unit {0})
  pub add_soldier : Soldier → Exec S (Unit {0})
  pub add_vehicle : Vehicle → Exec S (Unit {0})
  pub add_marker : Marker → Exec S ℕ
  pub delete_soldier : ℕ → Frame → Exec S (Unit {0})
  pub delete_vehicle : ℕ → Frame → Exec S (Unit {0})
  pub record_soldier_state : SoldierState → Exec S (Unit {0})
  pub record_vehicle_state : VehicleState → Exec S (Unit {0})
  pub record_marker_state : MarkerState → Exec S (Unit {0})
  pub delete_marker : DeleteMarker → Exec S (Unit {0})
  pub record_fired_event : FiredEvent → Exec S (Unit {0})
  pub record_projectile_event : ProjectileEvent → Exec S (Unit {0})
  pub record_general_event : GeneralEvent → Exec S (Unit {0})
  pub record_sector_event : SectorEvent → Exec S (Unit {0})
  pub record_end_mission_event : EndMissionEvent → Exec S (Unit {0})
  pub record_hit_event : HitEvent → Exec S (Unit {0})
  pub record_kill_event : KillEvent → Exec S (Unit {0})
  pub record_chat_event : ChatEvent → Exec S (Unit {0})
  pub record_radio_event : RadioEvent → Exec S (Unit {0})
  pub record_telemetry_event : TelemetryEvent → Exec S (Unit {0})
  pub record_time_state : TimeState → Exec S (Unit {0})
  pub record_ace3_death_event : Ace3DeathEvent → Exec S (Unit {0})
  pub record_ace3_unconscious_event : Ace3UnconsciousEvent → Exec S (Unit {0})
  pub add_placed_object : PlacedObject → Exec S (Unit {0})
  pub record_placed_object_event : PlacedObjectEvent → Exec S (Unit {0})
  pub set_focus_start : Frame → Exec S (Unit {0})
  pub set_focus_end : Frame → Exec S (Unit {0})
