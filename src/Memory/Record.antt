-- ===== src/Memory/Record.antt =====
-- memory.go: registration of units and placed objects, and the recording of states and events.
-- None of these methods fails; a state for an unknown id is dropped.
use ocap2_extension.Prelude.{ℕ, [], ◌∷◌, ◌++◌, nat_eq}
use ocap2_extension.Prelude.Map.{insert, adjust}
use ocap2_extension.Core.{
  Frame, Soldier, SoldierState, Vehicle, VehicleState, PlacedObject, PlacedObjectEvent, FiredEvent,
  GeneralEvent, SectorEvent, EndMissionEvent, HitEvent, KillEvent, ChatEvent, RadioEvent,
  TelemetryEvent, TimeState, Ace3DeathEvent, Ace3UnconsciousEvent, ProjectileEvent,
}
use ocap2_extension.Memory.State.{
  SoldierRecord, VehicleRecord, PlacedObjectRecord, EventLog, Backend,
}

-- `&SoldierRecord{Soldier: *s, States: …}`
abbrev pub new_soldier : Soldier → SoldierRecord
new_soldier s = record { soldier = s; states = []; fired_events = [] }

abbrev pub new_vehicle : Vehicle → VehicleRecord
new_vehicle v = record { vehicle = v; states = [] }

abbrev pub new_placed : PlacedObject → PlacedObjectRecord
new_placed p = record { placed_object = p; events = [] }

-- The writes through a record's pointer.
abbrev pub end_soldier : Frame → SoldierRecord → SoldierRecord
end_soldier frame r = let s = r.soldier in record r { soldier = record s { delete_frame = frame } }

abbrev pub end_vehicle : Frame → VehicleRecord → VehicleRecord
end_vehicle frame r = let v = r.vehicle in record r { vehicle = record v { delete_frame = frame } }

abbrev pub push_soldier_state : SoldierState → SoldierRecord → SoldierRecord
push_soldier_state s r = record r { states = r.states ++ s ∷ [] }

abbrev pub push_vehicle_state : VehicleState → VehicleRecord → VehicleRecord
push_vehicle_state v r = record r { states = r.states ++ v ∷ [] }

abbrev pub push_fired_event : FiredEvent → SoldierRecord → SoldierRecord
push_fired_event e r = record r { fired_events = r.fired_events ++ e ∷ [] }

abbrev pub push_placed_event : PlacedObjectEvent → PlacedObjectRecord → PlacedObjectRecord
push_placed_event e r = record r { events = r.events ++ e ∷ [] }

unfoldable pub add_soldier : Soldier → Backend → Backend
add_soldier s b = record b { soldiers = insert s.id (new_soldier s) b.soldiers }

unfoldable pub add_vehicle : Vehicle → Backend → Backend
add_vehicle v b = record b { vehicles = insert v.id (new_vehicle v) b.vehicles }

unfoldable pub delete_soldier : ℕ → Frame → Backend → Backend
delete_soldier id frame b = record b { soldiers = adjust (end_soldier frame) id b.soldiers }

unfoldable pub delete_vehicle : ℕ → Frame → Backend → Backend
delete_vehicle id frame b = record b { vehicles = adjust (end_vehicle frame) id b.vehicles }

unfoldable pub record_soldier_state : SoldierState → Backend → Backend
record_soldier_state s b = record b {
  soldiers = adjust (push_soldier_state s) s.soldier_id b.soldiers;
}

unfoldable pub record_vehicle_state : VehicleState → Backend → Backend
record_vehicle_state v b = record b {
  vehicles = adjust (push_vehicle_state v) v.vehicle_id b.vehicles;
}

unfoldable pub record_fired_event : FiredEvent → Backend → Backend
record_fired_event e b = record b { soldiers = adjust (push_fired_event e) e.soldier_id b.soldiers }

unfoldable pub add_placed_object : PlacedObject → Backend → Backend
add_placed_object p b = record b { placed = insert p.id (new_placed p) b.placed }

unfoldable pub record_placed_object_event : PlacedObjectEvent → Backend → Backend
record_placed_object_event e b = record b {
  placed = adjust (push_placed_event e) e.placed_id b.placed;
}

-- The event slices.
logging : (EventLog → EventLog) → Backend → Backend
logging f b = record b { log = f b.log }

unfoldable pub record_projectile_event : ProjectileEvent → Backend → Backend
unfolding logging
record_projectile_event e =
    logging λ l. record l { projectile_events = l.projectile_events ++ e ∷ [] }

unfoldable pub record_general_event : GeneralEvent → Backend → Backend
unfolding logging
record_general_event e = logging λ l. record l { general_events = l.general_events ++ e ∷ [] }

unfoldable pub record_sector_event : SectorEvent → Backend → Backend
unfolding logging
record_sector_event e = logging λ l. record l { sector_events = l.sector_events ++ e ∷ [] }

unfoldable pub record_end_mission_event : EndMissionEvent → Backend → Backend
unfolding logging
record_end_mission_event e =
    logging λ l. record l { end_mission_events = l.end_mission_events ++ e ∷ [] }

unfoldable pub record_hit_event : HitEvent → Backend → Backend
unfolding logging
record_hit_event e = logging λ l. record l { hit_events = l.hit_events ++ e ∷ [] }

unfoldable pub record_kill_event : KillEvent → Backend → Backend
unfolding logging
record_kill_event e = logging λ l. record l { kill_events = l.kill_events ++ e ∷ [] }

unfoldable pub record_chat_event : ChatEvent → Backend → Backend
unfolding logging
record_chat_event e = logging λ l. record l { chat_events = l.chat_events ++ e ∷ [] }

unfoldable pub record_radio_event : RadioEvent → Backend → Backend
unfolding logging
record_radio_event e = logging λ l. record l { radio_events = l.radio_events ++ e ∷ [] }

unfoldable pub record_telemetry_event : TelemetryEvent → Backend → Backend
unfolding logging
record_telemetry_event e = logging λ l. record l { telemetry_events = l.telemetry_events ++ e ∷ [] }

unfoldable pub record_time_state : TimeState → Backend → Backend
unfolding logging
record_time_state t = logging λ l. record l { time_states = l.time_states ++ t ∷ [] }

unfoldable pub record_ace3_death_event : Ace3DeathEvent → Backend → Backend
unfolding logging
record_ace3_death_event e =
    logging λ l. record l { ace3_death_events = l.ace3_death_events ++ e ∷ [] }

unfoldable pub record_ace3_unconscious_event : Ace3UnconsciousEvent → Backend → Backend
unfolding logging
record_ace3_unconscious_event e =
    logging λ l. record l { ace3_unconscious_events = l.ace3_unconscious_events ++ e ∷ [] }
