-- ===== src/Export/Metadata.antt =====
-- stream.go's single walk against builder.go's separate loops.
use ocap2_extension.Prelude.{ℕ, ◌≤◌, List, [], ◌∷◌, ◌++◌, map, ◌≡◌, refl, ◌∙◌, arith, raise, All}
use mathlib.Core.List.{append_assoc, append-nil}
use native.Mathlib.Nat.{le_refl}
use ocap2_extension.Prelude.Map.{Map}
use ocap2_extension.Core.{SoldierState, VehicleState, TimeState}
use ocap2_extension.Export.Data.{SoldierRecord, VehicleRecord, MissionData, Time}
use ocap2_extension.Export.Build.{
  raise_soldier_states, raise_vehicle_states, raise_soldiers, raise_vehicles, raise_soldier_ids,
  raise_vehicle_ids, max_frame, max_entity_id, time_entry,
}
use ocap2_extension.Export.Stream.{
  Metadata, soldier_frames, vehicle_frames, walk_soldiers, walk_vehicles, compute_metadata,
  build_times,
}

soldier_frames_lem :
    (ss : List SoldierState) (m : Metadata)
    → soldier_frames ss m ≡ record m { max_frame = raise_soldier_states m.max_frame ss }
unfolding soldier_frames raise_soldier_states
soldier_frames_lem [] m = refl
soldier_frames_lem (s ∷ ss) m = soldier_frames_lem ss _

vehicle_frames_lem :
    (ss : List VehicleState) (m : Metadata)
    → vehicle_frames ss m ≡ record m { max_frame = raise_vehicle_states m.max_frame ss }
unfolding vehicle_frames raise_vehicle_states
vehicle_frames_lem [] m = refl
vehicle_frames_lem (s ∷ ss) m = vehicle_frames_lem ss _

walk_soldiers_lem :
    (rs : Map ℕ SoldierRecord) (m : Metadata)
    → walk_soldiers rs m ≡ record {
      max_frame = raise_soldiers m.max_frame rs;
      max_entity_id = raise_soldier_ids m.max_entity_id rs;
    }
unfolding walk_soldiers raise_soldiers raise_soldier_ids
walk_soldiers_lem [] m = refl
walk_soldiers_lem ((k, r) ∷ rs) m = rw (soldier_frames_lem r.states _) (walk_soldiers_lem rs _)

walk_vehicles_lem :
    (rs : Map ℕ VehicleRecord) (m : Metadata)
    → walk_vehicles rs m ≡ record {
      max_frame = raise_vehicles m.max_frame rs;
      max_entity_id = raise_vehicle_ids m.max_entity_id rs;
    }
unfolding walk_vehicles raise_vehicles raise_vehicle_ids
walk_vehicles_lem [] m = refl
walk_vehicles_lem ((k, r) ∷ rs) m = rw (vehicle_frames_lem r.states _) (walk_vehicles_lem rs _)

pub compute_metadata_lem :
    (d : MissionData)
    → compute_metadata d ≡ record { max_frame = max_frame d; max_entity_id = max_entity_id d }
unfolding compute_metadata max_frame max_entity_id
compute_metadata_lem d = rw (walk_soldiers_lem d.soldiers _) (walk_vehicles_lem d.vehicles _)

pub build_times_lem :
    (tss : List TimeState) (times : List Time) → build_times tss times ≡ times ++ map time_entry tss
unfolding build_times
build_times_lem [] times = rw append-nil
build_times_lem (ts ∷ tss) times =
    build_times_lem tss _ ∙ append_assoc times (time_entry ts ∷ []) (map time_entry tss)

-- No unit's id is above the largest.
raise_soldier_ids-le : (m : ℕ) (rs : Map ℕ SoldierRecord) → m ≤ raise_soldier_ids m rs
unfolding raise_soldier_ids
raise_soldier_ids-le m [] = omega arith
raise_soldier_ids-le m ((k, r) ∷ rs) =
    ground (arith, raise_soldier_ids-le (raise m r.soldier.id) rs)

raise_vehicle_ids-le : (m : ℕ) (rs : Map ℕ VehicleRecord) → m ≤ raise_vehicle_ids m rs
unfolding raise_vehicle_ids
raise_vehicle_ids-le m [] = omega arith
raise_vehicle_ids-le m ((k, r) ∷ rs) =
    ground (arith, raise_vehicle_ids-le (raise m r.vehicle.id) rs)

soldier_ids_below :
    (m top : ℕ) (rs : Map ℕ SoldierRecord)
    → raise_soldier_ids m rs ≤ top
    → All (λ e. e.1.soldier.id ≤ top) rs
unfolding raise_soldier_ids
soldier_ids_below m top [] h = tt
soldier_ids_below m top ((k, r) ∷ rs) h = (
  ground (arith, raise_soldier_ids-le (raise m r.soldier.id) rs),
  soldier_ids_below (raise m r.soldier.id) top rs h,
)

vehicle_ids_below :
    (m top : ℕ) (rs : Map ℕ VehicleRecord)
    → raise_vehicle_ids m rs ≤ top
    → All (λ e. e.1.vehicle.id ≤ top) rs
unfolding raise_vehicle_ids
vehicle_ids_below m top [] h = tt
vehicle_ids_below m top ((k, r) ∷ rs) h = (
  ground (arith, raise_vehicle_ids-le (raise m r.vehicle.id) rs),
  vehicle_ids_below (raise m r.vehicle.id) top rs h,
)

pub soldiers-le-max : (d : MissionData) → All (λ e. e.1.soldier.id ≤ max_entity_id d) d.soldiers
unfolding max_entity_id
soldiers-le-max d =
    soldier_ids_below 0 (max_entity_id d) d.soldiers (raise_vehicle_ids-le _ d.vehicles)

pub vehicles-le-max : (d : MissionData) → All (λ e. e.1.vehicle.id ≤ max_entity_id d) d.vehicles
unfolding max_entity_id
vehicles-le-max d =
    vehicle_ids_below (raise_soldier_ids 0 d.soldiers) (max_entity_id d) d.vehicles (le_refl _)
