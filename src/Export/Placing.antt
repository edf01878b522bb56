-- ===== src/Export/Placing.antt =====
-- builder.go: the loops of Build that put the entities in place.
use ocap2_extension.Prelude.{
  ℕ, ◌+◌, ◌≤◌, ◌<◌, ◌%◌, [], ◌∷◌, Option, none, some, ◌||◌, ◌≡◌, refl, ◌∙◌, ap, arith, nat_eq,
  if◌then◌else◌, length, ltb, All, All-mono, Bool, subst, inl, inr, Bool-cases,
}
use ocap2_extension.Prelude.Map.{Map, lookup, Distinct}
use ocap2_extension.Prelude.Panic.{◌>>=◌}
use ocap2_extension.Core.{Std, Frame}
use ocap2_extension.Export.Data.{SoldierRecord, VehicleRecord, MissionData, Entity}
use ocap2_extension.Export.Entities.{no_entity, build_soldier_entity, build_vehicle_entity}
use ocap2_extension.Export.Build.{
  place_soldiers, place_vehicles, blank_entities, has_entities, max_frame, max_entity_id,
}
use ocap2_extension.Export.Table.{table, table_ext, place-table, replicate-table}
use ocap2_extension.Export.Metadata.{soldiers-le-max, vehicles-le-max}

-- The maps of a mission as the recorder builds them: each unit under its own id, no id twice, and
-- none that is both a soldier and a vehicle; the largest id leaves room for the uint16 that counts
-- one more.
pub record IsKeyed (d : MissionData) : Type 0 where
  pub soldiers_keyed : All (λ e. e.1.soldier.id ≡ e.0) d.soldiers
  pub vehicles_keyed : All (λ e. e.1.vehicle.id ≡ e.0) d.vehicles
  pub soldiers_distinct : Distinct d.soldiers
  pub vehicles_distinct : Distinct d.vehicles
  pub disjoint : All (λ e. lookup e.0 d.vehicles ≡ none) d.soldiers
  pub room : max_entity_id d < 65_535

abbrev soldier_or : Option SoldierRecord → Frame → Entity → Entity
soldier_or none mf e = e
soldier_or (some r) mf e = build_soldier_entity r mf []

place_soldiers-table :
    (mf : Frame) (rs : Map ℕ SoldierRecord) (n : ℕ) (f : ℕ → Entity)
    → All (λ e. e.1.soldier.id ≡ e.0) rs
    → Distinct rs
    → All (λ e. e.1.soldier.id < n) rs
    → place_soldiers mf rs (table 0 n f) ≡ some (table 0 n (λ j. soldier_or (lookup j rs) mf (f j)))
unfolding place_soldiers lookup Distinct
place_soldiers-table mf [] n f k u b = refl
place_soldiers-table mf ((i, r) ∷ rs) n f (k, ks) (u, us) (b, bs) =
    rw (place-table n f r.soldier.id (build_soldier_entity r mf []) b)
      (place_soldiers-table mf rs n _ ks us bs ∙ ap some (table_ext 0 n _ _ λ j lt. ground arith))

-- How many entities the export holds.
abbrev pub entity_count : MissionData → ℕ
entity_count d = if has_entities d then max_entity_id d + 1 else 0

below_count {κ} :
    {V : Type κ} (id : ℕ × V → ℕ) (rs : Map ℕ V) (other : Bool) (top : ℕ)
    → All (λ e. id e ≤ top) rs
    → All (λ e. id e < (if ltb 0 (length rs) || other then top + 1 else 0)) rs
below_count id [] other top h = tt
below_count id (r ∷ rs) other top h = All-mono (r ∷ rs) (λ e le. ground arith) h

or_comm : (a b : Bool) → (a || b) ≡ (b || a)
or_comm a b = ground arith

blank_entities-table :
    (d : MissionData) → IsKeyed d → blank_entities d ≡ table 0 (entity_count d) (λ j. no_entity)
unfolding blank_entities
blank_entities-table d v = elim (Bool-cases (has_entities d)) [
  | inl e ↦ rw e (
      replicate-table 0 ((max_entity_id d + 1) % 65_536) no_entity
      ∙ ap (λ n. table 0 n (λ j. no_entity)) (omega (arith, v.room)))
  | inr e ↦ rw e refl
]

soldiers-lt-count : (d : MissionData) → All (λ e. e.1.soldier.id < entity_count d) d.soldiers
unfolding has_entities
soldiers-lt-count d =
    below_count (λ e. e.1.soldier.id) d.soldiers (ltb 0 (length d.vehicles)) (max_entity_id d)
      (soldiers-le-max d)

vehicles-lt-count : (d : MissionData) → All (λ e. e.1.vehicle.id < entity_count d) d.vehicles
unfolding has_entities
vehicles-lt-count d =
    subst
      (λ (t : Bool). All (λ e. e.1.vehicle.id < (if t then max_entity_id d + 1 else 0)) d.vehicles)
      (or_comm (ltb 0 (length d.vehicles)) (ltb 0 (length d.soldiers)))
      (below_count (λ e. e.1.vehicle.id) d.vehicles (ltb 0 (length d.soldiers)) (max_entity_id d)
        (vehicles-le-max d))

module _ (std : Std) where
  abbrev vehicle_or : Option VehicleRecord → Frame → Entity → Entity
  vehicle_or none mf e = e
  vehicle_or (some r) mf e = build_vehicle_entity std r mf

  place_vehicles-table :
      (mf : Frame) (rs : Map ℕ VehicleRecord) (n : ℕ) (f : ℕ → Entity)
      → All (λ e. e.1.vehicle.id ≡ e.0) rs
      → Distinct rs
      → All (λ e. e.1.vehicle.id < n) rs
      → place_vehicles std mf rs (table 0 n f)
        ≡ some (table 0 n (λ j. vehicle_or (lookup j rs) mf (f j)))
  unfolding place_vehicles lookup Distinct
  place_vehicles-table mf [] n f k u b = refl
  place_vehicles-table mf ((i, r) ∷ rs) n f (k, ks) (u, us) (b, bs) =
      rw (place-table n f r.vehicle.id (build_vehicle_entity std r mf) b)
        (place_vehicles-table mf rs n _ ks us bs ∙ ap some (table_ext 0 n _ _ λ j lt. ground arith))

  -- The unit with an id, as its entity without lines of fire; a blank entity if there is none.
  unfoldable pub unit_at : MissionData → ℕ → Entity
  unit_at d j =
      vehicle_or (lookup j d.vehicles) (max_frame d)
        (soldier_or (lookup j d.soldiers) (max_frame d) no_entity)

  -- For units that stand under their own ids, once each, none both soldier and vehicle, and ids below
  -- 65535, `Build` places every unit without an index out of range, and index N then holds the unit
  -- with id N, or a blank entity where there is none.
  pub placed-table :
      (d : MissionData)
      → IsKeyed d
      → (place_soldiers (max_frame d) d.soldiers (blank_entities d)
          >>= place_vehicles std (max_frame d) d.vehicles)
        ≡ some (table 0 (entity_count d) (unit_at d))
  unfolding unit_at
  placed-table d v = rw (blank_entities-table d v) (
      rw
        (place_soldiers-table (max_frame d) d.soldiers (entity_count d) (λ j. no_entity)
          v.soldiers_keyed v.soldiers_distinct (soldiers-lt-count d))
        (place_vehicles-table (max_frame d) d.vehicles (entity_count d) _ v.vehicles_keyed
          v.vehicles_distinct (vehicles-lt-count d)))
