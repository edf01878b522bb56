-- ===== src/Export/Overflow.antt =====
-- builder.go's `make([]Entity, maxEntityID+1)` at the largest id of a uint16.
use ocap2_extension.Prelude.{ℕ, [], ◌∷◌, none, ◌≡◌, arith}
use ocap2_extension.Prelude.Map.{Map}
use ocap2_extension.Prelude.Panic.{◌>>=◌}
use ocap2_extension.Core.{Std, Frame}
use ocap2_extension.Export.Data.{SoldierRecord, VehicleRecord, MissionData}
use ocap2_extension.Export.Build.{
  build, max_entity_id, raise_soldier_ids, raise_vehicle_ids, blank_entities, place_soldiers,
  place_vehicles, max_frame,
}

blank_entities-full : (d : MissionData) → max_entity_id d ≡ 65_535 → blank_entities d ≡ []
unfolding blank_entities
blank_entities-full d h = rw h (ground arith)

no_room :
    (std : Std) (mf : Frame) (ss : Map ℕ SoldierRecord) (vs : Map ℕ VehicleRecord)
    → raise_vehicle_ids (raise_soldier_ids 0 ss) vs ≡ 65_535
    → (place_soldiers mf ss [] >>= place_vehicles std mf vs) ≡ none
unfolding raise_vehicle_ids raise_soldier_ids place_soldiers place_vehicles
no_room std mf [] [] h = ground arith
no_room std mf [] ((k, v) ∷ vs) h = ground arith
no_room std mf ((k, s) ∷ ss) vs h = ground arith

-- `Build` panics on every mission whose largest entity id is 65535.
pub build-max_entity_id :
    (std : Std) (d : MissionData) → max_entity_id d ≡ 65_535 → build std d ≡ none
unfolding build max_entity_id
build-max_entity_id std d h =
    ground (arith, blank_entities-full d h, no_room std (max_frame d) d.soldiers d.vehicles h)
