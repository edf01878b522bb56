-- ===== src/Examples/Exporting.antt =====
-- The exporter's theorems at the small mission, as it is recorded.
use mathlib.Core.List.{Perm}
use ocap2_extension.Prelude.{
  ℤ, ℕ, ◌+◌, ◌-◌, ◌≤◌, List, [], ◌∷◌, some, none, true, false, ◌≡◌, refl, arith, nat_eq, string_eq,
  length, get_elem?, inl, inr,
}
use ocap2_extension.Prelude.Map.{lookup, contains, insert, adjust}
use ocap2_extension.Prelude.Panic.{◌>>=◌}
use ocap2_extension.Prelude.Sort.{select}
use ocap2_extension.Core.{Row}
use ocap2_extension.Export.Data.{MissionData}
use ocap2_extension.Export.Names.{is_projectile_marker}
use ocap2_extension.Export.Entities.{fill, soldier_position}
use ocap2_extension.Export.Json.{encode_export}
use ocap2_extension.Export.Build.{
  build, parts, sort_events, place_soldiers, place_vehicles, blank_entities, max_frame,
  max_entity_id, raise_soldier_ids, raise_vehicle_ids,
}
use ocap2_extension.Export.Stream.{stream}
use ocap2_extension.Export.Table.{table}
use ocap2_extension.Export.Placing.{entity_count, unit_at, placed-table}
use ocap2_extension.Export.Gaps.{in_force, fill-in_force}
use ocap2_extension.Export.Overflow.{build-max_entity_id}
use ocap2_extension.Export.Chronology.{InOrder, at_frame, sort_events-parts}
use ocap2_extension.Export.StreamBuild.{IsExportable, stream-build}
use ocap2_extension.Memory.State.{new}
use ocap2_extension.Memory.Lifecycle.{start_mission}
use ocap2_extension.Memory.Trace.{run, step}
use ocap2_extension.Memory.Export.{build_mission_data}
use ocap2_extension.Memory.Keys.{
  IsClean, stream-run, HasKeys-IsExportable, run-HasKeys, start_mission-HasKeys,
}
use ocap2_extension.Examples.Data.{std, json, mission, world, rifleman, seen_at}
use ocap2_extension.Examples.Recording.{patrol}

patrol-IsClean : IsClean (run patrol (start_mission mission world new))
unfolding run step start_mission build_mission_data max_entity_id raise_soldier_ids
    raise_vehicle_ids lookup contains insert adjust is_projectile_marker
patrol-IsClean = record { disjoint = (refl, tt); room = omega arith; shots = (inr (inl refl), tt) }

abbrev recorded : MissionData
recorded = build_mission_data (run patrol (start_mission mission world new))

recorded-IsExportable : IsExportable recorded
recorded-IsExportable =
    HasKeys-IsExportable (run patrol (start_mission mission world new))
      (run-HasKeys patrol _ (start_mission-HasKeys mission world new)) patrol-IsClean

stream-run_example :
    stream std json recorded ≡ (build std recorded >>= λ x. encode_export json x "")
stream-run_example = stream-run std json mission world new patrol patrol-IsClean

stream-build_example :
    stream std json recorded ≡ (build std recorded >>= λ x. encode_export json x "")
stream-build_example = stream-build std json recorded recorded-IsExportable

placed-table_example :
    (place_soldiers (max_frame recorded) recorded.soldiers (blank_entities recorded)
      >>= place_vehicles std (max_frame recorded) recorded.vehicles)
    ≡ some (table 0 (entity_count recorded) (unit_at std recorded))
placed-table_example = placed-table std recorded recorded-IsExportable.keyed

sort_events-parts_example :
    (rows : List Row) × (sort_events (parts std recorded []).events ≡ some rows)
    × Perm (parts std recorded []).events rows
    × InOrder rows
    × ((f : ℤ) → select (at_frame f) rows ≡ select (at_frame f) (parts std recorded []).events)
sort_events-parts_example = sort_events-parts std recorded []

fill-in_force_example :
    (length (fill 0 5 (seen_at 1 "AI 1" false ∷ seen_at 3 "Ann" true ∷ [])) ≡ 5 + 1 - 1)
    × ((k : ℕ)
        → 1 + k ≤ 5
        → get_elem? (fill 0 5 (seen_at 1 "AI 1" false ∷ seen_at 3 "Ann" true ∷ [])) k
          ≡ some (
              soldier_position
                (in_force (seen_at 1 "AI 1" false) (seen_at 3 "Ann" true ∷ []) (1 + k))))
fill-in_force_example =
    fill-in_force 0 5 (seen_at 1 "AI 1" false) (seen_at 3 "Ann" true ∷ []) (omega arith)

-- The rifleman under the largest id of a uint16.
abbrev crowded : MissionData
crowded = record recorded {
  soldiers =
      (65_535, record { soldier = record rifleman { id = 65_535 }; states = []; fired_events = [] })
      ∷ [];
  vehicles = [];
}

crowded-max_entity_id : max_entity_id crowded ≡ 65_535
unfolding max_entity_id raise_soldier_ids raise_vehicle_ids
crowded-max_entity_id = refl

build-max_entity_id_example : build std crowded ≡ none
build-max_entity_id_example = build-max_entity_id std crowded crowded-max_entity_id
