-- ===== src/Examples/Recording.antt =====
-- The recorder's theorems at the small mission.
use ocap2_extension.Prelude.{
  List, [], ◌∷◌, none, some, true, false, ◌≡◌, refl, arith, nat_eq, string_eq,
}
use ocap2_extension.Prelude.Map.{lookup}
use ocap2_extension.Memory.State.{new, empty_markers}
use ocap2_extension.Memory.Lifecycle.{start_mission, end_mission, written, panicked}
use ocap2_extension.Memory.Markers.{named}
use ocap2_extension.Memory.Metadata.{get_export_metadata}
use ocap2_extension.Memory.Trace.{
  Op, adds_soldier, adds_vehicle, adds_marker, adds_placed, soldier_moves, vehicle_moves,
  marker_moves, focuses, unfocuses, projectile, placed_fires, step, run, run-mission,
}
use ocap2_extension.Memory.Histories.{
  soldier_history, run-soldier_history, vehicle_history, run-vehicle_history, placed_history,
  run-placed_history,
}
use ocap2_extension.Memory.MarkerLinks.{empty-Linked}
use ocap2_extension.Memory.MarkerHistory.{marker_history, run-marker_history}
use ocap2_extension.Memory.FocusOrder.{Ordered, get_export_metadata-Ordered}
use ocap2_extension.Memory.Missions.{
  IsFresh, end_mission-IsFresh, get_export_metadata-end_mission, start_mission-soldier_history,
}
use ocap2_extension.Memory.Keys.{HasKeys, start_mission-HasKeys, run-HasKeys}
use ocap2_extension.Examples.Data.{
  std, mission, world, rifleman, seen_at, truck, truck_at, objective, objective_at, mine, mine_hit,
  bullet,
}

abbrev pub patrol : List Op
patrol =
    adds_soldier rifleman
    ∷ adds_vehicle truck
    ∷ adds_marker objective
    ∷ adds_placed mine
    ∷ soldier_moves (seen_at 1 "AI 1" false)
    ∷ focuses 2
    ∷ soldier_moves (seen_at 3 "Ann" true)
    ∷ vehicle_moves (truck_at 2)
    ∷ marker_moves (objective_at 2)
    ∷ projectile bullet
    ∷ placed_fires mine_hit
    ∷ unfocuses 4
    ∷ []

run-soldier_history_example :
    lookup 1 (run patrol new).soldiers ≡ soldier_history 1 (lookup 1 new.soldiers) patrol
run-soldier_history_example = run-soldier_history patrol 1 new

run-vehicle_history_example :
    lookup 2 (run patrol new).vehicles ≡ vehicle_history 2 (lookup 2 new.vehicles) patrol
run-vehicle_history_example = run-vehicle_history patrol 2 new

run-placed_history_example :
    lookup 3 (run patrol new).placed ≡ placed_history 3 (lookup 3 new.placed) patrol
run-placed_history_example = run-placed_history patrol 3 new

run-marker_history_example :
    named "objective" (run patrol new).marker_store
    ≡ marker_history "objective" 0 (named "objective" empty_markers) patrol
run-marker_history_example = run-marker_history patrol "objective" new empty-Linked (omega arith)

get_export_metadata-Ordered_example :
    Ordered 1 (get_export_metadata std (run patrol (start_mission mission world new))).focus_ranges
get_export_metadata-Ordered_example = get_export_metadata-Ordered std mission world patrol new

patrol-mission : (run patrol (start_mission mission world new)).mission ≡ some mission
unfolding run step start_mission
patrol-mission = refl

patrol-world : (run patrol (start_mission mission world new)).world ≡ some world
unfolding run step start_mission
patrol-world = refl

end_mission-IsFresh_example :
    let b = run patrol (start_mission mission world new) in
    ((end_mission std (panicked "bad row") b).1.mission ≡ none)
    × IsFresh (end_mission std (panicked "bad row") b).1
end_mission-IsFresh_example =
    end_mission-IsFresh std (panicked "bad row") (run patrol (start_mission mission world new))
      mission patrol-mission

get_export_metadata-end_mission_example :
    let b = run patrol (start_mission mission world new) in
    get_export_metadata std (end_mission std (written "patrol.json.gz") b).1
    ≡ get_export_metadata std b
get_export_metadata-end_mission_example =
    get_export_metadata-end_mission std (written "patrol.json.gz")
      (run patrol (start_mission mission world new)) mission world patrol-mission patrol-world

start_mission-soldier_history_example :
    lookup 1 (run patrol (start_mission mission world (run patrol new))).soldiers
    ≡ soldier_history 1 none patrol
start_mission-soldier_history_example =
    start_mission-soldier_history mission world (run patrol new) patrol 1

run-HasKeys_example : HasKeys (run patrol (start_mission mission world new))
run-HasKeys_example =
    run-HasKeys patrol (start_mission mission world new) (start_mission-HasKeys mission world new)

run-mission_example :
    (run patrol (start_mission mission world new)).mission
    ≡ (start_mission mission world new).mission
run-mission_example = run-mission patrol (start_mission mission world new)
