-- ===== src/Memory/Missions.antt =====
-- memory.go: StartMission and EndMission, and what of one mission is left for the next.
use ocap2_extension.Prelude.{ℕ, List, [], none, some, ◌≡◌, arith, nat_eq}
use ocap2_extension.Prelude.Map.{lookup}
use ocap2_extension.Core.{Mission, World, Std}
use ocap2_extension.Memory.State.{Backend, empty_log, empty_markers, empty_focus}
use ocap2_extension.Memory.Metadata.{get_export_metadata}
use ocap2_extension.Memory.Lifecycle.{Exported, written, start_mission, end_mission}
use ocap2_extension.Memory.Trace.{Op, run}
use ocap2_extension.Memory.Histories.{soldier_history, run-soldier_history}

-- Every collection is empty.
pub record IsFresh (b : Backend) : Type 0 where
  pub soldiers : b.soldiers ≡ []
  pub vehicles : b.vehicles ≡ []
  pub placed : b.placed ≡ []
  pub markers : b.marker_store ≡ empty_markers
  pub log : b.log ≡ empty_log
  pub focus : b.focus ≡ empty_focus

-- A mission that never started can neither be ended nor be changed by the attempt.
pub end_mission_idle :
    (std : Std) (how : Exported) (b : Backend) → b.mission ≡ none → (end_mission std how b).1 ≡ b
unfolding end_mission
end_mission_idle std how b h = ground arith

-- EndMission of a started mission empties the backend, whether the export was written, failed or
-- panicked, and leaves no mission.
pub end_mission-IsFresh :
    (std : Std) (how : Exported) (b : Backend) (m : Mission)
    → b.mission ≡ some m
    → ((end_mission std how b).1.mission ≡ none) × IsFresh (end_mission std how b).1
unfolding end_mission
end_mission-IsFresh std (written p) b m h = ground arith
end_mission-IsFresh std _ b m h = ground arith

-- For a started mission the metadata reported after EndMission is the metadata reported before it,
-- however the export ended.
pub get_export_metadata-end_mission :
    (std : Std) (how : Exported) (b : Backend) (m : Mission) (w : World)
    → b.mission ≡ some m
    → b.world ≡ some w
    → get_export_metadata std (end_mission std how b).1 ≡ get_export_metadata std b
unfolding get_export_metadata end_mission
get_export_metadata-end_mission std (written p) b m w h k = ground arith
get_export_metadata-end_mission std _ b m w h k = ground arith

-- What a new mission records of a soldier does not depend on what the backend held before it.
pub start_mission-soldier_history :
    (m : Mission) (w : World) (b : Backend) (os : List Op) (id : ℕ)
    → lookup id (run os (start_mission m w b)).soldiers ≡ soldier_history id none os
unfolding start_mission lookup
start_mission-soldier_history m w b os id = run-soldier_history os id (start_mission m w b)
