-- ===== src/Memory/Lifecycle.antt =====
-- memory.go: StartMission, EndMission, resetCollections.
use ocap2_extension.Prelude.{String, [], Option, none, some}
use ocap2_extension.Core.{Mission, World, Std, str, Outcome, nil_error}
use ocap2_extension.Core.Result.{Error, errorf, err}
use ocap2_extension.Prelude.{◌∷◌}
use ocap2_extension.Memory.State.{Backend, empty_log, empty_markers, empty_focus}
use ocap2_extension.Memory.Metadata.{compute_export_metadata}

unfoldable pub reset_collections : Backend → Backend
reset_collections b = record b {
  soldiers = [];
  vehicles = [];
  placed = [];
  marker_store = empty_markers;
  log = empty_log;
  focus = empty_focus;
}

unfoldable pub start_mission : Mission → World → Backend → Backend
unfolding reset_collections
start_mission m w b =
    reset_collections (record b { mission = some m; world = some w; last_export_path = "" })

-- How `exportJSON` ends: it depends on the clock and the file system, and it may panic in the
-- builder or the encoder.
pub data Exported : Type 0 where
  written : String → Exported
  failed : Error → Exported
  panicked : String → Exported

abbrev export_json : Exported → Backend → Outcome × Backend
export_json (written path) b = (nil_error, record b { last_export_path = path })
export_json (failed e) b = (err e, b)
export_json (panicked r) b = (err (errorf "panic during mission export: %v" (str r ∷ [])), b)

-- The deferred cleanup.
cleanup : Outcome × Backend → Outcome × Backend
unfolding reset_collections
cleanup (r, b) = (r, reset_collections (record b { mission = none; world = none }))

module _ (std : Std) where
  end_for : Option Mission → Exported → Backend → Outcome × Backend
  unfolding cleanup
  end_for none how b = (err (errorf "no mission to end: mission was never started" []), b)
  end_for (some m) how b =
      cleanup (export_json how (record b { last_export_metadata = compute_export_metadata std b }))

  unfoldable pub end_mission : Exported → Backend → Outcome × Backend
  unfolding end_for
  end_mission how b = end_for b.mission how b
