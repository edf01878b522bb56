-- ===== src/Examples/Sessions.antt =====
-- The theorems on the recorder's lifecycle at a small mission and a save that is triggered twice.
use ocap2_extension.Prelude.{String, false, refl, ◌≡◌, [], ◌∷◌, some, none, nat_eq, string_eq}
use ocap2_extension.Prelude.Map.{lookup, insert}
use ocap2_extension.Cache.EntityCache
use ocap2_extension.Cache.MarkerCache
use ocap2_extension.Core.Result.{Error}
use ocap2_extension.Export.Data.{SoldierRecord}
use ocap2_extension.Export.Entities.{build_soldier_entity}
use ocap2_extension.Export.Names.{bool_to_int}
use ocap2_extension.Memory.State.{Backend, new}
use ocap2_extension.Memory.Lifecycle.{written}
use ocap2_extension.Memory.Storage.{memory}
use ocap2_extension.Memory.Export.{build_mission_data}
use ocap2_extension.Worker.Entities.{handle_new_soldier}
use ocap2_extension.Worker.Commands.{soldier_create, handle, handle_all}
use ocap2_extension.Recorder.Lifecycle.{Recorder, Settings, Upload, handle_new_mission}
use ocap2_extension.Recorder.Saves.{triggers, finishes, IsSingle, moves, idle, moves-IsSingle}
use ocap2_extension.Recorder.Sessions.{handle_new_mission-build_soldier_entity}
use ocap2_extension.Memory.Metadata.{get_export_metadata}
use ocap2_extension.Examples.Data.{std, service, rifleman}

abbrev settings : Settings
settings = record { build_version = "5.0.0"; default_tag = "TvT" }

abbrev recorder : Recorder Backend
recorder = record {
  workers = record {
    entity_cache = EntityCache.new;
    marker_cache = MarkerCache.new;
    backend = new;
  };
  addon_version = "2.0.0";
  in_flight = false;
  callbacks = [];
}

abbrev upload : Upload Backend
upload = record {
  get_exported_file_path = λ b. b.last_export_path;
  get_export_metadata = get_export_metadata std;
  client = none;
}

abbrev text_of : Error → String
text_of e = "failed"

moves-IsSingle_example : IsSingle (memory std (written "patrol.json.gz")) upload text_of 0 (
    moves
      (memory std (written "patrol.json.gz"))
      upload
      text_of
      (triggers ∷ triggers ∷ finishes ∷ triggers ∷ [])
      (idle (memory std (written "patrol.json.gz")) upload text_of recorder))
moves-IsSingle_example =
    moves-IsSingle (memory std (written "patrol.json.gz")) upload text_of
      (triggers ∷ triggers ∷ finishes ∷ triggers ∷ []) recorder refl

-- After the start message.
abbrev first_minutes : Recorder Backend
first_minutes =
    (handle_new_mission (some service) (some (memory std (written "patrol.json.gz"))) settings []
      recorder).1

handle_new_mission-build_soldier_entity_example :
    let m =
      handle_all service
        (memory std (written "patrol.json.gz"))
        ((soldier_create, []) ∷ [])
        first_minutes.workers in
    (e : SoldierRecord) × (lookup 1 (build_mission_data m.backend).soldiers ≡ some e)
    × ((build_soldier_entity e 9 []).name ≡ "AI 1")
    × ((build_soldier_entity e 9 []).is_player ≡ bool_to_int false)
unfolding handle_all handle handle_new_soldier handle_new_mission lookup insert EntityCache.reset
handle_new_mission-build_soldier_entity_example =
    handle_new_mission-build_soldier_entity service std (written "patrol.json.gz") settings [] _ _
      recorder ((soldier_create, []) ∷ []) 1 rifleman 9 [] refl refl
