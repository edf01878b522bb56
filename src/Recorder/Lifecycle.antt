-- ===== src/Recorder/Lifecycle.antt =====
-- main.go: handleNewMission; mission_save.go: triggerMissionSave and runMissionSaveWorker. Each
-- command changes the package's variables, here one record. `callbacks` is what was written to the
-- game by WriteArmaCallback, in order.
use ocap2_extension.Prelude.{
  String, Bool, true, false, List, [], ◌∷◌, ◌++◌, Option, none, some, string_eq, ◌==◌,
  if◌then◌else◌,
}
use ocap2_extension.Core.{Mission, World, Exec, UploadMetadata, str}
use ocap2_extension.Core.Result.{Result, Outcome, ok, err, Error, errorf}
use ocap2_extension.Cache.EntityCache
use ocap2_extension.Cache.MarkerCache
use ocap2_extension.Parser.{Service}
use ocap2_extension.Storage.{Storage}
use ocap2_extension.Worker.State.{Manager}

pub record Callback : Type 0 where
  pub function : String
  pub values : List String

pub record Recorder (S : Type 0) : Type 0 where
  pub workers : Manager S
  pub addon_version : String
  pub in_flight : Bool
  pub callbacks : List Callback

-- The version of the build and the configured tag.
pub record Settings : Type 0 where
  pub build_version : String
  pub default_tag : String

abbrev pub tagged : Settings → String → Mission → Mission
tagged c addon m = record m {
  addon_version = addon;
  extension_version = c.build_version;
  tag = if m.tag == "" then c.default_tag else m.tag;
}

abbrev pub write_callback : {S : Type 0} → Callback → Recorder S → Recorder S
write_callback c r = record r { callbacks = r.callbacks ++ c ∷ [] }

abbrev pub reset_caches : {S : Type 0} → Manager S → Manager S
reset_caches m = record m {
  entity_cache = EntityCache.reset m.entity_cache;
  marker_cache = MarkerCache.reset m.marker_cache;
}

module _ {S : Type 0} (p : Option Service) (b : Option (Storage S)) (settings : Settings) where
  -- The backend's StartMission. Without a backend there is nothing to start.
  abbrev pub starting : Option (Storage S) → Mission → World → Exec (Recorder S) (Unit {0})
  starting none m w r = (ok tt, r)
  starting (some backend) m w r =
      let (o, s) = backend.start_mission m w r.workers.backend in
      (o, record r { workers = record r.workers { backend = s } })

  -- The game is told when it succeeds.
  abbrev pub begin : Mission → World → Exec (Recorder S) (Unit {0})
  begin m w r = let (o, t) = starting b m w r in answered o t
    where
      answered : Outcome → Exec (Recorder S) (Unit {0})
      answered (err e) t = (err e, t)
      answered (ok u) t =
          (ok u, write_callback (record { function = ":MISSION:OK:"; values = "OK" ∷ [] }) t)

  abbrev pub with_mission : Result (Mission × World) → Exec (Recorder S) (Unit {0})
  with_mission (err e) r = (err e, r)
  with_mission (ok (m, w)) r =
      begin (tagged settings r.addon_version m) w (record r { workers = reset_caches r.workers })

  -- Without a parser the message is ignored.
  unfoldable pub handle_new_mission : List String → Exec (Recorder S) (Unit {0})
  handle_new_mission args r = elim p [
    | none ↦ (ok tt, r)
    | some parser ↦ with_mission (parser.parse_mission args) r
  ]

-- How the client's upload ends.
pub data Sent : Type 0 where
  delivered : Sent
  failed : String → Sent
  panicked : String → Sent

-- What `storage.Uploadable` and the API client do for a backend that has a file to upload.
pub record Upload (S : Type 0) : Type 0 where
  pub get_exported_file_path : S → String
  pub get_export_metadata : S → UploadMetadata
  -- `none` where no client is configured
  pub client : Option (String → UploadMetadata → Sent)

-- How a save ends.
pub data Saved : Type 0 where
  saved : String → Saved
  saved_only : String → String → Saved
  not_saved : String → Saved

abbrev pub callback_of : Saved → Callback
callback_of (saved path) = record { function = ":MISSION:SAVED:"; values = "ok" ∷ path ∷ [] }
callback_of (saved_only path e) = record {
  function = ":MISSION:SAVED:";
  values = "partial" ∷ path ∷ e ∷ [];
}
callback_of (not_saved e) = record { function = ":MISSION:SAVED:"; values = "error" ∷ e ∷ [] }

module _ {S : Type 0} (b : Storage S) (u : Upload S) (error_text : Error → String) where
  -- A panic of the client is recovered, like one of EndMission.
  uploaded : String → Sent → Saved
  uploaded path delivered = saved path
  uploaded path (failed e) = saved_only path e
  uploaded path (panicked text) =
      not_saved (error_text (errorf "panic during mission save: %v" (str text ∷ [])))

  -- Without a client the path is reported all the same.
  upload : S → Saved
  unfolding uploaded
  upload s = elim u.client [
    | none ↦ saved (u.get_exported_file_path s)
    | some send ↦
        if u.get_exported_file_path s == ""
        then saved ""
        else uploaded (u.get_exported_file_path s)
            (send (u.get_exported_file_path s) (u.get_export_metadata s))
  ]

  -- A panic of EndMission is recovered.
  unfoldable pub save_outcome : Outcome → S → Saved
  unfolding upload
  save_outcome (ok t) s = upload s
  save_outcome (err e) s = not_saved (error_text e)

  -- The compare-and-swap on the flag.
  abbrev pub unless_in_flight : Bool → Exec (Recorder S) String
  unless_in_flight true r = (err (errorf "save already in progress" []), r)
  unless_in_flight false r = (ok "queued", record r { in_flight = true })

  -- triggerMissionSave for a backend that is there.
  unfoldable pub trigger_mission_save : Exec (Recorder S) String
  trigger_mission_save r = unless_in_flight r.in_flight r

  -- The goroutine that the trigger started, up to its end.
  unfoldable pub run_mission_save_worker : Recorder S → Recorder S
  unfolding save_outcome
  run_mission_save_worker r =
      let (o, s) = b.end_mission r.workers.backend in
      record r {
        workers = record r.workers { backend = s };
        in_flight = false;
        callbacks = r.callbacks ++ callback_of (save_outcome o s) ∷ [];
      }
