-- ===== src/Recorder/Sessions.antt =====
-- A mission from its start message: the worker's state after handleNewMission, and the recording
-- after any messages.
use ocap2_extension.Prelude.{ℕ, String, List, ◌≡◌, refl, subst, sym, some, nat_eq}
use ocap2_extension.Prelude.Map.{lookup}
use ocap2_extension.Core.{Mission, World, Soldier, Frame, Row, Std}
use ocap2_extension.Core.Result.{ok}
use ocap2_extension.Cache.EntityCache.{get_soldier}
use ocap2_extension.Cache.EntityCache
use ocap2_extension.Cache.MarkerCache
use ocap2_extension.Export.Data.{SoldierRecord}
use ocap2_extension.Export.Entities.{build_soldier_entity}
use ocap2_extension.Export.Names.{bool_to_int}
use ocap2_extension.Memory.State.{Backend}
use ocap2_extension.Memory.Lifecycle.{Exported}
use ocap2_extension.Memory.Storage.{memory}
use ocap2_extension.Memory.Export.{build_mission_data}
use ocap2_extension.Parser.{Service}
use ocap2_extension.Worker.Commands.{Command, handle_all}
use ocap2_extension.Worker.Exported.{started, handle_all-build_soldier_entity}
use ocap2_extension.Recorder.Lifecycle.{Recorder, Settings, tagged, handle_new_mission}

module _ (p : Service) (std : Std) (how : Exported) (settings : Settings) where
  handle_new_mission-started :
      (args : List String) (mission : Mission) (world : World) (r : Recorder Backend)
      → p.parse_mission args ≡ ok (mission, world)
      → (handle_new_mission (some p) (some (memory std how)) settings args r).1.workers
        ≡ started (tagged settings r.addon_version mission) world r.workers.backend MarkerCache.new
  unfolding handle_new_mission EntityCache.reset
  handle_new_mission-started args mission world r h = rw (h, handle_new_mission) refl

  -- Whatever was recorded before, after a start message that parses and any further messages the
  -- export data has a record for every soldier in the cache, and the entity made of it has the name
  -- and the player flag of the cached soldier.
  pub handle_new_mission-build_soldier_entity :
      (args : List String) (mission : Mission) (world : World) (r : Recorder Backend)
      (ms : List (Command × List String)) (id : ℕ) (s : Soldier) (mf : Frame) (lines : List Row)
      → p.parse_mission args ≡ ok (mission, world)
      → let m =
          handle_all p
            (memory std how)
            ms
            (handle_new_mission (some p) (some (memory std how)) settings args r).1.workers in
        get_soldier m.entity_cache id ≡ some s
        → (e : SoldierRecord) × (lookup id (build_mission_data m.backend).soldiers ≡ some e)
          × ((build_soldier_entity e mf lines).name ≡ s.unit_name)
          × ((build_soldier_entity e mf lines).is_player ≡ bool_to_int s.is_player)
  handle_new_mission-build_soldier_entity args mission world r ms id s mf lines h =
      subst
        (λ w.
          let m = handle_all p (memory std how) ms w in
          get_soldier m.entity_cache id ≡ some s
          → (e : SoldierRecord) × (lookup id (build_mission_data m.backend).soldiers ≡ some e)
            × ((build_soldier_entity e mf lines).name ≡ s.unit_name)
            × ((build_soldier_entity e mf lines).is_player ≡ bool_to_int s.is_player))
        (sym (handle_new_mission-started args mission world r h))
        (handle_all-build_soldier_entity p std how ms (tagged settings r.addon_version mission)
          world r.workers.backend MarkerCache.new id s mf lines)
