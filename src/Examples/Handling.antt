-- ===== src/Examples/Handling.antt =====
-- The worker's theorems at a few messages of the small mission.
use ocap2_extension.Prelude.{
  String, List, [], ◌∷◌, some, true, ◌≡◌, refl, nat_eq, All, string_eq, pos,
}
use ocap2_extension.Prelude.Map.{lookup, insert}
use ocap2_extension.Core.{Soldier}
use ocap2_extension.Cache.EntityCache.{get_soldier}
use ocap2_extension.Cache.MarkerCache
use ocap2_extension.Export.Data.{SoldierRecord}
use ocap2_extension.Export.Entities.{build_soldier_entity}
use ocap2_extension.Memory.State.{Backend, new}
use ocap2_extension.Memory.Lifecycle.{written}
use ocap2_extension.Memory.Storage.{memory}
use ocap2_extension.Memory.Trace.{run}
use ocap2_extension.Memory.Export.{build_mission_data}
use ocap2_extension.Worker.State.{Manager}
use ocap2_extension.Worker.Entities.{handle_new_soldier, handle_new_vehicle}
use ocap2_extension.Worker.Movement.{
  handle_soldier_state, handle_vehicle_state, note_player, takes_over, taken_over,
}
use ocap2_extension.Worker.Events.{handle_chat_event, handle_kill_event}
use ocap2_extension.Worker.Markers.{handle_focus_start}
use ocap2_extension.Worker.Commands.{
  Command, soldier_create, soldier_state, vehicle_create, vehicle_state, event_kill,
  mission_focus_start, event_chat, handle, handle_all,
}
use ocap2_extension.Worker.Atomic.{asked_all, handle_all-run}
use ocap2_extension.Worker.Exported.{started, handle_all-build_soldier_entity}
use ocap2_extension.Worker.References.{KillRefers}
use ocap2_extension.Worker.Kills.{handle_all-KillRefers}
use ocap2_extension.Examples.Data.{std, mission, world, rifleman, service}

abbrev messages : List (Command × List String)
messages =
    (soldier_create, [])
    ∷ (soldier_state, [])
    ∷ (vehicle_create, [])
    ∷ (vehicle_state, [])
    ∷ (event_kill, [])
    ∷ (event_chat, [])
    ∷ (mission_focus_start, [])
    ∷ []

abbrev start : Manager Backend
start = started mission world new MarkerCache.new

-- The rifleman after Ann took him over.
abbrev ann : Soldier
ann = record rifleman { unit_name = "Ann"; is_player = true }

handle_all-run_example :
    (handle_all service (memory std (written "patrol.json.gz")) messages start).backend
    ≡ run (asked_all service std (written "patrol.json.gz") messages start) start.backend
handle_all-run_example = handle_all-run service std (written "patrol.json.gz") messages start

ann_cached :
    get_soldier
      (handle_all service (memory std (written "patrol.json.gz")) messages start).entity_cache
      1
    ≡ some ann
unfolding handle_all handle handle_new_soldier handle_soldier_state handle_vehicle_state
    handle_new_vehicle handle_kill_event handle_chat_event handle_focus_start note_player takes_over
    taken_over lookup insert
ann_cached = refl

handle_all-build_soldier_entity_example :
    let m = handle_all service (memory std (written "patrol.json.gz")) messages start in
    (r : SoldierRecord) × (lookup 1 (build_mission_data m.backend).soldiers ≡ some r)
    × ((build_soldier_entity r 5 []).name ≡ "Ann")
    × ((build_soldier_entity r 5 []).is_player ≡ pos 1)
handle_all-build_soldier_entity_example =
    handle_all-build_soldier_entity service std (written "patrol.json.gz") messages mission world
      new MarkerCache.new 1 ann 5 [] ann_cached

handle_all-KillRefers_example :
    let m = handle_all service (memory std (written "patrol.json.gz")) messages start in
    All (KillRefers m.backend.soldiers m.backend.vehicles) m.backend.log.kill_events
handle_all-KillRefers_example =
    handle_all-KillRefers service std (written "patrol.json.gz") messages mission world new
      MarkerCache.new
