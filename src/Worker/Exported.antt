-- ===== src/Worker/Exported.antt =====
-- The players of a mission from the messages to the export.
use ocap2_extension.Prelude.{ℕ, String, List, [], ◌∷◌, some, ◌≡◌, refl, ◌∙◌, ap, arith, nat_eq}
use ocap2_extension.Prelude.Map.{Map, lookup}
use ocap2_extension.Core.{Row, Std, Soldier, Frame, Mission, World}
use ocap2_extension.Cache.EntityCache.{new, get_soldier}
use ocap2_extension.Cache.MarkerCache.{MarkerCache}
use ocap2_extension.Parser.{Service}
use ocap2_extension.Export.Data.{SoldierRecord}
use ocap2_extension.Export.Names.{bool_to_int}
use ocap2_extension.Export.Entities.{build_soldier_entity}
use ocap2_extension.Memory.State.{Backend}
use ocap2_extension.Memory.Lifecycle.{Exported, start_mission}
use ocap2_extension.Memory.Storage.{memory}
use ocap2_extension.Memory.Export.{build_mission_data, soldier_data, lookup-map_values}
use ocap2_extension.Worker.State.{Manager}
use ocap2_extension.Worker.Commands.{Command, handle, handle_all}
use ocap2_extension.Worker.Players.{Agrees, handle-Agrees}

-- A mission has started and the caches are empty.
abbrev pub started : Mission → World → Backend → MarkerCache → Manager Backend
started mission world b markers = record {
  entity_cache = new;
  marker_cache = markers;
  backend = start_mission mission world b;
}

module _ (p : Service) (std : Std) (how : Exported) where
  handle_all-Agrees :
      (ms : List (Command × List String)) (m : Manager Backend)
      → Agrees m.entity_cache.soldiers m.backend.soldiers
      → let m' = handle_all p (memory std how) ms m in
        Agrees m'.entity_cache.soldiers m'.backend.soldiers
  unfolding handle_all
  handle_all-Agrees [] m h = h
  handle_all-Agrees ((c, args) ∷ ms) m h =
      handle_all-Agrees ms (handle p (memory std how) c args m).1
        (handle-Agrees p std how c args m h)

  nothing_cached : (rs : Map ℕ ocap2_extension.Memory.State.SoldierRecord) → Agrees [] rs
  unfolding lookup
  nothing_cached rs id s e = absurd (ground arith)

  -- After any messages since a mission started with an empty entity cache, the export data has a
  -- record for every soldier in the cache, and the entity made of it has the name and the player flag
  -- of the cached soldier.
  pub handle_all-build_soldier_entity :
      (ms : List (Command × List String)) (mission : Mission) (world : World) (b : Backend)
      (markers : MarkerCache) (id : ℕ) (s : Soldier) (mf : Frame) (lines : List Row)
      → let m = handle_all p (memory std how) ms (started mission world b markers) in
        get_soldier m.entity_cache id ≡ some s
        → (r : SoldierRecord) × (lookup id (build_mission_data m.backend).soldiers ≡ some r)
          × ((build_soldier_entity r mf lines).name ≡ s.unit_name)
          × ((build_soldier_entity r mf lines).is_player ≡ bool_to_int s.is_player)
  unfolding build_mission_data build_soldier_entity
  handle_all-build_soldier_entity ms mission world b markers id s mf lines e =
      let m = handle_all p (memory std how) ms (started mission world b markers) in
      let (k, r, l, i) =
        handle_all-Agrees ms (started mission world b markers) (nothing_cached _) id s e in
      (
        soldier_data r,
        lookup-map_values soldier_data id m.backend.soldiers ∙ rw l refl,
        ap (λ x. x.1) i,
        ap (λ x. bool_to_int x.0) i,
      )
