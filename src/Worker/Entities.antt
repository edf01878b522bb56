-- ===== src/Worker/Entities.antt =====
-- internal/worker/dispatch.go: the handlers that create and remove entities.
use ocap2_extension.Prelude.{String, List}
use ocap2_extension.Core.Result.{Exec, ◌>>=◌, ◌>>◌}
use ocap2_extension.Cache.EntityCache.{add_soldier, add_vehicle, add_placed_object}
use ocap2_extension.Parser.{Service}
use ocap2_extension.Storage.{Storage}
use ocap2_extension.Worker.State.{Manager, parsed, storing, calling, caching}

module _ {S : Type 0} (p : Service) (b : Storage S) where
  unfoldable pub handle_new_soldier : List String → Exec (Manager S) (Unit {0})
  handle_new_soldier args = do
    obj ← parsed "failed to log new soldier" (p.parse_soldier args)
    caching (λ c. add_soldier c obj)
    storing "add soldier" (b.add_soldier obj)

  unfoldable pub handle_new_vehicle : List String → Exec (Manager S) (Unit {0})
  handle_new_vehicle args = do
    obj ← parsed "failed to log new vehicle" (p.parse_vehicle args)
    caching (λ c. add_vehicle c obj)
    storing "add vehicle" (b.add_vehicle obj)

  unfoldable pub handle_new_placed : List String → Exec (Manager S) (Unit {0})
  handle_new_placed args = do
    obj ← parsed "failed to parse new placed object" (p.parse_placed_object args)
    caching (λ c. add_placed_object c obj)
    storing "add placed object" (b.add_placed_object obj)

  unfoldable pub handle_soldier_delete : List String → Exec (Manager S) (Unit {0})
  handle_soldier_delete args = do
    (id, frame) ← parsed "failed to parse soldier delete" (p.parse_soldier_delete args)
    calling (b.delete_soldier id frame)

  unfoldable pub handle_vehicle_delete : List String → Exec (Manager S) (Unit {0})
  handle_vehicle_delete args = do
    (id, frame) ← parsed "failed to parse vehicle delete" (p.parse_vehicle_delete args)
    calling (b.delete_vehicle id frame)
