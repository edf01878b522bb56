-- ===== src/Cache/MarkerCache.antt =====
-- internal/cache/marker.go: marker ids of the current mission by marker name. Each method holds the
-- mutex for its whole body, so it is one step on the state.
use ocap2_extension.Prelude.{ℕ, String, [], Option, string_eq}
use ocap2_extension.Prelude.Map.{Map, lookup, insert, delete as map_delete}

pub record MarkerCache : Type 0 where
  pub markers : Map String ℕ

abbrev pub new : MarkerCache
new = record { markers = [] }

abbrev pub get : MarkerCache → String → Option ℕ
get c name = lookup name c.markers

abbrev pub set : MarkerCache → String → ℕ → MarkerCache
set c name id = record c { markers = insert name id c.markers }

abbrev pub delete : MarkerCache → String → MarkerCache
delete c name = record c { markers = map_delete name c.markers }

abbrev pub reset : MarkerCache → MarkerCache
reset c = record c { markers = [] }
