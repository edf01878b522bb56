-- ===== src/Worker/State.antt =====
-- internal/worker/worker.go: what the handlers share, and the two shapes of their calls.
use ocap2_extension.Prelude.{ℕ, String, Option, none, some}
use ocap2_extension.Core.Result.{Result, ok, err, Exec, Error, Outcome, wrapping}
use ocap2_extension.Cache.EntityCache.{EntityCache}
use ocap2_extension.Cache.MarkerCache.{MarkerCache}

-- The caches and the backend that a Manager holds.
pub record Manager (S : Type 0) : Type 0 where
  pub entity_cache : EntityCache
  pub marker_cache : MarkerCache
  pub backend : S

abbrev pub or_error : {A : Type 0} → Error → Option A → Result A
or_error e none = err e
or_error e (some a) = ok a

abbrev pub checked : {A : Type 0} → Error → Option A → Outcome
checked e none = err e
checked e (some a) = ok tt

module _ {S : Type 0} where
  -- `if err != nil { return nil, fmt.Errorf("what: %w", err) }` after a parse
  abbrev pub parsed : {A : Type 0} → String → Result A → Exec (Manager S) A
  parsed what r m = (wrapping what r, m)

  -- A call of the backend, its error as it is.
  abbrev pub calling : {A : Type 0} → Exec S A → Exec (Manager S) A
  calling f m = let (r, b) = f m.backend in (r, record m { backend = b })

  -- A call of the backend, its error wrapped.
  abbrev pub storing : {A : Type 0} → String → Exec S A → Exec (Manager S) A
  storing what f m = let (r, b) = f m.backend in (wrapping what r, record m { backend = b })

  -- Writes to a cache.
  abbrev pub caching : (EntityCache → EntityCache) → Exec (Manager S) (Unit {0})
  caching f m = (ok tt, record m { entity_cache = f m.entity_cache })

  abbrev pub caching_marker : (MarkerCache → MarkerCache) → Exec (Manager S) (Unit {0})
  caching_marker f m = (ok tt, record m { marker_cache = f m.marker_cache })

  -- A look at a cache that must find something.
  abbrev pub finding : {A : Type 0} → Error → (EntityCache → Option A) → Exec (Manager S) A
  finding e f m = (or_error e (f m.entity_cache), m)

  -- The same for an optional id, where no id is fine.
  abbrev pub finding_if_set :
      {A : Type 0}
      → (ℕ → Error)
      → (EntityCache → ℕ → Option A)
      → Option ℕ
      → Exec (Manager S) (Unit {0})
  finding_if_set e f none m = (ok tt, m)
  finding_if_set e f (some id) m = (checked (e id) (f m.entity_cache id), m)
