-- ===== src/Core/Result.antt =====
-- Go's `error` results. An error keeps its format string and arguments; `wrap` is `%w`. A call that
-- panics ends in a `panic`, which passes every caller unwrapped: no caller looks into it.
use ocap2_extension.Prelude.{String, List, Option, none, some}
use ocap2_extension.Core.Dynamic.{Any}

pub data Error : Type 0 where
  errorf : String → List Any → Error
  wrap : String → Error → Error
  panic : String → Error

pub data Result {ℓ} (A : Type ℓ) : Type ℓ where
  ok : A → Result A
  err : Error → Result A

-- A call that returns only an `error`: `nil` is `ok tt`.
abbrev pub Outcome : Type 0
Outcome = Result (Unit {0})

abbrev pub nil_error : Outcome
nil_error = ok tt

-- A method on shared state that may fail. What it wrote before it failed stays written.
abbrev pub Exec : Type 0 → Type 0 → Type 0
Exec S A = S → Result A × S

module _ {S A : Type 0} where
  abbrev pub returning : A → Exec S A
  returning a s = (ok a, s)

  abbrev pub failing : Error → Exec S A
  failing e s = (err e, s)

abbrev pub then_on : {S A B : Type 0} → Result A → (A → Exec S B) → Exec S B
then_on (ok a) f s = f a s
then_on (err e) f s = (err e, s)

infixl 5 ◌>>=◌ ◌>>◌
abbrev pub ◌>>=◌ : {S A B : Type 0} → Exec S A → (A → Exec S B) → Exec S B
◌>>=◌ m f s = let (r, t) = m s in then_on r f t

abbrev pub ◌>>◌ : {S B : Type 0} → Exec S (Unit {0}) → Exec S B → Exec S B
m >> k = m >>= λ _. k

abbrev pub wrap_error : String → Error → Error
wrap_error what (panic p) = panic p
wrap_error what e = wrap what e

-- `if err != nil { return fmt.Errorf("what: %w", err) }`
abbrev pub wrapping {ℓ} : {A : Type ℓ} → String → Result A → Result A
wrapping what (ok a) = ok a
wrapping what (err e) = err (wrap_error what e)

-- A test with `ok`, or an error whose `err != nil` the caller has in hand.
abbrev pub or_fail {ℓ} : {A : Type ℓ} → Error → Option A → Result A
or_fail e none = err e
or_fail e (some a) = ok a
