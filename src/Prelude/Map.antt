-- ===== src/Prelude/Map.antt =====
-- Go maps as association lists. The order of the list stands for the order in which the map is
-- iterated, which Go leaves open.
use mathlib.Core.Path.{◌≡◌, refl, subst, sym, ◌∙◌}
use mathlib.Core.Logic.{◌≢◌, ◌↔◌, inl, inr}
use mathlib.Core.Bool.{Bool, true, false, ◌||◌}
use mathlib.Core.List.{List, [], ◌∷◌}
use mathlib.Core.Option
use mathlib.Core.Option.{Option, none, some}
use native.Mathlib.Omega.{arith}
use ocap2_extension.Prelude.Tests.{
  Eq, ◌==◌, if◌then◌else◌, Bool-cases, beq_refl, beq_ne, ne_of_beq, eq_of_beq,
}
use ocap2_extension.Prelude.Lists.{All}

abbrev pub Map {ℓ κ} : Type ℓ → Type κ → Type (ℓ ⊔ κ)
Map K V = List (K × V)

module _ {ℓ κ} {K : Type ℓ} {V : Type κ} ⦃e : Eq K⦄ where
  -- `v, ok := m[k]`
  unfoldable pub lookup : K → Map K V → Option V
  lookup k [] = none
  lookup k ((j, v) ∷ m) = if j == k then some v else lookup k m

  -- `m[k] = v`
  unfoldable pub insert : K → V → Map K V → Map K V
  insert k v [] = (k, v) ∷ []
  insert k v ((j, w) ∷ m) = if j == k then (k, v) ∷ m else (j, w) ∷ insert k v m

  -- `if r, ok := m[k]; ok { … }` where the body writes through the pointer `r`
  unfoldable pub adjust : (V → V) → K → Map K V → Map K V
  adjust f k [] = []
  adjust f k ((j, w) ∷ m) = if j == k then (j, f w) ∷ m else (j, w) ∷ adjust f k m

  -- `delete(m, k)`
  unfoldable pub delete : K → Map K V → Map K V
  delete k [] = []
  delete k ((j, w) ∷ m) = if j == k then m else (j, w) ∷ delete k m

  -- The key is in the map.
  unfoldable pub contains : K → Map K V → Bool
  contains k m = elim (lookup k m) [ none ↦ false | some v ↦ true ]

module _ {ℓ κ} {K : Type ℓ} {V : Type κ} ⦃e : Eq K⦄ where
  pub lookup-insert :
      (j k : K) (v : V) (m : Map K V)
      → lookup j (insert k v m) ≡ (if k == j then some v else lookup j m)
  unfolding lookup insert
  lookup-insert j k v [] = refl
  lookup-insert j k v ((i, w) ∷ m) =
      ground (arith, e.beq_iff k j, e.beq_iff i k, e.beq_iff i j, lookup-insert j k v m)

  pub lookup-insert_self : (k : K) (v : V) (m : Map K V) → lookup k (insert k v m) ≡ some v
  lookup-insert_self k v m = rw (lookup-insert k k v m, beq_refl k)

  pub lookup-adjust :
      (f : V → V) (j k : K) (m : Map K V)
      → lookup j (adjust f k m) ≡ (if k == j then Option.map f (lookup j m) else lookup j m)
  unfolding lookup adjust
  lookup-adjust f j k [] = ground arith
  lookup-adjust f j k ((i, w) ∷ m) =
      ground (arith, e.beq_iff k j, e.beq_iff i k, e.beq_iff i j, lookup-adjust f j k m)

  pub lookup-adjust_self :
      (f : V → V) (k : K) (m : Map K V) → lookup k (adjust f k m) ≡ Option.map f (lookup k m)
  lookup-adjust_self f k m = rw (lookup-adjust f k k m, beq_refl k)

  pub contains_iff : (k : K) (m : Map K V) → (contains k m ≡ true) ↔ (lookup k m ≢ none)
  unfolding contains
  contains_iff k m = ground arith

  pub contains-insert :
      (j k : K) (v : V) (m : Map K V) → contains j (insert k v m) ≡ ((k == j) || contains j m)
  unfolding contains
  contains-insert j k v m = ground (arith, lookup-insert j k v m)

  pub contains-adjust :
      (f : V → V) (j k : K) (m : Map K V) → contains j (adjust f k m) ≡ contains j m
  unfolding contains
  contains-adjust f j k m = ground (arith, lookup-adjust f j k m)

  -- An invariant of the entries is kept by writes.
  pub All-insert {ℓ'} :
      (P : K × V → Type ℓ') (k : K) (v : V) (m : Map K V)
      → All P m
      → P (k, v)
      → All P (insert k v m)
  unfolding insert
  All-insert P k v [] h p = (p, tt)
  All-insert P k v ((j, w) ∷ m) (q, h) p = elim (Bool-cases (j == k)) [
    | inl s ↦ rw s (p, h)
    | inr s ↦ rw s (q, All-insert P k v m h p)
  ]

  pub All-adjust {ℓ'} :
      (P : K × V → Type ℓ') (f : V → V) (k : K) (m : Map K V)
      → All P m
      → ((w : V) → P (k, w) → P (k, f w))
      → All P (adjust f k m)
  unfolding adjust
  All-adjust P f k [] h p = tt
  All-adjust P f k ((j, w) ∷ m) (q, h) p = elim (Bool-cases (j == k)) [
    | inl s ↦ rw s (
      subst (λ x. P (x, f w)) (sym (eq_of_beq j k s))
          (p w (subst (λ x. P (x, w)) (eq_of_beq j k s) q)),
      h,
    )
    | inr s ↦ rw s (q, All-adjust P f k m h p)
  ]

module _ {ℓ κ ℓ'} {K : Type ℓ} {V : Type κ} ⦃e : Eq K⦄ (P : K × V → Type ℓ') where
  pub All-lookup : (k : K) (v : V) (m : Map K V) → All P m → lookup k m ≡ some v → P (k, v)
  unfolding lookup
  All-lookup k v [] h q = absurd (ground arith)
  All-lookup k v ((j, w) ∷ m) (p, h) q = elim (Bool-cases (j == k)) [
    | inl s ↦ subst (λ x. P (k, x)) (ground arith) (subst (λ x. P (x, w)) (eq_of_beq j k s) p)
    | inr s ↦ All-lookup k v m h (ground arith)
  ]

-- Every key stands once: what a Go map guarantees.
unfoldable pub Distinct {ℓ κ} : {K : Type ℓ} {V : Type κ} ⦃e : Eq K⦄ → Map K V → Type κ
Distinct [] = Unit
Distinct ((k, v) ∷ m) = (lookup k m ≡ none) × Distinct m

module _ {ℓ κ} {K : Type ℓ} {V : Type κ} ⦃e : Eq K⦄ where
  pub insert-Distinct : (k : K) (v : V) (m : Map K V) → Distinct m → Distinct (insert k v m)
  unfolding insert lookup Distinct
  insert-Distinct k v [] d = (refl, tt)
  insert-Distinct k v ((j, w) ∷ m) (f, d) = elim (Bool-cases (j == k)) [
    | inl s ↦ rw s (subst (λ x. lookup x m ≡ none) (eq_of_beq j k s) f, d)
    | inr s ↦ rw s (
      lookup-insert j k v m ∙ rw (beq_ne k j (λ q. ne_of_beq j k s (sym q))) f,
      insert-Distinct k v m d,
    )
  ]

  pub adjust-Distinct : (g : V → V) (k : K) (m : Map K V) → Distinct m → Distinct (adjust g k m)
  unfolding adjust lookup Distinct
  adjust-Distinct g k [] d = tt
  adjust-Distinct g k ((j, w) ∷ m) (f, d) = elim (Bool-cases (j == k)) [
    | inl s ↦ rw s (f, d)
    | inr s ↦ rw s (
      lookup-adjust g j k m ∙ rw (beq_ne k j (λ q. ne_of_beq j k s (sym q))) f,
      adjust-Distinct g k m d,
    )
  ]
