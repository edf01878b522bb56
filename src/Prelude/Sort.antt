-- ===== src/Prelude/Sort.antt =====
-- A stable sort by a `less` test, as `sort.SliceStable` promises it; on distinct keys it is also
-- what `sort.Slice` and `sort.Strings` give.
use mathlib.Core.Path.{◌≡◌, refl, ap, ◌∙◌}
use mathlib.Core.Bool.{Bool, true, false}
use mathlib.Core.List.{List, [], ◌∷◌, Perm}
use mathlib.Core.List.Perm
use mathlib.Core.Logic.{inl, inr}
use native.Mathlib.Omega.{arith}
use ocap2_extension.Prelude.Tests.{if◌then◌else◌, Bool-cases}

module _ {ℓ} {A : Type ℓ} where
  -- `a` goes before the first element that is not less than it.
  pub sort_insert : (A → A → Bool) → A → List A → List A
  sort_insert less a [] = a ∷ []
  sort_insert less a (x ∷ xs) = if less x a then x ∷ sort_insert less a xs else a ∷ x ∷ xs

  unfoldable pub stable_sort : (A → A → Bool) → List A → List A
  unfolding sort_insert
  stable_sort less [] = []
  stable_sort less (x ∷ xs) = sort_insert less x (stable_sort less xs)

module _ {ℓ} {A : Type ℓ} (less : A → A → Bool) where
  -- No element is less than the one before it.
  abbrev pub Above : A → List A → Type 0
  Above a [] = Unit
  Above a (x ∷ xs) = less x a ≡ false

  abbrev pub IsSorted : List A → Type 0
  IsSorted [] = Unit
  IsSorted (x ∷ xs) = Above x xs × IsSorted xs

  sort_insert-perm : (a : A) (xs : List A) → Perm (a ∷ xs) (sort_insert less a xs)
  unfolding sort_insert
  sort_insert-perm a [] = Perm.refl _
  sort_insert-perm a (x ∷ xs) = elim (Bool-cases (less x a)) [
    | inl e ↦ rw e (Perm.trans (Perm.swap x a xs) (Perm.cons x (sort_insert-perm a xs)))
    | inr e ↦ rw e (Perm.refl _)
  ]

  pub stable_sort-perm : (xs : List A) → Perm xs (stable_sort less xs)
  unfolding stable_sort
  stable_sort-perm [] = Perm.refl _
  stable_sort-perm (x ∷ xs) =
      Perm.trans (Perm.cons x (stable_sort-perm xs)) (sort_insert-perm x (stable_sort less xs))

  -- Of two elements at most one is less than the other.
  module _ (asym : (a b : A) → less a b ≡ true → less b a ≡ false) where
    sort_insert-Above :
        (a x : A) (xs : List A) → less x a ≡ true → Above x xs → Above x (sort_insert less a xs)
    unfolding sort_insert
    sort_insert-Above a x [] e h = asym x a e
    sort_insert-Above a x (y ∷ ys) e h = ground (arith, asym x a)

    sort_insert-IsSorted : (a : A) (xs : List A) → IsSorted xs → IsSorted (sort_insert less a xs)
    unfolding sort_insert
    sort_insert-IsSorted a [] h = (tt, tt)
    sort_insert-IsSorted a (x ∷ xs) (h, s) = elim (Bool-cases (less x a)) [
      | inl e ↦ rw e (sort_insert-Above a x xs e h, sort_insert-IsSorted a xs s)
      | inr e ↦ rw e (e, (h, s))
    ]

    pub stable_sort-IsSorted : (xs : List A) → IsSorted (stable_sort less xs)
    unfolding stable_sort
    stable_sort-IsSorted [] = tt
    stable_sort-IsSorted (x ∷ xs) = sort_insert-IsSorted x _ (stable_sort-IsSorted xs)

-- The elements that satisfy a test, in their order.
abbrev pub select {ℓ} : {A : Type ℓ} → (A → Bool) → List A → List A
select test [] = []
select test (x ∷ xs) = if test x then x ∷ select test xs else select test xs

-- A test that no two elements satisfy of which one is less than the other: the sort keeps the order of
-- the elements that satisfy it.
module _ {ℓ} {A : Type ℓ} (less : A → A → Bool) (test : A → Bool)
    (apart : (a b : A) → less b a ≡ true → test a ≡ true → test b ≡ false) where
  sort_insert-select :
      (a : A) (xs : List A) → select test (sort_insert less a xs) ≡ select test (a ∷ xs)
  unfolding sort_insert
  sort_insert-select a [] = refl
  sort_insert-select a (x ∷ xs) = elim (Bool-cases (less x a)) [
    | inl e ↦ ground (arith, sort_insert-select a xs, apart a x)
    | inr e ↦ rw e refl
  ]

  pub stable_sort-select : (xs : List A) → select test (stable_sort less xs) ≡ select test xs
  unfolding stable_sort
  stable_sort-select [] = refl
  stable_sort-select (x ∷ xs) =
      sort_insert-select x (stable_sort less xs)
      ∙ ap (λ ys. if test x then x ∷ ys else ys) (stable_sort-select xs)
