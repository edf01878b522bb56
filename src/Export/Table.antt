-- ===== src/Export/Table.antt =====
-- An entity array as a function of the id: what the writes of builder.go's Build make of it.
use mathlib.Core.Path.{ap₂, sym}
use ocap2_extension.Prelude.{
  ℕ, ◌+◌, ◌<◌, suc, zero, List, [], ◌∷◌, some, ◌≡◌, refl, ◌∙◌, ap, arith, nat_beq, if◌then◌else◌,
  length, set, replicate, lt→ltb,
}
use ocap2_extension.Core.{Row}
use ocap2_extension.Export.Data.{Entity}
use ocap2_extension.Export.Build.{place, fire_at, add_fireline}

-- `f start`, `f (start + 1)`, … : `n` entities.
abbrev pub table : ℕ → ℕ → (ℕ → Entity) → List Entity
table start zero f = []
table start (suc n) f = f start ∷ table (start + 1) n f

pub length-table : (start n : ℕ) (f : ℕ → Entity) → length (table start n f) ≡ n
length-table start zero f = refl
length-table start (suc n) f = ap suc (length-table (start + 1) n f)

pub replicate-table : (start n : ℕ) (e : Entity) → replicate n e ≡ table start n (λ j. e)
replicate-table start zero e = refl
replicate-table start (suc n) e = ap (◌∷◌ e) (replicate-table (start + 1) n e)

pub table_ext :
    (start n : ℕ) (f g : ℕ → Entity)
    → ((j : ℕ) → j < start + n → f j ≡ g j)
    → table start n f ≡ table start n g
table_ext start zero f g h = refl
table_ext start (suc n) f g h =
    ap₂ ◌∷◌ (h start (omega arith)) (table_ext (start + 1) n f g (λ j lt. h j (omega arith)))

-- The function with one value replaced.
abbrev pub put : (ℕ → Entity) → ℕ → Entity → ℕ → Entity
put f i e j = if nat_beq j i then e else f j

put_past :
    (start n : ℕ) (f : ℕ → Entity) (i : ℕ) (e : Entity)
    → i < start
    → table start n (put f i e) ≡ table start n f
put_past start zero f i e h = refl
put_past start (suc n) f i e h = ap₂ ◌∷◌ (ground arith) (put_past (start + 1) n f i e (omega arith))

set-table :
    (start n : ℕ) (f : ℕ → Entity) (i : ℕ) (e : Entity)
    → set (table start n f) i e ≡ table start n (put f (start + i) e)
set-table start zero f i e = refl
set-table start (suc n) f zero e =
    ap₂ ◌∷◌ (ground arith) (sym (put_past (start + 1) n f (start + 0) e (omega arith)))
set-table start (suc n) f (suc i) e =
    ap₂ ◌∷◌ (ground arith)
      (set-table (start + 1) n f i e ∙ ap (λ k. table (start + 1) n (put f k e)) (omega arith))

-- A write within the bounds.
pub place-table :
    (n : ℕ) (f : ℕ → Entity) (id : ℕ) (e : Entity)
    → id < n
    → place id e (table 0 n f) ≡ some (table 0 n (put f id e))
unfolding place
place-table n f id e h =
    rw (length-table 0 n f, lt→ltb id n h)
      (ap some (set-table 0 n f id e ∙ ap (λ k. table 0 n (put f k e)) (omega arith)))

-- The function with a line of fire added at one id.
abbrev pub fired : (ℕ → Entity) → ℕ → Row → ℕ → Entity
fired f i ff j = if nat_beq j i then add_fireline ff (f j) else f j

fired_past :
    (start n : ℕ) (f : ℕ → Entity) (i : ℕ) (ff : Row)
    → i < start
    → table start n (fired f i ff) ≡ table start n f
fired_past start zero f i ff h = refl
fired_past start (suc n) f i ff h =
    ap₂ ◌∷◌ (ground arith) (fired_past (start + 1) n f i ff (omega arith))

fire_at-table_from :
    (start n : ℕ) (f : ℕ → Entity) (i : ℕ) (ff : Row)
    → fire_at i ff (table start n f) ≡ table start n (fired f (start + i) ff)
unfolding fire_at
fire_at-table_from start zero f i ff = refl
fire_at-table_from start (suc n) f zero ff =
    ap₂ ◌∷◌ (ground arith) (sym (fired_past (start + 1) n f (start + 0) ff (omega arith)))
fire_at-table_from start (suc n) f (suc i) ff = ap₂ ◌∷◌ (ground arith) (
    fire_at-table_from (start + 1) n f i ff
    ∙ ap (λ k. table (start + 1) n (fired f k ff)) (omega arith))

pub fire_at-table :
    (n : ℕ) (f : ℕ → Entity) (i : ℕ) (ff : Row)
    → fire_at i ff (table 0 n f) ≡ table 0 n (fired f i ff)
fire_at-table n f i ff =
    fire_at-table_from 0 n f i ff ∙ ap (λ k. table 0 n (fired f k ff)) (omega arith)
