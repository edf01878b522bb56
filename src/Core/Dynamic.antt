-- ===== src/Core/Dynamic.antt =====
-- Go's `any`, as far as the recorder uses it: the values that it puts into `[]any` rows and that
-- `encoding/json` decodes into. A slice of any element type is an `arr`; the unsigned widths share
-- `uint`; a float is its bit pattern, since the code only passes most of them on.
use ocap2_extension.Prelude.{ℕ, ℤ, String, Bool, List, [], ◌∷◌, Option}

mutual
  pub data Any : Type 0 where
    null : Any
    bool : Bool → Any
    int : ℤ → Any
    uint : ℕ → Any
    f32 : ℕ → Any
    f64 : ℕ → Any
    str : String → Any
    arr : Anys → Any
    obj : Fields → Any

  pub data Anys : Type 0 where
    nil : Anys
    cons : Any → Anys → Anys

  pub data Fields : Type 0 where
    end : Fields
    field : String → Any → Fields → Fields

-- A row `[]any{…}`.
abbrev pub Row : Type 0
Row = List Any

abbrev pub anys_of : List Any → Anys
anys_of [] = nil
anys_of (x ∷ xs) = cons x (anys_of xs)

-- A slice as one value.
abbrev pub arr_of : List Any → Any
arr_of xs = arr (anys_of xs)

-- `m["k"]` of a decoded object.
abbrev pub FieldMap : Type 0
FieldMap = List (String × Any)

-- Floating point and JSON decoding, which the standard library implements: floats go by their IEEE
-- bit patterns.
pub record Std : Type 0 where
  pub sub64 : ℕ → ℕ → ℕ
  pub add64 : ℕ → ℕ → ℕ
  pub mul64 : ℕ → ℕ → ℕ
  pub sqrt64 : ℕ → ℕ
  -- `float32(x)` and `float64(x)`
  pub to_f32 : ℕ → ℕ
  pub to_f64 : ℕ → ℕ
  -- `float64(n)` of an unsigned integer
  pub f64_of_uint : ℕ → ℕ
  -- `json.Unmarshal` into an `any`: `none` is an error
  pub unmarshal : String → Option Any
  -- `json.Unmarshal` into a `[]float64`
  pub unmarshal_floats : String → Option (List ℕ)
