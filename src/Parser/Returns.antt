-- ===== src/Parser/Returns.antt =====
-- Calls that come back: what the parse functions are made of, and the readers of one argument.
use ocap2_extension.Prelude.{
  ℕ, zero, suc, String, Bool, true, false, ◌≡◌, refl, List, [], ◌∷◌, map, Option, none, some,
  length, ltb, leb, arith, ap, sym, subst, if◌then◌else◌, ◌+◌,
}
use ocap2_extension.Core.Result.{Result, ok, err, Error, errorf, wrap, panic, wrapping, or_fail}
use ocap2_extension.Core.{Row}
use ocap2_extension.Parser.Decode.{
  Decoder, clean, arg, frame, float, float32, boolean, decode, ensure, or_try, if_given, coordinate,
  position_of, point_list, invalid_coordinates, not_channel, whole_uint, whole_int,
  parse_uint_from_float, parse_int_from_float, parse_radio_channel, position3d_from_string,
  bracketed_position, parse_polyline_to_core, ◌>>=◌, ◌>>◌,
}

-- A call that comes back, with a value or an error: it does not panic.
abbrev pub IsError : Error → Type 0
IsError (panic p) = ⊥
IsError (errorf f as') = Unit
IsError (wrap f e) = Unit

abbrev pub Returns {ℓ} : {A : Type ℓ} → Result A → Type 0
Returns (ok a) = Unit
Returns (err e) = IsError e

module _ {ℓ κ} {A : Type ℓ} {B : Type κ} where
  pub >>=-Returns :
      (m : Result A) (f : A → Result B) → Returns m → ((a : A) → Returns (f a)) → Returns (m >>= f)
  >>=-Returns (ok a) f h k = k a
  >>=-Returns (err e) f h k = h

pub ensure-Returns {ℓ} :
    {B : Type ℓ} (b : Bool) (f : String) (v : Row) (m : Result B)
    → (b ≡ true → Returns m)
    → Returns (ensure b (errorf f v) >> m)
ensure-Returns true f v m h = h refl
ensure-Returns false f v m h = tt

pub wrapping-Returns {ℓ} :
    {A : Type ℓ} (what : String) (r : Result A) → Returns r → Returns (wrapping what r)
wrapping-Returns what (ok a) h = tt
wrapping-Returns what (err (errorf f v)) h = tt
wrapping-Returns what (err (wrap f v)) h = tt
wrapping-Returns what (err (panic p)) h = h

pub or_fail-Returns {ℓ} :
    {A : Type ℓ} (e : Error) (o : Option A) → IsError e → Returns (or_fail e o)
or_fail-Returns e none h = h
or_fail-Returns e (some a) h = tt

pub or_try-Returns {ℓ} :
    {A : Type ℓ} (o : Option A) (r : Result A) → Returns r → Returns (or_try o r)
or_try-Returns none r h = h
or_try-Returns (some a) r h = tt

pub if_given-Returns {ℓ} :
    {A : Type ℓ} (b : Bool) (other : A) (r : Result A)
    → (b ≡ true → Returns r)
    → Returns (if_given b other r)
if_given-Returns true other r h = h refl
if_given-Returns false other r h = tt

pub if-Returns {ℓ} :
    {A : Type ℓ} (b : Bool) (r s : Result A) → Returns r → Returns s → Returns (if b then r else s)
if-Returns true r s h k = h
if-Returns false r s h k = k

pub arg-Returns_raw :
    (n i : ℕ) (args : List String)
    → leb n (length args) ≡ true
    → ltb i n ≡ true
    → Returns (arg args i)
unfolding arg
arg-Returns_raw n i [] h k = ground arith
arg-Returns_raw n zero (a ∷ args) h k = tt
arg-Returns_raw zero (suc i) (a ∷ args) h k = ground arith
arg-Returns_raw (suc n) (suc i) (a ∷ args) h k =
    arg-Returns_raw n i args (ground arith) (ground arith)

length-map {ℓ κ} :
    {A : Type ℓ} {B : Type κ} (f : A → B) (xs : List A) → length (map f xs) ≡ length xs
length-map f [] = refl
length-map f (x ∷ xs) = ap suc (length-map f xs)

-- Cleaning keeps the number of arguments, which is counted before or after it.
pub arg-Returns_cleaned :
    (n i : ℕ) (raw : List String)
    → leb n (length (map clean raw)) ≡ true
    → ltb i n ≡ true
    → Returns (arg (map clean raw) i)
arg-Returns_cleaned n i raw h k = arg-Returns_raw n i (map clean raw) h k

pub arg-Returns :
    (n i : ℕ) (raw : List String)
    → leb n (length raw) ≡ true
    → ltb i n ≡ true
    → Returns (arg (map clean raw) i)
arg-Returns n i raw h k =
    arg-Returns_raw n i _ (subst (λ l. leb n l ≡ true) (sym (length-map clean raw)) h) k

pub ruleset chains = (
  >>=-Returns, ensure-Returns, wrapping-Returns, or_fail-Returns, or_try-Returns, if_given-Returns,
  if-Returns, arg-Returns, arg-Returns_cleaned, arg-Returns_raw,
)

module _ (d : Decoder) where
  pub float-Returns : (s : String) → Returns (float d s)
  unfolding float
  float-Returns s = or_fail-Returns _ _ tt

  pub float32-Returns : (s : String) → Returns (float32 d s)
  unfolding float32
  float32-Returns s = or_fail-Returns _ _ tt

  pub frame-Returns : (s : String) → Returns (frame d s)
  unfolding frame
  frame-Returns s = >>=-Returns _ _ (float-Returns s) λ f. tt

  pub boolean-Returns : (s : String) → Returns (boolean d s)
  unfolding boolean
  boolean-Returns s = or_fail-Returns _ _ tt

  pub decode-Returns {ℓ} :
      {A : Type ℓ} (f : String → Option A) (s : String) → Returns (decode d f s)
  decode-Returns f s = or_fail-Returns _ _ tt

  pub parse_uint_from_float-Returns : (s : String) → Returns (parse_uint_from_float d s)
  unfolding parse_uint_from_float whole_uint
  parse_uint_from_float-Returns s = search (chains, float-Returns)

  pub parse_int_from_float-Returns : (s : String) → Returns (parse_int_from_float d s)
  unfolding parse_int_from_float whole_int
  parse_int_from_float-Returns s = search (chains, float-Returns)

  pub parse_radio_channel-Returns : (s : String) → Returns (parse_radio_channel d s)
  unfolding parse_radio_channel not_channel
  parse_radio_channel-Returns s = search chains

  pub coordinate-Returns : (s : String) → Returns (coordinate d s)
  unfolding coordinate invalid_coordinates
  coordinate-Returns s = or_fail-Returns _ _ tt

  pub position_of-Returns : (parts : List String) → Returns (position_of d parts)
  unfolding position_of invalid_coordinates
  position_of-Returns [] = tt
  position_of-Returns (a ∷ []) = tt
  position_of-Returns (a ∷ b ∷ []) = search (>>=-Returns, coordinate-Returns)
  position_of-Returns (a ∷ b ∷ c ∷ r) = search (>>=-Returns, coordinate-Returns)

  pub bracketed_position-Returns : (s : String) → Returns (bracketed_position d s)
  unfolding bracketed_position position3d_from_string
  bracketed_position-Returns s = position_of-Returns _

  pub position3d_from_string-Returns : (s : String) → Returns (position3d_from_string d s)
  unfolding position3d_from_string
  position3d_from_string-Returns s = position_of-Returns _

  pub point_list-Returns : (i : ℕ) (cs : List (List ℕ)) → Returns (point_list d i cs)
  unfolding point_list
  point_list-Returns i [] = tt
  point_list-Returns i ([] ∷ cs) = tt
  point_list-Returns i ((x ∷ []) ∷ cs) = tt
  point_list-Returns i ((x ∷ y ∷ r) ∷ cs) = >>=-Returns _ _ (point_list-Returns (i + 1) cs) λ p. tt

  pub parse_polyline_to_core-Returns : (s : String) → Returns (parse_polyline_to_core d s)
  unfolding parse_polyline_to_core
  parse_polyline_to_core-Returns s = search (chains, decode-Returns, point_list-Returns)

  pub ruleset readers = (
    frame-Returns, float-Returns, float32-Returns, boolean-Returns, decode-Returns,
    parse_uint_from_float-Returns, parse_int_from_float-Returns, parse_radio_channel-Returns,
    bracketed_position-Returns, position3d_from_string-Returns, parse_polyline_to_core-Returns,
  )
