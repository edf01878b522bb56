-- ===== src/Util/Quotes.antt =====
-- A text as the game writes it, in quotes with its own quotes doubled, and internal/util's reading
-- of it.
use Prim.Native.Char.{Char}
use ocap2_extension.Prelude.{
  String, true, false, none, ◌≡◌, ◌≢◌, refl, ap, subst, ◌∙◌, arith, Bool-cases, inl, inr,
}
use ocap2_extension.Prelude.Text.{
  is_quote, trim_left, trim_right, cut_prefix, cut_suffix, put_unless,
}
use ocap2_extension.Util.{trim_quotes, fix_escape_quotes}

-- A text with its quotes doubled, before another text.
unfoldable pub doubled : String → String → String
doubled String.[] rest = rest
doubled (String.◌∷◌ c s) rest = elim (is_quote c) [
  | true ↦ String.◌∷◌ c (String.◌∷◌ c (doubled s rest))
  | false ↦ String.◌∷◌ c (doubled s rest)
]

-- SQF's `str` of a text.
unfoldable pub sqf_string : String → String
sqf_string s = String.◌∷◌ "\"" (doubled s "\"")

-- The first and the last character are no quotes.
abbrev pub EdgesFree : String → Type 0
EdgesFree s = (cut_prefix is_quote s ≡ none) × (cut_suffix is_quote s ≡ none)

put_unless-keeps :
    (c : Char) (s : String) → s ≢ String.[] → put_unless is_quote c s ≡ String.◌∷◌ c s
put_unless-keeps c String.[] h = absurd (h refl)
put_unless-keeps c (String.◌∷◌ d s) h = refl

doubled_quote :
    (c : Char) (s rest : String)
    → is_quote c ≡ true
    → doubled (String.◌∷◌ c s) rest ≡ String.◌∷◌ c (String.◌∷◌ c (doubled s rest))
unfolding doubled
doubled_quote c s rest h = rw (h, doubled) refl

doubled_plain :
    (c : Char) (s rest : String)
    → is_quote c ≡ false
    → doubled (String.◌∷◌ c s) rest ≡ String.◌∷◌ c (doubled s rest)
unfolding doubled
doubled_plain c s rest h = rw (h, doubled) refl

abbrev IsCons : String → Type 0
IsCons String.[] = ⊥
IsCons (String.◌∷◌ c s) = Unit

cons-ne-nil : (c : Char) (s : String) → String.◌∷◌ c s ≢ String.[]
cons-ne-nil c s e = subst IsCons e tt

doubled-ne-nil : (c : Char) (s rest : String) → doubled (String.◌∷◌ c s) rest ≢ String.[]
doubled-ne-nil c s rest = elim (Bool-cases (is_quote c)) [
  | inl h ↦ rw (doubled_quote c s rest h) (cons-ne-nil _ _)
  | inr h ↦ rw (doubled_plain c s rest h) (cons-ne-nil _ _)
]

trim_right-cons :
    (c : Char) (s t : String)
    → trim_right is_quote s ≡ t
    → t ≢ String.[]
    → trim_right is_quote (String.◌∷◌ c s) ≡ String.◌∷◌ c t
unfolding trim_right
trim_right-cons c s t h n = ap (put_unless is_quote c) h ∙ put_unless-keeps c t n

trim_right-doubled_one :
    (c : Char)
    → cut_suffix is_quote (String.◌∷◌ c String.[]) ≡ none
    → trim_right is_quote (doubled (String.◌∷◌ c String.[]) "\"")
      ≡ doubled (String.◌∷◌ c String.[]) ""
unfolding trim_right doubled cut_suffix
trim_right-doubled_one c h = ground arith

cut_suffix-tail :
    (c d : Char) (s : String)
    → cut_suffix is_quote (String.◌∷◌ c (String.◌∷◌ d s)) ≡ none
    → cut_suffix is_quote (String.◌∷◌ d s) ≡ none
unfolding cut_suffix
cut_suffix-tail c d s h = ground arith

-- Trimming on the right takes the closing quote and no other.
trim_right-doubled :
    (c : Char) (s : String)
    → cut_suffix is_quote (String.◌∷◌ c s) ≡ none
    → trim_right is_quote (doubled (String.◌∷◌ c s) "\"") ≡ doubled (String.◌∷◌ c s) ""
trim_right-doubled c String.[] h = trim_right-doubled_one c h
trim_right-doubled c (String.◌∷◌ d s) h =
    let ih = trim_right-doubled d s (cut_suffix-tail c d s h) in
    let n = doubled-ne-nil d s "" in
    elim (Bool-cases (is_quote c)) [
      | inl q ↦
          rw (doubled_quote c (String.◌∷◌ d s) "\"" q, doubled_quote c (String.◌∷◌ d s) "" q)
            (trim_right-cons c _ _ (trim_right-cons c _ _ ih n) (cons-ne-nil _ _))
      | inr q ↦
          rw (doubled_plain c (String.◌∷◌ d s) "\"" q, doubled_plain c (String.◌∷◌ d s) "" q)
            (trim_right-cons c _ _ ih n)
    ]

fix_plain :
    (c : Char) (s : String)
    → is_quote c ≡ false
    → fix_escape_quotes (String.◌∷◌ c s) ≡ String.◌∷◌ c (fix_escape_quotes s)
unfolding fix_escape_quotes
fix_plain c String.[] h = refl
fix_plain c (String.◌∷◌ d s) h = rw (h, fix_escape_quotes) refl

fix_quote :
    (c : Char) (s : String)
    → is_quote c ≡ true
    → fix_escape_quotes (String.◌∷◌ c (String.◌∷◌ c s)) ≡ String.◌∷◌ c (fix_escape_quotes s)
unfolding fix_escape_quotes
fix_quote c s h = rw (h, fix_escape_quotes) refl

-- Halving the doubled quotes gives the text back.
pub fix_escape_quotes-doubled : (s : String) → fix_escape_quotes (doubled s "") ≡ s
unfolding doubled fix_escape_quotes
fix_escape_quotes-doubled String.[] = refl
fix_escape_quotes-doubled (String.◌∷◌ c s) =
    let ih = ap (String.◌∷◌ c) (fix_escape_quotes-doubled s) in
    elim (Bool-cases (is_quote c)) [
      | inl q ↦ rw (doubled_quote c s "" q, fix_quote c (doubled s "") q) ih
      | inr q ↦ rw (doubled_plain c s "" q, fix_plain c (doubled s "") q) ih
    ]

trim_left_quote :
    (c : Char) (s : String)
    → is_quote c ≡ true
    → trim_left is_quote (String.◌∷◌ c s) ≡ trim_left is_quote s
unfolding trim_left
trim_left_quote c s h = rw (h, trim_left) refl

trim_left_plain :
    (c : Char) (s : String)
    → cut_prefix is_quote (String.◌∷◌ c s) ≡ none
    → trim_left is_quote (doubled (String.◌∷◌ c s) "\"") ≡ doubled (String.◌∷◌ c s) "\""
unfolding trim_left doubled cut_prefix
trim_left_plain c s h = ground arith

-- What the game writes for a text is read back, if the text neither begins nor ends with a quote.
pub fix_escape_quotes-sqf_string :
    (s : String) → EdgesFree s → fix_escape_quotes (trim_quotes (sqf_string s)) ≡ s
unfolding trim_quotes sqf_string fix_escape_quotes trim_right trim_left doubled
fix_escape_quotes-sqf_string String.[] h = refl
fix_escape_quotes-sqf_string (String.◌∷◌ c s) (h, k) =
    rw
      (
        trim_left_quote "\"" (doubled (String.◌∷◌ c s) "\"") refl,
        trim_left_plain c s h,
        trim_right-doubled c s k,
      )
      (fix_escape_quotes-doubled (String.◌∷◌ c s))
