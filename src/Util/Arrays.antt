-- ===== src/Util/Arrays.antt =====
-- An SQF array of three texts as the game writes it, and internal/util's reading of it.
use Prim.Native.Char.{Char}
use text.Mathlib.TextEquality.{Char-path}
use ocap2_extension.Prelude.{
  String, Bool, true, false, some, ◌≡◌, ◌≢◌, refl, ap, ◌∙◌, arith, Bool-cases, inl, inr, ◌&&◌,
}
use ocap2_extension.Prelude.Text.{
  is_quote, is_comma, is_close, is_space, trim, trim_left, trim_right, cut_prefix, cut_suffix,
  put_unless,
}
use ocap2_extension.Util.{
  trim_quotes, fix_escape_quotes, onto_left, cut_separator, split_three, inside, element, of_parts,
  parse_sqf_string_array,
}

abbrev pub append : String → String → String
append String.[] t = t
append (String.◌∷◌ c s) t = String.◌∷◌ c (append s t)

abbrev pub QuoteFree : String → Type 0
QuoteFree String.[] = Unit
QuoteFree (String.◌∷◌ c s) = (is_quote c ≡ false) × QuoteFree s

-- The elements in quotes with commas between them.
abbrev pub quoted_three : String → String → String → String
quoted_three v w m =
    String.◌∷◌ "\"" (append v (append "\",\"" (append w (append "\",\"" (append m "\"")))))

abbrev pub sqf_array : String → String → String → String
sqf_array v w m = String.◌∷◌ "[" (append (quoted_three v w m) "]")

cut_separator_plain :
    (c : Char) (s : String)
    → is_quote c ≡ false
    → cut_separator (String.◌∷◌ c s) ≡ onto_left c (cut_separator s)
unfolding cut_separator
cut_separator_plain c String.[] h = refl
cut_separator_plain c (String.◌∷◌ d String.[]) h = refl
cut_separator_plain c (String.◌∷◌ d (String.◌∷◌ e s)) h = rw (h, cut_separator) refl

-- The first separator stands right behind a text without quotes.
cut_separator-append :
    (w r : String) → QuoteFree w → cut_separator (append w (append "\",\"" r)) ≡ some (w, r)
unfolding cut_separator
cut_separator-append String.[] r h = refl
cut_separator-append (String.◌∷◌ c w) r (h, k) =
    cut_separator_plain c _ h ∙ ap (onto_left c) (cut_separator-append w r k)

comma_char : (c : Char) → is_comma c ≡ true → c ≡ ","
comma_char c h = Char-path c "," (ground arith)

not_comma : (c : Char) → String.◌∷◌ c String.[] ≢ "," → is_comma c ≡ false
not_comma c n = elim (Bool-cases (is_comma c)) [
  | inl h ↦ absurd (n (ap (λ x. String.◌∷◌ x String.[]) (comma_char c h)))
  | inr h ↦ h
]

-- A quote that no comma and quote follow starts no separator.
cut_separator_quote :
    (c d : Char) (s : String)
    → is_comma c && is_quote d ≡ false
    → cut_separator (String.◌∷◌ "\"" (String.◌∷◌ c (String.◌∷◌ d s)))
      ≡ onto_left "\"" (cut_separator (String.◌∷◌ c (String.◌∷◌ d s)))
unfolding cut_separator
cut_separator_quote c d s h = rw (h, cut_separator) refl

-- The opening quote starts no separator, unless the first text is a comma.
cut_separator_opened :
    (v r : String)
    → QuoteFree v
    → v ≢ ","
    → cut_separator (String.◌∷◌ "\"" (append v (append "\",\"" r)))
      ≡ onto_left "\"" (cut_separator (append v (append "\",\"" r)))
cut_separator_opened String.[] r h n = cut_separator_quote "\"" "," _ refl
cut_separator_opened (String.◌∷◌ c String.[]) r h n =
    cut_separator_quote c "\"" _ (ap (λ b. b && true) (not_comma c n))
cut_separator_opened (String.◌∷◌ c (String.◌∷◌ d v)) r (h, (k, l)) n =
    cut_separator_quote c d _ (and_false (is_comma c) k)
  where
    and_false : (b : Bool) {e : Bool} → e ≡ false → b && e ≡ false
    and_false true h = h
    and_false false h = refl

trim_left_free : (s : String) → QuoteFree s → trim_left is_quote s ≡ s
unfolding trim_left
trim_left_free String.[] h = refl
trim_left_free (String.◌∷◌ c s) (h, k) = rw (h, trim_left) refl

put_plain : (c : Char) (s : String) → is_quote c ≡ false → put_unless is_quote c s ≡ String.◌∷◌ c s
put_plain c String.[] h = rw h refl
put_plain c (String.◌∷◌ d s) h = refl

trim_right_free : (s : String) → QuoteFree s → trim_right is_quote s ≡ s
unfolding trim_right
trim_right_free String.[] h = refl
trim_right_free (String.◌∷◌ c s) (h, k) =
    ap (put_unless is_quote c) (trim_right_free s k) ∙ put_plain c s h

fix_free : (s : String) → QuoteFree s → fix_escape_quotes s ≡ s
unfolding fix_escape_quotes
fix_free String.[] h = refl
fix_free (String.◌∷◌ c String.[]) h = refl
fix_free (String.◌∷◌ c (String.◌∷◌ d s)) (h, k) =
    rw (h, fix_escape_quotes) (ap (String.◌∷◌ c) (fix_free (String.◌∷◌ d s) k))

-- A text without quotes between two others that are trimmed away.
trim_right_closed : (s : String) → QuoteFree s → trim_right is_quote (append s "\"") ≡ s
unfolding trim_right
trim_right_closed String.[] h = refl
trim_right_closed (String.◌∷◌ c s) (h, k) =
    ap (put_unless is_quote c) (trim_right_closed s k) ∙ put_plain c s h

trim_left_closed :
    (s : String)
    → QuoteFree s
    → trim_right is_quote (trim_left is_quote (append s "\"")) ≡ trim_right is_quote (append s "\"")
unfolding trim_left trim_right
trim_left_closed String.[] h = refl
trim_left_closed (String.◌∷◌ c s) (h, k) = rw (h, trim_left) refl

pub element_free : (s : String) → QuoteFree s → element s ≡ s
unfolding element trim_quotes
element_free s h = rw (trim_left_free s h, trim_right_free s h) (fix_free s h)

element_opened : (s : String) → QuoteFree s → element (String.◌∷◌ "\"" s) ≡ s
unfolding element trim_quotes trim_left
element_opened s h = rw (trim_left_free s h, trim_right_free s h) (fix_free s h)

element_closed : (s : String) → QuoteFree s → element (append s "\"") ≡ s
unfolding element trim_quotes
element_closed s h = rw (trim_left_closed s h, trim_right_closed s h) (fix_free s h)

cut_suffix-append : (s : String) → cut_suffix is_close (append s "]") ≡ some s
unfolding cut_suffix
cut_suffix-append String.[] = refl
cut_suffix-append (String.◌∷◌ c String.[]) = refl
cut_suffix-append (String.◌∷◌ c (String.◌∷◌ d s)) =
    rw (cut_suffix-append (String.◌∷◌ d s), cut_suffix) refl

trim_right-append :
    (p : Char → Bool) (s : String) → p "]" ≡ false → trim_right p (append s "]") ≡ append s "]"
unfolding trim_right
trim_right-append p String.[] h = rw h refl
trim_right-append p (String.◌∷◌ c String.[]) h =
    ap (put_unless p c) (trim_right-append p String.[] h)
trim_right-append p (String.◌∷◌ c (String.◌∷◌ d s)) h =
    ap (put_unless p c) (trim_right-append p (String.◌∷◌ d s) h)

split_three-quoted_three :
    (v w m : String)
    → QuoteFree v
    → QuoteFree w
    → v ≢ ","
    → split_three (quoted_three v w m) ≡ some (String.◌∷◌ "\"" v, w, append m "\"")
unfolding split_three
split_three-quoted_three v w m hv hw n =
    rw
      (
        cut_separator_opened v (append w (append "\",\"" (append m "\""))) hv n,
        cut_separator-append v (append w (append "\",\"" (append m "\""))) hv,
        cut_separator-append w (append m "\"") hw,
        split_three,
      )
      refl

trim-sqf_array : (v w m : String) → trim is_space (sqf_array v w m) ≡ sqf_array v w m
unfolding trim_left
trim-sqf_array v w m = trim_right-append is_space (String.◌∷◌ "[" (quoted_three v w m)) refl

pub trim_quotes-sqf_array : (v w m : String) → trim_quotes (sqf_array v w m) ≡ sqf_array v w m
unfolding trim_quotes trim_left
trim_quotes-sqf_array v w m = trim_right-append is_quote (String.◌∷◌ "[" (quoted_three v w m)) refl

inside-sqf_array : (v w m : String) → inside (sqf_array v w m) ≡ some (quoted_three v w m)
unfolding inside cut_prefix
inside-sqf_array v w m = cut_suffix-append (quoted_three v w m)

-- An SQF array of three texts without quotes, the first of them not a comma alone, is read back.
pub parse_sqf_string_array-sqf_array :
    (v w m : String)
    → QuoteFree v
    → QuoteFree w
    → QuoteFree m
    → v ≢ ","
    → parse_sqf_string_array (sqf_array v w m) ≡ (v, w, m)
unfolding parse_sqf_string_array of_parts
parse_sqf_string_array-sqf_array v w m hv hw hm n =
    rw
      (
        trim-sqf_array v w m,
        inside-sqf_array v w m,
        split_three-quoted_three v w m hv hw n,
        parse_sqf_string_array,
        element_opened v hv,
        element_free w hw,
        element_closed m hm,
      )
      refl
