-- ===== src/Strconv.antt =====
-- The part of Go's standard library that the program walks texts with: `strconv.ParseUint`,
-- `ParseInt` and `FormatInt` at base 10, and `strings.HasPrefix`, `TrimPrefix`, `HasSuffix`,
-- `TrimSuffix`. A text is a `String`; where its bytes are walked it is the list `codes` of them.
-- `none` stands for the error of a parser: the program tests only whether there is one.
pub mod RoundTrip
pub mod Fields
pub mod Signed
use Prim.Native.Char.{Char, code}
pub use Prim.Native.String.{◌++◌ as append}
use mathlib.Core.List.{reverse}
use mathlib.Core.WellFounded.{Acc}
use mathlib.Core.Logic.{dite}
use native.Mathlib.Decide.{dec_lt}
use cirrina.Prelude.{
  ℕ, zero, suc, ◌+◌, ◌-◌, ◌*◌, ◌/◌, ◌%◌, ◌^◌, ◌<◌, String, ◌≡◌, refl, Bool, true, false, ◌||◌, ◌&&◌,
  Option, none, some, List, [], ◌∷◌, arith, ltb, leb, ◌==◌, if◌then◌else◌, lt_wf, length,
}

abbrev pub Text : Type 0
Text = List ℕ

-- Go's `+` on texts, of any number of them.
abbrev pub concat : List String → String
concat [] = ""
concat (s ∷ []) = s
concat (s ∷ t ∷ ts) = append s (concat (t ∷ ts))

-- The bytes of an ASCII text.
abbrev pub codes : String → Text
codes String.[] = []
codes (String.◌∷◌ c s) = code c ∷ codes s

-- The character of a digit.
abbrev pub digit : ℕ → Char
digit zero = "0"
digit (suc zero) = "1"
digit (suc (suc zero)) = "2"
digit (suc (suc (suc zero))) = "3"
digit (suc (suc (suc (suc zero)))) = "4"
digit (suc (suc (suc (suc (suc zero))))) = "5"
digit (suc (suc (suc (suc (suc (suc zero)))))) = "6"
digit (suc (suc (suc (suc (suc (suc (suc zero))))))) = "7"
digit (suc (suc (suc (suc (suc (suc (suc (suc zero)))))))) = "8"
digit (suc (suc (suc (suc (suc (suc (suc (suc (suc n))))))))) = "9"

-- The digits of `num` before what is written already.
pub fewer_digits : (num : ℕ) → 0 < num → num / 10 < num
fewer_digits num positive = omega arith

write_digits : String → (num : ℕ) → Acc ◌<◌ num → String
write_digits written num (Acc.intro _ below) =
    dite (dec_lt 0 num)
      (λ positive.
        write_digits (String.◌∷◌ (digit (num % 10)) written) (num / 10)
          (below (num / 10) (fewer_digits num positive)))
      (λ _. written)

digits : ℕ → String → String
digits n out = write_digits out n (lt_wf.apply n)

-- `strconv.FormatInt` and `FormatUint` of a number that is not negative.
unfoldable pub format_uint : ℕ → String
unfolding digits write_digits lt_wf dec_lt
format_uint zero = "0"
format_uint (suc n) = digits (suc n) ""

abbrev pub is_digit : ℕ → Bool
is_digit c = leb b'0' c && leb c b'9'

-- The digits behind the value `n`, refused above `most`.
pub scan : ℕ → Text → ℕ → Option ℕ
scan most [] n = some n
scan most (c ∷ s) n =
    let rest = scan most s (n * 10 + (c - b'0')) in
    if is_digit c then (if ltb most (n * 10 + (c - b'0')) then none else rest) else none

-- `strconv.ParseUint(s, 10, bits)`
unfoldable pub parse_uint : ℕ → Text → Option ℕ
unfolding scan
parse_uint bits [] = none
parse_uint bits (c ∷ s) = scan (2 ^ bits - 1) (c ∷ s) 0

-- A signed number as Go's parser yields it: `negsuc n` is -(n + 1).
pub data ℤ : Type 0 where
  pos : ℕ → ℤ
  negsuc : ℕ → ℤ

abbrev pub negated : Option ℕ → Option ℤ
negated none = none
negated (some zero) = some (pos 0)
negated (some (suc n)) = some (negsuc n)

abbrev pub positive : Option ℕ → Option ℤ
positive none = none
positive (some n) = some (pos n)

abbrev scan_some : ℕ → Text → Option ℕ
scan_some most [] = none
scan_some most (c ∷ s) = scan most (c ∷ s) 0

-- `strconv.ParseInt(s, 10, bits)`: a sign, then digits; the range is -2^(bits-1) to 2^(bits-1) - 1.
unfoldable pub parse_int : ℕ → Text → Option ℤ
unfolding scan
parse_int bits [] = none
parse_int bits (c ∷ s) =
    if c == b'-'
    then negated (scan_some (2 ^ (bits - 1)) s)
    else if c == b'+'
    then positive (scan_some (2 ^ (bits - 1) - 1) s)
    else positive (scan_some (2 ^ (bits - 1) - 1) (c ∷ s))

-- `strconv.FormatInt(z, 10)`
unfoldable pub format_int : ℤ → String
unfolding format_uint
format_int (pos n) = format_uint n
format_int (negsuc n) = String.◌∷◌ "-" (format_uint (suc n))

-- `strings.HasPrefix(s, t)` and what is left behind the prefix.
abbrev pub cut_prefix : Text → Text → Option Text
cut_prefix s [] = some s
cut_prefix [] (d ∷ t) = none
cut_prefix (c ∷ s) (d ∷ t) = if c == d then cut_prefix s t else none

-- `strings.HasSuffix` and `TrimSuffix` together: what stands before the suffix.
abbrev pub restore : Option Text → Option Text
restore none = none
restore (some r) = some (reverse r)

unfoldable pub cut_suffix : Text → Text → Option Text
cut_suffix s t = restore (cut_prefix (reverse s) (reverse t))

-- `==` on texts.
unfoldable pub text_eq : Text → Text → Bool
text_eq [] [] = true
text_eq (c ∷ s) (d ∷ t) = c == d && text_eq s t
text_eq _ _ = false

strconv_tests :
    (parse_uint 16 (codes "65535") ≡ some 65535)
    × (parse_uint 16 (codes "65536") ≡ none)
    × (parse_uint 16 (codes "-1") ≡ none)
    × (parse_int 16 (codes "-32768") ≡ some (negsuc 32767))
    × (parse_int 16 (codes "32768") ≡ none)
    × (format_uint 6900 ≡ "6900")
    × (format_int (negsuc 4) ≡ "-5")
    × (cut_suffix (codes "12k") (codes "k") ≡ some (codes "12"))
unfolding parse_uint parse_int format_int cut_suffix
strconv_tests = (refl, refl, refl, refl, refl, refl, refl, refl)
