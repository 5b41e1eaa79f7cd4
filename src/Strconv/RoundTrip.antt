-- ===== src/Strconv/RoundTrip.antt =====
-- Reading a number's decimal print back, and what the parser accepts.
use Prim.Native.Char.{code}
use mathlib.Core.Logic.{ite, dite}
use mathlib.Core.WellFounded
use mathlib.Core.WellFounded.{Acc, Acc-prop}
use mathlib.Core.List.{cons-ne-nil}
use native.Mathlib.Decide.{dec_lt}
use Prim.Native.String.{◌++◌ as append}
use text.Mathlib.TextLemmas.{nil-append, cons-append}
use cirrina.Prelude.{
  ℕ, zero, suc, ◌+◌, ◌-◌, ◌*◌, ◌/◌, ◌%◌, ◌^◌, ◌≤◌, ◌<◌, String, ◌≡◌, refl, ◌∙◌, ◌≢◌, some, [], ◌∷◌,
  ◌++◌, arith, lt_wf,
}
use cirrina.Strconv.{
  Text, codes, digit, fewer_digits, write_digits, digits, format_uint, scan, parse_uint,
}

digit_code : (n : ℕ) → n < 10 → code (digit n) ≡ b'0' + n
digit_code zero h = refl
digit_code (suc zero) h = refl
digit_code (suc (suc zero)) h = refl
digit_code (suc (suc (suc zero))) h = refl
digit_code (suc (suc (suc (suc zero)))) h = refl
digit_code (suc (suc (suc (suc (suc zero))))) h = refl
digit_code (suc (suc (suc (suc (suc (suc zero)))))) h = refl
digit_code (suc (suc (suc (suc (suc (suc (suc zero))))))) h = refl
digit_code (suc (suc (suc (suc (suc (suc (suc (suc zero)))))))) h = refl
digit_code (suc (suc (suc (suc (suc (suc (suc (suc (suc n))))))))) h = omega arith

write_digits_step :
    (num : ℕ) (at : Acc ◌<◌ num) (tail : Acc ◌<◌ (num / 10)) (written : String)
    → write_digits written num at
      ≡ ite
          (dec_lt 0 num)
          (write_digits (String.◌∷◌ (digit (num % 10)) written) (num / 10) tail)
          written
unfolding write_digits
write_digits_step num (Acc.intro _ below) tail written = λ i.
    dite (dec_lt 0 num)
      (λ positive.
        let same = Acc-prop (below (num / 10) (fewer_digits num positive)) tail in
        write_digits (String.◌∷◌ (digit (num % 10)) written) (num / 10) (same i))
      (λ _. written)

digits_step :
    (n : ℕ) (out : String)
    → digits n out ≡ ite (dec_lt 0 n) (digits (n / 10) (String.◌∷◌ (digit (n % 10)) out)) out
unfolding digits
digits_step n out = write_digits_step n _ _ out

scan_last :
    (most n : ℕ) (s : Text) → n ≤ most → scan most ((b'0' + n % 10) ∷ s) (n / 10) ≡ scan most s n
unfolding scan
scan_last most n s h = ground arith

scan-digits :
    (most n : ℕ) (out : String)
    → n ≤ most
    → scan most (codes (digits n out)) 0 ≡ scan most (codes out) n
scan-digits most n =
    WellFounded.induction lt_wf
      {C = λ m.
        (out : String) → m ≤ most → scan most (codes (digits m out)) 0 ≡ scan most (codes out) m}
      n
      λ m ih out fits. grind (
        arith,
        digits_step m out,
        digit_code (m % 10),
        scan_last most m (codes out) fits,
        ih (m / 10),
      )

codes-digits-ne-nil : (n : ℕ) (out : String) → codes out ≢ [] → codes (digits n out) ≢ []
codes-digits-ne-nil n =
    WellFounded.induction lt_wf
      {C = λ m. (out : String) → codes out ≢ [] → codes (digits m out) ≢ []} n
      λ m ih out h.
        grind
          (arith, digits_step m out, ih (m / 10), cons-ne-nil (code (digit (m % 10))) (codes out))

pub parse_uint-scan : (bits : ℕ) (s : Text) → s ≢ [] → parse_uint bits s ≡ scan (2 ^ bits - 1) s 0
unfolding parse_uint
parse_uint-scan bits [] h = absurd (h refl)
parse_uint-scan bits (c ∷ s) h = refl

format_uint-suc : (n : ℕ) → format_uint (suc n) ≡ digits (suc n) ""
unfolding format_uint
format_uint-suc n = refl

pub codes-format_uint-ne-nil : (n : ℕ) → codes (format_uint n) ≢ []
codes-format_uint-ne-nil zero = unfold format_uint in cons-ne-nil _ _
codes-format_uint-ne-nil (suc n) = rw (format_uint-suc n) (
    grind (
      arith,
      digits_step (suc n) "",
      codes-digits-ne-nil (suc n / 10) (String.◌∷◌ (digit (suc n % 10)) "") (cons-ne-nil _ _),
    ))

pub scan-format_uint : (most n : ℕ) → n ≤ most → scan most (codes (format_uint n)) 0 ≡ some n
scan-format_uint most zero h = unfold format_uint scan in ground arith
scan-format_uint most (suc n) h =
    rw (format_uint-suc n) (scan-digits most (suc n) "" h ∙ unfold scan in refl)

-- Every number that fits is read back from its decimal print.
pub parse_uint-format_uint :
    (bits n : ℕ) → n ≤ 2 ^ bits - 1 → parse_uint bits (codes (format_uint n)) ≡ some n
parse_uint-format_uint bits n h =
    parse_uint-scan bits _ (codes-format_uint-ne-nil n) ∙ scan-format_uint (2 ^ bits - 1) n h

-- What the parser returns is below the bound that it was given.
pub scan-le : (most n r : ℕ) (s : Text) → n ≤ most → scan most s n ≡ some r → r ≤ most
unfolding scan
scan-le most n r [] h e = ground arith
scan-le most n r (c ∷ s) h e = ground (arith, scan-le most (n * 10 + (c - b'0')) r s)

pub parse_uint-le : (bits r : ℕ) (s : Text) → parse_uint bits s ≡ some r → r ≤ 2 ^ bits - 1
unfolding parse_uint
parse_uint-le bits r [] e = cc
parse_uint-le bits r (c ∷ s) e = scan-le (2 ^ bits - 1) 0 r (c ∷ s) (omega arith) e

pub codes-append : (s t : String) → codes (append s t) ≡ codes s ++ codes t
codes-append String.[] t = rw nil-append
codes-append (String.◌∷◌ c s) t = rw (cons-append, codes-append s t)
