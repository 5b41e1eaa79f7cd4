-- ===== src/Strconv/Signed.antt =====
-- Reading a signed number's decimal print back: `strconv.ParseInt` and `FormatInt` at 32 bits.
use mathlib.Core.Path.{subst}
use cirrina.Prelude.{
  ℕ, suc, zero, ◌+◌, ◌-◌, ◌*◌, ◌≤◌, ◌≡◌, refl, ◌≢◌, true, false, Option, none, some, [], ◌∷◌, arith,
  ◌==◌, All, some-injective, if_split,
}
use cirrina.Strconv.{
  Text, codes, ℤ, pos, negsuc, scan, scan_some, positive, negated, parse_int, format_int,
  format_uint, is_digit,
}
use cirrina.Strconv.RoundTrip.{codes-format_uint-ne-nil, scan-format_uint, scan-le}

-- What is scanned to the end has digits alone.
pub scan-All : (most m r : ℕ) (s : Text) → scan most s m ≡ some r → All (λ c. is_digit c ≡ true) s
unfolding scan
scan-All most m r [] h = tt
scan-All most m r (c ∷ s) h = (ground arith, scan-All most (m * 10 + (c - b'0')) r s (ground arith))

-- The numbers of 32 bits with a sign.
abbrev pub Fits32 : ℤ → Type 0
Fits32 (pos n) = n ≤ 2147483647
Fits32 (negsuc n) = n ≤ 2147483647

parse_positive :
    (n : ℕ) (s : Text) → s ≢ [] → scan 2147483647 s 0 ≡ some n → parse_int 32 s ≡ some (pos n)
unfolding parse_int
parse_positive n [] h e = absurd (h refl)
parse_positive n (c ∷ s) h e =
    let digit_first = (scan-All 2147483647 0 n (c ∷ s) e).0 in
    let minus : (c == b'-') ≡ false = ground arith in
    let plus : (c == b'+') ≡ false = ground arith in rw (minus, plus, e) refl

parse_negative :
    (n : ℕ) (s : Text)
    → s ≢ []
    → scan 2147483648 s 0 ≡ some (suc n)
    → parse_int 32 (b'-' ∷ s) ≡ some (negsuc n)
unfolding parse_int
parse_negative n [] h e = absurd (h refl)
parse_negative n (c ∷ s) h e = rw (e) refl

-- Every number of 32 bits is read back from its print.
pub parse_int-format_int : (z : ℤ) → Fits32 z → parse_int 32 (codes (format_int z)) ≡ some z
unfolding format_int
parse_int-format_int (pos n) h =
    parse_positive n (codes (format_uint n)) (codes-format_uint-ne-nil n)
      (scan-format_uint 2147483647 n h)
parse_int-format_int (negsuc n) h =
    parse_negative n (codes (format_uint (suc n))) (codes-format_uint-ne-nil (suc n))
      (scan-format_uint 2147483648 (suc n) (omega (arith, h)))

scan_some-le : (most r : ℕ) (s : Text) → scan_some most s ≡ some r → r ≤ most
scan_some-le most r [] h = absurd (cc)
scan_some-le most r (c ∷ s) h = scan-le most 0 r (c ∷ s) (omega arith) h

positive-Fits32 :
    (o : Option ℕ) (z : ℤ)
    → ((n : ℕ) → o ≡ some n → n ≤ 2147483647)
    → positive o ≡ some z
    → Fits32 z
positive-Fits32 none z small h = absurd (cc)
positive-Fits32 (some n) z small h = subst Fits32 (some-injective h) (small n refl)

negated-Fits32 :
    (o : Option ℕ) (z : ℤ) → ((n : ℕ) → o ≡ some n → n ≤ 2147483648) → negated o ≡ some z → Fits32 z
negated-Fits32 none z small h = absurd (cc)
negated-Fits32 (some zero) z small h = subst Fits32 (some-injective h) (omega arith)
negated-Fits32 (some (suc n)) z small h =
    subst Fits32 (some-injective h) (omega (arith, small (suc n) refl))

-- What is read has 32 bits.
pub parse_int-Fits32 : (t : Text) (z : ℤ) → parse_int 32 t ≡ some z → Fits32 z
unfolding parse_int
parse_int-Fits32 [] z = λ e. absurd (cc)
parse_int-Fits32 (c ∷ s) z =
    if_split (λ (o : Option ℤ). o ≡ some z → Fits32 z) (c == b'-')
      (λ _. negated-Fits32 (scan_some 2147483648 s) z (λ n. scan_some-le 2147483648 n s))
      (λ _.
        if_split (λ (o : Option ℤ). o ≡ some z → Fits32 z) (c == b'+')
          (λ _. positive-Fits32 (scan_some 2147483647 s) z (λ n. scan_some-le 2147483647 n s))
          (λ _.
            positive-Fits32 (scan_some 2147483647 (c ∷ s)) z
              (λ n. scan_some-le 2147483647 n (c ∷ s))))
