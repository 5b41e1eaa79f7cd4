-- ===== src/Util/Size/Exact.antt =====
-- What `ParseDiskSize` of cirrinad/util/util.go accepts, and reading a printed size back.
use native.Mathlib.Nat.{mod-eq_of_lt, le-mul_of_pos_right}
use native.Mathlib.Decide.{dec_lt}
use mathlib.Core.List.{reverse, reverse-append, reverse-reverse}
use cirrina.Prelude.{
  ℕ, ◌-◌, ◌*◌, ◌^◌, ◌≤◌, ◌<◌, String, ◌≡◌, refl, ◌∙◌, ◌↔◌, ◌≢◌, true, false, Option, none, some, [],
  ◌∷◌, ◌++◌, arith, ok, err, Bool, ap, if◌then◌else◌, ◌==◌,
}
use cirrina.Strconv.{Text, codes, cut_suffix, cut_prefix, restore, parse_uint, format_uint, append}
use cirrina.Strconv.RoundTrip.{parse_uint-le, parse_uint-format_uint, codes-append}
use cirrina.Util.Size.{
  suffix_case, parse_disk_size_suffix, bad_number, min_size, max_size, limit_size, scale_size,
  parse_disk_size,
}
use cirrina.Util.Size.Overflow.{product_fits, product_wraps}

abbrev InRange : ℕ → Type 0
InRange n = (min_size ≤ n) × (n ≤ max_size)

scale_fits :
    (m k n : ℕ) → k * m < 2 ^ 64 → (scale_size m (some k) ≡ ok n) ↔ ((n ≡ k * m) × InRange n)
unfolding scale_size limit_size
scale_fits m k n fits = rw (product_fits k m fits, mod-eq_of_lt fits) (ground arith, ground arith)

scale_wraps :
    (m k n : ℕ)
    → k < 2 ^ 64
    → m < 2 ^ 64
    → 2 ^ 64 ≤ k * m
    → (scale_size m (some k) ≡ ok n) ↔ ((n ≡ k * m) × InRange n)
unfolding scale_size
scale_wraps m k n hk hm over =
    rw (product_wraps k m hk hm over) ((λ e. cc), λ h. absurd (omega arith))

scale_size_iff :
    (m k n : ℕ)
    → k < 2 ^ 64
    → m < 2 ^ 64
    → (scale_size m (some k) ≡ ok n) ↔ ((n ≡ k * m) × InRange n)
scale_size_iff m k n hk hm = elim (dec_lt (k * m) (2 ^ 64)) [
  | yes fits ↦ scale_fits m k n fits
  | no over ↦ scale_wraps m k n hk hm (omega arith)
]

suffix_case-lt :
    (b : ℕ) (s : Text) (suffix m : ℕ) (others : Text × ℕ)
    → m < b
    → others.1 < b
    → (suffix_case s suffix m others).1 < b
unfolding suffix_case
suffix_case-lt b s suffix m others h k = ground arith

multiplier-lt : (s : Text) → (parse_disk_size_suffix s).1 < 2 ^ 64
unfolding parse_disk_size_suffix suffix_case
multiplier-lt s = search (suffix_case-lt, arith) depth 12

not_bad_number : (m k : ℕ) → scale_size m (some k) ≢ err bad_number
unfolding scale_size
not_bad_number m k = ground arith

scale_outcome :
    (m n : ℕ) (o : Option ℕ)
    → m < 2 ^ 64
    → ((k : ℕ) → o ≡ some k → k ≤ 2 ^ 64 - 1)
    → ((scale_size m o ≡ ok n)
        ↔ ((k : ℕ) × (o ≡ some k) × (n ≡ k * m) × (min_size ≤ n) × (n ≤ max_size)))
      × ((scale_size m o ≡ err bad_number) ↔ (o ≡ none))
scale_outcome m n none hm below =
    unfold scale_size in (((λ e. cc), λ found. cc found.1), ((λ e. refl), λ e. refl))
scale_outcome m n (some k) hm below =
    let (to, from) = scale_size_iff m k n (omega (arith, below k refl)) hm in
    (
      (
        (λ e. let (exact, range) = to e in (k, refl, exact, range.0, range.1)),
        λ (j, same, exact, low, high). from ((cc), (low, high)),
      ),
      ((λ e. absurd (not_bad_number m k e)), λ e. cc),
    )

-- A size is accepted exactly when the digits before its unit are a uint64 and their true product
-- with the multiplier, which is returned, lies between 512 bytes and 128 TB: nothing wraps around.
-- The parser's error is reported exactly when those digits are no uint64.
pub parse_disk_size_iff :
    (s : Text) (n : ℕ)
    → ((parse_disk_size s ≡ ok n) ↔ (
        (k : ℕ) × (parse_uint 64 (parse_disk_size_suffix s).0 ≡ some k)
        × (n ≡ k * (parse_disk_size_suffix s).1)
        × (min_size ≤ n)
        × (n ≤ max_size)))
      × ((parse_disk_size s ≡ err bad_number) ↔ (parse_uint 64 (parse_disk_size_suffix s).0 ≡ none))
unfolding parse_disk_size
parse_disk_size_iff s n =
    scale_outcome (parse_disk_size_suffix s).1 n (parse_uint 64 (parse_disk_size_suffix s).0)
      (multiplier-lt s) (λ k e. parse_uint-le 64 k (parse_disk_size_suffix s).0 e)

-- The units that the program reads.
pub data SizeUnit : Type 0 where
  lower_k upper_k lower_m upper_m lower_g upper_g lower_t upper_t bytes upper_bytes : SizeUnit

abbrev pub unit_text : SizeUnit → String
unit_text lower_k = "k"
unit_text upper_k = "K"
unit_text lower_m = "m"
unit_text upper_m = "M"
unit_text lower_g = "g"
unit_text upper_g = "G"
unit_text lower_t = "t"
unit_text upper_t = "T"
unit_text bytes = "b"
unit_text upper_bytes = "B"

abbrev pub unit_size : SizeUnit → ℕ
unit_size lower_k = 2 ^ 10
unit_size upper_k = 2 ^ 10
unit_size lower_m = 2 ^ 20
unit_size upper_m = 2 ^ 20
unit_size lower_g = 2 ^ 30
unit_size upper_g = 2 ^ 30
unit_size lower_t = 2 ^ 40
unit_size upper_t = 2 ^ 40
unit_size bytes = 1
unit_size upper_bytes = 1

restore-if :
    (b : Bool) (s : Text)
    → restore (if b then some (reverse s) else none) ≡ (if b then some s else none)
restore-if true s = ap some (reverse-reverse s)
restore-if false s = refl

cut_suffix-last :
    (s : Text) (c d : ℕ) → cut_suffix (s ++ c ∷ []) (d ∷ []) ≡ (if c == d then some s else none)
unfolding cut_suffix
cut_suffix-last s c d =
    ap (λ r. restore (cut_prefix r (d ∷ []))) (reverse-append s (c ∷ [])) ∙ restore-if (c == d) s

suffix_case-last :
    (s : Text) (c d m : ℕ) (others : Text × ℕ)
    → suffix_case (s ++ c ∷ []) d m others ≡ (if c == d then (s, m) else others)
unfolding suffix_case
suffix_case-last s c d m others = ground (arith, cut_suffix-last s c d)

suffix_of_unit :
    (u : SizeUnit) (s : Text) → parse_disk_size_suffix (s ++ codes (unit_text u)) ≡ (s, unit_size u)
unfolding parse_disk_size_suffix
suffix_of_unit lower_k s = simp suffix_case-last
suffix_of_unit _ s = simp suffix_case-last

unit_size-pos : (u : SizeUnit) → 0 < unit_size u
unit_size-pos lower_k = omega arith
unit_size-pos _ = omega arith

-- A number printed before any of the ten units is read back as that many units, if that is a size
-- between 512 bytes and 128 TB.
pub parse_disk_size-format_uint :
    (k : ℕ) (u : SizeUnit)
    → min_size ≤ k * unit_size u
    → k * unit_size u ≤ max_size
    → parse_disk_size (codes (append (format_uint k) (unit_text u))) ≡ ok (k * unit_size u)
parse_disk_size-format_uint k u h h' =
    let s = codes (format_uint k) ++ codes (unit_text u) in
    let fits : k ≤ 2 ^ 64 - 1 = omega (arith, le-mul_of_pos_right k (unit_size-pos u)) in
    let same = suffix_of_unit u (codes (format_uint k)) in
    ap parse_disk_size (codes-append (format_uint k) (unit_text u))
    ∙ (parse_disk_size_iff s (k * unit_size u)).0.1
        (k, rw same (parse_uint-format_uint 64 k fits), rw same refl, h, h')
