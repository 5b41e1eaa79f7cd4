-- ===== src/Util/Size/Overflow.antt =====
-- The overflow test of cirrinad/util/util.go against the product that does not wrap.
use native.Mathlib.Nat.{mod-eq_of_lt, mul-div_cancel, div-mul-le_self, mul_comm, mul-le-mul_right}
use native.Mathlib.Decide.{dec_lt}
use cirrina.Prelude.{ℕ, ◌*◌, ◌/◌, ◌%◌, ◌^◌, ◌≤◌, ◌<◌, ◌≡◌, ◌≢◌, true, false, arith}
use cirrina.Util.Size.{multiply_will_overflow}

-- A wrapped product is too small for its factor to come back.
wrapped_div : (x y : ℕ) → 0 < y → 2 ^ 64 ≤ x * y → ((x * y) % 2 ^ 64) / y ≢ x
wrapped_div x y h over = λ e. omega (arith, rw e at (div-mul-le_self ((x * y) % 2 ^ 64) y))

pub product_fits : (x y : ℕ) → x * y < 2 ^ 64 → multiply_will_overflow x y ≡ false
unfolding multiply_will_overflow
product_fits x y fits = ground (arith, mod-eq_of_lt fits, mul-div_cancel x {n = y})

one_lt_left : (x y m : ℕ) → y < m → m ≤ x * y → 1 < x
one_lt_left x y m hy over = elim (dec_lt 1 x) [
  | yes h ↦ h
  | no h ↦ absurd (omega (arith, mul-le-mul_right y (le_one h)))
]
  where
    le_one : ¬ (1 < x) → x ≤ 1
    le_one h = omega arith

one_lt_right : (x y m : ℕ) → x < m → m ≤ x * y → 1 < y
one_lt_right x y m hx over = one_lt_left y x m hx (rw (mul_comm y x) over)

pub product_wraps :
    (x y : ℕ) → x < 2 ^ 64 → y < 2 ^ 64 → 2 ^ 64 ≤ x * y → multiply_will_overflow x y ≡ true
unfolding multiply_will_overflow
product_wraps x y hx hy over =
    ground (arith, wrapped_div x y, one_lt_left x y (2 ^ 64), one_lt_right x y (2 ^ 64))
