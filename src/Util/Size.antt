-- ===== src/Util/Size.antt =====
-- Disk sizes: `parseDiskSizeSuffix`, `multiplyWillOverflow` and `ParseDiskSize` of
-- cirrinad/util/util.go. A uint64 product keeps its wrap-around, `% 2 ^ 64`.
pub mod Overflow
pub mod Exact
use cirrina.Prelude.{
  ℕ, ◌*◌, ◌/◌, ◌%◌, ◌^◌, [], ◌∷◌, ◌≡◌, refl, Bool, true, false, not, ◌||◌, Option, none, some, ltb,
  leb, ◌==◌, if◌then◌else◌, Result, ok, err,
}
use cirrina.Strconv.{Text, codes, cut_suffix, parse_uint}

-- One case of the switch: `HasSuffix`, then `TrimSuffix` and the multiplier.
unfoldable pub suffix_case : Text → ℕ → ℕ → Text × ℕ → Text × ℕ
unfolding cut_suffix
suffix_case s suffix multiplier others = elim (cut_suffix s (suffix ∷ [])) [
  | none ↦ others
  | some trimmed ↦ (trimmed, multiplier)
]

unfoldable pub parse_disk_size_suffix : Text → Text × ℕ
parse_disk_size_suffix s = suffix_case s b'b' 1 (
    suffix_case s b'B' 1 (
      suffix_case s b'k' 1024 (
        suffix_case s b'K' 1024 (
          suffix_case s b'm' (1024 * 1024) (
            suffix_case s b'M' (1024 * 1024) (
              suffix_case s b'g' (1024 * 1024 * 1024) (
                suffix_case s b'G' (1024 * 1024 * 1024) (
                  suffix_case s b't' (1024 * 1024 * 1024 * 1024)
                    (suffix_case s b'T' (1024 * 1024 * 1024 * 1024) (s, 1))))))))))

pub multiply_will_overflow : ℕ → ℕ → Bool
multiply_will_overflow x y = if leb x 1 || leb y 1 then false else not (((x * y) % 2 ^ 64) / y == x)

pub data SizeError : Type 0 where
  bad_number invalid_disk_size : SizeError

-- 512 bytes and 128 TB
abbrev pub min_size : ℕ
min_size = 512

abbrev pub max_size : ℕ
max_size = 1024 * 1024 * 1024 * 1024 * 128

pub limit_size : ℕ → Result SizeError ℕ
limit_size final =
    if ltb final min_size || ltb max_size final then err invalid_disk_size else ok final

pub scale_size : ℕ → Option ℕ → Result SizeError ℕ
unfolding limit_size multiply_will_overflow
scale_size multiplier none = err bad_number
scale_size multiplier (some n) =
    if multiply_will_overflow n multiplier
    then err invalid_disk_size
    else limit_size ((n * multiplier) % 2 ^ 64)

unfoldable pub parse_disk_size : Text → Result SizeError ℕ
unfolding scale_size
parse_disk_size s =
    let (trimmed, multiplier) = parse_disk_size_suffix s in
    scale_size multiplier (parse_uint 64 trimmed)

size_tests :
    (parse_disk_size (codes "1G") ≡ ok 1073741824)
    × (parse_disk_size (codes "511") ≡ err invalid_disk_size)
    × (parse_disk_size (codes "128t") ≡ ok 140737488355328)
    × (parse_disk_size (codes "129t") ≡ err invalid_disk_size)
    × (parse_disk_size (codes "18446744073709551615k") ≡ err invalid_disk_size)
    × (parse_disk_size (codes "1 G") ≡ err bad_number)
unfolding parse_disk_size parse_disk_size_suffix suffix_case parse_uint
size_tests = (refl, refl, refl, refl, refl, refl)
