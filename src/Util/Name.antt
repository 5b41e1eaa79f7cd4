-- ===== src/Util/Name.antt =====
-- Names: `CheckInRange`, `ValidVMName`, `ValidDiskName`, `ValidIsoName` and `ValidNicName` of
-- cirrinad/util/util.go. `for _, i := range name` walks code points, which `codes` lists.
pub mod Laws
use cirrina.Prelude.{
  ℕ, String, ◌≡◌, refl, Bool, true, false, not, ◌&&◌, ◌||◌, List, [], ◌∷◌, leb, ◌==◌, str_eq,
  if◌then◌else◌,
}
use cirrina.Strconv.{Text, codes}

-- A `unicode.RangeTable`: its ranges all have stride 1.
abbrev pub RangeTable : Type 0
RangeTable = List (ℕ × ℕ)

-- `unicode.In`
unfoldable pub in_table : ℕ → RangeTable → Bool
in_table c [] = false
in_table c ((lo, hi) ∷ table) = (leb lo c && leb c hi) || in_table c table

unfoldable pub check_in_range : Text → RangeTable → Bool
unfolding in_table
check_in_range [] table = true
check_in_range (c ∷ name) table =
    let rest = check_in_range name table in if not (in_table c table) then false else rest

abbrev pub vm_name_table : RangeTable
vm_name_table =
    (0x002d, 0x002d)
    ∷ (0x0030, 0x0039)
    ∷ (0x0041, 0x005a)
    ∷ (0x005f, 0x005f)
    ∷ (0x0061, 0x007a)
    ∷ []

abbrev pub disk_name_table : RangeTable
disk_name_table =
    (0x002d, 0x002e)
    ∷ (0x0030, 0x0039)
    ∷ (0x0041, 0x005a)
    ∷ (0x005f, 0x005f)
    ∷ (0x0061, 0x007a)
    ∷ []

unfoldable pub valid_vm_name : String → Bool
unfolding check_in_range
valid_vm_name name = if str_eq name "" then false else check_in_range (codes name) vm_name_table

unfoldable pub valid_nic_name : String → Bool
unfolding check_in_range
valid_nic_name name = if str_eq name "" then false else check_in_range (codes name) vm_name_table

unfoldable pub valid_iso_name : String → Bool
unfolding check_in_range
valid_iso_name name = if str_eq name "" then false else check_in_range (codes name) disk_name_table

-- `regexp.MatchString` with the pattern `\.\.`
pub matches_double_dot : Text → Bool
matches_double_dot [] = false
matches_double_dot (c ∷ []) = false
matches_double_dot (c ∷ d ∷ s) = (c == b'.' && d == b'.') || matches_double_dot (d ∷ s)

-- `regexp.MatchString` with the pattern `^\.`
pub matches_leading_dot : Text → Bool
matches_leading_dot [] = false
matches_leading_dot (c ∷ s) = c == b'.'

unfoldable pub valid_disk_name : String → Bool
unfolding check_in_range matches_double_dot matches_leading_dot
valid_disk_name name =
    if str_eq name ""
    then false
    else if not (check_in_range (codes name) disk_name_table)
    then false
    else if matches_double_dot (codes name)
    then false
    else not (matches_leading_dot (codes name))

name_tests :
    (valid_vm_name "my-vm_1" ≡ true)
    × (valid_vm_name "my.vm" ≡ false)
    × (valid_nic_name "" ≡ false)
    × (valid_disk_name "disk.v1" ≡ true)
    × (valid_disk_name ".disk" ≡ false)
    × (valid_disk_name "a..b" ≡ false)
    × (valid_iso_name ".." ≡ true)
unfolding valid_vm_name valid_nic_name valid_disk_name valid_iso_name
name_tests = (refl, refl, refl, refl, refl, refl, refl)
