-- ===== src/Util/Name/Laws.antt =====
-- Which names cirrinad/util/util.go accepts, stated by character classes.
use mathlib.Core.Bool.{false≢true}
use cirrina.Prelude.{
  ℕ, ◌≤◌, String, ◌≡◌, refl, ◌≢◌, ◌↔◌, ◌⊎◌, true, false, [], ◌∷◌, ◌++◌, ◌∙◌, ap, sym, inl, inr,
  Bool, Bool-cases, ◌&&◌, ◌==◌, str_eq, if◌then◌else◌, arith, eq_iff, All,
}
use cirrina.Strconv.{Text, codes}
use cirrina.Util.Name.{
  RangeTable, in_table, check_in_range, vm_name_table, disk_name_table, valid_vm_name,
  valid_nic_name, matches_double_dot, matches_leading_dot, valid_disk_name,
}

-- A letter, a digit, `-` or `_`.
abbrev pub IsNameChar : ℕ → Type 0
IsNameChar c =
    ((b'a' ≤ c) × (c ≤ b'z'))
    ⊎ ((b'A' ≤ c) × (c ≤ b'Z'))
    ⊎ ((b'0' ≤ c) × (c ≤ b'9'))
    ⊎ (c ≡ b'-')
    ⊎ (c ≡ b'_')

-- The same, or a dot.
abbrev pub IsFileChar : ℕ → Type 0
IsFileChar c = IsNameChar c ⊎ (c ≡ b'.')

in_vm_table_iff : (c : ℕ) → (in_table c vm_name_table ≡ true) ↔ IsNameChar c
unfolding in_table
in_vm_table_iff c = ground arith

in_disk_table_iff : (c : ℕ) → (in_table c disk_name_table ≡ true) ↔ IsFileChar c
unfolding in_table
in_disk_table_iff c = ground arith

check_in_range_iff :
    (P : ℕ → Type 0) (table : RangeTable)
    → ((c : ℕ) → (in_table c table ≡ true) ↔ P c)
    → (s : Text) → (check_in_range s table ≡ true) ↔ All P s
unfolding check_in_range
check_in_range_iff P table at [] = ((λ e. tt), λ h. refl)
check_in_range_iff P table at (c ∷ s) =
    let (to, from) = check_in_range_iff P table at s in
    elim (Bool-cases (in_table c table)) [
      | inl inside ↦ rw inside ((λ e. ((at c).0 inside, to e)), λ h. from h.1)
      | inr outside ↦ rw outside ((λ e. cc), λ h. absurd (false≢true (sym outside ∙ (at c).1 h.0)))
    ]

nonempty_iff :
    (name : String) (b : Bool)
    → ((if str_eq name "" then false else b) ≡ true) ↔ ((name ≢ "") × (b ≡ true))
nonempty_iff name b = ground (arith, eq_iff name "")

-- A VM name is accepted exactly when it is not empty and has only letters, digits, `-` and `_`;
-- a NIC name is accepted exactly when it would be accepted for a VM.
pub valid_vm_name_iff :
    (name : String)
    → ((valid_vm_name name ≡ true) ↔ ((name ≢ "") × All IsNameChar (codes name)))
      × (valid_nic_name name ≡ valid_vm_name name)
unfolding valid_vm_name valid_nic_name
valid_vm_name_iff name =
    let (to, from) = nonempty_iff name (check_in_range (codes name) vm_name_table) in
    let (to', from') = check_in_range_iff IsNameChar vm_name_table in_vm_table_iff (codes name) in
    (((λ e. ((to e).0, to' (to e).1)), λ h. from (h.0, from' h.1)), refl)

matches_double_dot_sound :
    (s pre post : Text) → s ≡ pre ++ (b'.' ∷ b'.' ∷ post) → matches_double_dot s ≡ true
unfolding matches_double_dot
matches_double_dot_sound s [] post e = rw e
matches_double_dot_sound [] (p ∷ pre) post e = cc
matches_double_dot_sound (c ∷ []) (p ∷ []) post e = cc
matches_double_dot_sound (c ∷ []) (p ∷ q ∷ pre) post e = cc
matches_double_dot_sound (c ∷ d ∷ s) (p ∷ pre) post e =
    ground (arith, matches_double_dot_sound (d ∷ s) pre post)

matches_double_dot_complete :
    (s : Text)
    → matches_double_dot s ≡ true
    → (pre : Text) × (post : Text) × (s ≡ pre ++ (b'.' ∷ b'.' ∷ post))
unfolding matches_double_dot
matches_double_dot_complete [] e = absurd (cc)
matches_double_dot_complete (c ∷ []) e = absurd (cc)
matches_double_dot_complete (c ∷ d ∷ s) e = elim (Bool-cases (c == b'.' && d == b'.')) [
  | inl here ↦ ([], s, ground arith)
  | inr later ↦
      let (pre, post, same) = matches_double_dot_complete (d ∷ s) (ground arith) in
      (c ∷ pre, post, ap (λ t. c ∷ t) same)
]

no_double_dot_iff :
    (s : Text)
    → (matches_double_dot s ≡ false) ↔ ((pre post : Text) → s ≢ pre ++ (b'.' ∷ b'.' ∷ post))
no_double_dot_iff s = (
  (λ e pre post same. false≢true (sym e ∙ matches_double_dot_sound s pre post same)),
  λ h. elim (Bool-cases (matches_double_dot s)) [
    | inl found ↦
        let (pre, post, same) = matches_double_dot_complete s found in absurd (h pre post same)
    | inr missing ↦ missing
  ],
)

no_leading_dot_iff :
    (s : Text) → (matches_leading_dot s ≡ false) ↔ ((post : Text) → s ≢ b'.' ∷ post)
unfolding matches_leading_dot
no_leading_dot_iff [] = ((λ e post same. cc), λ h. refl)
no_leading_dot_iff (c ∷ s) = ((λ e post same. ground arith), λ h. ground (arith, h s))

disk_name_tests :
    (name : String)
    → (valid_disk_name name ≡ true) ↔ (
        (name ≢ "")
        × (check_in_range (codes name) disk_name_table ≡ true)
        × (matches_double_dot (codes name) ≡ false)
        × (matches_leading_dot (codes name) ≡ false))
unfolding valid_disk_name
disk_name_tests name = ground (arith, eq_iff name "")

-- A disk name is accepted exactly when it is not empty, has only letters, digits, `-`, `_` and
-- dots, never two dots in a row, and does not begin with a dot.
pub valid_disk_name_iff :
    (name : String)
    → (valid_disk_name name ≡ true) ↔ (
        (name ≢ "")
        × All IsFileChar (codes name)
        × ((pre post : Text) → codes name ≢ pre ++ (b'.' ∷ b'.' ∷ post))
        × ((post : Text) → codes name ≢ b'.' ∷ post))
valid_disk_name_iff name =
    let (to, from) = disk_name_tests name in
    let (to', from') =
      check_in_range_iff IsFileChar disk_name_table in_disk_table_iff (codes name) in
    let (double, double') = no_double_dot_iff (codes name) in
    let (leading, leading') = no_leading_dot_iff (codes name) in
    (
      (λ e. let (a, b, c, d) = to e in (a, to' b, double c, leading d)),
      λ (a, b, c, d). from (a, from' b, double' c, leading' d),
    )

All-map : (P Q : ℕ → Type 0) → ((c : ℕ) → P c → Q c) → (s : Text) → All P s → All Q s
All-map P Q f [] h = tt
All-map P Q f (c ∷ s) h = (f c h.0, All-map P Q f s h.1)

file_char-not-slash : (c : ℕ) → IsFileChar c → c ≢ b'/'
file_char-not-slash c h = omega arith

-- A valid disk name joined to the image directory stays in it: it has no path separator, and it is
-- neither `.` nor `..`.
pub valid_disk_name-stays :
    (name : String)
    → valid_disk_name name ≡ true
    → All (λ c. c ≢ b'/') (codes name) × (codes name ≢ codes ".") × (codes name ≢ codes "..")
valid_disk_name-stays name e =
    let (_, chars, _, leading) = (valid_disk_name_iff name).0 e in
    (
      All-map IsFileChar (λ c. c ≢ b'/') file_char-not-slash (codes name) chars,
      leading [],
      leading (b'.' ∷ []),
    )
