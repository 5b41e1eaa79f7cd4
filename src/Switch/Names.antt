-- ===== src/Switch/Names.antt =====
-- Which names a switch may have: `switchNameValid` of cirrinad/switch/switch.go.
use cirrina.Prelude.{
  ℕ, suc, String, ◌≡◌, refl, ◌∙◌, sym, ap, ◌↔◌, ◌⊎◌, inl, inr, not, Bool, true, false, Option, none,
  some, [], ◌∷◌, ◌++◌, arith, str_eq, eq_iff, if◌then◌else◌, Bool-cases, Option-cases, All,
  some-injective,
}
use cirrina.Strconv.{
  Text, codes, ℤ, pos, negsuc, parse_int, format_int, format_uint, cut_prefix, text_eq, is_digit,
}
use cirrina.Strconv.RoundTrip.{scan-format_uint}
use cirrina.Strconv.Signed.{Fits32, scan-All, parse_int-format_int, parse_int-Fits32}
use cirrina.Util.Name.{check_in_range, vm_name_table, in_table}
use cirrina.Switch.{Switch, same_spelling, number_behind, switch_name_valid}

text_eq_sound : (s t : Text) → text_eq s t ≡ true → s ≡ t
unfolding text_eq
text_eq_sound [] [] h = refl
text_eq_sound [] (d ∷ t) h = absurd (cc)
text_eq_sound (c ∷ s) [] h = absurd (cc)
text_eq_sound (c ∷ s) (d ∷ t) h =
    let rest = text_eq_sound s t (ground arith) in ground (arith, rest)

text_eq_refl : (s : Text) → text_eq s s ≡ true
unfolding text_eq
text_eq_refl [] = refl
text_eq_refl (c ∷ s) = ground (arith, text_eq_refl s)

cut_prefix_sound : (s t r : Text) → cut_prefix s t ≡ some r → s ≡ t ++ r
cut_prefix_sound s [] r h = some-injective h
cut_prefix_sound [] (d ∷ t) r h = absurd (cc)
cut_prefix_sound (c ∷ s) (d ∷ t) r h =
    let rest = cut_prefix_sound s t r (ground arith) in ground (arith, rest)

cut_prefix-append : (t r : Text) → cut_prefix (t ++ r) t ≡ some r
cut_prefix-append [] r = refl
cut_prefix-append (d ∷ t) r = ground (arith, cut_prefix-append t r)

digits-in_range :
    (s : Text) → All (λ c. is_digit c ≡ true) s → check_in_range s vm_name_table ≡ true
unfolding check_in_range in_table
digits-in_range [] h = refl
digits-in_range (c ∷ s) (digit, digits) = let rest = digits-in_range s digits in ground arith

number-in_range : (n : ℕ) → check_in_range (codes (format_uint n)) vm_name_table ≡ true
number-in_range n =
    let s = codes (format_uint n) in
    digits-in_range s (scan-All n 0 n s (scan-format_uint n n (omega arith)))

integer-in_range : (z : ℤ) → check_in_range (codes (format_int z)) vm_name_table ≡ true
unfolding format_int check_in_range in_table
integer-in_range (pos n) = number-in_range n
integer-in_range (negsuc n) = number-in_range (suc n)

-- The text is the prefix and Go's print of a number of 32 bits.
abbrev pub IsNumbered : Text → Text → Type 0
IsNumbered prefix name = (z : ℤ) × Fits32 z × (name ≡ prefix ++ codes (format_int z))

same_spelling_sound :
    (prefix name t : Text) (o : Option ℤ)
    → name ≡ prefix ++ t
    → parse_int 32 t ≡ o
    → same_spelling t o ≡ true
    → IsNumbered prefix name
same_spelling_sound prefix name t none e read h = absurd (cc)
same_spelling_sound prefix name t (some z) e read h =
    (z, parse_int-Fits32 t z read, e ∙ ap (λ u. prefix ++ u) (text_eq_sound t _ h))

number_behind_sound :
    (prefix name : Text) → number_behind (cut_prefix name prefix) ≡ true → IsNumbered prefix name
number_behind_sound prefix name h = elim (Option-cases (cut_prefix name prefix)) [
  | inl nothing ↦ absurd (ground arith)
  | inr (t, found) ↦
      same_spelling_sound prefix name t (parse_int 32 t) (cut_prefix_sound name prefix t found) refl
        (ground arith)
]

number_behind_complete :
    (prefix name : Text) → IsNumbered prefix name → number_behind (cut_prefix name prefix) ≡ true
number_behind_complete prefix name (z, fits, e) =
    rw (e, cut_prefix-append prefix (codes (format_int z)), parse_int-format_int z fits)
      (text_eq_refl (codes (format_int z)))

tests_iff :
    (blank in_range is_if is_ng a b : Bool)
    → ((if blank
          then false
          else if not in_range
          then false
          else if is_if
          then a
          else if is_ng
          then b
          else false)
        ≡ true)
      ↔ ((blank ≡ false)
          × (in_range ≡ true)
          × (((is_if ≡ true) × (a ≡ true)) ⊎ ((is_if ≡ false) × (is_ng ≡ true) × (b ≡ true))))
tests_iff blank in_range is_if is_ng a b = ground arith

numbered-in_range :
    (prefix name : Text)
    → ((t : Text)
        → check_in_range t vm_name_table ≡ true
        → check_in_range (prefix ++ t) vm_name_table ≡ true)
    → IsNumbered prefix name
    → check_in_range name vm_name_table ≡ true
numbered-in_range prefix name starts (z, _, e) = rw (e) (starts _ (integer-in_range z))

bridge-in_range :
    (t : Text)
    → check_in_range t vm_name_table ≡ true
    → check_in_range (codes "bridge" ++ t) vm_name_table ≡ true
unfolding check_in_range in_table
bridge-in_range t h = h

bnet-in_range :
    (t : Text)
    → check_in_range t vm_name_table ≡ true
    → check_in_range (codes "bnet" ++ t) vm_name_table ≡ true
unfolding check_in_range in_table
bnet-in_range t h = h

not_blank : (c : ℕ) (name : String) (t : Text) → codes name ≡ c ∷ t → str_eq name "" ≡ false
not_blank c name t e = elim (Bool-cases (str_eq name "")) [
  | inl blank ↦ let none_there = sym (ap codes ((eq_iff name "").0 blank)) ∙ e in absurd (cc)
  | inr named ↦ named
]

-- The name of a switch is valid exactly if it is "bridge" for an `IF` switch, or "bnet" for an `NG`
-- switch, and behind it a number of 32 bits in Go's own spelling; the number may be negative.
pub switch_name_valid_iff :
    (s : Switch)
    → (switch_name_valid s ≡ true) ↔ (
        ((s.switch_type ≡ "IF") × IsNumbered (codes "bridge") (codes s.name))
        ⊎ ((s.switch_type ≡ "NG") × IsNumbered (codes "bnet") (codes s.name)))
unfolding switch_name_valid
switch_name_valid_iff s =
    let name = codes s.name in
    let is_if = eq_iff s.switch_type "IF" in
    let is_ng = eq_iff s.switch_type "NG" in
    let (to, from) =
      tests_iff (str_eq s.name "") (check_in_range name vm_name_table) (str_eq s.switch_type "IF")
        (str_eq s.switch_type "NG") (number_behind (cut_prefix name (codes "bridge")))
        (number_behind (cut_prefix name (codes "bnet"))) in
    (
      (λ valid. elim (to valid).2 [
        | inl (one, number) ↦ inl (is_if.0 one, number_behind_sound (codes "bridge") name number)
        | inr (_, other, number) ↦
            inr (is_ng.0 other, number_behind_sound (codes "bnet") name number)
      ]),
      λ given. elim given [
        | inl (one, number) ↦ from (
          not_blank b'b' s.name _ number.2,
          numbered-in_range (codes "bridge") name bridge-in_range number,
          inl (is_if.1 one, number_behind_complete (codes "bridge") name number),
        )
        | inr (other, number) ↦ from (
          not_blank b'b' s.name _ number.2,
          numbered-in_range (codes "bnet") name bnet-in_range number,
          inr (
            ap (λ t. str_eq t "IF") other,
            is_ng.1 other,
            number_behind_complete (codes "bnet") name number,
          ),
        )
      ],
    )
