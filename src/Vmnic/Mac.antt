-- ===== src/Vmnic/Mac.antt =====
-- Which MAC addresses `ParseMac` of cirrinad/vmnic/vm_nics.go accepts.
use cirrina.Prelude.{
  ℕ, ◌%◌, ◌<◌, String, ◌≡◌, refl, ◌∙◌, sym, ap, ◌≢◌, inl, inr, Bool, true, false, some, [], ◌∷◌,
  arith, ◌==◌, str_eq, eq_iff, if◌then◌else◌, Bool-cases, length, ok, err, All,
}
use cirrina.Strconv.{codes}
use cirrina.Util.Mac.{
  HardwareAddr, parse_mac, mac_string, is_ethernet, all_ones, mac_is_broadcast, mac_is_multicast,
}
use cirrina.Util.Mac.RoundTrip.{parse_mac-mac_string}
use cirrina.Vmnic.{
  invalid_mac_broadcast, invalid_mac_multicast, parse_nic_mac, normal_mac, refuse_if,
}

-- No address is refused as a multicast address: the second test repeats the first.
pub parse_nic_mac-never-multicast : (s : String) → parse_nic_mac s ≢ err invalid_mac_multicast
unfolding parse_nic_mac
parse_nic_mac-never-multicast s = ground arith

abbrev six : ℕ → ℕ → ℕ → ℕ → ℕ → ℕ → HardwareAddr
six a b c d e f = a ∷ b ∷ c ∷ d ∷ e ∷ f ∷ []

not_auto :
    (s : String) (hw : HardwareAddr) → parse_mac (codes s) ≡ some hw → str_eq s "AUTO" ≡ false
not_auto s hw read = elim (Bool-cases (str_eq s "AUTO")) [
  | inl auto ↦
      absurd
        (auto_unread hw (sym (ap (λ t. parse_mac (codes t)) ((eq_iff s "AUTO").0 auto)) ∙ read))
  | inr other ↦ other
]
  where
    auto_unread : (h : HardwareAddr) → ¬ (parse_mac (codes "AUTO") ≡ some h)
    auto_unread h e = unfold parse_mac in cc

six-is_ethernet : (a b c d e f : ℕ) → is_ethernet (six a b c d e f) ≡ true
unfolding mac_string
six-is_ethernet a b c d e f = refl

broadcast_of :
    (s : String) (hw : HardwareAddr)
    → parse_mac (codes s) ≡ some hw
    → is_ethernet hw ≡ true
    → length hw ≡ 6
    → mac_is_broadcast (codes s) ≡ ok (all_ones hw)
unfolding mac_is_broadcast
broadcast_of s hw read eth six_bytes = rw read (rw eth (ground arith))

multicast_of :
    (s : String) (b : ℕ) (hw : HardwareAddr)
    → parse_mac (codes s) ≡ some (b ∷ hw)
    → is_ethernet (b ∷ hw) ≡ true
    → mac_is_multicast (codes s) ≡ ok (b % 2 == 1)
unfolding mac_is_multicast
multicast_of s b hw read eth = rw read (rw eth (ground arith))

not_empty : (s : String) (hw : HardwareAddr) → parse_mac (codes s) ≡ some hw → str_eq s "" ≡ false
not_empty s hw read = elim (Bool-cases (str_eq s "")) [
  | inl empty ↦
      absurd (empty_unread hw (sym (ap (λ t. parse_mac (codes t)) ((eq_iff s "").0 empty)) ∙ read))
  | inr other ↦ other
]
  where
    empty_unread : (h : HardwareAddr) → ¬ (parse_mac (codes "") ≡ some h)
    empty_unread h e = unfold parse_mac in cc

outcome_of :
    (s : String) (hw : HardwareAddr)
    → parse_mac (codes s) ≡ some hw
    → is_ethernet hw ≡ true
    → mac_is_broadcast (codes s) ≡ ok (all_ones hw)
    → parse_nic_mac s ≡ (if all_ones hw then err invalid_mac_broadcast else ok (mac_string hw))
unfolding parse_nic_mac
outcome_of s hw read eth test =
    rw (not_auto s hw read, not_empty s hw read, test, read) (ending (all_ones hw))
  where
    ending :
        (b : Bool)
        → refuse_if invalid_mac_broadcast
            (ok b)
            (refuse_if invalid_mac_multicast (ok b) (normal_mac (some hw)))
          ≡ (if b then err invalid_mac_broadcast else ok (mac_string hw))
    ending true = refl
    ending false = rw eth

-- Of the printed addresses of six bytes the broadcast address alone is refused; any other is
-- returned as it stands, also if its first byte is odd and the multicast test says so.
pub parse_nic_mac_outcome :
    (a b c d e f : ℕ)
    → All (λ n. n < 256) (a ∷ b ∷ c ∷ d ∷ e ∷ f ∷ [])
    → (mac_is_multicast (codes (mac_string (a ∷ b ∷ c ∷ d ∷ e ∷ f ∷ []))) ≡ ok (a % 2 == 1))
      × (parse_nic_mac (mac_string (a ∷ b ∷ c ∷ d ∷ e ∷ f ∷ [])) ≡ (
          if all_ones (a ∷ b ∷ c ∷ d ∷ e ∷ f ∷ [])
          then err invalid_mac_broadcast
          else ok (mac_string (a ∷ b ∷ c ∷ d ∷ e ∷ f ∷ []))))
parse_nic_mac_outcome a b c d e f bytes =
    let read = parse_mac-mac_string a b c d e f bytes in
    let s = mac_string (six a b c d e f) in
    let eth = six-is_ethernet a b c d e f in
    (
      multicast_of s a (b ∷ c ∷ d ∷ e ∷ f ∷ []) read eth,
      outcome_of s (six a b c d e f) read eth (broadcast_of s (six a b c d e f) read eth refl),
    )
