-- ===== src/Util/Mac.antt =====
-- MAC addresses: `net.ParseMAC` and `HardwareAddr.String` of Go's library, and `MacIsBroadcast` and
-- `MacIsMulticast` of cirrinad/util/util.go.
pub mod RoundTrip
use Prim.Native.Char.{Char}
use cirrina.Prelude.{
  ℕ, zero, suc, ◌+◌, ◌-◌, ◌*◌, ◌/◌, ◌%◌, String, ◌≡◌, refl, Bool, true, false, not, ◌&&◌, ◌||◌,
  Option, none, some, List, [], ◌∷◌, ltb, leb, ◌==◌, if◌then◌else◌, length, Result, ok, err, str_eq,
}
use cirrina.Strconv.{Text, codes}

abbrev pub HardwareAddr : Type 0
HardwareAddr = List ℕ

-- The value of a hexadecimal digit.
unfoldable pub hex_value : ℕ → Option ℕ
hex_value c =
    if leb b'0' c && leb c b'9'
    then some (c - b'0')
    else if leb b'a' c && leb c b'f'
    then some (c - b'a' + 10)
    else if leb b'A' c && leb c b'F'
    then some (c - b'A' + 10)
    else none

abbrev both : Option ℕ → Option ℕ → Option ℕ
both (some hi) (some lo) = some (hi * 16 + lo)
both _ _ = none

-- Two digits: `xtoi2`
unfoldable pub hex_byte : ℕ → ℕ → Option ℕ
unfolding hex_value
hex_byte hi lo = both (hex_value hi) (hex_value lo)

abbrev pub prepend : Option ℕ → Option HardwareAddr → Option HardwareAddr
prepend (some b) (some hw) = some (b ∷ hw)
prepend _ _ = none

-- Pairs of digits with `sep` between them.
pub parse_pairs : ℕ → Text → Option HardwareAddr
parse_pairs sep (a ∷ b ∷ []) = prepend (hex_byte a b) (some [])
parse_pairs sep (a ∷ b ∷ c ∷ s) =
    let rest = parse_pairs sep s in if c == sep then prepend (hex_byte a b) rest else none
parse_pairs sep _ = none

-- Groups of four digits with dots between them.
pub parse_quads : Text → Option HardwareAddr
parse_quads (a ∷ b ∷ c ∷ d ∷ []) = prepend (hex_byte a b) (prepend (hex_byte c d) (some []))
parse_quads (a ∷ b ∷ c ∷ d ∷ e ∷ s) =
    let rest = parse_quads s in
    if e == b'.' then prepend (hex_byte a b) (prepend (hex_byte c d) rest) else none
parse_quads _ = none

-- Only addresses of 6, 8 and 20 bytes.
abbrev pub known_size : Option HardwareAddr → Option HardwareAddr
known_size none = none
known_size (some hw) = if length hw == 6 || length hw == 8 || length hw == 20 then some hw else none

-- `net.ParseMAC`
unfoldable pub parse_mac : Text → Option HardwareAddr
unfolding hex_byte parse_pairs parse_quads
parse_mac (a ∷ b ∷ c ∷ d ∷ e ∷ s) =
    if ltb (length s) 9
    then none
    else if c == b':' || c == b'-'
    then known_size (parse_pairs c (a ∷ b ∷ c ∷ d ∷ e ∷ s))
    else if e == b'.'
    then known_size (parse_quads (a ∷ b ∷ c ∷ d ∷ e ∷ s))
    else none
parse_mac _ = none

-- The character of a hexadecimal digit.
pub hex_char : ℕ → Char
hex_char zero = "0"
hex_char (suc zero) = "1"
hex_char (suc (suc zero)) = "2"
hex_char (suc (suc (suc zero))) = "3"
hex_char (suc (suc (suc (suc zero)))) = "4"
hex_char (suc (suc (suc (suc (suc zero))))) = "5"
hex_char (suc (suc (suc (suc (suc (suc zero)))))) = "6"
hex_char (suc (suc (suc (suc (suc (suc (suc zero))))))) = "7"
hex_char (suc (suc (suc (suc (suc (suc (suc (suc zero)))))))) = "8"
hex_char (suc (suc (suc (suc (suc (suc (suc (suc (suc zero))))))))) = "9"
hex_char (suc (suc (suc (suc (suc (suc (suc (suc (suc (suc zero)))))))))) = "a"
hex_char (suc (suc (suc (suc (suc (suc (suc (suc (suc (suc (suc zero))))))))))) = "b"
hex_char (suc (suc (suc (suc (suc (suc (suc (suc (suc (suc (suc (suc zero)))))))))))) = "c"
hex_char (suc (suc (suc (suc (suc (suc (suc (suc (suc (suc (suc (suc (suc zero))))))))))))) = "d"
hex_char (suc (suc (suc (suc (suc (suc (suc (suc (suc (suc (suc (suc (suc (suc zero)))))))))))))) =
    "e"
hex_char
      (suc (suc (suc (suc (suc (suc (suc (suc (suc (suc (suc (suc (suc (suc (suc n))))))))))))))) =
    "f"

-- `HardwareAddr.String`
unfoldable pub mac_string : HardwareAddr → String
unfolding hex_char
mac_string [] = ""
mac_string (b ∷ []) = String.◌∷◌ (hex_char (b / 16)) (String.◌∷◌ (hex_char (b % 16)) "")
mac_string (b ∷ c ∷ hw) =
    String.◌∷◌ (hex_char (b / 16))
      (String.◌∷◌ (hex_char (b % 16)) (String.◌∷◌ ":" (mac_string (c ∷ hw))))

pub data MacError : Type 0 where
  invalid_mac : MacError

abbrev pub is_ethernet : HardwareAddr → Bool
is_ethernet hw = length (codes (mac_string hw)) == 17

unfoldable pub all_ones : HardwareAddr → Bool
all_ones [] = true
all_ones (b ∷ hw) = b == 255 && all_ones hw

broadcast_test : Option HardwareAddr → Result MacError Bool
unfolding all_ones
broadcast_test none = err invalid_mac
broadcast_test (some hw) =
    if not (is_ethernet hw)
    then err invalid_mac
    else if length hw == 6 && all_ones hw
    then ok true
    else ok false

unfoldable pub mac_is_broadcast : Text → Result MacError Bool
unfolding broadcast_test
mac_is_broadcast address = broadcast_test (parse_mac address)

-- `newMac[0]&0x01 == 1`
abbrev first_bit : HardwareAddr → Bool
first_bit [] = false
first_bit (b ∷ hw) = b % 2 == 1

multicast_test : Option HardwareAddr → Result MacError Bool
multicast_test none = err invalid_mac
multicast_test (some hw) =
    if not (is_ethernet hw) then err invalid_mac else if first_bit hw then ok true else ok false

unfoldable pub mac_is_multicast : Text → Result MacError Bool
unfolding multicast_test
mac_is_multicast address = multicast_test (parse_mac address)

mac_tests :
    (parse_mac (codes "00:18:25:aB:cd:EF") ≡ some (0 ∷ 24 ∷ 37 ∷ 171 ∷ 205 ∷ 239 ∷ []))
    × (parse_mac (codes "0018.25ab.cdef") ≡ some (0 ∷ 24 ∷ 37 ∷ 171 ∷ 205 ∷ 239 ∷ []))
    × (parse_mac (codes "00:18:25:ab:cd") ≡ none)
    × (mac_string (0 ∷ 24 ∷ 37 ∷ 171 ∷ 205 ∷ 239 ∷ []) ≡ "00:18:25:ab:cd:ef")
    × (mac_is_broadcast (codes "ff:ff:ff:ff:ff:ff") ≡ ok true)
    × (mac_is_multicast (codes "01-00-5e-00-00-01") ≡ ok true)
    × (mac_is_multicast (codes "01:00:5e:00:00:01:00:00") ≡ err invalid_mac)
unfolding parse_mac mac_string mac_is_broadcast mac_is_multicast
mac_tests = (refl, refl, refl, refl, refl, refl, refl)
