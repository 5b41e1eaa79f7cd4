-- ===== src/Util/Mac/RoundTrip.antt =====
-- Reading a printed MAC address back.
use Prim.Native.Char.{code}
use mathlib.Core.Path.{ap₂}
use cirrina.Prelude.{
  ℕ, zero, suc, ◌+◌, ◌/◌, ◌%◌, ◌<◌, ◌≡◌, refl, ap, some, [], ◌∷◌, arith, ltb, if◌then◌else◌, All,
}
use cirrina.Strconv.{codes}
use cirrina.Util.Mac.{
  HardwareAddr, hex_value, hex_byte, prepend, parse_pairs, parse_mac, known_size, hex_char,
  mac_string,
}

-- The code of a hexadecimal digit.
abbrev digit_code : ℕ → ℕ
digit_code d = if ltb d 10 then 48 + d else 87 + d

code-hex_char : (n : ℕ) → n < 16 → code (hex_char n) ≡ digit_code n
unfolding hex_char
code-hex_char zero h = refl
code-hex_char (suc zero) h = refl
code-hex_char (suc (suc zero)) h = refl
code-hex_char (suc (suc (suc zero))) h = refl
code-hex_char (suc (suc (suc (suc zero)))) h = refl
code-hex_char (suc (suc (suc (suc (suc zero))))) h = refl
code-hex_char (suc (suc (suc (suc (suc (suc zero)))))) h = refl
code-hex_char (suc (suc (suc (suc (suc (suc (suc zero))))))) h = refl
code-hex_char (suc (suc (suc (suc (suc (suc (suc (suc zero)))))))) h = refl
code-hex_char (suc (suc (suc (suc (suc (suc (suc (suc (suc zero))))))))) h = refl
code-hex_char (suc (suc (suc (suc (suc (suc (suc (suc (suc (suc zero)))))))))) h = refl
code-hex_char (suc (suc (suc (suc (suc (suc (suc (suc (suc (suc (suc zero))))))))))) h = refl
code-hex_char (suc (suc (suc (suc (suc (suc (suc (suc (suc (suc (suc (suc zero)))))))))))) h = refl
code-hex_char (suc (suc (suc (suc (suc (suc (suc (suc (suc (suc (suc (suc (suc zero))))))))))))) h =
    refl
code-hex_char
      (suc (suc (suc (suc (suc (suc (suc (suc (suc (suc (suc (suc (suc (suc zero)))))))))))))) h =
    refl
code-hex_char
      (suc (suc (suc (suc (suc (suc (suc (suc (suc (suc (suc (suc (suc (suc (suc zero)))))))))))))))
      h =
    refl
code-hex_char
      (suc
        (suc (suc (suc (suc (suc (suc (suc (suc (suc (suc (suc (suc (suc (suc (suc n))))))))))))))))
      h =
    absurd (omega arith)

hex_byte_of_digits :
    (b : ℕ) → b < 256 → hex_byte (digit_code (b / 16)) (digit_code (b % 16)) ≡ some b
unfolding hex_byte hex_value
hex_byte_of_digits b h = ground arith

hex_byte_of_chars :
    (b : ℕ) → b < 256 → hex_byte (code (hex_char (b / 16))) (code (hex_char (b % 16))) ≡ some b
hex_byte_of_chars b h =
    rw (code-hex_char (b / 16) (omega arith), code-hex_char (b % 16) (omega arith))
      (hex_byte_of_digits b h)

abbrev AreBytes : HardwareAddr → Type 0
AreBytes hw = All (λ b. b < 256) hw

parse_pairs-mac_string :
    (b : ℕ) (hw : HardwareAddr)
    → b < 256
    → AreBytes hw
    → parse_pairs b':' (codes (mac_string (b ∷ hw))) ≡ some (b ∷ hw)
unfolding parse_pairs mac_string
parse_pairs-mac_string b [] h k = rw (hex_byte_of_chars b h)
parse_pairs-mac_string b (c ∷ hw) h k =
    ap₂ prepend (hex_byte_of_chars b h) (parse_pairs-mac_string c hw k.0 k.1)

-- An Ethernet address that Go prints is read back.
pub parse_mac-mac_string :
    (a b c d e f : ℕ)
    → AreBytes (a ∷ b ∷ c ∷ d ∷ e ∷ f ∷ [])
    → parse_mac (codes (mac_string (a ∷ b ∷ c ∷ d ∷ e ∷ f ∷ [])))
      ≡ some (a ∷ b ∷ c ∷ d ∷ e ∷ f ∷ [])
unfolding parse_mac mac_string
parse_mac-mac_string a b c d e f h =
    ap known_size (parse_pairs-mac_string a (b ∷ c ∷ d ∷ e ∷ f ∷ []) h.0 h.1)
