-- ===== src/Strconv/Fields.antt =====
-- `strings.Split` at one character and `strings.Fields`, of Go's standard library.
use Prim.Native.Char.{Char, code}
use cirrina.Prelude.{
  ℕ, String, ◌≡◌, refl, Bool, ◌||◌, ◌&&◌, List, [], ◌∷◌, leb, ◌==◌, str_eq, if◌then◌else◌,
}

abbrev push : Char → List String → List String
push c [] = String.◌∷◌ c "" ∷ []
push c (w ∷ ws) = String.◌∷◌ c w ∷ ws

-- The parts of a text between the characters that pass a test.
pub split_where : (ℕ → Bool) → String → List String
split_where at String.[] = "" ∷ []
split_where at (String.◌∷◌ c s) =
    let rest = split_where at s in if at (code c) then "" ∷ rest else push c rest

-- `strings.Split` with a separator of one character.
unfoldable pub split_on : ℕ → String → List String
unfolding split_where
split_on sep s = split_where (λ c. c == sep) s

abbrev drop_empty : List String → List String
drop_empty [] = []
drop_empty (w ∷ ws) = if str_eq w "" then drop_empty ws else w ∷ drop_empty ws

-- The white space of ASCII.
abbrev is_space : ℕ → Bool
is_space c = (leb 9 c && leb c 13) || c == 32

unfoldable pub fields : String → List String
unfolding split_where
fields s = drop_empty (split_where is_space s)

fields_tests :
    (fields " member: em0  flags=143" ≡ "member:" ∷ "em0" ∷ "flags=143" ∷ [])
    × (fields "" ≡ [])
    × (split_on 44 "em0,,em1" ≡ "em0" ∷ "" ∷ "em1" ∷ [])
    × (split_on 44 "" ≡ "" ∷ [])
unfolding fields split_on split_where
fields_tests = (refl, refl, refl, refl)
