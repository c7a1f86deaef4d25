-- ===== src/Strconv/Hex.antt =====
-- The digits that Go's `strconv` reads in base 16, and `hex.DecodeString`.
use limiz.Base.{ℕ, ◌+◌, ◌-◌, ◌*◌, Text, List, [], ◌∷◌, ◌&&◌, Option, none, some, if◌then◌else◌, leb}

unfoldable pub hex_digit : ℕ → Option ℕ
hex_digit c =
    if leb b'0' c && leb c b'9'
    then some (c - b'0')
    else if leb b'a' c && leb c b'f'
    then some (c - b'a' + 10)
    else if leb b'A' c && leb c b'F'
    then some (c - b'A' + 10)
    else none

-- a byte of two digits, in front of the others
hex_byte : Option ℕ → Option ℕ → Option (List ℕ) → Option (List ℕ)
hex_byte none low rest = none
hex_byte (some high) none rest = none
hex_byte (some high) (some low) none = none
hex_byte (some high) (some low) (some bs) = some ((high * 16 + low) ∷ bs)

-- `hex.DecodeString`: none for the error
unfoldable pub decode_string : Text → Option (List ℕ)
unfolding hex_digit hex_byte
decode_string [] = some []
decode_string (c ∷ []) = none
decode_string (c ∷ d ∷ s) = hex_byte (hex_digit c) (hex_digit d) (decode_string s)
