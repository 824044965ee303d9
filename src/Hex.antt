-- ===== src/Hex.antt =====
-- Hexadecimal text, as encoding/hex gives it: EncodeToString, and the bytes that DecodeString
-- returns (on a bad digit those before it; an odd last digit gives no byte).
pub mod RoundTrip
use auditchain_gateway_backe.Prelude.{
  ℕ, ◌+◌, ◌-◌, ◌*◌, ◌/◌, ◌%◌, Bool, Option, none, some, List, [], ◌∷◌, ltb, leb, if◌then◌else◌,
  ◌&&◌,
}
use auditchain_gateway_backe.Prelude.Text.{Text}

-- the digits of EncodeToString, 0-9a-f
unfoldable pub hex_digit : ℕ → ℕ
hex_digit n = if ltb n 10 then n + 48 else n + 87

unfoldable pub hex_value : ℕ → Option ℕ
hex_value c =
    if leb 48 c && leb c 57
    then some (c - 48)
    else if leb 97 c && leb c 102
    then some (c - 87)
    else if leb 65 c && leb c 70
    then some (c - 55)
    else none

unfoldable pub hex_encode : List ℕ → Text
unfolding hex_digit
hex_encode [] = []
hex_encode (b ∷ bs) = hex_digit (b / 16) ∷ hex_digit (b % 16) ∷ hex_encode bs

-- one step of the decoder: stop at a pair that is no byte
unfoldable pub add_byte : Option ℕ → Option ℕ → List ℕ → List ℕ
add_byte (some h) (some l) rest = (h * 16 + l) ∷ rest
add_byte _ _ rest = []

unfoldable pub hex_decode : Text → List ℕ
unfolding hex_value add_byte
hex_decode (h ∷ l ∷ s) = add_byte (hex_value h) (hex_value l) (hex_decode s)
hex_decode (_ ∷ []) = []
hex_decode [] = []
