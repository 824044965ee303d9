-- ===== src/Hex/RoundTrip.antt =====
-- Decoding an encoded text gives the bytes back, so encoding loses nothing.
use auditchain_gateway_backe.Prelude.{
  ℕ, ◌+◌, ◌*◌, ◌/◌, ◌%◌, ◌<◌, ◌≡◌, refl, some, List, [], ◌∷◌, arith,
}
use auditchain_gateway_backe.Prelude.Counts.{All}
use auditchain_gateway_backe.Hex.{hex_digit, hex_value, hex_encode, hex_decode, add_byte}

abbrev pub IsByte : ℕ → Type 0
IsByte b = b < 256

hex_value-hex_digit : (n : ℕ) → n < 16 → hex_value (hex_digit n) ≡ some n
unfolding hex_value hex_digit
hex_value-hex_digit n h = ground arith

omega_head : (a b : ℕ) (bs : List ℕ) → a ≡ b → ◌≡◌ {A = List ℕ} (a ∷ bs) (b ∷ bs)
omega_head a b bs e = cc

pub hex_decode-hex_encode : (bs : List ℕ) → All IsByte bs → hex_decode (hex_encode bs) ≡ bs
unfolding hex_decode hex_encode add_byte
hex_decode-hex_encode [] h = refl
hex_decode-hex_encode (b ∷ bs) h =
    rw
      (
        hex_value-hex_digit (b / 16) (omega arith),
        hex_value-hex_digit (b % 16) (omega arith),
        hex_decode-hex_encode bs h.1,
      )
      (omega_head (b / 16 * 16 + b % 16) b bs (omega arith))
