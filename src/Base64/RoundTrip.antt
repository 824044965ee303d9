-- ===== src/Base64/RoundTrip.antt =====
-- What was encoded decodes to the same bytes.
use auditchain_gateway_backe.Prelude.{
  ℕ, ◌+◌, ◌*◌, ◌/◌, ◌%◌, ◌<◌, ◌≡◌, refl, false, not, some, List, [], ◌∷◌, ◌==◌, arith,
}
use auditchain_gateway_backe.Prelude.Counts.{All}
use auditchain_gateway_backe.Prelude.Table.{select}
use auditchain_gateway_backe.Base64.{
  base64_value, base64_digit, base64_encode, base64_decode, one_byte, two_bytes, three_bytes,
  decode_groups, is_line_end,
}

abbrev pub IsByte : ℕ → Type 0
IsByte b = b < 256

value-digit : (n : ℕ) → n < 64 → base64_value (base64_digit n) ≡ some n
unfolding base64_value base64_digit
value-digit n h = ground arith

-- a digit is neither the padding nor a line end
digit_plain :
    (n : ℕ) → n < 64 → ((base64_digit n == 61) ≡ false) × (is_line_end (base64_digit n) ≡ false)
unfolding base64_digit is_line_end
digit_plain n h = ground arith

-- no line end is dropped
select-encode :
    (bs : List ℕ)
    → All IsByte bs
    → select (λ c. not (is_line_end c)) (base64_encode bs) ≡ base64_encode bs
unfolding base64_encode select is_line_end
select-encode [] h = refl
select-encode (a ∷ []) h =
    rw ((digit_plain (a / 4) (omega arith)).1, (digit_plain (a % 4 * 16) (omega arith)).1) refl
select-encode (a ∷ b ∷ []) h =
    rw
      (
        (digit_plain (a / 4) (omega arith)).1,
        (digit_plain (a % 4 * 16 + b / 16) (omega arith)).1,
        (digit_plain (b % 16 * 4) (omega arith)).1,
      )
      refl
select-encode (a ∷ b ∷ c ∷ s) h =
    rw
      (
        (digit_plain (a / 4) (omega arith)).1,
        (digit_plain (a % 4 * 16 + b / 16) (omega arith)).1,
        (digit_plain (b % 16 * 4 + c / 64) (omega arith)).1,
        (digit_plain (c % 64) (omega arith)).1,
        select-encode s h.1.1.1,
      )
      refl

groups-encode : (bs : List ℕ) → All IsByte bs → decode_groups (base64_encode bs) ≡ some bs
unfolding base64_encode decode_groups one_byte two_bytes three_bytes
groups-encode [] h = refl
groups-encode (a ∷ []) h =
    rw (value-digit (a / 4) (omega arith), value-digit (a % 4 * 16) (omega arith)) (ground arith)
groups-encode (a ∷ b ∷ []) h =
    rw
      (
        (digit_plain (b % 16 * 4) (omega arith)).0,
        value-digit (a / 4) (omega arith),
        value-digit (a % 4 * 16 + b / 16) (omega arith),
        value-digit (b % 16 * 4) (omega arith),
      )
      (ground arith)
groups-encode (a ∷ b ∷ c ∷ s) h =
    rw
      (
        (digit_plain (c % 64) (omega arith)).0,
        (digit_plain (b % 16 * 4 + c / 64) (omega arith)).0,
        value-digit (a / 4) (omega arith),
        value-digit (a % 4 * 16 + b / 16) (omega arith),
        value-digit (b % 16 * 4 + c / 64) (omega arith),
        value-digit (c % 64) (omega arith),
        groups-encode s h.1.1.1,
      )
      (ground arith)

-- DecodeString gives back the bytes that EncodeToString was given.
pub base64_decode-encode :
    (bs : List ℕ) → All IsByte bs → base64_decode (base64_encode bs) ≡ some bs
unfolding base64_decode
base64_decode-encode bs h = rw (select-encode bs h) (groups-encode bs h)

digit_ascii : (n : ℕ) → base64_digit n < 128
unfolding base64_digit
digit_ascii n = ground arith

-- the encoded text is ASCII
pub base64_encode-ascii : (bs : List ℕ) → All (λ (c : ℕ). c < 128) (base64_encode bs)
unfolding base64_encode
base64_encode-ascii [] = tt
base64_encode-ascii (a ∷ []) =
    (digit_ascii (a / 4), (digit_ascii (a % 4 * 16), (omega arith, (omega arith, tt))))
base64_encode-ascii (a ∷ b ∷ []) = (
  digit_ascii (a / 4),
  (digit_ascii (a % 4 * 16 + b / 16), (digit_ascii (b % 16 * 4), (omega arith, tt))),
)
base64_encode-ascii (a ∷ b ∷ c ∷ bs) = (
  digit_ascii (a / 4),
  (
    digit_ascii (a % 4 * 16 + b / 16),
    (digit_ascii (b % 16 * 4 + c / 64), (digit_ascii (c % 64), base64_encode-ascii bs)),
  ),
)
