-- ===== src/Base64.antt =====
-- base64.StdEncoding.DecodeString of encoding/base64: line ends are skipped, the padding is
-- required, and bits left over in the last group are ignored. EncodeToString is its inverse.
pub mod RoundTrip
use auditchain_gateway_backe.Prelude.{
  ℕ, ◌+◌, ◌-◌, ◌*◌, ◌/◌, ◌%◌, ◌≡◌, refl, Bool, not, ◌&&◌, ◌||◌, Option, none, some, List, [], ◌∷◌,
  ltb, leb, ◌==◌, if◌then◌else◌,
}
use auditchain_gateway_backe.Prelude.Text.{Text, codes, is_empty}
use auditchain_gateway_backe.Prelude.Table.{select}

unfoldable pub base64_value : ℕ → Option ℕ
base64_value c =
    if leb 65 c && leb c 90
    then some (c - 65)
    else if leb 97 c && leb c 122
    then some (c - 71)
    else if leb 48 c && leb c 57
    then some (c + 4)
    else if c == 43
    then some 62
    else if c == 47
    then some 63
    else none

unfoldable pub one_byte : Option ℕ → Option ℕ → Option (List ℕ)
one_byte (some a) (some b) = some ((a * 4 + b / 16) ∷ [])
one_byte _ _ = none

unfoldable pub two_bytes : Option ℕ → Option ℕ → Option ℕ → Option (List ℕ)
two_bytes (some a) (some b) (some c) = some ((a * 4 + b / 16) ∷ (b % 16 * 16 + c / 4) ∷ [])
two_bytes _ _ _ = none

unfoldable pub three_bytes :
    Option ℕ → Option ℕ → Option ℕ → Option ℕ → Option (List ℕ) → Option (List ℕ)
three_bytes (some a) (some b) (some c) (some d) (some rest) =
    some ((a * 4 + b / 16) ∷ (b % 16 * 16 + c / 4) ∷ (c % 4 * 64 + d) ∷ rest)
three_bytes _ _ _ _ _ = none

-- groups of four; 61 is the padding =
unfoldable pub decode_groups : Text → Option (List ℕ)
decode_groups [] = some []
decode_groups (a ∷ []) = none
decode_groups (a ∷ b ∷ []) = none
decode_groups (a ∷ b ∷ c ∷ []) = none
decode_groups (a ∷ b ∷ c ∷ d ∷ s) =
    let rest = decode_groups s in
    if c == 61 && d == 61 && is_empty s
    then one_byte (base64_value a) (base64_value b)
    else if d == 61 && is_empty s
    then two_bytes (base64_value a) (base64_value b) (base64_value c)
    else three_bytes (base64_value a) (base64_value b) (base64_value c) (base64_value d) rest

unfoldable pub is_line_end : ℕ → Bool
is_line_end c = c == 10 || c == 13

unfoldable pub base64_decode : Text → Option (List ℕ)
unfolding decode_groups base64_value one_byte two_bytes three_bytes is_line_end
base64_decode s = decode_groups (select (λ c. not (is_line_end c)) s)

-- the alphabet A-Za-z0-9+/
unfoldable pub base64_digit : ℕ → ℕ
base64_digit n =
    if ltb n 26
    then n + 65
    else if ltb n 52
    then n + 71
    else if ltb n 62
    then n - 4
    else if n == 62
    then 43
    else 47

unfoldable pub base64_encode : List ℕ → Text
unfolding base64_digit
base64_encode [] = []
base64_encode (a ∷ []) = base64_digit (a / 4) ∷ base64_digit (a % 4 * 16) ∷ 61 ∷ 61 ∷ []
base64_encode (a ∷ b ∷ []) =
    base64_digit (a / 4) ∷ base64_digit (a % 4 * 16 + b / 16) ∷ base64_digit (b % 16 * 4) ∷ 61 ∷ []
base64_encode (a ∷ b ∷ c ∷ s) =
    base64_digit (a / 4)
    ∷ base64_digit (a % 4 * 16 + b / 16)
    ∷ base64_digit (b % 16 * 4 + c / 64)
    ∷ base64_digit (c % 64)
    ∷ base64_encode s

decodes_man : base64_decode (codes "TWFu") ≡ some (codes "Man")
unfolding base64_decode select
decodes_man = refl

decodes_padded : base64_decode (codes "TWE=") ≡ some (codes "Ma")
unfolding base64_decode select
decodes_padded = refl
