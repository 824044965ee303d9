-- ===== src/Canonical/Number.antt =====
-- canonicalNumber of pkg/canonicalstate/canonical.go. A text is read byte by byte; the source ranges
-- over runes, and a byte of a rune outside ASCII is no digit either.
use auditchain_gateway_backe.Prelude.{
  ℕ, suc, ◌+◌, ◌-◌, ◌*◌, Bool, true, false, not, ◌&&◌, ◌||◌, Option, none, some, List, [], ◌∷◌,
  ◌++◌, length, take, drop, replicate, leb, ltb, ◌==◌, if◌then◌else◌,
}
use mathlib.Core.List.{reverse}
use auditchain_gateway_backe.Prelude.Text.{Text, codes, text_eq, is_empty, trim_space}
use auditchain_gateway_backe.Prelude.Int.{ℤ, pos, negsuc, ◌+ℤ◌, ◌-ℤ◌}

abbrev pub ascii_zero : ℕ
ascii_zero = 48

abbrev pub ascii_point : ℕ
ascii_point = 46

-- strings.TrimLeft(s, c) and strings.TrimRight(s, c), of one character
unfoldable pub trim_left_of : ℕ → Text → Text
trim_left_of c [] = []
trim_left_of c (x ∷ s) = let rest = trim_left_of c s in if x == c then rest else x ∷ s

unfoldable pub trim_right_of : ℕ → Text → Text
unfolding trim_left_of
trim_right_of c s = reverse (trim_left_of c (reverse s))

-- what canonicalNumber reads: the sign, the two parts of the mantissa, and the exponent
pub record Decimal : Type 0 where
  pub negative : Bool
  pub integer_part : Text
  pub fraction_part : Text
  pub exponent : ℤ

abbrev pub is_digit : ℕ → Bool
is_digit c = leb 48 c && leb c 57

unfoldable pub all_digits : Text → Bool
all_digits [] = true
all_digits (c ∷ s) = is_digit c && all_digits s

-- at the first e or E (strings.IndexAny); `none`: there is none
pub split_exponent : Text → Text × Option Text
split_exponent [] = ([], none)
split_exponent (c ∷ s) =
    let (before, after) = split_exponent s in
    if c == 101 || c == 69 then ([], some s) else (c ∷ before, after)

-- the loop over the digits of the exponent, which is bounded
exponent_digits : ℕ → Text → Option ℕ
exponent_digits value [] = some value
exponent_digits value (c ∷ s) =
    let rest = exponent_digits (value * 10 + (c - 48)) s in
    if not (is_digit c) then none else if ltb 1000000 (value * 10 + (c - 48)) then none else rest

signed_exponent : Bool → Text → Option ℤ
signed_exponent below [] = none
signed_exponent below (c ∷ s) = elim (exponent_digits 0 (c ∷ s)) [
  | none ↦ none
  | some value ↦ some (if below then pos 0 -ℤ pos value else pos value)
]

pub parse_exponent : Option Text → Option ℤ
parse_exponent none = some (pos 0)
parse_exponent (some []) = none
parse_exponent (some (c ∷ s)) =
    if c == 43
    then signed_exponent false s
    else if c == 45
    then signed_exponent true s
    else signed_exponent false (c ∷ s)

-- strings.Split
add_to_first : ℕ → List Text → List Text
add_to_first c [] = (c ∷ []) ∷ []
add_to_first c (part ∷ parts) = (c ∷ part) ∷ parts

pub split_on : ℕ → Text → List Text
split_on separator [] = [] ∷ []
split_on separator (c ∷ s) =
    let rest = split_on separator s in if c == separator then [] ∷ rest else add_to_first c rest

unfoldable pub parse_parts : Bool → ℤ → List Text → Option Decimal
parse_parts minus e (i ∷ []) =
    if is_empty i
    then none
    else if all_digits i
    then some (record { negative = minus; integer_part = i; fraction_part = []; exponent = e })
    else none
parse_parts minus e (i ∷ f ∷ []) =
    if is_empty i || is_empty f
    then none
    else if all_digits (i ++ f)
    then some (record { negative = minus; integer_part = i; fraction_part = f; exponent = e })
    else none
parse_parts minus e _ = none

abbrev pub parse_mantissa : Bool → Text → Option ℤ → Option Decimal
parse_mantissa minus mantissa none = none
parse_mantissa minus mantissa (some e) = parse_parts minus e (split_on ascii_point mantissa)

unfoldable pub parse_unsigned : Bool → Text → Option Decimal
parse_unsigned minus [] = none
parse_unsigned minus (c ∷ s) =
    let (mantissa, tail) = split_exponent (c ∷ s) in
    parse_mantissa minus mantissa (parse_exponent tail)

unfoldable pub parse_signed : Text → Option Decimal
parse_signed [] = none
parse_signed (c ∷ s) = if c == 45 then parse_unsigned true s else parse_unsigned false (c ∷ s)

-- canonicalNumber up to its digits
unfoldable pub parse_decimal : Text → Option Decimal
unfolding parse_signed parse_unsigned parse_parts split_on add_to_first parse_exponent
    signed_exponent exponent_digits split_exponent all_digits trim_space ◌-ℤ◌
parse_decimal raw = parse_signed (trim_space raw)

-- `if result == "" { result = "0" }`
abbrev pub or_zero : Text → Text
or_zero [] = ascii_zero ∷ []
or_zero (c ∷ s) = c ∷ s

-- the leading zeros off, with one put back where nothing or a point would be in front
unfoldable pub with_zero : Text → Text
with_zero [] = ascii_zero ∷ []
with_zero (c ∷ s) = if c == ascii_point then ascii_zero ∷ c ∷ s else c ∷ s

-- the digits with the point after the first n of them, padded to n digits
unfoldable pub place_at : Text → ℕ → Text
unfolding trim_left_of trim_right_of with_zero
place_at digits n =
    if leb (length digits) n
    then with_zero
        (trim_left_of ascii_zero (or_zero (digits ++ replicate (n - length digits) ascii_zero)))
    else with_zero (
        trim_left_of ascii_zero (
          trim_right_of ascii_point
            (trim_right_of ascii_zero (or_zero (take n digits) ++ ascii_point ∷ drop n digits))))

-- decimalPosition may be negative
unfoldable pub place : Text → ℤ → Text
unfolding place_at
place digits (pos n) = place_at digits n
place digits (negsuc n) = place_at (replicate (suc n) ascii_zero ++ digits) 0

unfoldable pub with_sign : Bool → Text → Text
unfolding text_eq
with_sign minus result =
    if text_eq result (codes "0") then result else if minus then 45 ∷ result else result

abbrev pub decimal_digits : Decimal → Text
decimal_digits d = d.integer_part ++ d.fraction_part

abbrev pub place_digits : Bool → Text → ℤ → Text
place_digits minus [] p = codes "0"
place_digits minus (c ∷ s) p = with_sign minus (place (c ∷ s) p)

-- the digits without their leading zeros, which come off decimalPosition (`point`)
unfoldable pub place_trimmed : Bool → Text → ℤ → Text
unfolding trim_left_of place with_sign
place_trimmed minus digits point =
    let trimmed : Text = trim_left_of ascii_zero digits in
    place_digits minus trimmed (point -ℤ pos (length digits - length trimmed))

-- canonicalNumber from its digits on
unfoldable pub canonical_decimal : Decimal → Text
canonical_decimal d =
    place_trimmed d.negative (decimal_digits d) (pos (length d.integer_part) +ℤ d.exponent)

abbrev pub canonical_form : Option Decimal → Option Text
canonical_form none = none
canonical_form (some d) = some (canonical_decimal d)

unfoldable pub canonical_number : Text → Option Text
unfolding parse_decimal canonical_decimal place_trimmed ◌+ℤ◌ ◌-ℤ◌
canonical_number raw = canonical_form (parse_decimal raw)
