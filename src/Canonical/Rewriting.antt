-- ===== src/Canonical/Rewriting.antt =====
-- Different texts of one number: canonicalNumber gives them the same form.
use mathlib.Core.List.{append-nil, append_assoc}
use auditchain_gateway_backe.Prelude.{
  ℕ, ◌≡◌, sym, subst, ap, Option, none, some, ◌||◌, ◌∙◌, Bool, true, false, List, [], ◌∷◌, ◌++◌,
  length, ◌==◌, Bool-cases, inl, inr, arith,
}
use auditchain_gateway_backe.Prelude.Text.{Text, is_empty, trim_space}
use auditchain_gateway_backe.Prelude.Int.{ℤ, pos, ◌+ℤ◌}
use auditchain_gateway_backe.Prelude.Counts.{All}
use auditchain_gateway_backe.Decimal.{IsDigit}
use auditchain_gateway_backe.Canonical.Number.{
  Decimal, all_digits, parse_parts, parse_mantissa, parse_unsigned, parse_signed, parse_decimal,
  parse_exponent, split_exponent, split_on, canonical_number, canonical_form, canonical_decimal,
  place_trimmed, decimal_digits, ascii_zero, ascii_point,
}
use auditchain_gateway_backe.Canonical.Place.{
  place_trimmed-trailing, place_trimmed-extra, point_moved,
}

-- the point before the digit `c`, and behind it
abbrev pub point_before : Bool → Text → Text → ℕ → ℤ → Decimal
point_before minus i f c e = record {
  negative = minus;
  integer_part = i;
  fraction_part = c ∷ f;
  exponent = e +ℤ pos 1;
}

abbrev pub point_behind : Bool → Text → Text → ℕ → ℤ → Decimal
point_behind minus i f c e = record {
  negative = minus;
  integer_part = i ++ c ∷ [];
  fraction_part = f;
  exponent = e;
}

-- One step of rewriting a decimal number without changing its value.
pub data Rewritten : Decimal → Decimal → Type 0 where
  -- a zero more after the fraction
  trailing_zero :
      {d : Decimal} → Rewritten d (record d { fraction_part = d.fraction_part ++ ascii_zero ∷ [] })
  -- a zero more in front of the integer part
  extra_zero : {d : Decimal} → Rewritten d (record d { integer_part = ascii_zero ∷ d.integer_part })
  -- the point one place to the right, and one off the exponent
  moved_point :
      {minus : Bool} {i f : Text} {c : ℕ} {e : ℤ}
      → Rewritten (point_before minus i f c e) (point_behind minus i f c e)

canonical_decimal-Rewritten :
    (a b : Decimal)
    → All IsDigit (decimal_digits a)
    → Rewritten a b
    → canonical_decimal b ≡ canonical_decimal a
unfolding canonical_decimal
canonical_decimal-Rewritten d _ h trailing_zero =
    ap (λ (t : Text). place_trimmed d.negative t (pos (length d.integer_part) +ℤ d.exponent))
      (sym (append_assoc d.integer_part d.fraction_part (ascii_zero ∷ [])))
    ∙ place_trimmed-trailing d.negative (decimal_digits d)
        (pos (length d.integer_part) +ℤ d.exponent) h
canonical_decimal-Rewritten d _ h extra_zero =
    place_trimmed-extra d.negative (decimal_digits d) (length d.integer_part) d.exponent
canonical_decimal-Rewritten _ _ h (moved_point {minus} {i} {f} {c} {e}) =
    ap (λ (t : Text). place_trimmed minus t (pos (length (i ++ c ∷ [])) +ℤ e))
      (append_assoc i (c ∷ []) f)
    ∙ ap (place_trimmed minus (i ++ c ∷ f)) (point_moved i c e)

all_digits-AreDigits : (s : Text) → all_digits s ≡ true → All IsDigit s
unfolding all_digits
all_digits-AreDigits [] h = tt
all_digits-AreDigits (c ∷ s) h = ground (arith, all_digits-AreDigits s)

HasDigits : Option Decimal → Type 0
HasDigits none = Unit
HasDigits (some d) = All IsDigit (decimal_digits d)

parse_parts-HasDigits :
    (minus : Bool) (e : ℤ) (parts : List Text) → HasDigits (parse_parts minus e parts)
unfolding parse_parts HasDigits
parse_parts-HasDigits minus e [] = tt
parse_parts-HasDigits minus e (i ∷ []) = elim (Bool-cases (is_empty i)) [
  | inl none_there ↦ rw none_there tt
  | inr some_there ↦ elim (Bool-cases (all_digits i)) [
    | inl good ↦ rw (some_there, good) (rw (append-nil i) (all_digits-AreDigits i good))
    | inr bad ↦ rw (some_there, bad) tt
  ]
]
parse_parts-HasDigits minus e (i ∷ f ∷ []) = elim (Bool-cases (is_empty i || is_empty f)) [
  | inl none_there ↦ rw none_there tt
  | inr some_there ↦ elim (Bool-cases (all_digits (i ++ f))) [
    | inl good ↦ rw (some_there, good) (all_digits-AreDigits (i ++ f) good)
    | inr bad ↦ rw (some_there, bad) tt
  ]
]
parse_parts-HasDigits minus e (_ ∷ _ ∷ _ ∷ _) = tt

parse_mantissa-HasDigits :
    (minus : Bool) (m : Text) (e : Option ℤ) → HasDigits (parse_mantissa minus m e)
unfolding HasDigits
parse_mantissa-HasDigits minus m none = tt
parse_mantissa-HasDigits minus m (some e) = parse_parts-HasDigits minus e (split_on ascii_point m)

parse_unsigned-HasDigits : (minus : Bool) (s : Text) → HasDigits (parse_unsigned minus s)
unfolding parse_unsigned HasDigits
parse_unsigned-HasDigits minus [] = tt
parse_unsigned-HasDigits minus (c ∷ s) =
    parse_mantissa-HasDigits minus (split_exponent (c ∷ s)).0
      (parse_exponent (split_exponent (c ∷ s)).1)

parse_signed-HasDigits : (s : Text) → HasDigits (parse_signed s)
unfolding parse_signed HasDigits
parse_signed-HasDigits [] = tt
parse_signed-HasDigits (c ∷ s) = elim (Bool-cases (c == 45)) [
  | inl e ↦ rw e (parse_unsigned-HasDigits true s)
  | inr e ↦ rw e (parse_unsigned-HasDigits false (c ∷ s))
]

parsed_digits :
    (raw : Text) (d : Decimal) → parse_decimal raw ≡ some d → All IsDigit (decimal_digits d)
unfolding parse_decimal HasDigits
parsed_digits raw d h = subst HasDigits h (parse_signed-HasDigits (trim_space raw))

-- A number has one canonical form, whichever of its texts is given: where two texts are read as
-- decimals that differ by a zero more after the fraction, by a zero more in front, or by the point
-- moved against the exponent, canonicalNumber gives the same for both.
pub canonical_number-Rewritten :
    (raw other : Text) (a b : Decimal)
    → parse_decimal raw ≡ some a
    → parse_decimal other ≡ some b
    → Rewritten a b
    → canonical_number other ≡ canonical_number raw
unfolding canonical_number
canonical_number-Rewritten raw other a b h k r =
    ap canonical_form k
    ∙ ap some (canonical_decimal-Rewritten a b (parsed_digits raw a h) r)
    ∙ sym (ap canonical_form h)
