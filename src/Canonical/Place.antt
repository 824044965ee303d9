-- ===== src/Canonical/Place.antt =====
-- The digits of a number with a zero more, and with the point moved.
use mathlib.Core.List.{append-nil, append_assoc}
use auditchain_gateway_backe.Prelude.{
  ℕ, zero, suc, ◌+◌, ◌-◌, ◌≤◌, ◌<◌, ◌≡◌, refl, sym, ap, ◌∙◌, Bool, [], ◌∷◌, ◌++◌, length,
  length-append, take, drop, replicate, ◌==◌, ltb, tests, Bool-cases, inl, inr, arith,
  if◌then◌else◌,
}
use auditchain_gateway_backe.Prelude.Text.{Text, is_empty}
use auditchain_gateway_backe.Prelude.Int.{ℤ, pos, negsuc, ◌+ℤ◌, ◌-ℤ◌, int_laws}
use auditchain_gateway_backe.Prelude.Counts.{All, All-append}
use auditchain_gateway_backe.Decimal.{IsDigit}
use auditchain_gateway_backe.Canonical.Number.{
  trim_left_of, place_at, place, or_zero, place_trimmed, place_digits, with_sign, ascii_zero,
  ascii_point,
}
use auditchain_gateway_backe.Canonical.Trim.{
  leb-false, leb-true, sub_self, one_more, at_length, trim_left_of-snoc, length-trim_left_of,
  trim_right_of-snoc, trim_right_of-keep, trim_right_of-digits, take-append, drop-append, take-all,
  drop-all,
}

-- the point at the end
place_at-whole :
    (digits : Text)
    → All IsDigit digits
    → or_zero digits ≡ digits
    → place_at (digits ++ ascii_zero ∷ []) (length digits) ≡ place_at digits (length digits)
unfolding place_at
place_at-whole digits h nonempty =
    rw
      (
        length-append digits (ascii_zero ∷ []),
        take-append (length digits) digits (ascii_zero ∷ []) (omega arith),
        drop-append (length digits) digits (ascii_zero ∷ []) (omega arith),
        take-all digits,
        drop-all digits,
        leb-false (length digits + 1) (length digits) (omega arith),
        leb-true (length digits) (length digits) (omega arith),
        nonempty,
        sym (append_assoc digits (ascii_point ∷ []) (ascii_zero ∷ [])),
        trim_right_of-snoc ascii_zero (digits ++ ascii_point ∷ []),
        trim_right_of-keep ascii_zero ascii_point digits refl,
        trim_right_of-snoc ascii_point digits,
        trim_right_of-digits digits h,
        sub_self (length digits),
        append-nil digits,
        nonempty,
      )
      refl

-- the point behind it
place_at-beyond :
    (digits : Text) (n : ℕ)
    → length digits < n
    → place_at (digits ++ ascii_zero ∷ []) n ≡ place_at digits n
unfolding place_at
place_at-beyond digits n h =
    rw
      (
        length-append digits (ascii_zero ∷ []),
        leb-true (length digits) n (omega arith),
        leb-true (length digits + 1) n (omega arith),
        append_assoc digits (ascii_zero ∷ []) (replicate (n - (length digits + 1)) ascii_zero),
        one_more n (length digits) h,
      )
      refl

place_at-inside :
    (digits : Text) (n : ℕ)
    → n < length digits
    → place_at (digits ++ ascii_zero ∷ []) n ≡ place_at digits n
unfolding place_at
place_at-inside digits n h =
    rw
      (
        length-append digits (ascii_zero ∷ []),
        take-append n digits (ascii_zero ∷ []) (omega arith),
        drop-append n digits (ascii_zero ∷ []) (omega arith),
        leb-false (length digits) n (omega arith),
        leb-false (length digits + 1) n (omega arith),
        sym (
            append_assoc (or_zero (take n digits)) (ascii_point ∷ drop n digits) (ascii_zero ∷ [])),
        trim_right_of-snoc ascii_zero (or_zero (take n digits) ++ ascii_point ∷ drop n digits),
      )
      refl

place_at-trailing :
    (digits : Text) (n : ℕ)
    → All IsDigit digits
    → or_zero digits ≡ digits
    → place_at (digits ++ ascii_zero ∷ []) n ≡ place_at digits n
place_at-trailing digits n h nonempty = elim (Bool-cases (ltb n (length digits))) [
  | inl inside ↦ place_at-inside digits n (omega tests)
  | inr outside ↦ elim (Bool-cases (ltb (length digits) n)) [
    | inl beyond ↦ place_at-beyond digits n (omega tests)
    | inr whole ↦ rw (at_length n (length digits) outside whole) (place_at-whole digits h nonempty)
  ]
]

zeros-AreDigits : (n : ℕ) → All IsDigit (replicate n ascii_zero)
zeros-AreDigits zero = tt
zeros-AreDigits (suc n) = (omega arith, zeros-AreDigits n)

place-trailing :
    (digits : Text) (p : ℤ)
    → All IsDigit digits
    → or_zero digits ≡ digits
    → place (digits ++ ascii_zero ∷ []) p ≡ place digits p
unfolding place
place-trailing digits (pos n) h nonempty = place_at-trailing digits n h nonempty
place-trailing digits (negsuc n) h nonempty =
    ap (λ (t : Text). place_at t 0)
      (sym (append_assoc (replicate (suc n) ascii_zero) digits (ascii_zero ∷ [])))
    ∙ place_at-trailing (replicate (suc n) ascii_zero ++ digits) 0
        (All-append IsDigit (replicate (suc n) ascii_zero) digits (zeros-AreDigits (suc n)) h) refl

trim_left_of-AreDigits : (s : Text) → All IsDigit s → All IsDigit (trim_left_of ascii_zero s)
unfolding trim_left_of
trim_left_of-AreDigits [] h = tt
trim_left_of-AreDigits (x ∷ s) h = elim (Bool-cases (x == ascii_zero)) [
  | inl e ↦ rw e (trim_left_of-AreDigits s h.1)
  | inr e ↦ rw e h
]

-- with the leading zeros off, a zero more at the end
place_digits-trailing :
    (minus : Bool) (digits : Text) (p : ℤ)
    → All IsDigit digits
    → place_digits minus (if is_empty digits then [] else digits ++ ascii_zero ∷ []) p
      ≡ place_digits minus digits p
place_digits-trailing minus [] p h = refl
place_digits-trailing minus (c ∷ s) p h = ap (with_sign minus) (place-trailing (c ∷ s) p h refl)

snoc_trimmed : (l n : ℕ) → n ≤ l → (l + 1) - (n + 1) ≡ l - n
snoc_trimmed l n h = omega arith

-- the leading zeros of a number with a zero more at the end
leading-trailing :
    (minus : Bool) (digits trimmed : Text) (p : ℤ)
    → length trimmed ≤ length digits
    → place_digits minus (if is_empty trimmed then [] else trimmed ++ ascii_zero ∷ []) (
        p
        -ℤ pos (
            length (digits ++ ascii_zero ∷ [])
            - length (if is_empty trimmed then [] else trimmed ++ ascii_zero ∷ [])))
      ≡ place_digits minus
          (if is_empty trimmed then [] else trimmed ++ ascii_zero ∷ [])
          (p -ℤ pos (length digits - length trimmed))
leading-trailing minus digits [] p h = refl
leading-trailing minus digits (c ∷ s) p h =
    rw
      (
        length-append digits (ascii_zero ∷ []),
        length-append (c ∷ s) (ascii_zero ∷ []),
        snoc_trimmed (length digits) (length (c ∷ s)) h,
      )
      refl

pub place_trimmed-trailing :
    (minus : Bool) (digits : Text) (p : ℤ)
    → All IsDigit digits
    → place_trimmed minus (digits ++ ascii_zero ∷ []) p ≡ place_trimmed minus digits p
unfolding place_trimmed
place_trimmed-trailing minus digits p h =
    let trimmed : Text = trim_left_of ascii_zero digits in
    rw (trim_left_of-snoc ascii_zero digits) (
      leading-trailing minus digits trimmed p (length-trim_left_of ascii_zero digits)
      ∙ place_digits-trailing minus trimmed (p -ℤ pos (length digits - length trimmed))
          (trim_left_of-AreDigits digits h))

point_extra :
    (a k : ℕ) (l : ℕ) (e : ℤ)
    → k ≤ l
    → pos (suc a) +ℤ e -ℤ pos (suc l - k) ≡ pos a +ℤ e -ℤ pos (l - k)
point_extra a k l e h = omega int_laws

pub place_trimmed-extra :
    (minus : Bool) (digits : Text) (a : ℕ) (e : ℤ)
    → place_trimmed minus (ascii_zero ∷ digits) (pos (suc a) +ℤ e)
      ≡ place_trimmed minus digits (pos a +ℤ e)
unfolding place_trimmed trim_left_of
place_trimmed-extra minus digits a e = ap (place_digits minus (trim_left_of ascii_zero digits)) (
    point_extra a (length (trim_left_of ascii_zero digits)) (length digits) e
      (length-trim_left_of ascii_zero digits))

pub point_moved :
    (i : Text) (c : ℕ) (e : ℤ) → pos (length (i ++ c ∷ [])) +ℤ e ≡ pos (length i) +ℤ (e +ℤ pos 1)
point_moved i c e = rw (length-append i (c ∷ [])) (omega int_laws)
