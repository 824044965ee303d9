-- ===== src/Canonical/Trim.antt =====
-- Texts whose characters are trimmed off at an end, and taken or dropped in front.
use mathlib.Core.List.{reverse, reverse-append, reverse-cons, reverse-reverse}
use auditchain_gateway_backe.Prelude.{
  ℕ, zero, suc, ◌+◌, ◌-◌, ◌≤◌, ◌<◌, ◌≡◌, ◌≢◌, refl, ap, true, false, [], ◌∷◌, ◌++◌, length, take,
  drop, ◌==◌, leb, ltb, arith, if◌then◌else◌,
}
use auditchain_gateway_backe.Prelude.Text.{Text, is_empty}
use auditchain_gateway_backe.Prelude.Counts.{All, All-append, All-weaken}
use auditchain_gateway_backe.Decimal.{IsDigit}
use auditchain_gateway_backe.Canonical.Number.{trim_left_of, trim_right_of, ascii_point}

pub leb-false : (a b : ℕ) → b < a → leb a b ≡ false
leb-false a b h = ground arith

pub leb-true : (a b : ℕ) → a ≤ b → leb a b ≡ true
leb-true a b h = ground arith

pub sub_self : (n : ℕ) → n - n ≡ 0
sub_self n = omega arith

pub one_more : (n m : ℕ) → m < n → n - m ≡ suc (n - (m + 1))
one_more n m h = omega arith

pub at_length : (n m : ℕ) → ltb n m ≡ false → ltb m n ≡ false → n ≡ m
at_length n m h k = ground arith

pub trim_left_of-snoc :
    (c : ℕ) (s : Text)
    → trim_left_of c (s ++ c ∷ [])
      ≡ (if is_empty (trim_left_of c s) then [] else trim_left_of c s ++ c ∷ [])
unfolding trim_left_of
trim_left_of-snoc c [] = ground arith
trim_left_of-snoc c (x ∷ s) = ground (arith, trim_left_of-snoc c s)

trim_left_of-other : (c : ℕ) (s : Text) → All (λ (x : ℕ). x ≢ c) s → trim_left_of c s ≡ s
unfolding trim_left_of
trim_left_of-other c [] h = refl
trim_left_of-other c (x ∷ s) h = ground arith

pub length-trim_left_of : (c : ℕ) (s : Text) → length (trim_left_of c s) ≤ length s
unfolding trim_left_of
length-trim_left_of c [] = omega arith
length-trim_left_of c (x ∷ s) = ground (arith, length-trim_left_of c s)

-- a last character that is trimmed
pub trim_right_of-snoc : (c : ℕ) (s : Text) → trim_right_of c (s ++ c ∷ []) ≡ trim_right_of c s
unfolding trim_right_of trim_left_of
trim_right_of-snoc c s = rw (reverse-append s (c ∷ [])) (ground arith)

-- a last character that is kept
pub trim_right_of-keep :
    (c d : ℕ) (s : Text) → (d == c) ≡ false → trim_right_of c (s ++ d ∷ []) ≡ s ++ d ∷ []
unfolding trim_right_of trim_left_of
trim_right_of-keep c d s h =
    rw (reverse-append s (d ∷ []), h, reverse-cons d (reverse s), reverse-reverse s) refl

All-reverse : (P : ℕ → Type 0) (s : Text) → All P s → All P (reverse s)
All-reverse P [] h = tt
All-reverse P (x ∷ s) h =
    rw (reverse-cons x s) (All-append P (reverse s) (x ∷ []) (All-reverse P s h.1) (h.0, tt))

pub trim_right_of-digits : (s : Text) → All IsDigit s → trim_right_of ascii_point s ≡ s
unfolding trim_right_of
trim_right_of-digits s h =
    rw
      (trim_left_of-other ascii_point (reverse s)
        (All-weaken (λ x d. omega arith) (reverse s) (All-reverse IsDigit s h)))
      (reverse-reverse s)

pub take-append : (n : ℕ) (xs ys : Text) → n ≤ length xs → take n (xs ++ ys) ≡ take n xs
take-append zero xs ys h = refl
take-append (suc n) [] ys h = absurd (omega arith)
take-append (suc n) (x ∷ xs) ys h = ap (◌∷◌ x) (take-append n xs ys (omega arith))

pub drop-append : (n : ℕ) (xs ys : Text) → n ≤ length xs → drop n (xs ++ ys) ≡ drop n xs ++ ys
drop-append zero xs ys h = refl
drop-append (suc n) [] ys h = absurd (omega arith)
drop-append (suc n) (x ∷ xs) ys h = drop-append n xs ys (omega arith)

pub take-all : (xs : Text) → take (length xs) xs ≡ xs
take-all [] = refl
take-all (x ∷ xs) = ap (◌∷◌ x) (take-all xs)

pub drop-all : (xs : Text) → drop (length xs) xs ≡ []
drop-all [] = refl
drop-all (x ∷ xs) = drop-all xs
