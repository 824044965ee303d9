-- ===== src/Decimal.antt =====
-- Decimal text of integers: the verb %d of package fmt, strconv.Itoa and strconv.FormatInt.
use auditchain_gateway_backe.Prelude.{
  ℕ, zero, suc, ◌+◌, ◌-◌, ◌*◌, ◌/◌, ◌%◌, ◌≤◌, ◌<◌, ◌≡◌, ◌≢◌, refl, sym, ap, ◌∙◌, [], ◌∷◌, ◌++◌, ltb,
  if◌then◌else◌, arith, Bool-cases, inl, inr,
}
use auditchain_gateway_backe.Prelude.Text.{Text}
use auditchain_gateway_backe.Prelude.Int.{ℤ, pos, negsuc}
use auditchain_gateway_backe.Prelude.Counts.{All, All-weaken, All-append}

-- on fuel: a number has fewer digits than its successor counts
unfoldable pub digits : ℕ → ℕ → Text
digits zero n = []
digits (suc fuel) n =
    let high = digits fuel (n / 10) in
    if ltb n 10 then (n + 48) ∷ [] else high ++ (n % 10 + 48) ∷ []

unfoldable pub format_int : ℤ → Text
format_int (pos n) = digits (suc n) n
format_int (negsuc n) = 45 ∷ digits (suc (suc n)) (suc n)

value_from : ℕ → Text → ℕ
value_from acc [] = acc
value_from acc (c ∷ s) = value_from (acc * 10 + (c - 48)) s

value_from-append :
    (acc : ℕ) (s : Text) (c : ℕ) → value_from acc (s ++ c ∷ []) ≡ value_from acc s * 10 + (c - 48)
unfolding value_from
value_from-append acc [] c = refl
value_from-append acc (d ∷ s) c = value_from-append (acc * 10 + (d - 48)) s c

value_from-digits : (fuel n : ℕ) → n < fuel → value_from 0 (digits fuel n) ≡ n
unfolding digits value_from
value_from-digits zero n h = absurd (omega arith)
value_from-digits (suc fuel) n h = ground (
  arith,
  value_from-digits fuel (n / 10),
  value_from-append 0 (digits fuel (n / 10)) (n % 10 + 48),
)

abbrev pub IsDigit : ℕ → Type 0
IsDigit c = (48 ≤ c) × (c ≤ 57)

digits-IsDigit : (fuel n : ℕ) → All IsDigit (digits fuel n)
unfolding digits
digits-IsDigit zero n = tt
digits-IsDigit (suc fuel) n = elim (Bool-cases (ltb n 10)) [
  | inl e ↦ rw e (ground arith)
  | inr e ↦
      rw e
        (All-append IsDigit (digits fuel (n / 10)) _ (digits-IsDigit fuel (n / 10)) (omega arith))
]

-- no sign inside the digits
minus_ne_digits : (fuel n : ℕ) (s : Text) → 45 ∷ s ≢ digits fuel n
minus_ne_digits fuel n s e = go (digits fuel n) (digits-IsDigit fuel n) e
  where
    go : (t : Text) → All IsDigit t → 45 ∷ s ≡ t → ⊥
    go [] h p = cc p
    go (c ∷ t) h p = ground (arith, p)

digits-injective : (a b : ℕ) → digits (suc a) a ≡ digits (suc b) b → a ≡ b
digits-injective a b e =
    sym (value_from-digits (suc a) a (omega arith))
    ∙ ap (value_from 0) e
    ∙ value_from-digits (suc b) b (omega arith)

cons_tail : (a : ℕ) (s t : Text) → ◌≡◌ {A = Text} (a ∷ s) (a ∷ t) → s ≡ t
cons_tail a s t e = cc

digit_ne_bar : (c : ℕ) → IsDigit c → c ≢ 124
digit_ne_bar c h e = omega arith

-- Different integers have different texts.
pub format_int-injective : (a b : ℤ) → format_int a ≡ format_int b → a ≡ b
unfolding format_int
format_int-injective (pos a) (pos b) e = ap pos (digits-injective a b e)
format_int-injective (pos a) (negsuc b) e = absurd (minus_ne_digits (suc a) a _ (sym e))
format_int-injective (negsuc a) (pos b) e = absurd (minus_ne_digits (suc b) b _ e)
format_int-injective (negsuc a) (negsuc b) e =
    let same : suc a ≡ suc b = digits-injective (suc a) (suc b) (cons_tail 45 _ _ e) in
    ap negsuc (omega arith)

pub format_int-NoBar : (a : ℤ) → All (λ c. c ≢ 124) (format_int a)
unfolding format_int
format_int-NoBar (pos n) = All-weaken digit_ne_bar (digits (suc n) n) (digits-IsDigit (suc n) n)
format_int-NoBar (negsuc n) = (
  omega arith,
  All-weaken digit_ne_bar (digits (suc (suc n)) (suc n)) (digits-IsDigit (suc (suc n)) (suc n)),
)
