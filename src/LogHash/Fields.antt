-- ===== src/LogHash/Fields.antt =====
-- When the text that is hashed determines its fields.
use auditchain_gateway_backe.Prelude.{◌≡◌, ◌≢◌, refl, ap, List, [], ◌∷◌, ◌++◌, length, arith}
use mathlib.Core.List.{append_assoc}
use auditchain_gateway_backe.Prelude.Text.{Text}
use auditchain_gateway_backe.Prelude.Counts.{All}
use auditchain_gateway_backe.LogHash.{bar, join_fields}

abbrev pub NoBar : Text → Type 0
NoBar = All (λ c. c ≢ bar)

-- All fields but the last are free of the separator.
abbrev pub AreSeparable : List Text → Type 0
AreSeparable [] = Unit
AreSeparable (s ∷ []) = Unit
AreSeparable (s ∷ t ∷ rest) = NoBar s × AreSeparable (t ∷ rest)

split_at_bar :
    (a c b d : Text) → NoBar a → NoBar c → a ++ bar ∷ b ≡ c ++ bar ∷ d → (a ≡ c) × (b ≡ d)
split_at_bar [] [] b d ha hc e = (refl, cc)
split_at_bar [] (y ∷ c) b d ha hc e = absurd (hc.0 (cc))
split_at_bar (x ∷ a) [] b d ha hc e = absurd (ha.0 (cc))
split_at_bar (x ∷ a) (y ∷ c) b d ha hc e =
    let (p, q) = split_at_bar a c b d ha.1 hc.1 (cc) in (cc, q)

pub join_fields-injective :
    (xs ys : List Text)
    → length xs ≡ length ys
    → AreSeparable xs
    → AreSeparable ys
    → join_fields xs ≡ join_fields ys
    → xs ≡ ys
unfolding join_fields
join_fields-injective [] [] n hx hy e = refl
join_fields-injective [] (y ∷ ys) n hx hy e = absurd (omega arith)
join_fields-injective (x ∷ xs) [] n hx hy e = absurd (omega arith)
join_fields-injective (x ∷ []) (y ∷ []) n hx hy e = cc
join_fields-injective (x ∷ []) (y ∷ t ∷ ys) n hx hy e = absurd (omega arith)
join_fields-injective (x ∷ s ∷ xs) (y ∷ []) n hx hy e = absurd (omega arith)
join_fields-injective (x ∷ s ∷ xs) (y ∷ t ∷ ys) n hx hy e =
    let (p, q) = split_at_bar x y (join_fields (s ∷ xs)) (join_fields (t ∷ ys)) hx.0 hy.0 e in
    let r = join_fields-injective (s ∷ xs) (t ∷ ys) (omega arith) hx.1 hy.1 q in cc

-- A separator inside a field moves freely over the boundary to the next one.
pub join_fields_ambiguous :
    (before : List Text) (a b c d : Text) (after : List Text)
    → join_fields (before ++ (a ++ bar ∷ b) ∷ c ∷ d ∷ after)
      ≡ join_fields (before ++ a ∷ (b ++ bar ∷ c) ∷ d ∷ after)
unfolding join_fields
join_fields_ambiguous [] a b c d after = simp append_assoc
join_fields_ambiguous (s ∷ []) a b c d after = simp append_assoc
join_fields_ambiguous (s ∷ t ∷ before) a b c d after =
    ap (λ r. s ++ bar ∷ r) (join_fields_ambiguous (t ∷ before) a b c d after)
