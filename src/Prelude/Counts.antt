-- ===== src/Prelude/Counts.antt =====
-- How often a text stands in a list, and predicates on all members of a list.
use Prim.Native.Nat.{ℕ, suc, ◌+◌, ◌≤◌}
use mathlib.Core.Path.{◌≡◌, refl}
use mathlib.Core.List.{List, [], ◌∷◌, ◌++◌}
use native.Mathlib.Omega.{arith}
use auditchain_gateway_backe.Prelude.Tests.{if◌then◌else◌}
use auditchain_gateway_backe.Prelude.Text.{Text, text_eq, text_eq_iff}

unfoldable pub count : Text → List Text → ℕ
count a [] = 0
count a (x ∷ xs) = if text_eq x a then suc (count a xs) else count a xs

pub count-nil : (a : Text) → count a [] ≡ 0
unfolding count
count-nil a = refl

pub count-append : (a : Text) (xs ys : List Text) → count a (xs ++ ys) ≡ count a xs + count a ys
unfolding count
count-append a [] ys = omega arith
count-append a (x ∷ xs) ys = ground (arith, count-append a xs ys)

-- No text stands twice in the list.
pub record Distinct (xs : List Text) : Type 0 where
  pub once : (a : Text) → count a xs ≤ 1

-- A predicate by recursion computes to tuples, which the tactics read and build.
abbrev pub All {ℓ κ} : {A : Type ℓ} → (A → Type κ) → List A → Type κ
All P [] = Unit
All P (x ∷ xs) = P x × All P xs

pub All-weaken {ℓ κ} :
    {A : Type ℓ} {P Q : A → Type κ} → ((a : A) → P a → Q a) → (xs : List A) → All P xs → All Q xs
All-weaken f [] h = tt
All-weaken f (x ∷ xs) h = (f x h.0, All-weaken f xs h.1)

pub Distinct-nil : Distinct []
unfolding count
Distinct-nil = record { once = λ a. omega arith }

pub Distinct-cons : (x : Text) (xs : List Text) → count x xs ≡ 0 → Distinct xs → Distinct (x ∷ xs)
unfolding count
Distinct-cons x xs h d = record { once = λ a. ground (arith, d.once a, text_eq_iff x a) }

pub All-append {ℓ κ} :
    {A : Type ℓ} (P : A → Type κ) (xs ys : List A) → All P xs → All P ys → All P (xs ++ ys)
All-append P [] ys hx hy = hy
All-append P (x ∷ xs) ys hx hy = (hx.0, All-append P xs ys hx.1 hy)
