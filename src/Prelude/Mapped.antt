-- ===== src/Prelude/Mapped.antt =====
-- Queries on a table whose rows are changed in columns that the query does not read.
use Prim.Native.Nat.{ℕ, zero, suc, ◌+◌}
use mathlib.Core.Path.{◌≡◌, refl, ap}
use mathlib.Core.Bool.{Bool}
use mathlib.Core.Option.{Option, none, some}
use mathlib.Core.List.{List, [], ◌∷◌, ◌++◌, map}
use native.Mathlib.Omega.{arith}
use mathlib.Core.Logic.{inl, inr}
use auditchain_gateway_backe.Prelude.Tests.{Bool-cases}
use auditchain_gateway_backe.Prelude.Lists.{take, drop}
use auditchain_gateway_backe.Prelude.Table.{
  select, update_where, first_where, count_where, insert_by, order_by,
}

abbrev pub map_option {ℓ} : {A B : Type ℓ} → (A → B) → Option A → Option B
map_option f none = none
map_option f (some a) = some (f a)

module _ {ℓ} {A B : Type ℓ} (f : A → B) where
  pub take-map : (n : ℕ) (xs : List A) → take n (map f xs) ≡ map f (take n xs)
  take-map zero xs = refl
  take-map (suc n) [] = refl
  take-map (suc n) (x ∷ xs) = ap (λ ys. f x ∷ ys) (take-map n xs)

  pub drop-map : (n : ℕ) (xs : List A) → drop n (map f xs) ≡ map f (drop n xs)
  drop-map zero xs = refl
  drop-map (suc n) [] = refl
  drop-map (suc n) (x ∷ xs) = drop-map n xs

  pub map-update_where :
      (p : A → Bool) (g : A → A) (xs : List A)
      → ((a : A) → f (g a) ≡ f a)
      → map f (update_where p g xs) ≡ map f xs
  unfolding update_where
  map-update_where p g [] same = refl
  map-update_where p g (x ∷ xs) same = elim (Bool-cases (p x)) [
    | inl e ↦ rw (e, same x, map-update_where p g xs same) refl
    | inr e ↦ rw (e, map-update_where p g xs same) refl
  ]

module _ {ℓ} {A : Type ℓ} (f : A → A) where
  pub select-map :
      (p : A → Bool) (xs : List A)
      → ((a : A) → p (f a) ≡ p a)
      → select p (map f xs) ≡ map f (select p xs)
  unfolding select
  select-map p [] same = refl
  select-map p (x ∷ xs) same = elim (Bool-cases (p x)) [
    | inl e ↦ rw (same x, e, select-map p xs same) refl
    | inr e ↦ rw (same x, e, select-map p xs same) refl
  ]

  insert_by-map :
      (before : A → A → Bool) (x : A) (ys : List A)
      → ((a b : A) → before (f a) (f b) ≡ before a b)
      → insert_by before (f x) (map f ys) ≡ map f (insert_by before x ys)
  unfolding insert_by
  insert_by-map before x [] same = refl
  insert_by-map before x (y ∷ ys) same = elim (Bool-cases (before x y)) [
    | inl e ↦ rw (same x y, e) refl
    | inr e ↦ rw (same x y, e, insert_by-map before x ys same) refl
  ]

  pub order_by-map :
      (before : A → A → Bool) (xs : List A)
      → ((a b : A) → before (f a) (f b) ≡ before a b)
      → order_by before (map f xs) ≡ map f (order_by before xs)
  unfolding order_by
  order_by-map before [] same = refl
  order_by-map before (x ∷ xs) same =
      rw (order_by-map before xs same) (insert_by-map before x (order_by before xs) same)

  pub first_where-map :
      (p : A → Bool) (xs : List A)
      → ((a : A) → p (f a) ≡ p a)
      → first_where p (map f xs) ≡ map_option f (first_where p xs)
  unfolding first_where
  first_where-map p [] same = refl
  first_where-map p (x ∷ xs) same = elim (Bool-cases (p x)) [
    | inl e ↦ rw (same x, e) refl
    | inr e ↦ rw (same x, e) (first_where-map p xs same)
  ]

module _ {ℓ} {A : Type ℓ} where
  -- two updates of the same rows in one
  pub update_where_twice :
      (p : A → Bool) (g h : A → A) (xs : List A)
      → ((a : A) → p (g a) ≡ p a)
      → update_where p h (update_where p g xs) ≡ update_where p (λ a. h (g a)) xs
  unfolding update_where
  update_where_twice p g h [] same = refl
  update_where_twice p g h (x ∷ xs) same = elim (Bool-cases (p x)) [
    | inl e ↦ rw (e, same x, e, update_where_twice p g h xs same) refl
    | inr e ↦ rw (e, e, update_where_twice p g h xs same) refl
  ]

  pub update_where_cong :
      (p : A → Bool) (g h : A → A) (xs : List A)
      → ((a : A) → g a ≡ h a)
      → update_where p g xs ≡ update_where p h xs
  unfolding update_where
  update_where_cong p g h [] same = refl
  update_where_cong p g h (x ∷ xs) same = rw (same x, update_where_cong p g h xs same) refl

  pub count_where-append :
      (p : A → Bool) (xs ys : List A)
      → count_where p (xs ++ ys) ≡ count_where p xs + count_where p ys
  unfolding count_where
  count_where-append p [] ys = omega arith
  count_where-append p (x ∷ xs) ys = ground (arith, count_where-append p xs ys)
