-- ===== src/Merkle/Groups.antt =====
-- What one round does to the groups and to the proofs of each leaf.
use auditchain_gateway_backe.Prelude.{
  ℕ, ◌+◌, ◌*◌, ◌≤◌, ◌≡◌, refl, sym, ◌∙◌, List, [], ◌∷◌, ◌++◌, length, replicate, arith, Bool-cases,
  inl, inr,
}
use mathlib.Core.List.{append-nil, append_assoc}
use auditchain_gateway_backe.Prelude.Text.{Text, text_eq, text_eq_iff}
use auditchain_gateway_backe.Prelude.Counts.{count, count-append}
use auditchain_gateway_backe.Merkle.{
  ProofStep, Proofs, Node, proof_of, append_step, next_level, pair_proofs,
}

-- A leaf gets the step as often as it stands in the group.
pub proof_of-append_step :
    (x : Text) (group : List Text) (s : ProofStep) (m : Proofs)
    → proof_of (append_step group s m) x ≡ proof_of m x ++ replicate (count x group) s
unfolding proof_of append_step count
proof_of-append_step x [] s m = sym (append-nil (proof_of m x))
proof_of-append_step x (y ∷ group) s m = elim (Bool-cases (text_eq y x)) [
  | inl same ↦
      rw (same, proof_of-append_step x group s ((y, proof_of m y ++ s ∷ []) ∷ m), proof_of, same)
        (rw ((text_eq_iff y x).0 same)
          (append_assoc (proof_of m x) (s ∷ []) (replicate (count x group) s)))
  | inr other ↦
      rw (other, proof_of-append_step x group s ((y, proof_of m y ++ s ∷ []) ∷ m), proof_of, other)
        refl
]

-- The two cases that occur in a tree of distinct leaves.
pub append_step_frame :
    (x : Text) (group : List Text) (s : ProofStep) (m : Proofs)
    → count x group ≡ 0
    → proof_of (append_step group s m) x ≡ proof_of m x
append_step_frame x group s m h =
    rw (proof_of-append_step x group s m, h) (append-nil (proof_of m x))

pub append_step_once :
    (x : Text) (group : List Text) (s : ProofStep) (m : Proofs)
    → count x group ≡ 1
    → proof_of (append_step group s m) x ≡ proof_of m x ++ s ∷ []
append_step_once x group s m h = rw (proof_of-append_step x group s m, h)

-- The leaves below the nodes of a level, from left to right.
abbrev pub leaves_of : List Node → List Text
leaves_of [] = []
leaves_of (n ∷ ns) = n.group ++ leaves_of ns

module _ (sha3 : List ℕ → List ℕ) where
  pub leaves_of-next_level :
      (level : ℕ) (ns : List Node) (m : Proofs)
      → leaves_of (next_level sha3 level ns m).0 ≡ leaves_of ns
  unfolding next_level
  leaves_of-next_level level [] m = refl
  leaves_of-next_level level (l ∷ []) m = refl
  leaves_of-next_level level (l ∷ r ∷ rest) m =
      rw (leaves_of-next_level level rest (pair_proofs level l r m))
        (append_assoc l.group r.group (leaves_of rest))

  pub length-next_level :
      (level : ℕ) (ns : List Node) (m : Proofs)
      → (2 * length (next_level sha3 level ns m).0 ≤ length ns + 1)
        × (length ns ≤ 2 * length (next_level sha3 level ns m).0)
  unfolding next_level
  length-next_level level [] m = omega arith
  length-next_level level (l ∷ []) m = omega arith
  length-next_level level (l ∷ r ∷ rest) m =
      omega (arith, length-next_level level rest (pair_proofs level l r m))

  -- A leaf outside the level keeps its proof.
  pub next_level_frame :
      (x : Text) (level : ℕ) (ns : List Node) (m : Proofs)
      → count x (leaves_of ns) ≡ 0
      → proof_of (next_level sha3 level ns m).1 x ≡ proof_of m x
  unfolding next_level
  next_level_frame x level [] m h = refl
  next_level_frame x level (l ∷ []) m h =
      append_step_frame x l.group _ m (omega (arith, count-append x l.group []))
  next_level_frame x level (l ∷ r ∷ rest) m h =
      next_level_frame x level rest (pair_proofs level l r m) (
        omega (
          arith,
          count-append x l.group (r.group ++ leaves_of rest),
          count-append x r.group (leaves_of rest),
        ))
      ∙ append_step_frame x r.group _ _ (
          omega (
            arith,
            count-append x l.group (r.group ++ leaves_of rest),
            count-append x r.group (leaves_of rest),
          ))
      ∙ append_step_frame x l.group _ m (
          omega (
            arith,
            count-append x l.group (r.group ++ leaves_of rest),
            count-append x r.group (leaves_of rest),
          ))
