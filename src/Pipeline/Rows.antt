-- ===== src/Pipeline/Rows.antt =====
-- The proof rows that a batch adds to the table, and how a query finds those of one hash.
use auditchain_gateway_backe.Prelude.{
  ℕ, zero, suc, ◌≤◌, ◌<◌, ◌≡◌, refl, sym, ap, subst, ◌∙◌, Bool, true, false, Bool-cases, inl, inr,
  List, [], ◌∷◌, ◌++◌, map, arith, leb,
}
use auditchain_gateway_backe.Prelude.Text.{Text, text_eq, text_eq_iff, text_eq_refl}
use auditchain_gateway_backe.Prelude.Counts.{count, All, All-weaken, All-append}
use auditchain_gateway_backe.Prelude.Table.{select, select-append, order_by, insert_by}
use auditchain_gateway_backe.Merkle.{ProofStep, Proofs, proof_of}
use auditchain_gateway_backe.Merkle.Complete.{upto, levels_of}
use auditchain_gateway_backe.Model.{AuditLog, MerkleProofRow}
use auditchain_gateway_backe.Audit.{to_merkle_proof_data}
use auditchain_gateway_backe.Pipeline.{proof_row, hash_values}

-- the rows of one hash, and those of all logs of a batch
abbrev pub rows_of_hash : Text → Proofs → Text → List MerkleProofRow
rows_of_hash root proofs hash = map (proof_row root hash) (proof_of proofs hash)

unfoldable pub rows_of_batch : Text → Proofs → List AuditLog → List MerkleProofRow
rows_of_batch root proofs [] = []
rows_of_batch root proofs (l ∷ ls) =
    rows_of_hash root proofs l.hash_value ++ rows_of_batch root proofs ls

abbrev pub has_hash : Text → MerkleProofRow → Bool
has_hash hash r = text_eq r.transaction_hash hash

select_own :
    (root hash : Text) (ps : List ProofStep)
    → select (has_hash hash) (map (proof_row root hash) ps) ≡ map (proof_row root hash) ps
unfolding select
select_own root hash [] = refl
select_own root hash (p ∷ ps) = rw (text_eq_refl hash, select_own root hash ps) refl

select_foreign :
    (root hash other : Text) (ps : List ProofStep)
    → text_eq other hash ≡ false
    → select (has_hash hash) (map (proof_row root other) ps) ≡ []
unfolding select
select_foreign root hash other [] ne = refl
select_foreign root hash other (p ∷ ps) ne = rw ne (select_foreign root hash other ps ne)

pub append_nil {ℓ} : {A : Type ℓ} (xs : List A) → xs ++ [] ≡ xs
append_nil [] = refl
append_nil (x ∷ xs) = ap (λ ys. x ∷ ys) (append_nil xs)

select_absent :
    (root : Text) (proofs : Proofs) (hash : Text) (ls : List AuditLog)
    → count hash (hash_values ls) ≡ 0
    → select (has_hash hash) (rows_of_batch root proofs ls) ≡ []
unfolding rows_of_batch count select
select_absent root proofs hash [] c = refl
select_absent root proofs hash (l ∷ ls) c = elim (Bool-cases (text_eq l.hash_value hash)) [
  | inl e ↦ absurd (omega (arith, rw e at c))
  | inr e ↦
      select-append (has_hash hash) (rows_of_hash root proofs l.hash_value)
        (rows_of_batch root proofs ls)
      ∙ ap (λ xs. xs ++ select (has_hash hash) (rows_of_batch root proofs ls))
          (select_foreign root hash l.hash_value (proof_of proofs l.hash_value) e)
      ∙ select_absent root proofs hash ls (rw e at c)
]

-- A hash that stands once in a batch has exactly the rows of its own proof.
pub select-rows_of_batch :
    (root : Text) (proofs : Proofs) (hash : Text) (ls : List AuditLog)
    → count hash (hash_values ls) ≡ 1
    → select (has_hash hash) (rows_of_batch root proofs ls) ≡ rows_of_hash root proofs hash
unfolding rows_of_batch count
select-rows_of_batch root proofs hash [] c = absurd (omega arith)
select-rows_of_batch root proofs hash (l ∷ ls) c = elim (Bool-cases (text_eq l.hash_value hash)) [
  | inl e ↦
      let own : l.hash_value ≡ hash = (text_eq_iff l.hash_value hash).0 e in
      let once : suc (count hash (hash_values ls)) ≡ 1 = rw e at c in
      select-append (has_hash hash) (rows_of_hash root proofs l.hash_value)
        (rows_of_batch root proofs ls)
      ∙ ap (λ xs. select (has_hash hash) (rows_of_hash root proofs l.hash_value) ++ xs)
          (select_absent root proofs hash ls (omega (arith, once)))
      ∙ append_nil (select (has_hash hash) (rows_of_hash root proofs l.hash_value))
      ∙ ap (λ h. select (has_hash hash) (rows_of_hash root proofs h)) own
      ∙ select_own root hash (proof_of proofs hash)
  | inr e ↦
      select-append (has_hash hash) (rows_of_hash root proofs l.hash_value)
        (rows_of_batch root proofs ls)
      ∙ ap (λ xs. xs ++ select (has_hash hash) (rows_of_batch root proofs ls))
          (select_foreign root hash l.hash_value (proof_of proofs l.hash_value) e)
      ∙ select-rows_of_batch root proofs hash ls (rw e at c)
]

pub to_merkle_proof_data-rows :
    (root hash : Text) (ps : List ProofStep)
    → to_merkle_proof_data (map (proof_row root hash) ps) ≡ ps
unfolding to_merkle_proof_data
to_merkle_proof_data-rows root hash [] = refl
to_merkle_proof_data-rows root hash (p ∷ ps) =
    ap (λ qs. p ∷ qs) (to_merkle_proof_data-rows root hash ps)

-- rows in the order of their levels
abbrev pub IsAscending : List ℕ → Type 0
IsAscending [] = Unit
IsAscending (a ∷ []) = Unit
IsAscending (a ∷ b ∷ ns) = (leb a b ≡ true) × IsAscending (b ∷ ns)

IsAscending-snoc :
    (n : ℕ) (ns : List ℕ) → IsAscending ns → All (λ a. a ≤ n) ns → IsAscending (ns ++ n ∷ [])
IsAscending-snoc n [] h b = tt
IsAscending-snoc n (a ∷ []) h b = (ground arith, tt)
IsAscending-snoc n (a ∷ c ∷ ns) h b = (h.0, IsAscending-snoc n (c ∷ ns) h.1 b.1)

upto_below : (n : ℕ) → All (λ a. a < n) (upto n)
upto_below zero = tt
upto_below (suc n) =
    All-append (λ a. a < suc n) (upto n) (n ∷ [])
      (All-weaken {P = λ a. a < n} {Q = λ a. a < suc n} (λ a h. omega arith) (upto n)
        (upto_below n))
      (omega arith, tt)

upto-IsAscending : (n : ℕ) → IsAscending (upto n)
upto-IsAscending zero = tt
upto-IsAscending (suc n) =
    IsAscending-snoc n (upto n) (upto-IsAscending n)
      (All-weaken {P = λ a. a < n} {Q = λ a. a ≤ n} (λ a h. omega arith) (upto n) (upto_below n))

abbrev pub by_level : MerkleProofRow → MerkleProofRow → Bool
by_level a b = leb a.tree_level b.tree_level

order_by-ascending :
    (root hash : Text) (ps : List ProofStep)
    → IsAscending (levels_of ps)
    → order_by by_level (map (proof_row root hash) ps) ≡ map (proof_row root hash) ps
unfolding order_by insert_by
order_by-ascending root hash [] h = refl
order_by-ascending root hash (p ∷ []) h = refl
order_by-ascending root hash (p ∷ q ∷ ps) h =
    ap (insert_by by_level (proof_row root hash p)) (order_by-ascending root hash (q ∷ ps) h.1)
    ∙ rw h.0 refl

-- The steps of a proof, whose levels are 0, 1, …, stay in their order.
pub order_by-levels :
    (root hash : Text) (ps : List ProofStep) (n : ℕ)
    → levels_of ps ≡ upto n
    → order_by by_level (map (proof_row root hash) ps) ≡ map (proof_row root hash) ps
order_by-levels root hash ps n e =
    order_by-ascending root hash ps (subst IsAscending (sym e) (upto-IsAscending n))
