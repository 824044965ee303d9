-- ===== src/Merkle/Complete.antt =====
-- Every leaf of a tree over distinct leaves has a proof that leads to the root.
use mathlib.Core.List.{map-append}
use native.Mathlib.Numerals.{add-one}
use auditchain_gateway_backe.Prelude.{
  ℕ, zero, suc, ◌+◌, ◌≤◌, ◌≡◌, refl, ◌∙◌, ap, subst, ◌⊎◌, inl, inr, true, false, some, List, [],
  ◌∷◌, ◌++◌, map, length, length-map, arith,
}
use auditchain_gateway_backe.Prelude.Text.{Text, text_eq_iff, text_eq_refl}
use auditchain_gateway_backe.Prelude.Counts.{count, count-nil, count-append, Distinct, All}
use auditchain_gateway_backe.Merkle.{
  ProofStep, Proofs, MerkleResult, Node, proof_of, pair_proofs, self_proofs, initial_proofs,
  leaf_node, hash_nodes, next_level, climb, build_merkle_tree, replay_step, reconstruct_merkle_root,
  verify_merkle_proof,
}
use auditchain_gateway_backe.Merkle.Groups.{
  append_step_frame, append_step_once, leaves_of, leaves_of-next_level, length-next_level,
  next_level_frame,
}

-- 0, 1, …, n - 1
abbrev pub upto : ℕ → List ℕ
upto zero = []
upto (suc n) = upto n ++ n ∷ []

abbrev pub levels_of : List ProofStep → List ℕ
levels_of = map (λ (p : ProofStep). p.tree_level)

which : (a b : ℕ) → 1 ≤ a + b → a + b ≤ 1 → ((a ≡ 1) × (b ≡ 0)) ⊎ ((a ≡ 0) × (b ≡ 1))
which zero b h k = inr (omega arith)
which (suc a) b h k = inl (omega arith)

module _ (sha3 : List ℕ → List ℕ) where
  pub reconstruct-append :
      (x : Text) (ps : List ProofStep) (s : ProofStep)
      → reconstruct_merkle_root sha3 x (ps ++ s ∷ [])
        ≡ replay_step sha3 (reconstruct_merkle_root sha3 x ps) s
  unfolding reconstruct_merkle_root
  reconstruct-append x [] s = refl
  reconstruct-append x (p ∷ ps) s = reconstruct-append (replay_step sha3 x p) ps s

  -- After `level` rounds each leaf below the node has a proof that leads to the node's hash, with
  -- one step for each round.
  record IsProven (level : ℕ) (m : Proofs) (n : Node) : Type 0 where
    reaches :
        (x : Text) → 1 ≤ count x n.group → reconstruct_merkle_root sha3 x (proof_of m x) ≡ n.hash
    levelled : (x : Text) → 1 ≤ count x n.group → levels_of (proof_of m x) ≡ upto level

  IsProven-frame :
      (level : ℕ) (m m' : Proofs) (ns : List Node)
      → ((x : Text) → 1 ≤ count x (leaves_of ns) → proof_of m' x ≡ proof_of m x)
      → All (IsProven level m) ns
      → All (IsProven level m') ns
  IsProven-frame level m m' [] same h = tt
  IsProven-frame level m m' (n ∷ ns) same h = (
    record {
      reaches = λ x c.
          rw (same x (omega (arith, count-append x n.group (leaves_of ns)))) (h.0.reaches x c);
      levelled = λ x c.
          rw (same x (omega (arith, count-append x n.group (leaves_of ns)))) (h.0.levelled x c);
    },
    IsProven-frame level m m' ns
        (λ x c. same x (omega (arith, count-append x n.group (leaves_of ns)))) h.1,
  )

  -- one more step on the proof of a leaf below `n`
  extended_reaches :
      {level : ℕ} {m : Proofs} (m' : Proofs) {n : Node} (s : ProofStep) (x : Text)
      → IsProven level m n
      → 1 ≤ count x n.group
      → proof_of m' x ≡ proof_of m x ++ s ∷ []
      → reconstruct_merkle_root sha3 x (proof_of m' x) ≡ replay_step sha3 n.hash s
  extended_reaches {m} m' s x v c e =
      rw (e, reconstruct-append x (proof_of m x) s, v.reaches x c) refl

  extended_levelled :
      {level : ℕ} {m : Proofs} (m' : Proofs) {n : Node} (s : ProofStep) (x : Text)
      → IsProven level m n
      → 1 ≤ count x n.group
      → proof_of m' x ≡ proof_of m x ++ s ∷ []
      → s.tree_level ≡ level
      → levels_of (proof_of m' x) ≡ upto (level + 1)
  extended_levelled {m} m' s x v c e l = rw (e, map-append, v.levelled x c, l, add-one) refl

  -- The proofs that a pair writes: one side gets its step, the other side is another leaf's.
  pair_writes :
      (level : ℕ) (l r : Node) (m : Proofs) (x : Text)
      → 1 ≤ count x l.group + count x r.group
      → count x l.group + count x r.group ≤ 1
      → ((count x l.group ≡ 1)
          × (proof_of (pair_proofs level l r m) x
              ≡ proof_of m x
                ++ record { sibling_hash = r.hash; is_left = false; tree_level = level } ∷ []))
        ⊎ ((count x r.group ≡ 1)
            × (proof_of (pair_proofs level l r m) x
                ≡ proof_of m x
                  ++ record { sibling_hash = l.hash; is_left = true; tree_level = level } ∷ []))
  pair_writes level l r m x lo hi = elim (which (count x l.group) (count x r.group) lo hi) [
    | inl (one, none_right) ↦
        inl (one, append_step_frame x r.group _ _ none_right ∙ append_step_once x l.group _ m one)
    | inr (none_left, one) ↦ inr (
      one,
      append_step_once x r.group _ _ one
          ∙ ap
              (λ ps.
                ps ++ record { sibling_hash = l.hash; is_left = true; tree_level = level } ∷ [])
              (append_step_frame x l.group _ m none_left),
    )
  ]

  pair-IsProven :
      (level : ℕ) (l r : Node) (m m' : Proofs)
      → ((x : Text) → count x l.group + count x r.group ≤ 1)
      → ((x : Text)
          → 1 ≤ count x l.group + count x r.group
          → proof_of m' x ≡ proof_of (pair_proofs level l r m) x)
      → IsProven level m l
      → IsProven level m r
      → IsProven
          (level + 1)
          m'
          (record { hash = hash_nodes sha3 l.hash r.hash; group = l.group ++ r.group })
  unfolding replay_step
  pair-IsProven level l r m m' d same vl vr = record {
    reaches = λ x c.
        let both : 1 ≤ count x l.group + count x r.group =
          omega (arith, count-append x l.group r.group) in
        elim (pair_writes level l r m x both (d x)) [
          | inl (one, e) ↦ extended_reaches m' _ x vl (omega arith) (same x both ∙ e)
          | inr (one, e) ↦ extended_reaches m' _ x vr (omega arith) (same x both ∙ e)
        ];
    levelled = λ x c.
        let both : 1 ≤ count x l.group + count x r.group =
          omega (arith, count-append x l.group r.group) in
        elim (pair_writes level l r m x both (d x)) [
          | inl (one, e) ↦ extended_levelled m' _ x vl (omega arith) (same x both ∙ e) refl
          | inr (one, e) ↦ extended_levelled m' _ x vr (omega arith) (same x both ∙ e) refl
        ];
  }

  self-IsProven :
      (level : ℕ) (l : Node) (m : Proofs)
      → ((x : Text) → count x l.group ≤ 1)
      → IsProven level m l
      → IsProven
          (level + 1)
          (self_proofs level l m)
          (record { hash = hash_nodes sha3 l.hash l.hash; group = l.group })
  unfolding replay_step
  self-IsProven level l m d v = record {
    reaches = λ x c.
        extended_reaches (self_proofs level l m) _ x v c
          (append_step_once x l.group _ m (omega (arith, d x)));
    levelled = λ x c.
        extended_levelled (self_proofs level l m) _ x v c
          (append_step_once x l.group _ m (omega (arith, d x))) refl;
  }

  -- how often a leaf stands in the first two groups and in the rest
  count_pair :
      (x : Text) (l r : Node) (rest : List Node)
      → count x (leaves_of (l ∷ r ∷ rest))
        ≡ count x l.group + count x r.group + count x (leaves_of rest)
  count_pair x l r rest = omega (
    arith,
    count-append x l.group (r.group ++ leaves_of rest),
    count-append x r.group (leaves_of rest),
  )

  next_level-IsProven :
      (level : ℕ) (ns : List Node) (m : Proofs)
      → ((x : Text) → count x (leaves_of ns) ≤ 1)
      → All (IsProven level m) ns
      → All (IsProven (level + 1) (next_level sha3 level ns m).1) (next_level sha3 level ns m).0
  unfolding next_level
  next_level-IsProven level [] m d h = tt
  next_level-IsProven level (l ∷ []) m d h =
      (self-IsProven level l m (λ x. omega (arith, d x, count-append x l.group [])) h.0, tt)
  next_level-IsProven level (l ∷ r ∷ rest) m d h = (
    pair-IsProven level l r m _ (λ x. omega (arith, d x, count_pair x l r rest))
        (λ x c.
          next_level_frame sha3 x level rest (pair_proofs level l r m)
            (omega (arith, d x, count_pair x l r rest)))
        h.0 h.1.0,
    next_level-IsProven level rest (pair_proofs level l r m)
        (λ x. omega (arith, d x, count_pair x l r rest))
        (IsProven-frame level m (pair_proofs level l r m) rest
          (λ x c.
            append_step_frame x r.group _ _ (omega (arith, d x, count_pair x l r rest))
            ∙ append_step_frame x l.group _ m (omega (arith, d x, count_pair x l r rest)))
          h.1.1),
  )

  -- What the finished tree gives for the leaves `xs`: some number of rounds, the root at the end
  -- of each leaf's proof, and one step for each round.
  pub record IsComplete (xs : List Text) (r : MerkleResult) : Type 0 where
    pub rounds : ℕ
    pub reaches_root :
        (x : Text) → 1 ≤ count x xs → reconstruct_merkle_root sha3 x (proof_of r.proofs x) ≡ r.root
    pub one_per_round : (x : Text) → 1 ≤ count x xs → levels_of (proof_of r.proofs x) ≡ upto rounds

  climb-IsComplete :
      (fuel level : ℕ) (ns : List Node) (m : Proofs)
      → length ns ≤ fuel
      → 1 ≤ length ns
      → ((x : Text) → count x (leaves_of ns) ≤ 1)
      → All (IsProven level m) ns
      → (r : MerkleResult) × (climb sha3 fuel level ns m ≡ some r) × IsComplete (leaves_of ns) r
  unfolding climb
  climb-IsComplete fuel level [] m f p d h = absurd (omega arith)
  climb-IsComplete fuel level (n ∷ []) m f p d h = (
    record { root = n.hash; proofs = m },
    refl,
    record {
      rounds = level;
      reaches_root = λ x c. h.0.reaches x (omega (arith, count-append x n.group [], count-nil x));
      one_per_round = λ x c. h.0.levelled x (omega (arith, count-append x n.group [], count-nil x));
    },
  )
  climb-IsComplete zero level (n ∷ k ∷ ns) m f p d h = absurd (omega arith)
  climb-IsComplete (suc fuel) level (n ∷ k ∷ ns) m f p d h =
      let kept = leaves_of-next_level sha3 level (n ∷ k ∷ ns) m in
      let found : (r : MerkleResult) × (climb sha3 fuel (level + 1)
              (next_level sha3 level (n ∷ k ∷ ns) m).0 (next_level sha3 level (n ∷ k ∷ ns) m).1
            ≡ some r)
          × IsComplete (leaves_of (next_level sha3 level (n ∷ k ∷ ns) m).0) r =
        climb-IsComplete fuel (level + 1) (next_level sha3 level (n ∷ k ∷ ns) m).0
          (next_level sha3 level (n ∷ k ∷ ns) m).1
          (omega (arith, length-next_level sha3 level (n ∷ k ∷ ns) m))
          (omega (arith, length-next_level sha3 level (n ∷ k ∷ ns) m)) (λ x. rw kept (d x))
          (next_level-IsProven level (n ∷ k ∷ ns) m d h) in
      (found.0, found.1, subst (λ xs. IsComplete xs found.0) kept found.2)

leaves_of-leaf_node : (xs : List Text) → leaves_of (map leaf_node xs) ≡ xs
leaves_of-leaf_node [] = refl
leaves_of-leaf_node (x ∷ xs) = ap (λ ys. x ∷ ys) (leaves_of-leaf_node xs)

proof_of-initial_proofs : (xs : List Text) (x : Text) → proof_of (initial_proofs xs) x ≡ []
unfolding proof_of initial_proofs
proof_of-initial_proofs [] x = refl
proof_of-initial_proofs (y ∷ xs) x = ground (arith, proof_of-initial_proofs xs x)

eq_of_count : (x h : Text) → 1 ≤ count x (h ∷ []) → x ≡ h
unfolding count
eq_of_count x h c = ground (arith, text_eq_iff h x)

module _ (sha3 : List ℕ → List ℕ) where
  initial-IsProven :
      (m : Proofs) (xs : List Text)
      → ((x : Text) → proof_of m x ≡ [])
      → All (IsProven sha3 0 m) (map leaf_node xs)
  unfolding reconstruct_merkle_root
  initial-IsProven m [] e = tt
  initial-IsProven m (h ∷ xs) e = (
    record { reaches = λ x c. rw (e x) (eq_of_count x h c); levelled = λ x c. rw (e x) refl },
    initial-IsProven m xs e,
  )

  pub build_merkle_tree-IsComplete :
      (h : Text) (hs : List Text)
      → Distinct (h ∷ hs)
      → (r : MerkleResult) × (build_merkle_tree sha3 (h ∷ hs) ≡ some r) × IsComplete sha3 (h ∷ hs) r
  unfolding build_merkle_tree
  build_merkle_tree-IsComplete h hs d =
      let leaves : List Text = h ∷ hs in
      let found =
        climb-IsComplete sha3 (length leaves) 0 (map leaf_node leaves) (initial_proofs leaves)
          (omega (arith, length-map leaves leaf_node)) (omega (arith, length-map leaves leaf_node))
          (λ x. rw (leaves_of-leaf_node leaves) (d.once x))
          (initial-IsProven (initial_proofs leaves) leaves (proof_of-initial_proofs leaves)) in
      (
        found.0,
        found.1,
        subst (λ xs. IsComplete sha3 xs found.0) (leaves_of-leaf_node leaves) found.2,
      )

  -- In a batch of one or more distinct leaf hashes, the tree is built, and every leaf that is in
  -- the batch has a proof that verifies against the root, whose steps carry the levels
  -- 0, 1, … in order.
  pub every_leaf_verifies :
      (h : Text) (hs : List Text) (x : Text)
      → Distinct (h ∷ hs)
      → 1 ≤ count x (h ∷ hs)
      → (r : MerkleResult) × (rounds : ℕ) × (build_merkle_tree sha3 (h ∷ hs) ≡ some r)
        × (verify_merkle_proof sha3 x (proof_of r.proofs x) r.root ≡ true)
        × (levels_of (proof_of r.proofs x) ≡ upto rounds)
  unfolding verify_merkle_proof
  every_leaf_verifies h hs x d c =
      let (r, built, complete) = build_merkle_tree-IsComplete h hs d in
      (
        r,
        complete.rounds,
        built,
        rw (complete.reaches_root x c) (text_eq_refl r.root),
        complete.one_per_round x c,
      )
