-- ===== src/Merkle/Collision.antt =====
-- Two leaves that reach the same root along proofs of the same shape give a collision of `sha3`.
use auditchain_gateway_backe.Prelude.{
  ℕ, ◌≡◌, ◌≢◌, refl, sym, ap, ◌∙◌, inl, inr, Bool, List, [], ◌∷◌, ◌++◌, map, length, arith, ◌≤◌,
  if◌then◌else◌, Bool-cases,
}
use auditchain_gateway_backe.Prelude.Text.{Text, text_eq, text_eq_iff, text_eq_refl}
use auditchain_gateway_backe.Prelude.Counts.{All, count}
use auditchain_gateway_backe.Hex.{hex_encode, hex_decode}
use auditchain_gateway_backe.Hex.RoundTrip.{IsByte, hex_decode-hex_encode}
use auditchain_gateway_backe.Merkle.{ProofStep, hash_nodes, replay_step, reconstruct_merkle_root}

-- A digest is 32 bytes.
pub record IsDigest (bs : List ℕ) : Type 0 where
  pub size : length bs ≡ 32
  pub bytes : All IsByte bs

-- The text that EncodeToString gives for a digest.
pub record IsHash (s : Text) : Type 0 where
  pub digest : List ℕ
  pub is_digest : IsDigest digest
  pub encoded : s ≡ hex_encode digest

-- Two different byte strings with one digest, the first from `xs` and the second from `ys`.
pub record Collision (sha3 : List ℕ → List ℕ) (xs ys : List Text) : Type 0 where
  pub first : Text
  pub second : Text
  pub in_first : 1 ≤ count first xs
  pub in_second : 1 ≤ count second ys
  pub differ : first ≢ second
  pub agree : sha3 first ≡ sha3 second

-- The bytes that a step of a proof hashes, and those of all steps.
abbrev pub replay_input : Text → ProofStep → Text
replay_input x p =
    if p.is_left
    then hex_decode p.sibling_hash ++ hex_decode x
    else hex_decode x ++ hex_decode p.sibling_hash

unfoldable pub replay_inputs : (List ℕ → List ℕ) → Text → List ProofStep → List Text
replay_inputs sha3 x [] = []
replay_inputs sha3 x (p ∷ ps) = replay_input x p ∷ replay_inputs sha3 (replay_step sha3 x p) ps

count_head : (x : Text) (xs : List Text) → 1 ≤ count x (x ∷ xs)
unfolding count
count_head x xs = rw (text_eq_refl x) (omega arith)

count_tail : (a x : Text) (xs : List Text) → 1 ≤ count a xs → 1 ≤ count a (x ∷ xs)
unfolding count
count_tail a x xs h = ground arith

Collision-later :
    (sha3 : List ℕ → List ℕ) (x y : Text) (xs ys : List Text)
    → Collision sha3 xs ys
    → Collision sha3 (x ∷ xs) (y ∷ ys)
Collision-later sha3 x y xs ys c = record {
  first = c.first;
  second = c.second;
  in_first = count_tail c.first x xs c.in_first;
  in_second = count_tail c.second y ys c.in_second;
  differ = c.differ;
  agree = c.agree;
}

pub Collision-here :
    (sha3 : List ℕ → List ℕ) (x y : Text) (xs ys : List Text)
    → x ≢ y
    → sha3 x ≡ sha3 y
    → Collision sha3 (x ∷ xs) (y ∷ ys)
Collision-here sha3 x y xs ys ne e = record {
  first = x;
  second = y;
  in_first = count_head x xs;
  in_second = count_head y ys;
  differ = ne;
  agree = e;
}

abbrev pub sides : List ProofStep → List Bool
sides = map (λ (p : ProofStep). p.is_left)

abbrev pub HasHashes : List ProofStep → Type 0
HasHashes = All (λ (p : ProofStep). IsHash p.sibling_hash)

append_inj {ℓ} :
    {A : Type ℓ} (a c b d : List A) → length a ≡ length c → a ++ b ≡ c ++ d → (a ≡ c) × (b ≡ d)
append_inj [] [] b d l e = (refl, e)
append_inj [] (y ∷ c) b d l e = absurd (omega arith)
append_inj (x ∷ a) [] b d l e = absurd (omega arith)
append_inj (x ∷ a) (y ∷ c) b d l e = let (p, q) = append_inj a c b d (omega arith) (cc) in (cc, q)

hash_decode : {s : Text} (h : IsHash s) → hex_decode s ≡ h.digest
hash_decode h = rw h.encoded (hex_decode-hex_encode h.digest h.is_digest.bytes)

-- Hashes are told apart by the bytes that they decode to.
IsHash-injective : {s t : Text} → IsHash s → IsHash t → hex_decode s ≡ hex_decode t → s ≡ t
IsHash-injective h k e =
    h.encoded ∙ ap hex_encode (sym (hash_decode h) ∙ e ∙ hash_decode k) ∙ sym k.encoded

length-hex_decode : {s : Text} → IsHash s → length (hex_decode s) ≡ 32
length-hex_decode h = rw (hash_decode h) h.is_digest.size

module _ (sha3 : List ℕ → List ℕ) (digests : (bs : List ℕ) → IsDigest (sha3 bs)) where
  hash_nodes-IsHash : (l r : Text) → IsHash (hash_nodes sha3 l r)
  unfolding hash_nodes
  hash_nodes-IsHash l r = record {
    digest = sha3 (hex_decode l ++ hex_decode r);
    is_digest = digests (hex_decode l ++ hex_decode r);
    encoded = refl;
  }

  -- Equal parents have equal children, or their preimages collide.
  hash_nodes-collision :
      {l r l' r' : Text}
      → IsHash l
      → IsHash r
      → IsHash l'
      → IsHash r'
      → hash_nodes sha3 l r ≡ hash_nodes sha3 l' r'
      → ¬ ((l ≡ l') × (r ≡ r'))
      → (hex_decode l ++ hex_decode r ≢ hex_decode l' ++ hex_decode r')
        × (sha3 (hex_decode l ++ hex_decode r) ≡ sha3 (hex_decode l' ++ hex_decode r'))
  unfolding hash_nodes
  hash_nodes-collision {l} {r} {l'} {r'} hl hr hl' hr' e differ = (
    λ same.
        let (p, q) =
          append_inj (hex_decode l) (hex_decode l') (hex_decode r) (hex_decode r')
            (length-hex_decode hl ∙ sym (length-hex_decode hl')) same in
        differ (IsHash-injective hl hl' p, IsHash-injective hr hr' q),
    sym (hex_decode-hex_encode _ (digests _).bytes)
        ∙ ap hex_decode e
        ∙ hex_decode-hex_encode _ (digests _).bytes,
  )

  replay_step-IsHash : (x : Text) (p : ProofStep) → IsHash (replay_step sha3 x p)
  unfolding replay_step
  replay_step-IsHash x p = elim (Bool-cases p.is_left) [
    | inl e ↦ rw e (hash_nodes-IsHash p.sibling_hash x)
    | inr e ↦ rw e (hash_nodes-IsHash x p.sibling_hash)
  ]

  replay_step-collision :
      (x y : Text) (p q : ProofStep)
      → IsHash x
      → IsHash y
      → IsHash p.sibling_hash
      → IsHash q.sibling_hash
      → p.is_left ≡ q.is_left
      → x ≢ y
      → replay_step sha3 x p ≡ replay_step sha3 y q
      → (replay_input x p ≢ replay_input y q) × (sha3 (replay_input x p) ≡ sha3 (replay_input y q))
  unfolding replay_step
  replay_step-collision x y p q hx hy hp hq side ne e = elim (Bool-cases q.is_left) [
    | inl left ↦
        rw (side ∙ left, left)
          (hash_nodes-collision hp hx hq hy (rw (side ∙ left, left) at e) (λ same. ne same.1))
    | inr right ↦
        rw (side ∙ right, right)
          (hash_nodes-collision hx hp hy hq (rw (side ∙ right, right) at e) (λ same. ne same.0))
  ]

  -- If two different leaf hashes reach the same root, along proofs with siblings on the same
  -- sides, then the bytes hashed in some step of one proof and in some step of the other differ
  -- and have the same digest. (Leaves and siblings are hex texts of digests, and digests are 32
  -- bytes.)
  pub forged_leaf_collides :
      (ps qs : List ProofStep) (x y : Text)
      → IsHash x
      → IsHash y
      → HasHashes ps
      → HasHashes qs
      → sides ps ≡ sides qs
      → x ≢ y
      → reconstruct_merkle_root sha3 x ps ≡ reconstruct_merkle_root sha3 y qs
      → Collision sha3 (replay_inputs sha3 x ps) (replay_inputs sha3 y qs)
  unfolding reconstruct_merkle_root replay_inputs
  forged_leaf_collides [] [] x y hx hy hps hqs s ne e = absurd (ne e)
  forged_leaf_collides [] (q ∷ qs) x y hx hy hps hqs s ne e = absurd (cc)
  forged_leaf_collides (p ∷ ps) [] x y hx hy hps hqs s ne e = absurd (cc)
  forged_leaf_collides (p ∷ ps) (q ∷ qs) x y hx hy hps hqs s ne e =
      elim (Bool-cases (text_eq (replay_step sha3 x p) (replay_step sha3 y q))) [
        | inl same ↦
            let (differ, agree) =
              replay_step-collision x y p q hx hy hps.0 hqs.0 (cc) ne ((text_eq_iff _ _).0 same) in
            Collision-here sha3 _ _ _ _ differ agree
        | inr other ↦ Collision-later sha3 _ _ _ _ (
            forged_leaf_collides ps qs (replay_step sha3 x p) (replay_step sha3 y q)
              (replay_step-IsHash x p) (replay_step-IsHash y q) hps.1 hqs.1 (cc)
              (λ same. cc ((text_eq_iff _ _).1 same)) e)
      ]
