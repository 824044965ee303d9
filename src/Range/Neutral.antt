-- ===== src/Range/Neutral.antt =====
-- The results of earlier verifications do not change what a forced verification says: it reads no
-- column that persistIntegrityStatus writes.
use auditchain_gateway_backe.Prelude.{
  ℕ, ◌≡◌, refl, sym, ap, ◌∙◌, ◌||◌, Bool-cases, inl, inr, Option, none, some, List, [], ◌∷◌, map,
}
use auditchain_gateway_backe.Prelude.Text.{Text, text_eq, codes, trim_space}
use auditchain_gateway_backe.Prelude.Int.{ℤ}
use auditchain_gateway_backe.Prelude.Table.{select, first_where, order_by}
use auditchain_gateway_backe.Prelude.Mapped.{map_option, select-map, order_by-map, first_where-map}
use auditchain_gateway_backe.Model.{AuditLog, MerkleProofRow, not_checked, unknown_source}
use auditchain_gateway_backe.LogHash.{generate_log_hash, log_fields}
use auditchain_gateway_backe.Audit.{
  Fabric, Lookup, AnchorReply, is_hash_still_pending, canonicalize_log, no_reply, bad_reply,
  root_reply,
}
use auditchain_gateway_backe.Audit.Verify.{
  verify_log_integrity, verify_canonical, verify_anchor, verify_fabric, verify_reply, verify_lookup,
  verify_proofs,
}
use auditchain_gateway_backe.Range.{
  RangeStatus, is_row_of, range_rows, in_range, row_before, result_of_row, range_status_of,
}

-- the row before any verification
abbrev pub forget : AuditLog → AuditLog
forget l = record l {
  integrity_status = not_checked;
  integrity_checked_at = none;
  integrity_source = unknown_source;
  integrity_run_id = [];
}

-- the tables differ in the results of verifications only
abbrev pub SameRows : List AuditLog → List AuditLog → Type 0
SameRows rows rows' = map forget rows ≡ map forget rows'

abbrev pub ids_of : List AuditLog → List Text
ids_of = map (λ (l : AuditLog). l.log_id)

ids_of-forget : (rows : List AuditLog) → ids_of (map forget rows) ≡ ids_of rows
ids_of-forget [] = refl
ids_of-forget (l ∷ ls) = ap (λ ids. l.log_id ∷ ids) (ids_of-forget ls)

range_rows-forget :
    (from to : ℤ) (client : Text) (rows : List AuditLog)
    → range_rows from to client (map forget rows) ≡ map forget (range_rows from to client rows)
unfolding range_rows in_range row_before
range_rows-forget from to client rows =
    ap (order_by row_before) (select-map forget (in_range from to client) rows (λ a. refl))
    ∙ order_by-map forget row_before (select (in_range from to client) rows) (λ a b. refl)

-- The rows of a range, and their order, are those before the verifications.
pub range_ids_same :
    (from to : ℤ) (client : Text) (rows rows' : List AuditLog)
    → SameRows rows rows'
    → ids_of (range_rows from to client rows) ≡ ids_of (range_rows from to client rows')
range_ids_same from to client rows rows' same =
    sym (ids_of-forget (range_rows from to client rows))
    ∙ ap ids_of (
        sym (range_rows-forget from to client rows)
        ∙ ap (range_rows from to client) same
        ∙ range_rows-forget from to client rows')
    ∙ ids_of-forget (range_rows from to client rows')

canonicalize_log-forget : (l : AuditLog) → canonicalize_log (forget l) ≡ forget (canonicalize_log l)
unfolding canonicalize_log
canonicalize_log-forget l =
    elim (Bool-cases (
      text_eq l.authorization_context (codes "null")
      || text_eq l.authorization_context (codes "<nil>"))) [ inl e ↦ rw e refl | inr e ↦ rw e refl ]

module _ (sha3 : List ℕ → List ℕ) (lookup : Lookup) (hash : Text) (l : AuditLog) where
  verify_lookup-forget :
      (root : Text) (found : Option (List MerkleProofRow))
      → verify_lookup sha3 hash (forget l) root found ≡ verify_lookup sha3 hash l root found
  unfolding verify_lookup verify_proofs
  verify_lookup-forget root none = refl
  verify_lookup-forget root (some rows) = refl

  verify_reply-forget :
      (r : AnchorReply)
      → verify_reply sha3 lookup hash (forget l) r ≡ verify_reply sha3 lookup hash l r
  unfolding verify_reply
  verify_reply-forget no_reply = refl
  verify_reply-forget bad_reply = refl
  verify_reply-forget (root_reply raw) =
      rw (verify_lookup-forget (trim_space raw) (lookup l.hash_value)) refl

  verify_fabric-forget :
      (fabric : Fabric) (id : Text)
      → verify_fabric sha3 lookup fabric hash (forget l) id
        ≡ verify_fabric sha3 lookup fabric hash l id
  unfolding verify_fabric
  verify_fabric-forget none id = refl
  verify_fabric-forget (some anchors) id = verify_reply-forget (anchors id)

  verify_anchor-forget :
      (fabric : Fabric) (tx : Option Text)
      → verify_anchor sha3 lookup fabric hash (forget l) tx
        ≡ verify_anchor sha3 lookup fabric hash l tx
  unfolding verify_anchor
  verify_anchor-forget fabric none = refl
  verify_anchor-forget fabric (some id) = rw (verify_fabric-forget fabric id) refl

module _ (remarshal : Text → Option Text) (sha3 : List ℕ → List ℕ) (lookup : Lookup)
    (fabric : Fabric) where
  verify_canonical-forget :
      (l : AuditLog)
      → verify_canonical remarshal sha3 lookup fabric (forget l)
        ≡ verify_canonical remarshal sha3 lookup fabric l
  unfolding verify_canonical generate_log_hash log_fields
  verify_canonical-forget l =
      rw
        (verify_anchor-forget sha3 lookup (generate_log_hash remarshal sha3 l) l fabric
          l.blockchain_tx_id)
        refl

  verify_log_integrity-forget :
      (l : AuditLog)
      → verify_log_integrity remarshal sha3 lookup fabric (forget l)
        ≡ verify_log_integrity remarshal sha3 lookup fabric l
  unfolding verify_log_integrity is_hash_still_pending
  verify_log_integrity-forget l =
      rw (canonicalize_log-forget l, verify_canonical-forget (canonicalize_log l)) refl

  result_of_row-forget :
      (row : Option AuditLog)
      → result_of_row remarshal sha3 lookup fabric (map_option forget row)
        ≡ result_of_row remarshal sha3 lookup fabric row
  result_of_row-forget none = refl
  result_of_row-forget (some l) = rw (verify_log_integrity-forget l) refl

  -- the status that a forced verification gives the row of an id
  abbrev pub status_in : List AuditLog → Text → Text → RangeStatus
  status_in rows client id =
      range_status_of remarshal sha3 lookup fabric
        (result_of_row remarshal sha3 lookup fabric (first_where (is_row_of id client) rows))

  pub status_in_same :
      (rows rows' : List AuditLog) (client id : Text)
      → SameRows rows rows'
      → status_in rows client id ≡ status_in rows' client id
  status_in_same rows rows' client id same = ap (range_status_of remarshal sha3 lookup fabric) (
      sym (result_of_row-forget (first_where (is_row_of id client) rows))
      ∙ ap (result_of_row remarshal sha3 lookup fabric) (
          sym (first_where-map forget (is_row_of id client) rows (λ a. refl))
          ∙ ap (first_where (is_row_of id client)) same
          ∙ first_where-map forget (is_row_of id client) rows' (λ a. refl))
      ∙ result_of_row-forget (first_where (is_row_of id client) rows'))
