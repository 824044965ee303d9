-- ===== src/Kafka/Latest.antt =====
-- At most one audit log of each resource is marked as the latest.
use auditchain_gateway_backe.Prelude.{
  ◌≤◌, ◌≡◌, refl, sym, subst, Bool, true, ◌&&◌, List, [], ◌∷◌, arith, Bool-cases, inl, inr,
}
use auditchain_gateway_backe.Prelude.Text.{Text, text_eq_iff}
use auditchain_gateway_backe.Prelude.Table.{update_where, count_where}
use auditchain_gateway_backe.Prelude.Mapped.{count_where-append}
use auditchain_gateway_backe.Model.{AuditLog}
use auditchain_gateway_backe.Kafka.Libraries.{Libraries}
use auditchain_gateway_backe.Kafka.Tables.{Tables}
use auditchain_gateway_backe.Kafka.Store.{Message, Call, Outcome, is_of_resource, outdate}
use auditchain_gateway_backe.Kafka.Users.{Settings}
use auditchain_gateway_backe.Kafka.Consumer.{process_message}
use auditchain_gateway_backe.Kafka.Effect.{Effect, kept, added, with_latest, process_message_effect}

abbrev pub is_latest_of : Text → Text → AuditLog → Bool
is_latest_of client resource l = l.is_latest && is_of_resource client resource l

pub record HasOneLatest (rows : List AuditLog) : Type 0 where
  pub one_latest : (client resource : Text) → count_where (is_latest_of client resource) rows ≤ 1

-- outdating the rows of a resource leaves none of them the latest, and makes no other one so
outdate_count :
    (c r client resource : Text) (rows : List AuditLog)
    → count_where (is_latest_of client resource) (update_where (is_of_resource c r) outdate rows)
      ≤ count_where (is_latest_of client resource) rows
unfolding count_where update_where
outdate_count c r client resource [] = omega arith
outdate_count c r client resource (l ∷ rows) =
    ground (arith, outdate_count c r client resource rows)

outdate_count_self :
    (c r : Text) (rows : List AuditLog)
    → count_where (is_latest_of c r) (update_where (is_of_resource c r) outdate rows) ≡ 0
unfolding count_where update_where
outdate_count_self c r [] = refl
outdate_count_self c r (l ∷ rows) = ground (arith, outdate_count_self c r rows)

resource_of_log :
    (client resource : Text) (log : AuditLog)
    → is_of_resource client resource log ≡ true
    → (client ≡ log.client_id) × (resource ≡ log.resource)
resource_of_log client resource log h =
    ground (arith, text_eq_iff log.client_id client, text_eq_iff log.resource resource)

with_latest-HasOneLatest :
    (log : AuditLog) (rows : List AuditLog)
    → HasOneLatest rows
    → HasOneLatest (with_latest log rows)
unfolding count_where
with_latest-HasOneLatest log rows h = record {
  one_latest = λ client resource.
      let outdated = update_where (is_of_resource log.client_id log.resource) outdate rows in
      let old = outdate_count log.client_id log.resource client resource rows in
      let split =
        count_where-append (is_latest_of client resource)
          (update_where (is_of_resource log.client_id log.resource) outdate rows) (log ∷ []) in
      elim (Bool-cases (is_of_resource client resource log)) [
        | inl e ↦
            let same = resource_of_log client resource log e in
            let none_left =
              subst (λ c. count_where (is_latest_of c resource) outdated ≡ 0) (sym same.0)
                (subst (λ r. count_where (is_latest_of log.client_id r) outdated ≡ 0) (sym same.1)
                  (outdate_count_self log.client_id log.resource rows)) in
            ground arith
        | inr e ↦ ground (arith, h.one_latest client resource)
      ];
}

keep_one_latest :
    {lib : Libraries} {before after : List AuditLog} {out : Outcome}
    → Effect lib before after out
    → HasOneLatest before
    → HasOneLatest after
keep_one_latest (kept e other) h = subst HasOneLatest (sym e) h
keep_one_latest {before} (added log fresh e done) h =
    subst HasOneLatest (sym e) (with_latest-HasOneLatest log before h)

-- Whatever the message is, and whatever becomes of it: if no resource had two latest audit logs
-- before processMessage, none has two after it.
pub one_latest_log :
    (lib : Libraries) (cfg : Settings) (call : Call) (msg : Message) (t : Tables)
    → HasOneLatest t.logs
    → HasOneLatest (process_message lib cfg call msg t).0.logs
one_latest_log lib cfg call msg t h = keep_one_latest (process_message_effect lib cfg call msg t) h
