-- ===== src/Kafka/Events.antt =====
-- A change that has its audit log keeps it, whatever messages follow.
use auditchain_gateway_backe.Prelude.{◌≤◌, ◌≡◌, refl, sym, subst, List, [], ◌∷◌, arith}
use auditchain_gateway_backe.Prelude.Text.{Text}
use auditchain_gateway_backe.Prelude.Int.{ℤ}
use auditchain_gateway_backe.Prelude.Table.{update_where, count_where}
use auditchain_gateway_backe.Prelude.Mapped.{count_where-append}
use auditchain_gateway_backe.Model.{AuditLog}
use auditchain_gateway_backe.Kafka.Libraries.{Libraries}
use auditchain_gateway_backe.Kafka.Tables.{Tables}
use auditchain_gateway_backe.Kafka.Store.{
  Message, Call, Outcome, is_same_event, is_of_resource, outdate,
}
use auditchain_gateway_backe.Kafka.Users.{Settings}
use auditchain_gateway_backe.Kafka.Consumer
use auditchain_gateway_backe.Kafka.Effect.{Effect, kept, added, with_latest, process_message_effect}

-- some row of the table is of this client, resource and time
abbrev pub Holds : Text → Text → ℤ → List AuditLog → Type 0
Holds client resource time rows = 1 ≤ count_where (is_same_event client resource time) rows

outdate_same_event :
    (c r client resource : Text) (time : ℤ) (rows : List AuditLog)
    → count_where
        (is_same_event client resource time)
        (update_where (is_of_resource c r) outdate rows)
      ≡ count_where (is_same_event client resource time) rows
unfolding count_where update_where
outdate_same_event c r client resource time [] = refl
outdate_same_event c r client resource time (l ∷ rows) =
    ground (arith, outdate_same_event c r client resource time rows)

with_latest-Holds :
    (client resource : Text) (time : ℤ) (log : AuditLog) (rows : List AuditLog)
    → Holds client resource time rows
    → Holds client resource time (with_latest log rows)
with_latest-Holds client resource time log rows h = omega (
  arith,
  count_where-append (is_same_event client resource time)
      (update_where (is_of_resource log.client_id log.resource) outdate rows) (log ∷ []),
  outdate_same_event log.client_id log.resource client resource time rows,
)

Effect-Holds :
    {lib : Libraries} {before after : List AuditLog} {out : Outcome} (client resource : Text)
    (time : ℤ)
    → Effect lib before after out
    → Holds client resource time before
    → Holds client resource time after
Effect-Holds client resource time (kept e other) h = subst (Holds client resource time) (sym e) h
Effect-Holds {before} client resource time (added log f e d) h =
    subst (Holds client resource time) (sym e) (with_latest-Holds client resource time log before h)

-- A message with the settings and the surroundings under which it is processed.
pub record Delivery : Type 0 where
  pub settings : Settings
  pub call : Call
  pub message : Message

module _ (lib : Libraries) where
  -- messages in the order in which they are processed
  pub process_all : List Delivery → Tables → Tables
  process_all [] t = t
  process_all (d ∷ ds) t =
      process_all ds (Consumer.process_message lib d.settings d.call d.message t).0

  pub process_all-Holds :
      (client resource : Text) (time : ℤ) (ds : List Delivery) (t : Tables)
      → Holds client resource time t.logs
      → Holds client resource time (process_all ds t).logs
  unfolding process_all
  process_all-Holds client resource time [] t h = h
  process_all-Holds client resource time (d ∷ ds) t h =
      process_all-Holds client resource time ds _ (
        Effect-Holds client resource time (process_message_effect lib d.settings d.call d.message t)
          h)
