-- ===== src/Kafka/Actor.antt =====
-- Who made a change: the choice of the actor in processMessage.
use auditchain_gateway_backe.Prelude.{
  Bool, true, false, not, ◌&&◌, ◌||◌, Option, none, some, List, [], ◌∷◌, if◌then◌else◌,
}
use auditchain_gateway_backe.Prelude.Text.{Text, codes, text_eq, is_empty}
use auditchain_gateway_backe.Prelude.Int.{ltb_ℤ}
use auditchain_gateway_backe.Prelude.Table.{select, order_by, first_where}
use auditchain_gateway_backe.Json.{Value, Fields, object, get_field}
use auditchain_gateway_backe.Model.{AuditLog}
use auditchain_gateway_backe.Kafka.Libraries.{Libraries}
use auditchain_gateway_backe.Kafka.Payload.{
  find_field_insensitive, extract_scalar_value, present, text_field,
}
use auditchain_gateway_backe.Kafka.Tables.{Action, insert, update, delete, unknown, Tables}
use auditchain_gateway_backe.Kafka.Users.{Settings, looks_like_generated_id, resolve_actor_name}

abbrev pub first_some : Option Text → Option Text → Option Text
first_some (some a) o = some a
first_some none o = o

-- operationField
abbrev pub operation_field : Settings → Action → Text
operation_field cfg insert = cfg.create_actor_field
operation_field cfg delete = cfg.delete_actor_field
operation_field cfg update = cfg.update_actor_field
operation_field cfg unknown = cfg.update_actor_field

-- commonFields
abbrev pub common_fields : Action → List Text
common_fields delete =
    codes "deleted_by"
    ∷ codes "deletedby"
    ∷ codes "updated_by"
    ∷ codes "modified_by"
    ∷ codes "actor"
    ∷ codes "user_id"
    ∷ codes "username"
    ∷ codes "author"
    ∷ codes "userid"
    ∷ codes "updatedby"
    ∷ codes "created_by"
    ∷ codes "createdby"
    ∷ []
common_fields _ =
    codes "updated_by"
    ∷ codes "deleted_by"
    ∷ codes "modified_by"
    ∷ codes "created_by"
    ∷ codes "actor"
    ∷ codes "user_id"
    ∷ codes "username"
    ∷ codes "author"
    ∷ codes "userid"
    ∷ codes "updatedby"
    ∷ codes "createdby"
    ∷ codes "deletedby"
    ∷ []

-- deleteActorFields
abbrev before_fields : List Text
before_fields =
    codes "deleted_by"
    ∷ codes "deletedby"
    ∷ codes "updated_by"
    ∷ codes "modified_by"
    ∷ codes "created_by"
    ∷ codes "actor"
    ∷ codes "user_id"
    ∷ codes "username"
    ∷ codes "author"
    ∷ []

abbrev pub unknown_actor : Text
unknown_actor = codes "Unknown"

abbrev pub is_unknown : Text → Bool
is_unknown a = is_empty a || text_eq a unknown_actor

abbrev pub is_delete : Action → Bool
is_delete delete = true
is_delete _ = false

-- the last audit log of the resource whose actor is known
abbrev names_actor : Text → Text → AuditLog → Bool
names_actor client resource l =
    text_eq l.client_id client && text_eq l.resource resource && not (is_unknown l.actor)

abbrev newest_first : AuditLog → AuditLog → Bool
newest_first a b = not (ltb_ℤ a.timestamp b.timestamp)

unfoldable pub last_known_actor : Text → Text → List AuditLog → Option Text
unfolding select order_by first_where
last_known_actor client resource logs =
    elim (first_where (names_actor client resource)
      (order_by newest_first (select (names_actor client resource) logs))) [
        | some l ↦ some l.actor
        | none ↦ none
      ]

module _ (lib : Libraries) where
  open lib use {Float, wide_lower}

  non_blank : Text → Option Text
  non_blank s = if is_empty s then none else some s

  -- a field that the client's mapping names
  unfoldable pub mapped_actor : Fields Float → Text → Option Text
  unfolding present find_field_insensitive extract_scalar_value non_blank
  mapped_actor payload name = elim (present lib (find_field_insensitive lib payload name)) [
    | some v ↦ non_blank (extract_scalar_value lib name v)
    | none ↦ none
  ]

  -- the first usual column that is there and not nil, blank or not
  unfoldable pub auto_actor : Fields Float → List Text → Option Text
  unfolding present find_field_insensitive extract_scalar_value
  auto_actor payload [] = none
  auto_actor payload (c ∷ cs) =
      let rest = auto_actor payload cs in
      elim (present lib (find_field_insensitive lib payload c)) [
        | some v ↦ some (extract_scalar_value lib c v)
        | none ↦ rest
      ]

  -- the loop over the row before a deletion
  before_actor : Fields Float → List Text → Option Text
  unfolding present get_field extract_scalar_value non_blank
  before_actor m [] = none
  before_actor m (c ∷ cs) =
      let rest = before_actor m cs in
      elim (present lib (get_field c m)) [
        | some v ↦ first_some (non_blank (extract_scalar_value lib c v)) rest
        | none ↦ rest
      ]

  actor_before : Option (Value Float) → Option Text
  unfolding before_actor
  actor_before (some (object m)) = before_actor m before_fields
  actor_before _ = none

  -- the actor that the change itself names
  unfoldable pub named_actor : Settings → Action → Fields Float → Option Text
  unfolding mapped_actor auto_actor
  named_actor cfg action payload = first_some (mapped_actor payload (operation_field cfg action)) (
      first_some (mapped_actor payload cfg.actor_field) (
        first_some (mapped_actor payload cfg.fallback_actor_field)
          (auto_actor payload (common_fields action))))

  -- the two strategies for a deletion
  deleted_actor : Settings → Action → Fields Float → Text → Text → List AuditLog → Option Text
  unfolding actor_before get_field last_known_actor
  deleted_actor cfg action payload resource user logs =
      if is_unknown user && is_delete action
      then first_some (actor_before (get_field (codes "before") payload))
          (last_known_actor cfg.client_id resource logs)
      else none

  -- the actor as the change gives it
  unfoldable pub raw_actor : Settings → Action → Fields Float → Text → List AuditLog → Text
  unfolding named_actor deleted_actor text_field
  raw_actor cfg action payload resource logs =
      let user : Text = text_field lib (codes "__user_name") payload in
      elim (first_some (named_actor cfg action payload)
        (deleted_actor cfg action payload resource user logs)) [
          | some actor ↦ actor
          | none ↦ if is_empty user then unknown_actor else user
        ]

  -- A generated id gives way to the name of its user; the cache is that after the look-up.
  unfoldable pub resolved_actor : Settings → Text → Tables → Text × List (Text × Text)
  unfolding resolve_actor_name looks_like_generated_id
  resolved_actor cfg actor t =
      let (name, cache) = resolve_actor_name cfg.client_id actor t in
      if not (is_unknown actor) && looks_like_generated_id wide_lower actor
      then (if is_empty name then actor else name, cache)
      else (actor, t.actor_cache)
