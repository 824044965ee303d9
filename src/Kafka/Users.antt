-- ===== src/Kafka/Users.antt =====
-- The users of a client, read off the changes of its user table (processClientUserCDC), and the
-- names of actors (resolveActorName, looksLikeGeneratedID).
use auditchain_gateway_backe.Prelude.{
  ℕ, zero, suc, Bool, true, false, not, ◌&&◌, ◌||◌, Option, none, some, List, [], ◌∷◌, ◌++◌, length,
  ltb, leb, ◌==◌, if◌then◌else◌,
}
use auditchain_gateway_backe.Prelude.Text.{
  Text, codes, text_eq, is_empty, trim_space, contains, to_lower,
}
use auditchain_gateway_backe.Prelude.Int.{ℤ}
use auditchain_gateway_backe.Prelude.Table.{select, update_where, first_where}
use auditchain_gateway_backe.Json.{Fields, object}
use auditchain_gateway_backe.Kafka.Libraries.{Libraries}
use auditchain_gateway_backe.Kafka.Payload.{find_field_insensitive, extract_scalar_value, present}
use auditchain_gateway_backe.Kafka.Tables.{ClientUser, Tables}

-- What the consumer reads of the client's configuration: ClientKafkaConfig, AgentConfig and the
-- row of the table clients (blank where the query finds nothing).
pub record Settings : Type 0 where
  pub client_id : Text
  pub source_system : Text
  pub pk_field : Text
  pub company_name : Text
  pub actor_field : Text
  pub fallback_actor_field : Text
  pub create_actor_field : Text
  pub update_actor_field : Text
  pub delete_actor_field : Text
  pub user_table_name : Text
  pub user_column_name : Text

abbrev is_digit : ℕ → Bool
is_digit c = leb 48 c && leb c 57

abbrev is_hex_digit : ℕ → Bool
is_hex_digit c = is_digit c || (leb 97 c && leb c 102)

abbrev is_id_letter : ℕ → Bool
is_id_letter c = is_digit c || (leb 97 c && leb c 122)

all_bytes : (ℕ → Bool) → Text → Bool
all_bytes p [] = true
all_bytes p (c ∷ s) = p c && all_bytes p s

-- cuidPattern
is_cuid : Text → Bool
unfolding all_bytes
is_cuid [] = false
is_cuid (c ∷ s) = c == 99 && leb 20 (length s) && leb (length s) 30 && all_bytes is_id_letter s

-- `n` digits and then what `rest` wants; 45 is the hyphen
group : ℕ → (Text → Bool) → Text → Bool
group zero rest s = rest s
group (suc n) rest [] = false
group (suc n) rest (c ∷ s) = is_hex_digit c && group n rest s

hyphen : (Text → Bool) → Text → Bool
hyphen rest [] = false
hyphen rest (c ∷ s) = c == 45 && rest s

-- uuidPattern
is_uuid : Text → Bool
unfolding group hyphen
is_uuid =
    group 8 (hyphen (group 4 (hyphen (group 4 (hyphen (group 4 (hyphen (group 12 is_empty))))))))

-- hexIDPattern
is_hex_id : Text → Bool
unfolding all_bytes
is_hex_id s = leb 24 (length s) && all_bytes is_hex_digit s

module _ (wide_lower : Text → Text) where
  unfoldable pub looks_like_generated_id : Text → Bool
  unfolding all_bytes is_cuid is_uuid is_hex_id to_lower
  looks_like_generated_id val =
      let low = to_lower wide_lower val in
      if all_bytes is_digit val && ltb 0 (length val)
      then true
      else if ltb (length val) 16
      then false
      else is_cuid low || is_uuid low || is_hex_id low

-- sync.Map; the last entry of a key is in front
unfoldable pub cached : Text → List (Text × Text) → Option Text
unfolding text_eq
cached key [] = none
cached key ((k, v) ∷ m) = if text_eq k key then some v else cached key m

-- Delete of sync.Map
unfoldable pub uncache : Text → List (Text × Text) → List (Text × Text)
unfolding text_eq
uncache key = select λ e. not (text_eq e.0 key)

abbrev pub cache_key : Text → Text → Text
cache_key client id = client ++ 58 ∷ id

abbrev pub is_user : Text → Text → ClientUser → Bool
is_user client id u = text_eq u.user_client client && text_eq u.user_id id

-- raw_data LIKE '%id%'; the id holds no wildcard
abbrev mentions : Text → Text → ClientUser → Bool
mentions client id u = text_eq u.user_client client && contains u.raw_data id

unfoldable pub find_user : Text → Text → List ClientUser → Option ClientUser
find_user client id users = elim (first_where (is_user client id) users) [
  | some u ↦ some u
  | none ↦ first_where (mentions client id) users
]

unfoldable pub name_of : ClientUser → Text
name_of u = if is_empty u.email then u.full_name else u.email

-- resolveActorName, with the cache after the call; nothing is cached where no user is found
unfoldable pub resolve_actor_name : Text → Text → Tables → Text × List (Text × Text)
resolve_actor_name client id t = elim (cached (cache_key client id) t.actor_cache) [
  | some name ↦ (name, t.actor_cache)
  | none ↦ elim (find_user client id t.users) [
    | none ↦ ([], t.actor_cache)
    | some u ↦ (name_of u, (cache_key client id, name_of u) ∷ t.actor_cache)
  ]
]

module _ (lib : Libraries) where
  open lib use {Float, marshal, wide_lower}

  -- the first of the names under which a field with a value is found
  present_name : Fields Float → List Text → Text
  unfolding present find_field_insensitive
  present_name payload [] = []
  present_name payload (c ∷ cs) =
      let rest = present_name payload cs in
      elim (present lib (find_field_insensitive lib payload c)) [ some v ↦ c | none ↦ rest ]

  -- the value of a field that is there and not nil
  present_text : Fields Float → Text → Text
  unfolding present find_field_insensitive extract_scalar_value
  present_text payload name = elim (present lib (find_field_insensitive lib payload name)) [
    | some v ↦ extract_scalar_value lib name v
    | none ↦ []
  ]

  -- the value of a field that is there, nil included
  unfoldable pub any_text : Fields Float → Text → Text
  unfolding find_field_insensitive extract_scalar_value
  any_text payload name = elim (find_field_insensitive lib payload name) [
    | some v ↦ extract_scalar_value lib name v
    | none ↦ []
  ]

  -- the first text that is not empty
  first_text : (Text → Text) → List Text → Text
  first_text read [] = []
  first_text read (c ∷ cs) =
      let rest = first_text read cs in if is_empty (read c) then rest else read c

  user_column : Settings → Fields Float → Text
  unfolding present_name
  user_column cfg payload =
      if is_empty cfg.user_column_name
      then present_name payload (
          codes "username"
          ∷ codes "email"
          ∷ codes "login"
          ∷ codes "name"
          ∷ codes "nama"
          ∷ codes "user_name"
          ∷ [])
      else cfg.user_column_name

  unfoldable pub full_name_of : Fields Float → Text → Text
  unfolding first_text any_text present_text looks_like_generated_id
  full_name_of payload username =
      let named : Text = first_text (any_text payload) (
        codes "name"
        ∷ codes "nama"
        ∷ codes "full_name"
        ∷ codes "fullname"
        ∷ codes "display_name"
        ∷ []) in
      let joined : Text = trim_space (
        present_text payload (codes "first_name")
        ++ 32 ∷ present_text payload (codes "last_name")) in
      if not (is_empty named)
      then named
      else if not (is_empty joined)
      then joined
      else if not (is_empty username) && not (looks_like_generated_id wide_lower username)
      then username
      else []

  -- First and then Create or Updates
  unfoldable pub save_user :
      Settings → Text → Text → Text → Text → Text → Text → ℤ → List ClientUser → List ClientUser
  unfolding first_where update_where
  save_user cfg key username email name table raw now users =
      elim (first_where (is_user cfg.client_id key) users) [
        | none ↦
            users
            ++ record {
              user_client = cfg.client_id;
              user_id = key;
              username = username;
              email = email;
              full_name = name;
              source_table = table;
              raw_data = raw;
              last_seen_at = now;
            }
              ∷ []
        | some u ↦
            update_where (is_user cfg.client_id key)
              (λ (u : ClientUser). record u {
                last_seen_at = now;
                raw_data = raw;
                email = if is_empty email then u.email else email;
                full_name = if is_empty name then u.full_name else name;
              })
              users
      ]

  -- userID
  unfoldable pub user_id_of : Fields Float → Text
  unfolding first_text present_text
  user_id_of payload =
      first_text (present_text payload)
        (codes "id" ∷ codes "user_id" ∷ codes "userid" ∷ codes "uid" ∷ [])

  -- username
  unfoldable pub username_of : Settings → Fields Float → Text
  unfolding user_column present_text
  username_of cfg payload =
      let column : Text = user_column cfg payload in
      if is_empty column then [] else present_text payload column

  -- lookupKey
  unfoldable pub lookup_key : Settings → Fields Float → Text
  lookup_key cfg payload =
      if is_empty (user_id_of payload) then username_of cfg payload else user_id_of payload

  unfoldable pub process_client_user_cdc : Settings → Fields Float → Text → ℤ → Tables → Tables
  process_client_user_cdc cfg payload table now t =
      if is_empty (user_id_of payload) && is_empty (username_of cfg payload) then t else record t {
        users =
            save_user cfg (lookup_key cfg payload) (username_of cfg payload)
              (any_text payload (codes "email")) (full_name_of payload (username_of cfg payload))
              table (marshal (object payload)) now t.users;
        actor_cache = uncache (cache_key cfg.client_id (lookup_key cfg payload)) t.actor_cache;
      }
