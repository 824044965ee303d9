-- ===== src/Kafka/Names.antt =====
-- The name under which a user of the client is known to later changes.
use auditchain_gateway_backe.Prelude.{◌≡◌, false, ◌&&◌, arith}
use auditchain_gateway_backe.Prelude.Text.{Text, codes, is_empty}
use auditchain_gateway_backe.Prelude.Int.{ℤ}
use auditchain_gateway_backe.Json.{Fields, object}
use auditchain_gateway_backe.Kafka.Libraries.{Libraries}
use auditchain_gateway_backe.Kafka.Tables.{ClientUser, Tables}
use auditchain_gateway_backe.Kafka.Users.{
  Settings, user_id_of, username_of, lookup_key, any_text, full_name_of,
}

module _ (lib : Libraries) (cfg : Settings) (payload : Fields lib.Float) (table : Text) (now : ℤ)
    (t : Tables) where
  -- the row of a user that is not known yet
  abbrev new_user : ClientUser
  new_user = record {
    user_client = cfg.client_id;
    user_id = lookup_key lib cfg payload;
    username = username_of lib cfg payload;
    email = any_text lib payload (codes "email");
    full_name = full_name_of lib payload (username_of lib cfg payload);
    source_table = table;
    raw_data = lib.marshal (object payload);
    last_seen_at = now;
  }

  has_key :
      is_empty (lookup_key lib cfg payload) ≡ false
      → (is_empty (user_id_of lib payload) && is_empty (username_of lib cfg payload)) ≡ false
  unfolding lookup_key
  has_key h = ground arith
