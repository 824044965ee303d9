-- ===== src/Json.antt =====
-- JSON values as encoding/json decodes them into interface{}: nil, bool, a number, string,
-- []interface{} and map[string]interface{}. `N` is the type of the numbers (json.Number where the
-- decoder is told UseNumber, else float64). A map is the list of its fields in the order in which
-- a range over it meets them.
use auditchain_gateway_backe.Prelude.{Bool, Option, none, some, if◌then◌else◌}
use auditchain_gateway_backe.Prelude.Text.{Text, text_eq}

mutual
  pub data Value (N : Type 0) : Type 0 where
    null : Value N
    boolean : Bool → Value N
    number : N → Value N
    string : Text → Value N
    array : Items N → Value N
    object : Fields N → Value N

  pub data Items (N : Type 0) : Type 0 where
    no_items : Items N
    item : Value N → Items N → Items N

  pub data Fields (N : Type 0) : Type 0 where
    no_fields : Fields N
    field : Text → Value N → Fields N → Fields N

-- `value, ok := m[key]`
unfoldable pub get_field : {N : Type 0} → Text → Fields N → Option (Value N)
unfolding text_eq
get_field key no_fields = none
get_field key (field k v m) = if text_eq k key then some v else get_field key m
