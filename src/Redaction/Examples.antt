-- ===== src/Redaction/Examples.antt =====
-- A document with a nested password.
use auditchain_gateway_backe.Prelude.{◌≡◌, refl, true, false}
use auditchain_gateway_backe.Prelude.Text.{Text, codes}
use auditchain_gateway_backe.Json.{Value, number, string, object, no_fields, field}
use auditchain_gateway_backe.Redaction.{is_sensitive_key, redact_value}
use auditchain_gateway_backe.Redaction.Secrets.{change_secrets, redaction_hides_secrets}

abbrev keep : Text → Text
keep s = s

abbrev account : Text → Value Text
account secret = object (
    field (codes "id") (number (codes "7")) (
      field (codes "login") (object (field (codes " User-Password") (string secret) no_fields))
        no_fields))

password_key : is_sensitive_key keep (codes "API Key") ≡ true
unfolding is_sensitive_key
password_key = refl

plain_key : is_sensitive_key keep (codes "name") ≡ false
unfolding is_sensitive_key
plain_key = refl

account_redacted : redact_value keep (account (codes "hunter2")) ≡ account (codes "***REDACTED***")
unfolding redact_value is_sensitive_key
account_redacted = refl

redaction_hides_secrets_example :
    redact_value keep (change_secrets keep (λ k v. string (codes "x")) (account (codes "a")))
    ≡ redact_value keep (account (codes "a"))
redaction_hides_secrets_example =
    redaction_hides_secrets keep (λ k v. string (codes "x")) (account (codes "a"))
