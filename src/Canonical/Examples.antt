-- ===== src/Canonical/Examples.antt =====
-- Numbers and rows, some of them of the tests of the source (pkg/canonicalstate/canonical_test.go).
use auditchain_gateway_backe.Prelude.{◌≡◌, refl, false, none, some, is_some}
use auditchain_gateway_backe.Prelude.Text.{Text, codes}
use auditchain_gateway_backe.Prelude.Int.{pos}
use auditchain_gateway_backe.Json.{Value, number, string, object, no_fields, field}
use auditchain_gateway_backe.Canonical.Number.{Decimal, canonical_number, parse_decimal}
use auditchain_gateway_backe.Canonical.Rewriting.{trailing_zero, canonical_number-Rewritten}
use auditchain_gateway_backe.Canonical.{normalize_key, normalize_value, put_field}
use auditchain_gateway_backe.Canonical.Accepted.{is_acceptable, normalize_value-IsAcceptable}

whole : canonical_number (codes "1.0") ≡ some (codes "1")
unfolding canonical_number
whole = refl

thousandth : canonical_number (codes "1e-3") ≡ some (codes "0.001")
unfolding canonical_number
thousandth = refl

scaled : canonical_number (codes " -01.2500E+1") ≡ some (codes "-12.5")
unfolding canonical_number
scaled = refl

padded : canonical_number (codes "12e3") ≡ some (codes "12000")
unfolding canonical_number
padded = refl

no_negative_zero : canonical_number (codes "-0.00") ≡ some (codes "0")
unfolding canonical_number
no_negative_zero = refl

two_points : canonical_number (codes "1.2.3") ≡ none
unfolding canonical_number
two_points = refl

huge_exponent : canonical_number (codes "1e1000001") ≡ none
unfolding canonical_number
huge_exponent = refl

abbrev keep : Text → Text
keep s = s

-- two keys that normalize to one, as in the test of the source, or to two
abbrev row : Text → Value Text
row key = object (
    field (codes "Nama") (string (codes "a"))
      (field key (object (field (codes "ID") (number (codes "1.0")) no_fields)) no_fields))

colliding_keys : normalize_value keep (row (codes " nama ")) ≡ none
unfolding normalize_value normalize_key put_field canonical_number
colliding_keys = refl

normalized_row :
    normalize_value keep (row (codes "Code"))
    ≡ some (
        object (
          field
            (codes "code")
            (object (field (codes "id") (number (codes "1")) no_fields))
            (field (codes "nama") (string (codes "a")) no_fields)))
unfolding normalize_value normalize_key put_field canonical_number
normalized_row = refl

normalize_value-IsAcceptable_example :
    is_some (normalize_value keep (row (codes " nama ")))
    ≡ is_acceptable keep (row (codes " nama "))
normalize_value-IsAcceptable_example = normalize_value-IsAcceptable keep (row (codes " nama "))

abbrev one_half : Decimal
one_half = record {
  negative = false;
  integer_part = codes "1";
  fraction_part = codes "5";
  exponent = pos 0;
}

read_half : parse_decimal (codes "1.5") ≡ some one_half
unfolding parse_decimal
read_half = refl

read_longer_half :
    parse_decimal (codes "1.50") ≡ some (record one_half { fraction_part = codes "50" })
unfolding parse_decimal
read_longer_half = refl

canonical_number-Rewritten_example :
    canonical_number (codes "1.50") ≡ canonical_number (codes "1.5")
canonical_number-Rewritten_example =
    canonical_number-Rewritten (codes "1.5") (codes "1.50") one_half
      (record one_half { fraction_part = codes "50" }) read_half read_longer_half trailing_zero
