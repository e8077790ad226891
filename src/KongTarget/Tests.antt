-- ===== src/KongTarget/Tests.antt =====
-- Runs of the Kong targets' use case on small data.
use kong_gateway_cert_lite.Prelude.{[], ◌∷◌, some, Option, eq_ℕ}
use kong_gateway_cert_lite.Text.{Text, lit}
use kong_gateway_cert_lite.Domain.{KongTarget, Error}
use kong_gateway_cert_lite.Sqlite.KongTargets
use kong_gateway_cert_lite.KongTarget.{KongTargetInput, KongAdminClient}

-- A form that asks for a custom header and leaves its value blank.
abbrev blank_secret : KongTargetInput
blank_secret = record {
  id = 3;
  name = lit "g2";
  environment = lit "p";
  admin_url = lit "http://kong:8001";
  auth_type = lit "custom-header";
  auth_header_name = lit "X-Key";
  auth_header_value = [];
}

abbrev parse_any : Text → Option (Text × Text)
parse_any text = some (lit "http", lit "kong:8001")

abbrev unreachable : KongAdminClient
unreachable = record {
  check_connection = λ n target. record { detail = []; error = some (Error.failed (b'x' ∷ [])) };
}
