-- ===== src/Reachable/Tests.antt =====
-- A run of the program from a new database: a request that adds a certificate, and one to issue it.
use kong_gateway_cert_lite.Prelude.{
  [], ◌∷◌, false, none, some, ◌≡◌, inl, refl, sym, ◌&&◌, ◌==◌, eq_ℕ, eq_List, if◌then◌else◌,
  list_eq,
}
use kong_gateway_cert_lite.Prelude.Int.{pos}
use kong_gateway_cert_lite.Text.{Text, lit, trim_space, is_space, split_on}
use kong_gateway_cert_lite.Text.Number.{parse_id, atoi, atoi_value}
use kong_gateway_cert_lite.Domain.{Certificate, CertificateStatus}
use kong_gateway_cert_lite.World.{World, ok, statement}
use kong_gateway_cert_lite.World.Clock.{ticked}
use kong_gateway_cert_lite.Samples.{world, refusing}
use kong_gateway_cert_lite.Session.{BasicAuthConfig, enabled}
use kong_gateway_cert_lite.Session.Login.{session_auth}
use kong_gateway_cert_lite.Certificate
use kong_gateway_cert_lite.Sqlite.Certificates as Rows
use kong_gateway_cert_lite.Web.Certificates.{create_certificate}
use kong_gateway_cert_lite.Web.Forms.{certificate_form_from_request, certificate_input_from_form}
use kong_gateway_cert_lite.Prelude.Unique.{unique, unique_from}
use kong_gateway_cert_lite.Sqlite.Columns.{to_column}
use kong_gateway_cert_lite.Acme.Operations.{issue_words}
use kong_gateway_cert_lite.Acme.Outcome.{Settled}
use kong_gateway_cert_lite.Acme.Issue.{issue_outcome}
use kong_gateway_cert_lite.Web.Answer.{Request}
use kong_gateway_cert_lite.Web.Actions.{to_certificate, issue_certificate}
use kong_gateway_cert_lite.Web.Issue.{verdict_of}
use kong_gateway_cert_lite.Web.Routes.{Incoming, Router, app, serve, guarded_routes}
use kong_gateway_cert_lite.Web.Tests.{small, no_codec}
use kong_gateway_cert_lite.Reachable.Sound.{Sound}
use kong_gateway_cert_lite.Reachable.Requests.{
  Reached, opened, served, elsewhere, Reached-Sound, empty_database,
}
use kong_gateway_cert_lite.Reachable.Issue.{Reached-issue}

-- No login is asked for.
abbrev open_access : BasicAuthConfig
open_access = record { username = []; password = [] }

-- It knows POST /certificates alone.
abbrev one_route : Router
one_route = record {
  matches = λ method pattern req.
      if method == lit "POST" && pattern == lit "/certificates" then some (λ name. []) else none;
  file = λ req. none;
  hash = λ s. s;
}

abbrev filled : Text → Text
filled name = if name == lit "renew_before_days" then lit "30" else b'a' ∷ []

abbrev form : Incoming
form = record {
  method = lit "POST";
  path = lit "/certificates";
  request = record {
    params = λ name. [];
    form_value = filled;
    query = λ name. [];
    body = [];
    flash_cookie = [];
  };
  login = record {
    session_cookie = [];
    accept = [];
    original_url = [];
    query = λ name. [];
    form_value = λ name. [];
    is_https = false;
  };
}

abbrev fresh : World
fresh = record world { db = empty_database }

abbrev first : Certificate
first = record {
  id = 1;
  name = b'a' ∷ [];
  primary_domain = b'a' ∷ [];
  domains = (b'a' ∷ []) ∷ [];
  email = b'a' ∷ [];
  snis = (b'a' ∷ []) ∷ [];
  cert_path = [];
  key_path = [];
  expires_at = none;
  auto_renew = false;
  renew_before_days = pos 30;
  status = CertificateStatus.pending;
  created_at = to_column world.clock;
  updated_at = to_column world.clock;
}

abbrev with_first : World
with_first = record world {
  db = record empty_database { certificates = first ∷ []; last_certificate = 1 };
}

created : (app one_route no_codec open_access small form fresh).1.db ≡ with_first.db
unfolding app serve guarded_routes list_eq lit session_auth enabled trim_space create_certificate
    Certificate.create Certificate.validate_certificate_input Certificate.refused_fields
    Certificate.described certificate_input_from_form certificate_form_from_request is_space
    Certificate.split_lines unique unique_from atoi_value atoi statement Rows.create split_on
created = refl

with_first-Reached : Reached one_route no_codec open_access small with_first
with_first-Reached =
    elsewhere (app one_route no_codec open_access small form fresh).1 with_first (sym created)
      (served fresh form (opened fresh refl))

Reached-Sound_example : Sound with_first.db
Reached-Sound_example =
    Reached-Sound one_route no_codec open_access small with_first with_first-Reached

abbrev by_hand : Request
by_hand = record {
  params = λ name. b'1' ∷ [];
  form_value = λ name. [];
  query = λ name. [];
  body = [];
  flash_cookie = [];
}

names_one : parse_id (by_hand.params (lit "id")) ≡ some 1
unfolding parse_id atoi
names_one = refl

Reached-issue_example :
    ((issue_certificate small by_hand with_first).0
      ≡ ok (to_certificate small 1 (verdict_of (issue_outcome refusing first with_first))))
    × Settled issue_words first
        (to_column (ticked with_first).clock)
        (issue_outcome refusing first with_first)
        with_first.db
        (issue_certificate small by_hand with_first).1.db
Reached-issue_example =
    Reached-issue one_route no_codec open_access small by_hand first with_first with_first-Reached
      refl (inl refl) tt names_one
