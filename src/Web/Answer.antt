-- ===== src/Web/Answer.antt =====
-- internal/web/handler.go: the handler's parts, requests and answers, and how errors are answered.
use kong_gateway_cert_lite.Prelude.{ℕ, List, ◌++◌, Bool, Option, none, some, String, if◌then◌else◌}
use kong_gateway_cert_lite.Text.{Text, lit}
use kong_gateway_cert_lite.Text.Case.{Unicode}
use kong_gateway_cert_lite.Text.Number.{parse_id, decimal}
use kong_gateway_cert_lite.Domain.{Error, validation, blocked, join, is_not_found}
use kong_gateway_cert_lite.World.{M, Result, ok, err, pure, ◌>>=◌, attempt}
use kong_gateway_cert_lite.Notification.{Notifier}
use kong_gateway_cert_lite.KongSync.{KongCertificateSyncClient}
use kong_gateway_cert_lite.KongTarget.{KongAdminClient}
use kong_gateway_cert_lite.Acme.{AcmeUseCase}
use kong_gateway_cert_lite.Web.Pages.{FlashMessage, Page}

-- encoding/json with encoding/base64, on the flash message.
pub record FlashCodec : Type 0 where
  pub encode : FlashMessage → Text
  pub decode : Text → Option FlashMessage

-- The use cases with their clients, and the packages that they call: unicode, net/mail and
-- net/url.
pub record Handler : Type 0 where
  pub unicode : Unicode
  pub parse_address : Text → Bool
  pub parse_uri : Text → Option (Text × Text)
  pub parse_query : Text → Option (Text → List Text)
  pub codec : FlashCodec
  pub acme : AcmeUseCase
  pub kong_client : KongCertificateSyncClient
  pub tester : KongAdminClient
  pub notifier : Notifier

-- `c.Params`, `c.FormValue`, `c.Query`, `c.Body` and the flash cookie.
pub record Request : Type 0 where
  pub params : Text → Text
  pub form_value : Text → Text
  pub query : Text → Text
  pub body : Text
  pub flash_cookie : Text

pub data FlashCookie : Type 0 where
  untouched : FlashCookie
  stored : Text → FlashCookie
  expired_cookie : FlashCookie

-- A redirect to a path, a rendered page, an error for the error handler, each with its status.
pub data Body : Type 0 where
  redirect : ℕ → Text → Body
  page : ℕ → Page → Body
  failure : ℕ → Text → Body

pub record Answer : Type 0 where
  pub body : Body
  pub cookie : FlashCookie

abbrev pub status_ok : ℕ
status_ok = 200

abbrev pub status_found : ℕ
status_found = 302

abbrev pub see_other : ℕ
see_other = 303

abbrev pub bad_request : ℕ
bad_request = 400

abbrev pub missing : ℕ
missing = 404

abbrev pub unprocessable_entity : ℕ
unprocessable_entity = 422

abbrev pub internal_server_error : ℕ
internal_server_error = 500

-- `fiber.NewError`
abbrev pub new_error : ℕ → Text → Answer
new_error status message = record { body = failure status message; cookie = untouched }

-- `fiber.ErrNotFound`
unfoldable pub err_not_found : Answer
err_not_found = new_error missing (lit "Not Found")

-- What it logs is dropped.
unfoldable pub server_error : Error → Answer
server_error e = new_error internal_server_error (lit "internal server error")

-- `errors.As` for the two error types of the use cases
unfoldable pub as_validation : Error → Option (List (String × String))
as_validation (validation fields) = some fields
as_validation (join a b) = elim (as_validation a) [ some f ↦ some f | none ↦ as_validation b ]
as_validation _ = none

unfoldable pub as_blocked : Error → Option Text
as_blocked (blocked reason) = some reason
as_blocked (join a b) = elim (as_blocked a) [ some r ↦ some r | none ↦ as_blocked b ]
as_blocked _ = none

-- The tests of an error that most handlers end with.
unfoldable pub not_found_or_error : Error → Answer
not_found_or_error e = if is_not_found e then err_not_found else server_error e

-- `x, err := …; if err != nil { return … }`
abbrev pub or_answer : {A : Type 0} → (Error → Answer) → (A → M Answer) → Result A → M Answer
or_answer refusal rest (ok a) = rest a
or_answer refusal rest (err e) = pure (refusal e)

abbrev pub handle : {A : Type 0} → M A → (Error → Answer) → (A → M Answer) → M Answer
handle m refusal rest = attempt m >>= or_answer refusal rest

abbrev pub or_missing : (ℕ → M Answer) → Option ℕ → M Answer
or_missing rest none = pure err_not_found
or_missing rest (some id) = rest id

-- `id, err := usecase.ParseID(…); if err != nil { return fiber.ErrNotFound }`
abbrev pub with_id : Text → (ℕ → M Answer) → M Answer
with_id value rest = or_missing rest (parse_id value)

-- The page of a certificate.
abbrev pub certificate_path : ℕ → Text
certificate_path id = lit "/certificates/" ++ decimal id
