-- ===== src/HttpClient.antt =====
-- net/http: the requests and responses of the adapters.
use kong_gateway_cert_lite.Prelude.{
  ℕ, List, [], ◌∷◌, ◌++◌, map, Bool, not, ◌==◌, eq_ℕ, eq_List, keep,
}
use kong_gateway_cert_lite.Text.{Text}
use kong_gateway_cert_lite.Text.Case.{ascii_lower}

pub record HttpRequest : Type 0 where
  pub method : Text
  pub url : Text
  pub header : List (Text × Text)
  pub body : Text

-- Reading a body, up to a limit: the bytes, or the text of an error.
pub data BodyRead : Type 0 where
  bytes : Text → BodyRead
  broken : Text → BodyRead

pub record HttpResponse : Type 0 where
  pub status_code : ℕ
  pub status : Text
  pub read : ℕ → BodyRead

pub data Sent : Type 0 where
  response : HttpResponse → Sent
  unsent : Text → Sent

-- `req.Header.Set`: the name is compared without regard to case.
abbrev same_header : Text → Text × Text → Bool
same_header name entry = map ascii_lower entry.0 == map ascii_lower name

unfoldable pub set_header : Text → Text → HttpRequest → HttpRequest
set_header name value req = record req {
  header = keep (λ entry. not (same_header name entry)) req.header ++ (name, value) ∷ [];
}
