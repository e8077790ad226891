-- ===== src/Web/Tests.antt =====
-- Runs of the handlers on small data.
use kong_gateway_cert_lite.Prelude.{
  ℕ, ◌+◌, ◌-◌, ◌≤◌, List, [], ◌∷◌, ◌++◌, true, false, Option, none, some, ◌≡◌, ◌⊎◌, inr, refl,
  arith, In, All, All-append, length, is_empty, eq_ℕ,
}
use kong_gateway_cert_lite.Text.{Text, lit, trim_space, is_blank, is_space, split_on, join}
use kong_gateway_cert_lite.Text.Number.{parse_id, atoi}
use kong_gateway_cert_lite.Text.Trim.{trim_space_of_full}
use kong_gateway_cert_lite.Text.Split.{Free, split_on-join}
use kong_gateway_cert_lite.Domain.{running, Job}
use kong_gateway_cert_lite.World.{World, ok}
use kong_gateway_cert_lite.World.Clock.{ticked}
use kong_gateway_cert_lite.Samples.{world, tables, job_of_web, refusing, silent}
use kong_gateway_cert_lite.Views.Job.{JobView, build_job_view}
use kong_gateway_cert_lite.Web.Pages.{FlashMessage, JobListPage, job_list}
use kong_gateway_cert_lite.Web.Answer.{
  Handler, Request, FlashCodec, stored, expired_cookie, status_ok,
}
use kong_gateway_cert_lite.Web.Flash.{set_flash, read_flash}
use kong_gateway_cert_lite.Web.Filters.{job_passes, job_filters_from_request}
use kong_gateway_cert_lite.Web.Certificates.{render}
use kong_gateway_cert_lite.Web.Jobs.{jobs}
use kong_gateway_cert_lite.Web.Listed.{jobs-bounded}
use kong_gateway_cert_lite.Session.{BasicAuthConfig, SessionCodec, enabled, valid_session_cookie}
use kong_gateway_cert_lite.Web.Routes.{Incoming, Served, Router, app}
use kong_gateway_cert_lite.Web.Guarded.{IsPublic, app-guards}
use kong_gateway_cert_lite.Web.Shown.{Reads, flash-shown}

-- A codec that moves each code point past all white space, and puts a mark between the fields.
abbrev mark : ℕ
mark = 0x3001

abbrev raise_all : Text → Text
raise_all [] = []
raise_all (c ∷ s) = (c + 0x3002) ∷ raise_all s

abbrev lower_all : Text → Text
lower_all [] = []
lower_all (c ∷ s) = (c - 0x3002) ∷ lower_all s

abbrev read_fields : List Text → Option FlashMessage
read_fields (t ∷ m ∷ []) = some (record { tone = lower_all t; message = lower_all m })
read_fields _ = none

abbrev pub toy : FlashCodec
toy = record {
  encode = λ f. raise_all f.tone ++ mark ∷ raise_all f.message;
  decode = λ s. read_fields (split_on mark s);
}

lower_all-raise_all : (s : Text) → lower_all (raise_all s) ≡ s
lower_all-raise_all [] = refl
lower_all-raise_all (c ∷ s) = ground (arith, lower_all-raise_all s)

raise_all-Free : (s : Text) → Free mark (raise_all s)
raise_all-Free [] = tt
raise_all-Free (c ∷ s) = (λ e. omega arith, raise_all-Free s)

past_space : (c : ℕ) → 0x3001 ≤ c → is_space c ≡ false
unfolding is_space
past_space c h = ground arith

raise_all-full : (s : Text) → All (λ c. is_space c ≡ false) (raise_all s)
raise_all-full [] = tt
raise_all-full (c ∷ s) = (past_space (c + 0x3002) (omega arith), raise_all-full s)

encode_full : (f : FlashMessage) → All (λ c. is_space c ≡ false) (toy.encode f)
encode_full f =
    All-append (λ c. is_space c ≡ false) (raise_all f.tone) (mark ∷ raise_all f.message)
      (raise_all-full f.tone) (past_space mark (omega arith), raise_all-full f.message)

marked : (x y : Text) → is_empty (x ++ mark ∷ y) ≡ false
marked [] y = refl
marked (c ∷ x) y = refl

pub decode-encode :
    (t m : Text)
    → toy.decode (toy.encode (record { tone = t; message = m }))
      ≡ some (record { tone = t; message = m })
unfolding join
decode-encode t m =
    rw
      (split_on-join mark (raise_all t) (raise_all m ∷ [])
        (raise_all-Free t, (raise_all-Free m, tt)))
      (rw (lower_all-raise_all t, lower_all-raise_all m) refl)

toy-Reads : Reads toy
toy-Reads = record {
  back = λ f. decode-encode f.tone f.message;
  trimmed = λ f. trim_space_of_full (toy.encode f) (encode_full f);
  filled = λ f. marked (raise_all f.tone) (raise_all f.message);
}

abbrev pub small : Handler
small = record {
  unicode = record { lower = λ c. c; folds = λ a b. false };
  parse_address = λ s. true;
  parse_uri = λ s. none;
  parse_query = λ s. none;
  codec = toy;
  acme = refusing;
  kong_client = record {
    sync_certificate = λ n target id cert key snis tags. record {
      kong_certificate_id = [];
      detail = [];
      error = none;
    };
  };
  tester = record { check_connection = λ n target. record { detail = []; error = none } };
  notifier = silent;
}

-- A request for certificate 7.
abbrev seventh : Request
seventh = record {
  params = λ name. b'7' ∷ [];
  form_value = λ name. [];
  query = λ name. [];
  body = [];
  flash_cookie = [];
}

names_seven : parse_id (seventh.params (lit "id")) ≡ some 7
unfolding parse_id atoi
names_seven = refl

abbrev busy : World
busy = record world { db = record tables { jobs = job_of_web running ∷ []; last_job = 1 } }

jobs-bounded_example :
    (p : JobListPage) × (jobs small seventh busy
      ≡ (ok (render small seventh status_ok (job_list p)), busy))
    × (length p.jobs ≤ 50)
    × (p.total_count ≡ 1)
    × ((v : JobView)
        → In v p.jobs
        → In v.job busy.db.jobs
          × (job_passes small.unicode (job_filters_from_request seventh) v ≡ true))
    × ((j : Job)
        → In j busy.db.jobs
        → job_passes small.unicode (job_filters_from_request seventh) (build_job_view j) ≡ true
        → In (build_job_view j) p.jobs ⊎ (length p.jobs ≡ 50))
jobs-bounded_example = jobs-bounded small seventh busy refl

greets : is_blank (lit " hi") ≡ false
unfolding lit trim_space is_space
greets = refl

flash-shown_example :
    (cookie : Text) × (set_flash small (lit "danger") (lit " hi") ≡ stored cookie)
    × (read_flash small cookie
        ≡ (some (record { tone = lit "danger"; message = trim_space (lit " hi") }), expired_cookie))
flash-shown_example = flash-shown small (lit "danger") (lit " hi") toy-Reads (inr (inr refl)) greets

-- A router that takes every request for a page behind the middleware.
abbrev router : Router
router = record { matches = λ method pattern req. none; file = λ req. none; hash = λ s. s }

abbrev stranger : Incoming
stranger = record {
  method = [];
  path = [];
  request = seventh;
  login = record {
    session_cookie = [];
    accept = [];
    original_url = [];
    query = λ name. [];
    form_value = λ name. [];
    is_https = false;
  };
}

abbrev pub no_codec : SessionCodec
no_codec = record { encode = λ p. []; decode = λ s. none; sign = λ key text. [] }

abbrev operator : BasicAuthConfig
operator = record { username = b'o' ∷ []; password = b'p' ∷ [] }

operator-enabled : enabled operator ≡ true
unfolding enabled trim_space is_space
operator-enabled = refl

no_session : valid_session_cookie no_codec operator [] (ticked world).clock ≡ false
unfolding valid_session_cookie
no_session = ground arith

app-guards_example :
    (s : Served) × ((app router no_codec operator small stranger world).0 ≡ ok s)
    × IsPublic s
    × ((app router no_codec operator small stranger world).1.db ≡ tables)
app-guards_example =
    app-guards router no_codec operator small stranger world operator-enabled no_session
