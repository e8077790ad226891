-- ===== src/World.antt =====
-- What the program acts on: the database (internal/db/migrations/001_initial.sql), the files, the
-- clock and the notifications sent; and the effects of Go code on it.
pub mod Faults
pub mod Keeps
pub mod Preserves
pub mod Clock
pub mod Quiet
use kong_gateway_cert_lite.Prelude.{ℕ, ◌+◌, List, [], ◌∷◌, ◌++◌, Option, none, some, if◌then◌else◌}
use kong_gateway_cert_lite.Text.{Text, lit}
use kong_gateway_cert_lite.Domain.{
  Time, Bytes, Certificate, CertificateKongTarget, KongTarget, Job, JobType, JobStatus, Error,
  not_found, failed, join, is_not_found,
}
use kong_gateway_cert_lite.Prelude.Int.{ℤ}

-- The four tables, each with the largest id that it has given out (AUTOINCREMENT).
pub record Database : Type 0 where
  pub certificates : List Certificate
  pub kong_targets : List KongTarget
  pub links : List CertificateKongTarget
  pub jobs : List Job
  pub last_certificate : ℕ
  pub last_kong_target : ℕ
  pub last_link : ℕ
  pub last_job : ℕ

pub data NotificationSeverity : Type 0 where
  info warning critical success : NotificationSeverity

pub record NotificationEvent : Type 0 where
  pub severity : NotificationSeverity
  pub event : Text
  pub certificate : Option Certificate
  pub kong_target : Text
  pub environment : Text
  pub job_id : ℕ
  pub job_type : Option JobType
  pub job_status : Option JobStatus
  pub message : Text
  pub remaining_days : Option ℤ
  pub occurred_at : Time

-- `ticks` holds how much time passes before each reading of the clock (none, when it is used up);
-- `faults` says of each SQL statement and system call in turn whether the system refuses it.
pub record World : Type 0 where
  pub db : Database
  pub files : List (Text × Bytes)
  pub clock : Time
  pub ticks : List ℕ
  pub faults : List (Option Text)
  pub calls : ℕ
  pub sent : List NotificationEvent

pub data Result {ℓ} (A : Type ℓ) : Type ℓ where
  ok : A → Result A
  err : Error → Result A

-- A Go function that acts on the world and returns a value or an error; the effects of a call
-- that returns an error stay.
abbrev pub M : Type 0 → Type 0
M A = World → Result A × World

abbrev pub pure : {A : Type 0} → A → M A
pure a w = (ok a, w)

abbrev pub raise : {A : Type 0} → Error → M A
raise e w = (err e, w)

abbrev pub proceed : {A B : Type 0} → (A → M B) → Result A × World → Result B × World
proceed f (ok a, w) = f a w
proceed f (err e, w) = (err e, w)

infixl 5 ◌>>=◌ ◌>>◌
abbrev pub ◌>>=◌ : {A B : Type 0} → M A → (A → M B) → M B
◌>>=◌ m f w = proceed f (m w)

abbrev pub ◌>>◌ : {B : Type 0} → M (Unit {0}) → M B → M B
m >> k = m >>= λ _. k

-- `v, err := …` where the code goes on with the error in hand.
abbrev pub attempt : {A : Type 0} → M A → M (Result A)
attempt m w = let (r, w') = m w in (ok r, w')

abbrev pub translate : {A : Type 0} → Result A × World → Result A × World
translate (ok a, w) = (ok a, w)
translate (err e, w) = (err (if is_not_found e then not_found else e), w)

-- `if errors.Is(err, domain.ErrNotFound) { return ErrNotFound }; return err`
abbrev pub or_not_found : {A : Type 0} → M A → M A
or_not_found m w = translate (m w)

-- `errors.Join` of two results of calls that have both been made.
abbrev pub join_errors : Result (Unit {0}) → Result (Unit {0}) → Result (Unit {0})
join_errors (ok _) (ok _) = ok tt
join_errors (ok _) (err b) = err b
join_errors (err a) (ok _) = err a
join_errors (err a) (err b) = err (join a b)

abbrev pub gets : {A : Type 0} → (World → A) → M A
gets f w = (ok (f w), w)

-- `time.Now().UTC()`
unfoldable pub time_now : M Time
time_now w = elim w.ticks [
  | [] ↦ (ok w.clock, w)
  | t ∷ ts ↦ (ok (w.clock + t), record w { clock = w.clock + t; ticks = ts })
]

-- One SQL statement or system call: `what` begins the text of the error when the system refuses it.
abbrev pub serve : {A : Type 0} → Text → M A → List (Option Text) → M A
serve what run [] w = run w
serve what run (none ∷ fs) w = run (record w { faults = fs })
serve what run (some e ∷ fs) w = (err (failed (what ++ (lit ": " ++ e))), record w { faults = fs })

unfoldable pub statement : {A : Type 0} → Text → M A → M A
statement what run w = serve what run w.faults w
