-- ===== src/Lib.antt =====
-- Verification library of kong-gateway-cert-lite, a service that issues and renews Let's Encrypt
-- certificates, keeps them in SQLite and on disk, and pushes them to Kong gateways.
--
-- Parts and files (paths from the repository's root):
--   Domain          internal/domain: the records and enumerations, the errors of the use cases
--   World           what the program acts on: the database, the files, the clock, the notifications
--                   sent, and how Go code with errors acts on it (`M`, do blocks, `attempt` where the
--                   code goes on with an error in hand); children with laws: Faults, Keeps,
--                   Preserves, Clock
--   Sqlite          internal/adapter/sqlite and internal/db/migrations: Jobs, Certificates, Links
--                   and KongTargets hold the statements, with the checks, keys and cascades of the
--                   schema, Columns what they share; Fresh, Changes, Inserted and Replaced hold laws
--   Files           the files of certificates (os.ReadFile, os.MkdirAll, os.WriteFile)
--   Job             internal/usecase/job.go: Create, Complete, ClearCompleted, the queries
--   Notification    internal/usecase/notification.go; Expiry says when an expiry is announced
--   Acme            internal/usecase/acme.go: the check before an operation, writing the files, the
--                   end of validity; Operations has IssueCertificate and RenewCertificate, whose
--                   common steps are `run_operation`: check, job, client, files, certificate, job.
--                   Gate, Keeps, Outcome, Settle, Run, Issue, Stranded and Expiry hold the proofs
--   KongSync        internal/usecase/kong_sync.go; Push and Synced hold the proofs
--   Certificate     internal/usecase/certificate.go: the forms and the links; Lines, Valid, Names,
--                   Ids and Targets hold the proofs
--   KongTarget      internal/usecase/kong_target.go: the forms and the test of a connection; Secret
--                   and Connection hold the proofs
--   Cron            internal/usecase/scheduler.go: expressions (Field) and the next time; Steps,
--                   Meaning and Next hold the proofs
--   Scheduler       internal/usecase/scheduler.go: which certificates are due, one round, the keys
--                   of sent notifications; Lifecycle has Start and Stop; Eligible, Round and
--                   Announce hold the proofs
--   Session         internal/web/auth.go: the session token and the path after a login; Login has the
--                   middleware and the handlers; Token, ReturnTo and Access hold the proofs
--   Views           internal/usecase: what List and Get make of the rows for the pages
--   Web             internal/web/handler.go and routes.go: Pages is what the templates are given,
--                   Answer the requests and answers; Flash, Forms and Filters are the helpers;
--                   Certificates, Actions, KongTargets and Jobs the handlers, Routes the table of
--                   routes; Issue, Listed, Shown and Guarded hold the proofs
--   Reachable       the program as a whole: Sound says when the keys of the tables are in order;
--                   Tables, Targets, UseCases, Syncs, Renewals and Handlers go through the statements,
--                   the use cases and the handlers; Requests has the worlds that requests and rounds
--                   of the scheduler lead to, Issue what issuing comes to in them
--   Config          internal/app/config.go; Valid holds the proofs
--   AcmeAdapter     internal/adapter/acme/lego_client.go; Accounts and Directory hold the proofs
--   KongAdapter     internal/adapter/kong/admin_client.go, with HttpClient; Replies and Recorded hold
--                   the proofs
--   Discord         internal/adapter/discord/notifier.go: Wording and Embed; Bounds holds the proofs
--   Prelude, Text, Calendar: lists, equality, sorting and integers; strings, strconv and
--                   path/filepath; the calendar that package time computes with
--   Samples and the modules named Tests: small data and runs on it
--
-- How the parts interact: `Web.Routes` sends a request through the middleware of `Session.Login` to a
-- handler; a handler turns the result of a use case into an answer. A handler or the scheduler calls
-- `Acme`, which calls `Job` and `Sqlite` for
-- its state, `Files` for the certificate, `Notification` for the outcome and, after a renewal,
-- `KongSync`, which again creates and completes jobs. `Scheduler` takes the renewal as a parameter.
--
-- What the model fixes. A text is valid UTF-8, as its code points. Ids and times are natural numbers:
-- a time counts nanoseconds from the start of year 1, and a column of the database holds whole
-- seconds. Readings of the clock follow a list of delays (`ticks`), and the list `faults` says which
-- statements and system calls are refused, with which text. A result of an
-- UPDATE counts its rows; errors of scanning rows and of RowsAffected are not modelled. Maps that
-- only collect messages are lists. Tests for nil dependencies are left out: the wiring sets them.
-- The client of the certificate authority, the decoders of PEM and X.509, mail.ParseAddress,
-- url.ParseRequestURI, url.ParseQuery, net/http, encoding/json, the encodings, hashes and signatures of
-- the session, the tables of the package unicode beyond ASCII, and Fiber's router are parameters; a
-- client answers by the number of calls made before. The use cases take the client of Kong's Admin API
-- as a parameter, which `KongAdapter` fills, and the answers of the certificate authority, which
-- `AcmeAdapter` gives, with github.com/go-acme/lego as a parameter; the files that it keeps for its
-- accounts are not the ones that the use cases read. A page is the data that its template is given.
--
-- Fuel: the step loop of a cron field has max + 3 rounds, enough because an int64 that wraps leaves
-- the range at once; the search for the next time has the bound of the source; the loop over the
-- blocks of a chain has one round more than the chain has bytes, enough for a decoder whose blocks
-- shorten the text.
--
-- Not modelled: the templates, the wiring and the logging, the opening of the
-- database, the timer of the scheduler's loop, and two operations that run at once: each runs from its
-- start to its end. The case of letters is exact for ASCII; a word that is capitalised begins with an
-- ASCII letter.
pub mod Prelude
pub mod Text
pub mod Calendar
pub mod Domain
pub mod World
pub mod Views
pub mod Sqlite
pub mod Notification
pub mod Job
pub mod Files
pub mod KongSync
pub mod Acme
pub mod AcmeAdapter
pub mod Cron
pub mod Scheduler
pub mod Certificate
pub mod KongTarget
pub mod Session
pub mod Web
pub mod Reachable
pub mod Config
pub mod HttpClient
pub mod KongAdapter
pub mod Discord
pub mod Samples
