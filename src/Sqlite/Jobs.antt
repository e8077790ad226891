-- ===== src/Sqlite/Jobs.antt =====
-- internal/adapter/sqlite/job_repository.go: the SQL statements as functions on the table.
use kong_gateway_cert_lite.Prelude.{
  ℕ, suc, List, [], ◌∷◌, ◌++◌, map, head?, Bool, true, false, ◌&&◌, ◌||◌, not, Option, none, some,
  if◌then◌else◌, ◌==◌, eq_ℕ, eq_List, leb, ltb, keep, find_first, any_row, length, is_empty,
  sort_by,
}
use kong_gateway_cert_lite.Text.{lit}
use kong_gateway_cert_lite.Domain.{
  Time, Job, JobType, is_type, JobStatus, running, success, is_status, not_found, failed,
  Certificate, KongTarget,
}
use kong_gateway_cert_lite.Sqlite.Columns.{to_column, nullable_time, refers}
use kong_gateway_cert_lite.World.{World, M, ok, err, statement}

-- CHECK (type IN …) and CHECK (status IN …)
abbrev pub known_type : JobType → Bool
known_type (JobType.other _) = false
known_type _ = true

abbrev pub known_status : JobStatus → Bool
known_status (JobStatus.other _) = false
known_status _ = true

abbrev pub with_jobs : World → List Job → World
with_jobs w jobs = record w { db = record w.db { jobs = jobs } }

-- ORDER BY started_at DESC, id DESC
abbrev pub is_later : Job → Job → Bool
is_later a b = ltb b.started_at a.started_at || (a.started_at == b.started_at && leb b.id a.id)

unfoldable pub list : M (List Job)
list = statement (lit "list jobs") λ w. (ok (sort_by is_later w.db.jobs), w)

unfoldable pub get : ℕ → M Job
get id = statement (lit "get job") λ w. elim (find_first (λ j. j.id == id) w.db.jobs) [
  | none ↦ (err not_found, w)
  | some j ↦ (ok j, w)
]

-- The row that an insert adds, with the defaults of the table.
abbrev pub new_row : Job → World → Job
new_row job w = record job {
  id = suc w.db.last_job;
  started_at = to_column w.clock;
  finished_at = none;
  created_at = to_column w.clock;
}

abbrev pub insert : Job → M ℕ
insert job w =
    if known_type job.type && known_status job.status
    then if refers (λ (c : Certificate). c.id) w.db.certificates job.certificate_id
        && refers (λ (t : KongTarget). t.id) w.db.kong_targets job.kong_target_id
      then (
        ok (suc w.db.last_job),
        record w {
          db = record w.db { jobs = w.db.jobs ++ new_row job w ∷ []; last_job = suc w.db.last_job };
        },
      )
      else (err (failed (lit "create job: FOREIGN KEY constraint failed")), w)
    else (err (failed (lit "create job: CHECK constraint failed")), w)

unfoldable pub create : Job → M ℕ
create job = statement (lit "create job") (insert job)

-- The columns that UPDATE sets, in the row with the job's id.
abbrev pub updated : Job → Job → Job
updated job j =
    if j.id == job.id
    then record j {
      status = job.status;
      message = job.message;
      log = job.log;
      finished_at = nullable_time job.finished_at;
    }
    else j

unfoldable pub update : Job → M Unit
update job = statement (lit "update job") λ w.
    if any_row (λ j. j.id == job.id) w.db.jobs
    then if known_status job.status
      then (ok tt, with_jobs w (map (updated job) w.db.jobs))
      else (err (failed (lit "update job: CHECK constraint failed")), w)
    else (err not_found, w)

-- WHERE status IN ('success', 'failed')
abbrev pub is_completed : Job → Bool
is_completed j = is_status j.status success || is_status j.status JobStatus.failed

unfoldable pub delete_completed : M ℕ
delete_completed = statement (lit "delete completed jobs") λ w. (
  ok (length (keep is_completed w.db.jobs)),
  with_jobs w (keep (λ j. not (is_completed j)) w.db.jobs),
)

abbrev pub belongs_to : ℕ → Job → Bool
belongs_to certificate_id j = elim j.certificate_id [ none ↦ false | some k ↦ k == certificate_id ]

abbrev pub has_type : List JobType → Job → Bool
has_type types j = any_row (λ t. is_type j.type t) types

-- WHERE certificate_id = ? AND status = 'running' AND type IN (…)
abbrev pub is_running_for : ℕ → List JobType → Job → Bool
is_running_for certificate_id types j =
    belongs_to certificate_id j && (is_status j.status running && has_type types j)

unfoldable pub has_running_certificate_job : ℕ → List JobType → M Bool
has_running_certificate_job certificate_id types w =
    if certificate_id == 0 || is_empty types
    then (ok false, w)
    else statement (lit "check running certificate job")
        (λ w. (ok (any_row (is_running_for certificate_id types) w.db.jobs), w)) w

-- WHERE certificate_id = ? AND status = 'failed' AND started_at >= ? AND type IN (…)
abbrev pub is_failed_since : ℕ → List JobType → Time → Job → Bool
is_failed_since certificate_id types since j =
    belongs_to certificate_id j
    && (is_status j.status JobStatus.failed
        && (leb (to_column since) j.started_at && has_type types j))

unfoldable pub latest_failed_certificate_job_since : ℕ → List JobType → Time → M (Option Job)
latest_failed_certificate_job_since certificate_id types since w =
    if certificate_id == 0 || is_empty types
    then (ok none, w)
    else statement (lit "get latest failed certificate job")
        (λ w. (
          ok (
              head?
                (sort_by is_later (keep (is_failed_since certificate_id types since) w.db.jobs))),
          w,
        ))
        w
