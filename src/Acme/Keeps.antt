-- ===== src/Acme/Keeps.antt =====
-- The part of an operation between its job's start and its end leaves the database alone.
use kong_gateway_cert_lite.Prelude.{ℕ, refl, some, none, Option}
use kong_gateway_cert_lite.Text.{Text, is_blank}
use kong_gateway_cert_lite.Domain.{Bytes, Certificate, Error, JobStatus}
use kong_gateway_cert_lite.World.{World, Result, ok}
use kong_gateway_cert_lite.Notification.Effects.{Keeps-notify_job_result}
use kong_gateway_cert_lite.World.Keeps.{
  Keeps-if, SameDb, SameDb-refl, Keeps, keeps_rules, Keeps-raise, Keeps-statement,
}
use kong_gateway_cert_lite.Files.{
  existing, find_file, put_file, mkdir_all, write_file, read_required_file, read_certificate_files,
}
use kong_gateway_cert_lite.Job
use kong_gateway_cert_lite.KongSync.{ask}
use kong_gateway_cert_lite.Acme.{AcmeUseCase, AcmeIssueResult, write_issued_files}
use kong_gateway_cert_lite.Acme.Operations.{Wording, store, obtain, obtain_again, report}

pub Keeps-ask : {A : Type 0} (f : ℕ → A) → Keeps (ask f)
Keeps-ask f = record { at = λ w. record { db = refl; calm = λ h. h } }

Keeps-lift : {A : Type 0} (r : Result A) → Keeps (Job.lift r)
Keeps-lift r = record { at = λ w. SameDb-refl w }

Keeps-put_file :
    (path : Text) (b : Bytes)
    → Keeps {A = Unit {0}} (λ w. (ok tt, record w { files = put_file path b w.files }))
Keeps-put_file path b = record { at = λ w. record { db = refl; calm = λ h. h } }

Keeps-mkdir_all : (dir : Text) → Keeps (mkdir_all dir)
unfolding mkdir_all
Keeps-mkdir_all dir = search keeps_rules

Keeps-write_file : (label path : Text) (b : Bytes) → Keeps (write_file label path b)
unfolding write_file
Keeps-write_file label path b = Keeps-statement _ _ (Keeps-put_file path b)

existing-SameDb : (e : Error) (o : Option Bytes) (w : World) → SameDb w (existing e o w).1
existing-SameDb e none w = SameDb-refl w
existing-SameDb e (some b) w = SameDb-refl w

Keeps-existing :
    (e : Error) (o : World → Option Bytes) → Keeps {A = Bytes} (λ w. existing e (o w) w)
Keeps-existing e o = record { at = λ w. existing-SameDb e (o w) w }

Keeps-read_required_file : (word path label : Text) → Keeps (read_required_file word path label)
unfolding read_required_file
Keeps-read_required_file word path label =
    Keeps-if (is_blank path) _ _ (Keeps-raise _)
      (Keeps-statement _ _ (Keeps-existing _ (λ w. find_file path w.files)))

pub Keeps-read_certificate_files :
    (word cert_path key_path : Text) → Keeps (read_certificate_files word cert_path key_path)
unfolding read_certificate_files
Keeps-read_certificate_files word cert_path key_path =
    search (keeps_rules, Keeps-read_required_file)

Keeps-write_issued_files :
    (dir : Text) (id : ℕ) (cert key : Bytes) → Keeps (write_issued_files dir id cert key)
unfolding write_issued_files
Keeps-write_issued_files dir id cert key =
    search (keeps_rules, Keeps-if, Keeps-mkdir_all, Keeps-write_file) depth 12

module _ (uc : AcmeUseCase) where
  Keeps-store :
      (certificate : Certificate) (result : AcmeIssueResult) → Keeps (store uc certificate result)
  unfolding store
  Keeps-store certificate result = search (keeps_rules, Keeps-write_issued_files, Keeps-lift)

  pub Keeps-obtain : (certificate : Certificate) → Keeps (obtain uc certificate)
  unfolding obtain
  Keeps-obtain certificate = search (keeps_rules, Keeps-ask, Keeps-lift, Keeps-store) depth 9

  pub Keeps-obtain_again : (certificate : Certificate) → Keeps (obtain_again uc certificate)
  unfolding obtain_again
  Keeps-obtain_again certificate =
      search (keeps_rules, Keeps-read_certificate_files, Keeps-ask, Keeps-lift, Keeps-store) depth 9

  pub Keeps-report :
      (words : Wording) (certificate : Certificate) (job_id : ℕ) (status : JobStatus)
      (message : Text)
      → Keeps (report uc words certificate job_id status message)
  unfolding report
  Keeps-report words certificate job_id status message = Keeps-notify_job_result _ _
