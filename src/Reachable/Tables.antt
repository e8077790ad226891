-- ===== src/Reachable/Tables.antt =====
-- internal/adapter/sqlite: each statement keeps the keys of the tables in order.
use kong_gateway_cert_lite.Prelude.{
  ℕ, List, Bool, true, false, ◌||◌, none, ◌≡◌, refl, sym, subst, is_empty, arith, if◌then◌else◌,
  ◌==◌, eq_ℕ,
}
use kong_gateway_cert_lite.Text.{Text}
use kong_gateway_cert_lite.Domain.{Time, Certificate, CertificateStatus, KongTarget, Job, JobType}
use kong_gateway_cert_lite.World.{World, M, ok, attempt, time_now}
use kong_gateway_cert_lite.World.Preserves.{Preserves, Preserves-statement}
use kong_gateway_cert_lite.World.Clock.{ticked, ticked-db}
use kong_gateway_cert_lite.Sqlite.Jobs
use kong_gateway_cert_lite.Sqlite.Certificates
use kong_gateway_cert_lite.Reachable.Sound.{Sound, JobEnds}
use kong_gateway_cert_lite.Reachable.Changes.{
  Sound-add_job, Sound-map_jobs, Sound-keep_jobs, Sound-add_certificate, Sound-map_certificates,
}
use kong_gateway_cert_lite.Reachable.Deletes.{Sound-delete_certificate}

-- An action after which the keys of the tables are in order, where they were before it.
abbrev pub Safe : {A : Type 0} → M A → Type 0
Safe m = Preserves Sound m

pub Safe-if : {A : Type 0} (b : Bool) (m n : M A) → Safe m → Safe n → Safe (if b then m else n)
Safe-if true m n p q = p
Safe-if false m n p q = q

pub Safe-attempt : {A : Type 0} (m : M A) → Safe m → Safe (attempt m)
Safe-attempt m k = record { at = λ w h. k.at w h }

pub Safe-time_now : Safe time_now
unfolding ticked
Safe-time_now = record { at = λ w h. subst Sound (sym (ticked-db w)) h }

pub Safe-list_jobs : Safe Jobs.list
unfolding Jobs.list
Safe-list_jobs = Preserves-statement Sound _ _ (record { at = λ w h. h })

pub Safe-get_job : (id : ℕ) → Safe (Jobs.get id)
unfolding Jobs.get
Safe-get_job id = Preserves-statement Sound _ _ (record { at = λ w h. ground arith })

pub Safe-create_job : (job : Job) → Safe (Jobs.create job)
unfolding Jobs.create
Safe-create_job job = Preserves-statement Sound _ _ (record {
  at =
      λ w h. let added = Sound-add_job w.db h (Jobs.new_row job w) refl in ground (arith, h, added);
})

updated_id : (job j : Job) → (Jobs.updated job j).id ≡ j.id
updated_id job j = ground arith

updated_ends :
    (job : Job) (cs : List Certificate) (ts : List KongTarget) (j : Job)
    → JobEnds cs ts j
    → JobEnds cs ts (Jobs.updated job j)
updated_ends job cs ts j h = ground (arith, h)

pub Safe-update_job : (job : Job) → Safe (Jobs.update job)
unfolding Jobs.update
Safe-update_job job = Preserves-statement Sound _ _ (record {
  at = λ w h.
      let kept =
        Sound-map_jobs w.db h (Jobs.updated job) (updated_id job)
          (updated_ends job w.db.certificates w.db.kong_targets) in
      ground (arith, h, kept);
})

pub Safe-delete_completed : Safe Jobs.delete_completed
unfolding Jobs.delete_completed
Safe-delete_completed =
    Preserves-statement Sound _ _ (record { at = λ w h. Sound-keep_jobs w.db h _ })

-- A query that is not made where it has nothing to ask for.
Safe-unless :
    {A : Type 0} (b : Bool) (a : A) (m : M A)
    → Safe m
    → (w : World) → Sound w.db
    → Sound (if b then (ok a, w) else m w).1.db
Safe-unless true a m k w h = h
Safe-unless false a m k w h = k.at w h

pub Safe-has_running :
    (id : ℕ) (types : List JobType) → Safe (Jobs.has_running_certificate_job id types)
unfolding Jobs.has_running_certificate_job
Safe-has_running id types = record {
  at = λ w h.
      Safe-unless (id == 0 || is_empty types) false _
        (Preserves-statement Sound _ _ (record { at = λ v g. g })) w h;
}

pub Safe-latest_failed :
    (id : ℕ) (types : List JobType) (since : Time)
    → Safe (Jobs.latest_failed_certificate_job_since id types since)
unfolding Jobs.latest_failed_certificate_job_since
Safe-latest_failed id types since = record {
  at = λ w h.
      Safe-unless (id == 0 || is_empty types) none _
        (Preserves-statement Sound _ _ (record { at = λ v g. g })) w h;
}

pub Safe-list_certificates : Safe Certificates.list
unfolding Certificates.list
Safe-list_certificates = Preserves-statement Sound _ _ (record { at = λ w h. h })

pub Safe-get_certificate : (id : ℕ) → Safe (Certificates.get id)
unfolding Certificates.get
Safe-get_certificate id = Preserves-statement Sound _ _ (record { at = λ w h. ground arith })

pub Safe-create_certificate : (c : Certificate) → Safe (Certificates.create c)
unfolding Certificates.create
Safe-create_certificate c = Preserves-statement Sound _ _ (record {
  at = λ w h.
      let added = Sound-add_certificate w.db h (Certificates.new_row c w) refl in
      ground (arith, h, added);
})

pub Safe-change :
    (what : Text) (id : ℕ) (f : World → Certificate → Certificate)
    → ((w : World) (c : Certificate) → (f w c).id ≡ c.id)
    → Safe (Certificates.change what id f)
unfolding Certificates.change
Safe-change what id f same = Preserves-statement Sound _ _ (record {
  at = λ w h.
      let kept =
        Sound-map_certificates w.db h (λ c. if c.id == id then f w c else c)
          (λ c. ground (arith, same w c)) in
      ground (arith, h, kept);
})

pub Safe-update_certificate : (c : Certificate) → Safe (Certificates.update c)
unfolding Certificates.update
Safe-update_certificate c =
    Safe-if _ _ _ (Safe-change _ _ _ (λ w x. refl))
      (Preserves-statement Sound _ _ (record { at = λ w h. ground arith }))

pub Safe-mark_issued : (id : ℕ) (a b : Text) (t : Time) → Safe (Certificates.mark_issued id a b t)
unfolding Certificates.mark_issued
Safe-mark_issued id a b t = Safe-change _ id _ (λ w c. refl)

pub Safe-update_status : (id : ℕ) (s : CertificateStatus) → Safe (Certificates.update_status id s)
unfolding Certificates.update_status
Safe-update_status id s = Safe-change _ id _ (λ w c. refl)

pub Safe-delete_certificate : (id : ℕ) → Safe (Certificates.delete id)
unfolding Certificates.delete
Safe-delete_certificate id = Preserves-statement Sound _ _ (record {
  at = λ w h. let deleted = Sound-delete_certificate w.db h id in ground (arith, h, deleted);
})
