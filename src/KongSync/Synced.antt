-- ===== src/KongSync/Synced.antt =====
-- How the sync of one target ends: its job and its link.
use kong_gateway_cert_lite.Prelude.{
  ℕ, suc, List, [], ◌∷◌, ◌++◌, map, true, none, some, ◌≡◌, ◌≢◌, ◌⊎◌, refl, ◌∙◌, ap, arith, any_row,
  any_row-found, find_first, ◌==◌, eq_ℕ, eq_List,
}
use kong_gateway_cert_lite.Domain
use kong_gateway_cert_lite.Domain.{
  Time, Bytes, Certificate, KongTarget, CertificateKongTarget, JobStatus, success, sync,
}
use kong_gateway_cert_lite.World.{World, Database, Result, ok}
use kong_gateway_cert_lite.World.Faults.{NoFaults, statement_of_NoFaults}
use kong_gateway_cert_lite.World.Clock.{ticked, ticked-db}
use kong_gateway_cert_lite.World.Keeps.{SameDb}
use kong_gateway_cert_lite.Sqlite.Links
use kong_gateway_cert_lite.Sqlite.Fresh.{IdsBelow, find_first-fresh, map-updated-fresh}
use kong_gateway_cert_lite.Sqlite.Jobs.{updated}
use kong_gateway_cert_lite.Notification.{Notifier}
use kong_gateway_cert_lite.Notification.Effects.{Keeps-notify_job_result, notify_job_result-ok}
use kong_gateway_cert_lite.Job
use kong_gateway_cert_lite.Job.{JobInput, JobCompleteInput, completed}
use kong_gateway_cert_lite.Job.Effects.{
  row_of, row_of-fields, row_of-target, create_lem, complete_lem, completion-text,
}
use kong_gateway_cert_lite.KongSync.{
  KongCertificateSyncClient, SyncOutcome, push_certificate, sync_job, sync_end, report_sync,
  sync_notice, sync_target,
}
use kong_gateway_cert_lite.KongSync.Push.{Concerns, push-Concerns, Keeps-push}

-- The database after a sync of certificate `c` to target `t` with outcome `o`.
pub record Synced (c : Certificate) (t : KongTarget) (o : SyncOutcome) (db db' : Database)
    : Type 0 where
  pub job : Domain.Job
  pub link : CertificateKongTarget
  pub jobs : db'.jobs ≡ db.jobs ++ job ∷ []
  pub job_id : job.id ≡ suc db.last_job
  pub job_type : job.type ≡ sync
  pub job_certificate : job.certificate_id ≡ some c.id
  pub job_target : job.kong_target_id ≡ some t.id
  pub job_status : job.status ≡ o.status
  pub job_finished : job.finished_at ≢ none
  pub found : find_first (Links.joins c.id t.id) db'.links ≡ some link
  pub sync_status : link.sync_status ≡ o.mapping.sync_status
  pub kong_certificate_id : link.kong_certificate_id ≡ o.mapping.kong_certificate_id
  pub last_error : link.last_error ≡ o.mapping.last_error
  pub others :
      (k u : ℕ)
      → (k ≢ c.id) ⊎ (u ≢ t.id)
      → find_first (Links.joins k u) db'.links ≡ find_first (Links.joins k u) db.links
  pub certificates : db'.certificates ≡ db.certificates
  pub kong_targets : db'.kong_targets ≡ db.kong_targets

-- What a sync of the link `m` needs in order to run through.
pub record MaySync (c : Certificate) (t : KongTarget) (m : CertificateKongTarget) (w : World)
    : Type 0 where
  pub calm : NoFaults w
  pub below : IdsBelow w.db.last_job w.db.jobs
  pub ends : Links.has_ends w c.id t.id ≡ true
  pub of_certificate : m.certificate_id ≡ c.id
  pub of_target : m.kong_target_id ≡ t.id
  pub listed : find_first (Links.joins c.id t.id) w.db.links ≡ some m

find_first-upserted :
    (m : CertificateKongTarget) (w : World) (k u : ℕ) (ls : List CertificateKongTarget)
    (l : CertificateKongTarget)
    → m.certificate_id ≡ k
    → m.kong_target_id ≡ u
    → find_first (Links.joins k u) ls ≡ some l
    → find_first (Links.joins k u) (map (Links.upserted m w) ls) ≡ some (Links.upserted m w l)
find_first-upserted m w k u [] l p q e = cc
find_first-upserted m w k u (x ∷ ls) l p q e = ground (arith, find_first-upserted m w k u ls l p q)

find_first-upserted_ne :
    (m : CertificateKongTarget) (w : World) (k u : ℕ) (ls : List CertificateKongTarget)
    → (k ≢ m.certificate_id) ⊎ (u ≢ m.kong_target_id)
    → find_first (Links.joins k u) (map (Links.upserted m w) ls) ≡ find_first (Links.joins k u) ls
find_first-upserted_ne m w k u [] apart = refl
find_first-upserted_ne m w k u (x ∷ ls) apart =
    ground (arith, find_first-upserted_ne m w k u ls apart)

-- The world in which the sync's job has just been created.
unfoldable pub created : Certificate → KongTarget → World → World
created c t w = record w {
  db = record w.db {
    jobs = w.db.jobs ++ row_of (sync_job c t) w ∷ [];
    last_job = suc w.db.last_job;
  };
}

module _ (client : KongCertificateSyncClient) (notifier : Notifier) (c : Certificate)
    (t : KongTarget) (m : CertificateKongTarget) (files : Result (Bytes × Bytes)) (w : World)
    (may : MaySync c t m w) (o : SyncOutcome)
    (pushes : (push_certificate client notifier c t m files (created c t w)).0 ≡ ok o) where
  abbrev pushed : World
  pushed = (push_certificate client notifier c t m files (created c t w)).1

  pushed-SameDb : SameDb (created c t w) pushed
  pushed-SameDb = (Keeps-push client notifier c t m files).at (created c t w)

  concerns : Concerns m o
  concerns = push-Concerns client notifier c t m files o (created c t w) pushes

  abbrev linked : World
  linked = Links.with_links pushed (map (Links.upserted o.mapping pushed) w.db.links)

  job_created : Job.create (sync_job c t) w ≡ (ok (suc w.db.last_job), created c t w)
  unfolding created
  job_created =
      create_lem (sync_job c t) sync w may.calm refl refl refl (ground (arith, may.ends))
        (ground (arith, may.ends))

  link_stored : Links.upsert_sync_target o.mapping pushed ≡ (ok tt, linked)
  unfolding Links.upsert_sync_target created
  link_stored =
      let same_links : pushed.db.links ≡ w.db.links =
        ap (λ (d : Database). d.links) pushed-SameDb.db in
      let listed : any_row (Links.joins o.mapping.certificate_id o.mapping.kong_target_id)
            pushed.db.links
          ≡ true =
        rw
          (
            same_links, concerns.certificate_id, concerns.kong_target_id, may.of_certificate,
            may.of_target,
          )
          (any_row-found (Links.joins c.id t.id) w.db.links m may.listed) in
      rw (statement_of_NoFaults _ _ pushed (pushed-SameDb.calm may.calm))
        (rw listed (rw same_links refl))

  row_fields :
      ((row_of (sync_job c t) w).id ≡ suc w.db.last_job)
      × ((row_of (sync_job c t) w).type ≡ sync)
      × ((row_of (sync_job c t) w).certificate_id ≡ some c.id)
      × ((row_of (sync_job c t) w).kong_target_id ≡ some t.id)
  row_fields =
      let (id, type, of) = row_of-fields (sync_job c t) sync w refl refl in
      (id, type, of, row_of-target (sync_job c t) w)

  abbrev ending : Domain.Job
  ending =
      updated
        (completed (sync_end (suc w.db.last_job) o) (row_of (sync_job c t) w) o.status
          (ticked linked).clock)
        (row_of (sync_job c t) w)

  abbrev ended_world : World
  ended_world = record (ticked linked) { db = record linked.db { jobs = w.db.jobs ++ ending ∷ [] } }

  job_completed : Job.complete (sync_end (suc w.db.last_job) o) linked ≡ (ok tt, ended_world)
  unfolding created
  job_completed =
      let row = row_of (sync_job c t) w in
      let done = completed (sync_end (suc w.db.last_job) o) row o.status (ticked linked).clock in
      let (id, _, _, _) = row_fields in
      let same_jobs : pushed.db.jobs ≡ w.db.jobs ++ row ∷ [] =
        ap (λ (d : Database). d.jobs) pushed-SameDb.db in
      let after : map (updated done) pushed.db.jobs ≡ w.db.jobs ++ updated done row ∷ [] =
        ap (map (updated done)) same_jobs
        ∙ map-updated-fresh done w.db.last_job w.db.jobs row may.below id in
      let listed : find_first (λ x. x.id == suc w.db.last_job) pushed.db.jobs ≡ some row =
        ap (find_first (λ (x : Domain.Job). x.id == suc w.db.last_job)) same_jobs
        ∙ find_first-fresh w.db.last_job w.db.jobs row may.below id in
      ground (
        arith,
        complete_lem (sync_end (suc w.db.last_job) o) row o.status linked
            (pushed-SameDb.calm may.calm) (omega arith) listed
            (completion-text o.status concerns.ends),
        ticked-db linked,
        after,
      )

  sync_target_lem :
      sync_target client notifier c t m files w
      ≡ report_sync client notifier c t (suc w.db.last_job) o ended_world
  unfolding sync_target
  sync_target_lem =
      let step : push_certificate client notifier c t m files (created c t w) ≡ (ok o, pushed) =
        ground (arith, pushes) in
      rw job_created (rw step (rw link_stored (rw job_completed refl)))

  Synced-ended : Synced c t o w.db ended_world.db
  unfolding created
  Synced-ended =
      let (id, type, of, to) = row_fields in
      let same_c : o.mapping.certificate_id ≡ c.id = concerns.certificate_id ∙ may.of_certificate in
      let same_t : o.mapping.kong_target_id ≡ t.id = concerns.kong_target_id ∙ may.of_target in
      record {
        job = ending;
        link = Links.upserted o.mapping pushed m;
        jobs = refl;
        job_id = ground (arith, id);
        job_type = ground (arith, type);
        job_certificate = ground (arith, of);
        job_target = ground (arith, to);
        job_status = ground (arith, id);
        job_finished = ground (arith, id);
        found =
            find_first-upserted o.mapping pushed c.id t.id w.db.links m same_c same_t may.listed;
        sync_status = ground (arith, concerns.certificate_id, concerns.kong_target_id);
        kong_certificate_id = ground (arith, concerns.certificate_id, concerns.kong_target_id);
        last_error = ground (arith, concerns.certificate_id, concerns.kong_target_id);
        others = λ k u apart.
            find_first-upserted_ne o.mapping pushed k u w.db.links (rw (same_c, same_t) apart);
        certificates = ap (λ (d : Database). d.certificates) pushed-SameDb.db;
        kong_targets = ap (λ (d : Database). d.kong_targets) pushed-SameDb.db;
      }

pub sync_target-Synced :
    (client : KongCertificateSyncClient) (notifier : Notifier) (c : Certificate) (t : KongTarget)
    (m : CertificateKongTarget) (files : Result (Bytes × Bytes)) (w : World)
    → MaySync c t m w
    → (o : SyncOutcome) → (push_certificate client notifier c t m files (created c t w)).0 ≡ ok o
    → ((sync_target client notifier c t m files w).0 ≡ ok tt)
      × Synced c t o w.db (sync_target client notifier c t m files w).1.db
unfolding report_sync
sync_target-Synced client notifier c t m files w may o pushes =
    let ended = ended_world client notifier c t m files w may o pushes in
    let event = sync_notice c t (suc w.db.last_job) o in
    let kept = (Keeps-notify_job_result notifier event).at ended in
    rw (sync_target_lem client notifier c t m files w may o pushes) (
      notify_job_result-ok notifier event ended,
      rw kept.db (Synced-ended client notifier c t m files w may o pushes),
    )
