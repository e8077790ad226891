-- ===== src/Reachable/Deletes.antt =====
-- internal/adapter/sqlite: a deleted row takes its links with it, and the jobs forget it.
use kong_gateway_cert_lite.Prelude.{
  ℕ, map, not, arith, keep, ◌==◌, eq_ℕ, inl, inr, Bool-cases, Option-cases,
}
use kong_gateway_cert_lite.Domain.{Certificate, KongTarget, CertificateKongTarget, Job}
use kong_gateway_cert_lite.World.{Database}
use kong_gateway_cert_lite.Sqlite.Certificates.{forget_certificate}
use kong_gateway_cert_lite.Sqlite.KongTargets.{forget_target}
use kong_gateway_cert_lite.Reachable.Sound.{
  Sound, JobEnds, of_certificate, of_target, Numbered-map, Numbered-keep, refers-keep,
}
use kong_gateway_cert_lite.Reachable.Changes.{All-map, All-keep}

module _ (db : Database) (h : Sound db) where
  pub Sound-delete_certificate :
      (id : ℕ)
      → Sound (record db {
        certificates = keep (λ (a : Certificate). not (a.id == id)) db.certificates;
        links = keep (λ (l : CertificateKongTarget). not (l.certificate_id == id)) db.links;
        jobs = map (forget_certificate id) db.jobs;
      })
  Sound-delete_certificate id = record {
    certificates = Numbered-keep _ _ db.last_certificate db.certificates h.certificates;
    kong_targets = h.kong_targets;
    links = Numbered-keep _ _ db.last_link db.links h.links;
    jobs = Numbered-map _ (forget_certificate id) (λ j. ground arith) db.last_job db.jobs h.jobs;
    link_ends =
        All-keep _ _ _
          (λ l e g. (
            refers-keep of_certificate id db.certificates l.certificate_id (ground (arith, e)) g.0,
            g.1,
          ))
          db.links h.link_ends;
    job_ends = All-map _ _ (forget_certificate id) (forgets id) db.jobs h.job_ends;
  }
    where
      forgets :
          (id : ℕ) (j : Job)
          → JobEnds db.certificates db.kong_targets j
          → JobEnds
              (keep (λ (a : Certificate). not (a.id == id)) db.certificates)
              db.kong_targets
              (forget_certificate id j)
      forgets id j g = elim (Option-cases j.certificate_id) [
        | inl q ↦ rw q (ground (arith, g))
        | inr (k, q) ↦ elim (Bool-cases (k == id)) [
          | inl e ↦ rw q (rw e (ground (arith, g)))
          | inr e ↦
              rw q (rw e (ground (arith, g, q, refers-keep of_certificate id db.certificates k e)))
        ]
      ]

  pub Sound-delete_target :
      (id : ℕ)
      → Sound (record db {
        kong_targets = keep (λ (a : KongTarget). not (a.id == id)) db.kong_targets;
        links = keep (λ (l : CertificateKongTarget). not (l.kong_target_id == id)) db.links;
        jobs = map (forget_target id) db.jobs;
      })
  Sound-delete_target id = record {
    kong_targets = Numbered-keep _ _ db.last_kong_target db.kong_targets h.kong_targets;
    certificates = h.certificates;
    links = Numbered-keep _ _ db.last_link db.links h.links;
    jobs = Numbered-map _ (forget_target id) (λ j. ground arith) db.last_job db.jobs h.jobs;
    link_ends =
        All-keep _ _ _
          (λ l e g. (
            g.0,
            refers-keep of_target id db.kong_targets l.kong_target_id (ground (arith, e)) g.1,
          ))
          db.links h.link_ends;
    job_ends = All-map _ _ (forget_target id) (forgets id) db.jobs h.job_ends;
  }
    where
      forgets :
          (id : ℕ) (j : Job)
          → JobEnds db.certificates db.kong_targets j
          → JobEnds db.certificates
              (keep (λ (a : KongTarget). not (a.id == id)) db.kong_targets)
              (forget_target id j)
      forgets id j g = elim (Option-cases j.kong_target_id) [
        | inl q ↦ rw q (ground (arith, g))
        | inr (k, q) ↦ elim (Bool-cases (k == id)) [
          | inl e ↦ rw q (rw e (ground (arith, g)))
          | inr e ↦ rw q (rw e (ground (arith, g, q, refers-keep of_target id db.kong_targets k e)))
        ]
      ]
