-- ===== src/Reachable/Changes.antt =====
-- internal/adapter/sqlite: the changes that the statements make to the tables, and the keys.
use kong_gateway_cert_lite.Prelude.{
  suc, List, [], ◌∷◌, ◌++◌, map, Bool, true, some, ◌≡◌, All, All-append, keep, eq_ℕ, inl, inr,
  Bool-cases,
}
use kong_gateway_cert_lite.Domain.{Certificate, KongTarget, CertificateKongTarget, Job}
use kong_gateway_cert_lite.World.{Database}
use kong_gateway_cert_lite.Reachable.Sound.{
  Sound, LinkEnds, JobEnds, of_certificate, of_target, Numbered-append, Numbered-map, Numbered-keep,
  refers-append, refers-map,
}

module _ {A : Type 0} (P Q : A → Type 0) where
  pub All-imply : (f : (a : A) → P a → Q a) (xs : List A) → All P xs → All Q xs
  All-imply f [] h = tt
  All-imply f (x ∷ xs) h = (f x h.0, All-imply f xs h.1)

  pub All-map :
      (g : A → A) (f : (a : A) → P a → Q (g a)) (xs : List A) → All P xs → All Q (map g xs)
  All-map g f [] h = tt
  All-map g f (x ∷ xs) h = (f x h.0, All-map g f xs h.1)

  -- What the kept rows need may rest on why they are kept.
  pub All-keep :
      (p : A → Bool) (f : (a : A) → p a ≡ true → P a → Q a) (xs : List A)
      → All P xs
      → All Q (keep p xs)
  All-keep p f [] h = tt
  All-keep p f (x ∷ xs) h =
      let rest = All-keep p f xs h.1 in
      elim (Bool-cases (p x)) [ inl e ↦ rw e (f x e h.0, rest) | inr e ↦ rw e rest ]

module _ (db : Database) (h : Sound db) where
  pub Sound-add_job :
      (j : Job)
      → j.id ≡ suc db.last_job
      → JobEnds db.certificates db.kong_targets j
      → Sound (record db { jobs = db.jobs ++ j ∷ []; last_job = suc db.last_job })
  Sound-add_job j e ends = record {
    certificates = h.certificates;
    kong_targets = h.kong_targets;
    links = h.links;
    jobs = Numbered-append _ db.last_job db.jobs j h.jobs e;
    link_ends = h.link_ends;
    job_ends = All-append _ db.jobs (j ∷ []) h.job_ends (ends, tt);
  }

  pub Sound-map_jobs :
      (f : Job → Job)
      → ((j : Job) → (f j).id ≡ j.id)
      → ((j : Job)
          → JobEnds db.certificates db.kong_targets j
          → JobEnds db.certificates db.kong_targets (f j))
      → Sound (record db { jobs = map f db.jobs })
  Sound-map_jobs f same ends = record {
    certificates = h.certificates;
    kong_targets = h.kong_targets;
    links = h.links;
    jobs = Numbered-map _ f same db.last_job db.jobs h.jobs;
    link_ends = h.link_ends;
    job_ends = All-map _ _ f ends db.jobs h.job_ends;
  }

  pub Sound-keep_jobs : (p : Job → Bool) → Sound (record db { jobs = keep p db.jobs })
  Sound-keep_jobs p = record {
    certificates = h.certificates;
    kong_targets = h.kong_targets;
    links = h.links;
    jobs = Numbered-keep _ p db.last_job db.jobs h.jobs;
    link_ends = h.link_ends;
    job_ends = All-keep _ _ p (λ j e g. g) db.jobs h.job_ends;
  }

  pub Sound-add_certificate :
      (c : Certificate)
      → c.id ≡ suc db.last_certificate
      → Sound (record db {
        certificates = db.certificates ++ c ∷ [];
        last_certificate = suc db.last_certificate;
      })
  Sound-add_certificate c e = record {
    certificates = Numbered-append _ db.last_certificate db.certificates c h.certificates e;
    kong_targets = h.kong_targets;
    links = h.links;
    jobs = h.jobs;
    link_ends =
        All-imply _ _
          (λ l g. (refers-append of_certificate db.certificates c (some l.certificate_id) g.0, g.1))
          db.links h.link_ends;
    job_ends =
        All-imply _ _
          (λ j g. (refers-append of_certificate db.certificates c j.certificate_id g.0, g.1))
          db.jobs h.job_ends;
  }

  pub Sound-map_certificates :
      (f : Certificate → Certificate)
      → ((c : Certificate) → (f c).id ≡ c.id)
      → Sound (record db { certificates = map f db.certificates })
  Sound-map_certificates f same = record {
    certificates = Numbered-map _ f same db.last_certificate db.certificates h.certificates;
    kong_targets = h.kong_targets;
    links = h.links;
    jobs = h.jobs;
    link_ends =
        All-imply _ _
          (λ l g. (
            rw (refers-map of_certificate f same db.certificates (some l.certificate_id)) g.0,
            g.1,
          ))
          db.links h.link_ends;
    job_ends =
        All-imply _ _
          (λ j g. (rw (refers-map of_certificate f same db.certificates j.certificate_id) g.0, g.1))
          db.jobs h.job_ends;
  }

  pub Sound-add_target :
      (t : KongTarget)
      → t.id ≡ suc db.last_kong_target
      → Sound (record db {
        kong_targets = db.kong_targets ++ t ∷ [];
        last_kong_target = suc db.last_kong_target;
      })
  Sound-add_target t e = record {
    certificates = h.certificates;
    kong_targets = Numbered-append _ db.last_kong_target db.kong_targets t h.kong_targets e;
    links = h.links;
    jobs = h.jobs;
    link_ends =
        All-imply _ _
          (λ l g. (g.0, refers-append of_target db.kong_targets t (some l.kong_target_id) g.1))
          db.links h.link_ends;
    job_ends =
        All-imply _ _ (λ j g. (g.0, refers-append of_target db.kong_targets t j.kong_target_id g.1))
          db.jobs h.job_ends;
  }

  pub Sound-map_targets :
      (f : KongTarget → KongTarget)
      → ((t : KongTarget) → (f t).id ≡ t.id)
      → Sound (record db { kong_targets = map f db.kong_targets })
  Sound-map_targets f same = record {
    certificates = h.certificates;
    kong_targets = Numbered-map _ f same db.last_kong_target db.kong_targets h.kong_targets;
    links = h.links;
    jobs = h.jobs;
    link_ends =
        All-imply _ _
          (λ l g.
            (g.0, rw (refers-map of_target f same db.kong_targets (some l.kong_target_id)) g.1))
          db.links h.link_ends;
    job_ends =
        All-imply _ _
          (λ j g. (g.0, rw (refers-map of_target f same db.kong_targets j.kong_target_id) g.1))
          db.jobs h.job_ends;
  }

  pub Sound-add_link :
      (l : CertificateKongTarget)
      → l.id ≡ suc db.last_link
      → LinkEnds db.certificates db.kong_targets l
      → Sound (record db { links = db.links ++ l ∷ []; last_link = suc db.last_link })
  Sound-add_link l e ends = record {
    certificates = h.certificates;
    kong_targets = h.kong_targets;
    links = Numbered-append _ db.last_link db.links l h.links e;
    jobs = h.jobs;
    link_ends = All-append _ db.links (l ∷ []) h.link_ends (ends, tt);
    job_ends = h.job_ends;
  }

  pub Sound-map_links :
      (f : CertificateKongTarget → CertificateKongTarget)
      → ((l : CertificateKongTarget) → (f l).id ≡ l.id)
      → ((l : CertificateKongTarget)
          → LinkEnds db.certificates db.kong_targets l
          → LinkEnds db.certificates db.kong_targets (f l))
      → Sound (record db { links = map f db.links })
  Sound-map_links f same ends = record {
    certificates = h.certificates;
    kong_targets = h.kong_targets;
    links = Numbered-map _ f same db.last_link db.links h.links;
    jobs = h.jobs;
    link_ends = All-map _ _ f ends db.links h.link_ends;
    job_ends = h.job_ends;
  }

  pub Sound-keep_links :
      (p : CertificateKongTarget → Bool) → Sound (record db { links = keep p db.links })
  Sound-keep_links p = record {
    certificates = h.certificates;
    kong_targets = h.kong_targets;
    links = Numbered-keep _ p db.last_link db.links h.links;
    jobs = h.jobs;
    link_ends = All-keep _ _ p (λ l e g. g) db.links h.link_ends;
    job_ends = h.job_ends;
  }
