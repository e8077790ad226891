-- ===== src/Reachable/Handlers.antt =====
-- internal/web/handler.go: each handler keeps the keys of the tables in order.
use kong_gateway_cert_lite.Prelude.{ℕ, List, [], ◌∷◌, Option, none, some, inl, inr, Option-cases}
use kong_gateway_cert_lite.Text.{Text, lit}
use kong_gateway_cert_lite.Text.Number.{parse_id}
use kong_gateway_cert_lite.Domain.{Certificate, Error, Time}
use kong_gateway_cert_lite.World.{M}
use kong_gateway_cert_lite.World.Preserves.{Preserves-pure, Preserves-bind}
use kong_gateway_cert_lite.Job
use kong_gateway_cert_lite.Views.Job as JobViews
use kong_gateway_cert_lite.Views.KongTarget as KongTargetViews
use kong_gateway_cert_lite.Views.Certificate as CertificateViews
use kong_gateway_cert_lite.Web.Answer.{
  Handler, Request, Answer, handle, with_id, or_missing, or_answer, err_not_found,
}
use kong_gateway_cert_lite.Web.Certificates
use kong_gateway_cert_lite.Web.Actions
use kong_gateway_cert_lite.Web.Actions.{Verdict, conclude}
use kong_gateway_cert_lite.Web.KongTargets
use kong_gateway_cert_lite.Web.Jobs
use kong_gateway_cert_lite.Web.Forms.{parse_selected_target_ids}
use kong_gateway_cert_lite.Reachable.Sound.{Sound}
use kong_gateway_cert_lite.Reachable.Tables.{
  Safe, Safe-get_certificate, Safe-list_certificates, Safe-list_jobs, Safe-get_job,
  Safe-delete_completed,
}
use kong_gateway_cert_lite.Reachable.Targets.{
  Safe-list_for_certificate, Safe-list_sync_targets, Safe-count_linked, Safe-list_targets,
  Safe-get_target,
}
use kong_gateway_cert_lite.Reachable.UseCases.{
  safe_rules, Safe-attempted, Safe-create, Safe-update, Safe-delete, Safe-update_linked_targets,
  Safe-create_kong_target, Safe-update_kong_target, Safe-delete_kong_target, Safe-test_connection,
}
use kong_gateway_cert_lite.Reachable.Syncs.{Safe-sync_certificate, Safe-sync_certificate_target}
use kong_gateway_cert_lite.Reachable.Renewals.{
  Safe-operation_state, Safe-issue_certificate, Safe-renew_certificate,
}

Safe-view_until : (c : Certificate) (e : Option Time) → Safe (CertificateViews.view_until c e)
unfolding CertificateViews.view_until
Safe-view_until c none = search safe_rules
Safe-view_until c (some t) = search safe_rules

Safe-build_view : (c : Certificate) → Safe (CertificateViews.build_certificate_view c)
unfolding CertificateViews.build_certificate_view
Safe-build_view c = Safe-view_until c c.expires_at

Safe-build_all :
    (counts : ℕ → ℕ) (cs : List Certificate) → Safe (CertificateViews.build_all counts cs)
unfolding CertificateViews.build_all
Safe-build_all counts [] = Preserves-pure Sound []
Safe-build_all counts (c ∷ cs) = Preserves-bind Sound _ _ (Safe-build_view c) (λ view.
    Preserves-bind Sound _ _ (Safe-build_all counts cs)
      (λ views. Preserves-pure Sound (record view { linked_target_count = counts c.id } ∷ views)))

Safe-certificate_list : Safe CertificateViews.list
unfolding CertificateViews.list
Safe-certificate_list =
    search (safe_rules, Safe-list_certificates, Safe-count_linked, Safe-build_all)

Safe-job_list : Safe JobViews.list
unfolding JobViews.list
Safe-job_list = search (safe_rules, Safe-list_jobs)

Safe-job_view : (id : ℕ) → Safe (JobViews.get id)
unfolding JobViews.get
Safe-job_view id = search (safe_rules, Safe-get_job)

Safe-target_list : Safe KongTargetViews.list
unfolding KongTargetViews.list
Safe-target_list = search (safe_rules, Safe-list_targets)

Safe-target_view : (id : ℕ) → Safe (KongTargetViews.get id)
unfolding KongTargetViews.get
Safe-target_view id = search (safe_rules, Safe-get_target)

Safe-latest_job : (id : ℕ) → Safe (Certificates.latest_certificate_job id)
unfolding Certificates.latest_certificate_job
Safe-latest_job id = search (safe_rules, Safe-job_list)

Safe-handle :
    {A : Type 0} (m : M A) (refusal : Error → Answer) (rest : A → M Answer)
    → Safe m
    → ((a : A) → Safe (rest a))
    → Safe (handle m refusal rest)
Safe-handle m refusal rest k p =
    Safe-attempted m (or_answer refusal rest) k p (λ e. Preserves-pure Sound (refusal e))

Safe-with_id :
    (value : Text) (rest : ℕ → M Answer) → ((id : ℕ) → Safe (rest id)) → Safe (with_id value rest)
Safe-with_id value rest p = given (parse_id value)
  where
    given : (o : Option ℕ) → Safe (or_missing rest o)
    given none = Preserves-pure Sound err_not_found
    given (some id) = p id

ruleset answer_rules = (safe_rules, Safe-handle, Safe-with_id)

module _ (h : Handler) where
  Safe-certificate_view : (id : ℕ) → Safe (CertificateViews.get h.unicode id)
  unfolding CertificateViews.get
  Safe-certificate_view id = search (
    safe_rules, Safe-get_certificate, Safe-list_for_certificate, Safe-list_sync_targets,
    Safe-build_view,
  )

  module _ (req : Request) where
    pub Safe-certificates : Safe (Certificates.certificates h req)
    unfolding Certificates.certificates
    Safe-certificates = search (answer_rules, Safe-certificate_list)

    pub Safe-new_certificate : Safe (Certificates.new_certificate h req)
    unfolding Certificates.new_certificate
    Safe-new_certificate = Preserves-pure Sound _

    pub Safe-create_certificate_form : Safe (Certificates.create_certificate h req)
    unfolding Certificates.create_certificate
    Safe-create_certificate_form = search (answer_rules, Safe-create)

    pub Safe-edit_certificate : Safe (Certificates.edit_certificate h req)
    unfolding Certificates.edit_certificate
    Safe-edit_certificate = search (answer_rules, Safe-certificate_view)

    pub Safe-update_certificate_form : Safe (Certificates.update_certificate h req)
    unfolding Certificates.update_certificate
    Safe-update_certificate_form = search (answer_rules, Safe-certificate_view, Safe-update)

    pub Safe-detail_page : Safe (Certificates.certificate_detail_page h req)
    unfolding Certificates.certificate_detail_page
    Safe-detail_page =
        search (answer_rules, Safe-certificate_view, Safe-latest_job, Safe-operation_state)

    pub Safe-delete_certificate_form : Safe (Certificates.delete_certificate h req)
    unfolding Certificates.delete_certificate
    Safe-delete_certificate_form = search (answer_rules, Safe-delete)

    pub Safe-targets_form : Safe (Certificates.update_certificate_targets h req)
    unfolding Certificates.update_certificate_targets
    Safe-targets_form = Safe-with_id _ _ (λ id. elim (Option-cases (h.parse_query req.body)) [
      | inl q ↦ rw q (Preserves-pure Sound _)
      | inr (values, q) ↦
          rw q (elim (Option-cases (parse_selected_target_ids (values (lit "kong_target_ids")))) [
            | inl r ↦ rw r (Preserves-pure Sound _)
            | inr (ids, r) ↦ rw r (search (answer_rules, Safe-update_linked_targets))
          ])
    ])

    pub Safe-kong_targets : Safe (KongTargets.kong_targets h req)
    unfolding KongTargets.kong_targets
    Safe-kong_targets = search (answer_rules, Safe-target_list)

    pub Safe-new_kong_target : Safe (KongTargets.new_kong_target h req)
    unfolding KongTargets.new_kong_target
    Safe-new_kong_target = Preserves-pure Sound _

    pub Safe-create_kong_target_form : Safe (KongTargets.create_kong_target h req)
    unfolding KongTargets.create_kong_target
    Safe-create_kong_target_form = search (answer_rules, Safe-create_kong_target)

    pub Safe-edit_kong_target : Safe (KongTargets.edit_kong_target h req)
    unfolding KongTargets.edit_kong_target
    Safe-edit_kong_target = search (answer_rules, Safe-target_view)

    pub Safe-update_kong_target_form : Safe (KongTargets.update_kong_target h req)
    unfolding KongTargets.update_kong_target
    Safe-update_kong_target_form = search (answer_rules, Safe-update_kong_target)

    pub Safe-delete_kong_target_form : Safe (KongTargets.delete_kong_target h req)
    unfolding KongTargets.delete_kong_target
    Safe-delete_kong_target_form = search (answer_rules, Safe-delete_kong_target)

    pub Safe-test_kong_target : Safe (KongTargets.test_kong_target h req)
    unfolding KongTargets.test_kong_target
    Safe-test_kong_target = search (answer_rules, Safe-test_connection, Safe-target_view)

    pub Safe-jobs : Safe (Jobs.jobs h req)
    unfolding Jobs.jobs
    Safe-jobs = search (answer_rules, Safe-job_list)

    pub Safe-clear_jobs : Safe (Jobs.clear_jobs h req)
    unfolding Jobs.clear_jobs Job.clear_completed
    Safe-clear_jobs = search (answer_rules, Safe-delete_completed)

    pub Safe-job_detail_page : Safe (Jobs.job_detail_page h req)
    unfolding Jobs.job_detail_page
    Safe-job_detail_page = search (answer_rules, Safe-job_view)

    pub Safe-issue : Safe (Actions.issue_certificate h req)
    unfolding Actions.issue_certificate
    Safe-issue = search (answer_rules, Safe-issue_certificate, Safe-certificate_view)

    pub Safe-renew : Safe (Actions.renew_certificate h req)
    unfolding Actions.renew_certificate
    Safe-renew = search (answer_rules, Safe-renew_certificate, Safe-certificate_view)

    pub Safe-sync : Safe (Actions.sync_certificate h req)
    unfolding Actions.sync_certificate
    Safe-sync = search (answer_rules, Safe-sync_certificate, Safe-certificate_view)

    pub Safe-sync_one : Safe (Actions.sync_certificate_target h req)
    unfolding Actions.sync_certificate_target
    Safe-sync_one =
        search (answer_rules, Safe-sync_certificate_target, Safe-certificate_view) depth 9
