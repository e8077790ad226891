-- ===== src/Web/Certificates.antt =====
-- internal/web/handler.go: the pages and the forms of certificates.
use kong_gateway_cert_lite.Prelude.{
  ℕ, List, [], ◌∷◌, Bool, true, false, Option, none, some, String, if◌then◌else◌, eq_ℕ, find_first,
  length, map,
}
use kong_gateway_cert_lite.Prelude.Int.{pos}
use kong_gateway_cert_lite.Text.{Text, lit, join}
use kong_gateway_cert_lite.Domain.{Error, is_not_found}
use kong_gateway_cert_lite.World.{M, pure, ◌>>=◌}
use kong_gateway_cert_lite.Sqlite.Jobs
use kong_gateway_cert_lite.Certificate
use kong_gateway_cert_lite.Acme
use kong_gateway_cert_lite.Views.Job as JobViews
use kong_gateway_cert_lite.Views.Job.{JobView}
use kong_gateway_cert_lite.Views.Certificate as CertificateViews
use kong_gateway_cert_lite.Views.Certificate.{CertificateView}
use kong_gateway_cert_lite.Web.Pages.{
  Page, zero_page, CertificateFormData, certificate_list, certificate_form, certificate_detail,
}
use kong_gateway_cert_lite.Web.Answer.{
  Handler, Request, Answer, redirect, page, untouched, status_ok, status_found,
  unprocessable_entity, bad_request, new_error, server_error, as_validation, not_found_or_error,
  err_not_found, handle, with_id, certificate_path,
}
use kong_gateway_cert_lite.Web.Flash.{page_data, read_flash, redirect_with_flash}
use kong_gateway_cert_lite.Web.Forms.{
  certificate_form_from_request, certificate_input_from_form, certificate_locked_for_edit,
  parse_selected_target_ids,
}
use kong_gateway_cert_lite.Web.Filters.{certificate_filters_from_request, filter_certificates}

unfoldable pub home : Answer
home = record { body = redirect status_found (lit "/certificates"); cookie = untouched }

unfoldable pub domains_help_text : Bool → Text
domains_help_text locked =
    if locked
    then lit "Domains are locked after the certificate has been issued."
    else lit "One domain per line. The first domain becomes the primary domain."

unfoldable pub snis_help_text : Bool → Text
snis_help_text locked =
    if locked
    then lit "SNI values are locked after the certificate has been issued."
    else lit "Leave aligned with domains for normal Kong certificate sync."

abbrev form_title : Bool → Text
form_title is_edit = if is_edit then lit "Edit certificate" else lit "Add certificate"

-- The form of `NewCertificate`.
abbrev new_form : CertificateFormData
new_form = record {
  id = 0;
  name = [];
  email = [];
  domains_text = [];
  snis_text = [];
  auto_renew = true;
  renew_before_days = pos 30;
}

-- The form that `EditCertificate` fills from the stored certificate.
unfoldable pub edit_form : CertificateView → CertificateFormData
edit_form view = record {
  id = view.certificate.id;
  name = view.certificate.name;
  email = view.certificate.email;
  domains_text = join (lit "\n") view.certificate.domains;
  snis_text = join (lit "\n") view.certificate.snis;
  auto_renew = view.certificate.auto_renew;
  renew_before_days = view.certificate.renew_before_days;
}

-- The first job of the list, the latest one, that names the certificate.
unfoldable pub latest_certificate_job : ℕ → M (Option JobView)
latest_certificate_job certificate_id = do
  jobs ← JobViews.list
  pure (find_first (λ (v : JobView). Jobs.belongs_to certificate_id v.job) jobs)

module _ (h : Handler) where
  -- A page with the cookie that reading the flash message leaves.
  abbrev pub render : Request → ℕ → Page → Answer
  render req status p = record { body = page status p; cookie = (read_flash h req.flash_cookie).1 }

  unfoldable pub render_certificate_form :
      Request → ℕ → CertificateFormData → List (String × String) → Bool → Bool → Answer
  render_certificate_form req status form errors is_edit lock = render req status (
      certificate_form (record {
        page = page_data h req (record zero_page {
          title = form_title is_edit;
          active = lit "certificates";
          heading = form_title is_edit;
          description =
              if is_edit
              then lit "Update editable metadata and renewal policy."
              else lit "Create metadata before issuing and syncing.";
          primary_action = lit "Back";
          action_href = lit "/certificates";
          action_class = lit "btn btn-outline-secondary";
        });
        form = form;
        errors = errors;
        is_edit = is_edit;
        action = if is_edit then certificate_path form.id else lit "/certificates";
        domains_and_sni_lock = lock;
        domains_help_text = domains_help_text lock;
        snis_help_text = snis_help_text lock;
      }))

  unfoldable pub certificates : Request → M Answer
  certificates req = handle CertificateViews.list server_error λ views.
      let filters = certificate_filters_from_request req in
      pure (
        render req status_ok (
          certificate_list (record {
            page = page_data h req (record zero_page {
              title = lit "Certificates";
              active = lit "certificates";
              heading = lit "Certificates";
              description = lit "TLS coverage, expiry, and Kong sync readiness.";
              primary_action = lit "Add certificate";
              action_href = lit "/certificates/new";
              action_class = lit "btn btn-success";
              columns =
                  map lit ("Certificate" ∷ "SNI" ∷ "Lifecycle" ∷ "Kong sync" ∷ "Actions" ∷ []);
              empty_title = lit "No certificates";
              empty_text =
                  lit
                    "Create the first certificate record to begin tracking expiry and Kong sync state.";
            });
            certificates = filter_certificates h.unicode views filters;
            filters = filters;
            total_count = length views;
          })))

  unfoldable pub new_certificate : Request → M Answer
  new_certificate req = pure (render_certificate_form req status_ok new_form [] false false)

  -- A refused form is shown again with the reasons.
  abbrev form_again : Request → CertificateFormData → Bool → Bool → Answer → Error → Answer
  form_again req form is_edit lock otherwise e = elim (as_validation e) [
    | some fields ↦ render_certificate_form req unprocessable_entity form fields is_edit lock
    | none ↦ otherwise
  ]

  unfoldable pub create_certificate : Request → M Answer
  create_certificate req =
      let form = certificate_form_from_request req 0 in
      handle (Certificate.create h.parse_address (certificate_input_from_form form))
        (λ e. form_again req form false false (server_error e) e)
        λ id. pure (
          redirect_with_flash h (certificate_path id) (lit "success")
            (lit "Certificate metadata created."))

  unfoldable pub edit_certificate : Request → M Answer
  edit_certificate req = with_id (req.params (lit "id")) λ id.
      handle (CertificateViews.get h.unicode id) not_found_or_error λ view. pure (
        render_certificate_form req status_ok (edit_form view) [] true
          (certificate_locked_for_edit view.certificate))

  unfoldable pub update_certificate : Request → M Answer
  update_certificate req = with_id (req.params (lit "id")) λ id.
      let form = certificate_form_from_request req id in
      handle (CertificateViews.get h.unicode id) not_found_or_error λ view.
        handle (Certificate.update h.parse_address (certificate_input_from_form form) id)
          (λ e.
            form_again req form true (certificate_locked_for_edit view.certificate)
              (not_found_or_error e) e)
          λ _. pure (
            redirect_with_flash h (certificate_path id) (lit "success")
              (lit "Certificate metadata updated."))

  unfoldable pub certificate_detail_page : Request → M Answer
  certificate_detail_page req = with_id (req.params (lit "id")) λ id.
      handle (CertificateViews.get h.unicode id) not_found_or_error λ view.
        handle (latest_certificate_job id) server_error λ job.
          handle (Acme.operation_state id) server_error λ state. pure (
            render req status_ok (
              certificate_detail (record {
                page = page_data h req (record zero_page {
                  title = view.certificate.name;
                  active = lit "certificates";
                  heading = view.certificate.name;
                  description = lit "Certificate coverage, workflow, and linked Kong targets.";
                  primary_action = lit "Renew now";
                });
                certificate = view;
                latest_job = job;
                acme_operation = state;
                acme_action_disabled = state.is_blocked;
              })))

  unfoldable pub delete_certificate : Request → M Answer
  delete_certificate req = with_id (req.params (lit "id")) λ id.
      handle (Certificate.delete id) not_found_or_error λ _.
        pure
          (redirect_with_flash h (lit "/certificates") (lit "success") (lit "Certificate deleted."))

  abbrev targets_refused : Error → Answer
  targets_refused e = if is_not_found e then err_not_found else elim (as_validation e) [
    | some fields ↦ new_error bad_request (lit "validation failed")
    | none ↦ server_error e
  ]

  unfoldable pub update_certificate_targets : Request → M Answer
  update_certificate_targets req = with_id (req.params (lit "id")) λ id.
      elim (h.parse_query req.body) [
        | none ↦ pure (new_error bad_request (lit "invalid form data"))
        | some values ↦ elim (parse_selected_target_ids (values (lit "kong_target_ids"))) [
          | none ↦ pure (new_error bad_request (lit "invalid Kong target selection"))
          | some ids ↦ handle (Certificate.update_linked_targets id ids) targets_refused λ _. pure (
              redirect_with_flash h (certificate_path id) (lit "success")
                (lit "Linked Kong targets updated."))
        ]
      ]
