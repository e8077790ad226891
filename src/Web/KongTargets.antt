-- ===== src/Web/KongTargets.antt =====
-- internal/web/handler.go: the pages, the forms and the test of Kong targets.
use kong_gateway_cert_lite.Prelude.{
  ℕ, List, [], ◌∷◌, ◌++◌, Bool, true, false, not, none, some, String, if◌then◌else◌, is_empty,
  length, map,
}
use kong_gateway_cert_lite.Text.{Text, lit}
use kong_gateway_cert_lite.Text.Number.{decimal}
use kong_gateway_cert_lite.Domain.{KongTargetStatus, Error}
use kong_gateway_cert_lite.World.{M, Result, ok, err, pure, ◌>>=◌, attempt}
use kong_gateway_cert_lite.KongTarget
use kong_gateway_cert_lite.Views.Status.{auth_type_text}
use kong_gateway_cert_lite.Views.KongTarget as KongTargetViews
use kong_gateway_cert_lite.Views.KongTarget.{KongTargetView}
use kong_gateway_cert_lite.Web.Pages.{
  zero_page, KongTargetFormData, kong_target_list, kong_target_form,
}
use kong_gateway_cert_lite.Web.Answer.{
  Handler, Request, Answer, status_ok, unprocessable_entity, server_error, as_validation,
  not_found_or_error, handle, with_id,
}
use kong_gateway_cert_lite.Web.Flash.{page_data, redirect_with_flash}
use kong_gateway_cert_lite.Web.Forms.{kong_target_form_from_request, kong_target_input_from_form}
use kong_gateway_cert_lite.Web.Filters.{kong_target_filters_from_request, filter_kong_targets}
use kong_gateway_cert_lite.Web.Certificates.{render}

abbrev form_title : Bool → Text
form_title is_edit = if is_edit then lit "Edit Kong target" else lit "Add Kong target"

-- The form of `NewKongTarget`.
abbrev new_form : KongTargetFormData
new_form = record {
  id = 0;
  name = [];
  environment = [];
  admin_url = [];
  auth_type = lit "none";
  auth_header_name = [];
  auth_header_value = [];
  has_secret = false;
}

-- The form that `EditKongTarget` fills; the secret itself stays out of it.
unfoldable pub edit_form : KongTargetView → KongTargetFormData
edit_form view = record {
  id = view.target.id;
  name = view.target.name;
  environment = view.target.environment;
  admin_url = view.target.admin_url;
  auth_type = auth_type_text view.target.auth_type;
  auth_header_name = view.target.auth_header_name;
  auth_header_value = [];
  has_secret = not (is_empty view.target.auth_header_value);
}

abbrev is_offline : KongTargetStatus → Bool
is_offline KongTargetStatus.offline = true
is_offline _ = false

unfoldable pub test_verdict : Result KongTargetView → Text × Text
test_verdict (err e) = (lit "success", lit "Kong connectivity test passed.")
test_verdict (ok view) =
    if is_offline view.target.status
    then (lit "danger", lit "Kong connectivity test failed. Review target health and job logs.")
    else (lit "success", lit "Kong connectivity test passed.")

module _ (h : Handler) where
  unfoldable pub render_kong_target_form :
      Request → ℕ → KongTargetFormData → List (String × String) → Bool → Answer
  render_kong_target_form req status form errors is_edit = render h req status (
      kong_target_form (record {
        page = page_data h req (record zero_page {
          title = form_title is_edit;
          active = lit "kong-targets";
          heading = form_title is_edit;
          description =
              if is_edit
              then lit "Update Kong target metadata and auth settings."
              else lit "Add a Kong Admin API endpoint for sync.";
          primary_action = lit "Back";
          action_href = lit "/kong-targets";
          action_class = lit "btn btn-outline-secondary";
        });
        form = form;
        errors = errors;
        is_edit = is_edit;
        action = if is_edit then lit "/kong-targets/" ++ decimal form.id else lit "/kong-targets";
      }))

  unfoldable pub kong_targets : Request → M Answer
  kong_targets req = handle KongTargetViews.list server_error λ views.
      let filters = kong_target_filters_from_request req in
      pure (
        render h req status_ok (
          kong_target_list (record {
            page = page_data h req (record zero_page {
              title = lit "Kong targets";
              active = lit "kong-targets";
              heading = lit "Kong targets";
              description = lit "Kong Admin API endpoints used for certificate sync.";
              primary_action = lit "Add target";
              action_href = lit "/kong-targets/new";
              action_class = lit "btn btn-success";
              columns = map lit ("Target" ∷ "Environment" ∷ "Health" ∷ "Auth" ∷ "Actions" ∷ []);
              empty_title = lit "No Kong targets";
              empty_text = lit "Add a target before syncing certificates to Kong Gateway.";
            });
            targets = filter_kong_targets h.unicode views filters;
            filters = filters;
            total_count = length views;
          })))

  unfoldable pub new_kong_target : Request → M Answer
  new_kong_target req = pure (render_kong_target_form req status_ok new_form [] false)

  abbrev form_again : Request → KongTargetFormData → Bool → Answer → Error → Answer
  form_again req form is_edit otherwise e = elim (as_validation e) [
    | some fields ↦ render_kong_target_form req unprocessable_entity form fields is_edit
    | none ↦ otherwise
  ]

  abbrev to_targets : Text × Text → Answer
  to_targets verdict = redirect_with_flash h (lit "/kong-targets") verdict.0 verdict.1

  unfoldable pub create_kong_target : Request → M Answer
  create_kong_target req =
      let form = kong_target_form_from_request req 0 in
      handle (KongTarget.create h.parse_uri (kong_target_input_from_form form))
        (λ e. form_again req form false (server_error e) e)
        λ _. pure (to_targets (lit "success", lit "Kong target created."))

  unfoldable pub edit_kong_target : Request → M Answer
  edit_kong_target req = with_id (req.params (lit "id")) λ id.
      handle (KongTargetViews.get id) not_found_or_error
        λ view. pure (render_kong_target_form req status_ok (edit_form view) [] true)

  unfoldable pub update_kong_target : Request → M Answer
  update_kong_target req = with_id (req.params (lit "id")) λ id.
      let form = kong_target_form_from_request req id in
      handle (KongTarget.update h.parse_uri (kong_target_input_from_form form))
        (λ e. form_again req form true (not_found_or_error e) e)
        λ _. pure (to_targets (lit "success", lit "Kong target updated."))

  unfoldable pub delete_kong_target : Request → M Answer
  delete_kong_target req = with_id (req.params (lit "id")) λ id.
      handle (KongTarget.delete id) not_found_or_error
        λ _. pure (to_targets (lit "success", lit "Kong target deleted."))

  unfoldable pub test_kong_target : Request → M Answer
  test_kong_target req = with_id (req.params (lit "id")) λ id.
      handle (KongTarget.test_connection h.tester h.notifier id) not_found_or_error
        λ _. do view ← attempt (KongTargetViews.get id); pure (to_targets (test_verdict view))
