-- ===== src/Web/Forms.antt =====
-- internal/web/handler.go: what the handlers read from forms.
use kong_gateway_cert_lite.Prelude.{
  ℕ, List, [], ◌∷◌, Bool, ◌||◌, not, Option, none, some, if◌then◌else◌, ◌==◌, eq_ℕ, eq_List,
  is_empty,
}
use kong_gateway_cert_lite.Text.{Text, lit, trim_space, is_blank}
use kong_gateway_cert_lite.Text.Number.{atoi_value, parse_id}
use kong_gateway_cert_lite.Domain.{Certificate}
use kong_gateway_cert_lite.Certificate.{CertificateInput, has_end}
use kong_gateway_cert_lite.KongTarget.{KongTargetInput}
use kong_gateway_cert_lite.Web.Pages.{CertificateFormData, KongTargetFormData}
use kong_gateway_cert_lite.Web.Answer.{Request}

unfoldable pub certificate_form_from_request : Request → ℕ → CertificateFormData
certificate_form_from_request req id = record {
  id = id;
  name = req.form_value (lit "name");
  email = req.form_value (lit "email");
  domains_text = req.form_value (lit "domains");
  snis_text = req.form_value (lit "snis");
  auto_renew = req.form_value (lit "auto_renew") == lit "on";
  renew_before_days = atoi_value (trim_space (req.form_value (lit "renew_before_days")));
}

unfoldable pub certificate_input_from_form : CertificateFormData → CertificateInput
certificate_input_from_form form = record {
  name = form.name;
  email = form.email;
  domains_text = form.domains_text;
  snis_text = form.snis_text;
  auto_renew = form.auto_renew;
  renew_before_days = form.renew_before_days;
}

unfoldable pub kong_target_form_from_request : Request → ℕ → KongTargetFormData
kong_target_form_from_request req id = record {
  id = id;
  name = req.form_value (lit "name");
  environment = req.form_value (lit "environment");
  admin_url = req.form_value (lit "admin_url");
  auth_type =
      if is_empty (req.form_value (lit "auth_type"))
      then lit "none"
      else req.form_value (lit "auth_type");
  auth_header_name = req.form_value (lit "auth_header_name");
  auth_header_value = req.form_value (lit "auth_header_value");
  has_secret = Bool.false;
}

unfoldable pub kong_target_input_from_form : KongTargetFormData → KongTargetInput
kong_target_input_from_form form = record {
  id = form.id;
  name = form.name;
  environment = form.environment;
  admin_url = form.admin_url;
  auth_type = form.auth_type;
  auth_header_name = form.auth_header_name;
  auth_header_value = form.auth_header_value;
}

unfoldable pub certificate_locked_for_edit : Certificate → Bool
certificate_locked_for_edit c =
    not (is_blank c.cert_path) || (not (is_blank c.key_path) || has_end c.expires_at)

-- `none` is an error; an id is read as in `ParseID`.
unfoldable pub parse_selected_target_ids : List Text → Option (List ℕ)
parse_selected_target_ids [] = some []
parse_selected_target_ids (value ∷ values) =
    let rest = parse_selected_target_ids values in
    if is_blank value then rest else elim (parse_id (trim_space value)) [
      | none ↦ none
      | some id ↦ elim rest [ none ↦ none | some ids ↦ some (id ∷ ids) ]
    ]
