-- ===== src/Views/Certificate.antt =====
-- internal/usecase/certificate.go: what the pages show of certificates and their links.
use kong_gateway_cert_lite.Prelude.{
  ℕ, ◌-◌, ◌/◌, List, [], ◌∷◌, ◌++◌, Bool, true, false, ◌&&◌, ◌||◌, not, Option, none, some,
  if◌then◌else◌, ◌==◌, eq_ℕ, leb, length, any_row, is_empty, map,
}
use kong_gateway_cert_lite.Text.{Text, lit, is_blank, has_prefix}
use kong_gateway_cert_lite.Text.Case.{Unicode}
use kong_gateway_cert_lite.Text.Number.{decimal}
use kong_gateway_cert_lite.Calendar.{format_date}
use kong_gateway_cert_lite.Domain.{Time, day, CertificateKongTarget, KongTarget, SyncStatus, synced}
use kong_gateway_cert_lite.Domain
use kong_gateway_cert_lite.World.{M, pure, ◌>>=◌, or_not_found, time_now}
use kong_gateway_cert_lite.Sqlite.Certificates
use kong_gateway_cert_lite.Sqlite.KongTargets
use kong_gateway_cert_lite.Sqlite.Links
use kong_gateway_cert_lite.Views.Status.{
  status_label, status_label_for_value, sync_status_text, status_class_for_value,
}

pub record CertificateTargetLinkView : Type 0 where
  pub target : KongTarget
  pub is_linked : Bool
  pub sync_status_label : Text
  pub sync_status_tone : Text
  pub kong_certificate_id : Text
  pub last_error : Text
  pub sync_action_label : Text
  pub sync_confirm : Text

pub record CertificateView : Type 0 where
  pub certificate : Domain.Certificate
  pub type : Text
  pub expires : Text
  pub remaining : Text
  pub status_label : Text
  pub linked_target_count : ℕ
  pub linked_targets : List CertificateTargetLinkView
  pub sync_workflow_status_label : Text
  pub sync_workflow_status_tone : Text
  pub sync_workflow_description : Text
  pub sync_button_label : Text
  pub sync_confirm_message : Text

unfoldable pub certificate_type : List Text → Text
certificate_type domains =
    if any_row (has_prefix (lit "*.")) domains then lit "Wildcard" else lit "Single"

-- `int(time.Until(t).Hours() / 24)`, which rounds towards 0, in decimal.
unfoldable pub days_until : Time → Time → Text
days_until expires now =
    if leb now expires
    then decimal ((expires - now) / day)
    else if (now - expires) / day == 0
    then decimal 0
    else lit "-" ++ decimal ((now - expires) / day)

abbrev with_expiry : Text → Text → Domain.Certificate → CertificateView
with_expiry expires remaining certificate = record {
  certificate = certificate;
  type = certificate_type certificate.domains;
  expires = expires;
  remaining = remaining;
  status_label = status_label certificate.status;
  linked_target_count = 0;
  linked_targets = [];
  sync_workflow_status_label = lit "Waiting";
  sync_workflow_status_tone = lit "secondary";
  sync_workflow_description = lit "Sync becomes available after the certificate has been issued.";
  sync_button_label = lit "Sync all";
  sync_confirm_message = lit "Sync this certificate to linked Kong targets?";
}

-- It reads the clock where the certificate has an end of validity.
unfoldable pub view_until : Domain.Certificate → Option Time → M CertificateView
view_until certificate none = pure (with_expiry (lit "Not issued") (lit "-") certificate)
view_until certificate (some expires) = do
  now ← time_now
  pure (with_expiry (format_date expires) (days_until expires now ++ lit " days") certificate)

unfoldable pub build_certificate_view : Domain.Certificate → M CertificateView
build_certificate_view certificate = view_until certificate certificate.expires_at

abbrev is_synced : SyncStatus → Bool
is_synced synced = true
is_synced _ = false

abbrev needs_sync : CertificateKongTarget → Bool
needs_sync link =
    not (is_synced link.sync_status)
    || (is_blank link.kong_certificate_id || not (is_blank link.last_error))

unfoldable pub all_linked_targets_synced : List CertificateKongTarget → Bool
all_linked_targets_synced links = not (is_empty links) && not (any_row needs_sync links)

unfoldable pub apply_sync_workflow_state :
    List CertificateKongTarget → CertificateView → CertificateView
apply_sync_workflow_state links view =
    if is_blank view.certificate.cert_path
    then view
    else if is_empty links
    then record view {
      sync_workflow_description = lit "Link at least one Kong target before syncing.";
    }
    else if all_linked_targets_synced links
    then record view {
      sync_workflow_status_label = lit "Synced";
      sync_workflow_status_tone = lit "success";
      sync_workflow_description =
          lit
            "Already synced to linked Kong targets. Use manual re-sync only when you need to push again.";
      sync_button_label = lit "Sync all again";
      sync_confirm_message =
          lit "This certificate is already synced. Run a manual re-sync to linked Kong targets?";
    }
    else record view {
      sync_workflow_status_label = lit "Ready";
      sync_workflow_status_tone = lit "success";
      sync_workflow_description = lit "Push this certificate to the linked Kong targets.";
    }

unfoldable pub sync_action_label : SyncStatus → Text
sync_action_label synced = lit "Sync again"
sync_action_label SyncStatus.failed = lit "Retry sync"
sync_action_label _ = lit "Sync"

unfoldable pub sync_confirm_message : SyncStatus → Text → Text
sync_confirm_message synced target_name =
    lit "This target is already synced. Run a manual re-sync for " ++ (target_name ++ lit "?")
sync_confirm_message _ target_name = lit "Sync this certificate to " ++ (target_name ++ lit "?")

-- `linkMap[id]`: a later link to the same target takes the place of an earlier one.
unfoldable pub link_to : ℕ → List CertificateKongTarget → Option CertificateKongTarget
link_to id [] = none
link_to id (l ∷ links) =
    let later = link_to id links in
    elim later [ some x ↦ some x | none ↦ if l.kong_target_id == id then some l else none ]

module _ (u : Unicode) where
  unfoldable pub target_link_view :
      KongTarget → Option CertificateKongTarget → CertificateTargetLinkView
  target_link_view target none = record {
    target = target;
    is_linked = false;
    sync_status_label = lit "Not linked";
    sync_status_tone = lit "secondary";
    kong_certificate_id = [];
    last_error = [];
    sync_action_label = [];
    sync_confirm = [];
  }
  target_link_view target (some link) = record {
    target = target;
    is_linked = true;
    sync_status_label = status_label_for_value (sync_status_text link.sync_status);
    sync_status_tone = status_class_for_value u (sync_status_text link.sync_status);
    kong_certificate_id = link.kong_certificate_id;
    last_error = link.last_error;
    sync_action_label = sync_action_label link.sync_status;
    sync_confirm = sync_confirm_message link.sync_status target.name;
  }

  unfoldable pub build_certificate_target_link_views :
      List KongTarget → List CertificateKongTarget → List CertificateTargetLinkView
  build_certificate_target_link_views targets links =
      map (λ (t : KongTarget). target_link_view t (link_to t.id links)) targets

  unfoldable pub get : ℕ → M CertificateView
  get id = do
    certificate ← or_not_found (Certificates.get id)
    targets ← KongTargets.list_for_certificate
    links ← Links.list_sync_targets id
    view ← build_certificate_view certificate
    pure (
        apply_sync_workflow_state links (record view {
          linked_target_count = length links;
          linked_targets = build_certificate_target_link_views targets links;
        }))

-- The loop of `List`, with the counts of links.
unfoldable pub build_all : (ℕ → ℕ) → List Domain.Certificate → M (List CertificateView)
build_all counts [] = pure []
build_all counts (c ∷ cs) = do
  view ← build_certificate_view c
  views ← build_all counts cs
  pure (record view { linked_target_count = counts c.id } ∷ views)

unfoldable pub list : M (List CertificateView)
list = do
  certificates ← Certificates.list
  counts ← Links.count_linked_targets_by_certificate
  build_all counts certificates
