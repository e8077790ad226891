-- ===== src/Views/KongTarget.antt =====
-- internal/usecase/kong_target.go: what the pages show of Kong targets.
use kong_gateway_cert_lite.Prelude.{ℕ, List, map, Option, none, some}
use kong_gateway_cert_lite.Text.{Text, lit}
use kong_gateway_cert_lite.Calendar.{format_minute}
use kong_gateway_cert_lite.Domain.{Time, KongTargetAuthType, custom_header}
use kong_gateway_cert_lite.Domain
use kong_gateway_cert_lite.World.{M, pure, ◌>>=◌, or_not_found}
use kong_gateway_cert_lite.Sqlite.KongTargets
use kong_gateway_cert_lite.Views.Status.{status_label_for_value, kong_target_status_text}

pub record KongTargetView : Type 0 where
  pub target : Domain.KongTarget
  pub status_label : Text
  pub auth_label : Text
  pub last_checked : Text

unfoldable pub auth_label : Domain.KongTarget → Text
auth_label target = elim target.auth_type [ custom_header ↦ lit "Custom header" | _ ↦ lit "None" ]

abbrev checked_label : Option Time → Text
checked_label none = lit "Never"
checked_label (some t) = format_minute t

unfoldable pub build_kong_target_view : Domain.KongTarget → KongTargetView
build_kong_target_view target = record {
  target = target;
  status_label = status_label_for_value (kong_target_status_text target.status);
  auth_label = auth_label target;
  last_checked = checked_label target.last_checked_at;
}

unfoldable pub list : M (List KongTargetView)
list = do targets ← KongTargets.list; pure (map build_kong_target_view targets)

unfoldable pub get : ℕ → M KongTargetView
get id = do target ← or_not_found (KongTargets.get id); pure (build_kong_target_view target)
