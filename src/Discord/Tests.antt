-- ===== src/Discord/Tests.antt =====
-- An event as an embed.
use kong_gateway_cert_lite.Prelude.{[], none, some}
use kong_gateway_cert_lite.Text.{lit}
use kong_gateway_cert_lite.Domain.{JobType, success}
use kong_gateway_cert_lite.World.{NotificationEvent, NotificationSeverity}
use kong_gateway_cert_lite.Samples.{web, today}

abbrev issued : NotificationEvent
issued = record {
  severity = NotificationSeverity.success;
  event = lit "issue_succeeded";
  certificate = some web;
  kong_target = [];
  environment = [];
  job_id = 1;
  job_type = some JobType.issue;
  job_status = some success;
  message = [];
  remaining_days = none;
  occurred_at = today;
}
