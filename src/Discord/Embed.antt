-- ===== src/Discord/Embed.antt =====
-- internal/adapter/discord/notifier.go: the embed that an event becomes.
use kong_gateway_cert_lite.Prelude.{
  ℕ, suc, List, [], ◌∷◌, ◌++◌, Bool, true, false, not, Option, none, some, if◌then◌else◌, ◌==◌,
  eq_ℕ, is_empty,
}
use kong_gateway_cert_lite.Prelude.Int.{ℤ, pos, negsuc}
use kong_gateway_cert_lite.Text.{Text, lit, trim_space, is_blank}
use kong_gateway_cert_lite.Text.Number.{decimal}
use kong_gateway_cert_lite.Calendar.{format_rfc3339}
use kong_gateway_cert_lite.Domain.{Time, Certificate, JobType, job_type_text}
use kong_gateway_cert_lite.World.{M, pure, ◌>>=◌, time_now, NotificationEvent}
use kong_gateway_cert_lite.Discord.Wording.{
  non_empty, notification_presentation_for, event_icon, severity_label, color_for_severity,
}

pub record DiscordField : Type 0 where
  pub name : Text
  pub value : Text
  pub inline : Bool

pub record DiscordEmbed : Type 0 where
  pub title : Text
  pub color : ℕ
  pub fields : List DiscordField
  pub timestamp : Text

abbrev pub inline_field : Text → Text → DiscordField
inline_field name value = record { name = name; value = value; inline = true }

-- `append` under a test
abbrev pub when : Bool → DiscordField → List DiscordField
when test field = if test then field ∷ [] else []

abbrev pub type_text : Option JobType → Text
type_text none = []
type_text (some t) = job_type_text t

abbrev pub job_field : NotificationEvent → DiscordField
job_field event =
    inline_field (lit "Job")
      (lit "#" ++ (decimal event.job_id ++ (lit " " ++ type_text event.job_type)))

abbrev pub certificate_fields : Option Certificate → List DiscordField
certificate_fields none = []
certificate_fields (some c) =
    inline_field (lit "Certificate") (non_empty c.name (lit "#" ++ decimal c.id))
    ∷ inline_field (lit "Domain") (non_empty c.primary_domain (lit "-"))
    ∷ []

-- `%d` of a signed number
abbrev pub signed : ℤ → Text
signed (pos n) = decimal n
signed (negsuc n) = lit "-" ++ decimal (suc n)

abbrev pub remaining_field : Option ℤ → List DiscordField
remaining_field none = []
remaining_field (some days) = inline_field (lit "Remaining") (signed days ++ lit " days") ∷ []

abbrev pub action_field : Text → DiscordField
action_field action = record { name = lit "Action"; value = action; inline = false }

unfoldable pub embed_fields : NotificationEvent → List DiscordField
embed_fields event =
    (inline_field (lit "Severity") (severity_label event.severity)
      ∷ inline_field (lit "Event") event.event
      ∷ [])
    ++ (when (not (event.job_id == 0)) (job_field event)
        ++ (certificate_fields event.certificate
            ++ (when (not (is_empty event.kong_target))
                  (inline_field (lit "Kong target") event.kong_target)
                ++ (when (not (is_empty event.environment))
                      (inline_field (lit "Environment") event.environment)
                    ++ (remaining_field event.remaining_days
                        ++ when (not (is_blank (notification_presentation_for event).action))
                            (action_field (notification_presentation_for event).action))))))

-- The time of an event that has none is that of the clock.
abbrev pub occurred : Time → M Time
occurred at = if at == 0 then time_now else pure at

unfoldable pub build_embed : NotificationEvent → M DiscordEmbed
build_embed event = do
  at ← occurred event.occurred_at
  pure (record {
    title =
        trim_space (event_icon event ++ (lit " " ++ (notification_presentation_for event).title));
    color = color_for_severity event.severity;
    fields = embed_fields event;
    timestamp = format_rfc3339 at;
  })
