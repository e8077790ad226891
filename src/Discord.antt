-- ===== src/Discord.antt =====
-- internal/adapter/discord/notifier.go: the messages to the webhook.
pub mod Wording
pub mod Embed
pub mod Bounds
mod Tests
use kong_gateway_cert_lite.Prelude.{
  ℕ, List, [], ◌∷◌, ◌++◌, ◌||◌, Option, none, some, if◌then◌else◌, leb, ltb,
}
use kong_gateway_cert_lite.Text.{Text, lit, trim_space, is_blank}
use kong_gateway_cert_lite.Text.Number.{decimal}
use kong_gateway_cert_lite.Domain.{Error, failed}
use kong_gateway_cert_lite.World.{M, pure, raise, ◌>>=◌, NotificationEvent}
use kong_gateway_cert_lite.KongSync.{ask}
use kong_gateway_cert_lite.HttpClient.{
  HttpRequest, HttpResponse, Sent, response, unsent, set_header,
}
use kong_gateway_cert_lite.Discord.Embed.{DiscordEmbed, build_embed}

pub record DiscordPayload : Type 0 where
  pub username : Text
  pub embeds : List DiscordEmbed

-- net/http and encoding/json, as for the Admin API.
pub record Webhook : Type 0 where
  pub refuses : Text → Text → Option Text
  pub send : ℕ → HttpRequest → Sent
  pub marshal : DiscordPayload → Text

-- What `NewNotifier` keeps of its argument.
abbrev pub webhook_url : Text → Text
webhook_url url = trim_space url

unfoldable pub post_answer : Sent → M Unit
post_answer (unsent e) = raise (failed e)
post_answer (response r) =
    if ltb r.status_code 200 || leb 300 r.status_code
    then raise (failed (lit "discord webhook returned status " ++ decimal r.status_code))
    else pure tt

module _ (http : Webhook) where
  abbrev post_request : Text → DiscordEmbed → HttpRequest
  post_request url embed = set_header (lit "Content-Type") (lit "application/json") (record {
    method = lit "POST";
    url = url;
    header = [];
    body = http.marshal (record { username = lit "Kong CertOps"; embeds = embed ∷ [] });
  })

  -- `Notify` of a notifier that was made for the URL.
  unfoldable pub notify : Text → NotificationEvent → M Unit
  notify url event = if is_blank (webhook_url url) then pure tt else do
    embed ← build_embed event
    elim (http.refuses (lit "POST") (webhook_url url)) [
      | some e ↦ raise (failed e)
      | none ↦ ask (λ n. http.send n (post_request (webhook_url url) embed)) >>= post_answer
    ]
