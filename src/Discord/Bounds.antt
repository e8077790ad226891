-- ===== src/Discord/Bounds.antt =====
-- internal/adapter/discord/notifier.go: that an embed is one that the service takes.
use kong_gateway_cert_lite.Prelude.{ℕ, ◌≤◌, List, [], ◌≢◌, eq_ℕ, length, All}
use kong_gateway_cert_lite.Text.{Text}
use kong_gateway_cert_lite.World.{World}
use kong_gateway_cert_lite.Discord.Embed.{DiscordField}

-- A field with a name and a value.
abbrev pub IsFilled : DiscordField → Type 0
IsFilled f = (f.name ≢ []) × (f.value ≢ [])

-- A list of at most `n` filled fields.
record Fits (n : ℕ) (fs : List DiscordField) : Type 0 where
  count : length fs ≤ n
  filled : All IsFilled fs
