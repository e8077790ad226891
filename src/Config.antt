-- ===== src/Config.antt =====
-- internal/app/config.go: the configuration that the environment gives.
pub mod Valid
mod Tests
use kong_gateway_cert_lite.Prelude.{
  [], ◌∷◌, Bool, true, false, ◌&&◌, ◌||◌, not, Option, none, some, if◌then◌else◌, ◌==◌, eq_ℕ,
  eq_List, is_empty,
}
use kong_gateway_cert_lite.Text.{Text, lit, trim_space, is_blank}
use kong_gateway_cert_lite.Text.Case.{Unicode, to_lower}
use kong_gateway_cert_lite.Cron.{
  ScheduleError, schedule, rejected, ParsedSchedule, parse_cron_expression,
}

pub record Config : Type 0 where
  pub addr : Text
  pub db_path : Text
  pub cert_dir : Text
  pub account_dir : Text
  pub username : Text
  pub password : Text
  pub discord_webhook_url : Text
  pub discord_notify_success : Bool
  pub cloudflare_token : Text
  pub lets_encrypt_env : Text
  pub auto_renew_cron : Text

pub data ConfigError : Type 0 where
  message : Text → ConfigError
  bad_schedule : ScheduleError → ConfigError

pub data Loaded : Type 0 where
  loaded : Config → Loaded
  refused : ConfigError → Loaded

-- os.LookupEnv
abbrev pub Environment : Type 0
Environment = Text → Option Text

abbrev or_else : Option Text → Text → Text
or_else none fallback = fallback
or_else (some value) fallback = value

-- os.Getenv
abbrev pub getenv : Environment → Text → Text
getenv env key = or_else (env key) []

unfoldable pub env_or_default : Environment → Text → Text → Text
env_or_default env key fallback = or_else (env key) fallback

abbrev pub check_schedule : ParsedSchedule → Option ConfigError
check_schedule (schedule s) = none
check_schedule (rejected e) = some (bad_schedule e)

-- The first complaint, or nil.
unfoldable pub validate : Config → Option ConfigError
validate c =
    if is_blank c.addr
    then some (message (lit "APP_ADDR must not be empty"))
    else if is_blank c.db_path
    then some (message (lit "APP_DB_PATH must not be empty"))
    else if is_blank c.cert_dir
    then some (message (lit "APP_CERT_DIR must not be empty"))
    else if is_blank c.account_dir
    then some (message (lit "APP_ACCOUNT_DIR must not be empty"))
    else if is_blank c.username && not (is_empty c.password)
    then some (message (lit "APP_USERNAME must be set when APP_PASSWORD is set"))
    else if not (is_blank c.username) && is_empty c.password
    then some (message (lit "APP_PASSWORD must be set when APP_USERNAME is set"))
    else if not (c.lets_encrypt_env == lit "staging" || c.lets_encrypt_env == lit "production")
    then some (message (lit "LETSENCRYPT_ENV must be staging or production"))
    else check_schedule (parse_cron_expression c.auto_renew_cron)

abbrev is_yes : Text → Bool
is_yes s = s == lit "1" || (s == lit "true" || (s == lit "yes" || s == lit "on"))

abbrev pub loaded_unless : Option ConfigError → Config → Loaded
loaded_unless none c = loaded c
loaded_unless (some e) c = refused e

module _ (u : Unicode) (env : Environment) where
  unfoldable pub parse_bool_env : Text → Bool
  parse_bool_env key = is_yes (to_lower u (trim_space (getenv env key)))

  -- What `LoadConfig` reads, before it is validated.
  unfoldable pub read_config : Config
  read_config = record {
    addr = env_or_default env (lit "APP_ADDR") (lit ":8080");
    db_path = env_or_default env (lit "APP_DB_PATH") (lit "/data/app.db");
    cert_dir = env_or_default env (lit "APP_CERT_DIR") (lit "/data/certs");
    account_dir = env_or_default env (lit "APP_ACCOUNT_DIR") (lit "/data/accounts");
    username = trim_space (getenv env (lit "APP_USERNAME"));
    password = getenv env (lit "APP_PASSWORD");
    discord_webhook_url = trim_space (getenv env (lit "DISCORD_WEBHOOK_URL"));
    discord_notify_success = parse_bool_env (lit "DISCORD_NOTIFY_SUCCESS");
    cloudflare_token = trim_space (getenv env (lit "CF_DNS_API_TOKEN"));
    lets_encrypt_env =
        to_lower u (trim_space (env_or_default env (lit "LETSENCRYPT_ENV") (lit "staging")));
    auto_renew_cron = trim_space (env_or_default env (lit "AUTO_RENEW_CRON") (lit "0 3 * * *"));
  }

  unfoldable pub load_config : Loaded
  load_config = loaded_unless (validate read_config) read_config
