-- ===== src/Config/Valid.antt =====
-- internal/app/config.go: which environments load, and what a loaded configuration promises.
use kong_gateway_cert_lite.Prelude.{
  false, not, Option, none, some, ◌≡◌, ◌⊎◌, ◌↔◌, refl, sym, subst, arith, eq_ℕ, eq_List, ==_iff,
  is_empty,
}
use kong_gateway_cert_lite.Text.{lit, is_blank}
use kong_gateway_cert_lite.Text.Case.{Unicode}
use kong_gateway_cert_lite.Cron.{
  CronSchedule, ParsedSchedule, schedule, rejected, parse_cron_expression,
}
use kong_gateway_cert_lite.Session.{enabled}
use kong_gateway_cert_lite.Config.{
  Config, Environment, loaded, ConfigError, validate, check_schedule, loaded_unless, load_config,
  read_config,
}

-- Directories and address are given, a username goes with a password, the environment of the
-- certificate authority is one of the two, and the schedule of renewals parses.
pub record Valid (c : Config) : Type 0 where
  pub addr : is_blank c.addr ≡ false
  pub db_path : is_blank c.db_path ≡ false
  pub cert_dir : is_blank c.cert_dir ≡ false
  pub account_dir : is_blank c.account_dir ≡ false
  pub credentials : is_blank c.username ≡ is_empty c.password
  pub stage : (c.lets_encrypt_env ≡ lit "staging") ⊎ (c.lets_encrypt_env ≡ lit "production")
  pub parsed : CronSchedule
  pub renewals : parse_cron_expression c.auto_renew_cron ≡ schedule parsed

is_scheduled :
    (p : ParsedSchedule) → check_schedule p ≡ none → (s : CronSchedule) × (p ≡ schedule s)
is_scheduled (schedule s) e = (s, refl)
is_scheduled (rejected x) e = cc

validate-Valid : (c : Config) → validate c ≡ none → Valid c
unfolding validate
validate-Valid c e =
    let scheduled : check_schedule (parse_cron_expression c.auto_renew_cron) ≡ none =
      ground arith in
    let (s, parses) = is_scheduled (parse_cron_expression c.auto_renew_cron) scheduled in
    record {
      addr = ground arith;
      db_path = ground arith;
      cert_dir = ground arith;
      account_dir = ground arith;
      credentials = ground arith;
      stage = ground (
        arith,
        ==_iff c.lets_encrypt_env (lit "staging"),
        ==_iff c.lets_encrypt_env (lit "production"),
      );
      parsed = s;
      renewals = parses;
    }

Valid-validate : (c : Config) → Valid c → validate c ≡ none
unfolding validate
Valid-validate c v = ground (
  arith,
  v.addr,
  v.db_path,
  v.cert_dir,
  v.account_dir,
  v.credentials,
  v.stage,
  v.renewals,
  ==_iff c.lets_encrypt_env (lit "staging"),
  ==_iff c.lets_encrypt_env (lit "production"),
)

-- A login is asked for where a valid configuration has a password.
Valid-enabled :
    (c : Config)
    → Valid c
    → enabled (record { username = c.username; password = c.password }) ≡ not (is_empty c.password)
unfolding enabled
Valid-enabled c v = ground (arith, v.credentials)

loaded_unless_iff :
    (o : Option ConfigError) (d c : Config)
    → (loaded_unless o d ≡ loaded c) ↔ ((o ≡ none) × (d ≡ c))
loaded_unless_iff none d c = (λ e. (refl, cc (e)), λ h. cc (h.1))
loaded_unless_iff (some x) d c = (λ e. cc (e), λ h. cc (h.0))

-- An environment loads as configuration `c` exactly when `c` is what it gives and is valid, that
-- is: the address and the three paths are not blank, a username is given exactly with a password,
-- the environment of the certificate authority is staging or production, and the schedule of
-- renewals parses; a login is then asked for exactly where a password is set.
pub load_config_iff :
    (u : Unicode) (env : Environment) (c : Config)
    → (load_config u env ≡ loaded c) ↔ (
        (c ≡ read_config u env)
        × Valid c
        × (enabled (record { username = c.username; password = c.password })
            ≡ not (is_empty c.password)))
unfolding load_config
load_config_iff u env c =
    let split = loaded_unless_iff (validate (read_config u env)) (read_config u env) c in
    (
      λ e.
          let (fine, same) = split.0 e in
          let valid : Valid c = subst Valid same (validate-Valid (read_config u env) fine) in
          (sym same, valid, Valid-enabled c valid),
      λ h. split.1 (Valid-validate (read_config u env) (subst Valid h.0 h.1), sym h.0),
    )
