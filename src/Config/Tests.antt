-- ===== src/Config/Tests.antt =====
-- Loading from small environments.
use kong_gateway_cert_lite.Prelude.{false, not, none, ◌≡◌, ◌↔◌, is_empty}
use kong_gateway_cert_lite.Text.Case.{Unicode}
use kong_gateway_cert_lite.Session.{enabled}
use kong_gateway_cert_lite.Config.{Config, Environment, loaded, load_config, read_config}
use kong_gateway_cert_lite.Config.Valid.{Valid, load_config_iff}

abbrev plain : Unicode
plain = record { lower = λ c. c; folds = λ a b. false }

abbrev unset : Environment
unset = λ key. none

abbrev defaults : Config
defaults = read_config plain unset

load_config_iff_example : (load_config plain unset ≡ loaded defaults) ↔ (
    (defaults ≡ read_config plain unset)
    × Valid defaults
    × (enabled (record { username = defaults.username; password = defaults.password })
        ≡ not (is_empty defaults.password)))
load_config_iff_example = load_config_iff plain unset defaults
