-- ===== src/Config/Tests.antt =====
-- Runs of the validation, and the theorem at them.
use llmgate.Prelude.{
  ◌≡◌, refl, true, false, Option, none, some, [], ◌∷◌, Text, text, text_eq, if◌then◌else◌,
}
use llmgate.Prelude.Trim.{trim, trim_start}
use llmgate.Prelude.Strings.{starts_with}
use llmgate.Auth.{HeaderMap, Verdict, require_auth, strip_credential_headers}
use llmgate.Config.{
  Config, Http, ConfigError, validate, check_key, check_keys, check_url, check_names,
  check_prefixes, check_memory, is_open_proxy, host_is_loopback,
}
use llmgate.Config.Keys.{require_auth-validate}

abbrev http : Http
http = record { is_value = λ t. true; is_name = λ t. true; scheme = λ t. some (text "https") }

abbrev config : Config
config = record {
  host = text "0.0.0.0";
  api_keys = text "one" ∷ text "two" ∷ [];
  upstream_url = text "https://u";
  extra_headers = [];
  prefixes = text "openai/" ∷ [];
  memory_enabled = true;
  memory_path = some (text "m.nql");
}

valid : validate http config ≡ none
unfolding validate check_keys check_key check_url check_names check_prefixes check_memory trim
    trim_start text_eq
valid = refl

untrimmed :
    validate http (record config { api_keys = text "one" ∷ text "two " ∷ [] })
    ≡ some ConfigError.untrimmed_key
unfolding validate check_keys check_key check_url check_names check_prefixes check_memory trim
    trim_start text_eq
untrimmed = refl

open_proxy :
    (is_open_proxy (record config { api_keys = [] }) ≡ true)
    × (is_open_proxy (record config { api_keys = []; host = text "127.0.0.1" }) ≡ false)
unfolding is_open_proxy host_is_loopback starts_with text_eq
open_proxy = (refl, refl)

-- Headers that only hold an `x-api-key`, if there is one.
abbrev single : HeaderMap (Option Text)
single = record {
  get = λ name h. if text_eq name (text "x-api-key") then h else none;
  remove = λ name h. if text_eq name (text "x-api-key") then none else h;
}

require_auth-validate_example :
    require_auth single config.api_keys (some (text "two"))
    ≡ Verdict.run (strip_credential_headers single (some (text "two")))
unfolding text_eq
require_auth-validate_example =
    require_auth-validate http single config (text "two") (some (text "two")) valid refl refl refl
      refl
