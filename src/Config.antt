-- ===== src/Config.antt =====
-- src/config.rs: the validation of a configuration. What the crates `http` and `reqwest` make of header
-- values, header names and URLs is a parameter.
pub mod Keys
mod Tests
use llmgate.Prelude.{
  Bool, true, false, not, ◌&&◌, ◌||◌, Option, none, some, List, [], ◌∷◌, Text, text, text_eq,
  is_empty, if◌then◌else◌,
}
use llmgate.Prelude.Strings.{starts_with}
use llmgate.Prelude.Trim.{trim}

-- What `validate` reads of a configuration.
pub record Config : Type 0 where
  pub host : Text
  pub api_keys : List Text
  pub upstream_url : Text
  pub extra_headers : List (Text × Text)
  pub prefixes : List Text
  pub memory_enabled : Bool
  pub memory_path : Option Text

-- One error for each `bail!`.
pub data ConfigError : Type 0 where
  empty_key invalid_key untrimmed_key bad_url bad_scheme bad_header_name empty_prefix : ConfigError
  no_memory_path : ConfigError

-- The first error, if there is one: what is left of a chain of `bail!`s.
abbrev pub or_then : Option ConfigError → Option ConfigError → Option ConfigError
or_then none next = next
or_then (some e) next = some e

abbrev pub bail_if : Bool → ConfigError → Option ConfigError
bail_if bad e = if bad then some e else none

-- `host_is_loopback`
unfoldable pub host_is_loopback : Text → Bool
host_is_loopback host =
    text_eq host (text "localhost") || text_eq host (text "::1") || starts_with (text "127.") host

-- What is used of the crates: whether a text is a header value that `to_str` reads, whether it is a
-- header's name, and the scheme of an absolute URL.
pub record Http : Type 0 where
  pub is_value : Text → Bool
  pub is_name : Text → Bool
  pub scheme : Text → Option Text

module _ (http : Http) where
  -- The body of the loop over the keys.
  unfoldable pub check_key : Text → Option ConfigError
  unfolding trim
  check_key key = or_then (bail_if (is_empty (trim key)) ConfigError.empty_key) (
      or_then (bail_if (not (http.is_value key)) ConfigError.invalid_key)
        (bail_if (not (text_eq key (trim key))) ConfigError.untrimmed_key))

  unfoldable pub check_keys : List Text → Option ConfigError
  unfolding check_key
  check_keys [] = none
  check_keys (key ∷ keys) = or_then (check_key key) (check_keys keys)

  unfoldable pub check_url : Text → Option ConfigError
  check_url url = elim (http.scheme url) [
    | none ↦ some ConfigError.bad_url
    | some scheme ↦
        bail_if (not (text_eq scheme (text "http") || text_eq scheme (text "https")))
          ConfigError.bad_scheme
  ]

  unfoldable pub check_names : List (Text × Text) → Option ConfigError
  check_names [] = none
  check_names ((name, value) ∷ headers) =
      or_then (bail_if (not (http.is_name name)) ConfigError.bad_header_name) (check_names headers)

  unfoldable pub check_prefixes : List Text → Option ConfigError
  check_prefixes [] = none
  check_prefixes (prefix ∷ prefixes) =
      or_then (bail_if (is_empty prefix) ConfigError.empty_prefix) (check_prefixes prefixes)

  abbrev pub check_path : Option Text → Option ConfigError
  check_path none = some ConfigError.no_memory_path
  check_path (some path) = bail_if (is_empty (trim path)) ConfigError.no_memory_path

  unfoldable pub check_memory : Bool → Option Text → Option ConfigError
  unfolding trim
  check_memory enabled path = if enabled then check_path path else none

  -- `validate`: the error, if there is one. Its warning about an open gateway is `is_open_proxy`.
  unfoldable pub validate : Config → Option ConfigError
  unfolding check_keys check_url check_names check_prefixes check_memory
  validate c = or_then (check_keys c.api_keys) (
      or_then (check_url c.upstream_url) (
        or_then (check_names c.extra_headers)
          (or_then (check_prefixes c.prefixes) (check_memory c.memory_enabled c.memory_path))))

abbrev no_keys : List Text → Bool
no_keys [] = true
no_keys (key ∷ keys) = false

-- What `validate` warns of.
unfoldable pub is_open_proxy : Config → Bool
unfolding host_is_loopback
is_open_proxy c = no_keys c.api_keys && not (host_is_loopback c.host)
