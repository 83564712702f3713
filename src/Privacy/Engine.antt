-- ===== src/Privacy/Engine.antt =====
-- src/core/privacy.rs: the configuration and `RedactionEngine`.
pub mod Valid
use llmgate.Prelude.{
  ℕ, ◌+◌, ◌-◌, Bool, true, false, not, ◌&&◌, ◌||◌, Option, none, some, List, [], ◌∷◌, ◌++◌, map,
  Text, text, text_eq, is_empty, length, take, drop, any, ltb, ◌==◌, if◌then◌else◌,
}
use llmgate.Prelude.Strings.{ends_with, starts_with, strip_prefix}
use llmgate.Prelude.Trim.{trim}
use llmgate.Prelude.Outcome.{Result, ok, err, ◌>>=◌}
use llmgate.Privacy.Template.{
  TemplateError, validate_template, template_prefix, digit_suffix_collides,
}
use llmgate.Privacy.Search.{Span, Regex}

pub record RuleConfig : Type 0 where
  pub name : Text
  pub pattern : Text
  pub replacement : Text

pub record AllowListConfig : Type 0 where
  pub domains : List Text
  pub patterns : List Text

pub record PrivacyConfig : Type 0 where
  pub enabled : Bool
  pub vault : Text
  pub rules : List RuleConfig
  pub allow_list : AllowListConfig

pub record CompiledRule : Type 0 where
  pub name : Text
  pub regex : Regex
  pub template : Text

pub record RedactionEngine : Type 0 where
  pub rules : List CompiledRule
  pub allow_domains : List Text
  pub allow_patterns : List Regex
  pub max_token_len : ℕ

-- The errors of `RedactionEngine::new`, one for each `bail!`.
pub data EngineError : Type 0 where
  unsupported_vault empty_name bad_pattern matches_empty same_template overlapping : EngineError
  bad_template : TemplateError → EngineError
  bad_allow_pattern : EngineError

abbrev pub default_config : PrivacyConfig
default_config = record {
  enabled = false;
  vault = text "memory";
  rules = [];
  allow_list = record { domains = []; patterns = [] };
}

abbrev pub rule : Text → Text → Text → RuleConfig
rule name pattern replacement = record { name = name; pattern = pattern; replacement = replacement }

-- `DEFAULT_RULES`
abbrev pub default_rules : List RuleConfig
default_rules =
    rule (text "EMAIL") (text "\\b[A-Za-z0-9._%+-]+@[A-Za-z0-9.-]+\\.[A-Za-z]{2,}\\b")
      (text "<EMAIL_{n}>")
    ∷ rule (text "IPV4")
        (text "\\b(?:(?:25[0-5]|2[0-4]\\d|1?\\d?\\d)\\.){3}(?:25[0-5]|2[0-4]\\d|1?\\d?\\d)\\b")
        (text "<IP_{n}>")
    ∷ rule (text "PHONE") (text "\\b\\d{3}[-.)]\\d{3}[-.]\\d{4}\\b") (text "<PHONE_{n}>")
    ∷ rule (text "API_KEY") (text "\\b(?:sk|pk)-[A-Za-z0-9]{20,64}\\b") (text "<SECRET_{n}>")
    ∷ []

-- The probes of `can_match_empty`; "é" is two bytes.
abbrev probes : List Text
probes =
    text "a" ∷ text "a b" ∷ text " a" ∷ text "a " ∷ text "123" ∷ (0xC3 ∷ 0xA9 ∷ []) ∷ text " " ∷ []

abbrev is_empty_span : Span → Bool
is_empty_span (s, e) = s == e

pub can_match_empty : Regex → Bool
can_match_empty regex =
    any (λ probe. any is_empty_span (regex.find_iter probe)) probes || regex.is_match []

-- The check of one pair of rules.
check_pair : CompiledRule → CompiledRule → Option EngineError
check_pair a b =
    let pa = template_prefix a.template in
    let pb = template_prefix b.template in
    if text_eq pa pb
    then some same_template
    else if digit_suffix_collides pa pb
    then some overlapping
    else none

first_error : List (Option EngineError) → Option EngineError
first_error [] = none
first_error (none ∷ rest) = first_error rest
first_error (some e ∷ rest) = some e

-- The loop over every pair, each rule with those behind it.
check_pairs : List CompiledRule → Option EngineError
unfolding check_pair first_error
check_pairs [] = none
check_pairs (a ∷ rest) = elim (first_error (map (check_pair a) rest)) [
  | some e ↦ some e
  | none ↦ check_pairs rest
]

abbrev max : ℕ → ℕ → ℕ
max a b = if ltb a b then b else a

-- `template.len().saturating_sub(3) + 12`, the maximum over the rules, and at least 16.
longest_token : List CompiledRule → ℕ
longest_token [] = 16
longest_token (r ∷ rest) = max ((length r.template - 3) + 12) (longest_token rest)

-- `Regex::new` is a parameter.
module _ (compile : Text → Option Regex) where
  compile_rule : RuleConfig → Result EngineError CompiledRule
  unfolding can_match_empty
  compile_rule r =
      if is_empty (trim r.name) then err empty_name else elim (validate_template r.replacement) [
        | some e ↦ err (bad_template e)
        | none ↦ elim (compile r.pattern) [
          | none ↦ err bad_pattern
          | some regex ↦
              if can_match_empty regex
              then err matches_empty
              else ok (record { name = r.name; regex = regex; template = r.replacement })
        ]
      ]

  compile_rules : List RuleConfig → Result EngineError (List CompiledRule)
  unfolding compile_rule
  compile_rules [] = ok []
  compile_rules (r ∷ rest) = do
    compiled ← compile_rule r
    others ← compile_rules rest
    ok (compiled ∷ others)

  -- The built-in rules are compiled with no further check: their patterns are known to be fine, and
  -- `expect` would panic otherwise, which `bad_pattern` stands for.
  compile_builtin : List RuleConfig → Result EngineError (List CompiledRule)
  compile_builtin [] = ok []
  compile_builtin (r ∷ rest) = elim (compile r.pattern) [
    | none ↦ err bad_pattern
    | some regex ↦ do
      others ← compile_builtin rest
      ok (record { name = r.name; regex = regex; template = r.replacement } ∷ others)
  ]

  compile_allowed : List Text → Result EngineError (List Regex)
  compile_allowed [] = ok []
  compile_allowed (p ∷ rest) = elim (compile p) [
    | none ↦ err bad_allow_pattern
    | some regex ↦ do others ← compile_allowed rest; ok (regex ∷ others)
  ]

  configured_rules : List RuleConfig → Result EngineError (List CompiledRule)
  unfolding compile_rules compile_builtin
  configured_rules [] = compile_builtin default_rules
  configured_rules (r ∷ rest) = compile_rules (r ∷ rest)

  build_engine : PrivacyConfig → List CompiledRule → Result EngineError RedactionEngine
  unfolding check_pairs compile_allowed longest_token
  build_engine config rules = elim (check_pairs rules) [
    | some e ↦ err e
    | none ↦ do
      allowed ← compile_allowed config.allow_list.patterns
      ok (record {
        rules = rules;
        allow_domains = config.allow_list.domains;
        allow_patterns = allowed;
        max_token_len = longest_token rules;
      })
  ]

  -- `RedactionEngine::new`
  unfoldable pub new : PrivacyConfig → Result EngineError RedactionEngine
  unfolding configured_rules build_engine
  new config =
      if not (text_eq config.vault (text "memory"))
      then err unsupported_vault
      else do rules ← configured_rules config.rules; build_engine config rules

-- `matched.contains('@')` and the part behind the last one.
after_last : ℕ → Text → Option Text
after_last b [] = none
after_last b (c ∷ s) = elim (after_last b s) [
  | some rest ↦ some rest
  | none ↦ if c == b then some s else none
]

-- `split_once(pattern)`, the part behind the first occurrence.
after_first : Text → Text → Option Text
after_first p [] = strip_prefix p []
after_first p (c ∷ s) = elim (strip_prefix p (c ∷ s)) [
  | some rest ↦ some rest
  | none ↦ after_first p s
]

-- `rest.split(['/', '?', '#']).next()`
host_of : Text → Text
host_of [] = []
host_of (c ∷ s) =
    let more = c ∷ host_of s in if (c == b'/') || (c == b'?') || (c == b'#') then [] else more

-- The domain of an email or a URL, or the match itself.
candidate_domain : Text → Text
unfolding after_last after_first host_of
candidate_domain matched = elim (after_last b'@' matched) [
  | some domain ↦ domain
  | none ↦ elim (after_first (text "://") matched) [ some rest ↦ host_of rest | none ↦ matched ]
]

allows_domain : Text → Text → Bool
allows_domain candidate configured =
    let d = trim configured in
    not (is_empty d) && (text_eq candidate d || ends_with (text "." ++ d) candidate)

unfoldable pub is_allowed : RedactionEngine → Text → Bool
unfolding candidate_domain allows_domain
is_allowed engine matched =
    if any (λ (re : Regex). re.is_match matched) engine.allow_patterns
    then true
    else any (allows_domain (trim (candidate_domain matched))) engine.allow_domains
