-- ===== src/Privacy/Vault.antt =====
-- src/core/privacy.rs: the vault of a session, and `RedactionSession::token_for`.
pub mod Valid
pub mod Fresh
use llmgate.Prelude.{
  ℕ, suc, ◌+◌, Bool, not, Option, none, some, ◌++◌, [], List, Text, text, text_eq, text_key, length,
  leb, Key, pair_beq, pair_beq_iff, if◌then◌else◌,
}
use llmgate.Prelude.Map
use llmgate.Prelude.Map.{Map}
use llmgate.Prelude.Outcome.{Result, ok, err}
use llmgate.Prelude.Decimal.{decimal}
use llmgate.Neutral.{AdapterError}
use llmgate.Privacy.Template.{render}
use llmgate.Privacy.Engine.{CompiledRule}

-- The key of `value_to_token`: a rule's name and an original value.
instance abbrev pub pair_key : Key (Text × Text)
pair_key = record { same = pair_beq text_key text_key; same_iff = pair_beq_iff text_key text_key }

pub record Vault : Type 0 where
  pub token_to_original : Map Text Text
  pub value_to_token : Map (Text × Text) Text
  pub counters : Map Text ℕ
  pub version : ℕ

-- `Vault::default()`
abbrev pub empty_vault : Vault
empty_vault = record { token_to_original = []; value_to_token = []; counters = []; version = 0 }

-- `MAX_SESSION_TOKENS`
abbrev pub max_session_tokens : ℕ
max_session_tokens = 4096

-- The two `AdapterError::Internal` of `token_for`.
pub data TokenError : Type 0 where
  cap_reached : TokenError
  collision : (token : Text) → TokenError

-- The error that each of them is.
unfoldable pub token_error : TokenError → AdapterError
token_error cap_reached = AdapterError.internal (
    text "privacy guard: session token cap ("
    ++ (decimal max_session_tokens ++ text ") reached; refusing to forward unredacted data"))
token_error (collision token) = AdapterError.internal (
    text "privacy guard: token "
    ++ (token
        ++ text
            " already maps to a different original (colliding rule templates?); refusing to forward unredacted data"))

abbrev or_zero : Option ℕ → ℕ
or_zero none = 0
or_zero (some n) = n

-- `*vault.counters.entry(name).or_insert(0)`
unfoldable pub counter : Vault → Text → ℕ
counter v name = or_zero (Map.get name v.counters)

-- The token is new to the vault, or maps to the same original.
unfoldable pub is_taken : Vault → Text → Text → Bool
is_taken v token original = elim (Map.get token v.token_to_original) [
  | none ↦ Bool.false
  | some existing ↦ not (text_eq existing original)
]

-- The vault with the mapping, and the counter that made its token.
unfoldable pub store : Vault → Text → ℕ → Text → Text → Vault
store v name n original token = record {
  token_to_original = Map.insert token original v.token_to_original;
  value_to_token = Map.insert (name, original) token v.value_to_token;
  counters = Map.insert name n v.counters;
  version = v.version + 1;
}

-- What `token_for` does for a value that has no token yet.
unfoldable pub mint : Vault → Text → Text → Text → Result TokenError Text × Vault
unfolding is_taken
mint v name template original =
    if leb max_session_tokens (length v.token_to_original)
    then (err cap_reached, v)
    else let n = counter v name + 1 in
      let token = render template n in
      if is_taken v token original
      then (err (collision token), record v { counters = Map.insert name n v.counters })
      else (ok token, store v name n original token)

-- `RedactionSession::token_for`: the token, and the vault that is left behind.
unfoldable pub token_for : Vault → CompiledRule → Text → Result TokenError Text × Vault
token_for v rule original = elim (Map.get (rule.name, original) v.value_to_token) [
  | some token ↦ (ok token, v)
  | none ↦ mint v rule.name rule.template original
]
