-- ===== src/Privacy/Session.antt =====
-- src/core/privacy.rs: `RedactionSession`. Its mutex and its lock guard one request's state, which is
-- passed along here; the second look at the cache, behind the write lock, sees what the first saw.
pub mod Automaton
pub mod Reached
pub mod Trace
pub mod Restore
pub mod Redact
pub mod Scan
pub mod RoundTrip
use llmgate.Prelude.{
  ℕ, ◌-◌, Bool, true, false, ◌&&◌, Option, none, some, List, [], ◌∷◌, ◌++◌, Text, length, take,
  drop, any, ltb, ◌==◌, text_key, if◌then◌else◌,
}
use llmgate.Prelude.Map
use llmgate.Prelude.Outcome.{Result, ok, err}
use llmgate.Privacy.Search.{Span, Regex, AhoCorasick}
use llmgate.Privacy.Engine.{CompiledRule, RedactionEngine, is_allowed}
use llmgate.Privacy.Vault.{Vault, TokenError, empty_vault, token_for}

pub record Session : Type 0 where
  pub vault : Vault
  -- The patterns that the cached automaton was built over, with the version of the vault then.
  pub automaton : Option (ℕ × List Text)

-- `RedactionSession::new`
abbrev pub new_session : Session
new_session = record { vault = empty_vault; automaton = none }

-- `token_count`, for telemetry.
unfoldable pub token_count : Session → ℕ
token_count s = length s.vault.token_to_original

-- `lookup`
unfoldable pub lookup : Session → Text → Option Text
lookup s token = Map.get token s.vault.token_to_original

-- The cached automaton, where it is of this version.
cached : ℕ → Option (ℕ × List Text) → Option (List Text)
cached now none = none
cached now (some (version, patterns)) = if version == now then some patterns else none

rebuild : Session → List Text → Option (List Text) × Session
rebuild s [] = (none, s)
rebuild s (p ∷ ps) = (some (p ∷ ps), record s { automaton = some (s.vault.version, p ∷ ps) })

-- `with_automaton`: the patterns of the automaton that its argument is run against.
unfoldable pub with_automaton : Session → Option (List Text) × Session
unfolding cached rebuild
with_automaton s = elim (cached s.vault.version s.automaton) [
  | some patterns ↦ (some patterns, s)
  | none ↦ rebuild s (Map.keys s.vault.token_to_original)
]

-- `&text[from..to]`
abbrev pub slice : ℕ → ℕ → Text → Text
slice from to t = take (to - from) (drop from t)

-- `m.start() < e && m.end() > s`
abbrev pub overlaps : Span → Span → Bool
overlaps (ms, me) (s, e) = ltb ms e && ltb s me

abbrev pub found_by : AhoCorasick → Option (List Text) → Text → List Span
found_by ac none t = []
found_by ac (some patterns) t = ac.find_iter patterns t

module _ (engine : RedactionEngine) (rule : CompiledRule) where
  -- What a match gives way to.
  pub replacement_of : Text → Session → Result TokenError Text × Session
  replacement_of matched s =
      if is_allowed engine matched
      then (ok matched, s)
      else let (r, v) = token_for s.vault rule matched in (r, record s { vault = v })

  -- The loop over the matches of one rule: `result`, `last` and `changed` are its variables.
  pub scan :
      (out : Text) (token_spans : List Span)
      → List Span
      → Text
      → ℕ
      → Bool
      → Session
      → Result TokenError (Text × ℕ × Bool) × Session
  unfolding replacement_of
  scan out token_spans [] result last changed s = (ok (result, last, changed), s)
  scan out token_spans ((ms, me) ∷ rest) result last changed s =
      let skipped = scan out token_spans rest result last changed s in
      let (r, s') = replacement_of (slice ms me out) s in
      let replaced : Result TokenError (Text × ℕ × Bool) × Session = elim r [
        | err e ↦ (err e, s')
        | ok piece ↦ scan out token_spans rest (result ++ (slice last ms out ++ piece)) me true s'
      ] in
      if any (overlaps (ms, me)) token_spans then skipped else replaced

-- `if changed { result.push_str(&out[last..]); out = result }`
pub close : Text → Text × ℕ × Bool → Text
close out (result, last, changed) = if changed then result ++ drop last out else out

module _ (ac : AhoCorasick) (engine : RedactionEngine) where
  -- One rule over the whole text.
  pub redact_rule : CompiledRule → Text → Session → Result TokenError Text × Session
  unfolding scan close
  redact_rule rule out s =
      let (patterns, s') = with_automaton s in
      let token_spans = found_by ac patterns out in
      let (r, s'') = scan engine rule out token_spans (rule.regex.find_iter out) [] 0 false s' in
      elim r [ err e ↦ (err e, s'') | ok state ↦ (ok (close out state), s'') ]

  pub redact_rules : List CompiledRule → Text → Session → Result TokenError Text × Session
  unfolding redact_rule
  redact_rules [] out s = (ok out, s)
  redact_rules (rule ∷ rest) out s =
      let (r, s') = redact_rule rule out s in
      elim r [ err e ↦ (err e, s') | ok out' ↦ redact_rules rest out' s' ]

  -- `RedactionSession::redact_text`
  unfoldable pub redact_text : Text → Session → Result TokenError Text × Session
  unfolding redact_rules
  redact_text t s = redact_rules engine.rules t s

-- `self.lookup(token).unwrap_or_else(|| token.to_string())`
unfoldable pub original_or : Session → Text → Text
unfolding lookup
original_or s token = elim (lookup s token) [ none ↦ token | some original ↦ original ]

splice : Session → Text → List Span → ℕ → Text → Text
splice s t [] last out = out ++ drop last t
splice s t ((ms, me) ∷ rest) last out =
    splice s t rest me (out ++ (slice last ms t ++ original_or s (slice ms me t)))

-- `RedactionSession::restore_text`
unfoldable pub restore_text : AhoCorasick → Text → Session → Text × Session
unfolding splice
restore_text ac t s =
    let (patterns, s') = with_automaton s in
    let restored : Text = elim patterns [
      | none ↦ t
      | some ps ↦ splice s t (ac.find_iter ps t) 0 []
    ] in
    (restored, s')
