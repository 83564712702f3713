-- ===== src/Privacy/Session/Reached.antt =====
-- The sessions that the code gets to, and what their automaton is run over.
use llmgate.Prelude.{
  ℕ, ◌<◌, ◌≡◌, ◌⊎◌, inl, inr, true, false, List, [], ◌∷◌, ◌++◌, Bool, Text, any, Bool-cases,
}
use llmgate.Prelude.Map
use llmgate.Prelude.Outcome.{Result-cases}
use llmgate.Privacy.Search.{Span, AhoCorasick}
use llmgate.Privacy.Engine.{CompiledRule, RedactionEngine, is_allowed}
use llmgate.Privacy.Vault.{Vault, pair_key, token_for}
use llmgate.Privacy.Session.{
  Session, new_session, with_automaton, slice, overlaps, found_by, replacement_of, scan,
  redact_rule, redact_rules, redact_text, restore_text,
}

-- A session as it begins, and after any calls of `token_for` and uses of the automaton, in any order.
pub data Reached : Session → Type 0 where
  begun : Reached new_session
  asked :
      {s : Session} (rule : CompiledRule) (original : Text)
      → Reached s
      → Reached (record s { vault = (token_for s.vault rule original).1 })
  used : {s : Session} → Reached s → Reached (with_automaton s).1

-- A vault's tokens have not changed, or its version has.
abbrev Moves : Vault → Vault → Type 0
Moves v w =
    (w.version ≡ v.version) × (w.token_to_original ≡ v.token_to_original) ⊎ (v.version < w.version)

module _ (engine : RedactionEngine) (rule : CompiledRule) where
  replacement_of-Reached :
      (matched : Text) {s : Session} → Reached s → Reached (replacement_of engine rule matched s).1
  unfolding replacement_of
  replacement_of-Reached matched h = elim (Bool-cases (is_allowed engine matched)) [
    | inl allowed ↦ rw (allowed, replacement_of) h
    | inr replaced ↦ rw (replaced, replacement_of) (Reached.asked rule matched h)
  ]

  scan-Reached :
      (out : Text) (token_spans spans : List Span) (result : Text) (last : ℕ) (changed : Bool)
      {s : Session}
      → Reached s
      → Reached (scan engine rule out token_spans spans result last changed s).1
  unfolding scan
  scan-Reached out token_spans [] result last changed h = h
  scan-Reached out token_spans ((ms, me) ∷ rest) result last changed {s} h =
      let r = replacement_of engine rule (slice ms me out) s in
      let after = replacement_of-Reached (slice ms me out) h in
      elim (Bool-cases (any (overlaps (ms, me)) token_spans)) [
        | inl skipped ↦ rw skipped (scan-Reached out token_spans rest result last changed h)
        | inr taken ↦ elim (Result-cases r.0) [
          | inl (piece, fine) ↦
              rw (taken, fine)
                (scan-Reached out token_spans rest (result ++ (slice last ms out ++ piece)) me true
                  after)
          | inr (e, bad) ↦ rw (taken, bad) after
        ]
      ]

module _ (ac : AhoCorasick) (engine : RedactionEngine) where
  redact_rule-Reached :
      (rule : CompiledRule) (out : Text) {s : Session}
      → Reached s
      → Reached (redact_rule ac engine rule out s).1
  unfolding redact_rule
  redact_rule-Reached rule out {s} h =
      let (patterns, s') = with_automaton s in
      let spans = rule.regex.find_iter out in
      let r = scan engine rule out (found_by ac patterns out) spans [] 0 false s' in
      let after =
        scan-Reached engine rule out (found_by ac patterns out) spans [] 0 false (Reached.used h) in
      elim (Result-cases r.0) [
        | inl (state, fine) ↦ rw (fine, redact_rule) after
        | inr (e, bad) ↦ rw (bad, redact_rule) after
      ]

  redact_rules-Reached :
      (rules : List CompiledRule) (out : Text) {s : Session}
      → Reached s
      → Reached (redact_rules ac engine rules out s).1
  unfolding redact_rules
  redact_rules-Reached [] out h = h
  redact_rules-Reached (rule ∷ rest) out {s} h =
      let r = redact_rule ac engine rule out s in
      let after = redact_rule-Reached rule out h in
      elim (Result-cases r.0) [
        | inl (out', fine) ↦ rw (fine, redact_rules) (redact_rules-Reached rest out' after)
        | inr (e, bad) ↦ rw (bad, redact_rules) after
      ]

  -- What redacts and what restores a text goes from a reached session to a reached one.
  pub redact_text-Reached :
      (t : Text) {s : Session} → Reached s → Reached (redact_text ac engine t s).1
  unfolding redact_text
  redact_text-Reached t h = redact_rules-Reached engine.rules t h

  pub restore_text-Reached : (t : Text) {s : Session} → Reached s → Reached (restore_text ac t s).1
  unfolding restore_text
  restore_text-Reached t h = Reached.used h
