-- ===== src/Privacy/Session/RoundTrip.antt =====
-- A text that was redacted and comes back is restored.
use mathlib.Core.Path.{subst, subst₂}
use llmgate.Prelude.{
  ℕ, ◌≡◌, ◌∙◌, refl, sym, ap, inl, inr, Bool, true, false, Option, List, [], ◌∷◌, ◌++◌, Text, drop,
  All,
}
use llmgate.Prelude.Outcome.{Result, ok, ok-injective, Result-cases}
use llmgate.Privacy.Search.{Span, AhoCorasick, IsLeftmost, IsIterator}
use llmgate.Privacy.Engine.{CompiledRule, RedactionEngine}
use llmgate.Privacy.Engine.Valid.{IsTemplate}
use llmgate.Privacy.Vault.{Vault, TokenError}
use llmgate.Privacy.Vault.Valid.{IsValid, Grows, Grows-refl, Grows-trans, IsValid-empty_vault}
use llmgate.Privacy.Session.{
  Session, new_session, scan, close, redact_rule, redact_rules, redact_text, with_automaton,
  found_by, restore_text,
}
use llmgate.Privacy.Session.Automaton.{mem_tokens, original_of_mem, IsFresh, with_automaton-IsFresh}
use llmgate.Privacy.Session.Trace.{Redacts, nil, copied, Redacts-append, Redacts-Grows, spans}
use llmgate.Privacy.Session.Restore.{
  Unmentioned, iter-spans, restore_of_Redacts, no_spans_of_no_tokens,
}
use llmgate.Privacy.Session.Redact.{IsSound, Progress}
use llmgate.Privacy.Session.Scan.{Scanned, scan-Scanned, scan-Grows}

pub IsSound-new_session : IsSound new_session
IsSound-new_session = record { valid = IsValid-empty_vault; coherent = tt }

-- A rule as the engine holds it, over a regex that reports its matches in order.
pub record IsRule (rule : CompiledRule) : Type 0 where
  pub template : IsTemplate rule.template
  pub iterator : IsIterator rule.regex

-- A text that mentions no token of a vault mentioned none before the vault had grown to it.
Unmentioned-before : (v w : Vault) (t : Text) → Grows v w → Unmentioned w t → Unmentioned v t
Unmentioned-before v w t g absent s e o =
    let (original, known) = original_of_mem v o.pattern o.listed in
    absent s e (record {
      before = o.before;
      pattern = o.pattern;
      after = o.after;
      listed = mem_tokens w o.pattern original (g.keeps o.pattern original known);
      split = o.split;
      starts = o.starts;
      ends = o.ends;
    })

IsSound-fresh :
    (s s' : Session) (ps : Option (List Text)) → IsSound s → IsFresh s ps s' → IsSound s'
IsSound-fresh s s' ps sound f = record {
  valid = subst IsValid (sym f.same_vault) sound.valid;
  coherent = f.coherent;
}

Grows-fresh : (s s' : Session) (ps : Option (List Text)) → IsFresh s ps s' → Grows s.vault s'.vault
Grows-fresh s s' ps f = subst (Grows s.vault) (sym f.same_vault) (Grows-refl s.vault)

module _ (ac : AhoCorasick) (leftmost : IsLeftmost ac) where
  -- The spans that the loop is told of are those of the tokens in the text.
  found_by-spans :
      (s s' : Session) (ps : Option (List Text)) (out t : Text) (r : Redacts s.vault out t)
      → IsSound s
      → Unmentioned s.vault t
      → IsFresh s ps s'
      → found_by ac ps out ≡ spans r 0
  found_by-spans s s' ps out t r sound absent f = elim f.current [
    | inl (idle, empty) ↦
        ap (λ (p : Option (List Text)). found_by ac p out) idle
        ∙ sym (no_spans_of_no_tokens empty r 0)
    | inr found ↦
        ap (λ (p : Option (List Text)). found_by ac p out) found
        ∙ iter-spans ac leftmost s.vault sound.valid r [] absent
  ]

  close_lem :
      (v : Vault) (out t result : Text) (ss : List Span) (last : ℕ) (changed : Bool)
      (s s' : Session)
      → Grows v s'.vault
      → Redacts v out t
      → Scanned v out t ss s result last s'
      → Redacts s'.vault (close out (result, last, changed)) t
  unfolding close
  close_lem v out t result ss last true s s' g r c =
      subst (Redacts s'.vault (result ++ drop last out)) (sym c.whole) (
        Redacts-append c.redacts (
          subst (λ u. Redacts s'.vault u c.progress.t₂) (sym c.progress.behind_last)
            (Redacts-Grows g c.progress.rest)))
  close_lem v out t result ss last false s s' g r c = Redacts-Grows g r

  module _ (engine : RedactionEngine) where
    -- The loop that a rule that succeeds has been through.
    redact_rule_ok :
        (rule : CompiledRule) (out out' : Text) (s s' : Session)
        → redact_rule ac engine rule out s ≡ (ok out', s')
        → (state : Text × ℕ × Bool) × (scan engine rule out
              (found_by ac (with_automaton s).0 out)
              (rule.regex.find_iter out)
              []
              0
              false
              (with_automaton s).1
            ≡ (ok state, s'))
          × (close out state ≡ out')
    unfolding redact_rule
    redact_rule_ok rule out out' s s' h =
        let run =
          scan engine rule out (found_by ac (with_automaton s).0 out) (rule.regex.find_iter out) []
            0 false (with_automaton s).1 in
        elim (Result-cases run.0) [
          | inr (e, failed) ↦
              cc
                (ap (λ (x : Result TokenError Text × Session). x.0) (rw (failed, redact_rule) at h))
          | inl (state, done) ↦
              let ended : ◌≡◌ {A = Result TokenError Text × Session} (ok (close out state), run.1)
                  (ok out', s') =
                rw (done, redact_rule) at h in
              let pack : Session → Result TokenError (Text × ℕ × Bool) × Session =
                λ u. (ok state, u) in
              (
                state,
                ap (λ (x : Result TokenError (Text × ℕ × Bool)). (x, run.1)) done
                    ∙ ap pack (ap (λ (x : Result TokenError Text × Session). x.1) ended),
                ok-injective (ap (λ (x : Result TokenError Text × Session). x.0) ended),
              )
        ]

    redact_rule-Grows :
        (rule : CompiledRule) (out out' : Text) (s s' : Session)
        → IsRule rule
        → IsSound s
        → redact_rule ac engine rule out s ≡ (ok out', s')
        → IsSound s' × Grows s.vault s'.vault
    redact_rule-Grows rule out out' s s' is_rule sound h =
        let f = with_automaton-IsFresh s sound.coherent in
        let (state, scanned, closed) = redact_rule_ok rule out out' s s' h in
        let (sound', grows) =
          scan-Grows engine rule is_rule.template out (found_by ac (with_automaton s).0 out)
            (rule.regex.find_iter out) [] 0 false (with_automaton s).1
            (IsSound-fresh s (with_automaton s).1 (with_automaton s).0 sound f) state s' scanned in
        (sound', Grows-trans (Grows-fresh s (with_automaton s).1 (with_automaton s).0 f) grows)

    -- A rule over a text that is redacted already.
    redact_rule-Redacts :
        (rule : CompiledRule) (out out' t : Text) (s s' : Session)
        → IsRule rule
        → IsSound s
        → Redacts s.vault out t
        → Unmentioned s.vault t
        → redact_rule ac engine rule out s ≡ (ok out', s')
        → Redacts s'.vault out' t
    redact_rule-Redacts rule out out' t s s' is_rule sound r absent h =
        let f = with_automaton-IsFresh s sound.coherent in
        let s₁ : Session = (with_automaton s).1 in
        let ss : List Span = found_by ac (with_automaton s).0 out in
        let ((result, last, changed), scanned, closed) = redact_rule_ok rule out out' s s' h in
        let start : Progress s.vault out ss 0 = record {
          remaining = out;
          t₂ = t;
          rest = r;
          behind_last = refl;
          before = [];
          known = found_by-spans s s₁ (with_automaton s).0 out t r sound absent f;
        } in
        let c =
          scan-Scanned engine rule is_rule.template s.vault sound.valid out t ss
            (rule.regex.find_iter out) [] 0 false s₁ start [] nil refl
            (IsSound-fresh s s₁ (with_automaton s).0 sound f)
            (Grows-fresh s s₁ (with_automaton s).0 f) (is_rule.iterator out) result last changed s'
            scanned in
        subst (λ u. Redacts s'.vault u t) closed
          (close_lem s.vault out t result ss last changed s₁ s'
            (Grows-trans (Grows-fresh s s₁ (with_automaton s).0 f) c.grows) r c)

    redact_rules_ok :
        (rule : CompiledRule) (rest : List CompiledRule) (out out' : Text) (s s' : Session)
        → redact_rules ac engine (rule ∷ rest) out s ≡ (ok out', s')
        → (mid : Text) × (s₁ : Session) × (redact_rule ac engine rule out s ≡ (ok mid, s₁))
          × (redact_rules ac engine rest mid s₁ ≡ (ok out', s'))
    unfolding redact_rules
    redact_rules_ok rule rest out out' s s' h =
        let run = redact_rule ac engine rule out s in
        elim (Result-cases run.0) [
          | inr (e, failed) ↦
              cc (
                ap (λ (x : Result TokenError Text × Session). x.0) (rw (failed, redact_rules) at h))
          | inl (mid, done) ↦ (
            mid,
            run.1,
            ap (λ (x : Result TokenError Text). (x, run.1)) done,
            rw (done, redact_rules) at h,
          )
        ]

    redact_rules-Grows :
        (rules : List CompiledRule) (out out' : Text) (s s' : Session)
        → All IsRule rules
        → IsSound s
        → redact_rules ac engine rules out s ≡ (ok out', s')
        → IsSound s' × Grows s.vault s'.vault
    unfolding redact_rules
    redact_rules-Grows [] out out' s s' are_rules sound h =
        subst (λ u. IsSound u × Grows s.vault u.vault)
          (ap (λ (x : Result TokenError Text × Session). x.1) h) (sound, Grows-refl s.vault)
    redact_rules-Grows (rule ∷ rest) out out' s s' (is_rule, are_rules) sound h =
        let (mid, s₁, first, later) = redact_rules_ok rule rest out out' s s' h in
        let (sound₁, grows₁) = redact_rule-Grows rule out mid s s₁ is_rule sound first in
        let (sound₂, grows₂) = redact_rules-Grows rest mid out' s₁ s' are_rules sound₁ later in
        (sound₂, Grows-trans grows₁ grows₂)

    redact_rules-Redacts :
        (rules : List CompiledRule) (out out' t : Text) (s s' : Session)
        → All IsRule rules
        → IsSound s
        → Redacts s.vault out t
        → Unmentioned s'.vault t
        → redact_rules ac engine rules out s ≡ (ok out', s')
        → Redacts s'.vault out' t
    unfolding redact_rules
    redact_rules-Redacts [] out out' t s s' are_rules sound r absent h =
        subst₂ (λ o (u : Session). Redacts u.vault o t)
          (ok-injective (ap (λ (x : Result TokenError Text × Session). x.0) h))
          (ap (λ (x : Result TokenError Text × Session). x.1) h) r
    redact_rules-Redacts (rule ∷ rest) out out' t s s' (is_rule, are_rules) sound r absent h =
        let (mid, s₁, first, later) = redact_rules_ok rule rest out out' s s' h in
        let (sound₁, grows₁) = redact_rule-Grows rule out mid s s₁ is_rule sound first in
        let (sound₂, grows₂) = redact_rules-Grows rest mid out' s₁ s' are_rules sound₁ later in
        redact_rules-Redacts rest mid out' t s₁ s' are_rules sound₁
          (redact_rule-Redacts rule out mid t s s₁ is_rule sound r
            (Unmentioned-before s.vault s'.vault t (Grows-trans grows₁ grows₂) absent) first)
          absent later

    module _ (are_rules : All IsRule engine.rules) where
      -- A call of `redact_text` that succeeds loses no mapping.
      pub redact_text-Grows :
          (t out : Text) (s s' : Session)
          → IsSound s
          → redact_text ac engine t s ≡ (ok out, s')
          → IsSound s' × Grows s.vault s'.vault
      unfolding redact_text
      redact_text-Grows t out s s' sound h =
          redact_rules-Grows engine.rules t out s s' are_rules sound h

      pub redact_text-Redacts :
          (t out : Text) (s s' : Session)
          → IsSound s
          → Unmentioned s'.vault t
          → redact_text ac engine t s ≡ (ok out, s')
          → Redacts s'.vault out t
      unfolding redact_text
      redact_text-Redacts t out s s' sound absent h =
          redact_rules-Redacts engine.rules t out t s s' are_rules sound (copied t) absent h

      -- Restoring undoes redaction: where the session has redacted `t` to `out`, `restore_text`
      -- gives `t` back, in that session and in every later one that has kept its mappings, if no
      -- token that the later session has minted stood in `t` already. The rules may be any that the
      -- engine's constructor accepts, over any regexes that report their matches in order.
      pub restore_text-redact_text :
          (t out : Text) (s s' later : Session)
          → IsSound s
          → redact_text ac engine t s ≡ (ok out, s')
          → IsSound later
          → Grows s'.vault later.vault
          → Unmentioned later.vault t
          → (restore_text ac out later).0 ≡ t
      restore_text-redact_text t out s s' later sound h sound_later grows absent =
          restore_of_Redacts ac later out t leftmost sound_later.valid sound_later.coherent
            (Redacts-Grows grows (
              redact_text-Redacts t out s s' sound
                (Unmentioned-before s'.vault later.vault t grows absent) h))
            absent
