-- ===== src/Privacy/Session/Scan.antt =====
-- The loop over the matches of one rule.
use mathlib.Core.Path.{subst, subst₂}
use llmgate.Prelude.{
  ℕ, ◌≡◌, ◌∙◌, sym, ap, inl, inr, Bool, true, List, [], ◌∷◌, ◌++◌, append_assoc, Text, length, any,
  arith, Bool-cases,
}
use llmgate.Prelude.Outcome.{Result, ok, ok-injective, Result-cases}
use llmgate.Privacy.Search.{Span, Ordered}
use llmgate.Privacy.Engine.{CompiledRule, RedactionEngine}
use llmgate.Privacy.Engine.Valid.{IsTemplate}
use llmgate.Privacy.Vault.{Vault, TokenError}
use llmgate.Privacy.Vault.Valid.{IsValid, Grows, Grows-refl, Grows-trans}
use llmgate.Privacy.Session.{Session, slice, overlaps, replacement_of, scan}
use llmgate.Privacy.Session.Trace.{Redacts, Redacts-append, Redacts-Grows}
use llmgate.Privacy.Session.Redact.{
  IsSound, IsStep, Progress, Advance, replacement_of-IsStep, Ordered-le, Ordered-weaken, advance,
}

-- What the loop over the matches of a rule has done.
pub record Scanned (v : Vault) (out t : Text) (token_spans : List Span) (s : Session)
    (result : Text) (last : ℕ) (s' : Session) : Type 0 where
  pub sound : IsSound s'
  pub grows : Grows s.vault s'.vault
  pub t₁ : Text
  pub redacts : Redacts s'.vault result t₁
  pub progress : Progress v out token_spans last
  pub whole : t ≡ t₁ ++ progress.t₂

abbrev Scan : Type 0
Scan = Result TokenError (Text × ℕ × Bool) × Session

module _ (engine : RedactionEngine) (rule : CompiledRule) (shape : IsTemplate rule.template)
    (v : Vault) (valid : IsValid v) (out t : Text) (token_spans : List Span) where
  pub scan-Scanned :
      (ms : List Span) (result : Text) (last : ℕ) (changed : Bool) (s : Session)
      (p : Progress v out token_spans last) (t₁ : Text)
      → Redacts s.vault result t₁
      → t ≡ t₁ ++ p.t₂
      → IsSound s
      → Grows v s.vault
      → Ordered last (length out) ms
      → (result' : Text) (last' : ℕ) (changed' : Bool) (s' : Session)
      → scan engine rule out token_spans ms result last changed s
        ≡ (ok (result', last', changed'), s')
      → Scanned v out t token_spans s result' last' s'
  unfolding scan
  scan-Scanned [] result last changed s p t₁ r whole sound grows ordered result' last' changed' s'
        h =
      let state = ok-injective (ap (λ (x : Scan). x.0) h) in
      subst₂ (λ (x : Text × ℕ × Bool) u. Scanned v out t token_spans s x.0 x.1 u) state
        (ap (λ (x : Scan). x.1) h)
        (record {
          sound = sound;
          grows = Grows-refl s.vault;
          t₁ = t₁;
          redacts = r;
          progress = p;
          whole = whole;
        })
  scan-Scanned ((ms, me) ∷ rest) result last changed s p t₁ r whole sound grows (lo, mid, ordered)
        result' last' changed' s' h =
      elim (Bool-cases (any (overlaps (ms, me)) token_spans)) [
        | inl over ↦
            scan-Scanned rest result last changed s p t₁ r whole sound grows
              (Ordered-weaken me last (length out) rest (omega arith) ordered) result' last'
              changed' s' (rw over at h)
        | inr apart ↦ elim (Result-cases (replacement_of engine rule (slice ms me out) s).0) [
          | inr (e, failed) ↦ cc (ap (λ (x : Scan). x.0) (rw (apart, failed) at h))
          | inl (piece, done) ↦
              let s₁ : Session = (replacement_of engine rule (slice ms me out) s).1 in
              let step : IsStep s piece (slice ms me out) s₁ =
                replacement_of-IsStep engine rule shape (slice ms me out) piece s s₁ sound
                  (ap (λ (x : Result TokenError Text). (x, s₁)) done) in
              let a : Advance v out token_spans last ms me p.t₂ =
                advance v valid out token_spans last ms me p lo mid
                  (Ordered-le me (length out) rest ordered) apart in
              let g : Grows v s₁.vault = Grows-trans grows step.grows in
              let later : Scanned v out t token_spans s₁ result' last' s' =
                scan-Scanned rest (result ++ (slice last ms out ++ piece)) me true s₁ a.next
                  (t₁ ++ (a.t₁ ++ slice ms me out))
                  (Redacts-append (Redacts-Grows step.grows r) (
                    Redacts-append
                      (subst (λ u. Redacts s₁.vault u a.t₁) (sym a.is_slice)
                        (Redacts-Grows g a.front))
                      step.redacts))
                  (whole ∙ ap (λ u. t₁ ++ u) a.whole ∙ simp append_assoc) step.sound g ordered
                  result' last' changed' s' (rw (apart, done) at h) in
              record {
                sound = later.sound;
                grows = Grows-trans step.grows later.grows;
                t₁ = later.t₁;
                redacts = later.redacts;
                progress = later.progress;
                whole = later.whole;
              }
        ]
      ]

module _ (engine : RedactionEngine) (rule : CompiledRule) (shape : IsTemplate rule.template)
    (out : Text) (token_spans : List Span) where
  -- The loop loses no mapping, whatever the text.
  pub scan-Grows :
      (ms : List Span) (result : Text) (last : ℕ) (changed : Bool) (s : Session)
      → IsSound s
      → (state : Text × ℕ × Bool) (s' : Session)
      → scan engine rule out token_spans ms result last changed s ≡ (ok state, s')
      → IsSound s' × Grows s.vault s'.vault
  unfolding scan
  scan-Grows [] result last changed s sound state s' h =
      subst (λ u. IsSound u × Grows s.vault u.vault) (ap (λ (x : Scan). x.1) h)
        (sound, Grows-refl s.vault)
  scan-Grows ((ms, me) ∷ rest) result last changed s sound state s' h =
      elim (Bool-cases (any (overlaps (ms, me)) token_spans)) [
        | inl over ↦ scan-Grows rest result last changed s sound state s' (rw over at h)
        | inr apart ↦ elim (Result-cases (replacement_of engine rule (slice ms me out) s).0) [
          | inr (e, failed) ↦ cc (ap (λ (x : Scan). x.0) (rw (apart, failed) at h))
          | inl (piece, done) ↦
              let s₁ : Session = (replacement_of engine rule (slice ms me out) s).1 in
              let step : IsStep s piece (slice ms me out) s₁ =
                replacement_of-IsStep engine rule shape (slice ms me out) piece s s₁ sound
                  (ap (λ (x : Result TokenError Text). (x, s₁)) done) in
              let later : IsSound s' × Grows s₁.vault s'.vault =
                scan-Grows rest (result ++ (slice last ms out ++ piece)) me true s₁ step.sound state
                  s' (rw (apart, done) at h) in
              (later.0, Grows-trans step.grows later.1)
        ]
      ]
