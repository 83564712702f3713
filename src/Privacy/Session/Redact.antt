-- ===== src/Privacy/Session/Redact.antt =====
-- Redaction replaces matches by tokens that map back to them.
use mathlib.Core.Path.{subst, subst₂}
use llmgate.Prelude.{
  ℕ, ◌+◌, ◌-◌, ◌≤◌, ◌<◌, ◌≡◌, ◌∙◌, sym, ap, ◌⊎◌, inl, inr, false, List, [], ◌∷◌, ◌++◌, append_assoc,
  append-nil, Text, length, take, drop, length-append, length-drop, any, arith, Bool-cases,
  take-length-append, drop-length-append, drop-drop, All, All-zip, nil_of_All, All_of_any-false,
  All_mono, All-append_left, All-append_right,
}
use llmgate.Prelude.Outcome.{Result, ok, ok-injective}
use llmgate.Privacy.Search.{Span, Ordered}
use llmgate.Privacy.Engine.{CompiledRule, RedactionEngine, is_allowed}
use llmgate.Privacy.Engine.Valid.{IsTemplate}
use llmgate.Privacy.Vault.{Vault, TokenError, token_for}
use llmgate.Privacy.Vault.Valid.{IsValid, Grows, Grows-refl, token_for-IsMinted}
use llmgate.Privacy.Session.{Session, slice, overlaps, replacement_of}
use llmgate.Privacy.Session.Automaton.{IsCoherent, IsCoherent-later}
use llmgate.Privacy.Session.Trace.{
  Redacts, nil, token, copied, spans, Clear, Cut, cut, eq_of_no_spans, spans_inside,
}

-- The state of a session between two steps.
pub record IsSound (s : Session) : Type 0 where
  pub valid : IsValid s.vault
  pub coherent : IsCoherent s.vault s.automaton

-- A step from one session to the next that replaced `t` by `out`.
pub record IsStep (s : Session) (out t : Text) (s' : Session) : Type 0 where
  pub sound : IsSound s'
  pub grows : Grows s.vault s'.vault
  pub redacts : Redacts s'.vault out t

module _ (engine : RedactionEngine) (rule : CompiledRule) (shape : IsTemplate rule.template) where
  pub replacement_of-IsStep :
      (matched piece : Text) (s s' : Session)
      → IsSound s
      → replacement_of engine rule matched s ≡ (ok piece, s')
      → IsStep s piece matched s'
  unfolding replacement_of
  replacement_of-IsStep matched piece s s' sound h = elim (Bool-cases (is_allowed engine matched)) [
    | inl allowed ↦
        let done : ◌≡◌ {A = Result TokenError Text × Session} (ok matched, s) (ok piece, s') =
          rw allowed at h in
        subst₂ (λ p u. IsStep s p matched u)
          (ok-injective (ap (λ (p : Result TokenError Text × Session). p.0) done))
          (ap (λ (p : Result TokenError Text × Session). p.1) done)
          (record { sound = sound; grows = Grows-refl s.vault; redacts = copied matched })
    | inr sensitive ↦
        let w : Vault = (token_for s.vault rule matched).1 in
        let done : ◌≡◌ {A = Result TokenError Text × Session}
            ((token_for s.vault rule matched).0, record s { vault = w }) (ok piece, s') =
          rw sensitive at h in
        let minted : token_for s.vault rule matched ≡ (ok piece, w) =
          ap (λ (r : Result TokenError Text). (r, w))
            (ap (λ (p : Result TokenError Text × Session). p.0) done) in
        let m = token_for-IsMinted s.vault w rule matched piece shape sound.valid minted in
        subst (λ u. IsStep s piece matched u)
          (ap (λ (p : Result TokenError Text × Session). p.1) done)
          (record {
            sound = record {
              valid = m.valid;
              coherent = IsCoherent-later s.vault w s.automaton m.versioned sound.coherent;
            };
            grows = m.grows;
            redacts =
                subst₂ (Redacts w) (append-nil piece) (append-nil matched)
                  (token piece matched m.maps nil);
          })
  ]

pub Ordered-le : (at len : ℕ) (ms : List Span) → Ordered at len ms → at ≤ len
Ordered-le at len [] h = h
Ordered-le at len ((s, e) ∷ ms) (p, q, h) = omega (arith, Ordered-le e len ms h)

pub Ordered-weaken :
    (at at' len : ℕ) (ms : List Span) → at' ≤ at → Ordered at len ms → Ordered at' len ms
Ordered-weaken at at' len [] le h = omega arith
Ordered-weaken at at' len ((s, e) ∷ ms) le (p, q, h) = (omega arith, q, h)

Clear-of_apart :
    (ms me x : ℕ) (ss : List Span)
    → ms ≤ x
    → x ≤ me
    → All (λ s. overlaps (ms, me) s ≡ false) ss
    → Clear x ss
Clear-of_apart ms me x ss lo hi h =
    All_mono (λ s. overlaps (ms, me) s ≡ false) (λ s. (x ≤ s.0) ⊎ (s.1 ≤ x)) (λ s p. ground arith)
      ss h

-- How far the loop over the matches of a rule has come: what is behind `last`, where the tokens of
-- the text are those that the loop was told of.
pub record Progress (v : Vault) (out : Text) (token_spans : List Span) (last : ℕ) : Type 0 where
  pub remaining : Text
  pub t₂ : Text
  pub rest : Redacts v remaining t₂
  pub behind_last : drop last out ≡ remaining
  pub before : List Span
  pub known : token_spans ≡ before ++ spans rest last

-- A match that overlaps no token splits what is behind `last` in three.
pub record Advance (v : Vault) (out : Text) (token_spans : List Span) (last ms me : ℕ) (t₂ : Text)
    : Type 0 where
  pub literal : Text
  pub t₁ : Text
  pub front : Redacts v literal t₁
  pub is_slice : slice last ms out ≡ literal
  pub next : Progress v out token_spans me
  pub whole : t₂ ≡ t₁ ++ (slice ms me out ++ next.t₂)

module _ (v : Vault) (valid : IsValid v) (out : Text) (token_spans : List Span) where
  no_token_within :
      {o m : Text} (r : Redacts v o m) (ms me : ℕ)
      → me ≡ ms + length o
      → All (λ s. overlaps (ms, me) s ≡ false) (spans r ms)
      → spans r ms ≡ []
  no_token_within {o} r ms me e h =
      nil_of_All
        (λ (s : Span).
          (overlaps (ms, me) s ≡ false) × ((ms ≤ s.0) × (s.0 < s.1) × (s.1 ≤ ms + length o)))
        (λ s p. ground arith) (spans r ms)
        (All-zip (λ s. overlaps (ms, me) s ≡ false) _ (spans r ms) h (spans_inside r ms valid))

  behind : (last : ℕ) (a b : Text) → drop last out ≡ a ++ b → drop (last + length a) out ≡ b
  behind last a b e =
      sym (drop-drop last (length a) out) ∙ ap (drop (length a)) e ∙ drop-length-append a b

  within :
      (last x : ℕ) (a b : Text)
      → drop last out ≡ a ++ b
      → x ≡ last + length a
      → slice last x out ≡ a
  within last x a b e h =
      let width : x - last ≡ length a = omega arith in
      ap (λ n. take n (drop last out)) width ∙ ap (take (length a)) e ∙ take-length-append a b

  abbrev Apart : ℕ → ℕ → List Span → Type 0
  Apart ms me = All (λ s. overlaps (ms, me) s ≡ false)

  Cut-twice :
      (last ms me : ℕ) (p : Progress v out token_spans last) (c : Cut p.rest last ms)
      (d : Cut c.second ms me)
      → Apart ms me (spans d.first ms)
      → Advance v out token_spans last ms me p.t₂
  Cut-twice last ms me p c d apart =
      let at_match : drop ms out ≡ c.out₂ =
        ap (λ n. drop n out) c.position ∙ behind last c.out₁ c.out₂ (p.behind_last ∙ c.outs) in
      let copy : d.out₁ ≡ d.t₁ =
        eq_of_no_spans d.first ms (no_token_within d.first ms me d.position apart) in
      let matched : slice ms me out ≡ d.t₁ =
        within ms me d.out₁ d.out₂ (at_match ∙ d.outs) d.position ∙ copy in
      record {
        literal = c.out₁;
        t₁ = c.t₁;
        front = c.first;
        is_slice = within last ms c.out₁ c.out₂ (p.behind_last ∙ c.outs) c.position;
        next = record {
          remaining = d.out₂;
          t₂ = d.t₂;
          rest = d.second;
          behind_last =
              ap (λ n. drop n out) d.position ∙ behind ms d.out₁ d.out₂ (at_match ∙ d.outs);
          before = (p.before ++ spans c.first last) ++ spans d.first ms;
          known =
              p.known
              ∙ ap (λ ss. p.before ++ ss) (c.tokens ∙ ap (λ ss. spans c.first last ++ ss) d.tokens)
              ∙ simp append_assoc;
        };
        whole = c.texts ∙ ap (λ u. c.t₁ ++ u) (d.texts ∙ ap (λ u. u ++ d.t₂) (sym matched));
      }

  Cut-once :
      (last ms me : ℕ) (p : Progress v out token_spans last) (c : Cut p.rest last ms)
      → ms ≤ me
      → me ≤ ms + length c.out₂
      → Apart ms me (spans c.second ms)
      → Advance v out token_spans last ms me p.t₂
  Cut-once last ms me p c mid hi apart =
      let d : Cut c.second ms me =
        cut c.second ms me mid hi
          (Clear-of_apart ms me me (spans c.second ms) mid (omega arith) apart) in
      Cut-twice last ms me p c d (
        All-append_left (λ s. overlaps (ms, me) s ≡ false) (spans d.first ms) (spans d.second me)
          (subst (Apart ms me) d.tokens apart))

  pub advance :
      (last ms me : ℕ) (p : Progress v out token_spans last)
      → last ≤ ms
      → ms ≤ me
      → me ≤ length out
      → any (overlaps (ms, me)) token_spans ≡ false
      → Advance v out token_spans last ms me p.t₂
  advance last ms me p lo mid hi apart =
      let here : Apart ms me (spans p.rest last) =
        All-append_right (λ s. overlaps (ms, me) s ≡ false) p.before (spans p.rest last)
          (subst (Apart ms me) p.known (All_of_any-false (overlaps (ms, me)) token_spans apart)) in
      let size : length p.remaining ≡ length out - last =
        sym (ap length p.behind_last) ∙ length-drop last out in
      let c : Cut p.rest last ms =
        cut p.rest last ms lo (omega arith)
          (Clear-of_apart ms me ms (spans p.rest last) (omega arith) mid here) in
      Cut-once last ms me p c mid
        (omega (arith, ap length c.outs, length-append c.out₁ c.out₂, c.position))
        (All-append_right (λ s. overlaps (ms, me) s ≡ false) (spans c.first last)
          (spans c.second ms) (subst (Apart ms me) c.tokens here))
