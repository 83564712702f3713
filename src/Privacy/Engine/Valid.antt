-- ===== src/Privacy/Engine/Valid.antt =====
-- What `RedactionEngine::new` establishes of every engine that it returns.
use mathlib.Core.Path.{subst}
use llmgate.Prelude.{
  ℕ, sym, ap, ◌∙◌, ◌+◌, ◌-◌, ◌≤◌, ◌≡◌, refl, ◌≢◌, inl, inr, false, Option, none, List, [], ◌∷◌, map,
  Text, text, text_eq, text_eq_iff, length, arith, Bool-cases, Option-cases, All, All_mono,
}
use llmgate.Prelude.Strings.{strip_prefix, strip_suffix, count}
use llmgate.Prelude.Outcome.{ok, >>=-eq-ok, ok-injective}
use llmgate.Privacy.Template.{validate_template, template_prefix, digit_suffix_collides, render}
use llmgate.Privacy.Template.Grammar.{
  IsName, template_of, token_of, template_prefix_lem, render_lem, validate_template_iff,
}
use llmgate.Privacy.Template.Namespace.{token_of_injective}
use llmgate.Privacy.Search.{Regex}
use llmgate.Privacy.Engine.{
  PrivacyConfig, RuleConfig, CompiledRule, RedactionEngine, default_rules, check_pair, first_error,
  check_pairs, longest_token, compile_rule, compile_rules, compile_builtin, compile_allowed,
  configured_rules, build_engine, new,
}

-- A template of the token grammar.
abbrev pub IsTemplate : Text → Type 0
IsTemplate t = (name : Text) × IsName name × (t ≡ template_of name)

abbrev Templates : List CompiledRule → Type 0
Templates = All (λ r. IsTemplate r.template)

-- Two rules whose token names differ, and of which no two counters, which start at 1, make the same
-- token.
pub record AreApart (a b : CompiledRule) : Type 0 where
  pub minted : (n m : ℕ) → render a.template (n + 1) ≢ render b.template (m + 1)
  pub distinct : template_prefix a.template ≢ template_prefix b.template
  pub disjoint :
      digit_suffix_collides (template_prefix a.template) (template_prefix b.template) ≡ false

abbrev pub Pairwise : List CompiledRule → Type 0
Pairwise [] = Unit
Pairwise (a ∷ rest) = All (AreApart a) rest × Pairwise rest

pub record IsValid (engine : RedactionEngine) : Type 0 where
  pub templates : All (λ r. IsTemplate r.template) engine.rules
  pub apart : Pairwise engine.rules
  pub fits : All (λ r. (length r.template - 3) + 12 ≤ engine.max_token_len) engine.rules
  pub wide : 16 ≤ engine.max_token_len

check_pair-AreApart :
    (a b : CompiledRule)
    → IsTemplate a.template
    → IsTemplate b.template
    → check_pair a b ≡ none
    → AreApart a b
unfolding check_pair
check_pair-AreApart a b (na, named_a, ea) (nb, named_b, eb) h =
    let differ : template_prefix a.template ≢ template_prefix b.template =
      λ e. ground (arith, text_eq_iff (template_prefix a.template) (template_prefix b.template)) in
    let apart : digit_suffix_collides (template_prefix a.template) (template_prefix b.template)
        ≡ false =
      ground arith in
    let pa : template_prefix a.template ≡ na = ap template_prefix ea ∙ template_prefix_lem na in
    let pb : template_prefix b.template ≡ nb = ap template_prefix eb ∙ template_prefix_lem nb in
    record {
      minted = λ n m e.
          let tokens : token_of na (n + 1) ≡ token_of nb (m + 1) =
            sym (ap (λ t. render t (n + 1)) ea ∙ render_lem na (n + 1) named_a)
            ∙ e
            ∙ (ap (λ t. render t (m + 1)) eb ∙ render_lem nb (m + 1) named_b) in
          differ (
            pa
            ∙ (token_of_injective na nb (n + 1) (m + 1) (rw (pa, pb) at apart) (omega arith)
                (omega arith) tokens).0
            ∙ sym pb);
      distinct = differ;
      disjoint = apart;
    }

first_error-none :
    (a : CompiledRule) (rest : List CompiledRule)
    → IsTemplate a.template
    → Templates rest
    → first_error (map (check_pair a) rest) ≡ none
    → All (AreApart a) rest
unfolding first_error
first_error-none a [] shape shapes h = tt
first_error-none a (b ∷ rest) shape (shape_b, shapes) h = elim (Option-cases (check_pair a b)) [
  | inl fine ↦ (
    check_pair-AreApart a b shape shape_b fine,
    first_error-none a rest shape shapes (rw (fine, first_error) at h),
  )
  | inr (e, bad) ↦ cc (rw (bad, first_error) at h)
]

check_pairs-Pairwise :
    (rules : List CompiledRule) → Templates rules → check_pairs rules ≡ none → Pairwise rules
unfolding check_pairs
check_pairs-Pairwise [] shapes h = tt
check_pairs-Pairwise (a ∷ rest) (shape, shapes) h =
    elim (Option-cases (first_error (map (check_pair a) rest))) [
      | inl fine ↦ (
        first_error-none a rest shape shapes fine,
        check_pairs-Pairwise rest shapes (rw (fine, check_pairs) at h),
      )
      | inr (e, bad) ↦ cc (rw (bad, check_pairs) at h)
    ]

longest_token-bounds :
    (rules : List CompiledRule)
    → All (λ r. (length r.template - 3) + 12 ≤ longest_token rules) rules
      × (16 ≤ longest_token rules)
unfolding longest_token
longest_token-bounds [] = (tt, omega arith)
longest_token-bounds (r ∷ rest) =
    let (fits, wide) = longest_token-bounds rest in
    (
      (
        ground arith,
        All_mono (λ s. (length s.template - 3) + 12 ≤ longest_token rest) _ (λ s h. ground arith)
            rest fits,
      ),
      ground arith,
    )

default_rules-IsTemplate : All (λ r. IsTemplate r.replacement) default_rules
unfolding validate_template strip_prefix strip_suffix text_eq count
default_rules-IsTemplate = (
  (validate_template_iff (text "<EMAIL_{n}>")).0 refl,
  (
    (validate_template_iff (text "<IP_{n}>")).0 refl,
    (
      (validate_template_iff (text "<PHONE_{n}>")).0 refl,
      ((validate_template_iff (text "<SECRET_{n}>")).0 refl, tt),
    ),
  ),
)

module _ (compile : Text → Option Regex) where
  compile_rule-IsTemplate :
      (r : RuleConfig) (c : CompiledRule) → compile_rule compile r ≡ ok c → IsTemplate c.template
  unfolding compile_rule
  compile_rule-IsTemplate r c h =
      let valid : validate_template r.replacement ≡ none = ground arith in
      let same : r.replacement ≡ c.template = ground arith in
      (validate_template_iff c.template).0 (rw same at valid)

  compile_rules-IsTemplate :
      (rules : List RuleConfig) (compiled : List CompiledRule)
      → compile_rules compile rules ≡ ok compiled
      → Templates compiled
  unfolding compile_rules
  compile_rules-IsTemplate [] compiled h = subst Templates (ok-injective h) tt
  compile_rules-IsTemplate (r ∷ rest) compiled h =
      let (c, first, h') = >>=-eq-ok (compile_rule compile r) _ h in
      let (cs, others, done) = >>=-eq-ok (compile_rules compile rest) _ h' in
      subst Templates (ok-injective done)
        (compile_rule-IsTemplate r c first, compile_rules-IsTemplate rest cs others)

  compile_builtin-IsTemplate :
      (rules : List RuleConfig) (compiled : List CompiledRule)
      → All (λ r. IsTemplate r.replacement) rules
      → compile_builtin compile rules ≡ ok compiled
      → Templates compiled
  unfolding compile_builtin
  compile_builtin-IsTemplate [] compiled valid h = subst Templates (ok-injective h) tt
  compile_builtin-IsTemplate (r ∷ rest) compiled (here, valid) h =
      elim (Option-cases (compile r.pattern)) [
        | inl bad ↦ cc (rw (bad, compile_builtin) at h)
        | inr (regex, fine) ↦
            let (cs, others, done) =
              >>=-eq-ok (compile_builtin compile rest) _ (rw (fine, compile_builtin) at h) in
            subst Templates (ok-injective done)
              (here, compile_builtin-IsTemplate rest cs valid others)
      ]

  configured_rules-IsTemplate :
      (rules : List RuleConfig) (compiled : List CompiledRule)
      → configured_rules compile rules ≡ ok compiled
      → Templates compiled
  unfolding configured_rules
  configured_rules-IsTemplate [] compiled h =
      compile_builtin-IsTemplate default_rules compiled default_rules-IsTemplate h
  configured_rules-IsTemplate (r ∷ rest) compiled h = compile_rules-IsTemplate (r ∷ rest) compiled h

  build_engine-IsValid :
      (config : PrivacyConfig) (rules : List CompiledRule) (engine : RedactionEngine)
      → Templates rules
      → build_engine compile config rules ≡ ok engine
      → IsValid engine
  unfolding build_engine
  build_engine-IsValid config rules engine valid h = elim (Option-cases (check_pairs rules)) [
    | inr (e, bad) ↦ cc (rw (bad, build_engine) at h)
    | inl fine ↦
        let (allowed, compiled, done) =
          >>=-eq-ok (compile_allowed compile config.allow_list.patterns) _
            (rw (fine, build_engine) at h) in
        subst IsValid (ok-injective done) (record {
          templates = valid;
          apart = check_pairs-Pairwise rules valid fine;
          fits = (longest_token-bounds rules).0;
          wide = (longest_token-bounds rules).1;
        })
  ]

  -- Every engine that `RedactionEngine::new` returns, whatever the configuration and whatever the
  -- regex library compiles: each rule has a template of the token grammar, no two rules can mint
  -- the same token, whatever their counters are, and the bound on a token's length leaves room for twelve digits.
  pub new-IsValid :
      (config : PrivacyConfig) (engine : RedactionEngine)
      → new compile config ≡ ok engine
      → IsValid engine
  unfolding new
  new-IsValid config engine h = elim (Bool-cases (text_eq config.vault (text "memory"))) [
    | inr other ↦ cc (rw (other, new) at h)
    | inl memory ↦
        let (rules, configured, built) =
          >>=-eq-ok (configured_rules compile config.rules) _ (rw (memory, new) at h) in
        build_engine-IsValid config rules engine
          (configured_rules-IsTemplate config.rules rules configured) built
  ]
