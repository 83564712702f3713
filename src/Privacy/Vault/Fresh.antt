-- ===== src/Privacy/Vault/Fresh.antt =====
-- Under an engine that `RedactionEngine::new` accepted, a new token is always new.
use mathlib.Core.Path.{subst}
use mathlib.Core.List.{Memᴰ}
use llmgate.Prelude.{
  ℕ, ◌+◌, ◌-◌, ◌≤◌, ◌<◌, ◌≡◌, ◌∙◌, refl, sym, ap, ◌≢◌, inl, inr, false, none, some, List, [], ◌∷◌,
  ◌++◌, Text, text, text_eq, text_eq_iff, text_eq_self, text_key, length, length-append, arith,
  Bool-cases, leb, Option-cases, All, if◌then◌else◌,
}
use llmgate.Prelude.Map
use llmgate.Prelude.Decimal.{decimal, length-decimal-le}
use llmgate.Prelude.Outcome.{Result, ok, err, err-injective}
use llmgate.Privacy.Template.{template_prefix, digit_suffix_collides, render}
use llmgate.Privacy.Template.Grammar.{
  IsName, template_of, token_of, template_prefix_lem, render_lem,
}
use llmgate.Privacy.Template.Namespace.{token_of_injective, digit_suffix_collides_self}
use llmgate.Privacy.Engine.{CompiledRule, RedactionEngine}
use llmgate.Privacy.Engine.Valid
use llmgate.Privacy.Engine.Valid.{IsTemplate, AreApart, Pairwise}
use llmgate.Privacy.Vault.{
  Vault, TokenError, empty_vault, max_session_tokens, cap_reached, pair_key, or_zero, counter,
  is_taken, store, mint, token_for,
}
use llmgate.Privacy.Vault.Valid.{original_of, original_of-store}

All_at {ℓ κ} : {A : Type ℓ} (P : A → Type κ) (a : A) (xs : List A) → All P xs → Memᴰ a xs → P a
All_at P a [] h m = elim m [ ]
All_at P a (x ∷ xs) (p, h) (Memᴰ.head e) = subst P (sym e) p
All_at P a (x ∷ xs) (p, h) (Memᴰ.tail m) = All_at P a xs h m

prefix_of_template :
    (r : CompiledRule) (name : Text)
    → r.template ≡ template_of name
    → template_prefix r.template ≡ name
prefix_of_template r name e = ap template_prefix e ∙ template_prefix_lem name

-- Two rules that are apart never mint one token.
AreApart-token :
    (a b : CompiledRule) (na nb : Text) (n m : ℕ)
    → AreApart a b
    → a.template ≡ template_of na
    → b.template ≡ template_of nb
    → 0 < n
    → 0 < m
    → token_of na n ≢ token_of nb m
AreApart-token a b na nb n m apart ea eb pn pm e =
    let pa = prefix_of_template a na ea in
    let pb = prefix_of_template b nb eb in
    let disjoint : digit_suffix_collides na nb ≡ false =
      ap (λ t. digit_suffix_collides t nb) (sym pa)
      ∙ ap (digit_suffix_collides (template_prefix a.template)) (sym pb)
      ∙ apart.disjoint in
    apart.distinct (pa ∙ (token_of_injective na nb n m disjoint pn pm e).0 ∙ sym pb)

-- A token tells which rule minted it.
same_rule :
    (rules : List CompiledRule) (a b : CompiledRule) (na nb : Text) (n m : ℕ)
    → Pairwise rules
    → Memᴰ a rules
    → Memᴰ b rules
    → a.template ≡ template_of na
    → b.template ≡ template_of nb
    → 0 < n
    → 0 < m
    → token_of na n ≡ token_of nb m
    → a ≡ b
same_rule [] a b na nb n m p ma mb ea eb pn pm e = elim ma [ ]
same_rule (x ∷ xs) a b na nb n m p (Memᴰ.head ha) (Memᴰ.head hb) ea eb pn pm e = ha ∙ sym hb
same_rule (x ∷ xs) a b na nb n m p (Memᴰ.head ha) (Memᴰ.tail mb) ea eb pn pm e = absurd (
    AreApart-token a b na nb n m
      (All_at (AreApart a) b xs (subst (λ r. All (AreApart r) xs) (sym ha) p.0) mb) ea eb pn pm e)
same_rule (x ∷ xs) a b na nb n m p (Memᴰ.tail ma) (Memᴰ.head hb) ea eb pn pm e = absurd (
    AreApart-token b a nb na m n
      (All_at (AreApart b) a xs (subst (λ r. All (AreApart r) xs) (sym hb) p.0) ma) eb ea pm pn
      (sym e))
same_rule (x ∷ xs) a b na nb n m p (Memᴰ.tail ma) (Memᴰ.tail mb) ea eb pn pm e =
    same_rule xs a b na nb n m p.1 ma mb ea eb pn pm e

-- Two mints of one rule are told apart by their counts.
same_count :
    (a b : CompiledRule) (na nb : Text) (n m : ℕ)
    → a ≡ b
    → a.template ≡ template_of na
    → b.template ≡ template_of nb
    → 0 < n
    → 0 < m
    → token_of na n ≡ token_of nb m
    → n ≡ m
same_count a b na nb n m same ea eb pn pm e =
    let names : na ≡ nb =
      sym (prefix_of_template a na ea)
      ∙ ap (λ (r : CompiledRule). template_prefix r.template) same
      ∙ prefix_of_template b nb eb in
    (token_of_injective na na n m (digit_suffix_collides_self na) pn pm
      (e ∙ ap (λ p. token_of p m) (sym names))).1

-- Where a token comes from: a rule and a count that the rule's counter has reached.
pub record IsFrom (rules : List CompiledRule) (v : Vault) (token : Text) : Type 0 where
  pub rule : CompiledRule
  pub listed : Memᴰ rule rules
  pub name : Text
  pub shape : rule.template ≡ template_of name
  pub count : ℕ
  pub positive : 0 < count
  pub reached : count ≤ counter v rule.name
  pub minted : token ≡ token_of name count

-- The vault as the rules have filled it.
pub record IsTracked (rules : List CompiledRule) (v : Vault) : Type 0 where
  pub origins : (token original : Text) → original_of v token ≡ some original → IsFrom rules v token
  pub counted : (name : Text) → counter v name ≤ length v.token_to_original

pub IsTracked-empty_vault : (rules : List CompiledRule) → IsTracked rules empty_vault
unfolding Map.get counter
IsTracked-empty_vault rules = record {
  origins = λ token original h. cc;
  counted = λ name. omega arith;
}

length-insert_new :
    (k x : Text) (m : Map.Map Text Text)
    → Map.get k m ≡ none
    → length (Map.insert k x m) ≡ length m + 1
unfolding Map.get Map.insert
length-insert_new k x [] h = omega arith
length-insert_new k x ((j, w) ∷ m) h = ground (arith, length-insert_new k x m)

length-store_new :
    (v : Vault) (name : Text) (n : ℕ) (original token : Text)
    → original_of v token ≡ none
    → length (store v name n original token).token_to_original ≡ length v.token_to_original + 1
unfolding store
length-store_new v name n original token new =
    length-insert_new token original v.token_to_original new

counter-store :
    (v : Vault) (name name' original token : Text) (n : ℕ)
    → counter (store v name n original token) name'
      ≡ (if text_eq name name' then n else counter v name')
unfolding counter store
counter-store v name name' original token n =
    ap or_zero (Map.get-insert name name' n v.counters) ∙ ground arith

module _ (rules : List CompiledRule) (apart : Pairwise rules) (v : Vault)
    (tracked : IsTracked rules v) (rule : CompiledRule) (listed : Memᴰ rule rules) (name : Text)
    (shape : rule.template ≡ template_of name) where
  -- The next token of a rule is not in the vault.
  next_is_new : original_of v (token_of name (counter v rule.name + 1)) ≡ none
  next_is_new = elim (Option-cases (original_of v (token_of name (counter v rule.name + 1)))) [
    | inl new ↦ new
    | inr (original, old) ↦
        let f = tracked.origins (token_of name (counter v rule.name + 1)) original old in
        let same : f.rule ≡ rule =
          same_rule rules f.rule rule f.name name f.count (counter v rule.name + 1) apart f.listed
            listed f.shape shape f.positive (omega arith) (sym f.minted) in
        let counts : f.count ≡ counter v rule.name + 1 =
          same_count f.rule rule f.name name f.count (counter v rule.name + 1) same f.shape shape
            f.positive (omega arith) (sym f.minted) in
        absurd (omega (arith, f.reached, counts, ap (λ (r : CompiledRule). counter v r.name) same))
  ]

  next_is_free :
      (original : Text) → is_taken v (token_of name (counter v rule.name + 1)) original ≡ false
  unfolding is_taken
  next_is_free original = rw (next_is_new, is_taken)

  -- One more token of a rule, with its counter moved on.
  IsTracked-store :
      (original : Text)
      → IsTracked rules (
          store v rule.name
            (counter v rule.name + 1)
            original
            (token_of name (counter v rule.name + 1)))
  IsTracked-store original =
      let n : ℕ = counter v rule.name + 1 in
      let token : Text = token_of name n in
      let w : Vault = store v rule.name n original token in
      let grows : (k : Text) → counter v k ≤ counter w k = λ k. ground (
        arith,
        counter-store v rule.name k original token n,
        text_eq_iff rule.name k,
        ap (counter v),
      ) in
      let counter-store_self : counter w rule.name ≡ n =
        counter-store v rule.name rule.name original token n ∙ rw (text_eq_self rule.name) in
      let longer : length w.token_to_original ≡ length v.token_to_original + 1 =
        length-store_new v rule.name n original token next_is_new in
      record {
        origins = λ t o h. elim (Bool-cases (text_eq token t)) [
          | inl same ↦ subst (IsFrom rules w) ((text_eq_iff token t).0 same) (record {
            rule = rule;
            listed = listed;
            name = name;
            shape = shape;
            count = n;
            positive = omega arith;
            reached = omega (arith, counter-store_self);
            minted = refl;
          })
          | inr other ↦
              let f =
                tracked.origins t o
                  (rw other at (sym (original_of-store v rule.name n original token t) ∙ h)) in
              record {
                rule = f.rule;
                listed = f.listed;
                name = f.name;
                shape = f.shape;
                count = f.count;
                positive = f.positive;
                reached = omega (arith, f.reached, grows f.rule.name);
                minted = f.minted;
              }
        ];
        counted = λ k. ground (
          arith,
          counter-store v rule.name k original token n,
          tracked.counted k,
          tracked.counted rule.name,
          longer,
        );
      }

  module _ (named : IsName name) (original : Text) where
    next_token : Text
    next_token = token_of name (counter v rule.name + 1)

    next_store : Vault
    unfolding next_token
    next_store = store v rule.name (counter v rule.name + 1) original next_token

    -- Where the rule's template is well formed, the collision branch is dead.
    mint_lem : mint v rule.name rule.template original ≡ (
        if leb max_session_tokens (length v.token_to_original)
        then (err cap_reached, v)
        else (ok next_token, next_store))
    unfolding mint next_store
    mint_lem =
        let made : render rule.template (counter v rule.name + 1) ≡ next_token =
          ap (λ t. render t (counter v rule.name + 1)) shape
          ∙ render_lem name (counter v rule.name + 1) named in
        rw (made, next_is_free original)

    mint-IsTracked : IsTracked rules (mint v rule.name rule.template original).1
    unfolding next_store
    mint-IsTracked = elim (Bool-cases (leb max_session_tokens (length v.token_to_original))) [
      | inl full ↦ rw (mint_lem, full) tracked
      | inr room ↦ rw (mint_lem, room) (IsTracked-store original)
    ]

    mint_error :
        (e : TokenError) (w : Vault)
        → mint v rule.name rule.template original ≡ (err e, w)
        → (e ≡ cap_reached) × (w ≡ v) × (max_session_tokens ≤ length v.token_to_original)
    mint_error e w h = elim (Bool-cases (leb max_session_tokens (length v.token_to_original))) [
      | inl full ↦
          let done : ◌≡◌ {A = Result TokenError Text × Vault} (err cap_reached, v) (err e, w) =
            rw full at (sym mint_lem ∙ h) in
          (
            err-injective (ap (λ (p : Result TokenError Text × Vault). p.0) (sym done)),
            ap (λ (p : Result TokenError Text × Vault). p.1) (sym done),
            ground arith,
          )
      | inr room ↦
          let done : ◌≡◌ {A = Result TokenError Text × Vault} (ok next_token, next_store)
              (err e, w) =
            rw room at (sym mint_lem ∙ h) in
          cc (ap (λ (p : Result TokenError Text × Vault). p.0) done)
    ]

module _ (engine : RedactionEngine) (accepted : Valid.IsValid engine) (v : Vault)
    (tracked : IsTracked engine.rules v) (rule : CompiledRule) (listed : Memᴰ rule engine.rules)
    (original : Text) where
  -- Every call of `token_for` leaves a vault whose tokens all come from the engine's rules, with
  -- counts that the counters have reached, and whose counters do not pass the number of tokens.
  pub token_for-IsTracked : IsTracked engine.rules (token_for v rule original).1
  unfolding token_for
  token_for-IsTracked =
      let (name, named, shape) =
        All_at (λ (r : CompiledRule). IsTemplate r.template) rule engine.rules accepted.templates
          listed in
      elim (Option-cases (Map.get (rule.name, original) v.value_to_token)) [
        | inl new ↦
            rw (new, token_for)
              (mint-IsTracked engine.rules accepted.apart v tracked rule listed name shape named
                original)
        | inr (token, old) ↦ rw (old, token_for) tracked
      ]

  -- With the rules of an accepted engine `token_for` fails in one way only: the vault holds the
  -- 4096 tokens that a session may have. The failed call leaves the vault as it was. So the check
  -- against colliding tokens, which the source keeps, never fires.
  pub token_for_error :
      (e : TokenError) (w : Vault)
      → token_for v rule original ≡ (err e, w)
      → (e ≡ cap_reached) × (w ≡ v) × (max_session_tokens ≤ length v.token_to_original)
  unfolding token_for
  token_for_error e w h =
      let (name, named, shape) =
        All_at (λ (r : CompiledRule). IsTemplate r.template) rule engine.rules accepted.templates
          listed in
      elim (Option-cases (Map.get (rule.name, original) v.value_to_token)) [
        | inl new ↦
            mint_error engine.rules accepted.apart v tracked rule listed name shape named original e
              w (rw (new, token_for) at h)
        | inr (token, old) ↦
            let done : ◌≡◌ {A = Result TokenError Text × Vault} (ok token, v) (err e, w) =
              rw (old, token_for) at h in
            cc (ap (λ (p : Result TokenError Text × Vault). p.0) done)
      ]

-- In a vault whose tokens stem from the rules of a valid engine and their counters, and that holds at
-- most 4096 tokens, each token is at most as long as the engine's `max_token_len`.
pub length-token-le :
    (engine : RedactionEngine) (v : Vault) (token original : Text)
    → Valid.IsValid engine
    → IsTracked engine.rules v
    → length v.token_to_original ≤ max_session_tokens
    → original_of v token ≡ some original
    → length token ≤ engine.max_token_len
length-token-le engine v token original accepted tracked capped h =
    let f = tracked.origins token original h in
    let fits =
      All_at (λ (r : CompiledRule). (length r.template - 3) + 12 ≤ engine.max_token_len) f.rule
        engine.rules accepted.fits f.listed in
    let digits : length (decimal f.count) ≤ 4 =
      length-decimal-le f.count 3 (omega (arith, f.reached, tracked.counted f.rule.name)) in
    omega (
      arith,
      fits,
      digits,
      ap length f.minted,
      ap length f.shape,
      length-append f.name (decimal f.count ++ b'>' ∷ []),
      length-append (decimal f.count) (b'>' ∷ []),
      length-append f.name (text "{n}>"),
    )
