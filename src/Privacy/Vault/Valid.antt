-- ===== src/Privacy/Vault/Valid.antt =====
-- The vault only grows, and each token stands for one original for the life of the session.
use mathlib.Core.Path.{subst, subst₂}
use llmgate.Prelude.{
  ℕ, ◌∙◌, ◌+◌, ◌≤◌, ◌<◌, ◌≡◌, refl, sym, ap, ◌⊎◌, inl, inr, false, Option, some, [], ◌∷◌, Text,
  text_eq, text_eq_iff, text_eq_self, text_key, length, arith, Bool-cases, leb, Option-cases,
  eq_of_some, if◌then◌else◌,
}
use llmgate.Prelude.Map
use llmgate.Prelude.Outcome.{Result, ok, ok-injective}
use llmgate.Privacy.Template.{render}
use llmgate.Privacy.Template.Grammar.{IsToken, render_lem, token_of-IsToken}
use llmgate.Privacy.Engine.{CompiledRule}
use llmgate.Privacy.Engine.Valid.{IsTemplate}
use llmgate.Privacy.Vault.{
  Vault, TokenError, empty_vault, max_session_tokens, pair_key, counter, is_taken, store, mint,
  token_for,
}

-- What a token maps to: `lookup` of the session.
abbrev pub original_of : Vault → Text → Option Text
original_of v token = Map.get token v.token_to_original

pub record IsValid (v : Vault) : Type 0 where
  -- A token that may be reused maps back to the value that it was minted for.
  pub reusable :
      (name original token : Text)
      → Map.get (name, original) v.value_to_token ≡ some token
      → original_of v token ≡ some original
  pub tokens : (token original : Text) → original_of v token ≡ some original → IsToken token
  pub capped : length v.token_to_original ≤ max_session_tokens

-- Every mapping of the one vault is in the other.
pub record Grows (v w : Vault) : Type 0 where
  pub keeps :
      (token original : Text)
      → original_of v token ≡ some original
      → original_of w token ≡ some original

pub Grows-refl : (v : Vault) → Grows v v
Grows-refl v = record { keeps = λ token original h. h }

pub Grows-trans : {u v w : Vault} → Grows u v → Grows v w → Grows u w
Grows-trans f g = record {
  keeps = λ token original h. g.keeps token original (f.keeps token original h);
}

pub IsValid-empty_vault : IsValid empty_vault
unfolding Map.get
IsValid-empty_vault = record {
  reusable = λ name original token h. cc;
  tokens = λ token original h. cc;
  capped = omega arith;
}

length-insert-le : (k x : Text) (m : Map.Map Text Text) → length (Map.insert k x m) ≤ length m + 1
unfolding Map.insert
length-insert-le k x [] = omega arith
length-insert-le k x ((j, w) ∷ m) = ground (arith, length-insert-le k x m)

-- A token that is not taken is new, or maps to the value already.
eq_of_known :
    (v : Vault) (token original existing : Text)
    → is_taken v token original ≡ false
    → original_of v token ≡ some existing
    → existing ≡ original
unfolding is_taken
eq_of_known v token original existing free known = ground (arith, text_eq_iff existing original)

module _ (v : Vault) (name : Text) (n : ℕ) (original token : Text) where
  pub original_of-store :
      (t : Text)
      → original_of (store v name n original token) t
        ≡ (if text_eq token t then some original else original_of v t)
  unfolding store
  original_of-store t = Map.get-insert token t original v.token_to_original

  pub original_of-store_self : original_of (store v name n original token) token ≡ some original
  original_of-store_self = original_of-store token ∙ rw (text_eq_self token)

  Grows-store : is_taken v token original ≡ false → Grows v (store v name n original token)
  Grows-store free = record {
    keeps = λ t o h. elim (Bool-cases (text_eq token t)) [
      | inr other ↦ original_of-store t ∙ rw other h
      | inl same ↦
          let e : token ≡ t = (text_eq_iff token t).0 same in
          original_of-store t
          ∙ rw same (ap some (sym (eq_of_known v token original o free (rw e h))))
    ];
  }

  reusable-store :
      is_taken v token original ≡ false
      → IsValid v
      → (name' original' token' : Text)
      → Map.get (name', original') (store v name n original token).value_to_token ≡ some token'
      → original_of (store v name n original token) token' ≡ some original'
  unfolding store
  reusable-store free valid name' original' token' h =
      elim (Bool-cases (pair_key.same (name, original) (name', original'))) [
        | inl same ↦
            let e : (name, original) ≡ (name', original') =
              (pair_key.same_iff (name, original) (name', original')).0 same in
            let t : token ≡ token' = eq_of_some (
              rw same at (
                sym (Map.get-insert (name, original) (name', original') token v.value_to_token)
                ∙ h)) in
            subst (λ u. original_of (store v name n original token) u ≡ some original') t
              (original_of-store_self ∙ ap some (ap (λ (p : Text × Text). p.1) e))
        | inr other ↦ (Grows-store free).keeps token' original' (
            valid.reusable name' original' token' (
              rw other at (
                sym (Map.get-insert (name, original) (name', original') token v.value_to_token)
                ∙ h)))
      ]

  IsValid-store :
      is_taken v token original ≡ false
      → IsToken token
      → length v.token_to_original < max_session_tokens
      → IsValid v
      → IsValid (store v name n original token)
  unfolding store
  IsValid-store free is_token room valid = record {
    reusable = reusable-store free valid;
    tokens = λ t o h. elim (Bool-cases (text_eq token t)) [
      | inl same ↦ subst IsToken ((text_eq_iff token t).0 same) is_token
      | inr other ↦ valid.tokens t o (rw other at (sym (original_of-store t) ∙ h))
    ];
    capped = omega (arith, length-insert-le token original v.token_to_original);
  }

-- What a call of `token_for` leaves behind, with the token that it returned.
pub record IsMinted (v : Vault) (original token : Text) (w : Vault) : Type 0 where
  pub valid : IsValid w
  pub grows : Grows v w
  pub maps : original_of w token ≡ some original
  -- A vault that has changed has a later version.
  pub versioned : (w ≡ v) ⊎ (v.version < w.version)

render-IsToken : (template : Text) (n : ℕ) → IsTemplate template → IsToken (render template n)
render-IsToken template n (name, named, e) =
    rw (e, render_lem name n named) (token_of-IsToken name n named)

mint-IsMinted :
    (v w : Vault) (name template original token : Text)
    → IsTemplate template
    → IsValid v
    → mint v name template original ≡ (ok token, w)
    → IsMinted v original token w
unfolding mint
mint-IsMinted v w name template original token shape valid h =
    let n : ℕ = counter v name + 1 in
    let made : Text = render template n in
    elim (Bool-cases (leb max_session_tokens (length v.token_to_original))) [
      | inl full ↦ cc (ap (λ (p : Result TokenError Text × Vault). p.0) (rw full at h))
      | inr room ↦ elim (Bool-cases (is_taken v made original)) [
        | inl taken ↦ cc (ap (λ (p : Result TokenError Text × Vault). p.0) (rw (room, taken) at h))
        | inr free ↦
            let done : ◌≡◌ {A = Result TokenError Text × Vault}
                (ok made, store v name n original made) (ok token, w) =
              rw (room, free) at h in
            let same : made ≡ token =
              ok-injective (ap (λ (p : Result TokenError Text × Vault). p.0) done) in
            subst₂ (λ t u. IsMinted v original t u) same
              (ap (λ (p : Result TokenError Text × Vault). p.1) done)
              (record {
                valid =
                    IsValid-store v name n original made free (render-IsToken template n shape)
                      (ground arith) valid;
                grows = Grows-store v name n original made free;
                maps = original_of-store_self v name n original made;
                versioned = inr (unfold store in omega arith);
              })
      ]
    ]

-- A token that `token_for` returns maps to the value that it was made for, and nothing that the
-- vault held before is lost or changed; the vault stays valid and within its cap.
pub token_for-IsMinted :
    (v w : Vault) (rule : CompiledRule) (original token : Text)
    → IsTemplate rule.template
    → IsValid v
    → token_for v rule original ≡ (ok token, w)
    → IsMinted v original token w
unfolding token_for
token_for-IsMinted v w rule original token shape valid h =
    elim (Option-cases (Map.get (rule.name, original) v.value_to_token)) [
      | inl new ↦
          mint-IsMinted v w rule.name rule.template original token shape valid
            (rw (new, token_for) at h)
      | inr (t, old) ↦
          let done : ◌≡◌ {A = Result TokenError Text × Vault} (ok t, v) (ok token, w) =
            rw (old, token_for) at h in
          subst₂ (λ t u. IsMinted v original t u)
            (ok-injective (ap (λ (p : Result TokenError Text × Vault). p.0) done))
            (ap (λ (p : Result TokenError Text × Vault). p.1) done)
            (record {
              valid = valid;
              grows = Grows-refl v;
              maps = valid.reusable rule.name original t old;
              versioned = inl refl;
            })
    ]
