-- ===== src/Auth/Guard.antt =====
-- The guard lets a request through exactly with one of the keys, and without its credentials.
use llmgate.Prelude.{
  ◌<◌, ◌≡◌, ◌∙◌, refl, sym, ap, Bool, true, false, ◌||◌, Bool-cases, Option-cases, inl, inr, none,
  some, List, [], ◌∷◌, Text, text, text_eq, text_eq_iff, length, any, ltb, arith, if◌then◌else◌,
}
use llmgate.Auth.{
  HeaderMap, IsMap, Verdict, ct_eq, extract_key, strip_credential_headers, max_key_len, any_key,
  no_keys, check_key, require_auth,
}
use llmgate.Auth.Equal.{ct_eq_iff}

same_test : (a b : Text) → ct_eq a b ≡ text_eq a b
same_test a b = elim (Bool-cases (ct_eq a b)) [
  | inl equal ↦ equal ∙ sym ((text_eq_iff a b).1 ((ct_eq_iff a b).0 equal))
  | inr other ↦ elim (Bool-cases (text_eq a b)) [
    | inl equal ↦ (ct_eq_iff a b).1 ((text_eq_iff a b).0 equal) ∙ sym equal
    | inr differ ↦ other ∙ sym differ
  ]
]

-- Whether a key is among the keys.
abbrev pub is_key : Text → List Text → Bool
is_key presented keys = any (λ k. text_eq k presented) keys

any_key-is_key :
    (presented : Text) (key_ok : Bool) (keys : List Text)
    → any_key presented key_ok keys ≡ key_ok || is_key presented keys
unfolding any_key
any_key-is_key presented true [] = refl
any_key-is_key presented false [] = refl
any_key-is_key presented true (k ∷ keys) = any_key-is_key presented true keys
any_key-is_key presented false (k ∷ keys) =
    any_key-is_key presented (ct_eq k presented) keys
    ∙ ap (λ b. b || is_key presented keys) (same_test k presented)

-- A text that is longer than all keys is none of them.
too_long :
    (presented : Text) (keys : List Text)
    → max_key_len keys < length presented
    → is_key presented keys ≡ false
too_long presented [] long = refl
too_long presented (k ∷ keys) long = elim (Bool-cases (text_eq k presented)) [
  | inl same ↦ absurd (omega (arith, long, ap length ((text_eq_iff k presented).0 same)))
  | inr other ↦ rw other (too_long presented keys (omega (arith, long)))
]

module _ {H : Type 0} (m : HeaderMap H) where
  -- What is to become of a request.
  abbrev pub verdict : List Text → H → Verdict H
  verdict keys h = if no_keys keys then Verdict.run h else elim (extract_key m h) [
    | none ↦ Verdict.unauthorized
    | some presented ↦
        if is_key presented keys
        then Verdict.run (strip_credential_headers m h)
        else Verdict.unauthorized
  ]

  check_key-verdict :
      (keys : List Text) (h : H) (presented : Text)
      → check_key m keys h presented ≡ (
          if is_key presented keys
          then Verdict.run (strip_credential_headers m h)
          else Verdict.unauthorized)
  unfolding check_key
  check_key-verdict keys h presented =
      elim (Bool-cases (ltb (max_key_len keys) (length presented))) [
        | inl long ↦ rw (long, too_long presented keys (ground arith)) refl
        | inr fits ↦ rw (fits, any_key-is_key presented false keys) refl
      ]

  -- A request is let through if no keys are configured, or if the key that it presents is one of
  -- them, and then without the headers that credentials come in; all else is refused. The bound on
  -- the length of a key and the loop over all keys make no difference to that.
  pub require_auth-verdict : (keys : List Text) (h : H) → require_auth m keys h ≡ verdict keys h
  unfolding require_auth
  require_auth-verdict [] h = refl
  require_auth-verdict (k ∷ keys) h = elim (Option-cases (extract_key m h)) [
    | inl missing ↦ rw missing refl
    | inr (presented, found) ↦ rw found (check_key-verdict (k ∷ keys) h presented)
  ]

  -- A request that is let through with its credentials stripped presents no key any more. Relied on
  -- is that a header that is removed is gone and that the others are left.
  pub extract_key-strip_credential_headers :
      IsMap m → (h : H) → extract_key m (strip_credential_headers m h) ≡ none
  unfolding extract_key strip_credential_headers text_eq
  extract_key-strip_credential_headers laws h =
      let h1 = m.remove (text "authorization") h in
      let h2 = m.remove (text "api-key") h1 in
      let h3 = m.remove (text "x-api-key") h2 in
      let first : m.get (text "authorization") h3 ≡ none =
        laws.get-remove_other (text "authorization") (text "x-api-key") h2 refl
        ∙ laws.get-remove_other (text "authorization") (text "api-key") h1 refl
        ∙ laws.get-remove (text "authorization") h in
      let second : m.get (text "api-key") h3 ≡ none =
        laws.get-remove_other (text "api-key") (text "x-api-key") h2 refl
        ∙ laws.get-remove (text "api-key") h1 in
      let third : m.get (text "x-api-key") h3 ≡ none = laws.get-remove (text "x-api-key") h2 in
      rw (first, second, third) refl
