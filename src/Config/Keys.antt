-- ===== src/Config/Keys.antt =====
-- The keys of a valid configuration: each authenticates a request that presents it.
use mathlib.Core.Path.{subst}
use llmgate.Prelude.{
  ◌≡◌, ◌∙◌, refl, sym, ap, Bool, true, false, Bool-cases, inl, inr, Option, none, some, List, [],
  ◌∷◌, Text, text, text_eq, text_eq_iff, is_empty, All, not, ◌||◌,
}
use llmgate.Prelude.Trim.{trim}
use llmgate.Auth.{HeaderMap, Verdict, extract_key, strip_credential_headers, require_auth, no_keys}
use llmgate.Auth.Guard.{is_key, require_auth-verdict}
use llmgate.Config.{Config, Http, ConfigError, or_then, bail_if, check_key, check_keys, validate}

or_then-none : (a b : Option ConfigError) → or_then a b ≡ none → (a ≡ none) × (b ≡ none)
or_then-none none b h = (refl, h)
or_then-none (some e) b h = cc h

bail_if-none : (bad : Bool) (e : ConfigError) → bail_if bad e ≡ none → bad ≡ false
bail_if-none true e h = cc h
bail_if-none false e h = refl

true_of_not : (b : Bool) → not b ≡ false → b ≡ true
true_of_not true h = refl
true_of_not false h = cc h

module _ (http : Http) where
  -- What is checked of a key.
  pub record IsUsable (key : Text) : Type 0 where
    pub trimmed : trim key ≡ key
    pub full : is_empty key ≡ false

  check_key-IsUsable : (key : Text) → check_key http key ≡ none → IsUsable key
  unfolding check_key
  check_key-IsUsable key h =
      let (first, later) = or_then-none (bail_if (is_empty (trim key)) ConfigError.empty_key) _ h in
      let (second, third) =
        or_then-none (bail_if (not (http.is_value key)) ConfigError.invalid_key) _ later in
      let same : key ≡ trim key =
        (text_eq_iff key (trim key)).0
          (true_of_not _ (bail_if-none _ ConfigError.untrimmed_key third)) in
      record {
        trimmed = sym same;
        full = ap is_empty same ∙ bail_if-none _ ConfigError.empty_key first;
      }

  check_keys-IsUsable : (keys : List Text) → check_keys http keys ≡ none → All IsUsable keys
  unfolding check_keys
  check_keys-IsUsable [] h = tt
  check_keys-IsUsable (key ∷ keys) h =
      let both = or_then-none (check_key http key) (check_keys http keys) h in
      (check_key-IsUsable key both.0, check_keys-IsUsable keys both.1)

  IsUsable-listed :
      (keys : List Text) (key : Text) → All IsUsable keys → is_key key keys ≡ true → IsUsable key
  IsUsable-listed [] key all h = cc h
  IsUsable-listed (k ∷ keys) key (here, later) h = elim (Bool-cases (text_eq k key)) [
    | inl same ↦ subst IsUsable ((text_eq_iff k key).0 same) here
    | inr other ↦ IsUsable-listed keys key later (sym (ap (λ b. b || is_key key keys) other) ∙ h)
  ]

  has_keys : (keys : List Text) (key : Text) → is_key key keys ≡ true → no_keys keys ≡ false
  has_keys [] key h = cc h
  has_keys (k ∷ keys) key h = refl

  module _ {H : Type 0} (m : HeaderMap H) where
    -- With a configuration that is valid, a request is let through that presents one of its keys as its
    -- `x-api-key`, and neither `authorization` nor `api-key`; its credentials are stripped.
    pub require_auth-validate :
        (c : Config) (key : Text) (h : H)
        → validate http c ≡ none
        → is_key key c.api_keys ≡ true
        → m.get (text "authorization") h ≡ none
        → m.get (text "api-key") h ≡ none
        → m.get (text "x-api-key") h ≡ some key
        → require_auth m c.api_keys h ≡ Verdict.run (strip_credential_headers m h)
    unfolding validate extract_key
    require_auth-validate c key h valid listed first second third =
        let (checked, rest) = or_then-none (check_keys http c.api_keys) _ valid in
        let usable =
          IsUsable-listed c.api_keys key (check_keys-IsUsable c.api_keys checked) listed in
        let found : extract_key m h ≡ some key =
          rw (first, second, third, usable.trimmed, usable.full) refl in
        require_auth-verdict m c.api_keys h
        ∙ rw (has_keys c.api_keys key listed, found, listed) refl
