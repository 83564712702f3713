-- ===== src/Auth/Tests.antt =====
-- Runs of the authentication, and the theorems at them, with headers in an association list.
use llmgate.Prelude.{
  ◌≡◌, ◌↔◌, ◌∙◌, refl, sym, ap, true, false, Bool-cases, inl, inr, Option, none, some, List, [],
  ◌∷◌, Text, text, text_eq, text_eq_iff, if◌then◌else◌,
}
use llmgate.Prelude.Trim.{trim, trim_start}
use llmgate.Auth.{
  HeaderMap, IsMap, Verdict, split_once, bearer, extract_key, ct_eq, require_auth,
  strip_credential_headers,
}
use llmgate.Auth.Equal.{ct_eq_iff}
use llmgate.Auth.Guard.{require_auth-verdict, extract_key-strip_credential_headers}

true_not_false : true ≡ false → ⊥
true_not_false h = cc h

abbrev Headers : Type 0
Headers = List (Text × Text)

abbrev find : Text → Headers → Option Text
find name [] = none
find name ((key, value) ∷ h) =
    let rest = find name h in if text_eq key name then some value else rest

abbrev without : Text → Headers → Headers
without name [] = []
without name ((key, value) ∷ h) =
    let rest = without name h in if text_eq key name then rest else (key, value) ∷ rest

abbrev listed : HeaderMap Headers
listed = record { get = find; remove = without }

find-without : (name : Text) (h : Headers) → find name (without name h) ≡ none
find-without name [] = refl
find-without name ((key, value) ∷ h) = elim (Bool-cases (text_eq key name)) [
  | inl same ↦ rw same (find-without name h)
  | inr other ↦ rw other (rw other (find-without name h))
]

find-without_other :
    (name other : Text) (h : Headers)
    → text_eq name other ≡ false
    → find name (without other h) ≡ find name h
find-without_other name other [] differ = refl
find-without_other name other ((key, value) ∷ h) differ = elim (Bool-cases (text_eq key other)) [
  | inr kept ↦ rw kept (
      ap (λ rest. if text_eq key name then some value else rest)
        (find-without_other name other h differ))
  | inl removed ↦ elim (Bool-cases (text_eq key name)) [
    | inr unlike ↦ rw (removed, unlike) (find-without_other name other h differ)
    | inl alike ↦
        let same : name ≡ other =
          sym ((text_eq_iff key name).0 alike) ∙ (text_eq_iff key other).0 removed in
        absurd (true_not_false (sym ((text_eq_iff name other).1 same) ∙ differ))
  ]
]

listed-IsMap : IsMap listed
listed-IsMap = record { get-remove = find-without; get-remove_other = find-without_other }

-- A scheme that is not `Bearer` is passed over.
abbrev headers : Headers
headers =
    (text "authorization", text "Basic abc")
    ∷ (text "x-api-key", text " secret ")
    ∷ (text "accept", text "text/plain")
    ∷ []

presented : extract_key listed headers ≡ some (text "secret")
unfolding extract_key bearer split_once trim trim_start text_eq
presented = refl

ct_eq_iff_example : (ct_eq (text "secret") (text "secrez") ≡ true) ↔ (text "secret" ≡ text "secrez")
ct_eq_iff_example = ct_eq_iff (text "secret") (text "secrez")

require_auth-verdict_example :
    require_auth listed (text "other" ∷ text "secret" ∷ []) headers
    ≡ Verdict.run ((text "accept", text "text/plain") ∷ [])
unfolding strip_credential_headers extract_key bearer split_once trim trim_start text_eq
require_auth-verdict_example =
    require_auth-verdict listed (text "other" ∷ text "secret" ∷ []) headers

extract_key-strip_credential_headers_example :
    extract_key listed (strip_credential_headers listed headers) ≡ none
extract_key-strip_credential_headers_example =
    extract_key-strip_credential_headers listed listed-IsMap headers
