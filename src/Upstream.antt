-- ===== src/Upstream.antt =====
-- What an upstream sends, whatever a decoder makes of it: a payload of a stream is a chunk, an error
-- or nothing.
use llmgate.Prelude.{
  Bool, true, false, not, ◌||◌, ◌≡◌, refl, Option, none, some, List, Text, text, text_eq, any,
}
use llmgate.Neutral.{Value}
use llmgate.Json.{get, str_at}

abbrev pub is_some {ℓ} : {A : Type ℓ} → Option A → Bool
is_some none = false
is_some (some x) = true

-- JSON with an `error` in it.
abbrev pub is_error : Option Value → Bool
is_error none = false
is_error (some parsed) = is_some (get (text "error") parsed)

-- JSON without one.
abbrev pub is_chunk : Option Value → Bool
is_chunk none = false
is_chunk (some parsed) = not (is_some (get (text "error") parsed))

-- JSON whose `type` is the name given.
abbrev pub is_type : Text → Option Text → Bool
is_type name none = false
is_type name (some etype) = text_eq etype name

abbrev pub is_event : Text → Option Value → Bool
is_event name none = false
is_event name (some parsed) = is_type name (str_at (text "type") parsed)

-- Whether one of the payloads is a chunk, an error, or an event of the type given.
module _ (from_str : Text → Option Value) where
  abbrev pub sends_chunk : List Text → Bool
  sends_chunk payloads = any (λ p. is_chunk (from_str p)) payloads

  abbrev pub sends_error : List Text → Bool
  sends_error payloads = any (λ p. is_error (from_str p)) payloads

  abbrev pub sends_event : Text → List Text → Bool
  sends_event name payloads = any (λ p. is_event name (from_str p)) payloads

pub or_assoc : (a b c : Bool) → (a || b) || c ≡ a || (b || c)
or_assoc true b c = refl
or_assoc false b c = refl

pub or_false : (b : Bool) → b || false ≡ b
or_false true = refl
or_false false = refl
