-- ===== src/Gemini/Encoder/Fragments.antt =====
-- A tool call whose arguments come in fragments.
use llmgate.Prelude.{ℕ, ◌≡◌, nat_eq, Option, none, some, List, [], ◌∷◌, ◌++◌, Text}
use llmgate.Prelude.Map
use llmgate.Prelude.Map.{Map}
use llmgate.Neutral.{Value, NeutralStreamEvent}
use llmgate.Gemini.Encoder.{Encoder, call_chunk, encode}

-- The parts of a call, of which all but the first give neither an id nor a name.
abbrev pub parts : ℕ → Text → Text → List Text → List NeutralStreamEvent
parts index id name [] = []
parts index id name (fragment ∷ fragments) =
    NeutralStreamEvent.tool_call_delta index id name fragment ∷ parts index [] [] fragments

module _ (from_str : Text → Option Value) where
  -- Fragments that are JSON when they are all there and not before; `held` is what came before them.
  abbrev pub Completes : Text → List Text → Value → Type 0
  Completes held [] args = ⊥
  Completes held (fragment ∷ []) args = from_str (held ++ fragment) ≡ some args
  Completes held (fragment ∷ next ∷ fragments) args =
      (from_str (held ++ fragment) ≡ none) × Completes (held ++ fragment) (next ∷ fragments) args

  abbrev pub encode_all : Encoder → List NeutralStreamEvent → List Value × Encoder
  encode_all e [] = ([], e)
  encode_all e (event ∷ events) =
      let (values, e') = encode from_str e event in
      let (more, e'') = encode_all e' events in (values ++ more, e'')

  -- What is to come of the fragments.
  abbrev IsWritten : ℕ → Text → Text → Value → List Value × Encoder → Type 0
  IsWritten index id name args (values, e) =
      (values ≡ call_chunk id name args 0 ∷ []) × (Map.get index e.pending_calls ≡ none)

  -- A step, and the events after it.
  abbrev then_encode : List NeutralStreamEvent → List Value × Encoder → List Value × Encoder
  then_encode events (values, e) = let (more, e') = encode_all e events in (values ++ more, e')
