-- ===== src/Openai/Encoder.antt =====
-- src/adapters/openai/stream.rs: `OpenAiStreamEncoder`. What `serde_json` prints is a parameter of
-- the lines, and so is the time at which the encoder is made.
pub mod RoundTrip
pub mod Wire
use llmgate.Prelude.{
  ℕ, ◌+◌, ◌%◌, ◌^◌, Option, none, some, List, [], ◌∷◌, ◌++◌, Text, text, is_empty, map,
  if◌then◌else◌,
}
use llmgate.Neutral.{
  Value, NeutralUsage, FinishReason, NeutralStreamEvent, AdapterError, display, as_str,
}
use llmgate.Json.{json, array, number}

pub record Encoder : Type 0 where
  pub id : Text
  pub model : Text
  pub created : ℕ

-- `OpenAiStreamEncoder::new`
abbrev pub new_encoder : ℕ → Encoder
new_encoder created = record { id = []; model = []; created = created }

abbrev pub Entries : Type 0
Entries = List (Text × Value)

abbrev pub unless_empty : Text → Entries → Entries
unless_empty t entries = if is_empty t then [] else entries

-- The object that `chunk` prints; the payload's entries come last.
abbrev pub chunk : Encoder → Entries → Value
chunk e payload = json (
    unless_empty e.id ((text "id", Value.string e.id) ∷ [])
    ++ ((text "object", Value.string (text "chat.completion.chunk"))
        ∷ (text "created", number e.created)
        ∷ (text "model", Value.string e.model)
        ∷ payload))

-- `{ "choices": [{ "index": 0, "delta": …, "finish_reason": … }] }`
abbrev pub choices : Entries → Value → Entries
choices delta finish_reason =
    (
      text "choices",
      array (
          json (
            (text "index", number 0)
            ∷ (text "delta", json delta)
            ∷ (text "finish_reason", finish_reason)
            ∷ [])
          ∷ []),
    )
    ∷ []

-- The call of a tool, without what is empty in it.
abbrev pub call_value : ℕ → Text → Text → Text → Value
call_value index id name arguments = json (
    (text "index", number index)
    ∷ (unless_empty id
          ((text "id", Value.string id) ∷ (text "type", Value.string (text "function")) ∷ [])
        ++ (
          text "function",
          json (
              unless_empty name ((text "name", Value.string name) ∷ [])
              ++ unless_empty arguments ((text "arguments", Value.string arguments) ∷ [])),
        )
          ∷ []))

-- The sum wraps around.
abbrev pub usage_entries : Option NeutralUsage → Entries
usage_entries none = []
usage_entries (some u) =
    (
      text "usage",
      json (
          (text "prompt_tokens", number u.input_tokens)
          ∷ (text "completion_tokens", number u.output_tokens)
          ∷ (text "total_tokens", number ((u.input_tokens + u.output_tokens) % 2 ^ 64))
          ∷ []),
    )
    ∷ []

-- `StreamEncoder::encode`, as the objects that the lines are printed from.
unfoldable pub encode : Encoder → NeutralStreamEvent → List Value × Encoder
encode e (NeutralStreamEvent.message_start id model usage) =
    let e' : Encoder = record e { id = id; model = model } in
    (
      chunk e' (
            choices
              ((text "role", Value.string (text "assistant"))
                ∷ (text "content", Value.string [])
                ∷ [])
              Value.null)
          ∷ [],
      e',
    )
encode e (NeutralStreamEvent.text_delta t) =
    (chunk e (choices ((text "content", Value.string t) ∷ []) Value.null) ∷ [], e)
encode e (NeutralStreamEvent.reasoning_delta t) =
    (chunk e (choices ((text "reasoning_content", Value.string t) ∷ []) Value.null) ∷ [], e)
encode e (NeutralStreamEvent.tool_call_delta index id name arguments) = (
  chunk e (
        choices ((text "tool_calls", array (call_value index id name arguments ∷ [])) ∷ [])
          Value.null)
      ∷ [],
  e,
)
encode e (NeutralStreamEvent.reasoning_signature signature) = ([], e)
encode e (NeutralStreamEvent.message_stop reason usage) =
    (chunk e (choices [] (Value.string (as_str reason)) ++ usage_entries usage) ∷ [], e)
encode e (NeutralStreamEvent.error err) = (
  chunk e ((text "error", json ((text "message", Value.string (display err)) ∷ [])) ∷ []) ∷ [],
  e,
)

-- The lines, with what `serde_json` prints of an object.
module _ (print : Value → Text) where
  abbrev pub line : Value → Text
  line v = text "data: " ++ (print v ++ text "\n\n")

  unfoldable pub encode_lines : Encoder → NeutralStreamEvent → List Text × Encoder
  encode_lines e event = let (values, e') = encode e event in (map line values, e')

-- `StreamEncoder::done`
abbrev pub done : Encoder → Text
done e = text "data: [DONE]\n\n"
