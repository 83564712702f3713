-- ===== src/Openai/Decoder.antt =====
-- src/adapters/openai/stream.rs: `OpenAiStreamDecoder`. `serde_json::from_str` is a parameter.
pub mod Stops
pub mod Sent
use llmgate.Prelude.{
  ℕ, Bool, true, false, not, ◌||◌, Option, none, some, List, [], ◌∷◌, ◌++◌, Text, text, text_eq,
  is_empty, any, ◌==◌, if◌then◌else◌,
}
use llmgate.Neutral.{Value, FinishReason, NeutralUsage, NeutralStreamEvent, AdapterError}
use llmgate.Json.{
  get, as_str, as_array, str_at, u64_at, and_then, or_else, unwrap_or, first, as_u32,
}

pub record Decoder : Type 0 where
  pub started : Bool
  pub failed : Bool
  pub stop_emitted : Bool
  pub seen_tool_indices : List ℕ
  pub pending_finish : Option FinishReason
  pub pending_usage : Option NeutralUsage

-- `OpenAiStreamDecoder::new`
abbrev pub new_decoder : Decoder
new_decoder = record {
  started = false;
  failed = false;
  stop_emitted = false;
  seen_tool_indices = [];
  pending_finish = none;
  pending_usage = none;
}

abbrev pub Step : Type 0
Step = List NeutralStreamEvent × Decoder

unfoldable pub parse_finish_reason : Text → FinishReason
parse_finish_reason s =
    if text_eq s (text "stop")
    then FinishReason.stop
    else if text_eq s (text "length")
    then FinishReason.length
    else if text_eq s (text "tool_calls")
    then FinishReason.tool_calls
    else if text_eq s (text "content_filter")
    then FinishReason.content_filter
    else FinishReason.other s

-- `parse_usage`, which is always `Some`.
abbrev pub parse_usage : Value → NeutralUsage
parse_usage usage = record {
  input_tokens = unwrap_or 0 (u64_at (text "prompt_tokens") usage);
  output_tokens = unwrap_or 0 (u64_at (text "completion_tokens") usage);
}

-- `parse_tool_call`: the event, and the indices seen. Only the first part of a call gives its id and
-- its name.
unfoldable pub parse_tool_call : Value → List ℕ → NeutralStreamEvent × List ℕ
parse_tool_call call seen =
    let index = as_u32 (unwrap_or 0 (u64_at (text "index") call)) in
    let function = get (text "function") call in
    let arguments = unwrap_or [] (and_then function (str_at (text "arguments"))) in
    let id = unwrap_or [] (str_at (text "id") call) in
    let name = unwrap_or [] (and_then function (str_at (text "name"))) in
    if any (λ i. i == index) seen
    then (NeutralStreamEvent.tool_call_delta index [] [] arguments, seen)
    else (NeutralStreamEvent.tool_call_delta index id name arguments, index ∷ seen)

unfoldable pub parse_tool_calls : List Value → List ℕ → List NeutralStreamEvent × List ℕ
unfolding parse_tool_call
parse_tool_calls [] seen = ([], seen)
parse_tool_calls (call ∷ calls) seen =
    let (event, seen') = parse_tool_call call seen in
    let (events, seen'') = parse_tool_calls calls seen' in (event ∷ events, seen'')

-- `.filter(|c| !c.is_empty())`, and the event of what is left.
abbrev pub nonempty : (Text → NeutralStreamEvent) → Option Text → List NeutralStreamEvent
nonempty event none = []
nonempty event (some t) = if is_empty t then [] else event t ∷ []

-- `if let Some(delta) = choice.get("delta")`
unfoldable pub on_delta : Option Value → List ℕ → List NeutralStreamEvent × List ℕ
unfolding parse_tool_calls
on_delta none seen = ([], seen)
on_delta (some delta) seen =
    let content = nonempty NeutralStreamEvent.text_delta (str_at (text "content") delta) in
    let reasoning = nonempty NeutralStreamEvent.reasoning_delta (
      and_then (or_else (get (text "reasoning_content") delta) (get (text "reasoning") delta))
        as_str) in
    let (calls, seen') =
      parse_tool_calls (unwrap_or [] (and_then (get (text "tool_calls") delta) as_array)) seen in
    (content ++ (reasoning ++ calls), seen')

unfoldable pub note_finish : Option Text → Decoder → Decoder
unfolding parse_finish_reason
note_finish none d = d
note_finish (some reason) d = record d { pending_finish = some (parse_finish_reason reason) }

unfoldable pub note_usage : Option Value → Decoder → Decoder
note_usage none d = d
note_usage (some usage) d = record d { pending_usage = some (parse_usage usage) }

-- What follows the start, once the first choice is looked up.
unfoldable pub on_choice : Value → Option Value → Decoder → Step
unfolding on_delta note_finish note_usage
on_choice parsed none d = ([], note_usage (get (text "usage") parsed) d)
on_choice parsed (some choice) d =
    let (events, seen) = on_delta (get (text "delta") choice) d.seen_tool_indices in
    let d' =
      note_finish (str_at (text "finish_reason") choice) (record d { seen_tool_indices = seen }) in
    (events, note_usage (get (text "usage") parsed) d')

-- `if !self.started`
unfoldable pub opening : Value → Decoder → List NeutralStreamEvent
opening parsed d =
    if d.started
    then []
    else NeutralStreamEvent.message_start (unwrap_or [] (str_at (text "id") parsed))
        (unwrap_or [] (str_at (text "model") parsed)) none
      ∷ []

-- `feed`, for a payload that is JSON.
unfoldable pub feed_value : Value → Decoder → Step
unfolding opening on_choice
feed_value parsed d = elim (get (text "error") parsed) [
  | some error ↦ (
    NeutralStreamEvent.error (
          AdapterError.api
            (unwrap_or (text "upstream stream error") (str_at (text "message") error)))
        ∷ [],
    record d { failed = true },
  )
  | none ↦
      let choice = and_then (and_then (get (text "choices") parsed) as_array) first in
      let (events, d') = on_choice parsed choice (record d { started = true }) in
      (opening parsed d ++ events, d')
]

-- `StreamDecoder::feed`
module _ (from_str : Text → Option Value) where
  unfoldable pub feed : Decoder → Text → Step
  unfolding feed_value
  feed d payload = elim (from_str payload) [ none ↦ ([], d) | some parsed ↦ feed_value parsed d ]

-- `StreamDecoder::finish`
unfoldable pub finish : Decoder → Step
finish d = if not d.started || d.failed || d.stop_emitted then ([], d) else (
  NeutralStreamEvent.message_stop (unwrap_or FinishReason.stop d.pending_finish) d.pending_usage
      ∷ [],
  record d { stop_emitted = true },
)
