-- ===== src/Anthropic/Decoder.antt =====
-- src/adapters/anthropic/stream.rs: `AnthropicStreamDecoder`. `serde_json::from_str` is a parameter.
pub mod Stops
pub mod Sent
use llmgate.Prelude.{
  ℕ, Bool, true, false, not, ◌||◌, Option, none, some, List, [], ◌∷◌, Text, text, text_eq,
  if◌then◌else◌,
}
use llmgate.Neutral.{Value, FinishReason, NeutralUsage, NeutralStreamEvent, AdapterError}
use llmgate.Json.{get, as_str, str_at, u64_at, and_then, unwrap_or, as_u32}

pub record Decoder : Type 0 where
  pub started : Bool
  pub failed : Bool
  pub message_id : Text
  pub model : Text
  pub input_tokens : ℕ
  pub stop_emitted : Bool
  pub pending_finish : Option FinishReason
  pub pending_usage : Option NeutralUsage

-- `AnthropicStreamDecoder::new`
abbrev pub new_decoder : Decoder
new_decoder = record {
  started = false;
  failed = false;
  message_id = [];
  model = [];
  input_tokens = 0;
  stop_emitted = false;
  pending_finish = none;
  pending_usage = none;
}

abbrev pub Step : Type 0
Step = List NeutralStreamEvent × Decoder

unfoldable pub parse_stop_reason : Text → FinishReason
parse_stop_reason s =
    if text_eq s (text "end_turn")
    then FinishReason.stop
    else if text_eq s (text "max_tokens")
    then FinishReason.length
    else if text_eq s (text "tool_use")
    then FinishReason.tool_calls
    else if text_eq s (text "stop_sequence")
    then FinishReason.stop
    else if text_eq s (text "refusal")
    then FinishReason.content_filter
    else FinishReason.other s

note_message : Option Value → Decoder → Decoder
note_message none d = d
note_message (some message) d = record d {
  message_id = unwrap_or [] (str_at (text "id") message);
  model = unwrap_or [] (str_at (text "model") message);
  input_tokens = unwrap_or 0 (and_then (get (text "usage") message) (u64_at (text "input_tokens")));
}

-- `"message_start"`
pub on_message_start : Value → Decoder → Step
unfolding note_message
on_message_start parsed d =
    let d' = note_message (get (text "message") parsed) (record d { started = true }) in
    let usage : NeutralUsage = record { input_tokens = d'.input_tokens; output_tokens = 0 } in
    (NeutralStreamEvent.message_start d'.message_id d'.model (some usage) ∷ [], d')

index_of : Value → ℕ
index_of parsed = as_u32 (unwrap_or 0 (u64_at (text "index") parsed))

is_tag : Text → Option Text → Bool
is_tag name none = false
is_tag name (some tag) = text_eq tag name

-- `"content_block_start"`: the events it gives; the state stays as it is.
pub block_start : Value → List NeutralStreamEvent
unfolding index_of is_tag
block_start parsed =
    let block = get (text "content_block") parsed in
    if is_tag (text "tool_use") (and_then block (str_at (text "type")))
    then NeutralStreamEvent.tool_call_delta (index_of parsed)
        (unwrap_or [] (and_then block (str_at (text "id"))))
        (unwrap_or [] (and_then block (str_at (text "name")))) []
      ∷ []
    else []

-- `.map(|t| vec![…]).unwrap_or_default()`
abbrev pub one_of : (Text → NeutralStreamEvent) → Option Text → List NeutralStreamEvent
one_of event none = []
one_of event (some t) = event t ∷ []

-- `"content_block_delta"`
pub block_delta : Value → List NeutralStreamEvent
unfolding index_of is_tag
block_delta parsed =
    let delta = get (text "delta") parsed in
    let tag = and_then delta (str_at (text "type")) in
    if is_tag (text "text_delta") tag
    then one_of NeutralStreamEvent.text_delta (and_then delta (str_at (text "text")))
    else if is_tag (text "thinking_delta") tag
    then one_of NeutralStreamEvent.reasoning_delta (and_then delta (str_at (text "thinking")))
    else if is_tag (text "input_json_delta") tag
    then one_of (NeutralStreamEvent.tool_call_delta (index_of parsed) [] [])
        (and_then delta (str_at (text "partial_json")))
    else if is_tag (text "signature_delta") tag
    then one_of NeutralStreamEvent.reasoning_signature (and_then delta (str_at (text "signature")))
    else []

note_finish : Option Text → Decoder → Decoder
unfolding parse_stop_reason
note_finish none d = d
note_finish (some reason) d = record d { pending_finish = some (parse_stop_reason reason) }

note_usage : Option Value → Decoder → Decoder
note_usage none d = d
note_usage (some usage) d = record d {
  pending_usage = some (record {
    input_tokens = d.input_tokens;
    output_tokens = unwrap_or 0 (u64_at (text "output_tokens") usage);
  });
}

-- `"message_delta"`
pub on_message_delta : Value → Decoder → Step
unfolding note_finish note_usage
on_message_delta parsed d =
    let reason = and_then (get (text "delta") parsed) (str_at (text "stop_reason")) in
    ([], note_usage (get (text "usage") parsed) (note_finish reason d))

-- `"message_stop"`, and what `finish` does unless the stream has not started or has failed.
pub emit_stop : Decoder → Step
emit_stop d = if d.stop_emitted then ([], d) else (
  NeutralStreamEvent.message_stop (unwrap_or FinishReason.stop d.pending_finish) d.pending_usage
      ∷ [],
  record d { stop_emitted = true },
)

-- `"error"`
pub on_error : Value → Decoder → Step
on_error parsed d =
    let message =
      unwrap_or (text "upstream stream error")
        (and_then (get (text "error") parsed) (str_at (text "message"))) in
    (NeutralStreamEvent.error (AdapterError.api message) ∷ [], record d { failed = true })

-- The match on the type of the event.
pub dispatch : Text → Value → Decoder → Step
unfolding on_message_start block_start block_delta on_message_delta emit_stop on_error
dispatch etype parsed d =
    if text_eq etype (text "message_start")
    then on_message_start parsed d
    else if text_eq etype (text "content_block_start")
    then (block_start parsed, d)
    else if text_eq etype (text "content_block_delta")
    then (block_delta parsed, d)
    else if text_eq etype (text "message_delta")
    then on_message_delta parsed d
    else if text_eq etype (text "message_stop")
    then emit_stop d
    else if text_eq etype (text "ping")
    then ([], d)
    else if text_eq etype (text "error")
    then on_error parsed d
    else ([], d)

-- `StreamDecoder::feed`
module _ (from_str : Text → Option Value) where
  unfoldable pub feed : Decoder → Text → Step
  unfolding dispatch
  feed d payload = elim (from_str payload) [
    | none ↦ ([], d)
    | some parsed ↦ elim (str_at (text "type") parsed) [
      | none ↦ ([], d)
      | some etype ↦ dispatch etype parsed d
    ]
  ]

-- `StreamDecoder::finish`
unfoldable pub finish : Decoder → Step
unfolding emit_stop
finish d = if not d.started || d.failed then ([], d) else emit_stop d
