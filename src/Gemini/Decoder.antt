-- ===== src/Gemini/Decoder.antt =====
-- src/adapters/gemini/stream.rs: `GeminiStreamDecoder`. `serde_json::from_str` and the printing of a
-- value are parameters.
pub mod Stops
pub mod Sent
pub mod Calls
use llmgate.Prelude.{
  ℕ, ◌+◌, ◌%◌, ◌^◌, Bool, true, false, not, ◌&&◌, ◌||◌, Option, none, some, List, [], ◌∷◌, ◌++◌,
  Text, text, text_eq, is_empty, if◌then◌else◌,
}
use llmgate.Prelude.Decimal.{decimal}
use llmgate.Neutral.{Value, FinishReason, NeutralUsage, NeutralStreamEvent, AdapterError}
use llmgate.Json.{
  get, find_field, as_str, as_bool, as_array, str_at, u64_at, first, and_then, unwrap_or,
}

pub record Decoder : Type 0 where
  pub started : Bool
  pub failed : Bool
  pub stop_emitted : Bool
  pub pending_finish : Option FinishReason
  pub pending_usage : Option NeutralUsage
  pub tool_index : ℕ

-- `GeminiStreamDecoder::new`
abbrev pub new_decoder : Decoder
new_decoder = record {
  started = false;
  failed = false;
  stop_emitted = false;
  pending_finish = none;
  pending_usage = none;
  tool_index = 0;
}

abbrev pub Step : Type 0
Step = List NeutralStreamEvent × Decoder

unfoldable pub parse_finish_reason : Text → FinishReason
parse_finish_reason s =
    if text_eq s (text "STOP")
    then FinishReason.stop
    else if text_eq s (text "MAX_TOKENS")
    then FinishReason.length
    else if text_eq s (text "SAFETY") || text_eq s (text "RECITATION")
    then FinishReason.content_filter
    else FinishReason.other s

abbrev pub parse_usage : Value → NeutralUsage
parse_usage usage = record {
  input_tokens = unwrap_or 0 (u64_at (text "promptTokenCount") usage);
  output_tokens = unwrap_or 0 (u64_at (text "candidatesTokenCount") usage);
}

-- What the text of a part gives: a thought even if it is empty, a text if it is not.
abbrev pub text_events : Bool → Option Text → List NeutralStreamEvent
text_events thought none = []
text_events thought (some t) =
    if thought
    then NeutralStreamEvent.reasoning_delta t ∷ []
    else if is_empty t
    then []
    else NeutralStreamEvent.text_delta t ∷ []

-- The id of a call: its own, or one that is minted.
abbrev pub minted : ℕ → Text
minted index = text "fc_" ++ decimal ((index + 1) % 2 ^ 32)

abbrev pub call_id : ℕ → Option Text → Text
call_id index none = minted index
call_id index (some id) = if is_empty id then minted index else id

abbrev pub parts_of : Value → List Value
parts_of candidate =
    unwrap_or []
      (and_then (and_then (get (text "content") candidate) (get (text "parts"))) as_array)

unfoldable pub note_finish : Option Text → Decoder → Decoder
unfolding parse_finish_reason
note_finish none d = d
note_finish (some reason) d = record d { pending_finish = some (parse_finish_reason reason) }

unfoldable pub note_usage : Option Value → Decoder → Decoder
note_usage none d = d
note_usage (some usage) d = record d { pending_usage = some (parse_usage usage) }

abbrev pub stop_of : Decoder → NeutralStreamEvent
stop_of d =
    NeutralStreamEvent.message_stop (unwrap_or FinishReason.stop d.pending_finish) d.pending_usage

abbrev pub is_some : Option FinishReason → Bool
is_some none = false
is_some (some reason) = true

-- The stop of a chunk with a finish reason, once.
unfoldable pub emit_stop : Decoder → Step
emit_stop d =
    if is_some d.pending_finish && not d.stop_emitted
    then (stop_of d ∷ [], record d { stop_emitted = true })
    else ([], d)

-- `if !self.started`
unfoldable pub opening : Value → Decoder → List NeutralStreamEvent
opening parsed d =
    if d.started
    then []
    else NeutralStreamEvent.message_start [] (unwrap_or [] (str_at (text "modelVersion") parsed))
        none
      ∷ []

-- `StreamDecoder::finish`
unfoldable pub finish : Decoder → Step
finish d =
    if not d.started || d.failed || d.stop_emitted
    then ([], d)
    else (stop_of d ∷ [], record d { stop_emitted = true })

module _ (to_string : Value → Text) where
  -- What the call of a part gives, and the next index.
  unfoldable pub call_events : Option Value → ℕ → List NeutralStreamEvent × ℕ
  call_events none index = ([], index)
  call_events (some call) index =
      let args : Text = elim (get (text "args") call) [ none ↦ text "{}" | some a ↦ to_string a ] in
      (
        NeutralStreamEvent.tool_call_delta index (call_id index (str_at (text "id") call))
              (unwrap_or [] (str_at (text "name") call)) args
            ∷ [],
        (index + 1) % 2 ^ 32,
      )

  -- The loop over the parts.
  unfoldable pub on_parts : List Value → ℕ → List NeutralStreamEvent × ℕ
  unfolding call_events
  on_parts [] index = ([], index)
  on_parts (part ∷ parts) index =
      let thought = unwrap_or false (and_then (get (text "thought") part) as_bool) in
      let (calls, index') = call_events (get (text "functionCall") part) index in
      let (more, index'') = on_parts parts index' in
      (text_events thought (str_at (text "text") part) ++ (calls ++ more), index'')

  -- `if let Some(candidate)`
  unfoldable pub on_candidate : Option Value → Decoder → Step
  unfolding on_parts note_finish
  on_candidate none d = ([], d)
  on_candidate (some candidate) d =
      let (events, index) = on_parts (parts_of candidate) d.tool_index in
      (
        events,
        note_finish (str_at (text "finishReason") candidate) (record d { tool_index = index }),
      )

  -- `feed`, for a payload that is JSON.
  unfoldable pub feed_value : Value → Decoder → Step
  unfolding opening on_candidate note_usage emit_stop
  feed_value parsed d = elim (get (text "error") parsed) [
    | some error ↦ (
      NeutralStreamEvent.error (
            AdapterError.api
              (unwrap_or (text "upstream stream error") (str_at (text "message") error)))
          ∷ [],
      record d { failed = true },
    )
    | none ↦
        let candidate = and_then (and_then (get (text "candidates") parsed) as_array) first in
        let (events, d') = on_candidate candidate (record d { started = true }) in
        let (stop, d'') = emit_stop (note_usage (get (text "usageMetadata") parsed) d') in
        (opening parsed d ++ (events ++ stop), d'')
  ]

  module _ (from_str : Text → Option Value) where
    -- `StreamDecoder::feed`
    unfoldable pub feed : Decoder → Text → Step
    unfolding feed_value
    feed d payload = elim (from_str payload) [ none ↦ ([], d) | some parsed ↦ feed_value parsed d ]
