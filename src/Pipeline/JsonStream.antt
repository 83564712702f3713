-- ===== src/Pipeline/JsonStream.antt =====
-- src/core/pipeline.rs: `handle_json_as_stream`, for an upstream that answers a streaming request with
-- plain JSON, and `response_to_events`.
pub mod Reference
pub mod Events
use llmgate.Prelude.{
  ℕ, ◌+◌, ◌%◌, ◌^◌, Bool, true, false, not, ◌&&◌, ◌||◌, Option, none, some, List, [], ◌∷◌, ◌++◌,
  Text, is_empty, any, if◌then◌else◌,
}
use llmgate.Prelude.Outcome.{Result, ok, err, ◌>>=◌}
use llmgate.Neutral.{Value, ContentBlock, NeutralResponse, NeutralStreamEvent, AdapterError}
use llmgate.Registry.{StreamDecoder, StreamEncoder}
use llmgate.Sse.Chunks.{concat}
use llmgate.Pipeline.Channel.{no_lines}
use llmgate.Pipeline.Relay.{Stages, Restorer, is_message_stop, is_error, restore, restorer_finish}

-- The loop over the blocks of a response. `tool_index` counts the tool calls.
unfoldable pub block_events : (Value → Text) → ℕ → List ContentBlock → List NeutralStreamEvent
block_events to_string tool_index [] = []
block_events to_string tool_index (ContentBlock.text_block t ∷ blocks) =
    NeutralStreamEvent.text_delta t ∷ block_events to_string tool_index blocks
block_events to_string tool_index (ContentBlock.thinking thought signature ∷ blocks) =
    NeutralStreamEvent.reasoning_delta thought ∷ block_events to_string tool_index blocks
block_events to_string tool_index (ContentBlock.tool_use id name input ∷ blocks) =
    NeutralStreamEvent.tool_call_delta tool_index id name (to_string input)
    ∷ block_events to_string ((tool_index + 1) % 2 ^ 32) blocks
block_events to_string tool_index (ContentBlock.image media_type base64 ∷ blocks) =
    block_events to_string tool_index blocks
block_events to_string tool_index (ContentBlock.tool_result id content is_error ∷ blocks) =
    block_events to_string tool_index blocks
block_events to_string tool_index (ContentBlock.redacted_thinking payload ∷ blocks) =
    block_events to_string tool_index blocks

unfoldable pub response_to_events : (Value → Text) → NeutralResponse → List NeutralStreamEvent
unfolding block_events
response_to_events to_string resp =
    NeutralStreamEvent.message_start resp.id resp.model none
    ∷ (block_events to_string 0 resp.content
        ++ NeutralStreamEvent.message_stop resp.finish_reason resp.usage ∷ [])

-- Whether an event carries content.
abbrev pub is_content : NeutralStreamEvent → Bool
is_content (NeutralStreamEvent.text_delta t) = true
is_content (NeutralStreamEvent.reasoning_delta t) = true
is_content (NeutralStreamEvent.tool_call_delta index id name arguments) = true
is_content _ = false

-- The variables of the loop over the events.
pub record Fallback (E : Type 0) : Type 0 where
  pub encoder : E
  pub restorer : Restorer
  pub lines : List Text
  pub saw_error : Bool
  pub terminal : List NeutralStreamEvent

module _ {D : Type 0} {E : Type 0} (st : Stages D E) where
  -- `lines.extend(encoder.encode(event))`
  abbrev pub extend_lines : NeutralStreamEvent → Fallback E → Fallback E
  extend_lines event s =
      let (encoded, encoder) = st.encoder.encode s.encoder event in
      record s { encoder = encoder; lines = s.lines ++ encoded }

  abbrev pub put_restored : Option NeutralStreamEvent × Restorer → Fallback E → Fallback E
  put_restored (none, restorer) s = record s { restorer = restorer }
  put_restored (some event, restorer) s =
      let (encoded, encoder) = st.encoder.encode s.encoder event in
      if is_message_stop event
      then record s { restorer = restorer; terminal = s.terminal ++ event ∷ [] }
      else record s {
        encoder = encoder;
        restorer = restorer;
        lines = s.lines ++ encoded;
        saw_error = s.saw_error || (is_error event && not (no_lines encoded));
      }

  -- The loop over the events.
  unfoldable pub put_events : List NeutralStreamEvent → Fallback E → Fallback E
  put_events [] s = s
  put_events (event ∷ events) s = put_events events (put_restored (restore st s.restorer event) s)

  -- A loop that only extends the lines.
  unfoldable pub put_plainly : List NeutralStreamEvent → Fallback E → Fallback E
  put_plainly [] s = s
  put_plainly (event ∷ events) s = put_plainly events (extend_lines event s)

  -- `if !done.is_empty() { lines.push(done) }`
  abbrev pub push_done : Text → List Text → List Text
  push_done done lines = if is_empty done then lines else lines ++ done ∷ []

  abbrev pub begin : Restorer → Fallback E
  begin restorer = record {
    encoder = st.encoder.start;
    restorer = restorer;
    lines = [];
    saw_error = false;
    terminal = [];
  }

  -- What is written for the events of the body.
  unfoldable pub write_body : Restorer → List NeutralStreamEvent → Text
  unfolding put_events put_plainly
  write_body restorer events =
      let s = put_events events (begin restorer) in
      let s' = put_plainly (restorer_finish st s.restorer).0 s in
      let s'' = put_plainly s.terminal s' in
      concat
        (if s''.saw_error then s''.lines else push_done (st.encoder.done s''.encoder) s''.lines)

  -- The events of the body: the stream decoder's, or else those of a parsed response.
  unfoldable pub body_events :
      (Value → Text)
      → (Text → Result AdapterError NeutralResponse)
      → Text
      → Result AdapterError (List NeutralStreamEvent)
  unfolding response_to_events
  body_events to_string parse_response body =
      let (fed, d) = st.decoder.feed st.decoder.start body in
      let events = fed ++ (st.decoder.finish d).0 in
      if any is_content events
      then ok events
      else parse_response body >>= (λ resp. ok (response_to_events to_string resp))

  -- `handle_json_as_stream`: the body of the answer, or an error for `serialize_error`.
  unfoldable pub handle_json_as_stream :
      (Value → Text)
      → (Text → Result AdapterError NeutralResponse)
      → Restorer
      → Text
      → Result AdapterError Text
  unfolding body_events write_body
  handle_json_as_stream to_string parse_response restorer body =
      body_events to_string parse_response body >>= (λ events. ok (write_body restorer events))
