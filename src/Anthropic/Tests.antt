-- ===== src/Anthropic/Tests.antt =====
-- Runs of the stream's decoder and encoder, and the theorems at them.
use llmgate.Prelude.{
  not, ◌&&◌, ◌||◌, ◌≡◌, refl, Option, none, some, List, [], ◌∷◌, Text, text, text_eq, if◌then◌else◌,
}
use llmgate.Neutral.{Value, FinishReason, NeutralStreamEvent}
use llmgate.Events.{stops, one_if}
use llmgate.Json.{json}
use llmgate.Anthropic.Decoder.Stops.{decode}
use llmgate.Anthropic.Decoder.Sent.{stops-decode-sends_event}
use llmgate.Upstream.{sends_event}
use llmgate.Anthropic.Encoder.{
  Block, Delta, Event, new_encoder, encode, ensure_block, open_tool, close_block, take_signature,
  release_tool, without,
}
use llmgate.Anthropic.Encoder.Protocol.{accept_all, client_of, encode_all, accept_all-encode_all}

-- A reader that knows one object, `{"type":"message_start"}`, and takes the rest for broken.
abbrev reader : Text → Option Value
reader t =
    if text_eq t (text "start")
    then some (json ((text "type", Value.string (text "message_start")) ∷ []))
    else none

abbrev payloads : List Text
payloads = text "start" ∷ text "broken" ∷ []

stops-decode-sends_event_example :
    stops (decode reader payloads)
    ≡ one_if (
        sends_event reader (text "message_stop") payloads
        || (sends_event reader (text "message_start") payloads
            && not (sends_event reader (text "error") payloads)))
stops-decode-sends_event_example = stops-decode-sends_event reader payloads

-- Thought with a signature, a text, and a call of a tool whose first part has no id.
abbrev events : List NeutralStreamEvent
events =
    NeutralStreamEvent.reasoning_delta (text "hm")
    ∷ NeutralStreamEvent.reasoning_signature (text "s")
    ∷ NeutralStreamEvent.text_delta (text "a")
    ∷ NeutralStreamEvent.tool_call_delta 4 [] [] (text "{}")
    ∷ NeutralStreamEvent.message_stop FinishReason.tool_calls none
    ∷ []

written :
    (encode_all new_encoder events).0
    ≡ Event.block_start 0 Block.thinking_start
      ∷ Event.block_delta 0 (Delta.thinking_part (text "hm"))
      ∷ Event.block_delta 0 (Delta.signature_part (text "s"))
      ∷ Event.block_stop 0
      ∷ Event.block_start 1 Block.text_start
      ∷ Event.block_delta 1 (Delta.text_part (text "a"))
      ∷ Event.block_stop 1
      ∷ Event.block_start 2 (Block.tool_use_start [] [])
      ∷ Event.block_delta 2 (Delta.input_json_part (text "{}"))
      ∷ Event.block_stop 2
      ∷ Event.message_delta (text "tool_use") 0
      ∷ Event.message_stop
      ∷ []
unfolding encode ensure_block open_tool close_block take_signature release_tool without
written = refl

accept_all-encode_all_example :
    accept_all (client_of new_encoder) (encode_all new_encoder events).0
    ≡ some (client_of (encode_all new_encoder events).1)
accept_all-encode_all_example = accept_all-encode_all events
