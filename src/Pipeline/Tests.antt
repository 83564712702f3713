-- ===== src/Pipeline/Tests.antt =====
-- Runs of the relay and of the fallback, and the theorems at them: an upstream and a client that
-- speak the OpenAI protocol.
use llmgate.Prelude.{
  ◌≡◌, refl, true, ◌||◌, Option, none, some, List, [], ◌∷◌, Text, text, text_eq, arith,
  if◌then◌else◌,
}
use llmgate.Neutral.{Value, FinishReason, NeutralResponse, ContentBlock, NeutralStreamEvent}
use llmgate.Events.{starts, stops, call_indices, Counts}
use llmgate.Json.{json, get}
use llmgate.Sse.Utf8.{is_utf8, from_utf8_lossy}
use llmgate.Sse
use llmgate.Privacy.Search.{AhoCorasick}
use llmgate.Privacy.Engine.{RedactionEngine}
use llmgate.Privacy.Session.{new_session}
use llmgate.Privacy.Stream.{new_restorer}
use llmgate.Prelude.Strings.{strip_prefix, strip_suffix, ends_with}
use llmgate.Sse.{
  push, make_room, drain_lines, on_byte, on_line, end_event, add_data, accept_data, clear_event,
}
use llmgate.Sse.Chunks.{concat}
use llmgate.Openai.Decoder
use llmgate.Openai.Encoder
use llmgate.Pipeline.Channel.{staying}
use llmgate.Pipeline.Relay.{
  Stages, Restorer, Input, run, on_payloads, start_loop, relay_stream, status_of,
}
use llmgate.Pipeline.Relay.Reference.{only_stops}
use llmgate.Pipeline.Relay.Outcome.{stream_of, written, relay_stream-written}
use llmgate.Pipeline.Relay.Terminal.{given, relayed, relay_stream-stops}
use llmgate.Pipeline.Relay.Written.{intake}
use llmgate.Sse.{new_framing}
use llmgate.Pipeline.Relay.Ends.{from_openai, goes_well}
use llmgate.Pipeline.Relay.Gone.{relay_stream-client_gone}
use llmgate.Pipeline.JsonStream.{write_body, response_to_events}
use llmgate.Pipeline.JsonStream.Reference.{stream_of_body, write_body-written}
use llmgate.Pipeline.JsonStream.Events.{said, response_to_events_lem}

abbrev from_str : Text → Option Value
from_str t =
    if text_eq t (text "{}")
    then some (json [])
    else if text_eq t (text "bad")
    then some (json ((text "error", json []) ∷ []))
    else none

abbrev print : Value → Text
print v = text "{}"

-- A search that finds nothing.
abbrev blind : AhoCorasick
blind = record { find = λ ps t. none; find_iter = λ ps t. [] }

abbrev engine : RedactionEngine
engine = record { rules = []; allow_domains = []; allow_patterns = []; max_token_len = 8 }

abbrev stages : Stages Decoder.Decoder Encoder.Encoder
stages = record {
  decoder = record {
    start = Decoder.new_decoder;
    feed = Decoder.feed from_str;
    finish = Decoder.finish;
  };
  encoder = record {
    start = Encoder.new_encoder 0;
    encode = Encoder.encode_lines print;
    done = Encoder.done;
  };
  automaton = blind;
  to_string = λ t. t;
  engine = engine;
}

abbrev guard : Restorer
guard = some (new_restorer engine, new_session)

-- Two chunks, the second with the marker, and an end that is no longer looked at.
abbrev inputs : List Input
inputs =
    Input.bytes (text "data: {}\n\nda")
    ∷ Input.bytes (text "ta: {}\n\ndata: [DONE]\n\n")
    ∷ Input.failed
    ∷ []

relay_stream-written_example :
    ((relay_stream stages guard (staying []) inputs).0.channel.sent
      ≡ written stages (stream_of stages guard inputs))
    × ((relay_stream stages guard (staying []) inputs).1
        ≡ some (
            status_of stages
              ((stream_of stages guard inputs).failed || (stream_of stages guard inputs).wrong)))
relay_stream-written_example = relay_stream-written stages guard inputs refl

relay_stream-stops_example :
    (events : List NeutralStreamEvent) × (stops events ≡ 0)
    × ((relay_stream stages guard (staying []) inputs).0.channel.sent
        ≡ relayed stages
            (intake new_framing inputs).2
            (stream_of stages guard inputs).wrong
            events
            (only_stops (given stages inputs)))
relay_stream-stops_example = relay_stream-stops stages guard inputs refl

-- The upstream of these inputs.
abbrev ended : Stages Decoder.Decoder Encoder.Encoder
ended = from_openai from_str stages.encoder blind (λ t. t) engine

it_goes_well : goes_well from_str inputs ≡ true
unfolding on_payloads push make_room drain_lines on_byte on_line end_event add_data accept_data
    clear_event strip_prefix strip_suffix ends_with text_eq is_utf8 from_utf8_lossy get Sse.finish
it_goes_well = refl

-- A client that goes after the first chunk.
abbrev cut_short : List Input
cut_short = Input.bytes (text ": hello\n\n") ∷ Input.closed ∷ []

sees_it : (run stages cut_short (start_loop stages none (staying []))).client_gone ≡ true
unfolding run on_payloads push make_room drain_lines on_byte on_line end_event add_data accept_data
    clear_event strip_prefix strip_suffix ends_with text_eq
sees_it = refl

relay_stream-client_gone_example : (relay_stream stages none (staying []) cut_short).1 ≡ none
relay_stream-client_gone_example =
    relay_stream-client_gone stages none (staying []) cut_short sees_it

abbrev body : List NeutralStreamEvent
body =
    NeutralStreamEvent.text_delta (text "hi")
    ∷ NeutralStreamEvent.message_stop FinishReason.stop none
    ∷ NeutralStreamEvent.text_delta (text "late")
    ∷ []

write_body-written_example :
    write_body stages guard body ≡ concat (written stages (stream_of_body stages guard body))
write_body-written_example = write_body-written stages guard body

abbrev response : NeutralResponse
response = record {
  id = text "r";
  model = text "m";
  content =
      ContentBlock.text_block (text "a")
      ∷ ContentBlock.tool_use (text "c") (text "f") Value.null
      ∷ ContentBlock.thinking (text "hm") none
      ∷ ContentBlock.text_block (text "b")
      ∷ ContentBlock.tool_use (text "d") (text "g") Value.null
      ∷ [];
  finish_reason = FinishReason.tool_calls;
  usage = none;
}

response_to_events_lem_example :
    (starts (response_to_events print response) ≡ 1)
    × (stops (response_to_events print response) ≡ 1)
    × Counts 0 2 (call_indices (response_to_events print response))
    × (said (response_to_events print response) ≡ text "ab")
response_to_events_lem_example = response_to_events_lem print response (omega arith)
