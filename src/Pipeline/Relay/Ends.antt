-- ===== src/Pipeline/Relay/Ends.antt =====
-- How often a stream is ended towards the client, where the upstream speaks the OpenAI protocol.
use llmgate.Prelude.{Bool, not, ◌&&◌, List, ◌++◌, Text, Option}
use llmgate.Neutral.{Value}
use llmgate.Upstream.{sends_chunk, sends_error}
use llmgate.Registry.{StreamEncoder}
use llmgate.Privacy.Search.{AhoCorasick}
use llmgate.Privacy.Engine.{RedactionEngine}
use llmgate.Sse.{new_framing}
use llmgate.Sse
use llmgate.Openai.Decoder.{Decoder, new_decoder, feed, finish}
use llmgate.Pipeline.Relay.{Stages, Input}
use llmgate.Pipeline.Relay.Written.{before_marker, intake}

-- The payloads of a stream, up to the marker of its end.
abbrev pub payloads_of : List Input → List Text
payloads_of inputs =
    let (payloads, f, failed) = intake new_framing inputs in
    payloads ++ before_marker (Sse.finish f).0

-- The upstream has sent a chunk and no error, and has not broken off.
abbrev pub goes_well : (Text → Option Value) → List Input → Bool
goes_well from_str inputs =
    let payloads = payloads_of inputs in
    not (intake new_framing inputs).2
    && (sends_chunk from_str payloads && not (sends_error from_str payloads))

module _ {E : Type 0} (from_str : Text → Option Value) (encoder : StreamEncoder E)
    (automaton : AhoCorasick) (to_string : Text → Text) (engine : RedactionEngine) where
  -- An OpenAI upstream, with a client of any protocol.
  abbrev pub from_openai : Stages Decoder E
  from_openai = record {
    decoder = record { start = new_decoder; feed = feed from_str; finish = finish };
    encoder = encoder;
    automaton = automaton;
    to_string = to_string;
    engine = engine;
  }
