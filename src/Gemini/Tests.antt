-- ===== src/Gemini/Tests.antt =====
-- Runs of the stream's decoder, and the theorems at them.
use llmgate.Prelude.{
  ◌<◌, ◌≡◌, refl, not, ◌&&◌, ◌||◌, Option, none, some, List, [], ◌∷◌, Text, text, text_eq, arith,
  if◌then◌else◌,
}
use llmgate.Prelude.Decimal.{decimal}
use llmgate.Neutral.{Value, FinishReason, AdapterError, NeutralStreamEvent}
use llmgate.Events.{starts, stops, one_if, call_indices, Counts}
use llmgate.Json.{json, array, get, find_field, as_array, as_str, as_bool, str_at}
use llmgate.Gemini.Decoder.{
  new_decoder, feed, feed_value, finish, opening, on_candidate, on_parts, call_events, note_finish,
  note_usage, emit_stop, parse_finish_reason,
}
use llmgate.Gemini.Encoder.Fragments.{parts}
use llmgate.Prelude.{nat_eq}
use llmgate.Prelude.Map
use llmgate.Gemini.Decoder.Stops.{feed_all, decode}
use llmgate.Gemini.Decoder.Sent.{sends_finish, stops-decode-sends_finish}
use llmgate.Upstream.{sends_chunk, sends_error}
use llmgate.Gemini.Decoder.Calls.{size, unnamed, feed_all-calls}

abbrev print : Value → Text
print v = text "{}"

-- A candidate with parts and a finish reason.
abbrev candidate : List Value → List (Text × Value) → Value
candidate parts more = json (
    (
      text "candidates",
      array (json ((text "content", json ((text "parts", array parts) ∷ [])) ∷ more) ∷ []),
    )
    ∷ [])

abbrev call : Value
call = json ((text "functionCall", json ((text "name", Value.string (text "f")) ∷ [])) ∷ [])

abbrev reader : Text → Option Value
reader t =
    if text_eq t (text "calls")
    then some (candidate (call ∷ call ∷ []) [])
    else if text_eq t (text "end")
    then some (candidate (call ∷ []) ((text "finishReason", Value.string (text "STOP")) ∷ []))
    else if text_eq t (text "bad")
    then some (json ((text "error", json []) ∷ []))
    else none

-- An error, and a finish reason after it.
abbrev payloads : List Text
payloads = text "calls" ∷ text "bad" ∷ text "end" ∷ []

decoded :
    decode print reader payloads
    ≡ NeutralStreamEvent.message_start [] [] none
      ∷ NeutralStreamEvent.tool_call_delta 0 (text "fc_1") (text "f") (text "{}")
      ∷ NeutralStreamEvent.tool_call_delta 1 (text "fc_2") (text "f") (text "{}")
      ∷ NeutralStreamEvent.error (AdapterError.api (text "upstream stream error"))
      ∷ NeutralStreamEvent.tool_call_delta 2 (text "fc_3") (text "f") (text "{}")
      ∷ NeutralStreamEvent.message_stop FinishReason.stop none
      ∷ []
unfolding feed feed_value finish opening on_candidate on_parts call_events note_finish note_usage
    emit_stop parse_finish_reason get find_field as_array as_str as_bool str_at decimal text_eq
decoded = refl

stops-decode-sends_finish_example :
    (starts (decode print reader payloads) ≡ one_if (sends_chunk reader payloads))
    × (stops (decode print reader payloads)
        ≡ one_if (
            sends_finish print reader payloads
            || (sends_chunk reader payloads && not (sends_error reader payloads))))
stops-decode-sends_finish_example = stops-decode-sends_finish print reader payloads

few : size print (feed_all print reader new_decoder payloads).0 < 4294967296
unfolding feed feed_value opening on_candidate on_parts call_events note_finish note_usage emit_stop
    get find_field as_array as_str as_bool str_at decimal text_eq
few = omega arith

feed_all-calls_example :
    Counts 0
      (size print (feed_all print reader new_decoder payloads).0)
      (call_indices (feed_all print reader new_decoder payloads).0)
    × (unnamed (feed_all print reader new_decoder payloads).0 ≡ 0)
feed_all-calls_example = feed_all-calls print reader payloads few

-- The arguments of a call, in two fragments.
abbrev args_reader : Text → Option Value
args_reader t = if text_eq t (text "{}") then some (json []) else none

abbrev fragments : List Text
fragments = text "{" ∷ text "}" ∷ []
