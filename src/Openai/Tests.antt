-- ===== src/Openai/Tests.antt =====
-- Runs of the stream's decoder and encoder, and the theorems at them.
use llmgate.Prelude.{
  ℕ, ◌<◌, ◌≡◌, refl, not, ◌&&◌, arith, Option, none, some, List, [], ◌∷◌, Text, text, text_eq, take,
  drop, All, if◌then◌else◌,
}
use llmgate.Neutral.{Value, FinishReason, NeutralUsage, NeutralStreamEvent, as_str}
use llmgate.Events.{stops, starts, one_if}
use llmgate.Json.{get, find_field, as_array, first, and_then}
use llmgate.Sse.Utf8.{is_utf8, well_formed, follow}
use llmgate.Sse.Chunks.{concat}
use llmgate.Sse.Frames.{IsLine, IsPlain-of}
use llmgate.Openai.Decoder.{new_decoder, parse_finish_reason}
use llmgate.Openai.Decoder.Stops.{feed_all, decode}
use llmgate.Openai.Decoder.Sent.{starts-decode-sends_chunk}
use llmgate.Upstream.{sends_chunk, sends_error}
use llmgate.Openai.Encoder.{new_encoder, encode, encode_lines}
use llmgate.Openai.Encoder.RoundTrip.{
  Body, encode_all, decode_values, stream_of, decode_values-encode_all,
}
use llmgate.Openai.Encoder.Wire.{IsPrinted, lines_of, read, read-lines_of}

abbrev body : List NeutralStreamEvent
body = NeutralStreamEvent.text_delta (text "hi") ∷ []

abbrev used : Option NeutralUsage
used = some (record { input_tokens = 3; output_tokens = 4 })

abbrev whole : List NeutralStreamEvent
whole = stream_of (text "i") (text "m") none body FinishReason.length used

abbrev values : List Value
values = (encode_all (new_encoder 7) whole).0

-- A printer and a reader that know the objects of one stream.
abbrev print : Value → Text
print v =
    elim (and_then
      (and_then (and_then (and_then (get (text "choices") v) as_array) first) (get (text "delta")))
      (get (text "role"))) [
        | some role ↦ text "{s}"
        | none ↦ elim (get (text "usage") v) [ some u ↦ text "{e}" | none ↦ text "{t}" ]
      ]

abbrev reader_of : List Value → Text → Option Value
reader_of (start ∷ part ∷ stop ∷ []) t =
    if text_eq t (text "{s}")
    then some start
    else if text_eq t (text "{t}")
    then some part
    else if text_eq t (text "{e}")
    then some stop
    else none
reader_of _ t = none

abbrev reader : Text → Option Value
reader = reader_of values

abbrev sent : List Text
sent = text "{s}" ∷ text "?" ∷ text "{e}" ∷ []

starts-decode-sends_chunk_example :
    (starts (decode reader sent) ≡ one_if (sends_chunk reader sent))
    × (stops (feed_all reader new_decoder sent).0 ≡ 0)
    × (stops (decode reader sent)
        ≡ one_if (sends_chunk reader sent && not (sends_error reader sent)))
starts-decode-sends_chunk_example = starts-decode-sends_chunk reader sent

-- A text, and a call of a tool in two parts.
abbrev parts : List NeutralStreamEvent
parts =
    NeutralStreamEvent.text_delta (text "hi")
    ∷ NeutralStreamEvent.tool_call_delta 0 (text "c") (text "f") (text "{")
    ∷ NeutralStreamEvent.tool_call_delta 0 [] [] (text "}")
    ∷ []

parts-Body : Body [] parts (0 ∷ [])
parts-Body = Body.text_part (text "hi") refl (
    Body.call_part 0 (text "c") (text "f") (text "{") (omega arith) refl refl
      (Body.call_part 0 [] [] (text "}") (omega arith) refl refl (Body.nil (0 ∷ []))))

decode_values-encode_all_example :
    decode_values
      (encode_all
        (new_encoder 7)
        (stream_of (text "i") (text "m") none parts FinishReason.tool_calls used)).0
    ≡ stream_of (text "i") (text "m") none parts FinishReason.tool_calls used
unfolding parse_finish_reason text_eq as_str
decode_values-encode_all_example =
    decode_values-encode_all 7 (text "i") (text "m") none FinishReason.tool_calls used parts-Body
      refl

-- A brace, a letter and a brace.
braced : (c : ℕ) → b'\r' < c → c < 128 → IsLine (123 ∷ c ∷ 125 ∷ [])
unfolding is_utf8 well_formed follow
braced c above ascii = record {
  plain = (IsPlain-of 123 (omega arith), (IsPlain-of c above, (IsPlain-of 125 (omega arith), tt)));
  good = ground (arith, ascii);
  fits = omega arith;
}

whole-IsPrinted : All (IsPrinted print reader) values
unfolding encode get find_field as_array text_eq
whole-IsPrinted = (
  record { line = braced 115 (omega arith) (omega arith); unmarked = refl; parsed = refl },
  (
    record { line = braced 116 (omega arith) (omega arith); unmarked = refl; parsed = refl },
    (record { line = braced 101 (omega arith) (omega arith); unmarked = refl; parsed = refl }, tt),
  ),
)

abbrev written : Text
written = concat (lines_of print (new_encoder 7) whole)

read-lines_of_example : read reader (take 9 written ∷ drop 9 written ∷ []) ≡ whole
unfolding parse_finish_reason text_eq as_str encode_lines encode get as_array
read-lines_of_example =
    read-lines_of print reader 7 (text "i") (text "m") none FinishReason.length used
      (take 9 written ∷ drop 9 written ∷ []) (Body.text_part (text "hi") refl (Body.nil [])) refl
      whole-IsPrinted refl (omega arith)
