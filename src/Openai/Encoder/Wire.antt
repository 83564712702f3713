-- ===== src/Openai/Encoder/Wire.antt =====
-- A stream on the wire: encoded, printed, cut into chunks, framed, parsed and decoded.
use llmgate.Prelude.{
  ℕ, ◌≤◌, ◌≡◌, ◌∙◌, refl, sym, ap, Option, none, some, List, [], ◌∷◌, ◌++◌, append_assoc, false,
  Text, text, text_eq, length, map, All, All-append, arith, if◌then◌else◌,
}
use llmgate.Neutral.{Value, FinishReason, NeutralUsage, NeutralStreamEvent, as_str}
use llmgate.Sse.{max_buffer_bytes, new_framing}
use llmgate.Sse.Chunks.{push_all, concat}
use llmgate.Sse.Utf8.{is_utf8, well_formed, follow}
use llmgate.Sse.Frames.{IsLine, IsPlain-of, frame, idle, push_all-frame}
use llmgate.Openai.Decoder.{
  Decoder, Step, new_decoder, parse_finish_reason, feed, feed_value, finish,
}
use llmgate.Openai.Decoder.Stops.{feed_all, decode}
use llmgate.Openai.Encoder.{Encoder, new_encoder, encode, encode_lines, line, done}
use llmgate.Openai.Encoder.RoundTrip.{
  Body, encode_all, feed_values, stream_of, decode_values-encode_all,
}

-- The payload that ends a stream is skipped by the loop that feeds the decoder.
abbrev pub marker : Text
marker = text "[DONE]"

abbrev pub without_marker : List Text → List Text
without_marker [] = []
without_marker (p ∷ ps) =
    let rest = without_marker ps in if text_eq p marker then rest else p ∷ rest

without_marker-marker : without_marker (marker ∷ []) ≡ []
unfolding text_eq
without_marker-marker = refl

marker-IsLine : IsLine marker
unfolding is_utf8 well_formed follow
marker-IsLine = record {
  plain = (
    IsPlain-of 91 (omega arith),
    (
      IsPlain-of 68 (omega arith),
      (
        IsPlain-of 79 (omega arith),
        (
          IsPlain-of 78 (omega arith),
          (IsPlain-of 69 (omega arith), (IsPlain-of 93 (omega arith), tt)),
        ),
      ),
    ),
  );
  good = refl;
  fits = omega arith;
}

module _ (print : Value → Text) where
  -- The lines that are written for the events of a stream, and the line at its end.
  abbrev pub lines_of : Encoder → List NeutralStreamEvent → List Text
  lines_of e [] = done e ∷ []
  lines_of e (event ∷ events) =
      let (lines, e') = encode_lines print e event in lines ++ lines_of e' events

  map-append :
      (vs ws : List Value)
      → map frame (map print (vs ++ ws)) ≡ map (line print) vs ++ map frame (map print ws)
  map-append [] ws = refl
  map-append (v ∷ vs) ws = ap (λ ls. line print v ∷ ls) (map-append vs ws)

  lines_of-frame :
      (e : Encoder) (events : List NeutralStreamEvent)
      → lines_of e events ≡ map frame (map print (encode_all e events).0) ++ frame marker ∷ []
  unfolding encode_lines
  lines_of-frame e [] = refl
  lines_of-frame e (event ∷ events) =
      let one = encode e event in
      let later = (encode_all one.1 events).0 in
      ap (λ ls. map (line print) one.0 ++ ls) (lines_of-frame one.1 events)
      ∙ sym
          (append_assoc (map (line print) one.0) (map frame (map print later)) (frame marker ∷ []))
      ∙ ap (λ ls. ls ++ frame marker ∷ []) (sym (map-append one.0 later))

  framed :
      (vs : List Value)
      → map frame (map print vs ++ marker ∷ []) ≡ map frame (map print vs) ++ frame marker ∷ []
  framed [] = refl
  framed (v ∷ vs) = ap (λ ls. line print v ∷ ls) (framed vs)

-- What a client reads of the chunks of a response.
abbrev pub read : (Text → Option Value) → List Text → List NeutralStreamEvent
read from_str chunks = decode from_str (without_marker (push_all new_framing chunks).0)

module _ (print : Value → Text) (from_str : Text → Option Value) where
  -- What is relied on for one object: it is printed on one line, as UTF-8, not as the marker, and
  -- parsed back.
  pub record IsPrinted (v : Value) : Type 0 where
    pub line : IsLine (print v)
    pub unmarked : text_eq (print v) marker ≡ false
    pub parsed : from_str (print v) ≡ some v

  feed_all-print :
      (d : Decoder) (vs : List Value)
      → All IsPrinted vs
      → feed_all from_str d (map print vs) ≡ feed_values d vs
  unfolding feed
  feed_all-print d [] h = refl
  feed_all-print d (v ∷ vs) (h, hs) =
      rw (h.parsed, feed)
        (ap (λ (r : Step). ((feed_value v d).0 ++ r.0, r.1))
          (feed_all-print (feed_value v d).1 vs hs))

  without_marker-print :
      (vs : List Value)
      → All IsPrinted vs
      → without_marker (map print vs ++ marker ∷ []) ≡ map print vs
  without_marker-print [] h = without_marker-marker
  without_marker-print (v ∷ vs) (h, hs) =
      rw h.unmarked (ap (λ ps. print v ∷ ps) (without_marker-print vs hs))

  all_lines : (vs : List Value) → All IsPrinted vs → All IsLine (map print vs)
  all_lines [] h = tt
  all_lines (v ∷ vs) (h, hs) = (h.line, all_lines vs hs)

  -- What is written for a stream is read back as that stream, however the bytes are cut into chunks:
  -- its id, its model, each text, thought and tool call, the finish reason and the usage at its end,
  -- but not the usage at its start. This is for a stream that, between its start and its stop, has
  -- only texts and thoughts that are not empty, and parts of tool calls with an index below 2 ^ 32 of
  -- which only the first part of a call gives an id or a name, so no signature of a thought and no
  -- error; and whose finish reason is the one that its name is parsed as. Each object that is
  -- written is assumed to be printed as UTF-8 on one line, not as the marker of the end, and to be
  -- parsed back, and the whole to fit in the framing's buffer.
  pub read-lines_of :
      (created : ℕ) (id model : Text) (at_start : Option NeutralUsage) {seen : List ℕ}
      {body : List NeutralStreamEvent} (reason : FinishReason) (usage : Option NeutralUsage)
      (chunks : List Text)
      → Body [] body seen
      → parse_finish_reason (as_str reason) ≡ reason
      → All IsPrinted
          (encode_all (new_encoder created) (stream_of id model at_start body reason usage)).0
      → concat chunks
        ≡ concat
            (lines_of print (new_encoder created) (stream_of id model at_start body reason usage))
      → length (concat chunks) ≤ max_buffer_bytes
      → read from_str chunks ≡ stream_of id model none body reason usage
  read-lines_of created id model at_start {seen} {body} reason usage chunks parts named printed cut
        fits =
      let events = stream_of id model at_start body reason usage in
      let vs = (encode_all (new_encoder created) events).0 in
      let payloads = map print vs ++ marker ∷ [] in
      let got : push_all (idle 0) chunks ≡ (payloads, idle 0) =
        push_all-frame 0 payloads chunks
          (All-append IsLine (map print vs) (marker ∷ []) (all_lines vs printed)
            (marker-IsLine, tt))
          (cut
            ∙ ap concat (lines_of-frame print (new_encoder created) events ∙ sym (framed print vs)))
          fits in
      ap (λ r. decode from_str (without_marker r.0)) got
      ∙ ap (decode from_str) (without_marker-print vs printed)
      ∙ ap (λ (r : Step). r.0 ++ (finish r.1).0) (feed_all-print new_decoder vs printed)
      ∙ decode_values-encode_all created id model at_start reason usage parts named
