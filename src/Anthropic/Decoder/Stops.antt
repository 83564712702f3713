-- ===== src/Anthropic/Decoder/Stops.antt =====
-- The stops of a decoded stream, by the flags of the decoder.
use llmgate.Prelude.{
  ℕ, ◌+◌, ◌≡◌, ◌∙◌, refl, ap, inl, inr, true, not, ◌&&◌, ◌||◌, Option, none, some, List, [], ◌∷◌,
  ◌++◌, Text, text, arith, Bool-cases, Option-cases,
}
use llmgate.Neutral.{Value, NeutralStreamEvent}
use llmgate.Events.{is_stop, stops, stops-append, one_if}
use llmgate.Json.{get, str_at, and_then}
use llmgate.Anthropic.Decoder.{
  index_of, Decoder, Step, new_decoder, feed, finish, dispatch, on_message_start, note_message,
  on_message_delta, note_finish, note_usage, block_start, block_delta, emit_stop, on_error, one_of,
}

-- The flag has counted the stops.
record IsHonest (d : Decoder) (r : Step) : Type 0 where
  counted : stops r.0 + one_if d.stop_emitted ≡ one_if r.1.stop_emitted

honest :
    (d d' : Decoder)
    → d'.stop_emitted ≡ d.stop_emitted
    → (es : List NeutralStreamEvent) → stops es ≡ 0
    → IsHonest d (es, d')
honest d d' same es quiet = record { counted = omega (arith, quiet, ap one_if same) }

emit_stop-IsHonest : (d : Decoder) → IsHonest d (emit_stop d)
unfolding emit_stop
emit_stop-IsHonest d = elim (Bool-cases d.stop_emitted) [
  | inl done ↦ record { counted = rw done }
  | inr more ↦ record { counted = rw more }
]

note_message-stop_emitted :
    (o : Option Value) (d : Decoder) → (note_message o d).stop_emitted ≡ d.stop_emitted
unfolding note_message
note_message-stop_emitted none d = refl
note_message-stop_emitted (some m) d = refl

note_usage-stop_emitted :
    (o : Option Value) (d : Decoder) → (note_usage o d).stop_emitted ≡ d.stop_emitted
unfolding note_usage
note_usage-stop_emitted none d = refl
note_usage-stop_emitted (some m) d = refl

note_finish-stop_emitted :
    (o : Option Text) (d : Decoder) → (note_finish o d).stop_emitted ≡ d.stop_emitted
unfolding note_finish
note_finish-stop_emitted none d = refl
note_finish-stop_emitted (some m) d = refl

stops-one_of :
    (event : Text → NeutralStreamEvent) (o : Option Text)
    → ((t : Text) → is_stop (event t) ≡ 0)
    → stops (one_of event o) ≡ 0
stops-one_of event Option.none h = refl
stops-one_of event (some t) h = omega (arith, h t)

stops-block_start : (parsed : Value) → stops (block_start parsed) ≡ 0
unfolding block_start
stops-block_start parsed = ground arith

stops-block_delta : (parsed : Value) → stops (block_delta parsed) ≡ 0
unfolding block_delta
stops-block_delta parsed =
    let delta = get (text "delta") parsed in
    ground (
      arith,
      stops-one_of NeutralStreamEvent.text_delta (and_then delta (str_at (text "text")))
          (λ t. refl),
      stops-one_of NeutralStreamEvent.reasoning_delta (and_then delta (str_at (text "thinking")))
          (λ t. refl),
      stops-one_of (NeutralStreamEvent.tool_call_delta (index_of parsed) [] [])
          (and_then delta (str_at (text "partial_json"))) (λ t. refl),
      stops-one_of NeutralStreamEvent.reasoning_signature
          (and_then delta (str_at (text "signature"))) (λ t. refl),
    )

on_message_delta-stop_emitted :
    (parsed : Value) (d : Decoder) → (on_message_delta parsed d).1.stop_emitted ≡ d.stop_emitted
unfolding on_message_delta
on_message_delta-stop_emitted parsed d =
    let reason = and_then (get (text "delta") parsed) (str_at (text "stop_reason")) in
    note_usage-stop_emitted (get (text "usage") parsed) (note_finish reason d)
    ∙ note_finish-stop_emitted reason d

dispatch-IsHonest :
    (etype : Text) (parsed : Value) (d : Decoder) → IsHonest d (dispatch etype parsed d)
unfolding dispatch on_message_start on_error
dispatch-IsHonest etype parsed d = record {
  counted = ground (
    arith,
    note_message-stop_emitted (get (text "message") parsed) (record d { started = true }),
    on_message_delta-stop_emitted parsed d,
    stops-block_start parsed,
    stops-block_delta parsed,
    (emit_stop-IsHonest d).counted,
  );
}

-- How many stops the stream should have had, by the state that its payloads leave.
abbrev expected : Decoder → ℕ
expected d = one_if (d.stop_emitted || (d.started && not d.failed))

stops-finish :
    (d : Decoder) (n : ℕ) → n ≡ one_if d.stop_emitted → n + stops (finish d).0 ≡ expected d
unfolding finish emit_stop
stops-finish d n h = ground arith

module _ (from_str : Text → Option Value) where
  feed-IsHonest : (d : Decoder) (payload : Text) → IsHonest d (feed from_str d payload)
  unfolding feed
  feed-IsHonest d payload = elim (Option-cases (from_str payload)) [
    | inl bad ↦ rw (bad, feed) (honest d d refl [] refl)
    | inr (parsed, good) ↦ elim (Option-cases (str_at (text "type") parsed)) [
      | inl untyped ↦ rw (good, untyped, feed) (honest d d refl [] refl)
      | inr (etype, typed) ↦ rw (good, typed, feed) (dispatch-IsHonest etype parsed d)
    ]
  ]

  -- The payloads of a stream, one after the other.
  abbrev pub feed_all : Decoder → List Text → Step
  feed_all d [] = ([], d)
  feed_all d (payload ∷ payloads) =
      let (es, d') = feed from_str d payload in
      let (more, d'') = feed_all d' payloads in (es ++ more, d'')

  stops-feed_all :
      (d : Decoder) (payloads : List Text)
      → stops (feed_all d payloads).0 + one_if d.stop_emitted
        ≡ one_if (feed_all d payloads).1.stop_emitted
  stops-feed_all d [] = omega arith
  stops-feed_all d (payload ∷ payloads) =
      let here = (feed-IsHonest d payload).counted in
      let later = stops-feed_all (feed from_str d payload).1 payloads in
      omega (
        arith,
        here,
        later,
        stops-append (feed from_str d payload).0 (feed_all (feed from_str d payload).1 payloads).0,
      )

  -- The events of a whole stream.
  abbrev pub decode : List Text → List NeutralStreamEvent
  decode payloads = let (es, d) = feed_all new_decoder payloads in es ++ (finish d).0

  -- The stops, by the flags of the state that the payloads leave.
  pub stops-decode :
      (payloads : List Text) → stops (decode payloads) ≡ expected (feed_all new_decoder payloads).1
  stops-decode payloads =
      let d = (feed_all new_decoder payloads).1 in
      let fed = stops-feed_all new_decoder payloads in
      stops-append (feed_all new_decoder payloads).0 (finish d).0
      ∙ stops-finish d (stops (feed_all new_decoder payloads).0) (omega (arith, fed))
