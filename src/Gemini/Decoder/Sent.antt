-- ===== src/Gemini/Decoder/Sent.antt =====
-- What a decoded stream says of its start and its end, by what the upstream has sent.
use llmgate.Prelude.{
  ◌≡◌, ◌∙◌, refl, sym, ap, inl, inr, true, false, not, ◌&&◌, ◌||◌, Bool, Option, none, some, List,
  [], ◌∷◌, Text, text, any, arith, Option-cases,
}
use llmgate.Neutral.{Value}
use llmgate.Events.{stops, starts, one_if}
use llmgate.Json.{get, as_array, str_at, and_then, first}
use llmgate.Upstream.{is_error, is_chunk, sends_chunk, sends_error, or_assoc, or_false}
use llmgate.Upstream
use llmgate.Gemini.Decoder.{
  Decoder, new_decoder, is_some, on_parts, parts_of, note_finish, note_usage, on_candidate,
  emit_stop, feed_value, feed,
}
use llmgate.Gemini.Decoder.Stops.{
  on_candidate-IsCandidate, note_usage-KeepsFlags, feed_all, decode, finish-decode,
}

-- A first candidate that says why it has finished.
abbrev pub reason_of : Option Value → Option Text
reason_of none = none
reason_of (some candidate) = str_at (text "finishReason") candidate

abbrev pub first_candidate : Value → Option Value
first_candidate parsed = and_then (and_then (get (text "candidates") parsed) as_array) first

-- A chunk whose first candidate says why it has finished.
abbrev pub is_finish : Option Value → Bool
is_finish none = false
is_finish (some parsed) =
    is_chunk (some parsed) && Upstream.is_some (reason_of (first_candidate parsed))

-- A finish reason is pending in a state exactly if its stop has been emitted.
abbrev IsSettled : Decoder → Type 0
IsSettled d = is_some d.pending_finish ≡ d.stop_emitted

-- A step has noted that a chunk came, that an error came, and that a chunk gave a finish reason.
record Notes (chunk bad ends : Bool) (d d' : Decoder) : Type 0 where
  started : d'.started ≡ d.started || chunk
  failed : d'.failed ≡ d.failed || bad
  stop_emitted : d'.stop_emitted ≡ d.stop_emitted || ends
  settled : IsSettled d'

Notes-none : (d : Decoder) → IsSettled d → Notes false false false d d
Notes-none d settled = record {
  started = sym (or_false d.started);
  failed = sym (or_false d.failed);
  stop_emitted = sym (or_false d.stop_emitted);
  settled = settled;
}

note_finish-pending :
    (o : Option Text) (d : Decoder)
    → is_some (note_finish o d).pending_finish ≡ is_some d.pending_finish || Upstream.is_some o
unfolding note_finish
note_finish-pending none d = sym (or_false (is_some d.pending_finish))
note_finish-pending (some reason) d = ground arith

note_usage-pending :
    (o : Option Value) (d : Decoder) → (note_usage o d).pending_finish ≡ d.pending_finish
unfolding note_usage
note_usage-pending none d = refl
note_usage-pending (some usage) d = refl

-- After it has emitted what is pending, a state is settled.
record Emits (d d' : Decoder) : Type 0 where
  started : d'.started ≡ d.started
  failed : d'.failed ≡ d.failed
  pending : d'.pending_finish ≡ d.pending_finish
  stop_emitted : d'.stop_emitted ≡ d.stop_emitted || is_some d.pending_finish

emit_stop-Emits : (d : Decoder) → Emits d (emit_stop d).1
unfolding emit_stop
emit_stop-Emits d = record {
  started = ground arith;
  failed = ground arith;
  pending = ground arith;
  stop_emitted = ground arith;
}

or_self : (a b : Bool) → a || (a || b) ≡ a || b
or_self true b = refl
or_self false b = refl

module _ (to_string : Value → Text) where
  on_candidate-pending :
      (o : Option Value) (d : Decoder)
      → is_some (on_candidate to_string o d).1.pending_finish
        ≡ is_some d.pending_finish || Upstream.is_some (reason_of o)
  unfolding on_candidate
  on_candidate-pending none d = sym (or_false (is_some d.pending_finish))
  on_candidate-pending (some candidate) d =
      note_finish-pending (str_at (text "finishReason") candidate)
        (record d { tool_index = (on_parts to_string (parts_of candidate) d.tool_index).1 })

  -- A chunk, up to the stop that it may give.
  chunk-Notes :
      (o usage : Option Value) (d : Decoder)
      → IsSettled d
      → Notes true false
          (Upstream.is_some (reason_of o))
          d
          (emit_stop
            (note_usage usage (on_candidate to_string o (record d { started = true })).1)).1
  chunk-Notes o usage d settled =
      let begun : Decoder = record d { started = true } in
      let fed = (on_candidate to_string o begun).1 in
      let noted = note_usage usage fed in
      let c = (on_candidate-IsCandidate to_string o begun).flags in
      let u = note_usage-KeepsFlags usage fed in
      let e = emit_stop-Emits noted in
      let pending : is_some noted.pending_finish
          ≡ d.stop_emitted || Upstream.is_some (reason_of o) =
        ap is_some (note_usage-pending usage fed)
        ∙ on_candidate-pending o begun
        ∙ ap (λ b. b || Upstream.is_some (reason_of o)) settled in
      let stopped : (emit_stop noted).1.stop_emitted
          ≡ d.stop_emitted || Upstream.is_some (reason_of o) =
        e.stop_emitted
        ∙ ap (λ b. b || is_some noted.pending_finish) (u.stop_emitted ∙ c.stop_emitted)
        ∙ ap (λ b. d.stop_emitted || b) pending
        ∙ or_self d.stop_emitted (Upstream.is_some (reason_of o)) in
      record {
        started = ground (arith, e.started, u.started, c.started);
        failed = e.failed ∙ u.failed ∙ c.failed ∙ sym (or_false d.failed);
        stop_emitted = stopped;
        settled = ap is_some e.pending ∙ pending ∙ sym stopped;
      }

  feed_value-Notes :
      (parsed : Value) (d : Decoder)
      → IsSettled d
      → Notes
          (is_chunk (some parsed))
          (is_error (some parsed))
          (is_finish (some parsed))
          d
          (feed_value to_string parsed d).1
  unfolding feed_value
  feed_value-Notes parsed d settled = elim (Option-cases (get (text "error") parsed)) [
    | inr (error, bad) ↦
        rw (bad, feed_value)
          (record {
            started = sym (or_false d.started);
            failed = ground arith;
            stop_emitted = sym (or_false d.stop_emitted);
            settled = settled;
          })
    | inl fine ↦
        rw (fine, feed_value)
          (chunk-Notes (first_candidate parsed) (get (text "usageMetadata") parsed) d settled)
  ]

  module _ (from_str : Text → Option Value) where
    feed-Notes :
        (d : Decoder) (payload : Text)
        → IsSettled d
        → Notes
            (is_chunk (from_str payload))
            (is_error (from_str payload))
            (is_finish (from_str payload))
            d
            (feed to_string from_str d payload).1
    unfolding feed
    feed-Notes d payload settled = elim (Option-cases (from_str payload)) [
      | inl broken ↦ rw (broken, feed) (Notes-none d settled)
      | inr (parsed, good) ↦ rw (good, feed) (feed_value-Notes parsed d settled)
    ]

    -- Whether one of the payloads is a chunk whose first candidate says why it has finished.
    abbrev pub sends_finish : List Text → Bool
    sends_finish payloads = any (λ p. is_finish (from_str p)) payloads

    feed_all-Notes :
        (d : Decoder) (payloads : List Text)
        → IsSettled d
        → Notes
            (sends_chunk from_str payloads)
            (sends_error from_str payloads)
            (sends_finish payloads)
            d
            (feed_all to_string from_str d payloads).1
    feed_all-Notes d [] settled = Notes-none d settled
    feed_all-Notes d (payload ∷ payloads) settled =
        let here = feed-Notes d payload settled in
        let later = feed_all-Notes (feed to_string from_str d payload).1 payloads here.settled in
        record {
          started =
              later.started
              ∙ ap (λ b. b || sends_chunk from_str payloads) here.started
              ∙ or_assoc d.started (is_chunk (from_str payload)) (sends_chunk from_str payloads);
          failed =
              later.failed
              ∙ ap (λ b. b || sends_error from_str payloads) here.failed
              ∙ or_assoc d.failed (is_error (from_str payload)) (sends_error from_str payloads);
          stop_emitted =
              later.stop_emitted
              ∙ ap (λ b. b || sends_finish payloads) here.stop_emitted
              ∙ or_assoc d.stop_emitted (is_finish (from_str payload)) (sends_finish payloads);
          settled = later.settled;
        }

    -- Whatever payloads a Gemini upstream sends: the decoded events hold one start if one of the
    -- payloads is JSON without an `error` in it, and none otherwise; and one stop, never more, if one
    -- of those chunks has a first candidate with a finish reason, be there errors or not, or else if
    -- there was a chunk and no payload was JSON with an `error` in it; and no stop otherwise.
    pub stops-decode-sends_finish :
        (payloads : List Text)
        → (starts (decode to_string from_str payloads) ≡ one_if (sends_chunk from_str payloads))
          × (stops (decode to_string from_str payloads)
              ≡ one_if (
                  sends_finish payloads
                  || (sends_chunk from_str payloads && not (sends_error from_str payloads))))
    stops-decode-sends_finish payloads =
        let (begins, ends) = finish-decode to_string from_str payloads in
        let noted = feed_all-Notes new_decoder payloads refl in
        (
          begins ∙ ap one_if noted.started,
          rw (noted.stop_emitted, noted.started, noted.failed) at ends,
        )
