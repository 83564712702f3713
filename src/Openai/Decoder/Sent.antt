-- ===== src/Openai/Decoder/Sent.antt =====
-- What a decoded stream says of its start and its end, by what the upstream has sent.
use llmgate.Prelude.{
  ◌≡◌, ◌∙◌, sym, ap, inl, inr, true, false, not, ◌&&◌, ◌||◌, Bool, Option, some, List, [], ◌∷◌,
  Text, text, arith, Option-cases,
}
use llmgate.Neutral.{Value}
use llmgate.Events.{stops, starts, one_if}
use llmgate.Json.{get, as_array, and_then, first}
use llmgate.Upstream.{is_error, is_chunk, sends_chunk, sends_error, or_assoc, or_false}
use llmgate.Openai.Decoder.{Decoder, new_decoder, feed_value, feed}
use llmgate.Openai.Decoder.Stops.{on_choice-IsChoice, feed_all, decode, starts-decode}

-- A step has noted that a chunk came, and that an error came.
record Notes (chunk bad : Bool) (d d' : Decoder) : Type 0 where
  started : d'.started ≡ d.started || chunk
  failed : d'.failed ≡ d.failed || bad

Notes-none : (d : Decoder) → Notes false false d d
Notes-none d = record { started = sym (or_false d.started); failed = sym (or_false d.failed) }

feed_value-Notes :
    (parsed : Value) (d : Decoder)
    → Notes (is_chunk (some parsed)) (is_error (some parsed)) d (feed_value parsed d).1
unfolding feed_value
feed_value-Notes parsed d = elim (Option-cases (get (text "error") parsed)) [
  | inr (error, bad) ↦
      rw (bad, feed_value) (record { started = ground arith; failed = ground arith })
  | inl fine ↦
      let choice = and_then (and_then (get (text "choices") parsed) as_array) first in
      let begun : Decoder = record d { started = true } in
      let flags = (on_choice-IsChoice parsed choice begun).flags in
      rw (fine, feed_value)
        (record {
          started = ground (arith, flags.started);
          failed = flags.failed ∙ sym (or_false d.failed);
        })
]

module _ (from_str : Text → Option Value) where
  feed-Notes :
      (d : Decoder) (payload : Text)
      → Notes
          (is_chunk (from_str payload))
          (is_error (from_str payload))
          d
          (feed from_str d payload).1
  unfolding feed
  feed-Notes d payload = elim (Option-cases (from_str payload)) [
    | inl broken ↦ rw (broken, feed) (Notes-none d)
    | inr (parsed, good) ↦ rw (good, feed) (feed_value-Notes parsed d)
  ]

  feed_all-Notes :
      (d : Decoder) (payloads : List Text)
      → Notes
          (sends_chunk from_str payloads)
          (sends_error from_str payloads)
          d
          (feed_all from_str d payloads).1
  feed_all-Notes d [] = Notes-none d
  feed_all-Notes d (payload ∷ payloads) =
      let here = feed-Notes d payload in
      let later = feed_all-Notes (feed from_str d payload).1 payloads in
      record {
        started =
            later.started
            ∙ ap (λ b. b || sends_chunk from_str payloads) here.started
            ∙ or_assoc d.started (is_chunk (from_str payload)) (sends_chunk from_str payloads);
        failed =
            later.failed
            ∙ ap (λ b. b || sends_error from_str payloads) here.failed
            ∙ or_assoc d.failed (is_error (from_str payload)) (sends_error from_str payloads);
      }

  -- Whatever payloads the upstream sends: the decoded events hold one start if one of the payloads is
  -- JSON without an `error` in it, and none otherwise; nothing that is decoded before the end of the
  -- stream is a stop; and there is one stop in all if a payload was JSON without an `error` and none
  -- was JSON with one, and none otherwise, so that a stream with an error in it never ends as a
  -- success.
  pub starts-decode-sends_chunk :
      (payloads : List Text)
      → (starts (decode from_str payloads) ≡ one_if (sends_chunk from_str payloads))
        × (stops (feed_all from_str new_decoder payloads).0 ≡ 0)
        × (stops (decode from_str payloads)
            ≡ one_if (sends_chunk from_str payloads && not (sends_error from_str payloads)))
  starts-decode-sends_chunk payloads =
      let (begins, before, ends) = starts-decode from_str payloads in
      let noted = feed_all-Notes new_decoder payloads in
      (begins ∙ ap one_if noted.started, before, rw (noted.started, noted.failed) at ends)
