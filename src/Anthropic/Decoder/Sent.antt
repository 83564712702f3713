-- ===== src/Anthropic/Decoder/Sent.antt =====
-- What a decoded stream says of its end, by what the upstream has sent.
use mathlib.Core.Path.{subst}
use llmgate.Prelude.{
  ◌≡◌, ◌∙◌, refl, sym, ap, inl, inr, true, false, not, ◌&&◌, ◌||◌, Bool, Option, none, some, List,
  [], ◌∷◌, Text, text, text_eq, text_eq_iff, arith, Bool-cases, Option-cases,
}
use llmgate.Neutral.{Value}
use llmgate.Events.{stops, one_if}
use llmgate.Json.{get, str_at, and_then}
use llmgate.Upstream.{is_event, sends_event, or_assoc, or_false}
use llmgate.Anthropic.Decoder.{
  Decoder, new_decoder, note_message, note_finish, note_usage, on_message_start, on_message_delta,
  emit_stop, on_error, dispatch, feed,
}
use llmgate.Anthropic.Decoder.Stops.{feed_all, decode, stops-decode}

-- A step has noted that a start came, that an error came, and that a stop came.
record Notes (begins bad ends : Bool) (d d' : Decoder) : Type 0 where
  started : d'.started ≡ d.started || begins
  failed : d'.failed ≡ d.failed || bad
  stop_emitted : d'.stop_emitted ≡ d.stop_emitted || ends

Notes-same :
    (d d' : Decoder)
    → d'.started ≡ d.started
    → d'.failed ≡ d.failed
    → d'.stop_emitted ≡ d.stop_emitted
    → Notes false false false d d'
Notes-same d d' started failed stop_emitted = record {
  started = started ∙ sym (or_false d.started);
  failed = failed ∙ sym (or_false d.failed);
  stop_emitted = stop_emitted ∙ sym (or_false d.stop_emitted);
}

Notes-none : (d : Decoder) → Notes false false false d d
Notes-none d = Notes-same d d refl refl refl

true_or : (b : Bool) → true ≡ b || true
true_or true = refl
true_or false = refl

note_message-Notes :
    (o : Option Value) (d : Decoder)
    → Notes true false false d (note_message o (record d { started = true }))
unfolding note_message
note_message-Notes none d = record {
  started = true_or d.started;
  failed = sym (or_false d.failed);
  stop_emitted = sym (or_false d.stop_emitted);
}
note_message-Notes (some message) d = record {
  started = true_or d.started;
  failed = sym (or_false d.failed);
  stop_emitted = sym (or_false d.stop_emitted);
}

on_message_start-Notes :
    (parsed : Value) (d : Decoder) → Notes true false false d (on_message_start parsed d).1
unfolding on_message_start
on_message_start-Notes parsed d = note_message-Notes (get (text "message") parsed) d

note_usage-Notes :
    (reason : Option Text) (usage : Option Value) (d : Decoder)
    → Notes false false false d (note_usage usage (note_finish reason d))
unfolding note_finish note_usage
note_usage-Notes none none d = Notes-none d
note_usage-Notes none (some u) d = Notes-same d _ refl refl refl
note_usage-Notes (some r) none d = Notes-same d _ refl refl refl
note_usage-Notes (some r) (some u) d = Notes-same d _ refl refl refl

on_message_delta-Notes :
    (parsed : Value) (d : Decoder) → Notes false false false d (on_message_delta parsed d).1
unfolding on_message_delta
on_message_delta-Notes parsed d =
    note_usage-Notes (and_then (get (text "delta") parsed) (str_at (text "stop_reason")))
      (get (text "usage") parsed) d

on_error-Notes : (parsed : Value) (d : Decoder) → Notes false true false d (on_error parsed d).1
unfolding on_error
on_error-Notes parsed d = record {
  started = sym (or_false d.started);
  failed = true_or d.failed;
  stop_emitted = sym (or_false d.stop_emitted);
}

emit_stop-Notes : (d : Decoder) → Notes false false true d (emit_stop d).1
unfolding emit_stop
emit_stop-Notes d = record {
  started = ground arith;
  failed = ground arith;
  stop_emitted = ground arith;
}

-- An event of another type leaves the flags alone.
other-Notes :
    (etype : Text) (parsed : Value) (d : Decoder)
    → text_eq etype (text "message_start") ≡ false
    → text_eq etype (text "error") ≡ false
    → text_eq etype (text "message_stop") ≡ false
    → Notes
        (text_eq etype (text "message_start"))
        (text_eq etype (text "error"))
        (text_eq etype (text "message_stop"))
        d
        (dispatch etype parsed d).1
unfolding dispatch
other-Notes etype parsed d no_start no_error no_stop =
    let delta = on_message_delta-Notes parsed d in
    record {
      started = ground (arith, delta.started);
      failed = ground (arith, delta.failed);
      stop_emitted = ground (arith, delta.stop_emitted);
    }

dispatch-Notes :
    (etype : Text) (parsed : Value) (d : Decoder)
    → Notes
        (text_eq etype (text "message_start"))
        (text_eq etype (text "error"))
        (text_eq etype (text "message_stop"))
        d
        (dispatch etype parsed d).1
unfolding dispatch text_eq
dispatch-Notes etype parsed d =
    let Goal : Text → Type 0 = λ t.
      Notes (text_eq t (text "message_start")) (text_eq t (text "error"))
        (text_eq t (text "message_stop")) d (dispatch t parsed d).1 in
    elim (Bool-cases (text_eq etype (text "message_start"))) [
      | inl same ↦
          subst Goal (sym ((text_eq_iff etype (text "message_start")).0 same))
            (on_message_start-Notes parsed d)
      | inr no_start ↦ elim (Bool-cases (text_eq etype (text "error"))) [
        | inl same ↦
            subst Goal (sym ((text_eq_iff etype (text "error")).0 same)) (on_error-Notes parsed d)
        | inr no_error ↦ elim (Bool-cases (text_eq etype (text "message_stop"))) [
          | inl same ↦
              subst Goal (sym ((text_eq_iff etype (text "message_stop")).0 same))
                (emit_stop-Notes d)
          | inr no_stop ↦ other-Notes etype parsed d no_start no_error no_stop
        ]
      ]
    ]

module _ (from_str : Text → Option Value) where
  feed-Notes :
      (d : Decoder) (payload : Text)
      → Notes
          (is_event (text "message_start") (from_str payload))
          (is_event (text "error") (from_str payload))
          (is_event (text "message_stop") (from_str payload))
          d
          (feed from_str d payload).1
  unfolding feed
  feed-Notes d payload = elim (Option-cases (from_str payload)) [
    | inl broken ↦ rw (broken, feed) (Notes-none d)
    | inr (parsed, good) ↦ elim (Option-cases (str_at (text "type") parsed)) [
      | inl untyped ↦ rw (good, untyped, feed) (Notes-none d)
      | inr (etype, typed) ↦ rw (good, typed, feed) (dispatch-Notes etype parsed d)
    ]
  ]

  feed_all-Notes :
      (d : Decoder) (payloads : List Text)
      → Notes
          (sends_event from_str (text "message_start") payloads)
          (sends_event from_str (text "error") payloads)
          (sends_event from_str (text "message_stop") payloads)
          d
          (feed_all from_str d payloads).1
  feed_all-Notes d [] = Notes-none d
  feed_all-Notes d (payload ∷ payloads) =
      let here = feed-Notes d payload in
      let later = feed_all-Notes (feed from_str d payload).1 payloads in
      record {
        started =
            later.started
            ∙ ap (λ b. b || sends_event from_str (text "message_start") payloads) here.started
            ∙ or_assoc d.started _ _;
        failed =
            later.failed
            ∙ ap (λ b. b || sends_event from_str (text "error") payloads) here.failed
            ∙ or_assoc d.failed _ _;
        stop_emitted =
            later.stop_emitted
            ∙ ap (λ b. b || sends_event from_str (text "message_stop") payloads) here.stop_emitted
            ∙ or_assoc d.stop_emitted _ _;
      }

  -- Whatever payloads the upstream sends: the decoded events hold one stop, never more, if one of the
  -- payloads is JSON with the type `message_stop`, or else if one has the type `message_start` and
  -- none the type `error`; and no stop otherwise, so that a stream with an error in it and no stop of
  -- its own never ends as a success.
  pub stops-decode-sends_event :
      (payloads : List Text)
      → stops (decode from_str payloads)
        ≡ one_if (
            sends_event from_str (text "message_stop") payloads
            || (sends_event from_str (text "message_start") payloads
                && not (sends_event from_str (text "error") payloads)))
  stops-decode-sends_event payloads =
      let noted = feed_all-Notes new_decoder payloads in
      let ends = stops-decode from_str payloads in
      rw (noted.stop_emitted, noted.started, noted.failed) at ends
