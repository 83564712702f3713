-- ===== src/Gemini/Decoder/Stops.antt =====
-- The starts and the stops of a decoded stream, by the flags of the decoder.
use llmgate.Prelude.{
  ℕ, ◌+◌, ◌≡◌, ◌∙◌, refl, ap, inl, inr, Bool, true, false, not, ◌&&◌, ◌||◌, Option, none, some,
  List, [], ◌∷◌, ◌++◌, Text, text, arith, Bool-cases, Option-cases,
}
use llmgate.Neutral.{Value, NeutralStreamEvent}
use llmgate.Events.{stops, stops-append, starts, starts-append, one_if}
use llmgate.Json.{get, as_array, str_at, and_then, first}
use llmgate.Gemini.Decoder.{
  Decoder, Step, new_decoder, text_events, call_events, on_parts, parts_of, note_finish, note_usage,
  on_candidate, emit_stop, opening, is_some, feed_value, feed, finish,
}

-- Neither a start nor a stop.
record IsQuiet (es : List NeutralStreamEvent) : Type 0 where
  starts : starts es ≡ 0
  stops : stops es ≡ 0

IsQuiet-append : (es es' : List NeutralStreamEvent) → IsQuiet es → IsQuiet es' → IsQuiet (es ++ es')
IsQuiet-append es es' h k = record {
  starts = omega (arith, starts-append es es', h.starts, k.starts);
  stops = omega (arith, stops-append es es', h.stops, k.stops);
}

IsQuiet-text_events : (thought : Bool) (o : Option Text) → IsQuiet (text_events thought o)
IsQuiet-text_events thought none = record { starts = refl; stops = refl }
IsQuiet-text_events true (some t) = record { starts = refl; stops = refl }
IsQuiet-text_events false (some []) = record { starts = refl; stops = refl }
IsQuiet-text_events false (some (b ∷ t)) = record { starts = refl; stops = refl }

-- What a step keeps of the flags.
pub record KeepsFlags (d d' : Decoder) : Type 0 where
  pub started : d'.started ≡ d.started
  pub failed : d'.failed ≡ d.failed
  pub stop_emitted : d'.stop_emitted ≡ d.stop_emitted

note_finish-KeepsFlags : (o : Option Text) (d : Decoder) → KeepsFlags d (note_finish o d)
unfolding note_finish
note_finish-KeepsFlags none d = record { started = refl; failed = refl; stop_emitted = refl }
note_finish-KeepsFlags (some r) d = record { started = refl; failed = refl; stop_emitted = refl }

pub note_usage-KeepsFlags : (o : Option Value) (d : Decoder) → KeepsFlags d (note_usage o d)
unfolding note_usage
note_usage-KeepsFlags none d = record { started = refl; failed = refl; stop_emitted = refl }
note_usage-KeepsFlags (some u) d = record { started = refl; failed = refl; stop_emitted = refl }

KeepsFlags-trans : (d e f : Decoder) → KeepsFlags d e → KeepsFlags e f → KeepsFlags d f
KeepsFlags-trans d e f h k = record {
  started = k.started ∙ h.started;
  failed = k.failed ∙ h.failed;
  stop_emitted = k.stop_emitted ∙ h.stop_emitted;
}

-- What the flags have counted.
record IsHonest (d : Decoder) (r : Step) : Type 0 where
  started : starts r.0 + one_if d.started ≡ one_if r.1.started
  stopped : stops r.0 + one_if d.stop_emitted ≡ one_if r.1.stop_emitted

emit_stop-IsHonest :
    (d : Decoder)
    → (starts (emit_stop d).0 ≡ 0)
      × ((emit_stop d).1.started ≡ d.started)
      × (stops (emit_stop d).0 + one_if d.stop_emitted ≡ one_if (emit_stop d).1.stop_emitted)
unfolding emit_stop
emit_stop-IsHonest d = elim (Bool-cases (is_some d.pending_finish)) [
  | inr none_yet ↦ (rw none_yet refl, rw none_yet refl, rw none_yet (omega arith))
  | inl there ↦ elim (Bool-cases d.stop_emitted) [
    | inl done ↦ (rw (there, done) refl, rw (there, done) refl, rw (there, done) refl)
    | inr not_done ↦
        (rw (there, not_done) refl, rw (there, not_done) refl, rw (there, not_done) refl)
  ]
]

module _ (to_string : Value → Text) where
  IsQuiet-call_events : (o : Option Value) (index : ℕ) → IsQuiet (call_events to_string o index).0
  unfolding call_events
  IsQuiet-call_events none index = record { starts = refl; stops = refl }
  IsQuiet-call_events (some call) index = record { starts = refl; stops = refl }

  IsQuiet-on_parts : (parts : List Value) (index : ℕ) → IsQuiet (on_parts to_string parts index).0
  unfolding on_parts
  IsQuiet-on_parts [] index = record { starts = refl; stops = refl }
  IsQuiet-on_parts (part ∷ parts) index =
      let called = call_events to_string (get (text "functionCall") part) index in
      IsQuiet-append _ _ (IsQuiet-text_events _ (str_at (text "text") part)) (
        IsQuiet-append _ _ (IsQuiet-call_events (get (text "functionCall") part) index)
          (IsQuiet-on_parts parts called.1))

  -- A chunk's candidate gives no start and no stop.
  pub record IsCandidate (d : Decoder) (r : Step) : Type 0 where
    quiet : IsQuiet r.0
    pub flags : KeepsFlags d r.1

  pub on_candidate-IsCandidate :
      (o : Option Value) (d : Decoder) → IsCandidate d (on_candidate to_string o d)
  unfolding on_candidate
  on_candidate-IsCandidate none d = record {
    quiet = record { starts = refl; stops = refl };
    flags = record { started = refl; failed = refl; stop_emitted = refl };
  }
  on_candidate-IsCandidate (some candidate) d =
      let index = (on_parts to_string (parts_of candidate) d.tool_index).1 in
      let d' : Decoder = record d { tool_index = index } in
      let same : KeepsFlags d d' = record { started = refl; failed = refl; stop_emitted = refl } in
      record {
        quiet = IsQuiet-on_parts (parts_of candidate) d.tool_index;
        flags =
            KeepsFlags-trans d d' _ same
              (note_finish-KeepsFlags (str_at (text "finishReason") candidate) d');
      }

  feed_value-IsHonest : (parsed : Value) (d : Decoder) → IsHonest d (feed_value to_string parsed d)
  unfolding feed_value opening
  feed_value-IsHonest parsed d = elim (Option-cases (get (text "error") parsed)) [
    | inr (error, failed) ↦
        rw (failed, feed_value) (record { started = omega arith; stopped = omega arith })
    | inl fine ↦
        let candidate = and_then (and_then (get (text "candidates") parsed) as_array) first in
        let begun : Decoder = record d { started = true } in
        let c = on_candidate-IsCandidate candidate begun in
        let r = on_candidate to_string candidate begun in
        let noted = note_usage (get (text "usageMetadata") parsed) r.1 in
        let flags =
          KeepsFlags-trans begun r.1 noted c.flags
            (note_usage-KeepsFlags (get (text "usageMetadata") parsed) r.1) in
        let ending = emit_stop-IsHonest noted in
        let stop = (emit_stop noted).0 in
        rw (fine, feed_value)
          (record {
            started = ground (
              arith,
              c.quiet.starts,
              ending.0,
              ap one_if (ending.1 ∙ flags.started),
              starts-append (opening parsed d) (r.0 ++ stop),
              starts-append r.0 stop,
            );
            stopped = ground (
              arith,
              c.quiet.stops,
              ending.2,
              ap one_if flags.stop_emitted,
              stops-append (opening parsed d) (r.0 ++ stop),
              stops-append r.0 stop,
            );
          })
  ]

  module _ (from_str : Text → Option Value) where
    feed-IsHonest : (d : Decoder) (payload : Text) → IsHonest d (feed to_string from_str d payload)
    unfolding feed
    feed-IsHonest d payload = elim (Option-cases (from_str payload)) [
      | inl bad ↦ rw (bad, feed) (record { started = omega arith; stopped = omega arith })
      | inr (parsed, good) ↦ rw (good, feed) (feed_value-IsHonest parsed d)
    ]

    -- The payloads of a stream, one after the other.
    abbrev pub feed_all : Decoder → List Text → Step
    feed_all d [] = ([], d)
    feed_all d (payload ∷ payloads) =
        let (es, d') = feed to_string from_str d payload in
        let (more, d'') = feed_all d' payloads in (es ++ more, d'')

    feed_all-IsHonest : (d : Decoder) (payloads : List Text) → IsHonest d (feed_all d payloads)
    feed_all-IsHonest d [] = record { started = omega arith; stopped = omega arith }
    feed_all-IsHonest d (payload ∷ payloads) =
        let one = feed to_string from_str d payload in
        let rest = feed_all one.1 payloads in
        let here = feed-IsHonest d payload in
        let later = feed_all-IsHonest one.1 payloads in
        record {
          started = omega (arith, here.started, later.started, starts-append one.0 rest.0);
          stopped = omega (arith, here.stopped, later.stopped, stops-append one.0 rest.0);
        }

    -- The events of a whole stream.
    abbrev pub decode : List Text → List NeutralStreamEvent
    decode payloads = let (es, d) = feed_all new_decoder payloads in es ++ (finish d).0

    finish_counts :
        (d : Decoder)
        → (starts (finish d).0 ≡ 0)
          × (stops (finish d).0 + one_if d.stop_emitted
              ≡ one_if (d.stop_emitted || (d.started && not d.failed)))
    unfolding finish
    finish_counts d = (ground arith, ground arith)

    -- The starts and the stops, by the flags of the state that the payloads leave.
    pub finish-decode :
        (payloads : List Text)
        → (starts (decode payloads) ≡ one_if (feed_all new_decoder payloads).1.started)
          × (stops (decode payloads)
              ≡ one_if (
                  (feed_all new_decoder payloads).1.stop_emitted
                  || ((feed_all new_decoder payloads).1.started
                      && not (feed_all new_decoder payloads).1.failed)))
    finish-decode payloads =
        let r = feed_all new_decoder payloads in
        let fed = feed_all-IsHonest new_decoder payloads in
        let ends = finish_counts r.1 in
        (
          omega (arith, fed.started, ends.0, starts-append r.0 (finish r.1).0),
          omega (arith, fed.stopped, ends.1, stops-append r.0 (finish r.1).0),
        )
