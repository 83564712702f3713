-- ===== src/Openai/Decoder/Stops.antt =====
-- The starts and the stops of a decoded stream, by the flags of the decoder.
use llmgate.Prelude.{
  ℕ, ◌+◌, ◌≡◌, ◌∙◌, refl, ap, inl, inr, true, false, not, ◌&&◌, Option, none, some, List, [], ◌∷◌,
  ◌++◌, Text, text, is_empty, arith, Bool-cases, Option-cases,
}
use llmgate.Neutral.{Value, NeutralStreamEvent}
use llmgate.Events.{stops, stops-append, starts, starts-append, one_if}
use llmgate.Json.{get, as_array, str_at, and_then, first}
use llmgate.Openai.Decoder.{
  Decoder, Step, new_decoder, parse_tool_call, parse_tool_calls, nonempty, on_delta, note_finish,
  note_usage, on_choice, opening, feed_value, feed, finish,
}

-- Neither a start nor a stop.
record IsQuiet (es : List NeutralStreamEvent) : Type 0 where
  starts : starts es ≡ 0
  stops : stops es ≡ 0

IsQuiet-append : (es es' : List NeutralStreamEvent) → IsQuiet es → IsQuiet es' → IsQuiet (es ++ es')
IsQuiet-append es es' h k = record {
  starts = omega (arith, starts-append es es', h.starts, k.starts);
  stops = omega (arith, stops-append es es', h.stops, k.stops);
}

IsQuiet-nonempty :
    (event : Text → NeutralStreamEvent) (o : Option Text)
    → ((t : Text) → IsQuiet (event t ∷ []))
    → IsQuiet (nonempty event o)
IsQuiet-nonempty event none h = record { starts = refl; stops = refl }
IsQuiet-nonempty event (some t) h = elim (Bool-cases (is_empty t)) [
  | inl empty ↦ rw empty (record { starts = refl; stops = refl })
  | inr more ↦ rw more (h t)
]

IsQuiet-parse_tool_calls :
    (calls : List Value) (seen : List ℕ) → IsQuiet (parse_tool_calls calls seen).0
unfolding parse_tool_calls
IsQuiet-parse_tool_calls [] seen = record { starts = refl; stops = refl }
IsQuiet-parse_tool_calls (call ∷ calls) seen =
    let later = IsQuiet-parse_tool_calls calls (parse_tool_call call seen).1 in
    record { starts = ground (arith, later.starts); stops = ground (arith, later.stops) }

IsQuiet-on_delta : (delta : Option Value) (seen : List ℕ) → IsQuiet (on_delta delta seen).0
unfolding on_delta
IsQuiet-on_delta none seen = record { starts = refl; stops = refl }
IsQuiet-on_delta (some delta) seen =
    let still : (t : Text) → IsQuiet (NeutralStreamEvent.text_delta t ∷ []) =
      λ t. record { starts = refl; stops = refl } in
    let thinking : (t : Text) → IsQuiet (NeutralStreamEvent.reasoning_delta t ∷ []) =
      λ t. record { starts = refl; stops = refl } in
    IsQuiet-append _ _ (IsQuiet-nonempty NeutralStreamEvent.text_delta _ still) (
      IsQuiet-append _ _ (IsQuiet-nonempty NeutralStreamEvent.reasoning_delta _ thinking)
        (IsQuiet-parse_tool_calls _ seen))

-- The flags of a state, which a chunk leaves alone but for the start.
pub record KeepsFlags (d d' : Decoder) : Type 0 where
  pub started : d'.started ≡ d.started
  pub failed : d'.failed ≡ d.failed
  stop_emitted : d'.stop_emitted ≡ d.stop_emitted

note_usage-KeepsFlags : (o : Option Value) (d : Decoder) → KeepsFlags d (note_usage o d)
unfolding note_usage
note_usage-KeepsFlags none d = record { started = refl; failed = refl; stop_emitted = refl }
note_usage-KeepsFlags (some u) d = record { started = refl; failed = refl; stop_emitted = refl }

note_finish-KeepsFlags : (o : Option Text) (d : Decoder) → KeepsFlags d (note_finish o d)
unfolding note_finish
note_finish-KeepsFlags none d = record { started = refl; failed = refl; stop_emitted = refl }
note_finish-KeepsFlags (some r) d = record { started = refl; failed = refl; stop_emitted = refl }

KeepsFlags-trans : (d e f : Decoder) → KeepsFlags d e → KeepsFlags e f → KeepsFlags d f
KeepsFlags-trans d e f h k = record {
  started = k.started ∙ h.started;
  failed = k.failed ∙ h.failed;
  stop_emitted = k.stop_emitted ∙ h.stop_emitted;
}

-- A chunk's choice gives no start and no stop.
pub record IsChoice (d : Decoder) (r : Step) : Type 0 where
  quiet : IsQuiet r.0
  pub flags : KeepsFlags d r.1

pub on_choice-IsChoice :
    (parsed : Value) (choice : Option Value) (d : Decoder) → IsChoice d (on_choice parsed choice d)
unfolding on_choice
on_choice-IsChoice parsed none d = record {
  quiet = record { starts = refl; stops = refl };
  flags = note_usage-KeepsFlags (get (text "usage") parsed) d;
}
on_choice-IsChoice parsed (some choice) d =
    let seen = (on_delta (get (text "delta") choice) d.seen_tool_indices).1 in
    let reason = str_at (text "finish_reason") choice in
    let d' : Decoder = record d { seen_tool_indices = seen } in
    let same : KeepsFlags d d' = record { started = refl; failed = refl; stop_emitted = refl } in
    record {
      quiet = IsQuiet-on_delta (get (text "delta") choice) d.seen_tool_indices;
      flags =
          KeepsFlags-trans d (note_finish reason d') _
            (KeepsFlags-trans d d' _ same (note_finish-KeepsFlags reason d'))
            (note_usage-KeepsFlags (get (text "usage") parsed) (note_finish reason d'));
    }

-- What the flags have counted, and no stop is emitted before the end.
record IsHonest (d : Decoder) (r : Step) : Type 0 where
  started : starts r.0 + one_if d.started ≡ one_if r.1.started
  stopped : stops r.0 ≡ 0
  stop_emitted : r.1.stop_emitted ≡ d.stop_emitted

feed_value-IsHonest : (parsed : Value) (d : Decoder) → IsHonest d (feed_value parsed d)
unfolding feed_value opening
feed_value-IsHonest parsed d = elim (Option-cases (get (text "error") parsed)) [
  | inr (error, failed) ↦
      rw (failed, feed_value)
        (record { started = omega arith; stopped = refl; stop_emitted = refl })
  | inl fine ↦
      let choice = and_then (and_then (get (text "choices") parsed) as_array) first in
      let begun : Decoder = record d { started = true } in
      let c = on_choice-IsChoice parsed choice begun in
      let es = (on_choice parsed choice begun).0 in
      rw (fine, feed_value)
        (record {
          started = ground (
            arith,
            c.quiet.starts,
            ap one_if c.flags.started,
            starts-append (opening parsed d) es,
          );
          stopped = ground (arith, c.quiet.stops, stops-append (opening parsed d) es);
          stop_emitted = c.flags.stop_emitted;
        })
]

module _ (from_str : Text → Option Value) where
  feed-IsHonest : (d : Decoder) (payload : Text) → IsHonest d (feed from_str d payload)
  unfolding feed
  feed-IsHonest d payload = elim (Option-cases (from_str payload)) [
    | inl bad ↦
        rw (bad, feed) (record { started = omega arith; stopped = refl; stop_emitted = refl })
    | inr (parsed, good) ↦ rw (good, feed) (feed_value-IsHonest parsed d)
  ]

  -- The payloads of a stream, one after the other.
  abbrev pub feed_all : Decoder → List Text → Step
  feed_all d [] = ([], d)
  feed_all d (payload ∷ payloads) =
      let (es, d') = feed from_str d payload in
      let (more, d'') = feed_all d' payloads in (es ++ more, d'')

  feed_all-IsHonest : (d : Decoder) (payloads : List Text) → IsHonest d (feed_all d payloads)
  feed_all-IsHonest d [] = record { started = omega arith; stopped = refl; stop_emitted = refl }
  feed_all-IsHonest d (payload ∷ payloads) =
      let one = feed from_str d payload in
      let rest = feed_all one.1 payloads in
      let here = feed-IsHonest d payload in
      let later = feed_all-IsHonest one.1 payloads in
      record {
        started = omega (arith, here.started, later.started, starts-append one.0 rest.0);
        stopped = omega (arith, here.stopped, later.stopped, stops-append one.0 rest.0);
        stop_emitted = later.stop_emitted ∙ here.stop_emitted;
      }

  -- The events of a whole stream.
  abbrev pub decode : List Text → List NeutralStreamEvent
  decode payloads = let (es, d) = feed_all new_decoder payloads in es ++ (finish d).0

  finish_counts :
      (d : Decoder)
      → d.stop_emitted ≡ false
      → (starts (finish d).0 ≡ 0) × (stops (finish d).0 ≡ one_if (d.started && not d.failed))
  unfolding finish
  finish_counts d h = (ground arith, ground arith)

  -- The starts and the stops, by the flags of the state that the payloads leave.
  pub starts-decode :
      (payloads : List Text)
      → (starts (decode payloads) ≡ one_if (feed_all new_decoder payloads).1.started)
        × (stops (feed_all new_decoder payloads).0 ≡ 0)
        × (stops (decode payloads)
            ≡ one_if (
                (feed_all new_decoder payloads).1.started
                && not (feed_all new_decoder payloads).1.failed))
  starts-decode payloads =
      let r = feed_all new_decoder payloads in
      let fed = feed_all-IsHonest new_decoder payloads in
      let ends = finish_counts r.1 fed.stop_emitted in
      (
        omega (arith, fed.started, ends.0, starts-append r.0 (finish r.1).0),
        fed.stopped,
        omega (arith, fed.stopped, ends.1, stops-append r.0 (finish r.1).0),
      )
