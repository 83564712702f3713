-- ===== src/Gemini/Decoder/Calls.antt =====
-- The tool calls of a decoded stream are numbered from 0, and each has an id.
use mathlib.Core.Path.{subst}
use llmgate.Prelude.{
  ℕ, ◌+◌, ◌%◌, ◌^◌, ◌<◌, ◌≡◌, ◌∙◌, refl, sym, ap, inl, inr, Bool, true, false, not, ◌&&◌, Option,
  none, some, List, [], ◌∷◌, ◌++◌, length, length-append, Text, text, is_empty, arith, Bool-cases,
  Option-cases, if◌then◌else◌,
}
use llmgate.Neutral.{Value, NeutralStreamEvent}
use llmgate.Events.{call_indices, call_indices-append, Counts, Counts-append}
use llmgate.Json.{get, as_bool, as_array, str_at, and_then, unwrap_or, first}
use llmgate.Gemini.Decoder.{
  Decoder, Step, new_decoder, text_events, call_id, call_events, on_parts, parts_of, note_finish,
  note_usage, on_candidate, emit_stop, stop_of, opening, is_some, feed_value, feed,
}
use llmgate.Gemini.Decoder.Stops.{feed_all}

-- How many calls have no id.
abbrev pub unnamed : List NeutralStreamEvent → ℕ
unnamed [] = 0
unnamed (NeutralStreamEvent.tool_call_delta index id name arguments ∷ es) =
    (if is_empty id then 1 else 0) + unnamed es
unnamed (_ ∷ es) = unnamed es

-- The calls among events, the first of them with the index `at`, and none after `end`.
record AreCalls (at end : ℕ) (es : List NeutralStreamEvent) : Type 0 where
  counts : Counts at end (call_indices es)
  rising : at + length (call_indices es) ≡ end
  named : unnamed es ≡ 0

unnamed-append : (es es' : List NeutralStreamEvent) → unnamed (es ++ es') ≡ unnamed es + unnamed es'
unnamed-append [] es' = omega arith
unnamed-append (NeutralStreamEvent.tool_call_delta index id name arguments ∷ es) es' =
    omega (arith, unnamed-append es es')
unnamed-append (NeutralStreamEvent.message_start id model usage ∷ es) es' = unnamed-append es es'
unnamed-append (NeutralStreamEvent.text_delta t ∷ es) es' = unnamed-append es es'
unnamed-append (NeutralStreamEvent.reasoning_delta t ∷ es) es' = unnamed-append es es'
unnamed-append (NeutralStreamEvent.reasoning_signature t ∷ es) es' = unnamed-append es es'
unnamed-append (NeutralStreamEvent.message_stop reason usage ∷ es) es' = unnamed-append es es'
unnamed-append (NeutralStreamEvent.error err ∷ es) es' = unnamed-append es es'

AreCalls-append :
    {at mid end : ℕ} (es es' : List NeutralStreamEvent)
    → AreCalls at mid es
    → AreCalls mid end es'
    → AreCalls at end (es ++ es')
AreCalls-append {at} {mid} {end} es es' h k =
    let split = call_indices-append es es' in
    record {
      counts =
          subst (Counts at end) (sym split)
            (Counts-append at mid end (call_indices es) (call_indices es') h.counts k.counts);
      rising = omega (
        arith,
        h.rising,
        k.rising,
        ap length split,
        length-append (call_indices es) (call_indices es'),
      );
      named = omega (arith, h.named, k.named, unnamed-append es es');
    }

-- Events without calls.
AreCalls-none :
    (at : ℕ) (es : List NeutralStreamEvent)
    → call_indices es ≡ []
    → unnamed es ≡ 0
    → AreCalls at at es
AreCalls-none at es e named = record {
  counts = subst (Counts at at) (sym e) refl;
  rising = omega (arith, ap length e);
  named = named;
}

AreCalls-text_events :
    (at : ℕ) (thought : Bool) (o : Option Text) → AreCalls at at (text_events thought o)
AreCalls-text_events at thought none = AreCalls-none at [] refl refl
AreCalls-text_events at true (some t) =
    AreCalls-none at (NeutralStreamEvent.reasoning_delta t ∷ []) refl refl
AreCalls-text_events at false (some []) = AreCalls-none at [] refl refl
AreCalls-text_events at false (some (b ∷ t)) =
    AreCalls-none at (NeutralStreamEvent.text_delta (b ∷ t) ∷ []) refl refl

named_id : (index : ℕ) (o : Option Text) → is_empty (call_id index o) ≡ false
named_id index none = refl
named_id index (some []) = refl
named_id index (some (b ∷ id)) = refl

module _ (to_string : Value → Text) where
  -- The indices wrap around, so there may be fewer than 2 ^ 32 calls.
  AreCalls-call_events :
      (o : Option Value) (index : ℕ)
      → index + length (call_indices (call_events to_string o index).0) < 2 ^ 32
      → AreCalls index (call_events to_string o index).1 (call_events to_string o index).0
  unfolding call_events
  AreCalls-call_events none index few = AreCalls-none index [] refl refl
  AreCalls-call_events (some call) index few =
      let next : (index + 1) % 2 ^ 32 ≡ index + 1 = omega (arith, few) in
      record {
        counts = (refl, sym next);
        rising = omega (arith, next);
        named = rw (named_id index (str_at (text "id") call)) refl;
      }

  AreCalls-on_parts :
      (parts : List Value) (index : ℕ)
      → index + length (call_indices (on_parts to_string parts index).0) < 2 ^ 32
      → AreCalls index (on_parts to_string parts index).1 (on_parts to_string parts index).0
  unfolding on_parts
  AreCalls-on_parts [] index few = AreCalls-none index [] refl refl
  AreCalls-on_parts (part ∷ parts) index few =
      let thought = unwrap_or false (and_then (get (text "thought") part) as_bool) in
      let said = text_events thought (str_at (text "text") part) in
      let called = call_events to_string (get (text "functionCall") part) index in
      let rest = on_parts to_string parts called.1 in
      let texts = AreCalls-text_events index thought (str_at (text "text") part) in
      let whole = ap length (call_indices-append said (called.0 ++ rest.0)) in
      let tail = ap length (call_indices-append called.0 rest.0) in
      let sizes = length-append (call_indices said) (call_indices (called.0 ++ rest.0)) in
      let sizes' = length-append (call_indices called.0) (call_indices rest.0) in
      let call =
        AreCalls-call_events (get (text "functionCall") part) index
          (omega (arith, few, whole, tail, sizes, sizes')) in
      let more =
        AreCalls-on_parts parts called.1
          (omega (arith, few, whole, tail, sizes, sizes', call.rising)) in
      AreCalls-append said (called.0 ++ rest.0) texts (AreCalls-append called.0 rest.0 call more)

  -- The calls of a step, and the index that it leaves.
  abbrev StepCalls : Decoder → Step → Type 0
  StepCalls d (events, d') = AreCalls d.tool_index d'.tool_index events

  note_finish-index : (o : Option Text) (d : Decoder) → (note_finish o d).tool_index ≡ d.tool_index
  unfolding note_finish
  note_finish-index none d = refl
  note_finish-index (some reason) d = refl

  note_usage-index : (o : Option Value) (d : Decoder) → (note_usage o d).tool_index ≡ d.tool_index
  unfolding note_usage
  note_usage-index none d = refl
  note_usage-index (some usage) d = refl

  StepCalls-on_candidate :
      (o : Option Value) (d : Decoder)
      → d.tool_index + length (call_indices (on_candidate to_string o d).0) < 2 ^ 32
      → StepCalls d (on_candidate to_string o d)
  unfolding on_candidate
  StepCalls-on_candidate none d few = AreCalls-none d.tool_index [] refl refl
  StepCalls-on_candidate (some candidate) d few =
      let parts = on_parts to_string (parts_of candidate) d.tool_index in
      subst (λ end. AreCalls d.tool_index end parts.0)
        (sym (
          note_finish-index (str_at (text "finishReason") candidate)
            (record d { tool_index = parts.1 })))
        (AreCalls-on_parts (parts_of candidate) d.tool_index few)

  StepCalls-emit_stop : (d : Decoder) → StepCalls d (emit_stop d)
  unfolding emit_stop
  StepCalls-emit_stop d = elim (Bool-cases (is_some d.pending_finish && not d.stop_emitted)) [
    | inl now ↦ rw now (AreCalls-none d.tool_index (stop_of d ∷ []) refl refl)
    | inr later ↦ rw later (AreCalls-none d.tool_index [] refl refl)
  ]

  AreCalls-opening : (at : ℕ) (parsed : Value) (d : Decoder) → AreCalls at at (opening parsed d)
  unfolding opening
  AreCalls-opening at parsed d = elim (Bool-cases d.started) [
    | inl begun ↦ rw begun (AreCalls-none at [] refl refl)
    | inr new ↦
        rw new (AreCalls-none at (NeutralStreamEvent.message_start [] _ none ∷ []) refl refl)
  ]

  -- How many calls a list of events has.
  abbrev pub size : List NeutralStreamEvent → ℕ
  size es = length (call_indices es)

  size-append : (es es' : List NeutralStreamEvent) → size (es ++ es') ≡ size es + size es'
  size-append es es' =
      ap length (call_indices-append es es') ∙ length-append (call_indices es) (call_indices es')

  StepCalls-feed_value :
      (parsed : Value) (d : Decoder)
      → d.tool_index + size (feed_value to_string parsed d).0 < 2 ^ 32
      → StepCalls d (feed_value to_string parsed d)
  unfolding feed_value
  StepCalls-feed_value parsed d few = elim (Option-cases (get (text "error") parsed)) [
    | inr (error, failed) ↦
        rw (failed, feed_value)
          (AreCalls-none d.tool_index (NeutralStreamEvent.error _ ∷ []) refl refl)
    | inl fine ↦
        let few' = rw (fine, feed_value) at few in
        let candidate = and_then (and_then (get (text "candidates") parsed) as_array) first in
        let r = on_candidate to_string candidate (record d { started = true }) in
        let noted = note_usage (get (text "usageMetadata") parsed) r.1 in
        let stop = emit_stop noted in
        let same = note_usage-index (get (text "usageMetadata") parsed) r.1 in
        let sizes = size-append (opening parsed d) (r.0 ++ stop.0) in
        let sizes' = size-append r.0 stop.0 in
        let here =
          StepCalls-on_candidate candidate (record d { started = true })
            (omega (arith, few', sizes, sizes')) in
        let last =
          subst (λ at. AreCalls at stop.1.tool_index stop.0) same (StepCalls-emit_stop noted) in
        rw (fine, feed_value)
          (AreCalls-append (opening parsed d) (r.0 ++ stop.0)
            (AreCalls-opening d.tool_index parsed d) (AreCalls-append r.0 stop.0 here last))
  ]

  module _ (from_str : Text → Option Value) where
    StepCalls-feed :
        (d : Decoder) (payload : Text)
        → d.tool_index + size (feed to_string from_str d payload).0 < 2 ^ 32
        → StepCalls d (feed to_string from_str d payload)
    unfolding feed
    StepCalls-feed d payload few = elim (Option-cases (from_str payload)) [
      | inl bad ↦ rw (bad, feed) (AreCalls-none d.tool_index [] refl refl)
      | inr (parsed, good) ↦
          rw (good, feed) (StepCalls-feed_value parsed d (rw (good, feed) at few))
    ]

    StepCalls-feed_all :
        (d : Decoder) (payloads : List Text)
        → d.tool_index + size (feed_all to_string from_str d payloads).0 < 2 ^ 32
        → StepCalls d (feed_all to_string from_str d payloads)
    StepCalls-feed_all d [] few = AreCalls-none d.tool_index [] refl refl
    StepCalls-feed_all d (payload ∷ payloads) few =
        let one = feed to_string from_str d payload in
        let rest = feed_all to_string from_str one.1 payloads in
        let sizes = size-append one.0 rest.0 in
        let here = StepCalls-feed d payload (omega (arith, few, sizes)) in
        let later = StepCalls-feed_all one.1 payloads (omega (arith, few, sizes, here.rising)) in
        AreCalls-append one.0 rest.0 here later

    -- The tool calls of a decoded Gemini stream are numbered from 0 without a gap, over all of its
    -- chunks, and each has an id, also where the upstream gives none. The stream has fewer than 2 ^ 32
    -- calls.
    pub feed_all-calls :
        (payloads : List Text)
        → size (feed_all to_string from_str new_decoder payloads).0 < 2 ^ 32
        → Counts 0
            (size (feed_all to_string from_str new_decoder payloads).0)
            (call_indices (feed_all to_string from_str new_decoder payloads).0)
          × (unnamed (feed_all to_string from_str new_decoder payloads).0 ≡ 0)
    feed_all-calls payloads few =
        let calls = StepCalls-feed_all new_decoder payloads (omega (arith, few)) in
        (
          subst
              (λ end.
                Counts 0 end (call_indices (feed_all to_string from_str new_decoder payloads).0))
              (sym (omega (arith, calls.rising))) calls.counts,
          calls.named,
        )
