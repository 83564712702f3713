-- ===== src/Pipeline/Relay/Terminal.antt =====
-- The terminal events of a relayed stream.
use llmgate.Prelude.{
  ℕ, ◌≡◌, ◌∙◌, refl, sym, ap, Bool, true, false, none, some, List, [], ◌∷◌, ◌++◌, Text, map, all,
  arith, if◌then◌else◌,
}
use llmgate.Neutral.{NeutralStreamEvent}
use llmgate.Events.{stops, is_stop, stops-append}
use llmgate.Privacy.Stream.{
  StreamRestorer, restore_event, finish_all, flushed, finish, held_event, unless,
}
use llmgate.Sse.{new_framing}
use llmgate.Sse
use llmgate.Pipeline.Channel.{staying}
use llmgate.Pipeline.Relay.{
  Stages, Restorer, Input, is_message_stop, restore, restorer_finish, relay_stream,
}
use llmgate.Pipeline.Relay.Reference.{
  non_stops, only_stops, only_stops-append, listed, messages, restore_all,
}
use llmgate.Pipeline.Relay.Written.{before_marker, intake, is_arrival, decoded}
use llmgate.Pipeline.Relay.Outcome.{stream_of, relay_stream-written}

stops-non_stops : (es : List NeutralStreamEvent) → stops (non_stops es) ≡ 0
stops-non_stops [] = refl
stops-non_stops (NeutralStreamEvent.message_stop reason usage ∷ es) = stops-non_stops es
stops-non_stops (NeutralStreamEvent.message_start id model usage ∷ es) =
    omega (arith, stops-non_stops es)
stops-non_stops (NeutralStreamEvent.text_delta t ∷ es) = omega (arith, stops-non_stops es)
stops-non_stops (NeutralStreamEvent.reasoning_delta t ∷ es) = omega (arith, stops-non_stops es)
stops-non_stops (NeutralStreamEvent.reasoning_signature t ∷ es) = omega (arith, stops-non_stops es)
stops-non_stops (NeutralStreamEvent.tool_call_delta index id name arguments ∷ es) =
    omega (arith, stops-non_stops es)
stops-non_stops (NeutralStreamEvent.error err ∷ es) = omega (arith, stops-non_stops es)

stops-args :
    (held : List (ℕ × Text))
    → stops (map (λ entry. NeutralStreamEvent.tool_call_delta entry.0 [] [] entry.1) held) ≡ 0
stops-args [] = refl
stops-args (entry ∷ held) = omega (arith, stops-args held)

stops-held_event :
    (event : Text → NeutralStreamEvent) (held : Text)
    → ((t : Text) → is_stop (event t) ≡ 0)
    → stops (held_event event held) ≡ 0
stops-held_event event [] quiet = refl
stops-held_event event (b ∷ held) quiet = omega (arith, quiet (b ∷ held))

stops-finish_all : (r : StreamRestorer) → stops (finish_all r).0 ≡ 0
unfolding finish_all
stops-finish_all r =
    let texts = held_event NeutralStreamEvent.text_delta (finish r.text).0 in
    let thoughts = held_event NeutralStreamEvent.reasoning_delta (finish r.reasoning).0 in
    let args =
      map (λ entry. NeutralStreamEvent.tool_call_delta entry.0 [] [] entry.1)
        (flushed r.tool_args) in
    omega (
      arith,
      stops-append texts (thoughts ++ args),
      stops-append thoughts args,
      stops-held_event NeutralStreamEvent.text_delta (finish r.text).0 (λ t. refl),
      stops-held_event NeutralStreamEvent.reasoning_delta (finish r.reasoning).0 (λ t. refl),
      stops-args (flushed r.tool_args),
    )

only_stops-unless :
    (empty : Bool) (event : NeutralStreamEvent)
    → is_message_stop event ≡ false
    → only_stops (listed (unless empty event)) ≡ []
only_stops-unless true event other = refl
only_stops-unless false event other = rw other refl

module _ {D : Type 0} {E : Type 0} (st : Stages D E) where
  stops-restorer_finish : (r : Restorer) → stops (restorer_finish st r).0 ≡ 0
  stops-restorer_finish none = refl
  stops-restorer_finish (some (r, session)) = stops-finish_all r

  only_stops-restore :
      (r : Restorer) (event : NeutralStreamEvent)
      → only_stops (listed (restore st r event).0) ≡ only_stops (event ∷ [])
  unfolding restore_event
  only_stops-restore none event = refl
  only_stops-restore (some (r, session)) (NeutralStreamEvent.message_start id model usage) = refl
  only_stops-restore (some (r, session)) (NeutralStreamEvent.message_stop reason usage) = refl
  only_stops-restore (some (r, session)) (NeutralStreamEvent.reasoning_signature t) = refl
  only_stops-restore (some (r, session)) (NeutralStreamEvent.error err) = refl
  only_stops-restore (some (r, session)) (NeutralStreamEvent.text_delta t) =
      only_stops-unless _ _ refl
  only_stops-restore (some (r, session)) (NeutralStreamEvent.reasoning_delta t) =
      only_stops-unless _ _ refl
  only_stops-restore (some (r, session))
        (NeutralStreamEvent.tool_call_delta index id name arguments) =
      only_stops-unless _ _ refl

  only_stops-restore_all :
      (r : Restorer) (events : List NeutralStreamEvent)
      → only_stops (restore_all st r events).0 ≡ only_stops events
  only_stops-restore_all r [] = refl
  only_stops-restore_all r (event ∷ events) =
      let one = restore st r event in
      only_stops-append (listed one.0) (restore_all st one.1 events).0
      ∙ ap (λ l. only_stops (listed one.0) ++ l) (only_stops-restore_all one.1 events)
      ∙ ap (λ l. l ++ only_stops events) (only_stops-restore r event)
      ∙ sym (only_stops-append (event ∷ []) events)

  -- What the decoder gives for the stream.
  abbrev pub given : List Input → List NeutralStreamEvent
  given inputs =
      let (payloads, f, failed) = intake new_framing inputs in
      let (events, d) = decoded st st.decoder.start (payloads ++ before_marker (Sse.finish f).0) in
      events ++ (if failed then [] else (st.decoder.finish d).0)

  -- The terminal events of the reference, and that nothing else in it is one.
  stream_of-stops :
      (restorer : Restorer) (inputs : List Input)
      → (stops
            (non_stops (stream_of st restorer inputs).events ++ (stream_of st restorer inputs).held)
          ≡ 0)
        × (only_stops (stream_of st restorer inputs).events ≡ only_stops (given inputs))
  stream_of-stops restorer inputs =
      let s = stream_of st restorer inputs in
      let taken = intake new_framing inputs in
      let feeding = decoded st st.decoder.start (taken.0 ++ before_marker (Sse.finish taken.1).0) in
      let last = if taken.2 then [] else (st.decoder.finish feeding.1).0 in
      let restored = restore_all st restorer feeding.0 in
      (
        omega (
          arith,
          stops-append (non_stops s.events) s.held,
          stops-non_stops s.events,
          stops-restorer_finish (restore_all st restored.1 last).1,
        ),
        only_stops-append restored.0 (restore_all st restored.1 last).0
            ∙ ap (λ l. l ++ only_stops (restore_all st restored.1 last).0)
                (only_stops-restore_all restorer feeding.0)
            ∙ ap (λ l. only_stops feeding.0 ++ l) (only_stops-restore_all restored.1 last)
            ∙ sym (only_stops-append feeding.0 last),
      )

  -- What is sent for a body and for what is to end it, by whether the upstream failed, and whether an
  -- error has been written.
  abbrev pub relayed : Bool → Bool → List NeutralStreamEvent → List NeutralStreamEvent → List Text
  relayed failed wrong body last =
      let (ms, e) = messages st.encoder st.encoder.start (body ++ last) in
      if failed
      then (messages st.encoder st.encoder.start body).0
      else ms ++ (if wrong then [] else st.encoder.done e ∷ [])

  -- To a client that stays, whatever the chunks are and however the upstream ends, the relay sends
  -- what is encoded of events among which no terminal one is, and then, unless the upstream failed,
  -- what is encoded of the terminal events that the decoder has given for the whole stream, each of
  -- them unchanged and in order, and the line at the end if no error was written: the privacy guard
  -- neither changes nor drops a terminal event, nothing is sent for one before the rest is, and none
  -- is sent if the upstream failed.
  pub relay_stream-stops :
      (restorer : Restorer) (inputs : List Input)
      → all is_arrival inputs ≡ true
      → (body : List NeutralStreamEvent) × (stops body ≡ 0)
        × ((relay_stream st restorer (staying []) inputs).0.channel.sent
            ≡ relayed
                (intake new_framing inputs).2
                (stream_of st restorer inputs).wrong
                body
                (only_stops (given inputs)))
  relay_stream-stops restorer inputs arrivals =
      let s = stream_of st restorer inputs in
      let body = non_stops s.events ++ s.held in
      let (quiet, same) = stream_of-stops restorer inputs in
      (
        body,
        quiet,
        (relay_stream-written st restorer inputs arrivals).0
            ∙ ap (relayed s.failed s.wrong body) same,
      )
