-- ===== src/Pipeline/Relay/Outcome.antt =====
-- What a stream comes to: what has been sent at its end, and what is recorded of it.
use llmgate.Prelude.{
  ◌≡◌, ◌∙◌, refl, sym, ap, Bool, true, false, ◌||◌, Option, some, List, [], ◌∷◌, ◌++◌, append-nil,
  Bool-cases, inl, inr, Text, all, arith, if◌then◌else◌,
}
use llmgate.Neutral.{NeutralStreamEvent}
use llmgate.Sse.{SseFraming, new_framing, push}
use llmgate.Sse
use llmgate.Pipeline.Channel.{staying}
use llmgate.Pipeline.Relay.{
  Stages, Restorer, Relay, Loop, Input, Status, run, send_events, finish_decoder, finish_restorer,
  restorer_finish, send_done, close, conclude, status_of, start_loop, relay_stream,
}
use llmgate.Pipeline.Relay.Reference.{
  non_stops, non_stops-append, only_stops, only_stops-append, messages, messages-append,
  writes_error, restore_all, settle-nil,
}
use llmgate.Pipeline.Relay.Written.{
  before_marker, has_marker, intake, is_arrival, IsThere, decoded, fed, fed_one, fed-cons,
  on_payloads-fed, send_events-settle, flush_decoder-settle, settle_quietly,
}

-- The stream as the reference sees it: the events of its payloads and of the decoder's end,
-- restored, with the restorer's held tail, and whether an error of it is written.
pub record Stream : Type 0 where
  pub events : List NeutralStreamEvent
  pub held : List NeutralStreamEvent
  pub failed : Bool
  pub wrong : Bool

module _ {D : Type 0} {E : Type 0} (st : Stages D E) where
  fed-append :
      (s : Relay D E) (ps qs : List Text)
      → IsThere s
      → fed st (fed st s ps) qs ≡ fed st s (ps ++ qs)
  fed-append s [] qs stays = ap (λ (t : Relay D E). fed st t qs) (settle-nil st s stays)
  fed-append s (p ∷ ps) qs stays =
      ap (λ (t : Relay D E). fed st t qs) (sym (fed-cons st s p ps))
      ∙ fed-append (fed_one st s p) ps qs refl
      ∙ fed-cons st s p (ps ++ qs)

  abbrev loop_at : Relay D E → SseFraming → Bool → Loop D E
  loop_at s f failed = record {
    relay = s;
    framing = f;
    upstream_failed = failed;
    client_gone = false;
  }

  run-intake :
      (inputs : List Input) (s : Relay D E) (f : SseFraming)
      → all is_arrival inputs ≡ true
      → IsThere s
      → run st inputs (loop_at s f false)
        ≡ loop_at (fed st s (intake f inputs).0) (intake f inputs).1 (intake f inputs).2
  unfolding run
  run-intake [] s f arrivals stays =
      ap (λ (t : Relay D E). loop_at t f false) (sym (settle-nil st s stays))
  run-intake (Input.closed ∷ inputs) s f arrivals stays = ground arith
  run-intake (Input.failed ∷ inputs) s f arrivals stays =
      ap (λ (t : Relay D E). loop_at t f true) (sym (settle-nil st s stays))
  run-intake (Input.timed_out ∷ inputs) s f arrivals stays =
      ap (λ (t : Relay D E). loop_at t f true) (sym (settle-nil st s stays))
  run-intake (Input.bytes chunk ∷ inputs) s f arrivals stays =
      let framed = push f chunk in
      let next = fed st s (before_marker framed.0) in
      elim (Bool-cases (has_marker framed.0)) [
        | inl marked ↦ rw (on_payloads-fed st framed.0 s stays, marked) refl
        | inr not_yet ↦
            let later = intake framed.1 inputs in
            rw (on_payloads-fed st framed.0 s stays, not_yet)
              (run-intake inputs next framed.1 arrivals refl
                ∙ ap (λ (t : Relay D E). loop_at t later.1 later.2)
                    (fed-append s (before_marker framed.0) later.0 stays))
      ]

  abbrev stream_from : Restorer → List Text → SseFraming → Bool → Stream
  stream_from restorer payloads f failed =
      let (events, d) = decoded st st.decoder.start (payloads ++ before_marker (Sse.finish f).0) in
      let (restored, r) = restore_all st restorer events in
      let (last, r') = restore_all st r (if failed then [] else (st.decoder.finish d).0) in
      record {
        events = restored ++ last;
        held = (restorer_finish st r').0;
        failed = failed;
        wrong = writes_error st.encoder st.encoder.start (non_stops restored);
      }

  abbrev pub stream_of : Restorer → List Input → Stream
  stream_of restorer inputs =
      let (payloads, f, failed) = intake new_framing inputs in
      stream_from restorer payloads f failed

  -- What is written for it: the terminal events come last, and neither they nor the line at the end
  -- are written if the stream failed.
  abbrev pub written : Stream → List Text
  written s =
      let body = non_stops s.events ++ s.held in
      let (ms, e) = messages st.encoder st.encoder.start (body ++ only_stops s.events) in
      if s.failed
      then (messages st.encoder st.encoder.start body).0
      else ms ++ (if s.wrong then [] else st.encoder.done e ∷ [])

  -- Messages, and those of further events.
  abbrev extend : List Text × E → List NeutralStreamEvent → List Text × E
  extend m events = (m.0 ++ (messages st.encoder m.1 events).0, (messages st.encoder m.1 events).1)

  messages-parts :
      (e : E) (events last held terminal : List NeutralStreamEvent)
      → messages st.encoder e ((non_stops (events ++ last) ++ held) ++ terminal)
        ≡ extend
            (extend (extend (messages st.encoder e (non_stops events)) (non_stops last)) held)
            terminal
  messages-parts e events last held terminal =
      let body = non_stops (events ++ last) in
      messages-append st.encoder e (body ++ held) terminal
      ∙ ap (λ (m : List Text × E). extend m terminal)
          (messages-append st.encoder e body held
            ∙ ap (λ (m : List Text × E). extend m held)
                (ap (messages st.encoder e) (non_stops-append events last)
                  ∙ messages-append st.encoder e (non_stops events) (non_stops last)))

  abbrev begun : Restorer → Relay D E
  begun restorer = (start_loop st restorer (staying [])).relay

  -- What is observed of a stream: what has been sent, and what is recorded.
  abbrev seen : Relay D E × Option Status → List Text × Option Status
  seen (s, status) = (s.channel.sent, status)

  abbrev expected : Stream → List Text × Option Status
  expected s = (written s, some (status_of st (s.failed || s.wrong)))

  finish_restorer-settle :
      (s : Relay D E)
      → IsThere s
      → finish_restorer st s ≡ record s {
        restorer = (restorer_finish st s.restorer).1;
        encoder = (messages st.encoder s.encoder (restorer_finish st s.restorer).0).1;
        channel =
            staying (
              s.channel.sent
              ++ (messages st.encoder s.encoder (restorer_finish st s.restorer).0).0);
      }
  finish_restorer-settle s stays =
      send_events-settle st (restorer_finish st s.restorer).0
        (record s { restorer = (restorer_finish st s.restorer).1 }) stays

  close-failed :
      (s : Relay D E) (f : SseFraming)
      → IsThere s
      → close st (loop_at s f true) ≡ finish_restorer st (fed st s (before_marker (Sse.finish f).0))
  unfolding close
  close-failed s f stays =
      ap (λ (r : Bool × Relay D E). finish_restorer st r.1)
        (on_payloads-fed st (Sse.finish f).0 s stays)

  close-ended :
      (s : Relay D E) (f : SseFraming)
      → IsThere s
      → close st (loop_at s f false) ≡ (
          let flushed =
            finish_restorer st (finish_decoder st (fed st s (before_marker (Sse.finish f).0))) in
          send_done st (send_events st flushed.terminal flushed))
  unfolding close
  close-ended s f stays =
      ap
        (λ (r : Bool × Relay D E).
          let flushed = finish_restorer st (finish_decoder st r.1) in
          send_done st (send_events st flushed.terminal flushed))
        (on_payloads-fed st (Sse.finish f).0 s stays)

  conclude-failed :
      (restorer : Restorer) (payloads : List Text) (f : SseFraming)
      → seen (conclude st (loop_at (fed st (begun restorer) payloads) f true))
        ≡ expected (stream_from restorer payloads f true)
  unfolding conclude
  conclude-failed restorer payloads f =
      let tail = before_marker (Sse.finish f).0 in
      let s = fed st (begun restorer) payloads in
      let t = fed st (begun restorer) (payloads ++ tail) in
      let events = (decoded st st.decoder.start (payloads ++ tail)).0 in
      let restored = restore_all st restorer events in
      let held = (restorer_finish st restored.1).0 in
      ap (λ (r : Relay D E). (r.channel.sent, some Status.error))
        (close-failed s f refl
          ∙ ap (finish_restorer st) (fed-append (begun restorer) payloads tail refl)
          ∙ finish_restorer-settle t refl)
      ∙ ap (λ (m : List Text × E). (m.0, some Status.error))
          (sym (messages-append st.encoder st.encoder.start (non_stops restored.0) held)
            ∙ ap (λ es. messages st.encoder st.encoder.start (non_stops es ++ held))
                (sym (append-nil restored.0)))

  conclude-ended :
      (restorer : Restorer) (payloads : List Text) (f : SseFraming)
      → seen (conclude st (loop_at (fed st (begun restorer) payloads) f false))
        ≡ expected (stream_from restorer payloads f false)
  unfolding conclude
  conclude-ended restorer payloads f =
      let tail = before_marker (Sse.finish f).0 in
      let s = fed st (begun restorer) payloads in
      let t = fed st (begun restorer) (payloads ++ tail) in
      let feeding = decoded st st.decoder.start (payloads ++ tail) in
      let restored = restore_all st restorer feeding.0 in
      let last = st.decoder.finish feeding.1 in
      let ended = restore_all st restored.1 last.0 in
      let held = (restorer_finish st ended.1).0 in
      let wrong = writes_error st.encoder st.encoder.start (non_stops restored.0) in
      let stop_events = only_stops restored.0 ++ only_stops ended.0 in
      let flushed : Relay D E = settle_quietly st (record t { decoder = last.1 }) ended.0 ended.1 in
      let held_sent : Relay D E = record flushed {
        restorer = (restorer_finish st ended.1).1;
        encoder = (messages st.encoder flushed.encoder held).1;
        channel = staying (flushed.channel.sent ++ (messages st.encoder flushed.encoder held).0);
      } in
      let all_sent : Relay D E = record held_sent {
        encoder = (messages st.encoder held_sent.encoder stop_events).1;
        channel =
            staying
              (held_sent.channel.sent ++ (messages st.encoder held_sent.encoder stop_events).0);
      } in
      let ends : close st (loop_at s f false) ≡ send_done st all_sent =
        close-ended s f refl
        ∙ ap
            (λ (r : Relay D E).
              let g = finish_restorer st (finish_decoder st r) in
              send_done st (send_events st g.terminal g))
            (fed-append (begun restorer) payloads tail refl)
        ∙ ap
            (λ (r : Relay D E).
              let g = finish_restorer st r in send_done st (send_events st g.terminal g))
            (flush_decoder-settle st last.0 (record t { decoder = last.1 }) refl)
        ∙ ap (λ (g : Relay D E). send_done st (send_events st g.terminal g))
            (finish_restorer-settle flushed refl)
        ∙ ap (send_done st) (send_events-settle st stop_events held_sent refl) in
      let parts =
        ap
          (λ es.
            messages st.encoder st.encoder.start
              ((non_stops (restored.0 ++ ended.0) ++ held) ++ es))
          (only_stops-append restored.0 ended.0)
        ∙ messages-parts st.encoder.start restored.0 ended.0 held stop_events in
      ap (λ (r : Relay D E). (r.channel.sent, some (status_of st (r.saw_error || false)))) ends
      ∙ elim (Bool-cases wrong) [
        | inl bad ↦ rw bad (
            ap (λ (m : List Text × E). (m.0, some Status.error)) (sym parts)
            ∙ ap (λ (ms : List Text). (ms, some Status.error)) (sym (append-nil _)))
        | inr fine ↦ rw fine (
            ap (λ (m : List Text × E). (m.0 ++ st.encoder.done m.1 ∷ [], some Status.ok))
              (sym parts))
      ]

  conclude-expected :
      (restorer : Restorer) (payloads : List Text) (f : SseFraming) (failed : Bool)
      → seen (conclude st (loop_at (fed st (begun restorer) payloads) f failed))
        ≡ expected (stream_from restorer payloads f failed)
  conclude-expected restorer payloads f true = conclude-failed restorer payloads f
  conclude-expected restorer payloads f false = conclude-ended restorer payloads f

  -- To a client that stays, a stream is relayed as the reference has it, whatever the chunks are, and
  -- however the upstream ends, by its marker, by its end, by an error or by the timeout: what is sent
  -- is the content, then the restorer's held tail, then the terminal events, then the line at the
  -- end; without the terminal events and that line if the upstream failed, and without that line if
  -- an error has been written. The stream is recorded, as an error in these two cases.
  pub relay_stream-written :
      (restorer : Restorer) (inputs : List Input)
      → all is_arrival inputs ≡ true
      → ((relay_stream st restorer (staying []) inputs).0.channel.sent
          ≡ written (stream_of restorer inputs))
        × ((relay_stream st restorer (staying []) inputs).1
            ≡ some (
                status_of st
                  ((stream_of restorer inputs).failed || (stream_of restorer inputs).wrong)))
  unfolding relay_stream
  relay_stream-written restorer inputs arrivals =
      let taken = intake new_framing inputs in
      let result =
        ap (λ (l : Loop D E). seen (conclude st l))
          (run-intake inputs (begun restorer) new_framing arrivals refl)
        ∙ conclude-expected restorer taken.0 taken.1 taken.2 in
      (
        ap (λ (r : List Text × Option Status). r.0) result,
        ap (λ (r : List Text × Option Status). r.1) result,
      )
