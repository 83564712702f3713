-- ===== src/Pipeline/Relay.antt =====
-- src/core/pipeline.rs: the task of `handle_streaming_response`, which relays a stream. What the
-- upstream and the client do is a list of inputs, at whose end the upstream's stream ends.
pub mod Reference
pub mod Written
pub mod Outcome
pub mod Terminal
pub mod Ends
pub mod Gone
use llmgate.Prelude.{
  Bool, true, false, not, ◌&&◌, ◌||◌, Option, none, some, List, [], ◌∷◌, ◌++◌, Text, text, text_eq,
  if◌then◌else◌,
}
use llmgate.Neutral.{NeutralStreamEvent}
use llmgate.Privacy.Search.{AhoCorasick}
use llmgate.Privacy.Engine.{RedactionEngine}
use llmgate.Privacy.Session.{Session}
use llmgate.Privacy.Stream.{StreamRestorer, restore_event, finish_all}
use llmgate.Registry.{StreamDecoder, StreamEncoder}
use llmgate.Sse.{SseFraming, new_framing, push}
use llmgate.Sse
use llmgate.Pipeline.Channel.{Channel, is_open, send, send_lines, no_lines}

-- What the stages of a stream are made of.
pub record Stages (D : Type 0) (E : Type 0) : Type 0 where
  pub decoder : StreamDecoder D
  pub encoder : StreamEncoder E
  pub automaton : AhoCorasick
  pub to_string : Text → Text
  pub engine : RedactionEngine

-- The restorer, if there is a privacy session, and the session that it shares.
abbrev pub Restorer : Type 0
Restorer = Option (StreamRestorer × Session)

-- The variables that `process_payload` is given.
pub record Relay (D : Type 0) (E : Type 0) : Type 0 where
  pub decoder : D
  pub encoder : E
  pub restorer : Restorer
  pub channel : Channel
  pub saw_error : Bool
  pub terminal : List NeutralStreamEvent

-- The variables of the loop.
pub record Loop (D : Type 0) (E : Type 0) : Type 0 where
  pub relay : Relay D E
  pub framing : SseFraming
  pub upstream_failed : Bool
  pub client_gone : Bool

-- What `select!` gives: `tx.closed()`, a chunk, an error of the stream, or the timeout.
pub data Input : Type 0 where
  closed : Input
  bytes : Text → Input
  failed : Input
  timed_out : Input

-- What is recorded of a stream.
pub data Status : Type 0 where
  ok : Status
  error : Status

abbrev pub is_message_stop : NeutralStreamEvent → Bool
is_message_stop (NeutralStreamEvent.message_stop reason usage) = true
is_message_stop _ = false

abbrev pub is_error : NeutralStreamEvent → Bool
is_error (NeutralStreamEvent.error err) = true
is_error _ = false

module _ {D : Type 0} {E : Type 0} (st : Stages D E) where
  -- `restorer.restore_event(event)`, or the event as it is.
  abbrev pub restore : Restorer → NeutralStreamEvent → Option NeutralStreamEvent × Restorer
  restore none event = (some event, none)
  restore (some (r, session)) event =
      let (out, r', session') = restore_event st.automaton st.to_string st.engine r event session in
      (out, some (r', session'))

  -- The rest of the body of a loop, for an event that is not filtered out.
  abbrev pub deliver : NeutralStreamEvent → Relay D E → Bool × Relay D E
  deliver event s =
      let (lines, encoder) = st.encoder.encode s.encoder event in
      let (going, channel) = send_lines lines s.channel in
      if is_message_stop event then (true, record s { terminal = s.terminal ++ event ∷ [] }) else (
        going,
        record s {
          encoder = encoder;
          channel = channel;
          saw_error = s.saw_error || (is_error event && not (no_lines lines));
        },
      )

  abbrev pub deliver_restored : Option NeutralStreamEvent × Restorer → Relay D E → Bool × Relay D E
  deliver_restored (none, restorer) s = (true, record s { restorer = restorer })
  deliver_restored (some event, restorer) s = deliver event (record s { restorer = restorer })

  unfoldable pub on_event : NeutralStreamEvent → Relay D E → Bool × Relay D E
  on_event event s = deliver_restored (restore s.restorer event) s

  unfoldable pub on_events : List NeutralStreamEvent → Relay D E → Bool × Relay D E
  unfolding on_event
  on_events [] s = (true, s)
  on_events (event ∷ events) s =
      let (going, s') = on_event event s in
      let rest = on_events events s' in if going then rest else (false, s')

  unfoldable pub process_payload : Text → Relay D E → Bool × Relay D E
  unfolding on_events
  process_payload payload s =
      let (events, decoder) = st.decoder.feed s.decoder payload in
      on_events events (record s { decoder = decoder })

  -- The loop over the payloads of a chunk, and whether the stream goes on.
  unfoldable pub on_payloads : List Text → Relay D E → Bool × Relay D E
  unfolding process_payload
  on_payloads [] s = (true, s)
  on_payloads (payload ∷ payloads) s =
      let (going, s') = process_payload payload s in
      let rest = on_payloads payloads s' in
      if text_eq payload (text "[DONE]") then (false, s) else if going then rest else (false, s')

  -- `while running`
  unfoldable pub run : List Input → Loop D E → Loop D E
  unfolding on_payloads
  run [] l = l
  run (Input.closed ∷ inputs) l =
      let gone : Channel = record l.relay.channel { left = some 0 } in
      record l { relay = record l.relay { channel = gone }; client_gone = true }
  run (Input.bytes chunk ∷ inputs) l =
      let (payloads, framing) = push l.framing chunk in
      let (going, relay) = on_payloads payloads l.relay in
      let l' : Loop D E = record l { relay = relay; framing = framing } in
      let rest = run inputs l' in if going then rest else l'
  run (Input.failed ∷ inputs) l = record l { upstream_failed = true }
  run (Input.timed_out ∷ inputs) l = record l { upstream_failed = true }

  -- The loop over `decoder.finish()`, which does not look for errors.
  abbrev pub flush_restored : Option NeutralStreamEvent × Restorer → Relay D E → Bool × Relay D E
  flush_restored (none, restorer) s = (true, record s { restorer = restorer })
  flush_restored (some event, restorer) s =
      let (going, s') = deliver event (record s { restorer = restorer }) in
      (going, record s' { saw_error = s.saw_error })

  unfoldable pub flush_decoder : List NeutralStreamEvent → Relay D E → Relay D E
  flush_decoder [] s = s
  flush_decoder (event ∷ events) s =
      let (going, s') = flush_restored (restore s.restorer event) s in
      let rest = flush_decoder events s' in if going then rest else s'

  -- A loop over events that are sent until the client is gone.
  unfoldable pub send_events : List NeutralStreamEvent → Relay D E → Relay D E
  send_events [] s = s
  send_events (event ∷ events) s =
      let (lines, encoder) = st.encoder.encode s.encoder event in
      let (going, channel) = send_lines lines s.channel in
      let s' : Relay D E = record s { encoder = encoder; channel = channel } in
      let rest = send_events events s' in if going then rest else s'

  abbrev pub finish_decoder : Relay D E → Relay D E
  finish_decoder s =
      let (events, decoder) = st.decoder.finish s.decoder in
      flush_decoder events (record s { decoder = decoder })

  abbrev pub restorer_finish : Restorer → List NeutralStreamEvent × Restorer
  restorer_finish none = ([], none)
  restorer_finish (some (r, session)) =
      let (events, r') = finish_all r in (events, some (r', session))

  abbrev pub finish_restorer : Relay D E → Relay D E
  finish_restorer s =
      let (events, restorer) = restorer_finish s.restorer in
      send_events events (record s { restorer = restorer })

  abbrev pub send_done : Relay D E → Relay D E
  send_done s =
      let (there, channel) = send (st.encoder.done s.encoder) s.channel in
      if s.saw_error then s else record s { channel = channel }

  -- What comes after the loop if the client is there.
  unfoldable pub close : Loop D E → Relay D E
  unfolding on_payloads flush_decoder send_events
  close l =
      let (payloads, framing) = Sse.finish l.framing in
      let (going, tail) = on_payloads payloads l.relay in
      if l.upstream_failed
      then finish_restorer tail
      else (let flushed = finish_restorer (finish_decoder tail) in
          send_done (send_events flushed.terminal flushed))

  abbrev pub status_of : Bool → Status
  status_of bad = if bad then Status.error else Status.ok

  -- What comes after the loop, and what is recorded of the stream.
  unfoldable pub conclude : Loop D E → Relay D E × Option Status
  unfolding close
  conclude l =
      let (there, channel) = is_open l.relay.channel in
      let s = close (record l { relay = record l.relay { channel = channel } }) in
      if there
      then (s, some (status_of (l.upstream_failed || s.saw_error || l.client_gone)))
      else (l.relay, none)

  abbrev pub start_loop : Restorer → Channel → Loop D E
  start_loop restorer channel =
      let relay : Relay D E = record {
        decoder = st.decoder.start;
        encoder = st.encoder.start;
        restorer = restorer;
        channel = channel;
        saw_error = false;
        terminal = [];
      } in
      record { relay = relay; framing = new_framing; upstream_failed = false; client_gone = false }

  -- The task.
  unfoldable pub relay_stream : Restorer → Channel → List Input → Relay D E × Option Status
  unfolding run conclude
  relay_stream restorer channel inputs = conclude (run inputs (start_loop restorer channel))
