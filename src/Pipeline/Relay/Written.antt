-- ===== src/Pipeline/Relay/Written.antt =====
-- The relay to a client that stays writes what the reference says.
use llmgate.Prelude.{
  ◌≡◌, ◌∙◌, refl, sym, ap, Bool, true, false, not, ◌&&◌, ◌||◌, Option, none, some, List, [], ◌∷◌,
  ◌++◌, append_assoc, append-nil, Bool-cases, inl, inr, Text, text, text_eq, if◌then◌else◌,
}
use llmgate.Neutral.{NeutralStreamEvent}
use llmgate.Sse.{SseFraming, push}
use llmgate.Pipeline.Channel.{Channel, send_lines, no_lines, staying}
use llmgate.Pipeline.Relay.{
  Stages, Restorer, Relay, Input, is_message_stop, is_error, restore, deliver, deliver_restored,
  on_event, on_events, process_payload, on_payloads, flush_restored, flush_decoder, send_events,
}
use llmgate.Pipeline.Relay.Reference.{
  joined, listed, messages, restore_all, same_relay, or_false, settle, settle-nil, settle-append,
}

-- The payloads up to the marker of the end.
abbrev pub is_marker : Text → Bool
is_marker payload = text_eq payload (text "[DONE]")

abbrev pub before_marker : List Text → List Text
before_marker [] = []
before_marker (p ∷ ps) = let rest = before_marker ps in if is_marker p then [] else p ∷ rest

abbrev pub has_marker : List Text → Bool
has_marker [] = false
has_marker (p ∷ ps) = is_marker p || has_marker ps

-- The payloads that are taken from the stream before it ends, the framing then, and whether the
-- stream failed.
abbrev pub intake : SseFraming → List Input → List Text × SseFraming × Bool
intake f [] = ([], f, false)
intake f (Input.closed ∷ inputs) = ([], f, false)
intake f (Input.bytes chunk ∷ inputs) =
    let (payloads, f') = push f chunk in
    let (more, f'', failed) = intake f' inputs in
    if has_marker payloads
    then (before_marker payloads, f', false)
    else (before_marker payloads ++ more, f'', failed)
intake f (Input.failed ∷ inputs) = ([], f, true)
intake f (Input.timed_out ∷ inputs) = ([], f, true)

abbrev pub is_arrival : Input → Bool
is_arrival Input.closed = false
is_arrival _ = true

abbrev pub IsThere : {D : Type 0} {E : Type 0} → Relay D E → Type 0
IsThere s = s.channel.left ≡ none

send_lines-staying :
    (lines : List Text) (ch : Channel)
    → ch.left ≡ none
    → send_lines lines ch ≡ (true, staying (ch.sent ++ joined lines))
unfolding send_lines
send_lines-staying [] ch stays =
    ap (λ left. (true, record ch { left = left })) stays
    ∙ ap (λ (sent : List Text). (true, staying sent)) (sym (append-nil ch.sent))
send_lines-staying (line ∷ lines) ch stays = rw stays

module _ {D : Type 0} {E : Type 0} (st : Stages D E) where
  deliver-settle :
      (event : NeutralStreamEvent) (s : Relay D E)
      → IsThere s
      → deliver st event s ≡ (true, settle st s (event ∷ []) s.restorer)
  deliver-settle event s stays = elim (Bool-cases (is_message_stop event)) [
    | inl stop ↦ rw stop (
        ap (λ (t : Relay D E). (true, record t { terminal = s.terminal ++ event ∷ [] }))
          (sym (settle-nil st s stays)))
    | inr other ↦
        let one = st.encoder.encode s.encoder event in
        rw (other, send_lines-staying one.0 s.channel stays)
          (ap (λ (t : Relay D E). (true, t))
            (same_relay st s.decoder s.restorer refl
              (ap (λ ms. s.channel.sent ++ ms) (sym (append-nil (joined one.0))))
              (ap (λ b. s.saw_error || b) (sym (or_false (is_error event && not (no_lines one.0)))))
              (sym (append-nil s.terminal))))
  ]

  deliver_restored-settle :
      (out : Option NeutralStreamEvent) (r : Restorer) (s : Relay D E)
      → IsThere s
      → deliver_restored st (out, r) s ≡ (true, settle st s (listed out) r)
  deliver_restored-settle none r s stays =
      ap (λ (t : Relay D E). (true, record t { restorer = r })) (sym (settle-nil st s stays))
  deliver_restored-settle (some event) r s stays =
      deliver-settle event (record s { restorer = r }) stays

  pub on_events-settle :
      (events : List NeutralStreamEvent) (s : Relay D E)
      → IsThere s
      → on_events st events s ≡ (
        true,
        settle st s (restore_all st s.restorer events).0 (restore_all st s.restorer events).1,
      )
  unfolding on_events on_event
  on_events-settle [] s stays = ap (λ (t : Relay D E). (true, t)) (sym (settle-nil st s stays))
  on_events-settle (event ∷ events) s stays =
      let one = restore st s.restorer event in
      let next = settle st s (listed one.0) one.1 in
      let rest = restore_all st one.1 events in
      ap (λ (r : Bool × Relay D E). if r.0 then on_events st events r.1 else (false, r.1))
        (deliver_restored-settle one.0 one.1 s stays)
      ∙ on_events-settle events next refl
      ∙ ap (λ (t : Relay D E). (true, t)) (settle-append st s (listed one.0) rest.0 one.1 rest.1)

  -- The events of payloads, one after the other.
  abbrev pub decoded : D → List Text → List NeutralStreamEvent × D
  decoded d [] = ([], d)
  decoded d (payload ∷ payloads) =
      let (events, d') = st.decoder.feed d payload in
      let (more, d'') = decoded d' payloads in (events ++ more, d'')

  -- A relay that has been fed payloads.
  abbrev pub fed : Relay D E → List Text → Relay D E
  fed s payloads =
      let (events, d) = decoded s.decoder payloads in
      let (restored, r) = restore_all st s.restorer events in
      record (settle st s restored r) { decoder = d }

  pub restore_all-append :
      (r : Restorer) (es fs : List NeutralStreamEvent)
      → restore_all st r (es ++ fs) ≡ (
        (restore_all st r es).0 ++ (restore_all st (restore_all st r es).1 fs).0,
        (restore_all st (restore_all st r es).1 fs).1,
      )
  restore_all-append r [] fs = refl
  restore_all-append r (event ∷ es) fs =
      let one = restore st r event in
      let here = restore_all st one.1 es in
      let later = restore_all st here.1 fs in
      ap (λ (p : List NeutralStreamEvent × Restorer). (listed one.0 ++ p.0, p.1))
        (restore_all-append one.1 es fs)
      ∙ ap (λ (l : List NeutralStreamEvent). (l, later.1))
          (sym (append_assoc (listed one.0) here.0 later.0))

  abbrev pub fed_one : Relay D E → Text → Relay D E
  fed_one s payload =
      let (events, d) = st.decoder.feed s.decoder payload in
      let (restored, r) = restore_all st s.restorer events in
      record (settle st s restored r) { decoder = d }

  pub fed-cons :
      (s : Relay D E) (payload : Text) (payloads : List Text)
      → fed (fed_one s payload) payloads ≡ fed s (payload ∷ payloads)
  fed-cons s payload payloads =
      let first = st.decoder.feed s.decoder payload in
      let more = decoded first.1 payloads in
      let one = restore_all st s.restorer first.0 in
      let two = restore_all st one.1 more.0 in
      ap (λ (t : Relay D E). record t { decoder = more.1 })
        (settle-append st s one.0 two.0 one.1 two.1)
      ∙ ap
          (λ (p : List NeutralStreamEvent × Restorer). record (settle st s p.0 p.1) {
            decoder = more.1;
          })
          (sym (restore_all-append s.restorer first.0 more.0))

  pub on_payloads-fed :
      (payloads : List Text) (s : Relay D E)
      → IsThere s
      → on_payloads st payloads s ≡ (not (has_marker payloads), fed s (before_marker payloads))
  unfolding on_payloads process_payload
  on_payloads-fed [] s stays = ap (λ (t : Relay D E). (true, t)) (sym (settle-nil st s stays))
  on_payloads-fed (payload ∷ payloads) s stays = elim (Bool-cases (is_marker payload)) [
    | inl marker ↦ rw marker (ap (λ (t : Relay D E). (false, t)) (sym (settle-nil st s stays)))
    | inr other ↦
        let first = st.decoder.feed s.decoder payload in
        rw (other, on_events-settle first.0 (record s { decoder = first.1 }) stays)
          (on_payloads-fed payloads (fed_one s payload) refl
            ∙ ap (λ (t : Relay D E). (not (has_marker payloads), t))
                (fed-cons s payload (before_marker payloads)))
  ]

  flush_restored-settle :
      (out : Option NeutralStreamEvent) (r : Restorer) (s : Relay D E)
      → IsThere s
      → flush_restored st (out, r) s
        ≡ (true, record (settle st s (listed out) r) { saw_error = s.saw_error })
  flush_restored-settle none r s stays =
      ap (λ (t : Relay D E). (true, record t { restorer = r; saw_error = s.saw_error }))
        (sym (settle-nil st s stays))
  flush_restored-settle (some event) r s stays =
      ap (λ (p : Bool × Relay D E). (p.0, record p.1 { saw_error = s.saw_error }))
        (deliver-settle event (record s { restorer = r }) stays)

  pub send_events-settle :
      (events : List NeutralStreamEvent) (s : Relay D E)
      → IsThere s
      → send_events st events s ≡ record s {
        encoder = (messages st.encoder s.encoder events).1;
        channel = staying (s.channel.sent ++ (messages st.encoder s.encoder events).0);
      }
  unfolding send_events
  send_events-settle [] s stays =
      ap (λ (ch : Channel). record s { channel = ch })
        (ap (λ left. record s.channel { left = left }) stays
          ∙ ap (λ (sent : List Text). staying sent) (sym (append-nil s.channel.sent)))
  send_events-settle (event ∷ events) s stays =
      let one = st.encoder.encode s.encoder event in
      let later = messages st.encoder one.1 events in
      rw (send_lines-staying one.0 s.channel stays) (
        send_events-settle events
          (record s { encoder = one.1; channel = staying (s.channel.sent ++ joined one.0) }) refl
        ∙ ap (λ (sent : List Text). record s { encoder = later.1; channel = staying sent })
            (append_assoc s.channel.sent (joined one.0) later.0))

  -- The flush of the decoder keeps the flag of the errors.
  abbrev pub settle_quietly : Relay D E → List NeutralStreamEvent → Restorer → Relay D E
  settle_quietly s events r = record (settle st s events r) { saw_error = s.saw_error }

  pub flush_decoder-settle :
      (events : List NeutralStreamEvent) (s : Relay D E)
      → IsThere s
      → flush_decoder st events s
        ≡ settle_quietly s (restore_all st s.restorer events).0 (restore_all st s.restorer events).1
  unfolding flush_decoder
  flush_decoder-settle [] s stays =
      ap (λ (t : Relay D E). record t { saw_error = s.saw_error }) (sym (settle-nil st s stays))
  flush_decoder-settle (event ∷ events) s stays =
      let one = restore st s.restorer event in
      let next = settle_quietly s (listed one.0) one.1 in
      let rest = restore_all st one.1 events in
      ap (λ (r : Bool × Relay D E). if r.0 then flush_decoder st events r.1 else r.1)
        (flush_restored-settle one.0 one.1 s stays)
      ∙ flush_decoder-settle events next refl
      ∙ ap (λ (t : Relay D E). record t { saw_error = s.saw_error })
          (settle-append st s (listed one.0) rest.0 one.1 rest.1)
