-- ===== src/Pipeline/Relay/Reference.antt =====
-- What a relay is to do, without its state: the order in which events are written.
use llmgate.Prelude.{
  ◌≡◌, ◌∙◌, refl, sym, ap, Bool, true, false, not, ◌&&◌, ◌||◌, Option, none, some, List, [], ◌∷◌,
  ◌++◌, append_assoc, append-nil, Bool-cases, inl, inr, Text, if◌then◌else◌,
}
use llmgate.Neutral.{NeutralStreamEvent}
use llmgate.Registry.{StreamEncoder}
use llmgate.Sse.Chunks.{concat}
use llmgate.Pipeline.Channel.{no_lines, staying}
use llmgate.Pipeline.Relay.{Stages, Restorer, Relay, is_message_stop, is_error, restore}

-- The events before the terminal ones, and the terminal ones.
abbrev pub non_stops : List NeutralStreamEvent → List NeutralStreamEvent
non_stops [] = []
non_stops (e ∷ es) = let rest = non_stops es in if is_message_stop e then rest else e ∷ rest

abbrev pub only_stops : List NeutralStreamEvent → List NeutralStreamEvent
only_stops [] = []
only_stops (e ∷ es) = let rest = only_stops es in if is_message_stop e then e ∷ rest else rest

pub non_stops-append :
    (es fs : List NeutralStreamEvent) → non_stops (es ++ fs) ≡ non_stops es ++ non_stops fs
non_stops-append [] fs = refl
non_stops-append (e ∷ es) fs = elim (Bool-cases (is_message_stop e)) [
  | inl stop ↦ rw stop (non_stops-append es fs)
  | inr other ↦ rw other (ap (λ l. e ∷ l) (non_stops-append es fs))
]

pub only_stops-append :
    (es fs : List NeutralStreamEvent) → only_stops (es ++ fs) ≡ only_stops es ++ only_stops fs
only_stops-append [] fs = refl
only_stops-append (e ∷ es) fs = elim (Bool-cases (is_message_stop e)) [
  | inl stop ↦ rw stop (ap (λ l. e ∷ l) (only_stops-append es fs))
  | inr other ↦ rw other (only_stops-append es fs)
]

-- The lines of one event, as one message.
abbrev pub joined : List Text → List Text
joined lines = if no_lines lines then [] else concat lines ∷ []

-- The event that is left of a restored one.
abbrev pub listed : Option NeutralStreamEvent → List NeutralStreamEvent
listed none = []
listed (some event) = event ∷ []

or_assoc : (a b c : Bool) → (a || b) || c ≡ a || (b || c)
or_assoc true b c = refl
or_assoc false b c = refl

pub or_false : (a : Bool) → a || false ≡ a
or_false true = refl
or_false false = refl

module _ {E : Type 0} (enc : StreamEncoder E) where
  -- What is sent for events that are written one after the other.
  abbrev pub messages : E → List NeutralStreamEvent → List Text × E
  messages e [] = ([], e)
  messages e (event ∷ events) =
      let (lines, e') = enc.encode e event in
      let (more, e'') = messages e' events in (joined lines ++ more, e'')

  -- Whether one of the events is an error and something is written for it.
  abbrev pub writes_error : E → List NeutralStreamEvent → Bool
  writes_error e [] = false
  writes_error e (event ∷ events) =
      let (lines, e') = enc.encode e event in
      (is_error event && not (no_lines lines)) || writes_error e' events

  pub messages-append :
      (e : E) (es fs : List NeutralStreamEvent)
      → messages e (es ++ fs) ≡ (
        (messages e es).0 ++ (messages (messages e es).1 fs).0,
        (messages (messages e es).1 fs).1,
      )
  messages-append e [] fs = refl
  messages-append e (event ∷ es) fs =
      let one = enc.encode e event in
      let here = messages one.1 es in
      let later = messages here.1 fs in
      ap (λ (r : List Text × E). (joined one.0 ++ r.0, r.1)) (messages-append one.1 es fs)
      ∙ ap (λ (ms : List Text). (ms, later.1)) (sym (append_assoc (joined one.0) here.0 later.0))

  pub writes_error-append :
      (e : E) (es fs : List NeutralStreamEvent)
      → writes_error e (es ++ fs) ≡ writes_error e es || writes_error (messages e es).1 fs
  writes_error-append e [] fs = refl
  writes_error-append e (event ∷ es) fs =
      let one = enc.encode e event in
      let bad = is_error event && not (no_lines one.0) in
      ap (λ b. bad || b) (writes_error-append one.1 es fs)
      ∙ sym (or_assoc bad (writes_error one.1 es) (writes_error (messages one.1 es).1 fs))

module _ {D : Type 0} {E : Type 0} (st : Stages D E) where
  -- Events, restored one after the other.
  abbrev pub restore_all : Restorer → List NeutralStreamEvent → List NeutralStreamEvent × Restorer
  restore_all r [] = ([], r)
  restore_all r (event ∷ events) =
      let (out, r') = restore st r event in
      let (more, r'') = restore_all r' events in (listed out ++ more, r'')

  abbrev pub relay_at : D → E → Restorer → List Text → Bool → List NeutralStreamEvent → Relay D E
  relay_at d e r sent saw terminal = record {
    decoder = d;
    encoder = e;
    restorer = r;
    channel = staying sent;
    saw_error = saw;
    terminal = terminal;
  }

  pub same_relay :
      (d : D) {e e' : E} (r : Restorer) {sent sent' : List Text} {saw saw' : Bool}
      {terminal terminal' : List NeutralStreamEvent}
      → e ≡ e'
      → sent ≡ sent'
      → saw ≡ saw'
      → terminal ≡ terminal'
      → relay_at d e r sent saw terminal ≡ relay_at d e' r sent' saw' terminal'
  same_relay d r he hs hw ht = cc

  -- A relay to a client that stays, once restored events have been dealt with: what may be written
  -- has been, and the terminal events are kept.
  abbrev pub settle : Relay D E → List NeutralStreamEvent → Restorer → Relay D E
  settle s events r =
      let (ms, e) = messages st.encoder s.encoder (non_stops events) in
      relay_at s.decoder e r (s.channel.sent ++ ms)
        (s.saw_error || writes_error st.encoder s.encoder (non_stops events))
        (s.terminal ++ only_stops events)

  pub settle-nil : (s : Relay D E) → s.channel.left ≡ none → settle s [] s.restorer ≡ s
  settle-nil s stays =
      same_relay s.decoder s.restorer refl (append-nil s.channel.sent) (or_false s.saw_error)
        (append-nil s.terminal)
      ∙ ap (λ left. record s { channel = record s.channel { left = left } }) (sym stays)

  pub settle-append :
      (s : Relay D E) (es fs : List NeutralStreamEvent) (r r' : Restorer)
      → settle (settle s es r) fs r' ≡ settle s (es ++ fs) r'
  settle-append s es fs r r' =
      let body = non_stops es in
      let one = messages st.encoder s.encoder body in
      let two = messages st.encoder one.1 (non_stops fs) in
      let split : messages st.encoder s.encoder (non_stops (es ++ fs)) ≡ (one.0 ++ two.0, two.1) =
        ap (messages st.encoder s.encoder) (non_stops-append es fs)
        ∙ messages-append st.encoder s.encoder body (non_stops fs) in
      same_relay s.decoder r' (sym (ap (λ (p : List Text × E). p.1) split))
        (append_assoc s.channel.sent one.0 two.0
          ∙ ap (λ (p : List Text × E). s.channel.sent ++ p.0) (sym split))
        (or_assoc s.saw_error (writes_error st.encoder s.encoder body) _
          ∙ ap (λ b. s.saw_error || b)
              (sym (
                ap (writes_error st.encoder s.encoder) (non_stops-append es fs)
                ∙ writes_error-append st.encoder s.encoder body (non_stops fs))))
        (append_assoc s.terminal (only_stops es) (only_stops fs)
          ∙ ap (λ l. s.terminal ++ l) (sym (only_stops-append es fs)))
