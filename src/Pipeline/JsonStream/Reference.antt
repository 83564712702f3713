-- ===== src/Pipeline/JsonStream/Reference.antt =====
-- The fallback writes what the relay writes for the same events.
use llmgate.Prelude.{
  ◌≡◌, ◌∙◌, refl, sym, ap, Bool, true, false, not, ◌&&◌, ◌||◌, Option, none, some, List, [], ◌∷◌,
  ◌++◌, append_assoc, append-nil, Bool-cases, inl, inr, Text, if◌then◌else◌,
}
use llmgate.Neutral.{NeutralStreamEvent}
use llmgate.Sse.Chunks.{concat}
use llmgate.Pipeline.Channel.{no_lines}
use llmgate.Pipeline.Relay.{Stages, Restorer, is_message_stop, is_error, restore, restorer_finish}
use llmgate.Pipeline.Relay.Reference.{
  non_stops, non_stops-append, only_stops, only_stops-append, messages, writes_error,
  writes_error-append, restore_all, listed, joined, or_false,
}
use llmgate.Pipeline.Relay.Outcome.{Stream, written}
use llmgate.Pipeline.JsonStream.{
  Fallback, put_restored, put_events, put_plainly, write_body, extend_lines, begin, push_done,
}

pub concat-append : (ls ms : List Text) → concat (ls ++ ms) ≡ concat ls ++ concat ms
concat-append [] ms = refl
concat-append (l ∷ ls) ms =
    ap (λ t. l ++ t) (concat-append ls ms) ∙ sym (append_assoc l (concat ls) (concat ms))

concat-joined : (ls : List Text) → concat (joined ls) ≡ concat ls
concat-joined [] = refl
concat-joined (l ∷ ls) = append-nil (l ++ concat ls)

module _ {D : Type 0} {E : Type 0} (st : Stages D E) where
  -- The lines of events, one after the other.
  abbrev lines_for : E → List NeutralStreamEvent → List Text × E
  lines_for e [] = ([], e)
  lines_for e (event ∷ events) =
      let (lines, e') = st.encoder.encode e event in
      let (more, e'') = lines_for e' events in (lines ++ more, e'')

  lines_for-messages :
      (e : E) (events : List NeutralStreamEvent)
      → (concat (lines_for e events).0 ≡ concat (messages st.encoder e events).0)
        × ((lines_for e events).1 ≡ (messages st.encoder e events).1)
  lines_for-messages e [] = (refl, refl)
  lines_for-messages e (event ∷ events) =
      let one = st.encoder.encode e event in
      let later = lines_for-messages one.1 events in
      (
        concat-append one.0 (lines_for one.1 events).0
            ∙ ap (λ t. concat one.0 ++ t) later.0
            ∙ ap (λ t. t ++ concat (messages st.encoder one.1 events).0) (sym (concat-joined one.0))
            ∙ sym (concat-append (joined one.0) (messages st.encoder one.1 events).0),
        later.1,
      )

  abbrev fallback_at : E → Restorer → List Text → Bool → List NeutralStreamEvent → Fallback E
  fallback_at e r lines saw terminal = record {
    encoder = e;
    restorer = r;
    lines = lines;
    saw_error = saw;
    terminal = terminal;
  }

  same_fallback :
      {e e' : E} (r : Restorer) {lines lines' : List Text} {saw saw' : Bool}
      {terminal terminal' : List NeutralStreamEvent}
      → e ≡ e'
      → lines ≡ lines'
      → saw ≡ saw'
      → terminal ≡ terminal'
      → fallback_at e r lines saw terminal ≡ fallback_at e' r lines' saw' terminal'
  same_fallback r he hs hw ht = cc

  put_plainly-lines :
      (events : List NeutralStreamEvent) (s : Fallback E)
      → put_plainly st events s ≡ record s {
        encoder = (lines_for s.encoder events).1;
        lines = s.lines ++ (lines_for s.encoder events).0;
      }
  unfolding put_plainly
  put_plainly-lines [] s =
      ap (λ (lines : List Text). record s { lines = lines }) (sym (append-nil s.lines))
  put_plainly-lines (event ∷ events) s =
      let one = st.encoder.encode s.encoder event in
      let later = lines_for one.1 events in
      put_plainly-lines events (extend_lines st event s)
      ∙ ap (λ (lines : List Text). record s { encoder = later.1; lines = lines })
          (append_assoc s.lines one.0 later.0)

  -- The state once restored events have been put.
  abbrev put : Fallback E → List NeutralStreamEvent → Restorer → Fallback E
  put s events r =
      let (lines, e) = lines_for s.encoder (non_stops events) in
      fallback_at e r (s.lines ++ lines)
        (s.saw_error || writes_error st.encoder s.encoder (non_stops events))
        (s.terminal ++ only_stops events)

  put_restored-put :
      (out : Option NeutralStreamEvent) (r : Restorer) (s : Fallback E)
      → put_restored st (out, r) s ≡ put s (listed out) r
  put_restored-put none r s =
      same_fallback r refl (sym (append-nil s.lines)) (sym (or_false s.saw_error))
        (sym (append-nil s.terminal))
  put_restored-put (some event) r s = elim (Bool-cases (is_message_stop event)) [
    | inl stop ↦
        rw stop (same_fallback r refl (sym (append-nil s.lines)) (sym (or_false s.saw_error)) refl)
    | inr other ↦
        let one = st.encoder.encode s.encoder event in
        rw other (
          same_fallback r refl (ap (λ ls. s.lines ++ ls) (sym (append-nil one.0)))
            (ap (λ b. s.saw_error || b) (sym (or_false (is_error event && not (no_lines one.0)))))
            (sym (append-nil s.terminal)))
  ]

  lines_for-append :
      (e : E) (es fs : List NeutralStreamEvent)
      → lines_for e (es ++ fs) ≡ (
        (lines_for e es).0 ++ (lines_for (lines_for e es).1 fs).0,
        (lines_for (lines_for e es).1 fs).1,
      )
  lines_for-append e [] fs = refl
  lines_for-append e (event ∷ es) fs =
      let one = st.encoder.encode e event in
      let here = lines_for one.1 es in
      let later = lines_for here.1 fs in
      ap (λ (r : List Text × E). (one.0 ++ r.0, r.1)) (lines_for-append one.1 es fs)
      ∙ ap (λ (ls : List Text). (ls, later.1)) (sym (append_assoc one.0 here.0 later.0))

  or_assoc : (a b c : Bool) → (a || b) || c ≡ a || (b || c)
  or_assoc true b c = refl
  or_assoc false b c = refl

  put-append :
      (s : Fallback E) (es fs : List NeutralStreamEvent) (r r' : Restorer)
      → put (put s es r) fs r' ≡ put s (es ++ fs) r'
  put-append s es fs r r' =
      let one = lines_for s.encoder (non_stops es) in
      let two = lines_for one.1 (non_stops fs) in
      let split : lines_for s.encoder (non_stops (es ++ fs)) ≡ (one.0 ++ two.0, two.1) =
        ap (lines_for s.encoder) (non_stops-append es fs)
        ∙ lines_for-append s.encoder (non_stops es) (non_stops fs) in
      let bad = writes_error st.encoder s.encoder (non_stops es) in
      same_fallback r' (sym (ap (λ (p : List Text × E). p.1) split))
        (append_assoc s.lines one.0 two.0 ∙ ap (λ (p : List Text × E). s.lines ++ p.0) (sym split))
        (or_assoc s.saw_error bad _
          ∙ ap (λ e. s.saw_error || (bad || writes_error st.encoder e (non_stops fs)))
              (lines_for-messages s.encoder (non_stops es)).1
          ∙ ap (λ b. s.saw_error || b)
              (sym (
                ap (writes_error st.encoder s.encoder) (non_stops-append es fs)
                ∙ writes_error-append st.encoder s.encoder (non_stops es) (non_stops fs))))
        (append_assoc s.terminal (only_stops es) (only_stops fs)
          ∙ ap (λ l. s.terminal ++ l) (sym (only_stops-append es fs)))

  put_events-put :
      (events : List NeutralStreamEvent) (s : Fallback E)
      → put_events st events s
        ≡ put s (restore_all st s.restorer events).0 (restore_all st s.restorer events).1
  unfolding put_events
  put_events-put [] s =
      same_fallback s.restorer refl (sym (append-nil s.lines)) (sym (or_false s.saw_error))
        (sym (append-nil s.terminal))
  put_events-put (event ∷ events) s =
      let one = restore st s.restorer event in
      let rest = restore_all st one.1 events in
      ap (put_events st events) (put_restored-put one.0 one.1 s)
      ∙ put_events-put events (put s (listed one.0) one.1)
      ∙ put-append s (listed one.0) rest.0 one.1 rest.1

  -- The events of the body, as the reference of the relay sees a stream.
  abbrev pub stream_of_body : Restorer → List NeutralStreamEvent → Stream
  stream_of_body restorer events =
      let (restored, r) = restore_all st restorer events in
      record {
        events = restored;
        held = (restorer_finish st r).0;
        failed = false;
        wrong = writes_error st.encoder st.encoder.start (non_stops restored);
      }

  concat-push_done :
      (done : Text) (lines : List Text) → concat (push_done st done lines) ≡ concat lines ++ done
  concat-push_done [] lines = sym (append-nil (concat lines))
  concat-push_done (b ∷ done) lines =
      concat-append lines ((b ∷ done) ∷ []) ∙ ap (λ t. concat lines ++ t) (append-nil (b ∷ done))

  -- A body that came without the stream's framing is written as the relay writes a stream with the
  -- same events: the content, restored, then the held tail, then the terminal events, then the line
  -- at the end, unless an error has been written.
  pub write_body-written :
      (restorer : Restorer) (events : List NeutralStreamEvent)
      → write_body st restorer events ≡ concat (written st (stream_of_body restorer events))
  unfolding write_body
  write_body-written restorer events =
      let restored = restore_all st restorer events in
      let held = (restorer_finish st restored.1).0 in
      let body = non_stops restored.0 ++ held in
      let terminal = only_stops restored.0 in
      let start = st.encoder.start in
      let one = lines_for start (non_stops restored.0) in
      let two = lines_for one.1 held in
      let three = lines_for two.1 terminal in
      let lines : List Text = (one.0 ++ two.0) ++ three.0 in
      let ms = messages st.encoder start (body ++ terminal) in
      let wrong = writes_error st.encoder start (non_stops restored.0) in
      let parts : lines_for start (body ++ terminal) ≡ (lines, three.1) =
        lines_for-append start body terminal
        ∙ ap
            (λ (p : List Text × E). (p.0 ++ (lines_for p.1 terminal).0, (lines_for p.1 terminal).1))
            (lines_for-append start (non_stops restored.0) held) in
      let same = lines_for-messages start (body ++ terminal) in
      let text_same : concat lines ≡ concat ms.0 =
        ap (λ (p : List Text × E). concat p.0) (sym parts) ∙ same.0 in
      let end_same : three.1 ≡ ms.1 = ap (λ (p : List Text × E). p.1) (sym parts) ∙ same.1 in
      let put_done : Fallback E → Text = λ s.
        concat
          (if s.saw_error then s.lines else push_done st (st.encoder.done s.encoder) s.lines) in
      let finished : write_body st restorer events
          ≡ concat (if wrong then lines else push_done st (st.encoder.done three.1) lines) =
        ap
          (λ (s : Fallback E).
            put_done
              (put_plainly st s.terminal (put_plainly st (restorer_finish st s.restorer).0 s)))
          (put_events-put events (begin st restorer))
        ∙ ap (λ (s : Fallback E). put_done (put_plainly st terminal s))
            (put_plainly-lines held (put (begin st restorer) restored.0 restored.1))
        ∙ ap put_done (put_plainly-lines terminal _) in
      finished ∙ elim (Bool-cases wrong) [
        | inl bad ↦ rw bad (text_same ∙ ap concat (sym (append-nil ms.0)))
        | inr fine ↦ rw fine (
            concat-push_done (st.encoder.done three.1) lines
            ∙ ap (λ t. t ++ st.encoder.done three.1) text_same
            ∙ ap (λ e. concat ms.0 ++ st.encoder.done e) end_same
            ∙ ap (λ t. concat ms.0 ++ t) (sym (append-nil (st.encoder.done ms.1)))
            ∙ sym (concat-append ms.0 (st.encoder.done ms.1 ∷ [])))
      ]
