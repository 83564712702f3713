-- ===== src/Openai/Encoder/RoundTrip.antt =====
-- The decoder reads back what the encoder writes.
use llmgate.Prelude.{
  ℕ, ◌%◌, ◌^◌, ◌<◌, ◌≡◌, ◌∙◌, refl, sym, ap, inl, inr, true, false, Option, none, some, List, [],
  ◌∷◌, ◌++◌, append_assoc, append-nil, Text, text, text_eq, is_empty, any, arith, ◌==◌,
  if◌then◌else◌, Bool-cases,
}
use llmgate.Neutral.{Value, FinishReason, NeutralUsage, NeutralStreamEvent, as_str}
use llmgate.Json.{array, get, find_field, as_array, str_at, u64_at}
use llmgate.Openai.Decoder.{
  Decoder, Step, new_decoder, parse_finish_reason, parse_tool_call, parse_tool_calls, on_delta,
  note_finish, note_usage, on_choice, opening, feed_value, finish,
}
use llmgate.Openai.Encoder.{Encoder, new_encoder, encode, chunk, choices, call_value, usage_entries}

-- A stream that has started.
abbrev running : List ℕ → Option FinishReason → Option NeutralUsage → Decoder
running seen reason usage = record {
  started = true;
  failed = false;
  stop_emitted = false;
  seen_tool_indices = seen;
  pending_finish = reason;
  pending_usage = usage;
}

module _ (e : Encoder) (seen : List ℕ) where
  text-read :
      (t : Text)
      → is_empty t ≡ false
      → feed_value
          (chunk e (choices ((text "content", Value.string t) ∷ []) Value.null))
          (running seen none none)
        ≡ (NeutralStreamEvent.text_delta t ∷ [], running seen none none)
  unfolding feed_value opening on_choice on_delta note_finish note_usage parse_tool_calls get
      find_field as_array str_at text_eq
  text-read t full = elim (Bool-cases (is_empty e.id)) [
    | inl none_yet ↦ rw (none_yet, full)
    | inr given ↦ rw (given, full)
  ]

  reasoning-read :
      (t : Text)
      → is_empty t ≡ false
      → feed_value
          (chunk e (choices ((text "reasoning_content", Value.string t) ∷ []) Value.null))
          (running seen none none)
        ≡ (NeutralStreamEvent.reasoning_delta t ∷ [], running seen none none)
  unfolding feed_value opening on_choice on_delta note_finish note_usage parse_tool_calls get
      find_field as_array str_at text_eq
  reasoning-read t full = elim (Bool-cases (is_empty e.id)) [
    | inl none_yet ↦ rw (none_yet, full)
    | inr given ↦ rw (given, full)
  ]

  call-read :
      (call : Value) (event : NeutralStreamEvent) (seen' : List ℕ)
      → parse_tool_call call seen ≡ (event, seen')
      → feed_value
          (chunk e (choices ((text "tool_calls", array (call ∷ [])) ∷ []) Value.null))
          (running seen none none)
        ≡ (event ∷ [], running seen' none none)
  unfolding feed_value opening on_choice on_delta note_finish note_usage parse_tool_calls get
      find_field as_array str_at text_eq
  call-read call event seen' h = elim (Bool-cases (is_empty e.id)) [
    | inl none_yet ↦ rw (none_yet, h)
    | inr given ↦ rw (given, h)
  ]

  stop-read :
      (reason : FinishReason) (usage : Option NeutralUsage)
      → feed_value
          (chunk e (choices [] (Value.string (as_str reason)) ++ usage_entries usage))
          (running seen none none)
        ≡ ([], running seen (some (parse_finish_reason (as_str reason))) usage)
  unfolding feed_value opening on_choice on_delta note_finish note_usage parse_tool_calls get
      find_field as_array str_at u64_at text_eq
  stop-read reason none = elim (Bool-cases (is_empty e.id)) [
    | inl none_yet ↦ rw none_yet
    | inr given ↦ rw given
  ]
  stop-read reason (some u) = elim (Bool-cases (is_empty e.id)) [
    | inl none_yet ↦ rw none_yet
    | inr given ↦ rw given
  ]

start-read :
    (id model : Text) (created : ℕ)
    → feed_value
        (chunk
          (record { id = id; model = model; created = created })
          (choices
            ((text "role", Value.string (text "assistant"))
              ∷ (text "content", Value.string [])
              ∷ [])
            Value.null))
        new_decoder
      ≡ (NeutralStreamEvent.message_start id model none ∷ [], running [] none none)
unfolding feed_value opening on_choice on_delta note_finish note_usage parse_tool_calls get
    find_field as_array str_at text_eq
start-read [] model created = refl
start-read (b ∷ id) model created = refl

-- The indices seen once a call's part has been read.
abbrev seen_after : ℕ → List ℕ → List ℕ
seen_after index seen = if any (λ i. i == index) seen then seen else index ∷ seen

abbrev given_once : ℕ → List ℕ → Text → Text
given_once index seen t = if any (λ i. i == index) seen then [] else t

fields-read :
    (index : ℕ) (id name arguments : Text) (seen : List ℕ)
    → parse_tool_call (call_value index id name arguments) seen ≡ (
        if any (λ i. i == index % 2 ^ 32) seen
        then (NeutralStreamEvent.tool_call_delta (index % 2 ^ 32) [] [] arguments, seen)
        else (
          NeutralStreamEvent.tool_call_delta (index % 2 ^ 32) id name arguments,
          (index % 2 ^ 32) ∷ seen,
        ))
unfolding parse_tool_call get find_field str_at u64_at text_eq
fields-read index [] [] [] seen = refl
fields-read index [] [] (c ∷ arguments) seen = refl
fields-read index [] (b ∷ name) [] seen = refl
fields-read index [] (b ∷ name) (c ∷ arguments) seen = refl
fields-read index (a ∷ id) [] [] seen = refl
fields-read index (a ∷ id) [] (c ∷ arguments) seen = refl
fields-read index (a ∷ id) (b ∷ name) [] seen = refl
fields-read index (a ∷ id) (b ∷ name) (c ∷ arguments) seen = refl

parse_tool_call-call_value :
    (index : ℕ) (id name arguments : Text) (seen : List ℕ)
    → index < 2 ^ 32
    → parse_tool_call (call_value index id name arguments) seen ≡ (
      NeutralStreamEvent.tool_call_delta index
          (given_once index seen id)
          (given_once index seen name)
          arguments,
      seen_after index seen,
    )
parse_tool_call-call_value index id name arguments seen small =
    let whole : index % 2 ^ 32 ≡ index = omega arith in
    fields-read index id name arguments seen ∙ elim (Bool-cases (any (λ i. i == index) seen)) [
      | inl known ↦ rw (whole, known)
      | inr new ↦ rw (whole, new)
    ]

-- What may stand between the start and the stop of a stream: texts and thoughts that are not empty,
-- and parts of tool calls, of which the first alone gives an id and a name. Signatures are not among
-- these, since the protocol has none. The lists are the indices of the calls seen before and after.
pub data Body : List ℕ → List NeutralStreamEvent → List ℕ → Type 0 where
  nil : (seen : List ℕ) → Body seen [] seen
  text_part :
      (t : Text) {seen seen' : List ℕ} {es : List NeutralStreamEvent}
      → is_empty t ≡ false
      → Body seen es seen'
      → Body seen (NeutralStreamEvent.text_delta t ∷ es) seen'
  reasoning_part :
      (t : Text) {seen seen' : List ℕ} {es : List NeutralStreamEvent}
      → is_empty t ≡ false
      → Body seen es seen'
      → Body seen (NeutralStreamEvent.reasoning_delta t ∷ es) seen'
  call_part :
      (index : ℕ) (id name arguments : Text) {seen seen' : List ℕ} {es : List NeutralStreamEvent}
      → index < 2 ^ 32
      → given_once index seen id ≡ id
      → given_once index seen name ≡ name
      → Body (seen_after index seen) es seen'
      → Body seen (NeutralStreamEvent.tool_call_delta index id name arguments ∷ es) seen'

-- Events encoded one after the other, and objects decoded one after the other.
abbrev pub encode_all : Encoder → List NeutralStreamEvent → List Value × Encoder
encode_all e [] = ([], e)
encode_all e (event ∷ events) =
    let (values, e') = encode e event in
    let (more, e'') = encode_all e' events in (values ++ more, e'')

abbrev pub feed_values : Decoder → List Value → Step
feed_values d [] = ([], d)
feed_values d (v ∷ vs) =
    let (events, d') = feed_value v d in
    let (more, d'') = feed_values d' vs in (events ++ more, d'')

-- A step, and what comes after it.
abbrev then_feed : Step → List Value → Step
then_feed r vs = (r.0 ++ (feed_values r.1 vs).0, (feed_values r.1 vs).1)

feed_values-append :
    (d : Decoder) (vs ws : List Value) → feed_values d (vs ++ ws) ≡ then_feed (feed_values d vs) ws
feed_values-append d [] ws = refl
feed_values-append d (v ∷ vs) ws =
    let one = feed_value v d in
    let done = feed_values one.1 vs in
    ap (λ (r : Step). (one.0 ++ r.0, r.1)) (feed_values-append one.1 vs ws)
    ∙ ap (λ (es : List NeutralStreamEvent). (es, (feed_values done.1 ws).1))
        (sym (append_assoc one.0 done.0 (feed_values done.1 ws).0))

encode_all-append :
    (e : Encoder) (es fs : List NeutralStreamEvent)
    → (encode_all e (es ++ fs)).0 ≡ (encode_all e es).0 ++ (encode_all (encode_all e es).1 fs).0
encode_all-append e [] fs = refl
encode_all-append e (event ∷ es) fs =
    let one = encode e event in
    ap (λ (vs : List Value). one.0 ++ vs) (encode_all-append one.1 es fs)
    ∙ sym (append_assoc one.0 (encode_all one.1 es).0 (encode_all (encode_all one.1 es).1 fs).0)

-- What the body is read back as, and that it leaves the encoder as it is.
record ReadBack (e : Encoder) (seen : List ℕ) (es : List NeutralStreamEvent) (seen' : List ℕ)
    : Type 0 where
  read : feed_values (running seen none none) (encode_all e es).0 ≡ (es, running seen' none none)
  same : (encode_all e es).1 ≡ e

-- An event that is one object, which is read back as the event.
one_more :
    (e : Encoder) (event : NeutralStreamEvent) (v : Value) (seen mid seen' : List ℕ)
    (es : List NeutralStreamEvent)
    → encode e event ≡ (v ∷ [], e)
    → feed_value v (running seen none none) ≡ (event ∷ [], running mid none none)
    → ReadBack e mid es seen'
    → ReadBack e seen (event ∷ es) seen'
one_more e event v seen mid seen' es written here later = record {
  read =
      ap
        (λ (r : List Value × Encoder).
          feed_values (running seen none none) (r.0 ++ (encode_all r.1 es).0))
        written
      ∙ ap (λ (r : Step). then_feed r (encode_all e es).0) here
      ∙ ap (λ (r : Step). (event ∷ r.0, r.1)) later.read;
  same = ap (λ (r : List Value × Encoder). (encode_all r.1 es).1) written ∙ later.same;
}

Body-ReadBack :
    (e : Encoder) {seen seen' : List ℕ} {es : List NeutralStreamEvent}
    → Body seen es seen'
    → ReadBack e seen es seen'
unfolding encode
Body-ReadBack e (nil seen) = record { read = refl; same = refl }
Body-ReadBack e (text_part t {seen} {seen'} {es} full rest) =
    one_more e (NeutralStreamEvent.text_delta t) _ seen seen seen' es refl (text-read e seen t full)
      (Body-ReadBack e rest)
Body-ReadBack e (reasoning_part t {seen} {seen'} {es} full rest) =
    one_more e (NeutralStreamEvent.reasoning_delta t) _ seen seen seen' es refl
      (reasoning-read e seen t full) (Body-ReadBack e rest)
Body-ReadBack e (call_part index id name arguments {seen} {seen'} {es} small once once' rest) =
    one_more e (NeutralStreamEvent.tool_call_delta index id name arguments) _ seen
      (seen_after index seen) seen' es refl
      (call-read e seen (call_value index id name arguments)
        (NeutralStreamEvent.tool_call_delta index id name arguments) (seen_after index seen)
        (parse_tool_call-call_value index id name arguments seen small
          ∙ ap
              (λ t. (
                NeutralStreamEvent.tool_call_delta index t (given_once index seen name) arguments,
                seen_after index seen,
              ))
              once
          ∙ ap
              (λ t.
                (NeutralStreamEvent.tool_call_delta index id t arguments, seen_after index seen))
              once'))
      (Body-ReadBack e rest)

-- A whole stream, with the usage that its start is given.
abbrev pub stream_of :
    Text
    → Text
    → Option NeutralUsage
    → List NeutralStreamEvent
    → FinishReason
    → Option NeutralUsage
    → List NeutralStreamEvent
stream_of id model at_start body reason usage =
    NeutralStreamEvent.message_start id model at_start
    ∷ (body ++ NeutralStreamEvent.message_stop reason usage ∷ [])

abbrev flushed : Step → List NeutralStreamEvent
flushed (es, d) = es ++ (finish d).0

abbrev pub decode_values : List Value → List NeutralStreamEvent
decode_values vs = flushed (feed_values new_decoder vs)

-- For a stream that, between its start and its stop, has only texts and thoughts that are not empty,
-- and parts of tool calls with an index below 2 ^ 32 of which only the first part of a call gives an
-- id or a name, so no signature of a thought and no error, and whose finish reason is the one that
-- its name is parsed as: the objects that the encoder writes for it are decoded as that stream again,
-- with its id, its model, each text, thought and part of a tool call in order, the finish reason and
-- the usage at its end, but without the usage at its start.
pub decode_values-encode_all :
    (created : ℕ) (id model : Text) (at_start : Option NeutralUsage) {seen : List ℕ}
    {body : List NeutralStreamEvent} (reason : FinishReason) (usage : Option NeutralUsage)
    → Body [] body seen
    → parse_finish_reason (as_str reason) ≡ reason
    → decode_values
        (encode_all (new_encoder created) (stream_of id model at_start body reason usage)).0
      ≡ stream_of id model none body reason usage
unfolding encode finish
decode_values-encode_all created id model at_start {seen} {body} reason usage parts named =
    let e : Encoder = record { id = id; model = model; created = created } in
    let stop = NeutralStreamEvent.message_stop reason usage in
    let back = Body-ReadBack e parts in
    let ended = running seen (some (parse_finish_reason (as_str reason))) usage in
    let tail : feed_values (running [] none none) (encode_all e (body ++ stop ∷ [])).0
        ≡ (body, ended) =
      ap (λ (vs : List Value). feed_values (running [] none none) vs)
        (encode_all-append e body (stop ∷ []))
      ∙ feed_values-append (running [] none none) (encode_all e body).0 _
      ∙ ap (λ (r : Step). then_feed r (encode_all (encode_all e body).1 (stop ∷ [])).0) back.read
      ∙ ap (λ (f : Encoder). then_feed (body, running seen none none) (encode_all f (stop ∷ [])).0)
          back.same
      ∙ ap (λ (r : Step). (body ++ (r.0 ++ []), r.1)) (stop-read e seen reason usage)
      ∙ ap (λ (es : List NeutralStreamEvent). (es, ended)) (append-nil body) in
    ap (λ (r : Step). flushed (then_feed r (encode_all e (body ++ stop ∷ [])).0))
      (start-read id model created)
    ∙ ap (λ (r : Step). flushed (NeutralStreamEvent.message_start id model none ∷ r.0, r.1)) tail
    ∙ ap
        (λ (r : FinishReason).
          NeutralStreamEvent.message_start id model none
          ∷ (body ++ NeutralStreamEvent.message_stop r usage ∷ []))
        named
