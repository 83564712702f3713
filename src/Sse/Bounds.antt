-- ===== src/Sse/Bounds.antt =====
-- What the framing keeps: memory within the cap, an exact count, and text that is UTF-8.
use llmgate.Prelude.{
  ℕ, ◌+◌, ◌≤◌, ◌<◌, ◌≡◌, ◌∙◌, ◌⊎◌, refl, ap, inl, inr, List, [], ◌∷◌, ◌++◌, Text, length,
  length-append, arith, ltb, ◌==◌, Bool-cases, Option-cases, is_empty, true, false, text, All,
  All-append, take-length-append, take,
}
use llmgate.Prelude.Strings.{strip_prefix, strip_suffix}
use llmgate.Sse.Utf8.{
  is_utf8, from_utf8_lossy, from_utf8_lossy_of_utf8, is_utf8-append, well_formed, follow,
}
use llmgate.Sse.Chunks.{IsPartial, IsPartial-drain_lines, length-drain_lines-le}
use llmgate.Sse.{
  SseFraming, max_buffer_bytes, clear_event, or_self, pop, end_event, accept_data, add_data,
  on_line, on_byte, drain_lines, make_room, push, finish,
}

-- What is collected of an event: nothing, or lines that are UTF-8, each with its separator.
abbrev pub IsEvent : Text → Type 0
IsEvent d = (d ≡ []) ⊎ ((p : Text) × (d ≡ p ++ b'\n' ∷ []) × (is_utf8 p ≡ true))

-- The part of the state that the lines change.
pub record IsCounted (f : SseFraming) : Type 0 where
  pub event : IsEvent f.data_lines
  pub exact : f.data_lines_bytes ≡ length f.data_lines
  pub capped : f.data_lines_bytes ≤ max_buffer_bytes

pub record IsBounded (f : SseFraming) : Type 0 where
  pub counted : IsCounted f
  pub partial : IsPartial f.buffer
  pub held : length f.buffer ≤ max_buffer_bytes

-- What a payload is like.
abbrev pub IsPayload : Text → Type 0
IsPayload p = (is_utf8 p ≡ true) × (length p < max_buffer_bytes)

abbrev nothing : Text → ℕ → SseFraming
nothing buffer n = record {
  buffer = buffer;
  data_lines = [];
  data_lines_bytes = 0;
  invalid_utf8_lines = n;
}

IsCounted-nothing : (buffer : Text) (n : ℕ) → IsCounted (nothing buffer n)
IsCounted-nothing buffer n = record { event = inl refl; exact = refl; capped = omega arith }

IsPayload-of_event :
    (d : Text)
    → IsEvent d
    → length d ≤ max_buffer_bytes
    → is_empty d ≡ false
    → IsPayload (from_utf8_lossy (pop d))
IsPayload-of_event d (inl empty) capped full = cc (ap is_empty empty)
IsPayload-of_event d (inr (p, shape, good)) capped full =
    let size : length d ≡ length p + 1 = ap length shape ∙ length-append p (b'\n' ∷ []) in
    let front : pop d ≡ p =
      ap (λ n. take n d) (omega (arith, size))
      ∙ ap (take (length p)) shape
      ∙ take-length-append p (b'\n' ∷ []) in
    let whole : from_utf8_lossy (pop d) ≡ p =
      ap from_utf8_lossy front ∙ from_utf8_lossy_of_utf8 p good in
    (ap is_utf8 whole ∙ good, omega (arith, ap length whole, size))

-- What one step gives: payloads, and a state that is still counted.
abbrev Keeps : List Text × SseFraming → Type 0
Keeps (payloads, f) = All IsPayload payloads × IsCounted f

is_utf8_event : (d : Text) → IsEvent d → is_utf8 d ≡ true
unfolding is_utf8 well_formed follow
is_utf8_event d (inl empty) = ap is_utf8 empty
is_utf8_event d (inr (p, shape, good)) = ap is_utf8 shape ∙ is_utf8-append p (b'\n' ∷ []) good refl

module _ (f : SseFraming) (counted : IsCounted f) where
  end_event-Keeps : Keeps (end_event f)
  unfolding end_event clear_event
  end_event-Keeps = elim (Bool-cases (is_empty f.data_lines)) [
    | inl none_yet ↦ rw none_yet (tt, counted)
    | inr full ↦ rw full (
      (
        IsPayload-of_event f.data_lines counted.event (omega (arith, counted.exact, counted.capped))
            full,
        tt,
      ),
      IsCounted-nothing f.buffer f.invalid_utf8_lines,
    )
  ]

  accept_data-IsCounted :
      (content : Text) → is_utf8 content ≡ true → IsCounted (accept_data f content)
  unfolding accept_data clear_event
  accept_data-IsCounted content good =
      elim (Bool-cases (ltb max_buffer_bytes (f.data_lines_bytes + (length content + 1)))) [
        | inl over ↦ rw over (IsCounted-nothing f.buffer f.invalid_utf8_lines)
        | inr fits ↦
            let small : f.data_lines_bytes + (length content + 1) ≤ max_buffer_bytes =
              ground arith in
            rw fits (record {
              event = inr (
                f.data_lines ++ content,
                refl,
                is_utf8-append f.data_lines content (is_utf8_event f.data_lines counted.event) good,
              );
              exact = omega (
                arith,
                counted.exact,
                length-append (f.data_lines ++ content) (b'\n' ∷ []),
                length-append f.data_lines content,
              );
              capped = small;
            })
      ]

  add_data-IsCounted : (content : Text) → IsCounted (add_data f content)
  unfolding add_data
  add_data-IsCounted content = elim (Bool-cases (is_utf8 content)) [
    | inl good ↦ rw good (accept_data-IsCounted content good)
    | inr bad ↦
        rw bad (record { event = counted.event; exact = counted.exact; capped = counted.capped })
  ]

  on_line-Keeps : (line : Text) → Keeps (on_line f line)
  unfolding on_line
  on_line-Keeps line = elim (Bool-cases (is_empty line)) [
    | inl blank ↦ rw (blank, on_line) end_event-Keeps
    | inr full ↦ elim (Option-cases (strip_prefix (text "data:") line)) [
      | inl other ↦ rw (full, other, on_line) (tt, counted)
      | inr (content, found) ↦
          rw (full, found, on_line)
            (tt, add_data-IsCounted (or_self content (strip_prefix (text " ") content)))
    ]
  ]

with_buffer-IsCounted :
    (f : SseFraming) (x : Text) → IsCounted f → IsCounted (record f { buffer = x })
with_buffer-IsCounted f x h = record { event = h.event; exact = h.exact; capped = h.capped }

drain_lines-Keeps :
    (line rest : Text) (f : SseFraming) → IsCounted f → Keeps (drain_lines line rest f)
unfolding drain_lines on_byte
drain_lines-Keeps line [] f counted = (tt, with_buffer-IsCounted f line counted)
drain_lines-Keeps line (b ∷ rest) f counted = elim (Bool-cases (b == b'\n')) [
  | inr inside ↦ rw (inside, on_byte) (drain_lines-Keeps (line ++ b ∷ []) rest f counted)
  | inl ends ↦
      let whole = or_self line (strip_suffix (b'\r' ∷ []) line) in
      let step = on_line-Keeps f counted whole in
      let later = drain_lines-Keeps [] rest (on_line f whole).1 step.1 in
      rw (ends, on_byte)
        (
          All-append IsPayload (on_line f whole).0 (drain_lines [] rest (on_line f whole).1).0
              step.0 later.0,
          later.1,
        )
]

make_room-IsBounded :
    (f : SseFraming) (size : ℕ)
    → IsBounded f
    → size ≤ max_buffer_bytes
    → IsBounded (make_room size f) × (length (make_room size f).buffer + size ≤ max_buffer_bytes)
unfolding make_room
make_room-IsBounded f size h small =
    elim (Bool-cases (ltb max_buffer_bytes (length f.buffer + size))) [
      | inl over ↦
          let small' : 0 + size ≤ max_buffer_bytes = omega arith in
          rw over (
            record {
              counted = IsCounted-nothing [] f.invalid_utf8_lines;
              partial = tt;
              held = omega arith;
            },
            small',
          )
      | inr fits ↦ rw fits (h, ground arith)
    ]

-- Whatever bytes an upstream sends in a chunk: what `push` returns is UTF-8 and within the cap, and
-- the state that it leaves keeps both buffers within the cap, its count equal to the bytes that the
-- event has collected, these UTF-8, and no complete line in the buffer.
pub push-IsBounded :
    (f : SseFraming) (chunk : Text)
    → IsBounded f
    → All IsPayload (push f chunk).0 × IsBounded (push f chunk).1
unfolding push
push-IsBounded f chunk h = elim (Bool-cases (ltb max_buffer_bytes (length chunk))) [
  | inl huge ↦ rw huge (tt, h)
  | inr small ↦
      let g = make_room (length chunk) f in
      let (bounded, room) = make_room-IsBounded f (length chunk) h (ground arith) in
      let (payloads, counted) = drain_lines-Keeps [] (g.buffer ++ chunk) g bounded.counted in
      rw (small, push)
        (
          payloads,
          record {
            counted = counted;
            partial = IsPartial-drain_lines [] (g.buffer ++ chunk) g tt;
            held = omega (
              arith,
              room,
              length-drain_lines-le [] (g.buffer ++ chunk) g,
              length-append g.buffer chunk,
            );
          },
        )
]

-- From a bounded state, flushing returns at most one payload, UTF-8 and within the cap; it leaves no
-- partial line, no data line and no held bytes, and of the state before only the count of invalid
-- lines; that state is bounded, and flushing it again returns nothing.
pub finish-IsBounded :
    (f : SseFraming)
    → IsBounded f
    → All IsPayload (finish f).0
      × (length (finish f).0 ≤ 1)
      × ((finish f).1 ≡ record {
        buffer = [];
        data_lines = [];
        data_lines_bytes = 0;
        invalid_utf8_lines = f.invalid_utf8_lines;
      })
      × IsBounded (finish f).1
      × ((finish (finish f).1).0 ≡ [])
unfolding finish
finish-IsBounded f h =
    let flushed : IsBounded (finish f).1 = record {
      counted = IsCounted-nothing [] f.invalid_utf8_lines;
      partial = tt;
      held = omega arith;
    } in
    elim (Bool-cases (is_empty f.data_lines)) [
      | inl none_yet ↦ rw (none_yet, finish) (tt, omega arith, refl, flushed, refl)
      | inr full ↦
          rw (full, finish)
            (
              (
                IsPayload-of_event f.data_lines h.counted.event
                    (omega (arith, h.counted.exact, h.counted.capped)) full,
                tt,
              ),
              omega arith,
              refl,
              flushed,
              refl,
            )
    ]
