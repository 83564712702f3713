-- ===== src/Sse/Chunks.antt =====
-- How the stream is cut into chunks does not matter.
use mathlib.Core.Path.{subst}
use llmgate.Prelude.{
  ◌+◌, ◌≤◌, ◌≡◌, ◌≢◌, ◌∙◌, refl, sym, ap, inl, inr, List, [], ◌∷◌, ◌++◌, append_assoc, append-nil,
  Text, length, length-append, arith, ltb, ◌==◌, Bool-cases, Option-cases, is_empty, false, text,
  All, All-append,
}
use llmgate.Prelude.Strings.{strip_prefix, strip_suffix}
use llmgate.Sse.Utf8.{is_utf8}
use llmgate.Sse.{
  SseFraming, max_buffer_bytes, clear_event, or_self, end_event, accept_data, add_data, on_line,
  on_byte, drain_lines, make_room, push,
}

-- No line of the buffer is complete.
abbrev pub IsPartial : Text → Type 0
IsPartial line = All (λ b. b ≢ b'\n') line

abbrev with_buffer : Text → SseFraming → SseFraming
with_buffer x f = record f { buffer = x }

-- The lines do not look at the buffer that they are cut from.
module _ (x : Text) (f : SseFraming) where
  add_data-with_buffer :
      (content : Text) → add_data (with_buffer x f) content ≡ with_buffer x (add_data f content)
  unfolding add_data accept_data clear_event
  add_data-with_buffer content = elim (Bool-cases (is_utf8 content)) [
    | inr bad ↦ rw bad
    | inl good ↦
        elim (Bool-cases (ltb max_buffer_bytes (f.data_lines_bytes + (length content + 1)))) [
          | inl over ↦ rw (good, over)
          | inr fits ↦ rw (good, fits)
        ]
  ]

  end_event-with_buffer :
      end_event (with_buffer x f) ≡ ((end_event f).0, with_buffer x (end_event f).1)
  unfolding end_event clear_event
  end_event-with_buffer = elim (Bool-cases (is_empty f.data_lines)) [
    | inl none_yet ↦ rw none_yet
    | inr some_data ↦ rw some_data
  ]

  on_line-with_buffer :
      (line : Text)
      → on_line (with_buffer x f) line ≡ ((on_line f line).0, with_buffer x (on_line f line).1)
  unfolding on_line
  on_line-with_buffer line = elim (Bool-cases (is_empty line)) [
    | inl blank ↦ rw (blank, on_line) end_event-with_buffer
    | inr full ↦ elim (Option-cases (strip_prefix (text "data:") line)) [
      | inl other ↦ rw (full, other, on_line)
      | inr (content, found) ↦
          rw (full, found, on_line)
            (ap (λ (g : SseFraming). ([], g))
              (add_data-with_buffer (or_self content (strip_prefix (text " ") content))))
    ]
  ]

drain_lines-with_buffer :
    (line rest x : Text) (f : SseFraming)
    → drain_lines line rest (with_buffer x f) ≡ drain_lines line rest f
unfolding drain_lines on_byte
drain_lines-with_buffer line [] x f = refl
drain_lines-with_buffer line (b ∷ rest) x f = elim (Bool-cases (b == b'\n')) [
  | inr inside ↦ rw (inside, on_byte) (drain_lines-with_buffer (line ++ b ∷ []) rest x f)
  | inl ends ↦
      let whole = or_self line (strip_suffix (b'\r' ∷ []) line) in
      rw (ends, on_byte, on_line-with_buffer x f whole)
        (ap (λ (r : List Text × SseFraming). ((on_line f whole).0 ++ r.0, r.1))
          (drain_lines-with_buffer [] rest x (on_line f whole).1))
]

-- Draining in two parts.
abbrev pub after :
    List Text × SseFraming → (SseFraming → List Text × SseFraming) → List Text × SseFraming
after (payloads, f) next = let (more, g) = next f in (payloads ++ more, g)

pub drain_lines-append :
    (line s t : Text) (f : SseFraming)
    → drain_lines line (s ++ t) f ≡ after (drain_lines line s f) (λ g. drain_lines g.buffer t g)
unfolding drain_lines
drain_lines-append line [] t f = sym (drain_lines-with_buffer line t line f)
drain_lines-append line (b ∷ s) t f =
    let done = drain_lines (on_byte line b f).0 s (on_byte line b f).2 in
    ap (λ (r : List Text × SseFraming). ((on_byte line b f).1 ++ r.0, r.1))
      (drain_lines-append (on_byte line b f).0 s t (on_byte line b f).2)
    ∙ ap (λ (ps : List Text). (ps, (drain_lines done.1.buffer t done.1).1))
        (sym (append_assoc (on_byte line b f).1 _ _))

-- What is known to hold no newline is passed over.
pub drain_lines-partial :
    (line l t : Text) (f : SseFraming)
    → IsPartial l
    → drain_lines line (l ++ t) f ≡ drain_lines (line ++ l) t f
unfolding drain_lines on_byte
drain_lines-partial line [] t f h = ap (λ u. drain_lines u t f) (sym (append-nil line))
drain_lines-partial line (b ∷ l) t f h =
    let inside : (b == b'\n') ≡ false = ground (arith, h.0) in
    rw (inside, on_byte)
      (drain_lines-partial (line ++ b ∷ []) l t f h.1
        ∙ ap (λ u. drain_lines u t f) (append_assoc line (b ∷ []) l))

-- A line in the making holds no newline.
pub IsPartial-drain_lines :
    (line rest : Text) (f : SseFraming)
    → IsPartial line
    → IsPartial (drain_lines line rest f).1.buffer
unfolding drain_lines on_byte
IsPartial-drain_lines line [] f h = h
IsPartial-drain_lines line (b ∷ rest) f h = elim (Bool-cases (b == b'\n')) [
  | inl ends ↦ rw (ends, on_byte) (IsPartial-drain_lines [] rest _ tt)
  | inr inside ↦
      rw (inside, on_byte)
        (IsPartial-drain_lines (line ++ b ∷ []) rest f
          (All-append (λ c. c ≢ b'\n') line (b ∷ []) h ((λ e. ground arith), tt)))
]

pub length-drain_lines-le :
    (line rest : Text) (f : SseFraming)
    → length (drain_lines line rest f).1.buffer ≤ length line + length rest
unfolding drain_lines on_byte
length-drain_lines-le line [] f = omega arith
length-drain_lines-le line (b ∷ rest) f = elim (Bool-cases (b == b'\n')) [
  | inl ends ↦ rw (ends, on_byte) (omega (arith, length-drain_lines-le [] rest _))
  | inr inside ↦
      rw (inside, on_byte)
        (omega (arith, length-drain_lines-le (line ++ b ∷ []) rest f, length-append line (b ∷ [])))
]

-- A chunk that fits is drained behind what the buffer holds.
pub push_lem :
    (f : SseFraming) (chunk : Text)
    → length f.buffer + length chunk ≤ max_buffer_bytes
    → push f chunk ≡ drain_lines [] (f.buffer ++ chunk) f
unfolding push make_room
push_lem f chunk fits =
    let small : ltb max_buffer_bytes (length chunk) ≡ false = ground arith in
    let room : ltb max_buffer_bytes (length f.buffer + length chunk) ≡ false = ground arith in
    rw (small, room)

-- Two chunks and the two in one.
pub push-append :
    (f : SseFraming) (s t : Text)
    → IsPartial f.buffer
    → length f.buffer + length (s ++ t) ≤ max_buffer_bytes
    → push f (s ++ t) ≡ after (push f s) (λ g. push g t)
push-append f s t partial fits =
    let total : length (s ++ t) ≡ length s + length t = length-append s t in
    let first : push f s ≡ drain_lines [] (f.buffer ++ s) f = push_lem f s (omega arith) in
    let g : SseFraming = (drain_lines [] (f.buffer ++ s) f).1 in
    let size = length-drain_lines-le [] (f.buffer ++ s) f in
    let second : push g t ≡ drain_lines [] (g.buffer ++ t) g =
      push_lem g t (omega (arith, size, length-append f.buffer s)) in
    let whole : IsPartial g.buffer = IsPartial-drain_lines [] (f.buffer ++ s) f tt in
    push_lem f (s ++ t) fits
    ∙ ap (λ u. drain_lines [] u f) (sym (append_assoc f.buffer s t))
    ∙ drain_lines-append [] (f.buffer ++ s) t f
    ∙ ap (λ (r : List Text × SseFraming). ((drain_lines [] (f.buffer ++ s) f).0 ++ r.0, r.1))
        (sym (second ∙ drain_lines-partial [] g.buffer t g whole))
    ∙ ap (λ (r : List Text × SseFraming). after r (λ g. push g t)) (sym first)

-- The chunks of a stream, one after the other.
abbrev pub push_all : SseFraming → List Text → List Text × SseFraming
push_all f [] = ([], f)
push_all f (chunk ∷ chunks) = after (push f chunk) (λ g. push_all g chunks)

abbrev pub concat : List Text → Text
concat [] = []
concat (chunk ∷ chunks) = chunk ++ concat chunks

after_cong :
    (r : List Text × SseFraming) (m n : SseFraming → List Text × SseFraming)
    → m r.1 ≡ n r.1
    → after r m ≡ after r n
after_cong r m n e = ap (λ (q : List Text × SseFraming). (r.0 ++ q.0, q.1)) e

push-nil :
    (f : SseFraming) → IsPartial f.buffer → length f.buffer ≤ max_buffer_bytes → push f [] ≡ ([], f)
unfolding drain_lines
push-nil f partial fits = push_lem f [] (omega arith) ∙ drain_lines-partial [] f.buffer [] f partial

-- However a stretch of the stream is cut into chunks, empty ones included, the payloads and the
-- state left behind are those of the whole stretch in one chunk, as long as the buffered bytes and
-- the stretch together stay within the cap, and the buffer holds no complete line.
pub push_all-concat :
    (f : SseFraming) (chunks : List Text)
    → IsPartial f.buffer
    → length f.buffer + length (concat chunks) ≤ max_buffer_bytes
    → push_all f chunks ≡ push f (concat chunks)
push_all-concat f [] partial fits = sym (push-nil f partial (omega arith))
push_all-concat f (chunk ∷ chunks) partial fits =
    let total : length (chunk ++ concat chunks) ≡ length chunk + length (concat chunks) =
      length-append chunk (concat chunks) in
    let first : push f chunk ≡ drain_lines [] (f.buffer ++ chunk) f =
      push_lem f chunk (omega arith) in
    let left = ap (λ (r : List Text × SseFraming). r.1.buffer) first in
    let size = length-drain_lines-le [] (f.buffer ++ chunk) f in
    after_cong (push f chunk) (λ g. push_all g chunks) (λ g. push g (concat chunks))
      (push_all-concat (push f chunk).1 chunks
        (subst IsPartial (sym left) (IsPartial-drain_lines [] (f.buffer ++ chunk) f tt))
        (omega (arith, size, ap length left, length-append f.buffer chunk)))
    ∙ sym (push-append f chunk (concat chunks) partial fits)
