-- ===== src/Sse/Frames.antt =====
-- The framing reads back what a server writes as `data: <payload>` and a blank line.
use mathlib.Core.Path.{subst}
use llmgate.Prelude.{
  is_empty, ℕ, ◌+◌, ◌-◌, ◌≤◌, ◌<◌, ◌≡◌, ◌≢◌, ◌∙◌, refl, sym, ap, inl, inr, List, [], ◌∷◌, ◌++◌,
  append_assoc, Text, map, length, length-append, arith, ltb, Bool-cases, true, false, text, All,
  All-append, All-append_right, All_mono, take-length-append, take,
}
use llmgate.Prelude.Strings.{strip_prefix, strip_suffix, ends_with, append_of_ends_with}
use llmgate.Sse.Utf8.{is_utf8, from_utf8_lossy, from_utf8_lossy_of_utf8}
use llmgate.Sse.Chunks.{push_all, concat, push_all-concat, push_lem, drain_lines-partial}
use llmgate.Sse.{
  SseFraming, max_buffer_bytes, clear_event, or_self, pop, end_event, accept_data, add_data,
  on_line, on_byte, drain_lines,
}

-- Text with no line break in it, as JSON is when it is printed on one line.
abbrev pub IsPlain : ℕ → Type 0
IsPlain b = (b ≢ b'\n') × (b ≢ b'\r')

pub record IsLine (p : Text) : Type 0 where
  pub plain : All IsPlain p
  pub good : is_utf8 p ≡ true
  pub fits : length p < max_buffer_bytes

-- `data: <payload>` and a blank line.
abbrev pub frame : Text → Text
frame p = text "data: " ++ (p ++ b'\n' ∷ b'\n' ∷ [])

-- A line that does not end in `\r` is taken as it is.
keeps_line : (line : Text) → All IsPlain line → or_self line (strip_suffix (b'\r' ∷ []) line) ≡ line
unfolding strip_suffix
keeps_line line plain = elim (Bool-cases (ends_with (b'\r' ∷ []) line)) [
  | inr plain_end ↦ rw plain_end
  | inl hit ↦
      let e = append_of_ends_with (b'\r' ∷ []) line hit in
      let front = take (length line - 1) line in
      absurd ((All-append_right IsPlain front (b'\r' ∷ []) (subst (All IsPlain) e plain)).0.1 refl)
]

-- A newline behind a line.
drain_lines-newline :
    (line rest : Text) (f : SseFraming)
    → All IsPlain line
    → drain_lines line (b'\n' ∷ rest) f ≡ (
      (on_line f line).0 ++ (drain_lines [] rest (on_line f line).1).0,
      (drain_lines [] rest (on_line f line).1).1,
    )
unfolding drain_lines on_byte
drain_lines-newline line rest f plain = rw (keeps_line line plain)

abbrev collecting : ℕ → Text → SseFraming
collecting n p = record {
  buffer = [];
  data_lines = p ++ b'\n' ∷ [];
  data_lines_bytes = 0 + (length p + 1);
  invalid_utf8_lines = n;
}

-- No event is open and nothing is buffered.
abbrev pub idle : ℕ → SseFraming
idle n = record { buffer = []; data_lines = []; data_lines_bytes = 0; invalid_utf8_lines = n }

-- The line with the payload opens the event, the blank line ends it.
on_line-data :
    (n : ℕ) (p : Text) → IsLine p → on_line (idle n) (text "data: " ++ p) ≡ ([], collecting n p)
unfolding on_line add_data accept_data strip_prefix
on_line-data n p line =
    let small : ltb max_buffer_bytes (0 + (length p + 1)) ≡ false = ground (arith, line.fits) in
    rw (line.good, accept_data, small)

is_empty-snoc : (p : Text) (b : ℕ) → is_empty (p ++ b ∷ []) ≡ false
is_empty-snoc [] b = refl
is_empty-snoc (c ∷ p) b = refl

on_line-blank : (n : ℕ) (p : Text) → IsLine p → on_line (collecting n p) [] ≡ (p ∷ [], idle n)
unfolding on_line end_event clear_event
on_line-blank n p line =
    let size : length (p ++ b'\n' ∷ []) - 1 ≡ length p =
      omega (arith, length-append p (b'\n' ∷ [])) in
    let front : pop (p ++ b'\n' ∷ []) ≡ p =
      ap (λ n. take n (p ++ b'\n' ∷ [])) size ∙ take-length-append p (b'\n' ∷ []) in
    rw (is_empty-snoc p b'\n')
      (ap (λ t. (t ∷ [], idle n)) (ap from_utf8_lossy front ∙ from_utf8_lossy_of_utf8 p line.good))

pub IsPlain-of : (b : ℕ) → b'\r' < b → IsPlain b
IsPlain-of b h = (λ e. omega arith, λ e. omega arith)

drain_lines-frame :
    (n : ℕ) (p rest : Text)
    → IsLine p
    → drain_lines [] (frame p ++ rest) (idle n)
      ≡ (p ∷ (drain_lines [] rest (idle n)).0, (drain_lines [] rest (idle n)).1)
drain_lines-frame n p rest line =
    let whole : Text = text "data: " ++ p in
    let split : frame p ++ rest ≡ whole ++ b'\n' ∷ b'\n' ∷ rest =
      ap (λ u. u ++ rest) (sym (append_assoc (text "data: ") p (b'\n' ∷ b'\n' ∷ [])))
      ∙ append_assoc whole (b'\n' ∷ b'\n' ∷ []) rest in
    let label : All IsPlain (text "data: ") = (
      IsPlain-of 100 (omega arith),
      (
        IsPlain-of 97 (omega arith),
        (
          IsPlain-of 116 (omega arith),
          (
            IsPlain-of 97 (omega arith),
            (IsPlain-of 58 (omega arith), (IsPlain-of 32 (omega arith), tt)),
          ),
        ),
      ),
    ) in
    let plain : All IsPlain whole = All-append IsPlain (text "data: ") p label line.plain in
    let inside : All (λ b. b ≢ b'\n') whole =
      All_mono IsPlain (λ b. b ≢ b'\n') (λ b h. h.0) whole plain in
    let first = on_line-data n p line in
    let second = on_line-blank n p line in
    ap (λ u. drain_lines [] u (idle n)) split
    ∙ drain_lines-partial [] whole (b'\n' ∷ b'\n' ∷ rest) (idle n) inside
    ∙ drain_lines-newline whole (b'\n' ∷ rest) (idle n) plain
    ∙ ap
        (λ (r : List Text × SseFraming).
          (r.0 ++ (drain_lines [] (b'\n' ∷ rest) r.1).0, (drain_lines [] (b'\n' ∷ rest) r.1).1))
        first
    ∙ drain_lines-newline [] rest (collecting n p) tt
    ∙ ap
        (λ (r : List Text × SseFraming).
          (r.0 ++ (drain_lines [] rest r.1).0, (drain_lines [] rest r.1).1))
        second

drain_lines-frames :
    (n : ℕ) (ps : List Text)
    → All IsLine ps
    → drain_lines [] (concat (map frame ps)) (idle n) ≡ (ps, idle n)
unfolding drain_lines
drain_lines-frames n [] lines = refl
drain_lines-frames n (p ∷ ps) (line, lines) =
    drain_lines-frame n p (concat (map frame ps)) line
    ∙ ap (λ (r : List Text × SseFraming). (p ∷ r.0, r.1)) (drain_lines-frames n ps lines)

-- Payloads that are UTF-8 with no line break, each written as a `data:` line and a blank line, are
-- read back in order, and nothing else is, however the stream of these events is cut into chunks;
-- the state is again the one between events. The stream may have up to 64 MiB.
pub push_all-frame :
    (n : ℕ) (ps chunks : List Text)
    → All IsLine ps
    → concat chunks ≡ concat (map frame ps)
    → length (concat chunks) ≤ max_buffer_bytes
    → push_all (idle n) chunks ≡ (ps, idle n)
push_all-frame n ps chunks lines cut fits =
    push_all-concat (idle n) chunks tt (omega arith)
    ∙ push_lem (idle n) (concat chunks) (omega arith)
    ∙ ap (λ u. drain_lines [] u (idle n)) cut
    ∙ drain_lines-frames n ps lines
