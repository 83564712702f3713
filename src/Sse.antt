-- ===== src/Sse.antt =====
-- src/core/sse.rs: `SseFraming`, which cuts a stream of byte chunks into event payloads.
pub mod Utf8
pub mod Chunks
pub mod Bounds
pub mod Frames
mod Tests
use llmgate.Prelude.{
  ℕ, ◌+◌, ◌-◌, ◌%◌, ◌^◌, Bool, Option, none, some, List, [], ◌∷◌, ◌++◌, Text, text, is_empty,
  length, take, ltb, ◌==◌, if◌then◌else◌,
}
use llmgate.Prelude.Strings.{strip_prefix, strip_suffix}
use llmgate.Sse.Utf8.{is_utf8, from_utf8_lossy}

-- `MAX_BUFFER_BYTES`
abbrev pub max_buffer_bytes : ℕ
max_buffer_bytes = 67108864

pub record SseFraming : Type 0 where
  pub buffer : Text
  pub data_lines : Text
  pub data_lines_bytes : ℕ
  pub invalid_utf8_lines : ℕ

-- `SseFraming::new`
abbrev pub new_framing : SseFraming
new_framing = record { buffer = []; data_lines = []; data_lines_bytes = 0; invalid_utf8_lines = 0 }

-- `data_lines.clear()` and the count with it.
unfoldable pub clear_event : SseFraming → SseFraming
clear_event f = record f { data_lines = []; data_lines_bytes = 0 }

-- `or_self s (s.strip_prefix(p))`: what `unwrap_or` leaves.
abbrev pub or_self : Text → Option Text → Text
or_self s none = s
or_self s (some t) = t

-- `Vec::pop`, for its effect.
abbrev pub pop : Text → Text
pop d = take (length d - 1) d

-- What a blank line does: it ends the event.
unfoldable pub end_event : SseFraming → List Text × SseFraming
unfolding clear_event
end_event f =
    if is_empty f.data_lines
    then ([], f)
    else (from_utf8_lossy (pop f.data_lines) ∷ [], clear_event f)

-- What the data of a line, known to be UTF-8, does to the event.
unfoldable pub accept_data : SseFraming → Text → SseFraming
unfolding clear_event
accept_data f content =
    let bytes = f.data_lines_bytes + (length content + 1) in
    if ltb max_buffer_bytes bytes
    then clear_event f
    else record f { data_lines = (f.data_lines ++ content) ++ b'\n' ∷ []; data_lines_bytes = bytes }

unfoldable pub add_data : SseFraming → Text → SseFraming
unfolding accept_data
add_data f content =
    if is_utf8 content
    then accept_data f content
    else record f { invalid_utf8_lines = (f.invalid_utf8_lines + 1) % 2 ^ 64 }

-- One line, without its terminator.
unfoldable pub on_line : SseFraming → Text → List Text × SseFraming
unfolding end_event add_data
on_line f line = if is_empty line then end_event f else elim (strip_prefix (text "data:") line) [
  | none ↦ ([], f)
  | some content ↦ ([], add_data f (or_self content (strip_prefix (text " ") content)))
]

-- The loop over the lines: `line` is what the cursor has passed since the last newline, `rest` what
-- is ahead of it. The unconsumed rest of the buffer is left in it.
abbrev pub line_done : List Text × SseFraming → Text × List Text × SseFraming
line_done (payloads, f) = ([], payloads, f)

unfoldable pub on_byte : Text → ℕ → SseFraming → Text × List Text × SseFraming
unfolding on_line
on_byte line b f =
    if b == b'\n'
    then line_done (on_line f (or_self line (strip_suffix (b'\r' ∷ []) line)))
    else (line ++ b ∷ [], [], f)

unfoldable pub drain_lines : Text → Text → SseFraming → List Text × SseFraming
unfolding on_byte
drain_lines line [] f = ([], record f { buffer = line })
drain_lines line (b ∷ rest) f =
    let (line', payloads, f') = on_byte line b f in
    let (more, f'') = drain_lines line' rest f' in (payloads ++ more, f'')

-- The buffer is given up if the chunk would take it past the cap.
unfoldable pub make_room : ℕ → SseFraming → SseFraming
make_room size f =
    if ltb max_buffer_bytes (length f.buffer + size)
    then record f { buffer = []; data_lines = []; data_lines_bytes = 0 }
    else f

-- `SseFraming::push`
unfoldable pub push : SseFraming → Text → List Text × SseFraming
unfolding make_room drain_lines
push f chunk =
    if ltb max_buffer_bytes (length chunk)
    then ([], f)
    else let g = make_room (length chunk) f in drain_lines [] (g.buffer ++ chunk) g

-- `SseFraming::finish`
unfoldable pub finish : SseFraming → List Text × SseFraming
finish f =
    let payloads : List Text =
      if is_empty f.data_lines then [] else from_utf8_lossy (pop f.data_lines) ∷ [] in
    (payloads, record f { buffer = []; data_lines = []; data_lines_bytes = 0 })
