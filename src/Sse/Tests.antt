-- ===== src/Sse/Tests.antt =====
-- Runs of the framing, and the theorems at them.
use llmgate.Prelude.{
  ◌≤◌, ◌<◌, inl, ◌≡◌, refl, List, [], ◌∷◌, ◌++◌, Text, text, text_eq, length, arith, All, map, take,
  drop, all, ltb, true,
}
use llmgate.Prelude.Strings.{strip_prefix, strip_suffix, ends_with}
use llmgate.Sse.Utf8.{is_utf8, from_utf8_lossy, well_formed, follow, lossy}
use llmgate.Sse.Chunks.{concat, push_all, push_all-concat}
use llmgate.Sse.Bounds.{IsBounded, IsPayload, push-IsBounded, finish-IsBounded}
use llmgate.Sse.Frames.{IsPlain, IsLine, frame, idle, push_all-frame}
use llmgate.Sse.{
  SseFraming, new_framing, push, finish, make_room, drain_lines, on_byte, on_line, end_event,
  add_data, accept_data, clear_event,
}

-- What a run unfolds.
guard : Unit {0}
unfolding push finish make_room drain_lines on_byte on_line end_event add_data accept_data
    clear_event is_utf8 from_utf8_lossy well_formed follow lossy strip_prefix strip_suffix ends_with
    text_eq
guard = tt

abbrev newline : Text
newline = b'\n' ∷ []

-- Two lines, the second not yet complete.
abbrev collected : SseFraming
collected = (push new_framing (text "data: ab" ++ newline ++ text "da")).1

collecting : collected ≡ record {
  buffer = text "da";
  data_lines = text "ab" ++ newline;
  data_lines_bytes = 3;
  invalid_utf8_lines = 0;
}
unfolding guard
collecting = refl

two_lines :
    (push collected (text "ta:c" ++ newline ++ newline)).0 ≡ (text "ab" ++ newline ++ text "c") ∷ []
unfolding guard
two_lines = refl

new_framing-IsBounded : IsBounded new_framing
new_framing-IsBounded = record {
  counted = record { event = inl refl; exact = refl; capped = omega arith };
  partial = tt;
  held = omega arith;
}

push-IsBounded_example :
    All IsPayload (push new_framing (text "data: ab" ++ newline ++ text "da")).0
    × IsBounded collected
push-IsBounded_example =
    push-IsBounded new_framing (text "data: ab" ++ newline ++ text "da") new_framing-IsBounded

finish-IsBounded_example :
    All IsPayload (finish collected).0
    × (length (finish collected).0 ≤ 1)
    × ((finish collected).1 ≡ record {
      buffer = [];
      data_lines = [];
      data_lines_bytes = 0;
      invalid_utf8_lines = collected.invalid_utf8_lines;
    })
    × IsBounded (finish collected).1
    × ((finish (finish collected).1).0 ≡ [])
finish-IsBounded_example = finish-IsBounded collected push-IsBounded_example.1

push_all-concat_example :
    push_all collected (text "ta:" ∷ text "c" ∷ newline ∷ newline ∷ [])
    ≡ push collected (text "ta:c" ++ newline ++ newline)
unfolding guard
push_all-concat_example =
    push_all-concat collected (text "ta:" ∷ text "c" ∷ newline ∷ newline ∷ [])
      push-IsBounded_example.1.partial (omega arith)

abbrev events : List Text
events = text "{\"a\":1}" ∷ text "[DONE]" ∷ []

abbrev stream : Text
stream = concat (map frame events)

IsPlain-of_all : (t : Text) → all (ltb b'\r') t ≡ true → All IsPlain t
IsPlain-of_all [] h = tt
IsPlain-of_all (b ∷ t) h =
    let high : b'\r' < b = ground arith in
    ((λ e. omega arith, λ e. omega arith), IsPlain-of_all t (ground arith))

lines : All IsLine events
unfolding guard
lines = (
  record { plain = IsPlain-of_all (text "{\"a\":1}") refl; good = refl; fits = omega arith },
  (record { plain = IsPlain-of_all (text "[DONE]") refl; good = refl; fits = omega arith }, tt),
)

push_all-frame_example : push_all (idle 0) (take 9 stream ∷ drop 9 stream ∷ []) ≡ (events, idle 0)
push_all-frame_example =
    push_all-frame 0 events (take 9 stream ∷ drop 9 stream ∷ []) lines refl (omega arith)
