-- ===== src/Privacy/Stream.antt =====
-- src/core/privacy.rs: `RestoreStream` and `StreamRestorer`. The session that they share is passed
-- along; `serde_json::to_string` is a parameter.
pub mod Held
pub mod Fuel
use llmgate.Prelude.{
  ℕ, zero, suc, ◌+◌, ◌-◌, Bool, true, false, not, ◌&&◌, Option, none, some, List, [], ◌∷◌, ◌++◌,
  map, Text, is_empty, nat_eq, length, take, drop, leb, ◌==◌, if◌then◌else◌,
}
use llmgate.Prelude.Map
use llmgate.Prelude.Map.{Map}
use llmgate.Neutral.{NeutralStreamEvent, AdapterError, display}
use llmgate.Privacy.Search.{Span, AhoCorasick}
use llmgate.Privacy.Engine.{RedactionEngine}
use llmgate.Privacy.Session.{Session, slice, with_automaton, original_or, restore_text}

pub record RestoreStream : Type 0 where
  pub buffer : Text
  pub max_token_len : ℕ
  pub json_escape : Bool

-- `with_mode`; `new` and `new_json` give the mode.
abbrev pub with_mode : RedactionEngine → Bool → RestoreStream
with_mode engine json_escape = record {
  buffer = [];
  max_token_len = engine.max_token_len;
  json_escape = json_escape;
}

-- The byte at a place, if there is one.
abbrev byte_at : ℕ → Text → Option ℕ
byte_at i s = elim (drop i s) [ [] ↦ none | b ∷ rest ↦ some b ]

-- `is_char_boundary`: the end, or a byte that does not continue a character.
unfoldable pub is_char_boundary : Text → ℕ → Bool
is_char_boundary s i = elim (byte_at i s) [
  | none ↦ i == length s
  | some b ↦ not (leb 0x80 b && leb b 0xBF)
]

-- The loop that rounds `window_start` down.
unfoldable pub round_down : Text → ℕ → ℕ
unfolding is_char_boundary
round_down s zero = zero
round_down s (suc i) =
    let below = round_down s i in if is_char_boundary s (suc i) then suc i else below

-- `find('<')`
unfoldable pub find_byte : ℕ → Text → Option ℕ
find_byte b [] = none
find_byte b (c ∷ s) = elim (find_byte b s) [
  | none ↦ if c == b then some 0 else none
  | some i ↦ if c == b then some 0 else some (i + 1)
]

-- How much of the buffer can no longer become part of a token.
unfoldable pub keep_from : ℕ → Text → ℕ
unfolding round_down find_byte
keep_from max_token_len buffer =
    let window_start = round_down buffer (length buffer - (max_token_len - 1)) in
    elim (find_byte b'<' (drop window_start buffer)) [
      | none ↦ length buffer
      | some i ↦ window_start + i
    ]

module _ (ac : AhoCorasick) (to_string : Text → Text) where
  -- What a token gives way to: its original, without the quotes if it is printed as JSON.
  unfoldable pub spliced : Bool → Session → Text → Text
  spliced json_escape s token =
      let original = original_or s token in
      let quoted = to_string original in
      if json_escape then take (length quoted - 1 - 1) (drop 1 quoted) else original

  abbrev pub find_with : Option (List Text) → Text → Option Span
  find_with none buffer = none
  find_with (some patterns) buffer = ac.find patterns buffer

  -- The loop over the tokens in the buffer: what is emitted, what is left of the buffer. A match
  -- takes a byte at least, so the buffer's length and one more are rounds enough.
  unfoldable pub drain_tokens : ℕ → Bool → Text → Text → Session → Text × Text × Session
  unfolding spliced
  drain_tokens zero json_escape buffer out s = (out, buffer, s)
  drain_tokens (suc rounds) json_escape buffer out s =
      let (patterns, s') = with_automaton s in
      elim (find_with patterns buffer) [
        | none ↦ (out, buffer, s')
        | some (start, end) ↦
            drain_tokens rounds json_escape (drop end buffer)
              (out ++ (take start buffer ++ spliced json_escape s' (slice start end buffer))) s'
      ]

  -- `RestoreStream::feed`
  unfoldable pub feed : RestoreStream → Text → Session → Text × RestoreStream × Session
  unfolding drain_tokens keep_from
  feed r fragment s =
      let whole = r.buffer ++ fragment in
      let (out, buffer, s') = drain_tokens (length whole + 1) r.json_escape whole [] s in
      let keep = keep_from r.max_token_len buffer in
      (out ++ take keep buffer, record r { buffer = drop keep buffer }, s')

-- `RestoreStream::finish`
unfoldable pub finish : RestoreStream → Text × RestoreStream
finish r = (r.buffer, record r { buffer = [] })

pub record StreamRestorer : Type 0 where
  pub text : RestoreStream
  pub reasoning : RestoreStream
  pub tool_args : Map ℕ RestoreStream

-- `StreamRestorer::new`
abbrev pub new_restorer : RedactionEngine → StreamRestorer
new_restorer engine = record {
  text = with_mode engine false;
  reasoning = with_mode engine false;
  tool_args = [];
}

-- `entry(index).or_insert_with(new_json)`
abbrev pub channel : RedactionEngine → Option RestoreStream → RestoreStream
channel engine none = with_mode engine true
channel engine (some r) = r

-- An event, unless there is nothing in it.
abbrev pub unless : Bool → NeutralStreamEvent → Option NeutralStreamEvent
unless empty event = if empty then none else some event

module _ (ac : AhoCorasick) (to_string : Text → Text) (engine : RedactionEngine) where
  -- `StreamRestorer::restore_event`
  unfoldable pub restore_event :
      StreamRestorer
      → NeutralStreamEvent
      → Session
      → Option NeutralStreamEvent × StreamRestorer × Session
  unfolding feed
  restore_event r (NeutralStreamEvent.text_delta t) s =
      let (restored, channel', s') = feed ac to_string r.text t s in
      (
        unless (is_empty restored) (NeutralStreamEvent.text_delta restored),
        record r { text = channel' },
        s',
      )
  restore_event r (NeutralStreamEvent.reasoning_delta t) s =
      let (restored, channel', s') = feed ac to_string r.reasoning t s in
      (
        unless (is_empty restored) (NeutralStreamEvent.reasoning_delta restored),
        record r { reasoning = channel' },
        s',
      )
  restore_event r (NeutralStreamEvent.tool_call_delta index id name arguments) s =
      let (restored, channel', s') =
        feed ac to_string (channel engine (Map.get index r.tool_args)) arguments s in
      (
        unless (is_empty restored && is_empty id && is_empty name)
            (NeutralStreamEvent.tool_call_delta index id name restored),
        record r { tool_args = Map.insert index channel' r.tool_args },
        s',
      )
  restore_event r (NeutralStreamEvent.error e) s =
      let (restored, s') = restore_text ac (display e) s in
      (some (NeutralStreamEvent.error (AdapterError.api restored)), r, s')
  restore_event r event s = (some event, r, s)

-- `filter` and `sort_by_key` over the flushed channels; the keys of a map are distinct.
unfoldable pub insert_by_key : ℕ × Text → List (ℕ × Text) → List (ℕ × Text)
insert_by_key entry [] = entry ∷ []
insert_by_key entry (head ∷ rest) =
    let later = insert_by_key entry rest in
    if leb entry.0 head.0 then entry ∷ (head ∷ rest) else head ∷ later

unfoldable pub flushed : Map ℕ RestoreStream → List (ℕ × Text)
unfolding insert_by_key finish
flushed [] = []
flushed ((index, r) ∷ rest) =
    let others = flushed rest in
    let held = (finish r).0 in if is_empty held then others else insert_by_key (index, held) others

abbrev pub held_event : (Text → NeutralStreamEvent) → Text → List NeutralStreamEvent
held_event event held = if is_empty held then [] else event held ∷ []

-- `StreamRestorer::finish`
unfoldable pub finish_all : StreamRestorer → List NeutralStreamEvent × StreamRestorer
unfolding finish flushed
finish_all r =
    let (text, text') = finish r.text in
    let (reasoning, reasoning') = finish r.reasoning in
    let args : List NeutralStreamEvent =
      map (λ entry. NeutralStreamEvent.tool_call_delta entry.0 [] [] entry.1)
        (flushed r.tool_args) in
    (
      held_event NeutralStreamEvent.text_delta text
          ++ (held_event NeutralStreamEvent.reasoning_delta reasoning ++ args),
      record { text = text'; reasoning = reasoning'; tool_args = [] },
    )
