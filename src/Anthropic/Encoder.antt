-- ===== src/Anthropic/Encoder.antt =====
-- src/adapters/anthropic/stream.rs: `AnthropicStreamEncoder`. What `json!` prints is a parameter of
-- the lines; a block's index is a u32, which wraps around.
pub mod Protocol
use llmgate.Prelude.{
  ℕ, ◌+◌, ◌%◌, ◌^◌, Bool, true, false, Option, none, some, List, [], ◌∷◌, ◌++◌, Text, text,
  is_empty, map, any, ◌==◌, if◌then◌else◌,
}
use llmgate.Neutral.{
  Number, Value, Items, FinishReason, NeutralUsage, NeutralStreamEvent, AdapterError, display,
}
use llmgate.Json.{json}

pub data BlockKind : Type 0 where
  text_kind thinking_kind tool_use_kind : BlockKind

abbrev pub same_kind : BlockKind → BlockKind → Bool
same_kind BlockKind.text_kind BlockKind.text_kind = true
same_kind BlockKind.thinking_kind BlockKind.thinking_kind = true
same_kind BlockKind.tool_use_kind BlockKind.tool_use_kind = true
same_kind _ _ = false

pub record Encoder : Type 0 where
  pub block_index : ℕ
  pub current_block : Option BlockKind
  pub message_started : Bool
  pub pending_signature : Option Text
  pub tool_blocks_open : List ℕ
  pub open_tool_index : Option ℕ

-- `AnthropicStreamEncoder::new`
abbrev pub new_encoder : Encoder
new_encoder = record {
  block_index = 0;
  current_block = none;
  message_started = false;
  pending_signature = none;
  tool_blocks_open = [];
  open_tool_index = none;
}

-- What a `content_block_start` opens, and what a `content_block_delta` carries.
pub data Block : Type 0 where
  text_start thinking_start : Block
  tool_use_start : (id name : Text) → Block

pub data Delta : Type 0 where
  text_part thinking_part input_json_part signature_part : Text → Delta

-- The events that the encoder writes.
pub data Event : Type 0 where
  message_start : (id model : Text) (input_tokens : ℕ) → Event
  block_start : (index : ℕ) (block : Block) → Event
  block_delta : (index : ℕ) (delta : Delta) → Event
  block_stop : (index : ℕ) → Event
  message_delta : (stop_reason : Text) (output_tokens : ℕ) → Event
  message_stop : Event
  error : (message : Text) → Event

abbrev count : ℕ → Value
count n = Value.number (Number.unsigned n)

abbrev tagged : Text → List (Text × Value) → Value
tagged name rest = json ((text "type", Value.string name) ∷ rest)

unfoldable pub block_value : Block → Value
block_value Block.text_start = tagged (text "text") ((text "text", Value.string []) ∷ [])
block_value Block.thinking_start =
    tagged (text "thinking") ((text "thinking", Value.string []) ∷ [])
block_value (Block.tool_use_start id name) =
    tagged (text "tool_use") (
      (text "id", Value.string id)
      ∷ (text "name", Value.string name)
      ∷ (text "input", json [])
      ∷ [])

unfoldable pub delta_value : Delta → Value
delta_value (Delta.text_part t) = tagged (text "text_delta") ((text "text", Value.string t) ∷ [])
delta_value (Delta.thinking_part t) =
    tagged (text "thinking_delta") ((text "thinking", Value.string t) ∷ [])
delta_value (Delta.input_json_part t) =
    tagged (text "input_json_delta") ((text "partial_json", Value.string t) ∷ [])
delta_value (Delta.signature_part t) =
    tagged (text "signature_delta") ((text "signature", Value.string t) ∷ [])

-- The name behind `event:`.
unfoldable pub event_name : Event → Text
event_name (Event.message_start id model n) = text "message_start"
event_name (Event.block_start i b) = text "content_block_start"
event_name (Event.block_delta i d) = text "content_block_delta"
event_name (Event.block_stop i) = text "content_block_stop"
event_name (Event.message_delta r n) = text "message_delta"
event_name Event.message_stop = text "message_stop"
event_name (Event.error m) = text "error"

abbrev message_value : Text → Text → ℕ → Value
message_value id model input_tokens = json (
    (text "id", Value.string id)
    ∷ (text "type", Value.string (text "message"))
    ∷ (text "role", Value.string (text "assistant"))
    ∷ (text "model", Value.string model)
    ∷ (text "content", Value.array Items.nil)
    ∷ (text "stop_reason", Value.null)
    ∷ (text "stop_sequence", Value.null)
    ∷ (
      text "usage",
      json ((text "input_tokens", count input_tokens) ∷ (text "output_tokens", count 0) ∷ []),
    )
    ∷ [])

-- The object behind `data:`.
unfoldable pub event_value : Event → Value
unfolding block_value delta_value
event_value (Event.message_start id model n) =
    tagged (text "message_start") ((text "message", message_value id model n) ∷ [])
event_value (Event.block_start i b) =
    tagged (text "content_block_start")
      ((text "index", count i) ∷ (text "content_block", block_value b) ∷ [])
event_value (Event.block_delta i d) =
    tagged (text "content_block_delta")
      ((text "index", count i) ∷ (text "delta", delta_value d) ∷ [])
event_value (Event.block_stop i) = tagged (text "content_block_stop") ((text "index", count i) ∷ [])
event_value (Event.message_delta reason n) = tagged (text "message_delta") (
    (text "delta", json ((text "stop_reason", Value.string reason) ∷ []))
    ∷ (text "usage", json ((text "output_tokens", count n) ∷ []))
    ∷ [])
event_value Event.message_stop = tagged (text "message_stop") []
event_value (Event.error message) = tagged (text "error") (
    (
      text "error",
      json (
          (text "type", Value.string (text "api_error"))
          ∷ (text "message", Value.string message)
          ∷ []),
    )
    ∷ [])

abbrev pub Step : Type 0
Step = List Event × Encoder

-- The signature of a thinking block that closes.
unfoldable pub take_signature : BlockKind → Encoder → Step
take_signature BlockKind.thinking_kind e = elim e.pending_signature [
  | none ↦ ([], e)
  | some signature ↦ (
    Event.block_delta e.block_index (Delta.signature_part signature) ∷ [],
    record e { pending_signature = none },
  )
]
take_signature _ e = ([], e)

unfoldable pub without : ℕ → List ℕ → List ℕ
without i [] = []
without i (j ∷ is) = let rest = without i is in if i == j then rest else j ∷ rest

-- The neutral index of a tool block that closes.
unfoldable pub release_tool : BlockKind → Encoder → Encoder
unfolding without
release_tool BlockKind.tool_use_kind e = elim e.open_tool_index [
  | none ↦ e
  | some index ↦ record e {
    open_tool_index = none;
    tool_blocks_open = without index e.tool_blocks_open;
  }
]
release_tool _ e = e

-- `close_block`
unfoldable pub close_block : Encoder → Step
unfolding take_signature release_tool
close_block e = elim e.current_block [
  | none ↦ ([], e)
  | some kind ↦
      let (signature, e') = take_signature kind (record e { current_block = none }) in
      let e'' = release_tool kind e' in
      (
        signature ++ Event.block_stop e''.block_index ∷ [],
        record e'' { block_index = (e''.block_index + 1) % 2 ^ 32 },
      )
]

abbrev pub is_current : BlockKind → Option BlockKind → Bool
is_current kind none = false
is_current kind (some current) = same_kind current kind

-- `content_block` in `ensure_block`, which is called for text and thinking only; for a tool the
-- source would write an empty text into a block of type `tool_use`.
abbrev pub opened : BlockKind → Block
opened BlockKind.thinking_kind = Block.thinking_start
opened _ = Block.text_start

-- `ensure_block`
unfoldable pub ensure_block : BlockKind → Encoder → Step
unfolding close_block
ensure_block kind e =
    let (closing, e') = close_block e in
    if is_current kind e.current_block then ([], e) else (
      closing ++ Event.block_start e'.block_index (opened kind) ∷ [],
      record e' { current_block = some kind },
    )

-- The block of a tool call that has none yet.
unfoldable pub open_tool : ℕ → Text → Text → Encoder → Step
unfolding close_block
open_tool index id name e =
    let (closing, e') = close_block e in
    if any (λ i. i == index) e.tool_blocks_open then ([], e) else (
      closing ++ Event.block_start e'.block_index (Block.tool_use_start id name) ∷ [],
      record e' {
        current_block = some BlockKind.tool_use_kind;
        tool_blocks_open = index ∷ e'.tool_blocks_open;
        open_tool_index = some index;
      },
    )

abbrev pub stop_reason_of : FinishReason → Text
stop_reason_of FinishReason.stop = text "end_turn"
stop_reason_of FinishReason.length = text "max_tokens"
stop_reason_of FinishReason.tool_calls = text "tool_use"
stop_reason_of FinishReason.content_filter = text "refusal"
stop_reason_of (FinishReason.other s) = s

abbrev pub input_of : Option NeutralUsage → ℕ
input_of none = 0
input_of (some usage) = usage.input_tokens

abbrev pub output_of : Option NeutralUsage → ℕ
output_of none = 0
output_of (some usage) = usage.output_tokens

-- `StreamEncoder::encode`, as the events that the lines are printed from.
unfoldable pub encode : Encoder → NeutralStreamEvent → Step
unfolding ensure_block open_tool display
encode e (NeutralStreamEvent.message_start id model usage) =
    (Event.message_start id model (input_of usage) ∷ [], record e { message_started = true })
encode e (NeutralStreamEvent.text_delta t) =
    let (opening, e') = ensure_block BlockKind.text_kind e in
    (opening ++ Event.block_delta e'.block_index (Delta.text_part t) ∷ [], e')
encode e (NeutralStreamEvent.reasoning_delta t) =
    let (opening, e') = ensure_block BlockKind.thinking_kind e in
    (opening ++ Event.block_delta e'.block_index (Delta.thinking_part t) ∷ [], e')
encode e (NeutralStreamEvent.reasoning_signature signature) =
    ([], record e { pending_signature = some signature })
encode e (NeutralStreamEvent.tool_call_delta index id name arguments) =
    let (opening, e') = open_tool index id name e in
    (
      if is_empty arguments
          then opening
          else opening ++ Event.block_delta e'.block_index (Delta.input_json_part arguments) ∷ [],
      e',
    )
encode e (NeutralStreamEvent.message_stop reason usage) =
    let (closing, e') = close_block e in
    (
      closing
          ++ Event.message_delta (stop_reason_of reason) (output_of usage)
            ∷ Event.message_stop
            ∷ [],
      e',
    )
encode e (NeutralStreamEvent.error err) =
    let (closing, e') = close_block e in (closing ++ Event.error (display err) ∷ [], e')

-- The lines, with what `serde_json` prints of an object.
module _ (print : Value → Text) where
  unfoldable pub line : Event → Text
  unfolding event_name event_value
  line Event.message_stop = text "event: message_stop\ndata: {\"type\":\"message_stop\"}\n\n"
  line event =
      text "event: "
      ++ (event_name event ++ (text "\ndata: " ++ (print (event_value event) ++ text "\n\n")))

  unfoldable pub encode_lines : Encoder → NeutralStreamEvent → List Text × Encoder
  unfolding encode line
  encode_lines e event = let (events, e') = encode e event in (map line events, e')

-- `StreamEncoder::done`
abbrev pub done : Encoder → Text
done e = []
