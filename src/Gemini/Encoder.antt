-- ===== src/Gemini/Encoder.antt =====
-- src/adapters/gemini/stream.rs: `GeminiStreamEncoder`, as the objects that its lines are printed from.
-- `serde_json::from_str` is a parameter.
pub mod Fragments
use llmgate.Prelude.{
  ℕ, nat_eq, leb, Bool, true, false, Option, none, some, List, [], ◌∷◌, ◌++◌, Text, text, is_empty,
  map, if◌then◌else◌,
}
use llmgate.Prelude.Map
use llmgate.Prelude.Map.{Map}
use llmgate.Neutral.{Value, NeutralUsage, FinishReason, NeutralStreamEvent, AdapterError, display}
use llmgate.Json.{json, array, number}

pub record PendingCall : Type 0 where
  pub id : Text
  pub name : Text
  pub args : Text

pub record Encoder : Type 0 where
  pub started : Bool
  pub emitted_stop : Bool
  pub pending_calls : Map ℕ PendingCall

-- `GeminiStreamEncoder::new`
abbrev pub new_encoder : Encoder
new_encoder = record { started = false; emitted_stop = false; pending_calls = [] }

abbrev pub Entries : Type 0
Entries = List (Text × Value)

-- `{ "candidates": [{ "content": …, "index": … }] }`
abbrev pub candidates : Value → ℕ → Entries → Entries
candidates content index more =
    (
      text "candidates",
      array (json ((text "content", content) ∷ (text "index", number index) ∷ more) ∷ []),
    )
    ∷ []

-- A chunk with one part.
abbrev pub part_chunk : Entries → ℕ → Value
part_chunk part index = json (
    candidates
      (json
        ((text "role", Value.string (text "model")) ∷ (text "parts", array (json part ∷ [])) ∷ []))
      index [])

-- The chunk of a call.
abbrev pub call_chunk : Text → Text → Value → ℕ → Value
call_chunk id name args index =
    part_chunk
      ((
        text "functionCall",
        json (
            (if is_empty id then [] else (text "id", Value.string id) ∷ [])
            ++ ((text "name", Value.string name) ∷ (text "args", args) ∷ [])),
      )
        ∷ [])
      index

unfoldable pub serialize_finish_reason : FinishReason → Text
serialize_finish_reason FinishReason.stop = text "STOP"
serialize_finish_reason FinishReason.length = text "MAX_TOKENS"
serialize_finish_reason FinishReason.content_filter = text "SAFETY"
serialize_finish_reason FinishReason.tool_calls = text "STOP"
serialize_finish_reason (FinishReason.other s) = s

abbrev pub usage_entries : Option NeutralUsage → Entries
usage_entries none = []
usage_entries (some u) =
    (
      text "usageMetadata",
      json (
          (text "promptTokenCount", number u.input_tokens)
          ∷ (text "candidatesTokenCount", number u.output_tokens)
          ∷ []),
    )
    ∷ []

abbrev pub stop_chunk : FinishReason → Option NeutralUsage → Value
stop_chunk reason usage = json (
    candidates (json []) 0
      ((text "finishReason", Value.string (serialize_finish_reason reason)) ∷ [])
    ++ usage_entries usage)

-- The code and the status of an error.
unfoldable pub error_status : AdapterError → ℕ × Text
error_status (AdapterError.invalid_request m) = (400, text "INVALID_ARGUMENT")
error_status AdapterError.authentication = (401, text "UNAUTHENTICATED")
error_status AdapterError.permission_denied = (403, text "PERMISSION_DENIED")
error_status (AdapterError.rate_limit after) = (429, text "RESOURCE_EXHAUSTED")
error_status AdapterError.insufficient_quota = (429, text "RESOURCE_EXHAUSTED")
error_status AdapterError.overloaded = (503, text "UNAVAILABLE")
error_status (AdapterError.upstream status body) = (status, text "UPSTREAM_ERROR")
error_status (AdapterError.api m) = (500, text "INTERNAL")
error_status (AdapterError.internal m) = (500, text "INTERNAL")

abbrev pub error_chunk : AdapterError → Value
error_chunk e =
    let (code, status) = error_status e in
    json (
      (
        text "error",
        json (
            (text "code", number code)
            ∷ (text "message", Value.string (display e))
            ∷ (text "status", Value.string status)
            ∷ []),
      )
      ∷ [])

-- The calls that are left at the end, in the order of their indices, with null for their arguments.
unfoldable pub insert_by_index : ℕ × PendingCall → List (ℕ × PendingCall) → List (ℕ × PendingCall)
insert_by_index entry [] = entry ∷ []
insert_by_index entry (head ∷ rest) =
    let later = insert_by_index entry rest in
    if leb entry.0 head.0 then entry ∷ (head ∷ rest) else head ∷ later

abbrev pub sorted : Map ℕ PendingCall → List (ℕ × PendingCall)
sorted [] = []
sorted (entry ∷ rest) = insert_by_index entry (sorted rest)

unfoldable pub leftovers : Map ℕ PendingCall → List Value
unfolding insert_by_index
leftovers pending =
    map (λ entry. call_chunk entry.1.id entry.1.name Value.null entry.0) (sorted pending)

-- `entry(index).or_insert_with(…)`
abbrev pub entry_or : Text → Text → Option PendingCall → PendingCall
entry_or id name none = record { id = id; name = name; args = [] }
entry_or id name (some call) = call

module _ (from_str : Text → Option Value) where
  -- What becomes of a call whose arguments have grown.
  abbrev pub put_call : ℕ → PendingCall → Option Value → Encoder → List Value × Encoder
  put_call index call none e =
      ([], record e { pending_calls = Map.insert index call e.pending_calls })
  put_call index call (some args) e = (
    call_chunk call.id call.name args 0 ∷ [],
    record e { pending_calls = Map.remove index e.pending_calls },
  )

  -- `StreamEncoder::encode`
  unfoldable pub encode : Encoder → NeutralStreamEvent → List Value × Encoder
  unfolding leftovers
  encode e (NeutralStreamEvent.message_start id model usage) = ([], record e { started = true })
  encode e (NeutralStreamEvent.text_delta t) =
      (part_chunk ((text "text", Value.string t) ∷ []) 0 ∷ [], e)
  encode e (NeutralStreamEvent.reasoning_delta t) = (
    part_chunk ((text "text", Value.string t) ∷ (text "thought", Value.bool true) ∷ []) 0 ∷ [],
    e,
  )
  encode e (NeutralStreamEvent.tool_call_delta index id name arguments) =
      let entry = entry_or id name (Map.get index e.pending_calls) in
      let grown : PendingCall = record entry { args = entry.args ++ arguments } in
      put_call index grown (from_str grown.args) e
  encode e (NeutralStreamEvent.reasoning_signature signature) = ([], e)
  encode e (NeutralStreamEvent.message_stop reason usage) = if e.emitted_stop then ([], e) else (
    leftovers e.pending_calls ++ stop_chunk reason usage ∷ [],
    record e { emitted_stop = true; pending_calls = [] },
  )
  encode e (NeutralStreamEvent.error err) = (error_chunk err ∷ [], e)

  -- The lines, with what `serde_json` prints of an object.
  unfoldable pub encode_lines : (Value → Text) → Encoder → NeutralStreamEvent → List Text × Encoder
  encode_lines print e event =
      let (values, e') = encode e event in
      (map (λ v. text "data: " ++ (print v ++ text "\n\n")) values, e')

-- `StreamEncoder::done`
abbrev pub done : Encoder → Text
done e = []
