-- ===== src/Memory.antt =====
-- src/core/memory.rs: the store of request records. The database, the crates `nql` and `nqlite`, is an
-- interface, and so is the clock.
pub mod Ledger
mod Tests
use llmgate.Prelude.{
  ℕ, ◌+◌, ◌-◌, ◌*◌, ◌%◌, ◌^◌, Bool, true, false, not, ◌&&◌, Option, none, some, List, [], ◌∷◌, ◌++◌,
  map, Text, text, length, ltb, if◌then◌else◌,
}
use llmgate.Prelude.Decimal.{decimal}
use llmgate.Sse.Chunks.{concat}
use llmgate.Neutral.{Value}
use llmgate.Json.{json, number}

-- `QUEUE_CAP`
abbrev pub queue_cap : ℕ
queue_cap = 4096

pub record RequestRecord : Type 0 where
  pub request_id : Text
  pub client : Text
  pub upstream : Text
  pub model : Text
  pub mode : Text
  pub status : Text
  pub latency_ms : ℕ
  pub input_tokens : Option ℕ
  pub output_tokens : Option ℕ

-- `MemoryStore::record`, on the records that wait in the channel: a full queue drops the record.
unfoldable pub record_request : List RequestRecord → RequestRecord → List RequestRecord
record_request queue rec = if ltb (length queue) queue_cap then queue ++ rec ∷ [] else queue

-- What is used of the database, for a type of plans and a type of states. `execute` and `flush` tell
-- whether they succeed.
pub record Database (P : Type 0) (S : Type 0) : Type 0 where
  pub parse : Text → Option P
  pub execute : P → S → Bool × S
  pub flush : S → Bool × S

abbrev or_null : Option ℕ → Value
or_null none = Value.null
or_null (some n) = number n

-- `insert_statement`; `print` is the printing of JSON.
unfoldable pub insert_statement : (Value → Text) → Text → ℕ → RequestRecord → Text
insert_statement print id ts_ms rec =
    text "INSERT INTO request:"
    ++ (id
        ++ (text " "
            ++ (print (
                  json (
                    (text "ts_ms", number ts_ms)
                    ∷ (text "request_id", Value.string rec.request_id)
                    ∷ (text "client", Value.string rec.client)
                    ∷ (text "upstream", Value.string rec.upstream)
                    ∷ (text "model", Value.string rec.model)
                    ∷ (text "mode", Value.string rec.mode)
                    ∷ (text "status", Value.string rec.status)
                    ∷ (text "latency_ms", number rec.latency_ms)
                    ∷ (text "input_tokens", or_null rec.input_tokens)
                    ∷ (text "output_tokens", or_null rec.output_tokens)
                    ∷ []))
                ++ text ";")))

-- The ids of the records that may expire, each with its time.
abbrev pub Ledger : Type 0
Ledger = List (Text × ℕ)

-- The loop of `sweep` over the front of the ledger: the ids that are popped, and what is left.
unfoldable pub pop_expired : ℕ → Ledger → List Text × Ledger
pop_expired cutoff [] = ([], [])
pop_expired cutoff ((id, ts) ∷ ledger) =
    let (expired, rest) = pop_expired cutoff ledger in
    if ltb ts cutoff then (id ∷ expired, rest) else ([], (id, ts) ∷ ledger)

-- The plan that forgets records.
abbrev pub forget_plan : List Text → Text
forget_plan ids = concat (map (λ id. text "FORGET request:" ++ (id ++ text ";")) ids)

abbrev pub no_ids : List Text → Bool
no_ids [] = true
no_ids (id ∷ ids) = false

abbrev pub no_ledger : Ledger → Bool
no_ledger [] = true
no_ledger (entry ∷ ledger) = false

-- The variables of `actor`.
pub record Actor (S : Type 0) : Type 0 where
  pub db : S
  pub seq : ℕ
  pub dirty : Bool
  pub ledger : Ledger

-- What the actor receives: a record, at a time, or the timeout, at a time.
pub data Event : Type 0 where
  received : (ts : ℕ) → RequestRecord → Event
  timed_out : (now : ℕ) → Event

abbrev pub started : {S : Type 0} → S → Actor S
started db = record { db = db; seq = 0; dirty = false; ledger = [] }

module _ {P : Type 0} {S : Type 0} (nq : Database P S) (print : Value → Text) where
  -- What is executed of a text: nothing if it does not parse.
  abbrev pub execute_text : Text → S → Bool × S
  execute_text t db = elim (nq.parse t) [ none ↦ (false, db) | some plan ↦ nq.execute plan db ]

  -- `sweep`: the number of records that are forgotten, the database, the ledger.
  unfoldable pub sweep : S → Ledger → ℕ → ℕ × S × Ledger
  unfolding pop_expired
  sweep db ledger cutoff =
      let (expired, rest) = pop_expired cutoff ledger in
      let (good, db') = execute_text (forget_plan expired) db in
      if no_ids expired then (0, db, rest) else (if good then length expired else 0, db', rest)

  -- `insert_one`, at a time: the id and the time of the record if it is inserted.
  unfoldable pub insert_one : S → ℕ → ℕ → RequestRecord → Option (Text × ℕ) × S × ℕ
  unfolding insert_statement
  insert_one db seq ts rec =
      let seq' = (seq + 1) % 2 ^ 64 in
      let id = text "r" ++ (decimal ts ++ (text "_" ++ decimal seq')) in
      let (good, db') = execute_text (insert_statement print id ts rec) db in
      (if good then some (id, ts) else none, db', seq')

  -- The rest of the branch of a record that is received.
  abbrev pub note_inserted : Bool → Option (Text × ℕ) × S × ℕ → Actor S → Actor S
  note_inserted track (none, db, seq) a = record a { db = db; seq = seq }
  note_inserted track (some entry, db, seq) a = record a {
    db = db;
    seq = seq;
    dirty = true;
    ledger = if track then a.ledger ++ entry ∷ [] else a.ledger;
  }

  abbrev pub checkpoint : Actor S → Actor S
  checkpoint a = if a.dirty then record a { db = (nq.flush a.db).1; dirty = false } else a

  -- The cutoff of a sweep; `saturating_sub` stops at 0.
  abbrev pub sweep_at : ℕ → ℕ → Actor S → Actor S
  sweep_at ttl_ms now a =
      let (count, db, ledger) = sweep a.db a.ledger (now - ttl_ms) in
      if ltb 0 ttl_ms && not (no_ledger a.ledger) then record a { db = db; ledger = ledger } else a

  -- One turn of the loop of `actor`.
  unfoldable pub on_event : ℕ → Actor S → Event → Actor S
  unfolding insert_one sweep
  on_event ttl_ms a (Event.received ts rec) =
      note_inserted (ltb 0 ttl_ms) (insert_one a.db a.seq ts rec) a
  on_event ttl_ms a (Event.timed_out now) = sweep_at ttl_ms now (checkpoint a)

  unfoldable pub run : ℕ → Actor S → List Event → Actor S
  unfolding on_event
  run ttl_ms a [] = a
  run ttl_ms a (event ∷ events) = run ttl_ms (on_event ttl_ms a event) events

  -- What follows the loop: the records that are left, each at its time, and a last checkpoint.
  abbrev note_drained : Option (Text × ℕ) × S × ℕ → Actor S → Actor S
  note_drained (none, db, seq) a = record a { db = db; seq = seq }
  note_drained (some entry, db, seq) a = record a { db = db; seq = seq; dirty = true }

  unfoldable pub drain : Actor S → List (ℕ × RequestRecord) → Actor S
  unfolding insert_one
  drain a [] = checkpoint a
  drain a ((ts, rec) ∷ rest) = drain (note_drained (insert_one a.db a.seq ts rec) a) rest

-- `ttl_ms`, of `MemoryStore::start`; the product saturates.
abbrev pub ttl_ms_of : Option ℕ → ℕ
ttl_ms_of none = 0
ttl_ms_of (some hours) = if ltb (hours * 3600000) (2 ^ 64) then hours * 3600000 else 2 ^ 64 - 1
