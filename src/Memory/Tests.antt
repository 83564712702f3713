-- ===== src/Memory/Tests.antt =====
-- Runs of the store, and the theorems at them, with a database that logs its plans.
use llmgate.Prelude.{◌≡◌, refl, true, none, some, List, [], ◌∷◌, Text, text, arith}
use llmgate.Prelude.Decimal.{decimal}
use llmgate.Neutral.{Value}
use llmgate.Memory.{
  RequestRecord, Database, Actor, Event, started, checkpoint, insert_one, on_event, run,
}
use llmgate.Memory.Ledger.{Reached, kept, expired, forgotten, timed_out-expired}

abbrev log : Database Text (List Text)
log = record {
  parse = λ t. some t;
  execute = λ plan db. (true, plan ∷ db);
  flush = λ db. (true, text "flush" ∷ db);
}

abbrev print : Value → Text
print v = text "{}"

abbrev rec : RequestRecord
rec = record {
  request_id = text "-";
  client = text "openai";
  upstream = text "gemini";
  model = text "m";
  mode = text "stream";
  status = text "ok";
  latency_ms = 5;
  input_tokens = none;
  output_tokens = some 7;
}

-- Two records, received at 100 and at 900, with a time to live of 500.
abbrev busy : Actor (List Text)
busy = run log print 500 (started []) (Event.received 100 rec ∷ Event.received 900 rec ∷ [])

busy-Reached : Reached log print 500 900 busy
unfolding run
busy-Reached =
    Reached.got 900 rec (Reached.got 100 rec (Reached.begun []) (omega arith)) (omega arith)

times : busy.ledger ≡ (text "r100_1", 100) ∷ (text "r900_2", 900) ∷ []
unfolding run on_event insert_one decimal
times = refl

timed_out-expired_example :
    ((on_event log print 500 busy (Event.timed_out 1000)).db
      ≡ forgotten log print 500 (expired 500 busy.ledger) (checkpoint log print busy).db)
    × ((on_event log print 500 busy (Event.timed_out 1000)).ledger ≡ kept 500 busy.ledger)
timed_out-expired_example =
    timed_out-expired log print 500 1000 busy-Reached (omega arith) (omega arith)
