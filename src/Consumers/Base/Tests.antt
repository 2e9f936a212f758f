-- ===== src/Consumers/Base/Tests.antt =====
-- Runs of the consumer, and the theorems of consumers/sih_consumers/base.py at concrete records.
use ot_security.Common.{
  ℕ, ◌≡◌, refl, Bool, true, false, Option, none, some, List, [], ◌∷◌, ap, map, All, ltb, le→ltb,
  leb, if◌then◌else◌,
}
use ot_security.Consumers.Base.{
  Item, Answer, accepted, permanent, transient, Sink, Store, write, quarantine, isolate, write_good,
  quarantine_poison, attempt, rejected, failed, retry_delay, write_loop, durable_write, with_rows,
  all_rows, is_empty,
}
use ot_security.Consumers.Base.Settled.{Settled}
use ot_security.Consumers.Base.Calls.{AcceptsFrom}
use ot_security.Consumers.Base.Progress.{durable_write-EndsWell}
use ot_security.Consumers.Base.Poll.{
  Polled, record_at, broker_error, Ended, running, Consumer, read_items, commit, poll, run_consumer,
}
use ot_security.Consumers.Base.Poll.Handled.{Handled}
use ot_security.Consumers.Base.Poll.Committed.{started, run_consumer-Handled}

-- It refuses a write that begins with a row from 13 on, and fails its first two calls.
abbrev writes : ℕ → List ℕ → Answer
writes k [] = accepted
writes k (r ∷ rows) =
    let rest = writes k rows in
    if leb 13 r then permanent else (if ltb k 2 then transient else rest)

abbrev sink : Sink ℕ
sink = record {
  write = writes;
  quarantine = λ k items. if ltb k 1 then transient else accepted;
  transform = λ payload. elim payload [ [] ↦ none | b ∷ bs ↦ some (b ∷ []) ];
}

abbrev item : ℕ → List ℕ → Item ℕ
item offset rows = record {
  topic = [];
  partition = 0;
  offset = offset;
  payload = rows;
  rows = rows;
}

abbrev items : List (Item ℕ)
items = item 0 (5 ∷ []) ∷ item 1 (13 ∷ []) ∷ item 2 [] ∷ []

abbrev empty_store : Store ℕ
empty_store = record { calls = 0; rows = []; quarantined = [] }

abbrev store_of : Option (Bool × Store ℕ) → Store ℕ
store_of none = empty_store
store_of (some o) = o.1

abbrev never : ℕ → Bool
never _ = false

-- Row 13 is refused until the record is isolated.
isolated :
    store_of (durable_write sink never 9 items empty_store)
    ≡ record { calls = 8; rows = 5 ∷ []; quarantined = item 1 (13 ∷ []) ∷ [] }
unfolding durable_write write_loop with_rows attempt write_good quarantine_poison write quarantine
    failed rejected isolate all_rows is_empty
isolated = refl

delay_of_first : retry_delay sink 1 ≡ 1000
unfolding retry_delay
delay_of_first = refl

-- Its first two calls fail.
abbrev first_fails : Sink ℕ
first_fails = record {
  write = λ k rows. if ltb k 2 then transient else accepted;
  quarantine = λ k items. if ltb k 2 then permanent else accepted;
  transform = λ payload. elim payload [ [] ↦ none | b ∷ bs ↦ some (b ∷ []) ];
}

first_fails-AcceptsFrom : AcceptsFrom first_fails 2
first_fails-AcceptsFrom = record {
  writes = λ k rows h. ap (λ b. if b then transient else accepted) (le→ltb k 2 h);
  quarantines = λ k is h. ap (λ b. if b then permanent else accepted) (le→ltb k 2 h);
}

durable_write-EndsWell_example :
    (t : Store ℕ) × ((durable_write first_fails never 3 items empty_store ≡ some (true, t))
      × All (Settled t) items)
durable_write-EndsWell_example =
    durable_write-EndsWell first_fails 2 first_fails-AcceptsFrom never (λ k. refl) items empty_store

-- A record that cannot be transformed, one of row 5, and an error of the broker
abbrev polls : List Polled
polls =
    record {
      messages = record_at [] 0 7 [] ∷ record_at [] 0 8 (5 ∷ []) ∷ broker_error ∷ [];
      stopped = never;
    }
    ∷ []

abbrev consumer_of : Option (Ended × Consumer ℕ) → Consumer ℕ
consumer_of none = started sink empty_store []
consumer_of (some o) = o.1

abbrev late_store : Store ℕ
late_store = record { calls = 3; rows = []; quarantined = [] }

abbrev ran : Option (Ended × Consumer ℕ)
ran = run_consumer sink (λ k. true) 4 polls (started sink late_store [])

run_consumer-Handled_example :
    All (Handled sink (consumer_of ran).store) (consumer_of ran).committed
unfolding run_consumer poll read_items commit durable_write
run_consumer-Handled_example =
    run_consumer-Handled sink (λ k. true) 4 polls late_store [] tt running (consumer_of ran) refl

committed_offsets : map (λ i. i.offset) (consumer_of ran).committed ≡ 7 ∷ 8 ∷ []
unfolding run_consumer poll read_items commit durable_write
committed_offsets = refl
