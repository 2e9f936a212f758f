-- ===== src/Consumers/Base/Poll.antt =====
-- `run_consumer` of consumers/sih_consumers/base.py: polls, each one transformed, written and then committed.
pub mod Handled
pub mod Committed
use ot_security.Common.{
  ℕ, zero, suc, ◌+◌, Bool, true, false, Option, none, some, List, [], ◌∷◌, ◌++◌, if◌then◌else◌,
}
use ot_security.Common.Bytes.{Bytes}
use ot_security.Common.Dict.{Text}
use ot_security.Consumers.Base.{
  Item, Answer, accepted, permanent, transient, Sink, Store, is_empty, quarantine, durable_write,
}

-- What `consume` answers for a message: an error of the broker, or a record.
pub data Message : Type 0 where
  broker_error : Message
  record_at : (topic : Text) (partition offset : ℕ) (payload : Bytes) → Message

-- One call of `consume`, and when the stop event is set while its batch is written
pub record Polled : Type 0 where
  pub messages : List Message
  pub stopped : ℕ → Bool

-- How the consumer ends: stopped, by an exception of the quarantine store or of the commit, or by the end of the polls.
pub data Ended : Type 0 where
  running stopped raised : Ended

-- The storage, the items of the polls so far, and those below the committed offsets
pub record Consumer (R : Type 0) : Type 0 where
  pub store : Store R
  pub consumed : List (Item R)
  pub committed : List (Item R)

module _ {R : Type 0} (sink : Sink R) where
  unfoldable pub item_of : Text → ℕ → ℕ → Bytes → List R → Item R
  item_of topic partition offset payload rows = record {
    topic = topic;
    partition = partition;
    offset = offset;
    payload = payload;
    rows = rows;
  }

  -- The loop over the messages of a poll; `none` is the exception of a quarantine that fails.
  unfoldable pub read_items : List Message → Store R → Option (List (Item R)) × Store R
  unfolding quarantine item_of
  read_items [] s = (some [], s)
  read_items (broker_error ∷ ms) s = read_items ms s
  read_items (record_at topic partition offset payload ∷ ms) s = elim (sink.transform payload) [
    | some rows ↦
        let (items, last) = read_items ms s in
        elim items [
          | none ↦ (none, last)
          | some is ↦ (some (item_of topic partition offset payload rows ∷ is), last)
        ]
    | none ↦
        let (answer, s') = quarantine sink (item_of topic partition offset payload [] ∷ []) s in
        let (items, last) = read_items ms s' in
        elim answer [
          | accepted ↦ elim items [
            | none ↦ (none, last)
            | some is ↦ (some (item_of topic partition offset payload [] ∷ is), last)
          ]
          | permanent ↦ (none, s')
          | transient ↦ (none, s')
        ]
  ]

  -- `commit`, which answers by the call's number, covers all that was consumed.
  unfoldable pub commit : (ℕ → Bool) → Consumer R → Ended × Consumer R
  commit commits c = elim (commits c.store.calls) [
    | true ↦ (running, record c { committed = c.consumed })
    | false ↦ (raised, c)
  ]

  -- One round of the consumer's loop, with at most so many rounds of `durable_write`
  unfoldable pub poll : (ℕ → Bool) → ℕ → Polled → Consumer R → Option (Ended × Consumer R)
  unfolding read_items commit durable_write is_empty
  poll commits rounds p c =
      let (read, s) = read_items p.messages c.store in
      elim read [
        | none ↦ some (raised, record c { store = s })
        | some items ↦
            let read = record c { store = s; consumed = c.consumed ++ items } in
            if is_empty items
            then some (running, read)
            else elim (durable_write sink p.stopped rounds items s) [
              | none ↦ none
              | some o ↦
                  let written = record read { store = o.1 } in
                  elim o.0 [
                    | true ↦ some (commit commits written)
                    | false ↦ some (stopped, written)
                  ]
            ]
      ]

  unfoldable pub run_consumer :
      (ℕ → Bool) → ℕ → List Polled → Consumer R → Option (Ended × Consumer R)
  unfolding poll
  run_consumer commits rounds [] c = some (running, c)
  run_consumer commits rounds (p ∷ ps) c = elim (poll commits rounds p c) [
    | none ↦ none
    | some o ↦ elim o.0 [
      | running ↦ run_consumer commits rounds ps o.1
      | stopped ↦ some (stopped, o.1)
      | raised ↦ some (raised, o.1)
    ]
  ]
