-- ===== src/Consumers/Base.antt =====
-- consumers/sih_consumers/base.py: batches are written, or their records quarantined, before their offsets are
-- committed. What a call of the storage answers is a parameter, by the number of calls before it.
pub mod Settled
pub mod Attempts
pub mod Written
pub mod Calls
pub mod Progress
pub mod Growth
pub mod Poll
mod Tests
use ot_security.Common.{
  ℕ, zero, suc, ◌+◌, ◌*◌, ◌^◌, Bool, true, false, not, ◌&&◌, Option, none, some, List, [], ◌∷◌,
  ◌++◌, leb, if◌then◌else◌, min, length, Outcome, ok, err, ◌>>=◌,
}
use ot_security.Common.Bytes.{Bytes}
use ot_security.Common.Dict.{Text}

pub record Item (R : Type 0) : Type 0 where
  pub topic : Text
  pub partition : ℕ
  pub offset : ℕ
  pub payload : Bytes
  pub rows : List R

-- How a call of the storage ends: by an exception that `is_permanent` accepts, by another one, or well.
pub data Answer : Type 0 where
  accepted permanent transient : Answer

-- `sink.write`, `sink.quarantine` and `sink.transform`, whose `none` is a Poison
pub record Sink (R : Type 0) : Type 0 where
  pub write : ℕ → List R → Answer
  pub quarantine : ℕ → List (Item R) → Answer
  pub transform : Bytes → Option (List R)

-- What the storage holds: the rows that were written, and the records in quarantine, after so many calls.
pub record Store (R : Type 0) : Type 0 where
  pub calls : ℕ
  pub rows : List R
  pub quarantined : List (Item R)

pub record Batch (R : Type 0) : Type 0 where
  pub good : List (Item R)
  pub poison : List (Item R)
  pub permanent_attempts : ℕ
  pub transient_attempts : ℕ
  pub store : Store R

-- `[r for i in good for r in i.rows]`
unfoldable pub all_rows : {R : Type 0} → List (Item R) → List R
all_rows [] = []
all_rows (i ∷ is) = i.rows ++ all_rows is

unfoldable pub is_empty : {A : Type 0} → List A → Bool
is_empty [] = true
is_empty (_ ∷ _) = false

-- `[i for i in items if i.rows]`
unfoldable pub with_rows : {R : Type 0} → List (Item R) → List (Item R)
unfolding is_empty
with_rows [] = []
with_rows (i ∷ is) = let rest = with_rows is in if is_empty i.rows then rest else i ∷ rest

module _ {R : Type 0} (sink : Sink R) where
  unfoldable pub write : List R → Store R → Answer × Store R
  write rows s =
      let called = record s { calls = s.calls + 1 } in
      elim (sink.write s.calls rows) [
        | accepted ↦ (accepted, record called { rows = s.rows ++ rows })
        | permanent ↦ (permanent, called)
        | transient ↦ (transient, called)
      ]

  unfoldable pub quarantine : List (Item R) → Store R → Answer × Store R
  quarantine items s =
      let called = record s { calls = s.calls + 1 } in
      elim (sink.quarantine s.calls items) [
        | accepted ↦ (accepted, record called { quarantined = s.quarantined ++ items })
        | permanent ↦ (permanent, called)
        | transient ↦ (transient, called)
      ]

  -- The loop over `good` after the third rejection
  unfoldable pub isolate :
      List (Item R) → List (Item R) → Store R → List (Item R) × List (Item R) × Store R
  unfolding write
  isolate [] poison s = ([], poison, s)
  isolate (i ∷ is) poison s =
      let (answer, s') = write i.rows s in
      elim answer [
        | accepted ↦ isolate is poison s'
        | permanent ↦ isolate is (poison ++ (i ∷ [])) s'
        | transient ↦
            let (still_good, poisoned, last) = isolate is poison s' in
            (i ∷ still_good, poisoned, last)
      ]

  -- The `try` of `durable_write`: its two halves
  unfoldable pub write_good : Batch R → Answer × Store R
  unfolding write is_empty all_rows
  write_good b =
      if is_empty (all_rows b.good) then (accepted, b.store) else write (all_rows b.good) b.store

  unfoldable pub quarantine_poison : List (Item R) → Store R → Answer × Store R
  unfolding quarantine is_empty
  quarantine_poison poison s = if is_empty poison then (accepted, s) else quarantine poison s

  unfoldable pub attempt : Batch R → Answer × Store R
  unfolding write_good quarantine_poison
  attempt b =
      let (answer, s) = write_good b in
      elim answer [
        | accepted ↦ quarantine_poison b.poison s
        | permanent ↦ (permanent, s)
        | transient ↦ (transient, s)
      ]

  unfoldable pub rejected : Batch R → Batch R
  unfolding isolate
  rejected b =
      let count = b.permanent_attempts + 1 in
      if leb 3 count
      then (let (still_good, poison, s) = isolate b.good b.poison b.store in
          record {
            good = still_good;
            poison = poison;
            permanent_attempts = count;
            transient_attempts = b.transient_attempts;
            store = s;
          })
      else record b { permanent_attempts = count }

  -- The handler of `durable_write`, for an exception that is permanent, or is not
  unfoldable pub failed : Bool → Batch R → Batch R
  unfolding rejected is_empty
  failed for_good b =
      if for_good && not (is_empty b.good)
      then rejected b
      else record b { transient_attempts = b.transient_attempts + 1 }

  -- The wait after a failure, in milliseconds
  unfoldable pub retry_delay : ℕ → ℕ
  retry_delay transient_attempts = min 30000 (500 * 2 ^ min transient_attempts 6)

  -- The loop of `durable_write`, at most n rounds of it: `none` is a loop that has not ended by then.
  unfoldable pub write_loop : (stopped : ℕ → Bool) → ℕ → ℕ → Batch R → Option (Bool × Store R)
  unfolding attempt failed
  write_loop stopped zero k b = none
  write_loop stopped (suc n) k b = elim (stopped k) [
    | true ↦ some (false, b.store)
    | false ↦
        let (answer, s) = attempt b in
        elim answer [
          | accepted ↦ some (true, s)
          | permanent ↦ write_loop stopped n (k + 1) (failed true (record b { store = s }))
          | transient ↦ write_loop stopped n (k + 1) (failed false (record b { store = s }))
        ]
  ]

  unfoldable pub durable_write :
      (stopped : ℕ → Bool) → ℕ → List (Item R) → Store R → Option (Bool × Store R)
  unfolding with_rows write_loop
  durable_write stopped rounds items s = write_loop stopped rounds 0 (record {
    good = with_rows items;
    poison = [];
    permanent_attempts = 0;
    transient_attempts = 0;
    store = s;
  })
