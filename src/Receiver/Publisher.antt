-- ===== src/Receiver/Publisher.antt =====
-- ingest/receiver/sih_receiver/publisher.py: spooled records are sent in order, and the cursor follows
-- their acknowledgements. Kafka is the list of what happens in a round; seconds are counted in milliseconds.
pub mod Behind
pub mod Cursor
mod Tests
use ot_security.Common.{
  ℕ, ◌+◌, ◌-◌, ◌*◌, Bool, true, false, not, ◌&&◌, ◌||◌, Option, none, some, List, [], ◌∷◌, ◌++◌,
  ltb, leb, ◌==◌, if◌then◌else◌, ite, min, ℕ_discrete,
}
use ot_security.Receiver.Spool.{Spool, Position, end_of, release}

unfoldable pub position_dec : Discrete Position
position_dec = hlevel ℕ_discrete

-- `in` and `discard` of the set of acknowledged positions
unfoldable pub elem : Position → List Position → Bool
elem p [] = false
elem p (q ∷ qs) = ite (position_dec p q) true (elem p qs)

unfoldable pub discard : Position → List Position → List Position
discard p [] = []
discard p (q ∷ qs) = let rest = discard p qs in ite (position_dec p q) rest (q ∷ rest)

unfoldable pub is_empty : List Position → Bool
is_empty [] = true
is_empty (_ ∷ _) = false

-- The publisher and the variables of `pump`
pub record Pump : Type 0 where
  pub spool : Spool
  pub cursor : Position
  -- what the cursor file holds, or the first position while there is none
  pub persisted : Position
  pub healthy : Bool
  pub read_pos : Position
  pub in_flight : List Position
  pub acked : List Position
  pub failures : ℕ
  pub published : ℕ
  pub last_persist : ℕ
  pub idle_rounds : ℕ

-- `pump` up to its loop
unfoldable pub started : ℕ → Pump → Pump
started now s = record s {
  read_pos = s.cursor;
  in_flight = [];
  acked = [];
  failures = 0;
  last_persist = now;
  idle_rounds = 0;
}

-- What happens between two looks at the queue: a record is handed to the producer, or a delivery is reported.
pub data Event : Type 0 where
  produced delivered failed : Position → Event

-- The body of the loop over the batch, and `cb`
unfoldable pub happens : Event → Pump → Pump
happens (produced p) s = record s { in_flight = s.in_flight ++ (p ∷ []); read_pos = p }
happens (delivered p) s = record s { acked = p ∷ s.acked; published = s.published + 1 }
happens (failed p) s = record s { failures = s.failures + 1 }

pub record Drained : Type 0 where
  pub rest : List Position
  pub acked : List Position
  pub cursor : Position
  pub advanced : Bool

-- `while in_flight and in_flight[0] in acked`
unfoldable pub drain : List Position → List Position → Position → Bool → Drained
drain [] acked cursor advanced = record {
  rest = [];
  acked = acked;
  cursor = cursor;
  advanced = advanced;
}
drain (p ∷ ps) acked cursor advanced = elim (elem p acked) [
  | true ↦ drain ps (discard p acked) p true
  | false ↦ record { rest = p ∷ ps; acked = acked; cursor = cursor; advanced = advanced }
]

-- `write_position` and `release`
unfoldable pub persist : ℕ → Pump → Pump
persist now s = record s {
  persisted = s.cursor;
  spool = release s.spool s.cursor;
  last_persist = now;
}

-- The round from the drain on, for a batch that is or is not empty
unfoldable pub settle : ℕ → Bool → Pump → Pump
unfolding drain persist
settle now no_batch s =
    let d = drain s.in_flight s.acked s.cursor false in
    let advanced = record s {
      in_flight = d.rest;
      acked = d.acked;
      cursor = d.cursor;
      healthy = if d.advanced then true else s.healthy;
    } in
    let kept =
      if d.advanced && (leb (s.last_persist + 200) now || is_empty d.rest)
      then persist now advanced
      else advanced in
    record kept { idle_rounds = if no_batch && is_empty d.rest then kept.idle_rounds + 1 else 0 }

unfoldable pub all_happen : List Event → Pump → Pump
all_happen [] s = s
all_happen (e ∷ es) s = all_happen es (happens e s)

-- A round of `pump`; `none` is the RuntimeError over a failed delivery.
unfoldable pub round : List Event → ℕ → Bool → Pump → Option Pump
unfolding all_happen settle
round events now no_batch s =
    if s.failures == 0 then some (settle now no_batch (all_happen events s)) else none

-- The wait of `run` after a round that returned, or raised
unfoldable pub next_backoff : Bool → ℕ → ℕ
next_backoff returned backoff = if returned then 1000 else min 10000 (backoff * 2)

-- `backlog_bytes`
unfoldable pub backlog_bytes : Pump → ℕ
backlog_bytes s =
    let (segment, offset) = end_of s.spool in
    if segment == s.cursor.0 then offset - s.cursor.1 else s.spool.total
