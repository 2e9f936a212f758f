-- ===== src/Link/Reassembly.antt =====
-- ingest/receiver/sih_receiver/reassembly.py: bounded reassembly of fragmented records.
pub mod Slots
pub mod Bounds
pub mod Records
pub mod Expiry
mod Tests
use ot_security.Common.{
  ℕ, zero, suc, ◌+◌, Bool, true, false, not, ◌&&◌, ◌||◌, Option, none, some, List, [], ◌∷◌, ◌++◌,
  ltb, leb, ◌==◌, if◌then◌else◌, length, set, replicate, ℕ_discrete,
}
use ot_security.Common.Bytes.{Bytes}
use ot_security.Common.Dict.{Dict, Text, Eq, text_eq, text_dec, lookup, insert, erase}
use ot_security.Link.Frame.{Frame}

pub record Complete : Type 0 where
  pub type : ℕ
  pub sensor_id : Text
  pub boot_id : Text
  pub sequence : ℕ
  pub bytes : Bytes
  pub received_at_us : ℕ

-- The reasons of an `Expired`.
pub data Reason : Type 0 where
  fragment_overflow frame_malformed fragment_timeout : Reason

pub record Key : Type 0 where
  pub type : ℕ
  pub sensor_id : Text
  pub boot_id : Text
  pub sequence : ℕ

unfoldable pub key_dec : Discrete Key
key_dec = hlevel (ℕ_discrete, text_dec)

instance abbrev pub key_eq : Eq Key
key_eq = record { dec = key_dec }

pub record Expired : Type 0 where
  pub reason : Reason
  pub key : Key

-- An entry of `_pending`: [chunks, total, first_seen_us, received]
pub record Entry : Type 0 where
  pub chunks : List (Option Bytes)
  pub total : ℕ
  pub first_seen_us : ℕ
  pub received : ℕ

pub record Reassembler : Type 0 where
  pub max_pending : ℕ
  pub timeout_us : ℕ
  pub pending : Dict Key Entry

-- What `add` returns, or raises: an index beyond the chunks, or a join over a missing chunk.
pub data Answer : Type 0 where
  waiting : Answer
  complete : Complete → Answer
  index_error type_error : Answer

pub record Added : Type 0 where
  pub state : Reassembler
  pub expired : List Expired
  pub answer : Answer

abbrev pub key_of : Frame → Key
key_of f = record {
  type = f.type;
  sensor_id = f.sensor_id;
  boot_id = f.boot_id;
  sequence = f.sequence;
}

-- `p[0][i]`: `none` where the index is beyond the list
unfoldable pub slot : List (Option Bytes) → ℕ → Option (Option Bytes)
slot [] i = none
slot (c ∷ cs) zero = some c
slot (c ∷ cs) (suc i) = slot cs i

-- `b"".join(p[0])`: `none` is the TypeError over a missing chunk
unfoldable pub join : List (Option Bytes) → Option Bytes
join [] = some []
join (none ∷ cs) = none
join (some b ∷ cs) = elim (join cs) [ none ↦ none | some rest ↦ some (b ++ rest) ]

abbrev pub completed : Frame → ℕ → Bytes → Complete
completed f now_us bytes = record {
  type = f.type;
  sensor_id = f.sensor_id;
  boot_id = f.boot_id;
  sequence = f.sequence;
  bytes = bytes;
  received_at_us = now_us;
}

-- `add` from the test of `p[3]` on, for the entry p with its new chunk.
unfoldable pub finish : Reassembler → Frame → ℕ → List Expired → Entry → Added
finish r f now_us expired p =
    if ltb p.received f.frag_count
    then record {
      state = record r { pending = insert (key_of f) p r.pending };
      expired = expired;
      answer = waiting;
    }
    else record {
      state = record r { pending = erase (key_of f) r.pending };
      expired = expired;
      answer = elim (join p.chunks) [
        | none ↦ type_error
        | some bytes ↦ complete (completed f now_us bytes)
      ];
    }

-- `add` from `if p[0][f.frag_index] is None` on, for the entry p of the frame's key.
unfoldable pub store : Reassembler → Frame → ℕ → List Expired → Entry → Added
store r f now_us expired p = elim (slot p.chunks f.frag_index) [
  | none ↦ record {
    state = record r { pending = insert (key_of f) p r.pending };
    expired = expired;
    answer = index_error;
  }
  | some (some _) ↦ finish r f now_us expired p
  | some none ↦
      finish r f now_us expired
        (record p { chunks = set p.chunks f.frag_index (some f.chunk); received = p.received + 1 })
]

-- `popitem(last=False)` where the dict is full
unfoldable pub make_room : ℕ → Dict Key Entry → Dict Key Entry × List Expired
make_room max_pending [] = ([], [])
make_room max_pending ((k, p) ∷ rest) =
    if leb max_pending (length ((k, p) ∷ rest))
    then (rest, record { reason = fragment_overflow; key = k } ∷ [])
    else ((k, p) ∷ rest, [])

abbrev pub new_entry : Frame → ℕ → Entry
new_entry f now_us = record {
  chunks = replicate f.frag_count none;
  total = f.total_length;
  first_seen_us = now_us;
  received = 0;
}

-- The expired list is what `add` appends to its argument. Where `max_pending` is 0 and nothing is
-- pending the source raises a KeyError; the receiver's bound is 4096.
unfoldable pub add : Reassembler → Frame → ℕ → Added
add r f now_us =
    if f.frag_count == 1
    then record { state = r; expired = []; answer = complete (completed f now_us f.chunk) }
    else elim (lookup (key_of f) r.pending) [
      | none ↦
          let (pending, dropped) = make_room r.max_pending r.pending in
          store (record r { pending = pending }) f now_us dropped (new_entry f now_us)
      | some p ↦
          if not (length p.chunks == f.frag_count) || not (p.total == f.total_length)
          then record {
            state = record r { pending = erase (key_of f) r.pending };
            expired = record { reason = frame_malformed; key = key_of f } ∷ [];
            answer = waiting;
          }
          else store r f now_us [] p
    ]

-- The loop of `expire`. `now_us - first_seen < timeout` is a sum here, since a clock may step back.
unfoldable pub expire_loop : ℕ → ℕ → Dict Key Entry → Dict Key Entry × List Expired
expire_loop timeout_us now_us [] = ([], [])
expire_loop timeout_us now_us ((k, p) ∷ d) =
    let (rest, out) = expire_loop timeout_us now_us d in
    if ltb now_us (p.first_seen_us + timeout_us)
    then ((k, p) ∷ d, [])
    else (rest, record { reason = fragment_timeout; key = k } ∷ out)

unfoldable pub expire : Reassembler → ℕ → Reassembler × List Expired
unfolding expire_loop
expire r now_us =
    let (rest, out) = expire_loop r.timeout_us now_us r.pending in
    (record r { pending = rest }, out)
