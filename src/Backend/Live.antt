-- ===== src/Backend/Live.antt =====
-- backend/sih_api/live.py and the stream of backend/sih_api/app.py: the ring of the last alerts, the queues of the
-- clients, and what each client is sent.
pub mod Stream
mod Ring
mod Kept
mod Published
mod Served
mod Tests
use ot_security.Common.{
  ℕ, zero, suc, ◌+◌, ◌-◌, ◌≡◌, Bool, true, false, not, ◌&&◌, ◌||◌, Option, none, some, List, [],
  ◌∷◌, ◌++◌, map, length, ltb, leb, ◌==◌, if◌then◌else◌,
}
use ot_security.Common.Dict.{Text, text_dec}

pub record LiveItem : Type 0 where
  pub seq : ℕ
  pub raw : Text

-- LiveHub, less its measurements; the queues stand in the streams.
pub record LiveHub : Type 0 where
  pub nonce : Text
  pub ring_size : ℕ
  pub client_queue : ℕ
  pub ring : List LiveItem
  pub seq : ℕ

-- `ring.append` of a deque that is bounded
unfoldable pub push : ℕ → List LiveItem → LiveItem → List LiveItem
push size [] i = if ltb 0 size then i ∷ [] else []
push size (j ∷ js) i = if ltb (length (j ∷ js)) size then (j ∷ js) ++ (i ∷ []) else js ++ (i ∷ [])

-- `last_event_id.rsplit("-", 1)`: the text before the last dash, and the one after it
unfoldable pub rsplit_dash : Text → Option (Text × Text)
rsplit_dash [] = none
rsplit_dash (c ∷ cs) = elim (rsplit_dash cs) [
  | some p ↦ some (c ∷ p.0, p.1)
  | none ↦ if c == 45 then some ([], cs) else none
]

-- `i[0] > seq` for the items of the ring
unfoldable pub newer : ℕ → List LiveItem → List LiveItem
newer k [] = []
newer k (i ∷ is) = let rest = newer k is in if ltb k i.seq then i ∷ rest else rest

-- `ring and seq < ring[0][0] - 1`
unfoldable pub is_gap : ℕ → List LiveItem → Bool
is_gap k [] = false
is_gap k (i ∷ is) = ltb (k + 1) i.seq

-- `parse_int` is int, `none` where it raises ValueError.
module _ (parse_int : Text → Option ℕ) where
  unfoldable pub backlog_after : LiveHub → Option Text → List LiveItem × Bool
  unfolding rsplit_dash newer is_gap
  backlog_after h none = ([], false)
  backlog_after h (some []) = ([], false)
  backlog_after h (some (c ∷ cs)) = elim (rsplit_dash (c ∷ cs)) [
    | none ↦ ([], true)
    | some p ↦ elim (parse_int p.1) [
      | none ↦ ([], true)
      | some k ↦ elim (text_dec p.0 h.nonce) [
        | no _ ↦ ([], true)
        | yes _ ↦ if is_gap k h.ring then ([], true) else (newer k h.ring, false)
      ]
    ]
  ]

  -- The number after which a client asks for items: that of its id, or else the last one there is
  unfoldable pub asked : LiveHub → Option Text → ℕ
  unfolding rsplit_dash
  asked h none = h.seq
  asked h (some last) = elim (rsplit_dash last) [
    | none ↦ h.seq
    | some p ↦ elim (parse_int p.1) [ none ↦ h.seq | some k ↦ k ]
  ]
