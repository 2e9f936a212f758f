-- ===== src/Link/Reassembly/Slots.antt =====
-- The chunks of one pending record.
use ot_security.Common.{
  ℕ, zero, suc, ◌+◌, ◌≤◌, ◌<◌, ◌≡◌, refl, Option, none, some, List, [], ◌∷◌, ◌++◌, arith, length,
  set, replicate,
}
use ot_security.Common.Bytes.{Bytes}
use ot_security.Link.Reassembly.{slot, join}

-- How many chunks have come.
unfoldable pub filled : List (Option Bytes) → ℕ
filled [] = 0
filled (none ∷ cs) = filled cs
filled (some _ ∷ cs) = suc (filled cs)

pub filled-le : (cs : List (Option Bytes)) → filled cs ≤ length cs
unfolding filled
filled-le [] = omega arith
filled-le (none ∷ cs) = omega (arith, filled-le cs)
filled-le (some _ ∷ cs) = omega (arith, filled-le cs)

pub filled-replicate : (n : ℕ) → filled (replicate n none) ≡ 0
unfolding filled
filled-replicate zero = refl
filled-replicate (suc n) = filled-replicate n

pub filled-set :
    (cs : List (Option Bytes)) (i : ℕ) (b : Bytes)
    → slot cs i ≡ some none
    → filled (set cs i (some b)) ≡ filled cs + 1
unfolding filled slot
filled-set [] i b h = absurd (cc)
filled-set (c ∷ cs) zero b h = ground arith
filled-set (none ∷ cs) (suc i) b h = filled-set cs i b h
filled-set (some x ∷ cs) (suc i) b h = omega (arith, filled-set cs i b h)

pub slot_in_range :
    (cs : List (Option Bytes)) (i : ℕ) → i < length cs → (c : Option Bytes) × (slot cs i ≡ some c)
unfolding slot
slot_in_range [] i h = absurd (omega arith)
slot_in_range (c ∷ cs) zero h = (c, refl)
slot_in_range (c ∷ cs) (suc i) h = slot_in_range cs i (omega arith)

pub join_all : (cs : List (Option Bytes)) → filled cs ≡ length cs → (b : Bytes) × (join cs ≡ some b)
unfolding filled join
join_all [] h = ([], refl)
join_all (none ∷ cs) h = absurd (omega (arith, filled-le cs))
join_all (some b ∷ cs) h = let (rest, e) = join_all cs (omega arith) in (b ++ rest, rw e)
