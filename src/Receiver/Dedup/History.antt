-- ===== src/Receiver/Dedup/History.antt =====
-- Whole histories of marks on one stream.
use ot_security.Common.{
  ℕ, suc, ◌+◌, ◌-◌, ◌≤◌, ◌<◌, max, ◌≡◌, ap, sym, ◌∙◌, Bool, true, false, List, [], ◌∷◌, arith, ◌==◌,
  ==_refl, if◌then◌else◌, Bool-cases, inl, inr, length,
}
use ot_security.Common.Int.{ℤ, pos, ◌+ℤ◌, int_laws}
use ot_security.Common.Bytes.{Bytes}
use ot_security.Receiver.Dedup.{Stream, Totals, fresh, mark_stream}
use ot_security.Receiver.Dedup.Count.{
  unseen, unseen_below_above, unseen_with_past, unseen_with_below, unseen_below_le, with_seq,
  unseen_below_hit,
}
use ot_security.Receiver.Dedup.Tracks.{Tracks, low}
use ot_security.Receiver.Dedup.Accept.{IsTracked}
use ot_security.Receiver.Dedup.Mark.{accepts, ideal_class, mark_stream-IsTracked, first-IsTracked}

pub record Run : Type 0 where
  pub stream : Stream
  pub totals : Totals
  pub accepted : List ℕ

-- `mark` for each sequence in turn, with the sequences that it classes as new or reordered.
unfoldable pub run : Totals → Stream → List ℕ → Run
run t s [] = record { stream = s; totals = t; accepted = [] }
run t s (q ∷ qs) =
    let m = mark_stream t s q in
    let rest = run m.totals m.stream qs in
    record rest { accepted = if accepts m.class then q ∷ rest.accepted else rest.accepted }

-- How often x stands in a list.
unfoldable pub times : ℕ → List ℕ → ℕ
times x [] = 0
times x (y ∷ ys) = (if x == y then 1 else 0) + times x ys

abbrev one_if : Bool → ℕ
one_if b = if b then 1 else 0

-- Only sequences that have not been accepted are accepted.
unseen_of_accepts :
    (p : ℕ → Bool) (b h q : ℕ)
    → ((r : ℕ) → h < r → p r ≡ false)
    → accepts (ideal_class p b h q) ≡ true
    → p q ≡ false
unseen_of_accepts p b h q after a = ground (arith, after q)

-- Counting the accepted sequences of the range, those before and one more.
one_more :
    (p : ℕ → Bool) (b h q n : ℕ)
    → b ≤ h
    → b ≤ q
    → ((r : ℕ) → h < r → p r ≡ false)
    → ((r : ℕ) → r < b → p r ≡ false)
    → p q ≡ false
    → unseen p b (h + 1) + n ≡ h + 1 - b
    → unseen (with_seq p q) b (max h q + 1) + (n + 1) ≡ max h q + 1 - b
one_more p b h q n o l after before s e =
    let up : h + 1 + (max h q - h) ≡ max h q + 1 = omega arith in
    omega (
      arith,
      rw up at (unseen_below_above p (h + 1) (max h q - h) (λ r k. after r (omega arith))),
      unseen_with_past p q (max h q + 1) s (omega arith),
      unseen_with_below p q b s l,
      unseen_below_le p b (h + 1) (omega arith),
      unseen_below_le (with_seq p q) b (max h q + 1) (omega arith),
    )

module _ (x : ℕ) where
  run_once :
      (qs : List ℕ) (t : Totals) (s : Stream) {p : ℕ → Bool} {b h : ℕ} {gaps0 : ℤ}
      → IsTracked p b h gaps0 t.gaps s
      → times x (run t s qs).accepted + one_if (p x) ≤ 1
  unfolding run times
  run_once [] t s {p} k = ground arith
  run_once (q ∷ qs) t s {p} {b} {h} k =
      let m = mark_stream t s q in
      let (class, k') = mark_stream-IsTracked t q k in
      elim (Bool-cases (accepts m.class)) [
        | inl a ↦ ground (
          arith,
          a,
          run_once qs m.totals m.stream k',
          unseen_of_accepts p b h q k.tracks.after (sym (ap accepts class) ∙ a),
        )
        | inr r ↦ ground (arith, r, run_once qs m.totals m.stream k')
      ]

  -- However its sequences are repeated and ordered, a stream accepts none of them twice.
  pub accepted_once : (t : Totals) (qs : List ℕ) → times x (run t fresh qs).accepted ≤ 1
  unfolding run times
  accepted_once t [] = omega arith
  accepted_once t (q ∷ qs) =
      let m = mark_stream t fresh q in
      let (class, k) = first-IsTracked t q in ground (arith, class, run_once qs m.totals m.stream k)

base-le_of_accepts :
    (p : ℕ → Bool) (b h q : ℕ) → b ≤ h → accepts (ideal_class p b h q) ≡ true → b ≤ q
base-le_of_accepts p b h q o a = ground arith

max_of_rejects : (p : ℕ → Bool) (b h q : ℕ) → accepts (ideal_class p b h q) ≡ false → max h q ≡ h
max_of_rejects p b h q r = ground arith

-- After n accepted sequences and the run r, every sequence from the base to the highest was
-- accepted, or is counted as missing or as a gap.
abbrev pub BalancedFrom : ℕ → ℤ → Run → Type 0
BalancedFrom n gaps0 r =
    (b : ℕ) × (h : ℕ) × (r.stream.base ≡ pos b)
    × (r.stream.highest ≡ pos h)
    × (r.totals.gaps +ℤ r.stream.missing +ℤ pos (n + length r.accepted) ≡ gaps0 +ℤ pos (h + 1 - b))

module _ {p : ℕ → Bool} {b h : ℕ} {gaps0 gaps missing : ℤ} {bits : Bytes} (n : ℕ) where
  balance_now :
      Tracks p b h gaps0 gaps missing bits
      → unseen p b (h + 1) + n ≡ h + 1 - b
      → gaps +ℤ missing +ℤ pos (n + 0) ≡ gaps0 +ℤ pos (h + 1 - b)
  balance_now t e =
      rw (t.lost, t.waiting)
        (omega (
          int_laws,
          e,
          unseen_below_le p b (low b h) (omega arith),
          unseen_below_le p (low b h) (h + 1) (omega (arith, t.ordered)),
        ))

regroup_count : (n k : ℕ) (z w : ℤ) → z +ℤ pos (n + 1 + k) ≡ w → z +ℤ pos (n + suc k) ≡ w
regroup_count n k z w e = let f : n + suc k ≡ n + 1 + k = omega arith in rw f e

module _ (n : ℕ) (gaps0 : ℤ) (q : ℕ) (c : Bool) (r : Run) where
  balance_accepted :
      c ≡ true
      → BalancedFrom (n + 1) gaps0 r
      → BalancedFrom n gaps0 (record r { accepted = if c then q ∷ r.accepted else r.accepted })
  balance_accepted a (b, h, base, highest, total) =
      (b, h, base, highest, rw a (regroup_count n _ _ _ total))

  balance_rejected :
      c ≡ false
      → BalancedFrom n gaps0 r
      → BalancedFrom n gaps0 (record r { accepted = if c then q ∷ r.accepted else r.accepted })
  balance_rejected a (b, h, base, highest, total) = (b, h, base, highest, rw a total)

run_balance :
    (qs : List ℕ) (t : Totals) (s : Stream) (n : ℕ) {p : ℕ → Bool} {b h : ℕ} {gaps0 : ℤ}
    → IsTracked p b h gaps0 t.gaps s
    → unseen p b (h + 1) + n ≡ h + 1 - b
    → BalancedFrom n gaps0 (run t s qs)
unfolding run
run_balance [] t s n {p} {b} {h} k e = (b, h, k.base, k.highest, balance_now n k.tracks e)
run_balance (q ∷ qs) t s n {p} {b} {h} {gaps0} k e =
    let m = mark_stream t s q in
    let (class, k') = mark_stream-IsTracked t q k in
    elim (Bool-cases (accepts m.class)) [
      | inl a ↦
          let a' = sym (ap accepts class) ∙ a in
          let more =
            one_more p b h q n k.tracks.ordered (base-le_of_accepts p b h q k.tracks.ordered a')
              k.tracks.after k.tracks.before (unseen_of_accepts p b h q k.tracks.after a') e in
          balance_accepted n gaps0 q (accepts m.class) (run m.totals m.stream qs) a
            (run_balance qs m.totals m.stream (n + 1) (rw a at k') more)
      | inr r ↦
          let same = max_of_rejects p b h q (sym (ap accepts class) ∙ r) in
          balance_rejected n gaps0 q (accepts m.class) (run m.totals m.stream qs) r
            (run_balance qs m.totals m.stream n (rw (r, same) at k') e)
    ]

-- From its first sequence on, a stream loses count of nothing: the gaps and the missing sequences
-- that it reports, with the sequences that it accepted, make up the range from its base to its
-- highest sequence.
pub run_balanced : (t : Totals) (q : ℕ) (qs : List ℕ) → BalancedFrom 0 t.gaps (run t fresh (q ∷ qs))
unfolding run
run_balanced t q qs =
    let m = mark_stream t fresh q in
    let (class, k) = first-IsTracked t q in
    let one : unseen (λ r. r == q) q (q + 1) + 1 ≡ q + 1 - q =
      rw (unseen_below_hit (λ r. r == q) q (==_refl q)) (omega arith) in
    balance_accepted 0 t.gaps q (accepts m.class) (run m.totals m.stream qs) (ap accepts class)
      (run_balance qs m.totals m.stream 1 k one)
