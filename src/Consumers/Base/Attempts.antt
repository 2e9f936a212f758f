-- ===== src/Consumers/Base/Attempts.antt =====
-- One attempt of durable_write (consumers/sih_consumers/base.py), and what was pending before it.
use ot_security.Common.{◌≡◌, refl, Bool, true, false, List, [], ◌∷◌, if◌then◌else◌, inl, inr}
use mathlib.Core.Bool.{false≢true}
use ot_security.Common.Members.{In}
use ot_security.Consumers.Base.{
  Item, Answer, accepted, permanent, transient, Sink, Store, Batch, all_rows, is_empty, write,
  quarantine, write_good, quarantine_poison, attempt,
}
use ot_security.Consumers.Base.Settled.{
  Settled, Grows, Grows-refl, Grows-trans, Settled-later, Pending, all_rows-Stored, Wrote,
  write-Wrote, Kept, quarantine-Kept,
}

module _ {R : Type 0} where
  pub Pending-later :
      (good poison : List (Item R)) (s t : Store R) (i : Item R)
      → Grows s t
      → Pending good poison s i
      → Pending good poison t i
  unfolding Pending
  Pending-later good poison s t i g (inl h) = inl h
  Pending-later good poison s t i g (inr (inl h)) = inr (inl h)
  Pending-later good poison s t i g (inr (inr h)) = inr (inr (Settled-later s t i g h))

  pub is_empty-all :
      (xs : List (Item R)) (P : Item R → Type 0) → is_empty xs ≡ true → (i : Item R) → In i xs → P i
  unfolding is_empty
  is_empty-all [] P e i h = absurd h
  is_empty-all (x ∷ xs) P e i h = absurd (false≢true e)

  pub rows_empty :
      (rows : List R) (s : Store R) → is_empty rows ≡ true → (r : R) → In r rows → In r s.rows
  unfolding is_empty
  rows_empty [] s e r h = absurd h
  rows_empty (x ∷ xs) s e r h = absurd (false≢true e)

module _ {R : Type 0} (sink : Sink R) where
  pub write_good-Wrote : (b : Batch R) → Wrote sink (all_rows b.good) b.store (write_good sink b)
  unfolding write_good Wrote
  write_good-Wrote b = go (is_empty (all_rows b.good)) refl
    where
      go :
          (e : Bool)
          → is_empty (all_rows b.good) ≡ e
          → Wrote sink
              (all_rows b.good)
              b.store
              (if e then (accepted, b.store) else write sink (all_rows b.good) b.store)
      go true e = (Grows-refl b.store, rows_empty (all_rows b.good) b.store e)
      go false e = write-Wrote sink (all_rows b.good) b.store

  pub quarantine_poison-Kept :
      (poison : List (Item R)) (s : Store R) → Kept sink poison s (quarantine_poison sink poison s)
  unfolding quarantine_poison Kept
  quarantine_poison-Kept poison s = go (is_empty poison) refl
    where
      go :
          (e : Bool)
          → is_empty poison ≡ e
          → Kept sink poison s (if e then (accepted, s) else quarantine sink poison s)
      go true e = (Grows-refl s, is_empty-all poison (λ i. In i s.quarantined) e)
      go false e = quarantine-Kept sink poison s

  -- Each record is pending, or settled already.
  unfoldable pub AllPending : List (Item R) → Batch R → Type 0
  AllPending items b = (i : Item R) → In i items → Pending b.good b.poison b.store i

  -- What an attempt leaves: all that was pending is settled when it was accepted.
  unfoldable pub Attempted : Batch R → Answer × Store R → Type 0
  Attempted b (accepted, t) =
      Grows b.store t × ((i : Item R) → Pending b.good b.poison b.store i → Settled t i)
  Attempted b (permanent, t) = Grows b.store t
  Attempted b (transient, t) = Grows b.store t

  pub poisoned-Attempted :
      (b : Batch R) (s : Store R)
      → Grows b.store s
      → ((r : R) → In r (all_rows b.good) → In r s.rows)
      → (q : Answer × Store R) → Kept sink b.poison s q
      → Attempted b q
  unfolding Attempted Kept Pending
  poisoned-Attempted b s g w (permanent, t) h = Grows-trans g h
  poisoned-Attempted b s g w (transient, t) h = Grows-trans g h
  poisoned-Attempted b s g w (accepted, t) (h, k) = (
    Grows-trans g h,
    λ i p. elim p [
      | inl a ↦ inl (all_rows-Stored b.good t.rows (λ r m. h.rows r (w r m)) i a)
      | inr c ↦ elim c [
        | inl a ↦ inr (k i a)
        | inr a ↦ Settled-later b.store t i (Grows-trans g h) a
      ]
    ],
  )

  pub attempt-Attempted : (b : Batch R) → Attempted b (attempt sink b)
  unfolding attempt Attempted Wrote
  attempt-Attempted b = go (write_good sink b) (write_good-Wrote b)
    where
      go :
          (w : Answer × Store R)
          → Wrote sink (all_rows b.good) b.store w
          → Attempted b (elim w.0 as (λ _. Answer × Store R) [
            | accepted ↦ quarantine_poison sink b.poison w.1
            | permanent ↦ (permanent, w.1)
            | transient ↦ (transient, w.1)
          ])
      go (permanent, s) g = g
      go (transient, s) g = g
      go (accepted, s) (g, w) =
          poisoned-Attempted b s g w (quarantine_poison sink b.poison s)
            (quarantine_poison-Kept b.poison s)
