-- ===== src/Consumers/Base/Written.antt =====
-- The records of a batch over the rounds of durable_write (consumers/sih_consumers/base.py).
use ot_security.Common.{
  ℕ, zero, suc, ◌+◌, ◌≡◌, refl, sym, ap, subst, Bool, true, false, not, ◌&&◌, Option, some, List,
  [], ◌∷◌, leb, if◌then◌else◌, inl, inr, ◌⊎◌, All,
}
use mathlib.Core.Bool.{false≢true}
use mathlib.Core.Option.{some-injective, none-ne-some}
use ot_security.Common.Members.{In}
use ot_security.Consumers.Base.{
  Item, Answer, accepted, permanent, transient, Sink, Store, Batch, is_empty, with_rows, isolate,
  attempt, rejected, failed, write_loop, durable_write,
}
use ot_security.Consumers.Base.Settled.{
  Stored, Settled, Grows, Settled-later, Pending, Isolated, isolate-Isolated,
}
use ot_security.Consumers.Base.Attempts.{Pending-later, AllPending, Attempted, attempt-Attempted}

module _ {R : Type 0} (sink : Sink R) where
  rejected-AllPending :
      (items : List (Item R)) (b : Batch R)
      → AllPending sink items b
      → AllPending sink items (rejected sink b)
  unfolding AllPending rejected Pending
  rejected-AllPending items b h = go (leb 3 (b.permanent_attempts + 1))
    where
      v : Isolated sink b.good b.poison b.store (isolate sink b.good b.poison b.store)
      v = isolate-Isolated sink b.good b.poison b.store

      o : List (Item R) × List (Item R) × Store R
      o = isolate sink b.good b.poison b.store

      go :
          (e : Bool)
          → AllPending sink items (
              if e
              then record {
                good = o.0;
                poison = o.1;
                permanent_attempts = b.permanent_attempts + 1;
                transient_attempts = b.transient_attempts;
                store = o.2;
              }
              else record b { permanent_attempts = b.permanent_attempts + 1 })
      go false = h
      go true = λ i m. elim (h i m) [
        | inl a ↦ v.pending i a
        | inr c ↦ elim c [
          | inl a ↦ inr (inl (v.poisoned i a))
          | inr a ↦ inr (inr (Settled-later b.store o.2 i v.grows a))
        ]
      ]

  failed-AllPending :
      (items : List (Item R)) (e : Bool) (b : Batch R)
      → AllPending sink items b
      → AllPending sink items (failed sink e b)
  unfolding failed AllPending
  failed-AllPending items e b h = go (e && not (is_empty b.good))
    where
      go :
          (c : Bool)
          → AllPending sink items (
              if c
              then rejected sink b
              else record b { transient_attempts = b.transient_attempts + 1 })
      go true = rejected-AllPending items b h
      go false = h

  AllPending-later :
      (items : List (Item R)) (b : Batch R) (t : Store R)
      → Grows b.store t
      → AllPending sink items b
      → AllPending sink items (record b { store = t })
  unfolding AllPending
  AllPending-later items b t g h i m = Pending-later b.good b.poison b.store t i g (h i m)

  write_loop-Settled :
      (stopped : ℕ → Bool) (items : List (Item R)) (n k : ℕ) (b : Batch R) (t : Store R)
      → AllPending sink items b
      → write_loop sink stopped n k b ≡ some (true, t)
      → (i : Item R) → In i items
      → Settled t i
  unfolding write_loop AllPending Attempted
  write_loop-Settled stopped items zero k b t h e = absurd (none-ne-some _ e)
  write_loop-Settled stopped items (suc n) k b t h e =
      go (λ b' h' e'. write_loop-Settled stopped items n (k + 1) b' t h' e') (stopped k) e
    where
      Rest : Type 0
      Rest =
          (b' : Batch R)
          → AllPending sink items b'
          → write_loop sink stopped n (k + 1) b' ≡ some (true, t)
          → (i : Item R) → In i items
          → Settled t i

      rounds : Answer × Store R → Option (Bool × Store R)
      rounds w = elim w.0 as (λ _. Option (Bool × Store R)) [
        | accepted ↦ some (true, w.1)
        | permanent ↦
            write_loop sink stopped n (k + 1) (failed sink true (record b { store = w.1 }))
        | transient ↦
            write_loop sink stopped n (k + 1) (failed sink false (record b { store = w.1 }))
      ]

      again :
          Rest
          → (c : Bool) (s : Store R) → Grows b.store s
          → write_loop sink stopped n (k + 1) (failed sink c (record b { store = s }))
            ≡ some (true, t)
          → (i : Item R) → In i items
          → Settled t i
      again rest c s g e =
          rest (failed sink c (record b { store = s }))
            (failed-AllPending items c (record b { store = s }) (AllPending-later items b s g h)) e

      after :
          Rest
          → (w : Answer × Store R) → Attempted sink b w
          → rounds w ≡ some (true, t)
          → (i : Item R) → In i items
          → Settled t i
      after rest (accepted, s) (g, a) e' =
          λ i m. subst (λ x. Settled x i) (ap (λ o. o.1) (some-injective _ _ e')) (a i (h i m))
      after rest (permanent, s) g e = again rest true s g e
      after rest (transient, s) g e = again rest false s g e

      go :
          Rest
          → (c : Bool)
          → elim c as (λ _. Option (Bool × Store R)) [
            | true ↦ some (false, b.store)
            | false ↦ rounds (attempt sink b)
          ]
            ≡ some (true, t)
          → (i : Item R) → In i items
          → Settled t i
      go rest true e = absurd (false≢true (ap (λ o. o.0) (some-injective _ _ e)))
      go rest false e = after rest (attempt sink b) (attempt-Attempted sink b) e

  with_rows-Pending :
      (items : List (Item R)) (s : Store R) (i : Item R)
      → In i items
      → Pending (with_rows items) [] s i
  unfolding with_rows Pending
  with_rows-Pending [] s i h = absurd h
  with_rows-Pending (j ∷ items) s i h = go j.rows refl h (with_rows-Pending items s i)
    where
      P : Item R → List (Item R) → Type 0
      P i' xs = In i' xs ⊎ (⊥ ⊎ Settled s i')

      go :
          (rows : List R)
          → j.rows ≡ rows
          → (i ≡ j) ⊎ In i items
          → (In i items → P i (with_rows items))
          → P i (if is_empty rows then with_rows items else j ∷ with_rows items)
      go [] e (inl m) rest = inr (
          inr (
            inl
              (subst (λ x. Stored s x) (sym m) (subst (λ x. All (λ r. In r s.rows) x) (sym e) tt))))
      go [] e (inr m) rest = rest m
      go (x ∷ xs) e (inl m) rest = inl (inl m)
      go (x ∷ xs) e (inr m) rest = elim (rest m) [ inl a ↦ inl (inr a) | inr b ↦ inr b ]

  -- When `durable_write` answers true, each record of the batch is settled: every one of its rows is stored, or the
  -- record is in quarantine, whatever the storage answered to the calls.
  pub durable_write-Settled :
      (stopped : ℕ → Bool) (rounds : ℕ) (items : List (Item R)) (s t : Store R)
      → durable_write sink stopped rounds items s ≡ some (true, t)
      → (i : Item R) → In i items
      → Settled t i
  unfolding durable_write AllPending
  durable_write-Settled stopped rounds items s t e =
      write_loop-Settled stopped items rounds 0 _ t (with_rows-Pending items s) e
