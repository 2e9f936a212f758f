-- ===== src/Consumers/Base/Growth.antt =====
-- The store over durable_write (consumers/sih_consumers/base.py): what it holds before and after.
use ot_security.Common.{
  ℕ, zero, suc, ◌+◌, ◌≡◌, subst, Bool, true, false, not, ◌&&◌, Option, none, some, List, leb,
  if◌then◌else◌,
}
use ot_security.Consumers.Base.{
  Item, Answer, accepted, permanent, transient, Sink, Store, Batch, is_empty, isolate, attempt,
  rejected, failed, write_loop, durable_write,
}
use ot_security.Consumers.Base.Settled.{Grows, Grows-refl, Grows-trans, Isolated, isolate-Isolated}
use ot_security.Consumers.Base.Attempts.{Attempted, attempt-Attempted}

module _ {R : Type 0} (sink : Sink R) where
  failed-Grows : (e : Bool) (b : Batch R) → Grows b.store (failed sink e b).store
  unfolding failed rejected
  failed-Grows e b = go (e && not (is_empty b.good)) (leb 3 (b.permanent_attempts + 1))
    where
      o : List (Item R) × List (Item R) × Store R
      o = isolate sink b.good b.poison b.store

      v : Isolated sink b.good b.poison b.store o
      v = isolate-Isolated sink b.good b.poison b.store

      go :
          (d e : Bool)
          → Grows b.store
              (if d
                then (if e
                    then record {
                      good = o.0;
                      poison = o.1;
                      permanent_attempts = b.permanent_attempts + 1;
                      transient_attempts = b.transient_attempts;
                      store = o.2;
                    }
                    else record b { permanent_attempts = b.permanent_attempts + 1 })
                else record b { transient_attempts = b.transient_attempts + 1 }).store
      go true true = v.grows
      go true false = Grows-refl b.store
      go false e = Grows-refl b.store

  -- The store that a loop leaves, when it ends
  GrowsTo : Store R → Option (Bool × Store R) → Type 0
  GrowsTo s none = Unit
  GrowsTo s (some o) = Grows s o.1

  GrowsTo-later :
      (s t : Store R) → Grows s t → (o : Option (Bool × Store R)) → GrowsTo t o → GrowsTo s o
  unfolding GrowsTo
  GrowsTo-later s t g none h = tt
  GrowsTo-later s t g (some o) h = Grows-trans g h

  write_loop-GrowsTo :
      (stopped : ℕ → Bool) (n k : ℕ) (b : Batch R) → GrowsTo b.store (write_loop sink stopped n k b)
  unfolding write_loop GrowsTo Attempted
  write_loop-GrowsTo stopped zero k b = tt
  write_loop-GrowsTo stopped (suc n) k b =
      go (λ b'. write_loop-GrowsTo stopped n (k + 1) b') (stopped k) (attempt sink b)
        (attempt-Attempted sink b)
    where
      again :
          ((b' : Batch R) → GrowsTo b'.store (write_loop sink stopped n (k + 1) b'))
          → (c : Bool) (t : Store R) → Grows b.store t
          → GrowsTo b.store
              (write_loop sink stopped n (k + 1) (failed sink c (record b { store = t })))
      again rest c t g =
          let b' : Batch R = failed sink c (record b { store = t }) in
          GrowsTo-later b.store b'.store (Grows-trans g (failed-Grows c (record b { store = t }))) _
            (rest b')

      go :
          ((b' : Batch R) → GrowsTo b'.store (write_loop sink stopped n (k + 1) b'))
          → (c : Bool) (w : Answer × Store R) → Attempted sink b w
          → GrowsTo b.store (elim c as (λ _. Option (Bool × Store R)) [
            | true ↦ some (false, b.store)
            | false ↦ elim w.0 as (λ _. Option (Bool × Store R)) [
              | accepted ↦ some (true, w.1)
              | permanent ↦
                  write_loop sink stopped n (k + 1) (failed sink true (record b { store = w.1 }))
              | transient ↦
                  write_loop sink stopped n (k + 1) (failed sink false (record b { store = w.1 }))
            ]
          ])
      go rest true w h = Grows-refl b.store
      go rest false (accepted, t) (g, h) = g
      go rest false (permanent, t) g = again rest true t g
      go rest false (transient, t) g = again rest false t g

  pub durable_write-Grows :
      (stopped : ℕ → Bool) (rounds : ℕ) (items : List (Item R)) (s : Store R) (o : Bool × Store R)
      → durable_write sink stopped rounds items s ≡ some o
      → Grows s o.1
  unfolding durable_write GrowsTo
  durable_write-Grows stopped rounds items s o e =
      subst (GrowsTo s) e (write_loop-GrowsTo stopped rounds 0 _)
