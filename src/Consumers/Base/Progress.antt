-- ===== src/Consumers/Base/Progress.antt =====
-- The rounds of durable_write (consumers/sih_consumers/base.py), over a storage that recovers.
use ot_security.Common.{
  ℕ, zero, suc, ◌+◌, ◌≤◌, ◌<◌, ◌≡◌, refl, Bool, true, false, Option, some, List, [], arith, All,
  sym,
}
use mathlib.Core.Bool.{false≢true}
use ot_security.Common.Members.{All-In}
use ot_security.Consumers.Base.{
  Item, Answer, accepted, permanent, transient, Sink, Store, Batch, with_rows, attempt, failed,
  write_loop, durable_write,
}
use ot_security.Consumers.Base.Settled.{Settled}
use ot_security.Consumers.Base.Written.{durable_write-Settled}
use ot_security.Consumers.Base.Calls.{AcceptsFrom, Called, attempt-Called, failed-calls}

module _ {R : Type 0} (sink : Sink R) where
  -- The loop ends well: it answers true, and leaves a store.
  EndsWell : Option (Bool × Store R) → Type 0
  EndsWell o = (t : Store R) × (o ≡ some (true, t))

  -- One round, with what the rounds after it do
  round :
      (stopped : Bool)
      → Batch R
      → (Batch R → Option (Bool × Store R))
      → Answer × Store R
      → Option (Bool × Store R)
  round stopped b rest w = elim stopped as (λ _. Option (Bool × Store R)) [
    | true ↦ some (false, b.store)
    | false ↦ elim w.0 as (λ _. Option (Bool × Store R)) [
      | accepted ↦ some (true, w.1)
      | permanent ↦ rest (failed sink true (record b { store = w.1 }))
      | transient ↦ rest (failed sink false (record b { store = w.1 }))
    ]
  ]

  round-EndsWell :
      (n : ℕ) (stopped : Bool)
      → stopped ≡ false
      → (b : Batch R) (rest : Batch R → Option (Bool × Store R)) → (w : Answer × Store R)
      → Called sink n b.store w
      → (b.store.calls < n → (b' : Batch R) → b.store.calls < b'.store.calls → EndsWell (rest b'))
      → EndsWell (round stopped b rest w)
  unfolding round Called EndsWell
  round-EndsWell n true e b rest w h later = absurd (false≢true (sym e))
  round-EndsWell n false e b rest (accepted, t) h later = (t, refl)
  round-EndsWell n false e b rest (permanent, t) (g, h) later =
      let d = failed-calls sink true (record b { store = t }) in
      later h (failed sink true (record b { store = t })) (omega arith)
  round-EndsWell n false e b rest (transient, t) (g, h) later =
      let d = failed-calls sink false (record b { store = t }) in
      later h (failed sink false (record b { store = t })) (omega arith)

  write_loop-EndsWell :
      (n : ℕ)
      → AcceptsFrom sink n
      → (stopped : ℕ → Bool) → ((k : ℕ) → stopped k ≡ false)
      → (m k : ℕ) (b : Batch R) → n ≤ m + b.store.calls
      → EndsWell (write_loop sink stopped (suc m) k b)
  unfolding write_loop round
  write_loop-EndsWell n f stopped run zero k b l =
      round-EndsWell n (stopped k) (run k) b (write_loop sink stopped zero (k + 1)) (attempt sink b)
        (attempt-Called sink n f b) (λ h b' g. absurd (omega arith))
  write_loop-EndsWell n f stopped run (suc m) k b l =
      round-EndsWell n (stopped k) (run k) b (write_loop sink stopped (suc m) (k + 1))
        (attempt sink b) (attempt-Called sink n f b)
        (λ h b' g. write_loop-EndsWell n f stopped run m (k + 1) b' (omega arith))

  -- When the storage accepts every call from its n-th on, and nothing stops the loop, n + 1 rounds are enough: the
  -- loop ends with the answer true, and every record of the batch is settled.
  pub durable_write-EndsWell :
      (n : ℕ)
      → AcceptsFrom sink n
      → (stopped : ℕ → Bool) → ((k : ℕ) → stopped k ≡ false)
      → (items : List (Item R)) (s : Store R)
      → (t : Store R) × ((durable_write sink stopped (suc n) items s ≡ some (true, t))
          × All (Settled t) items)
  unfolding durable_write EndsWell
  durable_write-EndsWell n f stopped run items s =
      let ends =
        write_loop-EndsWell n f stopped run n 0
          (record {
            good = with_rows items;
            poison = [];
            permanent_attempts = 0;
            transient_attempts = 0;
            store = s;
          })
          (omega arith) in
      (
        ends.0,
        (
          ends.1,
          All-In (Settled ends.0) items
              (durable_write-Settled sink stopped (suc n) items s ends.0 ends.1),
        ),
      )
