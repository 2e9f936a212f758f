-- ===== src/Consumers/Base/Calls.antt =====
-- The number of calls that the steps of durable_write (consumers/sih_consumers/base.py) make.
use ot_security.Common.{
  ℕ, ◌+◌, ◌≤◌, ◌<◌, ◌≡◌, refl, Bool, true, false, not, ◌&&◌, List, [], ◌∷◌, ◌++◌, leb,
  if◌then◌else◌, arith, dec_lt, sym, ap, ◌∙◌,
}
use mathlib.Core.Bool.{false≢true}
use ot_security.Consumers.Base.{
  Item, Answer, accepted, permanent, transient, Sink, Store, Batch, all_rows, is_empty, write,
  quarantine, isolate, write_good, quarantine_poison, attempt, rejected, failed,
}

module _ {R : Type 0} (sink : Sink R) where
  -- From its n-th call on, the storage accepts every call.
  pub record AcceptsFrom (n : ℕ) : Type 0 where
    pub writes : (k : ℕ) (rows : List R) → n ≤ k → sink.write k rows ≡ accepted
    pub quarantines : (k : ℕ) (items : List (Item R)) → n ≤ k → sink.quarantine k items ≡ accepted

  pub is_accepted : Answer → Bool
  is_accepted accepted = true
  is_accepted permanent = false
  is_accepted transient = false

  -- A call that is refused is one of the first n.
  pub refused_early :
      (n k : ℕ) (a : Answer) → is_accepted a ≡ false → (n ≤ k → a ≡ accepted) → k < n
  unfolding is_accepted
  refused_early n k a e h = elim (dec_lt k n) [
    | yes l ↦ l
    | no l ↦ absurd (false≢true (sym e ∙ ap is_accepted (h (omega arith))))
  ]

  -- A step that fails has made a call, one of the first n.
  unfoldable pub Called : ℕ → Store R → Answer × Store R → Type 0
  Called n s (accepted, t) = s.calls ≤ t.calls
  Called n s (permanent, t) = (s.calls < t.calls) × (s.calls < n)
  Called n s (transient, t) = (s.calls < t.calls) × (s.calls < n)

  pub write-Called :
      (n : ℕ) → AcceptsFrom n → (rows : List R) (s : Store R) → Called n s (write sink rows s)
  unfolding write Called is_accepted
  write-Called n f rows s = go (sink.write s.calls rows) (λ h. f.writes s.calls rows h)
    where
      called : Store R
      called = record s { calls = s.calls + 1 }

      go :
          (a : Answer)
          → (n ≤ s.calls → a ≡ accepted)
          → Called n s (elim a as (λ _. Answer × Store R) [
            | accepted ↦ (accepted, record called { rows = s.rows ++ rows })
            | permanent ↦ (permanent, called)
            | transient ↦ (transient, called)
          ])
      go accepted h = omega arith
      go permanent h = (omega arith, refused_early n s.calls permanent refl h)
      go transient h = (omega arith, refused_early n s.calls transient refl h)

  pub quarantine-Called :
      (n : ℕ)
      → AcceptsFrom n
      → (items : List (Item R)) (s : Store R) → Called n s (quarantine sink items s)
  unfolding quarantine Called is_accepted
  quarantine-Called n f items s =
      go (sink.quarantine s.calls items) (λ h. f.quarantines s.calls items h)
    where
      called : Store R
      called = record s { calls = s.calls + 1 }

      go :
          (a : Answer)
          → (n ≤ s.calls → a ≡ accepted)
          → Called n s (elim a as (λ _. Answer × Store R) [
            | accepted ↦ (accepted, record called { quarantined = s.quarantined ++ items })
            | permanent ↦ (permanent, called)
            | transient ↦ (transient, called)
          ])
      go accepted h = omega arith
      go permanent h = (omega arith, refused_early n s.calls permanent refl h)
      go transient h = (omega arith, refused_early n s.calls transient refl h)

  pub quarantine_poison-Called :
      (n : ℕ)
      → AcceptsFrom n
      → (poison : List (Item R)) (s : Store R) → Called n s (quarantine_poison sink poison s)
  unfolding quarantine_poison Called
  quarantine_poison-Called n f poison s = go (is_empty poison)
    where
      go : (e : Bool) → Called n s (if e then (accepted, s) else quarantine sink poison s)
      go true = omega arith
      go false = quarantine-Called n f poison s

  pub write_good-Called :
      (n : ℕ) → AcceptsFrom n → (b : Batch R) → Called n b.store (write_good sink b)
  unfolding write_good Called
  write_good-Called n f b = go (is_empty (all_rows b.good))
    where
      go :
          (e : Bool)
          → Called n b.store
              (if e then (accepted, b.store) else write sink (all_rows b.good) b.store)
      go true = omega arith
      go false = write-Called n f (all_rows b.good) b.store

  pub Called-trans :
      (n : ℕ) (s t : Store R)
      → s.calls ≤ t.calls
      → (o : Answer × Store R) → Called n t o
      → Called n s o
  unfolding Called
  Called-trans n s t l (accepted, u) h = omega arith
  Called-trans n s t l (permanent, u) (h, k) = (omega arith, omega arith)
  Called-trans n s t l (transient, u) (h, k) = (omega arith, omega arith)

  pub attempt-Called : (n : ℕ) → AcceptsFrom n → (b : Batch R) → Called n b.store (attempt sink b)
  unfolding attempt Called
  attempt-Called n f b = go (write_good sink b) (write_good-Called n f b)
    where
      go :
          (w : Answer × Store R)
          → Called n b.store w
          → Called n b.store (elim w.0 as (λ _. Answer × Store R) [
            | accepted ↦ quarantine_poison sink b.poison w.1
            | permanent ↦ (permanent, w.1)
            | transient ↦ (transient, w.1)
          ])
      go (accepted, s) l = Called-trans n b.store s l _ (quarantine_poison-Called n f b.poison s)
      go (permanent, s) h = h
      go (transient, s) h = h

  pub write_calls : (rows : List R) (s : Store R) → s.calls ≤ (write sink rows s).1.calls
  unfolding write
  write_calls rows s = go (sink.write s.calls rows)
    where
      called : Store R
      called = record s { calls = s.calls + 1 }

      go :
          (a : Answer)
          → s.calls
            ≤ (elim a as (λ _. Answer × Store R) [
              | accepted ↦ (accepted, record called { rows = s.rows ++ rows })
              | permanent ↦ (permanent, called)
              | transient ↦ (transient, called)
            ]).1.calls
      go accepted = omega arith
      go permanent = omega arith
      go transient = omega arith

  pub isolate-calls :
      (good poison : List (Item R)) (s : Store R) → s.calls ≤ (isolate sink good poison s).2.calls
  unfolding isolate
  isolate-calls [] poison s = omega arith
  isolate-calls (i ∷ is) poison s =
      go (λ p t. isolate-calls is p t) (write sink i.rows s) (write_calls i.rows s)
    where
      go :
          ((p : List (Item R)) (t : Store R) → t.calls ≤ (isolate sink is p t).2.calls)
          → (w : Answer × Store R) → s.calls ≤ w.1.calls
          → s.calls
            ≤ (elim w.0 as (λ _. List (Item R) × List (Item R) × Store R) [
              | accepted ↦ isolate sink is poison w.1
              | permanent ↦ isolate sink is (poison ++ (i ∷ [])) w.1
              | transient ↦
                  let (still_good, poisoned, last) = isolate sink is poison w.1 in
                  (i ∷ still_good, poisoned, last)
            ]).2.calls
      go rest (accepted, t) l = let h = rest poison t in omega arith
      go rest (permanent, t) l = let h = rest (poison ++ (i ∷ [])) t in omega arith
      go rest (transient, t) l = let h = rest poison t in omega arith

  pub failed-calls : (c : Bool) (b : Batch R) → b.store.calls ≤ (failed sink c b).store.calls
  unfolding failed rejected
  failed-calls c b = go (c && not (is_empty b.good)) (leb 3 (b.permanent_attempts + 1))
    where
      o : List (Item R) × List (Item R) × Store R
      o = isolate sink b.good b.poison b.store

      go :
          (d e : Bool)
          → b.store.calls
            ≤ (if d
                then (if e
                    then record {
                      good = o.0;
                      poison = o.1;
                      permanent_attempts = b.permanent_attempts + 1;
                      transient_attempts = b.transient_attempts;
                      store = o.2;
                    }
                    else record b { permanent_attempts = b.permanent_attempts + 1 })
                else record b { transient_attempts = b.transient_attempts + 1 }).store.calls
      go true true = isolate-calls b.good b.poison b.store
      go true false = omega arith
      go false e = omega arith
