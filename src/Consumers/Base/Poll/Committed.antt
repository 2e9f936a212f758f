-- ===== src/Consumers/Base/Poll/Committed.antt =====
-- The records below the committed offsets of run_consumer (consumers/sih_consumers/base.py).
use ot_security.Common.{
  ℕ, ◌≡◌, refl, ap, subst, Bool, true, false, Option, none, some, List, [], ◌∷◌, ◌++◌, inl, inr,
  if◌then◌else◌, All,
}
use mathlib.Core.Option.{some-injective, none-ne-some}
use ot_security.Common.Members.{In, All-In, In-All}
use ot_security.Consumers.Base.{Item, Sink, Store, is_empty, durable_write}
use ot_security.Consumers.Base.Settled.{Settled, Grows, Grows-trans}
use ot_security.Consumers.Base.Written.{durable_write-Settled}
use ot_security.Consumers.Base.Growth.{durable_write-Grows}
use ot_security.Consumers.Base.Poll.{
  Polled, Ended, running, stopped, raised, Consumer, read_items, commit, poll, run_consumer,
}
use ot_security.Consumers.Base.Poll.Handled.{
  HandledAs, Handled, ReadAs, Read, HandledAs-later, read_items-Read,
}

module _ {R : Type 0} (sink : Sink R) where
  AllHandled : Store R → List (Item R) → Type 0
  AllHandled t is = (i : Item R) → In i is → Handled sink t i

  -- All that a consumer has committed is handled; while it runs, all that it has consumed.
  Sound : Consumer R → Type 0
  Sound c = AllHandled c.store c.committed

  RunsSound : Option (Ended × Consumer R) → Type 0
  RunsSound none = Unit
  RunsSound (some (running, c)) = Sound c × AllHandled c.store c.consumed
  RunsSound (some (stopped, c)) = Sound c
  RunsSound (some (raised, c)) = Sound c

  AllHandled-later :
      (s t : Store R) (is : List (Item R)) → Grows s t → AllHandled s is → AllHandled t is
  unfolding AllHandled Handled
  AllHandled-later s t is g h i m = HandledAs-later sink s t i (sink.transform i.payload) g (h i m)

  AllHandled-append :
      (t : Store R) (is js : List (Item R))
      → AllHandled t is
      → AllHandled t js
      → AllHandled t (is ++ js)
  unfolding AllHandled
  AllHandled-append t [] js h k j m = k j m
  AllHandled-append t (i ∷ is) js h k j (inl e) = h j (inl e)
  AllHandled-append t (i ∷ is) js h k j (inr m) =
      AllHandled-append t is js (λ l n. h l (inr n)) k j m

  written-AllHandled :
      (s t : Store R) (is : List (Item R))
      → Grows s t
      → ((i : Item R) → In i is → ReadAs sink s i (sink.transform i.payload))
      → ((i : Item R) → In i is → Settled t i)
      → AllHandled t is
  unfolding AllHandled Handled ReadAs HandledAs
  written-AllHandled s t is g h k i m = both (sink.transform i.payload) (h i m)
    where
      both : (o : Option (List R)) → ReadAs sink s i o → HandledAs sink t i o
      both none r = g.quarantined i r
      both (some rows) r = (r, k i m)

  nothing : (t : Store R) → AllHandled t []
  unfolding AllHandled
  nothing t i h = absurd h

  commit-RunsSound :
      (commits : ℕ → Bool) (c : Consumer R)
      → Sound c
      → AllHandled c.store c.consumed
      → RunsSound (some (commit sink commits c))
  unfolding commit RunsSound Sound
  commit-RunsSound commits c h k = go (commits c.store.calls)
    where
      go :
          (b : Bool)
          → RunsSound (
              some (elim b as (λ _. Ended × Consumer R) [
                | true ↦ (running, record c { committed = c.consumed })
                | false ↦ (raised, c)
              ]))
      go true = (k, k)
      go false = h

  -- What a poll has read is written, then committed.
  written-RunsSound :
      (commits : ℕ → Bool) (rounds : ℕ) (stop : ℕ → Bool) (c : Consumer R) (s : Store R)
      (is : List (Item R))
      → Sound c
      → AllHandled c.store c.consumed
      → Grows c.store s
      → ((i : Item R) → In i is → ReadAs sink s i (sink.transform i.payload))
      → RunsSound
          (elim (durable_write sink stop rounds is s) as (λ _. Option (Ended × Consumer R)) [
            | none ↦ none
            | some o ↦ elim o.0 as (λ _. Option (Ended × Consumer R)) [
              | true ↦ some (
                  commit sink commits
                    (record { store = o.1; consumed = c.consumed ++ is; committed = c.committed }))
              | false ↦ some (
                stopped,
                record { store = o.1; consumed = c.consumed ++ is; committed = c.committed },
              )
            ]
          ])
  unfolding RunsSound Sound
  written-RunsSound commits rounds stop c s is h k g r =
      go (durable_write sink stop rounds is s) refl
    where
      go :
          (w : Option (Bool × Store R))
          → durable_write sink stop rounds is s ≡ w
          → RunsSound (elim w as (λ _. Option (Ended × Consumer R)) [
            | none ↦ none
            | some o ↦ elim o.0 as (λ _. Option (Ended × Consumer R)) [
              | true ↦ some (
                  commit sink commits
                    (record { store = o.1; consumed = c.consumed ++ is; committed = c.committed }))
              | false ↦ some (
                stopped,
                record { store = o.1; consumed = c.consumed ++ is; committed = c.committed },
              )
            ]
          ])
      go none e = tt
      go (some (false, t)) e =
          AllHandled-later c.store t c.committed
            (Grows-trans g (durable_write-Grows sink stop rounds is s (false, t) e)) h
      go (some (true, t)) e =
          let d : Grows s t = durable_write-Grows sink stop rounds is s (true, t) e in
          commit-RunsSound commits _ (AllHandled-later c.store t c.committed (Grows-trans g d) h) (
            AllHandled-append t c.consumed is
              (AllHandled-later c.store t c.consumed (Grows-trans g d) k)
              (written-AllHandled s t is d r (durable_write-Settled sink stop rounds is s t e)))

  poll-RunsSound :
      (commits : ℕ → Bool) (rounds : ℕ) (p : Polled) (c : Consumer R)
      → Sound c
      → AllHandled c.store c.consumed
      → RunsSound (poll sink commits rounds p c)
  unfolding poll Read Sound RunsSound
  poll-RunsSound commits rounds p c h k =
      go (read_items sink p.messages c.store) (read_items-Read sink p.messages c.store)
    where
      after : Option (List (Item R)) × Store R → Option (Ended × Consumer R)
      after w = elim w.0 as (λ _. Option (Ended × Consumer R)) [
        | none ↦ some (raised, record c { store = w.1 })
        | some is ↦
            if is_empty is
            then some (running, record c { store = w.1; consumed = c.consumed ++ is })
            else elim (durable_write sink p.stopped rounds is w.1)
                as (λ _. Option (Ended × Consumer R)) [
                  | none ↦ none
                  | some o ↦ elim o.0 as (λ _. Option (Ended × Consumer R)) [
                    | true ↦ some (
                        commit sink commits (record {
                          store = o.1;
                          consumed = c.consumed ++ is;
                          committed = c.committed;
                        }))
                    | false ↦ some (
                      stopped,
                      record { store = o.1; consumed = c.consumed ++ is; committed = c.committed },
                    )
                  ]
                ]
      ]

      go : (w : Option (List (Item R)) × Store R) → Read sink c.store w → RunsSound (after w)
      go (none, s) g = AllHandled-later c.store s c.committed g h
      go (some [], s) (g, r) = (
        AllHandled-later c.store s c.committed g h,
        AllHandled-append s c.consumed [] (AllHandled-later c.store s c.consumed g k) (nothing s),
      )
      go (some (i ∷ is), s) (g, r) = written-RunsSound commits rounds p.stopped c s (i ∷ is) h k g r

  run_consumer-Sound :
      (commits : ℕ → Bool) (rounds : ℕ) (ps : List Polled) (c : Consumer R)
      → Sound c
      → AllHandled c.store c.consumed
      → (e : Ended) (d : Consumer R) → run_consumer sink commits rounds ps c ≡ some (e, d)
      → Sound d
  unfolding run_consumer RunsSound
  run_consumer-Sound commits rounds [] c h k e d q =
      subst Sound (ap (λ o. o.1) (some-injective _ _ q)) h
  run_consumer-Sound commits rounds (p ∷ ps) c h k e d q =
      go (λ c' h' k' q'. run_consumer-Sound commits rounds ps c' h' k' e d q')
        (poll sink commits rounds p c) (poll-RunsSound commits rounds p c h k) q
    where
      go :
          ((c' : Consumer R)
            → Sound c'
            → AllHandled c'.store c'.consumed
            → run_consumer sink commits rounds ps c' ≡ some (e, d)
            → Sound d)
          → (o : Option (Ended × Consumer R)) → RunsSound o
          → elim o as (λ _. Option (Ended × Consumer R)) [
            | none ↦ none
            | some o ↦ elim o.0 as (λ _. Option (Ended × Consumer R)) [
              | running ↦ run_consumer sink commits rounds ps o.1
              | stopped ↦ some (stopped, o.1)
              | raised ↦ some (raised, o.1)
            ]
          ]
            ≡ some (e, d)
          → Sound d
      go rest none r q = absurd (none-ne-some _ q)
      go rest (some (running, c')) (r, k') q = rest c' r k' q
      go rest (some (stopped, c')) r q = subst Sound (ap (λ o. o.1) (some-injective _ _ q)) r
      go rest (some (raised, c')) r q = subst Sound (ap (λ o. o.1) (some-injective _ _ q)) r

  -- A consumer that starts at the committed offsets
  abbrev pub started : Store R → List (Item R) → Consumer R
  started s is = record { store = s; consumed = is; committed = is }

  -- A consumer starts at its committed offsets, below which each record is handled: it is in quarantine when it
  -- cannot be transformed, and otherwise its rows are those of the transformation and are all stored, or it is in
  -- quarantine. However the consumer then ends, each record below the committed offsets is handled.
  pub run_consumer-Handled :
      (commits : ℕ → Bool) (rounds : ℕ) (ps : List Polled) (s : Store R) (is : List (Item R))
      → All (Handled sink s) is
      → (e : Ended) (d : Consumer R)
      → run_consumer sink commits rounds ps (started s is) ≡ some (e, d)
      → All (Handled sink d.store) d.committed
  unfolding Sound AllHandled
  run_consumer-Handled commits rounds ps s is h e d q =
      let k : AllHandled s is = λ i m. In-All (Handled sink s) is i h m in
      All-In (Handled sink d.store) d.committed
        (run_consumer-Sound commits rounds ps (started s is) k k e d q)
