-- ===== src/Consumers/Base/Poll/Handled.antt =====
-- The messages that run_consumer (consumers/sih_consumers/base.py) reads in a poll, and when a record is handled.
use ot_security.Common.{◌≡◌, refl, sym, subst, Option, none, some, List, [], ◌∷◌, inl, inr}
use ot_security.Common.Members.{In}
use ot_security.Consumers.Base.{
  Item, Answer, accepted, permanent, transient, Sink, Store, quarantine,
}
use ot_security.Consumers.Base.Settled.{
  Settled, Grows, Grows-refl, Grows-trans, Settled-later, Kept, quarantine-Kept,
}
use ot_security.Consumers.Base.Poll.{Message, broker_error, record_at, item_of, read_items}

module _ {R : Type 0} (sink : Sink R) where
  unfoldable pub HandledAs : Store R → Item R → Option (List R) → Type 0
  HandledAs t i none = In i t.quarantined
  HandledAs t i (some rows) = (i.rows ≡ rows) × Settled t i

  -- A record that cannot be transformed is in quarantine; of another, each row is stored, or it is in quarantine.
  unfoldable pub Handled : Store R → Item R → Type 0
  unfolding HandledAs
  Handled t i = HandledAs t i (sink.transform i.payload)

  unfoldable pub ReadAs : Store R → Item R → Option (List R) → Type 0
  ReadAs t i none = In i t.quarantined
  ReadAs t i (some rows) = i.rows ≡ rows

  -- What reading the messages leaves
  unfoldable pub Read : Store R → Option (List (Item R)) × Store R → Type 0
  Read s (none, t) = Grows s t
  Read s (some is, t) = Grows s t × ((i : Item R) → In i is → ReadAs t i (sink.transform i.payload))

  ReadAs-later :
      (s t : Store R) (i : Item R) (o : Option (List R)) → Grows s t → ReadAs s i o → ReadAs t i o
  unfolding ReadAs
  ReadAs-later s t i none g h = g.quarantined i h
  ReadAs-later s t i (some rows) g h = h

  pub HandledAs-later :
      (s t : Store R) (i : Item R) (o : Option (List R))
      → Grows s t
      → HandledAs s i o
      → HandledAs t i o
  unfolding HandledAs
  HandledAs-later s t i none g h = g.quarantined i h
  HandledAs-later s t i (some rows) g (e, h) = (e, Settled-later s t i g h)

  -- An item that was read, before those of the messages after it
  with_item : Item R → Option (List (Item R)) × Store R → Option (List (Item R)) × Store R
  with_item i o = elim o.0 as (λ _. Option (List (Item R)) × Store R) [
    | none ↦ (none, o.1)
    | some is ↦ (some (i ∷ is), o.1)
  ]

  with_item-Read :
      (s t : Store R) (i : Item R)
      → Grows s t
      → ReadAs t i (sink.transform i.payload)
      → (o : Option (List (Item R)) × Store R) → Read t o
      → Read s (with_item i o)
  unfolding with_item Read
  with_item-Read s t i g h (none, u) r = Grows-trans g r
  with_item-Read s t i g h (some is, u) (r, k) = (
    Grows-trans g r,
    λ j m. elim m [
      | inl e ↦
          subst (λ x. ReadAs u x (sink.transform x.payload)) (sym e)
            (ReadAs-later t u i (sink.transform i.payload) r h)
      | inr n ↦ k j n
    ],
  )

  pub read_items-Read : (ms : List Message) (s : Store R) → Read s (read_items sink ms s)
  unfolding read_items item_of Read with_item Kept ReadAs
  read_items-Read [] s = (Grows-refl s, λ i h. absurd h)
  read_items-Read (broker_error ∷ ms) s = read_items-Read ms s
  read_items-Read (record_at topic partition offset payload ∷ ms) s =
      go (λ t. read_items-Read ms t) (sink.transform payload) refl (λ is. quarantine sink is s)
        (λ is. quarantine-Kept sink is s)
    where
      item : List R → Item R
      item rows = item_of sink topic partition offset payload rows

      go :
          ((t : Store R) → Read t (read_items sink ms t))
          → (o : Option (List R)) → sink.transform payload ≡ o
          → (q : List (Item R) → Answer × Store R) → ((is : List (Item R)) → Kept sink is s (q is))
          → Read s (elim o as (λ _. Option (List (Item R)) × Store R) [
            | some rows ↦ with_item (item rows) (read_items sink ms s)
            | none ↦ elim (q (item [] ∷ [])).0 as (λ _. Option (List (Item R)) × Store R) [
              | accepted ↦ with_item (item []) (read_items sink ms (q (item [] ∷ [])).1)
              | permanent ↦ (none, (q (item [] ∷ [])).1)
              | transient ↦ (none, (q (item [] ∷ [])).1)
            ]
          ])
      go rest (some rows) e q k =
          with_item-Read s s (item rows) (Grows-refl s) (subst (ReadAs s (item rows)) (sym e) refl)
            (read_items sink ms s) (rest s)
      go rest none e q k = kept (q (item [] ∷ [])) (k (item [] ∷ []))
        where
          kept :
              (w : Answer × Store R)
              → Kept sink (item [] ∷ []) s w
              → Read s (elim w.0 as (λ _. Option (List (Item R)) × Store R) [
                | accepted ↦ with_item (item []) (read_items sink ms w.1)
                | permanent ↦ (none, w.1)
                | transient ↦ (none, w.1)
              ])
          kept (accepted, t) (g, h) =
              with_item-Read s t (item []) g
                (subst (ReadAs t (item [])) (sym e) (h (item []) (inl refl))) (read_items sink ms t)
                (rest t)
          kept (permanent, t) g = g
          kept (transient, t) g = g
