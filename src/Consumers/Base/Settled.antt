-- ===== src/Consumers/Base/Settled.antt =====
-- The records of a batch in the store of consumers/sih_consumers/base.py: pending, stored or in quarantine.
use ot_security.Common.{◌+◌, sym, subst, List, [], ◌∷◌, ◌++◌, inl, inr, ◌⊎◌, All}
use ot_security.Common.Members.{In, In-append_left, In-append_right, All-In, All_map}
use ot_security.Consumers.Base.{
  Item, Answer, accepted, permanent, transient, Sink, Store, all_rows, write, quarantine, isolate,
}

module _ {R : Type 0} where
  abbrev pub Stored : Store R → Item R → Type 0
  Stored s i = All (λ r. In r s.rows) i.rows

  -- Each of its rows is stored, or the record is in quarantine.
  abbrev pub Settled : Store R → Item R → Type 0
  Settled s i = Stored s i ⊎ In i s.quarantined

  -- What is stored stays stored.
  pub record Grows (s t : Store R) : Type 0 where
    pub rows : (r : R) → In r s.rows → In r t.rows
    pub quarantined : (i : Item R) → In i s.quarantined → In i t.quarantined

  pub Grows-refl : (s : Store R) → Grows s s
  Grows-refl s = record { rows = λ r h. h; quarantined = λ i h. h }

  pub Grows-trans : {s t u : Store R} → Grows s t → Grows t u → Grows s u
  Grows-trans g h = record {
    rows = λ r i. h.rows r (g.rows r i);
    quarantined = λ j i. h.quarantined j (g.quarantined j i);
  }

  pub Settled-later : (s t : Store R) (i : Item R) → Grows s t → Settled s i → Settled t i
  Settled-later s t i g (inl h) =
      inl (All_map (λ r. In r s.rows) (λ r. In r t.rows) i.rows g.rows h)
  Settled-later s t i g (inr h) = inr (g.quarantined i h)

  -- A record is still to be written, to be put into quarantine, or settled.
  unfoldable pub Pending : List (Item R) → List (Item R) → Store R → Item R → Type 0
  Pending good poison s i = In i good ⊎ (In i poison ⊎ Settled s i)

  pub all_rows-Stored :
      (is : List (Item R)) (rows : List R)
      → ((r : R) → In r (all_rows is) → In r rows)
      → (i : Item R) → In i is
      → All (λ r. In r rows) i.rows
  unfolding all_rows
  all_rows-Stored [] rows h i k = absurd k
  all_rows-Stored (j ∷ is) rows h i (inl e) =
      subst (λ x. All (λ r. In r rows) x.rows) (sym e)
        (All-In (λ r. In r rows) j.rows (λ r k. h r (In-append_left r j.rows (all_rows is) k)))
  all_rows-Stored (j ∷ is) rows h i (inr k) =
      all_rows-Stored is rows (λ r m. h r (In-append_right r j.rows (all_rows is) m)) i k

module _ {R : Type 0} (sink : Sink R) where
  -- What a call leaves, by its answer
  unfoldable pub Wrote : List R → Store R → Answer × Store R → Type 0
  Wrote rows s (accepted, t) = Grows s t × ((r : R) → In r rows → In r t.rows)
  Wrote rows s (permanent, t) = Grows s t
  Wrote rows s (transient, t) = Grows s t

  pub write-Wrote : (rows : List R) (s : Store R) → Wrote rows s (write sink rows s)
  unfolding write Wrote
  write-Wrote rows s = go (sink.write s.calls rows)
    where
      called : Store R
      called = record s { calls = s.calls + 1 }

      go :
          (a : Answer)
          → Wrote rows s (elim a as (λ _. Answer × Store R) [
            | accepted ↦ (accepted, record called { rows = s.rows ++ rows })
            | permanent ↦ (permanent, called)
            | transient ↦ (transient, called)
          ])
      go accepted = (
        record { rows = λ r h. In-append_left r s.rows rows h; quarantined = λ i h. h },
        λ r h. In-append_right r s.rows rows h,
      )
      go permanent = record { rows = λ r h. h; quarantined = λ i h. h }
      go transient = record { rows = λ r h. h; quarantined = λ i h. h }

  unfoldable pub Kept : List (Item R) → Store R → Answer × Store R → Type 0
  Kept items s (accepted, t) = Grows s t × ((i : Item R) → In i items → In i t.quarantined)
  Kept items s (permanent, t) = Grows s t
  Kept items s (transient, t) = Grows s t

  pub quarantine-Kept :
      (items : List (Item R)) (s : Store R) → Kept items s (quarantine sink items s)
  unfolding quarantine Kept
  quarantine-Kept items s = go (sink.quarantine s.calls items)
    where
      called : Store R
      called = record s { calls = s.calls + 1 }

      go :
          (a : Answer)
          → Kept items s (elim a as (λ _. Answer × Store R) [
            | accepted ↦ (accepted, record called { quarantined = s.quarantined ++ items })
            | permanent ↦ (permanent, called)
            | transient ↦ (transient, called)
          ])
      go accepted = (
        record { rows = λ r h. h; quarantined = λ i h. In-append_left i s.quarantined items h },
        λ i h. In-append_right i s.quarantined items h,
      )
      go permanent = record { rows = λ r h. h; quarantined = λ i h. h }
      go transient = record { rows = λ r h. h; quarantined = λ i h. h }

  -- Isolation loses no record.
  pub record Isolated (good poison : List (Item R)) (s : Store R)
      (o : List (Item R) × List (Item R) × Store R) : Type 0 where
    pub grows : Grows s o.2
    pub poisoned : (i : Item R) → In i poison → In i o.1
    pub pending : (i : Item R) → In i good → Pending o.0 o.1 o.2 i

  pub isolate-Isolated :
      (good poison : List (Item R)) (s : Store R)
      → Isolated good poison s (isolate sink good poison s)
  unfolding isolate Pending Wrote
  isolate-Isolated [] poison s = record {
    grows = Grows-refl s;
    poisoned = λ i h. h;
    pending = λ i h. absurd h;
  }
  isolate-Isolated (i ∷ is) poison s =
      go (λ p t. isolate-Isolated is p t) (write sink i.rows s) (write-Wrote i.rows s)
    where
      go :
          ((p : List (Item R)) (t : Store R) → Isolated is p t (isolate sink is p t))
          → (w : Answer × Store R) → Wrote i.rows s w
          → Isolated (i ∷ is) poison s (elim w.0 as (λ _. List (Item R) × List (Item R) × Store R) [
            | accepted ↦ isolate sink is poison w.1
            | permanent ↦ isolate sink is (poison ++ (i ∷ [])) w.1
            | transient ↦
                let (still_good, poisoned, last) = isolate sink is poison w.1 in
                (i ∷ still_good, poisoned, last)
          ])
      go rest (accepted, t) (g, w) =
          let v = rest poison t in
          record {
            grows = Grows-trans g v.grows;
            poisoned = v.poisoned;
            pending = λ j h. elim h [
              | inl e ↦ inr (
                  inr (
                    Settled-later t _ j v.grows
                      (inl (subst (λ x. Stored t x) (sym e) (All-In (λ r. In r t.rows) i.rows w)))))
              | inr k ↦ v.pending j k
            ];
          }
      go rest (permanent, t) g =
          let v = rest (poison ++ (i ∷ [])) t in
          record {
            grows = Grows-trans g v.grows;
            poisoned = λ j h. v.poisoned j (In-append_left j poison (i ∷ []) h);
            pending = λ j h. elim h [
              | inl e ↦ inr (inl (v.poisoned j (In-append_right j poison (i ∷ []) (inl e))))
              | inr k ↦ v.pending j k
            ];
          }
      go rest (transient, t) g =
          let v = rest poison t in
          record {
            grows = Grows-trans g v.grows;
            poisoned = v.poisoned;
            pending = λ j h. elim h [
              | inl e ↦ inl (inl e)
              | inr k ↦ elim (v.pending j k) [ inl a ↦ inl (inr a) | inr b ↦ inr b ]
            ];
          }
