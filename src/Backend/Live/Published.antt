-- ===== src/Backend/Live/Published.antt =====
-- `publish` of backend/sih_api/live.py, the ring, and what the clients are owed.
use ot_security.Common.{
  ℕ, ◌+◌, ◌≤◌, ◌≡◌, refl, sym, ◌∙◌, ap, subst, Option, none, some, List, [], ◌∷◌, ◌++◌, inl, inr,
  arith, append_assoc,
}
use ot_security.Common.Members.{In, All-In, In-All}
use ot_security.Common.Dict.{Text}
use ot_security.Backend.Live.{LiveItem, LiveHub, push}
use ot_security.Backend.Live.Ring.{In-append, Rising-append, IsPushed, push-IsPushed, IsRing}
use ot_security.Backend.Live.Stream.{Stream, Live, publish, publish_all}
use ot_security.Backend.Live.Kept.{Kept, publish-Kept}

pushed-IsRing :
    (published : List LiveItem) (h : LiveHub) (i : LiveItem)
    → i.seq ≡ h.seq + 1
    → IsRing published h
    → IsRing
        (published ++ (i ∷ []))
        (record h { seq = h.seq + 1; ring = push h.ring_size h.ring i })
pushed-IsRing published h i e v =
    let p : IsPushed h.ring i (push h.ring_size h.ring i) =
      push-IsPushed h.ring_size v.has_room h.ring i in
    record {
      has_room = v.has_room;
      rising = Rising-append 0 h.seq published i (omega arith) e v.rising v.numbered;
      numbered =
          All-In (λ j. j.seq ≤ h.seq + 1) (published ++ (i ∷ []))
            (λ j m. elim (In-append published (i ∷ []) j m) [
              | inl a ↦ let l = In-All (λ k. k.seq ≤ h.seq) published j v.numbered a in omega arith
              | inr (inl q) ↦ subst (λ x. x.seq ≤ h.seq + 1) (sym q) (omega arith)
              | inr (inr a) ↦ absurd a
            ]);
      old = v.old ++ p.dropped;
      split =
          ap (λ x. x ++ (i ∷ [])) v.split
          ∙ append_assoc v.old h.ring (i ∷ [])
          ∙ ap (λ x. v.old ++ x) p.split
          ∙ sym (append_assoc v.old p.dropped (push h.ring_size h.ring i));
      empty = λ q. absurd (subst (In i) q p.last);
    }

module _ (stamp : Text → Option Text) (parse_int : Text → Option ℕ) where
  -- What a publication keeps, of the hub and of a stream, whether the hub has it yet or not
  pub record Keeps (w w' : Live) : Type 0 where
    pub ring : IsRing w.published w.hub → IsRing w'.published w'.hub
    pub stream : (s : Stream) → Kept w.published w.scheduled s → Kept w'.published w'.scheduled s
    pub streams : w'.streams ≡ w.streams

  pub publish-Keeps : (raw : Text) (w : Live) → Keeps w (publish stamp parse_int raw w)
  unfolding publish
  publish-Keeps raw w = go (stamp raw)
    where
      item : Text → LiveItem
      item text = record { seq = w.hub.seq + 1; raw = text }

      go :
          (o : Option Text)
          → Keeps w (elim o as (λ _. Live) [
            | none ↦ w
            | some text ↦ record w {
              hub = record w.hub {
                seq = w.hub.seq + 1;
                ring = push w.hub.ring_size w.hub.ring (item text);
              };
              published = w.published ++ (item text ∷ []);
              scheduled = w.scheduled ++ (item text ∷ []);
            }
          ])
      go none = record { ring = λ v. v; stream = λ s k. k; streams = refl }
      go (some text) = record {
        ring = λ v. pushed-IsRing w.published w.hub (item text) refl v;
        stream = λ s k. publish-Kept w.published w.scheduled (item text) s k;
        streams = refl;
      }

  pub publish_all-Keeps :
      (raws : List Text) (w : Live) → Keeps w (publish_all stamp parse_int raws w)
  unfolding publish_all
  publish_all-Keeps [] w = record { ring = λ v. v; stream = λ s k. k; streams = refl }
  publish_all-Keeps (raw ∷ raws) w =
      let a = publish-Keeps raw w in
      let b = publish_all-Keeps raws (publish stamp parse_int raw w) in
      record {
        ring = λ v. b.ring (a.ring v);
        stream = λ s k. b.stream s (a.stream s k);
        streams = b.streams ∙ a.streams;
      }
