-- ===== src/Receiver/Publisher/Behind.antt =====
-- What the publisher has taken from its queue is acknowledged, and the cursor is the last of it.
use ot_security.Common.{
  ℕ, ◌+◌, ◌≡◌, refl, sym, ◌∙◌, ap, Bool, true, false, ◌&&◌, ◌||◌, List, [], ◌∷◌, ◌++◌, arith,
  append_assoc, append-nil, length, length-append, if◌then◌else◌, leb, Bool-cases, inl, inr,
}
use ot_security.Receiver.Spool.{Position}
use ot_security.Receiver.Publisher.{
  position_dec, elem, discard, is_empty, Pump, started, Drained, drain, persist, settle,
}

-- The last of the positions, or the first cursor where there is none.
unfoldable pub last_of : Position → List Position → Position
last_of p [] = p
last_of p (q ∷ qs) = last_of q qs

-- Every position of the list is among the others.
abbrev pub AllIn : List Position → List Position → Type 0
AllIn known [] = Unit
AllIn known (p ∷ ps) = (elem p known ≡ true) × AllIn known ps

elem-discard :
    (p q : Position) (ps : List Position) → elem q (discard p ps) ≡ true → elem q ps ≡ true
unfolding elem discard
elem-discard p q [] h = h
elem-discard p q (r ∷ rs) h = ground (arith, elem-discard p q rs)

-- What has been taken from the queue: all of it acknowledged, and the cursor is the last of it.
record Taken (known ps : List Position) (cursor : Position) (d : Drained) : Type 0 where
  gone : List Position
  parts : ps ≡ gone ++ d.rest
  acknowledged : AllIn known gone
  last : d.cursor ≡ last_of cursor gone
  kept : (p : Position) → elem p d.acked ≡ true → elem p known ≡ true

drain-Taken :
    (known ps acked : List Position) (cursor : Position) (advanced : Bool)
    → ((p : Position) → elem p acked ≡ true → elem p known ≡ true)
    → Taken known ps cursor (drain ps acked cursor advanced)
unfolding drain last_of
drain-Taken known [] acked cursor advanced h = record {
  gone = [];
  parts = refl;
  acknowledged = tt;
  last = refl;
  kept = h;
}
drain-Taken known (p ∷ ps) acked cursor advanced h = elim (Bool-cases (elem p acked)) [
  | inl e ↦
      rw (e, drain)
        (let t =
            drain-Taken known ps (discard p acked) p true (λ q g. h q (elem-discard p q acked g)) in
          record {
            gone = p ∷ t.gone;
            parts = ap (λ x. p ∷ x) t.parts;
            acknowledged = (h p e, t.acknowledged);
            last = t.last;
            kept = t.kept;
          })
  | inr e ↦
      rw (e, drain) (record { gone = []; parts = refl; acknowledged = tt; last = refl; kept = h })
]

-- The positions sent are those that are done, all delivered, and those in flight; the cursor is the last one that
-- is done, and the cursor file holds it or an earlier one.
pub record IsBehind (start : Position) (sent known : List Position) (s : Pump) : Type 0 where
  pub done : List Position
  pub parts : sent ≡ done ++ s.in_flight
  pub acknowledged : AllIn known done
  pub cursor : s.cursor ≡ last_of start done
  pub kept : (p : Position) → elem p s.acked ≡ true → elem p known ≡ true
  pub saved : List Position
  pub more : List Position
  pub saved_parts : done ≡ saved ++ more
  pub persisted : s.persisted ≡ last_of start saved

AllIn-append :
    (known ps qs : List Position) → AllIn known ps → AllIn known qs → AllIn known (ps ++ qs)
AllIn-append known [] qs h k = k
AllIn-append known (p ∷ ps) qs (e, h) k = (e, AllIn-append known ps qs h k)

elem_later :
    (p q : Position) (known : List Position) → elem q known ≡ true → elem q (p ∷ known) ≡ true
unfolding elem
elem_later p q known h = ground arith

pub AllIn-later : (p : Position) (known ps : List Position) → AllIn known ps → AllIn (p ∷ known) ps
AllIn-later p known [] h = tt
AllIn-later p known (q ∷ qs) (e, h) = (elem_later p q known e, AllIn-later p known qs h)

pub elem_heard :
    (p q : Position) (acked known : List Position)
    → (elem q acked ≡ true → elem q known ≡ true)
    → elem q (p ∷ acked) ≡ true
    → elem q (p ∷ known) ≡ true
unfolding elem
elem_heard p q acked known h g = elim (position_dec q p) [
  | yes e ↦ ground arith
  | no n ↦ ground arith
]

last_of-append :
    (start : Position) (ps qs : List Position)
    → last_of start (ps ++ qs) ≡ last_of (last_of start ps) qs
unfolding last_of
last_of-append start [] qs = refl
last_of-append start (p ∷ ps) qs = last_of-append p ps qs

module _ (start : Position) (sent known : List Position) where
  persist-IsBehind :
      (c : Bool) (now n : ℕ) (s : Pump)
      → IsBehind start sent known s
      → IsBehind start sent known (record (if c then persist now s else s) { idle_rounds = n })
  unfolding persist
  persist-IsBehind true now n s v = record {
    done = v.done;
    parts = v.parts;
    acknowledged = v.acknowledged;
    cursor = v.cursor;
    kept = v.kept;
    saved = v.done;
    more = [];
    saved_parts = sym (append-nil v.done);
    persisted = v.cursor;
  }
  persist-IsBehind false now n s v = record {
    done = v.done;
    parts = v.parts;
    acknowledged = v.acknowledged;
    cursor = v.cursor;
    kept = v.kept;
    saved = v.saved;
    more = v.more;
    saved_parts = v.saved_parts;
    persisted = v.persisted;
  }

  pub settle-IsBehind :
      (now : ℕ) (no_batch : Bool) (s : Pump)
      → IsBehind start sent known s
      → IsBehind start sent known (settle now no_batch s)
  unfolding settle
  settle-IsBehind now no_batch s v =
      let d : Drained = drain s.in_flight s.acked s.cursor false in
      let t = drain-Taken known s.in_flight s.acked s.cursor false v.kept in
      persist-IsBehind (d.advanced && (leb (s.last_persist + 200) now || is_empty d.rest)) now _
        (record s {
          in_flight = d.rest;
          acked = d.acked;
          cursor = d.cursor;
          healthy = if d.advanced then true else s.healthy;
        })
        (record {
          done = v.done ++ t.gone;
          parts = v.parts ∙ ap (λ x. v.done ++ x) t.parts ∙ sym (append_assoc v.done t.gone d.rest);
          acknowledged = AllIn-append known v.done t.gone v.acknowledged t.acknowledged;
          cursor =
              t.last
              ∙ ap (λ x. last_of x t.gone) v.cursor
              ∙ sym (last_of-append start v.done t.gone);
          kept = t.kept;
          saved = v.saved;
          more = v.more ++ t.gone;
          saved_parts = ap (λ x. x ++ t.gone) v.saved_parts ∙ append_assoc v.saved v.more t.gone;
          persisted = v.persisted;
        })

append_left : (ps qs rs : List Position) → ps ++ rs ≡ qs ++ rs → ps ≡ qs
append_left [] [] rs e = refl
append_left [] (q ∷ qs) rs e =
    let n : length rs ≡ length (q ∷ qs) + length rs = ap length e ∙ length-append (q ∷ qs) rs in
    absurd (omega (arith, n))
append_left (p ∷ ps) [] rs e =
    let n : length (p ∷ ps) + length rs ≡ length rs =
      sym (length-append (p ∷ ps) rs) ∙ ap length e in
    absurd (omega (arith, n))
append_left (p ∷ ps) (q ∷ qs) rs e =
    let h : p ≡ q = cc in let k = append_left ps qs rs cc in rw (h, k) refl

-- A new pump sends from the cursor on: what has left the queue is done, and nothing is in flight.
pub restarted-IsBehind :
    (start : Position) (sent left known : List Position) (now : ℕ) (s : Pump)
    → sent ≡ left ++ s.in_flight
    → IsBehind start sent known s
    → IsBehind start left known (started now s)
unfolding started elem
restarted-IsBehind start sent left known now s e v =
    let same : v.done ≡ left = append_left v.done left s.in_flight (sym v.parts ∙ e) in
    record {
      done = v.done;
      parts = sym same ∙ sym (append-nil v.done);
      acknowledged = v.acknowledged;
      cursor = v.cursor;
      kept = λ p h. absurd (cc);
      saved = v.saved;
      more = v.more;
      saved_parts = v.saved_parts;
      persisted = v.persisted;
    }
