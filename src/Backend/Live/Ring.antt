-- ===== src/Backend/Live/Ring.antt =====
-- The ring of backend/sih_api/live.py and `backlog_after`.
use ot_security.Common.{
  ℕ, ◌+◌, ◌≤◌, ◌<◌, ◌≡◌, refl, sym, subst, Bool, true, false, Option, none, some, List, [], ◌∷◌,
  ◌++◌, length, ltb, ltb_false→le, lt→ltb, if◌then◌else◌, inl, inr, ◌⊎◌, All, arith, dec_lt,
}
use mathlib.Core.Bool.{false≢true}
use ot_security.Common.Members.{In, In-append_right, All-In, All_map}
use ot_security.Common.Dict.{Text, text_dec}
use ot_security.Backend.Live.{
  LiveItem, LiveHub, push, rsplit_dash, newer, is_gap, backlog_after, asked,
}

-- The numbers rise, from above n.
abbrev pub Rising : ℕ → List LiveItem → Type 0
Rising n [] = Unit
Rising n (i ∷ is) = (n < i.seq) × Rising i.seq is

Rising-In : (n : ℕ) (is : List LiveItem) (i : LiveItem) → Rising n is → In i is → n < i.seq
Rising-In n [] i h m = absurd m
Rising-In n (j ∷ is) i (l, h) (inl e) = subst (λ x. n < x.seq) (sym e) l
Rising-In n (j ∷ is) i (l, h) (inr m) = let k = Rising-In j.seq is i h m in omega arith

pub Rising-append :
    (n m : ℕ) (is : List LiveItem) (i : LiveItem)
    → n ≤ m
    → i.seq ≡ m + 1
    → Rising n is
    → All (λ j. j.seq ≤ m) is
    → Rising n (is ++ (i ∷ []))
Rising-append n m [] i l e h b = (omega arith, tt)
Rising-append n m (j ∷ is) i l e (k, h) (c, b) = (k, Rising-append j.seq m is i c e h b)

Rising-before :
    (n : ℕ) (old : List LiveItem) (r : LiveItem) (ring : List LiveItem)
    → Rising n (old ++ (r ∷ ring))
    → (i : LiveItem) → In i old
    → i.seq < r.seq
Rising-before n [] r ring h i m = absurd m
Rising-before n (j ∷ old) r ring (l, h) i (inl e) =
    subst (λ x. x.seq < r.seq) (sym e)
      (Rising-In j.seq (old ++ (r ∷ ring)) r h (In-append_right r old (r ∷ ring) (inl refl)))
Rising-before n (j ∷ old) r ring (l, h) i (inr m) = Rising-before j.seq old r ring h i m

-- What a push leaves is the end of the ring and the new item, and not empty.
pub record IsPushed (ring : List LiveItem) (i : LiveItem) (pushed : List LiveItem) : Type 0 where
  pub dropped : List LiveItem
  pub split : ring ++ (i ∷ []) ≡ dropped ++ pushed
  pub last : In i pushed

pub push-IsPushed :
    (size : ℕ)
    → 0 < size
    → (ring : List LiveItem) (i : LiveItem) → IsPushed ring i (push size ring i)
unfolding push
push-IsPushed size l [] i = go (ltb 0 size) (lt→ltb 0 size l)
  where
    go : (b : Bool) → b ≡ true → IsPushed [] i (if b then i ∷ [] else [])
    go true e = record { dropped = []; split = refl; last = inl refl }
    go false e = absurd (false≢true e)
push-IsPushed size l (j ∷ js) i = go (ltb (length (j ∷ js)) size)
  where
    go : (b : Bool) → IsPushed (j ∷ js) i (if b then (j ∷ js) ++ (i ∷ []) else js ++ (i ∷ []))
    go true = record {
      dropped = [];
      split = refl;
      last = In-append_right i (j ∷ js) (i ∷ []) (inl refl);
    }
    go false = record {
      dropped = j ∷ [];
      split = refl;
      last = In-append_right i js (i ∷ []) (inl refl);
    }

-- The ring is the end of what was numbered, empty only when nothing was.
pub record IsRing (published : List LiveItem) (h : LiveHub) : Type 0 where
  pub has_room : 0 < h.ring_size
  pub rising : Rising 0 published
  pub numbered : All (λ i. i.seq ≤ h.seq) published
  pub old : List LiveItem
  pub split : published ≡ old ++ h.ring
  pub empty : h.ring ≡ [] → published ≡ []

In-newer : (k : ℕ) (is : List LiveItem) (i : LiveItem) → k < i.seq → In i is → In i (newer k is)
unfolding newer
In-newer k [] i l m = m
In-newer k (j ∷ is) i l m = go (ltb k j.seq) refl m (In-newer k is i l)
  where
    go :
        (b : Bool)
        → ltb k j.seq ≡ b
        → In i (j ∷ is)
        → (In i is → In i (newer k is))
        → In i (if b then j ∷ newer k is else newer k is)
    go true e (inl m) rest = inl m
    go true e (inr m) rest = inr (rest m)
    go false e (inl m) rest =
        absurd (
          subst (λ x. k < x.seq → ⊥) (sym m) (λ q. let c = ltb_false→le k j.seq e in omega arith) l)
    go false e (inr m) rest = rest m

pub In-append : (xs ys : List LiveItem) (i : LiveItem) → In i (xs ++ ys) → In i xs ⊎ In i ys
In-append [] ys i m = inr m
In-append (x ∷ xs) ys i (inl e) = inl (inl e)
In-append (x ∷ xs) ys i (inr m) = elim (In-append xs ys i m) [ inl a ↦ inl (inr a) | inr b ↦ inr b ]

-- Where there is no gap, the items of the ring after k are all those after k.
In-ring :
    (published : List LiveItem) (h : LiveHub)
    → IsRing published h
    → (k : ℕ) → is_gap k h.ring ≡ false
    → (i : LiveItem) → In i published
    → k < i.seq
    → In i h.ring
unfolding is_gap
In-ring published h v k e i m l = go h.ring v.split e (v.empty) (subst (In i) v.split m)
  where
    go :
        (ring : List LiveItem)
        → published ≡ v.old ++ ring
        → is_gap k ring ≡ false
        → (ring ≡ [] → published ≡ [])
        → In i (v.old ++ ring)
        → In i ring
    go [] s g n m' = absurd (subst (In i) (n refl) m)
    go (r ∷ ring) s g n m' = elim (In-append v.old (r ∷ ring) i m') [
      | inl a ↦
          let b = Rising-before 0 v.old r ring (subst (Rising 0) s v.rising) i a in
          let c = ltb_false→le (k + 1) r.seq g in absurd (omega arith)
      | inr a ↦ a
    ]

-- A backlog with no call to resynchronize has every item after the number that was asked.
unfoldable pub Reaches : List LiveItem → ℕ → List LiveItem × Bool → Type 0
Reaches published k o = (o.1 ≡ true) ⊎ All (λ i. (i.seq ≤ k) ⊎ In i o.0) published

module _ (parse_int : Text → Option ℕ) where
  pub backlog_after-Reaches :
      (published : List LiveItem) (h : LiveHub)
      → IsRing published h
      → (last : Option Text)
      → Reaches published (asked parse_int h last) (backlog_after parse_int h last)
  unfolding Reaches backlog_after asked
  backlog_after-Reaches published h v none =
      inr (All_map (λ i. i.seq ≤ h.seq) _ published (λ i l. inl l) v.numbered)
  backlog_after-Reaches published h v (some []) =
      inr (All_map (λ i. i.seq ≤ h.seq) _ published (λ i l. inl l) v.numbered)
  backlog_after-Reaches published h v (some (c ∷ cs)) = go (rsplit_dash (c ∷ cs))
    where
      gap :
          (k : ℕ) (b : Bool)
          → is_gap k h.ring ≡ b
          → Reaches published k (if b then ([], true) else (newer k h.ring, false))
      gap k true e = inl refl
      gap k false e = inr (
          All-In _ published (λ i m. elim (dec_lt k i.seq) [
            | yes l ↦ inr (In-newer k h.ring i l (In-ring published h v k e i m l))
            | no l ↦ inl (omega arith)
          ]))

      parsed :
          (p : Text) (o : Option ℕ)
          → Reaches published
              (elim o as (λ _. ℕ) [ none ↦ h.seq | some k ↦ k ])
              (elim o as (λ _. List LiveItem × Bool) [
                | none ↦ ([], true)
                | some k ↦ elim (text_dec p h.nonce) as (λ _. List LiveItem × Bool) [
                  | no _ ↦ ([], true)
                  | yes _ ↦ if is_gap k h.ring then ([], true) else (newer k h.ring, false)
                ]
              ])
      parsed p none = inl refl
      parsed p (some k) = same (text_dec p h.nonce)
        where
          same :
              (d : Dec (p ≡ h.nonce))
              → Reaches published k (elim d as (λ _. List LiveItem × Bool) [
                | no _ ↦ ([], true)
                | yes _ ↦ if is_gap k h.ring then ([], true) else (newer k h.ring, false)
              ])
          same (no _) = inl refl
          same (yes _) = gap k (is_gap k h.ring) refl

      go :
          (o : Option (Text × Text))
          → Reaches published
              (elim o as (λ _. ℕ) [
                | none ↦ h.seq
                | some p ↦ elim (parse_int p.1) as (λ _. ℕ) [ none ↦ h.seq | some k ↦ k ]
              ])
              (elim o as (λ _. List LiveItem × Bool) [
                | none ↦ ([], true)
                | some p ↦ elim (parse_int p.1) as (λ _. List LiveItem × Bool) [
                  | none ↦ ([], true)
                  | some k ↦ elim (text_dec p.0 h.nonce) as (λ _. List LiveItem × Bool) [
                    | no _ ↦ ([], true)
                    | yes _ ↦ if is_gap k h.ring then ([], true) else (newer k h.ring, false)
                  ]
                ]
              ])
      go none = inl refl
      go (some p) = parsed p.0 (parse_int p.1)
