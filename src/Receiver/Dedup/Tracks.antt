-- ===== src/Receiver/Dedup/Tracks.antt =====
-- What the fields of a stream say of the sequences that it has accepted.
use ot_security.Common.{
  ℕ, zero, suc, ◌+◌, ◌-◌, ◌≤◌, ◌<◌, max, ◌≡◌, ◌≢◌, refl, Bool, true, false, arith, ==_iff, ap, ◌∙◌,
  if◌then◌else◌, ◌==◌, Bool-cases, inl, inr, leb, leb→le, not, ◌&&◌,
}
use ot_security.Common.Int.{ℤ, pos, pos_part, neg_part, sub_ℕ, ◌+ℤ◌, ◌-ℤ◌, leb_ℤ, int_laws}
use ot_security.Common.Bytes.{Bytes}
use ot_security.Receiver.Dedup.{Sweep, sweep, sweep_range, get, put, slot, window}
use ot_security.Receiver.Dedup.Bitmap.{IsBitmap, get-put, put-IsBitmap}
use ot_security.Receiver.Dedup.Count.{
  unseen, unseen_below, unseen_below_hit, unseen_below_miss, unseen_below_le,
}

-- The lowest sequence that a stream from b to h still has a bit for.
abbrev pub low : ℕ → ℕ → ℕ
low b h = max b (h + 1 - window)

-- A stream has base b and highest sequence h, and p holds of the sequences that it has accepted.
-- `gaps0` is the counter of gaps without this stream's.
pub record Tracks (p : ℕ → Bool) (b h : ℕ) (gaps0 gaps missing : ℤ) (bits : Bytes) : Type 0 where
  pub ordered : b ≤ h
  pub before : (q : ℕ) → q < b → p q ≡ false
  pub after : (q : ℕ) → h < q → p q ≡ false
  pub bitmap : IsBitmap bits
  pub held : (q : ℕ) → low b h ≤ q → q ≤ h → get bits (pos q) ≡ p q
  pub lost : gaps ≡ gaps0 +ℤ pos (unseen p b (low b h))
  pub waiting : missing ≡ pos (unseen p (low b h) (h + 1))

pub Tracks-missing_eq :
    {p : ℕ → Bool} {b h : ℕ} {gaps0 gaps m m' : ℤ} {bits : Bytes}
    → m ≡ m'
    → Tracks p b h gaps0 gaps m bits
    → Tracks p b h gaps0 gaps m' bits
Tracks-missing_eq e t = rw e at t

slot_ne : (q r : ℕ) → q < r → r < q + window → slot (pos q) ≢ slot (pos r)
unfolding slot
slot_ne q r h k = omega arith

slot_evicted : (q : ℕ) → window ≤ q → slot (sub_ℕ q window) ≡ slot (pos (q - window))
unfolding slot
slot_evicted q h = ground arith

get-slot : (bits : Bytes) (y z : ℤ) → slot y ≡ slot z → get bits y ≡ get bits z
unfolding get
get-slot bits y z e = rw e

get_evicted :
    (bits : Bytes) (q : ℕ) → window ≤ q → get bits (sub_ℕ q window) ≡ get bits (pos (q - window))
get_evicted bits q h = get-slot bits _ _ (slot_evicted q h)

module _ {p : ℕ → Bool} {b h : ℕ} {gaps0 gaps m : ℤ} {bits : Bytes} where
  -- The sequence that leaves the window, h + 1 - window, is counted as lost if it is in the
  -- stream's range and was not accepted.
  evicts :
      Tracks p b h gaps0 gaps m bits
      → (leb_ℤ (pos b) (sub_ℕ (h + 1) window) && not (get bits (sub_ℕ (h + 1) window)))
        ≡ (leb (b + window) (h + 1) && not (p (h + 1 - window)))
  evicts t = elim (Bool-cases (leb (b + window) (h + 1))) [
    | inl full ↦
        let l : b + window ≤ h + 1 = leb→le _ _ full in
        ground (
          arith,
          get_evicted bits (h + 1) (omega arith),
          t.held (h + 1 - window) (omega arith) (omega arith),
        )
    | inr room ↦ ground arith
  ]

  held_after :
      (q : ℕ)
      → Tracks p b h gaps0 gaps m bits
      → low b (h + 1) ≤ q
      → q ≤ h + 1
      → get (put bits (pos (h + 1)) false) (pos q) ≡ p q
  held_after q t lo hi = elim (Bool-cases (q == h + 1)) [
    | inl e ↦
        let e' : q ≡ h + 1 = (==_iff _ _).0 e in
        ground
          (arith, get-put bits (pos q) (pos (h + 1)) false t.bitmap, t.after q (omega arith), e')
    | inr n ↦
        let l : q < h + 1 = ground arith in
        ground (
          arith,
          get-put bits (pos q) (pos (h + 1)) false t.bitmap,
          slot_ne q (h + 1) l (omega arith),
          t.held q (omega arith) (omega arith),
        )
  ]

  -- The counts for a window that is full: the sequence e leaves it.
  module _ (t : Tracks p b h gaps0 gaps m bits) (full : b + window ≤ h + 1) where
    low_now : low b h ≡ h + 1 - window
    low_now = omega arith

    low_next : low b (h + 1) ≡ h + 1 - window + 1
    low_next = omega arith

    lost_now : gaps ≡ gaps0 +ℤ pos (unseen p b (h + 1 - window))
    lost_now = rw low_now at t.lost

    waiting_now : m ≡ pos (unseen p (h + 1 - window) (h + 1))
    waiting_now = rw low_now at t.waiting

    lost_hit : p (h + 1 - window) ≡ true → gaps ≡ gaps0 +ℤ pos (unseen p b (low b (h + 1)))
    lost_hit s = rw (low_next, unseen_below_hit p (h + 1 - window) s) lost_now

    lost_miss :
        p (h + 1 - window) ≡ false → gaps +ℤ pos 1 ≡ gaps0 +ℤ pos (unseen p b (low b (h + 1)))
    lost_miss s =
        rw (lost_now, low_next, unseen_below_miss p (h + 1 - window) s)
          (omega (int_laws, unseen_below_le p b (h + 1 - window) (omega arith)))

    waiting_hit :
        (missing : ℤ) (k : ℕ)
        → missing +ℤ pos k ≡ m
        → p (h + 1 - window) ≡ true
        → missing +ℤ pos (k + 1) ≡ pos (unseen p (low b (h + 1)) (h + 1 + 1))
    waiting_hit missing k e s =
        let e' = e ∙ waiting_now in
        rw
          (
            low_next,
            unseen_below_hit p (h + 1 - window) s,
            unseen_below_miss p (h + 1) (t.after (h + 1) (omega arith)),
          )
          (omega (
            int_laws,
            ap pos_part e',
            ap neg_part e',
            unseen_below_le p (h + 1 - window) (h + 1) (omega arith),
          ))

    waiting_miss :
        (missing : ℤ) (k : ℕ)
        → missing +ℤ pos k ≡ m
        → p (h + 1 - window) ≡ false
        → missing -ℤ pos 1 +ℤ pos (k + 1) ≡ pos (unseen p (low b (h + 1)) (h + 1 + 1))
    waiting_miss missing k e s =
        let e' = e ∙ waiting_now in
        let next = unseen_below_miss p (h + 1 - window) s in
        let le : unseen_below p (h + 1 - window + 1) ≤ unseen_below p (h + 1) =
          unseen_below_le p _ _ (omega arith) in
        rw (low_next, unseen_below_miss p (h + 1) (t.after (h + 1) (omega arith)))
          (omega (int_laws, ap pos_part e', ap neg_part e', next, le))

  -- The counts for a window that still has room.
  module _ (t : Tracks p b h gaps0 gaps m bits) (room : h + 1 < b + window) where
    lost_room : gaps ≡ gaps0 +ℤ pos (unseen p b (low b (h + 1)))
    lost_room = let e : low b (h + 1) ≡ low b h = omega arith in rw e t.lost

    waiting_room :
        (missing : ℤ) (k : ℕ)
        → missing +ℤ pos k ≡ m
        → missing +ℤ pos (k + 1) ≡ pos (unseen p (low b (h + 1)) (h + 1 + 1))
    waiting_room missing k e =
        let e' = e ∙ t.waiting in
        let low_eq : low b (h + 1) ≡ low b h = omega arith in
        rw (low_eq, unseen_below_miss p (h + 1) (t.after (h + 1) (omega arith)))
          (omega (
            int_laws,
            ap pos_part e',
            ap neg_part e',
            unseen_below_le p (low b h) (h + 1) (omega (arith, t.ordered)),
          ))

  lost_after :
      Tracks p b h gaps0 gaps m bits
      → (if leb (b + window) (h + 1) && not (p (h + 1 - window)) then gaps +ℤ pos 1 else gaps)
        ≡ gaps0 +ℤ pos (unseen p b (low b (h + 1)))
  lost_after t = elim (Bool-cases (leb (b + window) (h + 1))) [
    | inl full ↦ elim (Bool-cases (p (h + 1 - window))) [
      | inl hit ↦ rw (full, hit) (lost_hit t (leb→le _ _ full) hit)
      | inr miss ↦ rw (full, miss) (lost_miss t (leb→le _ _ full) miss)
    ]
    | inr r ↦ rw r (lost_room t (ground arith))
  ]

  waiting_after :
      (missing : ℤ) (k : ℕ)
      → Tracks p b h gaps0 gaps m bits
      → missing +ℤ pos k ≡ m
      → (if leb (b + window) (h + 1) && not (p (h + 1 - window)) then missing -ℤ pos 1 else missing)
          +ℤ pos (k + 1)
        ≡ pos (unseen p (low b (h + 1)) (h + 1 + 1))
  waiting_after missing k t e = elim (Bool-cases (leb (b + window) (h + 1))) [
    | inl full ↦ elim (Bool-cases (p (h + 1 - window))) [
      | inl hit ↦ rw (full, hit) (waiting_hit t (leb→le _ _ full) missing k e hit)
      | inr miss ↦ rw (full, miss) (waiting_miss t (leb→le _ _ full) missing k e miss)
    ]
    | inr r ↦ rw r (waiting_room t (ground arith) missing k e)
  ]

module _ {p : ℕ → Bool} {b : ℕ} {gaps0 : ℤ} where
  -- One round of the loop moves the window by one sequence that has not been accepted.
  sweep-Tracks :
      (h k : ℕ) (w : Sweep)
      → Tracks p b h gaps0 w.gaps (w.missing +ℤ pos k) w.bits
      → let w' : Sweep = sweep (pos b) (h + 1) w in
        Tracks p b (h + 1) gaps0 w'.gaps (w'.missing +ℤ pos (k + 1)) w'.bits
  unfolding sweep
  sweep-Tracks h k w t = record {
    ordered = omega (arith, t.ordered);
    before = t.before;
    after = λ q l. t.after q (omega arith);
    bitmap = put-IsBitmap w.bits (pos (h + 1)) false t.bitmap;
    held = λ q lo hi. held_after q t lo hi;
    lost = rw (evicts t) (lost_after t);
    waiting = rw (evicts t) (waiting_after w.missing k t refl);
  }

  -- The whole loop, n rounds from the sequence after h.
  pub sweep_range-Tracks :
      (n h k : ℕ) (w : Sweep)
      → Tracks p b h gaps0 w.gaps (w.missing +ℤ pos k) w.bits
      → let w' : Sweep = sweep_range (pos b) n (h + 1) w in
        Tracks p b (h + n) gaps0 w'.gaps (w'.missing +ℤ pos (k + n)) w'.bits
  unfolding sweep_range
  sweep_range-Tracks zero h k w t =
      let eh : h + 0 ≡ h = omega arith in let ek : k + 0 ≡ k = omega arith in rw (eh, ek) t
  sweep_range-Tracks (suc n) h k w t =
      let eh : h + suc n ≡ h + 1 + n = omega arith in
      let ek : k + suc n ≡ k + 1 + n = omega arith in
      rw (eh, ek)
        (sweep_range-Tracks n (h + 1) (k + 1) (sweep (pos b) (h + 1) w) (sweep-Tracks h k w t))
