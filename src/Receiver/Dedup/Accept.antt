-- ===== src/Receiver/Dedup/Accept.antt =====
-- How the branches of `mark` that accept a sequence change what the stream's fields stand for.
use ot_security.Common.{
  ℕ, ◌+◌, ◌-◌, ◌≤◌, ◌<◌, ◌≡◌, ◌≢◌, refl, ap, ◌∙◌, sym, Bool, true, false, arith, ltb, ltb→lt,
  ==_iff, ◌==◌, Bool-cases, inl, inr, length, replicate,
}
use ot_security.Common.Int.{ℤ, pos, ◌+ℤ◌, ◌-ℤ◌, int_laws}
use ot_security.Common.Bytes.{Bytes}
use ot_security.Receiver.Dedup.{Stream, Totals, Sweep, sweep_range, get, put, slot, window, advance}
use ot_security.Receiver.Dedup.Bitmap.{get-put, put-IsBitmap, get-zeros, zeros-IsBitmap}
use ot_security.Receiver.Dedup.Count.{
  unseen_below, unseen_below_above, with_seq, unseen_with_below, unseen_with_past, unseen_below_le,
}
use ot_security.Receiver.Dedup.Tracks.{Tracks, Tracks-missing_eq, low, sweep_range-Tracks}

-- The stream's fields stand for the base b, the highest sequence h and the accepted sequences p.
pub record IsTracked (p : ℕ → Bool) (b h : ℕ) (gaps0 gaps : ℤ) (s : Stream) : Type 0 where
  pub base : s.base ≡ pos b
  pub highest : s.highest ≡ pos h
  pub tracks : Tracks p b h gaps0 gaps s.missing s.bits

slots_differ : (q x : ℕ) → q ≢ x → q < x + window → x < q + window → slot (pos q) ≢ slot (pos x)
unfolding slot
slots_differ q x n l k = omega arith

module _ {p : ℕ → Bool} {b h : ℕ} {gaps0 gaps m : ℤ} {bits : Bytes} where
  accept_held :
      (x q : ℕ)
      → Tracks p b h gaps0 gaps m bits
      → low b h ≤ x
      → x ≤ h
      → low b h ≤ q
      → q ≤ h
      → get (put bits (pos x) true) (pos q) ≡ with_seq p x q
  accept_held x q t lo hi lq hq = elim (Bool-cases (q == x)) [
    | inl e ↦
        let e' : q ≡ x = (==_iff _ _).0 e in
        ground (arith, get-put bits (pos q) (pos x) true t.bitmap, e')
    | inr n ↦
        let n' : slot (pos q) ≢ slot (pos x) =
          slots_differ q x (ground arith) (omega arith) (omega arith) in
        ground (arith, get-put bits (pos q) (pos x) true t.bitmap, t.held q lq hq, n')
  ]

  -- An unseen sequence of the window is accepted.
  pub accept-Tracks :
      (x : ℕ)
      → Tracks p b h gaps0 gaps m bits
      → p x ≡ false
      → low b h ≤ x
      → x ≤ h
      → Tracks (with_seq p x) b h gaps0 gaps (m -ℤ pos 1) (put bits (pos x) true)
  accept-Tracks x t s lo hi = record {
    ordered = t.ordered;
    before = λ q l. let n : q ≢ x = omega arith in ground (arith, t.before q l, n);
    after = λ q l. let n : q ≢ x = omega arith in ground (arith, t.after q l, n);
    bitmap = put-IsBitmap bits (pos x) true t.bitmap;
    held = λ q lq hq. accept_held x q t lo hi lq hq;
    lost =
        rw (unseen_with_below p x (low b h) s lo, unseen_with_below p x b s (omega arith)) t.lost;
    waiting =
        rw (t.waiting, unseen_with_below p x (low b h) s lo)
          (omega (
            int_laws,
            unseen_with_past p x (h + 1) s (omega arith),
            unseen_with_below p x (low b h) s lo,
            unseen_below_le (with_seq p x) (low b h) (h + 1) (omega arith),
          ));
  }

  -- The window moves past everything that it held.
  pub jump-Tracks :
      (seq : ℕ)
      → Tracks p b h gaps0 gaps m bits
      → h + window < seq
      → Tracks p b seq gaps0
          (gaps +ℤ (m +ℤ pos (seq - h - window)))
          (pos window)
          (replicate (length bits) 0)
  jump-Tracks seq t far = record {
    ordered = omega (arith, t.ordered);
    before = t.before;
    after = λ q l. t.after q (omega arith);
    bitmap = zeros-IsBitmap bits t.bitmap;
    held = λ q lq hq. get-zeros (length bits) (pos q) ∙ sym (t.after q (omega (arith, t.ordered)));
    lost =
        rw (t.lost, t.waiting, low_jump)
          (omega (
            int_laws,
            above,
            unseen_below_le p b (low b h) (omega arith),
            unseen_below_le p (low b h) (h + 1) (omega (arith, t.ordered)),
          ));
    waiting = rw low_jump (ap pos (omega (arith, above, top)));
  }
    where
      low_jump : low b seq ≡ seq + 1 - window
      low_jump = omega (arith, t.ordered)

      above : unseen_below p (seq + 1 - window) ≡ unseen_below p (h + 1) + (seq - h - window)
      above =
          let e : h + 1 + (seq - h - window) ≡ seq + 1 - window = omega arith in
          rw (← e)
            (unseen_below_above p (h + 1) (seq - h - window) (λ q l. t.after q (omega arith)))

      top : unseen_below p (seq + 1) ≡ unseen_below p (h + 1) + (seq - h)
      top =
          let e : h + 1 + (seq - h) ≡ seq + 1 = omega arith in
          rw (← e) (unseen_below_above p (h + 1) (seq - h) (λ q l. t.after q (omega arith)))

module _ {p : ℕ → Bool} {b h : ℕ} {gaps0 : ℤ} {s : Stream} (t : Totals) where
  jump-IsTracked :
      (seq : ℕ)
      → IsTracked p b h gaps0 t.gaps s
      → h + window < seq
      → IsTracked
          (with_seq p seq)
          b
          seq
          gaps0
          (t.gaps +ℤ (s.missing +ℤ pos (seq - h - window)))
          (record s {
            highest = pos seq;
            missing = pos (window - 1);
            bits = put (replicate (length s.bits) 0) (pos seq) true;
          })
  jump-IsTracked seq k far = record {
    base = k.base;
    highest = refl;
    tracks = Tracks-missing_eq (omega int_laws) (
        accept-Tracks seq (jump-Tracks seq k.tracks far) (k.tracks.after seq (omega arith))
          (omega (arith, k.tracks.ordered)) (omega arith));
  }

  slide-IsTracked :
      (seq : ℕ)
      → IsTracked p b h gaps0 t.gaps s
      → h < seq
      → let w : Sweep =
          sweep_range s.base
            (seq - h)
            (h + 1)
            (record { gaps = t.gaps; missing = s.missing; bits = s.bits }) in
        IsTracked (with_seq p seq) b seq gaps0 w.gaps (record s {
          highest = pos seq;
          missing = w.missing +ℤ pos (seq - h - 1);
          bits = put w.bits (pos seq) true;
        })
  slide-IsTracked seq k l = record {
    base = k.base;
    highest = refl;
    tracks = Tracks-missing_eq (omega int_laws) (
        accept-Tracks seq slid (k.tracks.after seq l) (omega (arith, k.tracks.ordered))
          (omega arith));
  }
    where
      w : Sweep
      w =
          sweep_range s.base (seq - h) (h + 1)
            (record { gaps = t.gaps; missing = s.missing; bits = s.bits })

      slid : Tracks p b seq gaps0 w.gaps (w.missing +ℤ pos (seq - h)) w.bits
      slid =
          let e : h + (seq - h) ≡ seq = omega arith in
          let e0 : 0 + (seq - h) ≡ seq - h = omega arith in
          let start : s.missing ≡ s.missing +ℤ pos 0 = omega int_laws in
          let done =
            sweep_range-Tracks (seq - h) h 0
              (record { gaps = t.gaps; missing = s.missing; bits = s.bits })
              (Tracks-missing_eq start k.tracks) in
          rw k.base (rw (e, e0) at done)

  pub advance-IsTracked :
      (seq : ℕ)
      → IsTracked p b h gaps0 t.gaps s
      → h < seq
      → IsTracked
          (with_seq p seq)
          b
          seq
          gaps0
          (advance t s h seq).totals.gaps
          (advance t s h seq).stream
  unfolding advance
  advance-IsTracked seq k l = elim (Bool-cases (ltb window (seq - h))) [
    | inl far ↦ rw far (jump-IsTracked seq k (let f = ltb→lt _ _ far in omega arith))
    | inr near ↦ rw near (slide-IsTracked seq k l)
  ]
