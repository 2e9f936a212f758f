-- ===== src/Receiver/Dedup/Mark.antt =====
-- `mark` on one stream, against the sequences that the stream has accepted.
use ot_security.Common.{
  ℕ, ◌≤◌, ◌<◌, max, ◌≡◌, refl, ap, ◌∙◌, sym, Bool, true, false, ◌||◌, arith, ltb, ltb→lt, ==_refl,
  if◌then◌else◌, ◌==◌, Bool-cases, inl, inr,
}
use ot_security.Common.Int.{ℤ, pos, negsuc, ◌-ℤ◌, leb_ℤ, ltb_ℤ, int_laws}
use ot_security.Common.Bytes.{Bytes}
use ot_security.Receiver.Dedup.{
  Class, new, reordered, duplicate, stale, Stream, Totals, get, put, window, classify, advance,
  settle, mark_stream,
}
use ot_security.Receiver.Dedup.Bitmap.{IsBitmap, get-put, put-IsBitmap}
use ot_security.Receiver.Dedup.Count.{with_seq, unseen_below_hit}
use ot_security.Receiver.Dedup.Tracks.{Tracks, low}
use ot_security.Receiver.Dedup.{fresh, zero_bits}
use ot_security.Receiver.Dedup.Bitmap.{zero_bits-IsBitmap}
use ot_security.Receiver.Dedup.Accept.{IsTracked, accept-Tracks, advance-IsTracked}

abbrev pub accepts : Class → Bool
accepts new = true
accepts reordered = true
accepts _ = false

-- What the class of seq should be, where p holds of the accepted sequences.
abbrev pub ideal_class : (ℕ → Bool) → ℕ → ℕ → ℕ → Class
ideal_class p b h seq =
    if ltb h seq
    then new
    else if ltb seq (low b h)
    then stale
    else if p seq
    then duplicate
    else reordered

mark_class_at :
    (t : Totals) (base highest missing : ℤ) (bits : Bytes) (seq : ℕ)
    → let s : Stream = record { base = base; highest = highest; missing = missing; bits = bits } in
      (mark_stream t s seq).class ≡ classify s seq
unfolding mark_stream advance settle classify
mark_class_at t base (negsuc n) missing bits seq = ground arith
mark_class_at t base (pos h) missing bits seq = ground arith

-- `check` and `mark` classify alike.
pub mark_class : (t : Totals) (s : Stream) (seq : ℕ) → (mark_stream t s seq).class ≡ classify s seq
mark_class t s seq = mark_class_at t s.base s.highest s.missing s.bits seq

-- The test for a stale sequence, over numbers.
stale_test :
    (b h seq : ℕ)
    → (leb_ℤ (pos seq) (pos h -ℤ pos window) || ltb_ℤ (pos seq) (pos b)) ≡ ltb seq (low b h)
unfolding ◌-ℤ◌
stale_test b h seq = ground arith

module _ {p : ℕ → Bool} {b h : ℕ} {gaps0 gaps : ℤ} {s : Stream} where
  -- A tracked stream classifies by the accepted sequences.
  pub classify-ideal :
      (seq : ℕ) → IsTracked p b h gaps0 gaps s → classify s seq ≡ ideal_class p b h seq
  unfolding classify
  classify-ideal seq k =
      rw (k.highest, k.base, stale_test b h seq) (ground (arith, k.tracks.held seq))

module _ (t : Totals) (s : Stream) (h seq : ℕ) where
  advance_class : (advance t s h seq).class ≡ new
  unfolding advance
  advance_class = ground arith

  mark_stream_at :
      s.highest ≡ pos h
      → mark_stream t s seq ≡ (if ltb h seq then advance t s h seq else settle t s h seq)
  unfolding mark_stream
  mark_stream_at e = ground arith

-- The accepted sequences after a mark of the given class.
abbrev pub after_mark : (ℕ → Bool) → Class → ℕ → ℕ → Bool
after_mark p c seq = if accepts c then with_seq p seq else p

module _ {p : ℕ → Bool} {b h : ℕ} {gaps0 : ℤ} {s : Stream} (t : Totals) (seq : ℕ) where
  settle-IsTracked :
      IsTracked p b h gaps0 t.gaps s
      → seq ≤ h
      → let r = settle t s h seq in
        IsTracked (after_mark p r.class seq) b h gaps0 r.totals.gaps r.stream
  unfolding settle
  settle-IsTracked k l = elim (Bool-cases (ltb seq (low b h))) [
    | inl old ↦
        rw (k.base, stale_test b h seq, old)
          (record { base = refl; highest = k.highest; tracks = k.tracks })
    | inr recent ↦ elim (Bool-cases (get s.bits (pos seq))) [
      | inl hit ↦
          rw (k.base, stale_test b h seq, recent, hit)
            (record { base = refl; highest = k.highest; tracks = k.tracks })
      | inr miss ↦
          rw (k.base, stale_test b h seq, recent, miss)
            (record {
              base = refl;
              highest = k.highest;
              tracks =
                  accept-Tracks seq k.tracks (sym (k.tracks.held seq (ground arith) l) ∙ miss)
                    (ground arith) l;
            })
    ]
  ]

  marked-IsTracked :
      IsTracked p b h gaps0 t.gaps s
      → let r = mark_stream t s seq in
        IsTracked (after_mark p r.class seq) b (max h seq) gaps0 r.totals.gaps r.stream
  marked-IsTracked k = elim (Bool-cases (ltb h seq)) [
    | inl up ↦
        let l : h < seq = ltb→lt _ _ up in
        let m : max h seq ≡ seq = omega arith in
        rw (mark_stream_at t s h seq k.highest, up, advance_class t s h seq, m)
          (advance-IsTracked t seq k l)
    | inr down ↦
        let l : seq ≤ h = ground arith in
        let m : max h seq ≡ h = omega arith in
        rw (mark_stream_at t s h seq k.highest, down, m) (settle-IsTracked k l)
  ]

  -- After a mark of a tracked stream, its class is the one that the accepted sequences give, and the
  -- fields stand for the accepted sequences with the new one, if that was accepted.
  pub mark_stream-IsTracked :
      IsTracked p b h gaps0 t.gaps s
      → let r = mark_stream t s seq in
        (r.class ≡ ideal_class p b h seq)
        × IsTracked (after_mark p r.class seq) b (max h seq) gaps0 r.totals.gaps r.stream
  mark_stream-IsTracked k = (mark_class t s seq ∙ classify-ideal seq k, marked-IsTracked k)

-- The first mark of a stream starts it at its sequence.
module _ (t : Totals) (seq : ℕ) where
  only : ℕ → Bool
  only q = q == seq

  first-Tracks :
      (bits : Bytes)
      → IsBitmap bits
      → Tracks (λ q. q == seq) seq seq t.gaps t.gaps (pos 0) (put bits (pos seq) true)
  first-Tracks bits z = record {
    ordered = omega arith;
    before = λ q l. ground arith;
    after = λ q l. ground arith;
    bitmap = put-IsBitmap bits (pos seq) true z;
    held = λ q lo hi.
        let e : q ≡ seq = omega arith in ground (arith, get-put bits (pos q) (pos seq) true z, e);
    lost = let e : low seq seq ≡ seq = omega arith in rw e (omega int_laws);
    waiting =
        let e : low seq seq ≡ seq = omega arith in
        rw (e, unseen_below_hit (λ q. q == seq) seq (==_refl seq)) (ap pos (omega arith));
  }

  pub first-IsTracked :
      let r = mark_stream t fresh seq in
      (r.class ≡ new) × IsTracked (λ q. q == seq) seq seq t.gaps r.totals.gaps r.stream
  unfolding mark_stream fresh
  first-IsTracked = (
    refl,
    record { base = refl; highest = refl; tracks = first-Tracks zero_bits zero_bits-IsBitmap },
  )
