-- ===== src/Receiver/Dedup/Sound.antt =====
-- Every stream of a window stands for the sequences that it has accepted.
use ot_security.Common.{
  ℕ, ◌≤◌, max, ◌≡◌, ◌⊎◌, ap, ◌∙◌, Bool, false, none, some, [], ◌∷◌, arith, ltb, ltb→lt, ◌==◌,
  ==_refl, Bool-cases, Option-cases, inl, inr, length,
}
use ot_security.Common.Int.{ℤ, pos, ◌-ℤ◌, int_laws}
use ot_security.Common.Dict.{
  Dict, Text, text_eq, lookup, insert_new, NodupKeys, move_to_end, lookup-move_to_end,
  lookup-append_new,
}
use ot_security.Receiver.Dedup.{
  Stream, DedupWindow, init, fresh, mark_stream, classify, key, trim, mark, max_streams,
}
use ot_security.Receiver.Dedup.Count.{unseen}
use ot_security.Receiver.Dedup.Tracks.{low}
use ot_security.Receiver.Dedup.Accept.{IsTracked}
use ot_security.Receiver.Dedup.Mark.{
  accepts, after_mark, ideal_class, classify-ideal, mark_stream-IsTracked, first-IsTracked,
}
use ot_security.Receiver.Dedup.Window.{
  IsWindow, mark-IsWindow, with_stream, trim_room, trim_full, length-with_stream, stream_of,
}

-- Some set of accepted sequences explains the fields of the stream.
abbrev pub IsExplained : Stream → Type 0
IsExplained s =
    (p : ℕ → Bool) × (b : ℕ) × (h : ℕ) × ((gaps : ℤ) → (gaps0 : ℤ) × IsTracked p b h gaps0 gaps s)

pub record IsSound (w : DedupWindow) : Type 0 where
  pub window : IsWindow w
  pub explained : (j : Text) (s : Stream) → lookup j w.streams ≡ some s → IsExplained s

-- The total of the gaps holds those of the other streams too, whatever they are.
explain :
    {p : ℕ → Bool} {b h : ℕ} {gaps0 gaps : ℤ} {s : Stream}
    → IsTracked p b h gaps0 gaps s
    → IsExplained s
explain {p} {b} {h} k = (
  p,
  b,
  h,
  λ gaps. (
    gaps -ℤ pos (unseen p b (low b h)),
    record {
      base = k.base;
      highest = k.highest;
      tracks = record {
        ordered = k.tracks.ordered;
        before = k.tracks.before;
        after = k.tracks.after;
        bitmap = k.tracks.bitmap;
        held = k.tracks.held;
        lost = omega int_laws;
        waiting = k.tracks.waiting;
      };
    },
  ),
)

-- What a mark accepted is not accepted again, and what it rejected neither.
rejects_marked :
    (p : ℕ → Bool) (b h q : ℕ)
    → b ≤ h
    → accepts (ideal_class (after_mark p (ideal_class p b h q) q) b (max h q) q) ≡ false
rejects_marked p b h q o = ground (arith, ==_refl q)

rejects_first : (q : ℕ) → accepts (ideal_class (λ r. r == q) q q q) ≡ false
rejects_first q = ground (arith, ==_refl q)

-- A stream found after `trim` is the new one, or was there before.
module _ (k j : Text) (s found : Stream) where
  appended_lookup :
      (d : Dict Text Stream)
      → lookup k d ≡ none
      → lookup j (with_stream k s d) ≡ some found
      → (found ≡ s) ⊎ (lookup j d ≡ some found)
  appended_lookup d h e = ground (arith, lookup-append_new j k s d h)

  trim-lookup :
      (d : Dict Text Stream)
      → NodupKeys d
      → length d ≤ max_streams
      → lookup k d ≡ none
      → lookup j (trim (with_stream k s d)) ≡ some found
      → (found ≡ s) ⊎ (lookup j d ≡ some found)
  unfolding lookup
  trim-lookup [] n l h e = appended_lookup [] h (rw (trim_room k s [] (omega arith)) at e)
  trim-lookup (x ∷ d) n l h e = elim (Bool-cases (ltb (length (x ∷ d)) max_streams)) [
    | inl room ↦ appended_lookup (x ∷ d) h (rw (trim_room k s (x ∷ d) (ltb→lt _ _ room)) at e)
    | inr full ↦
        let l' : length (with_stream k s d) ≡ max_streams =
          ground (arith, length-with_stream k s d) in
        elim (appended_lookup d (ground arith) (rw (trim_full x (with_stream k s d) l') at e)) [
          | inl same ↦ inl same
          | inr old ↦ inr (ground (arith, n.0))
        ]
  ]

module _ (w : DedupWindow) (a b : Text) (seq : ℕ) where
  found_in_mark :
      IsWindow w
      → (j : Text) (found : Stream) → lookup j (mark w a b seq).1.streams ≡ some found
      → (found ≡ (mark_stream w.totals (stream_of w a b) seq).stream)
        ⊎ (lookup j w.streams ≡ some found)
  unfolding mark
  found_in_mark v j found e = elim (Option-cases (lookup (key a b) w.streams)) [
    | inl absent ↦
        let s = (mark_stream w.totals fresh seq).stream in
        let e' : lookup j (trim (with_stream (key a b) s w.streams)) ≡ some found =
          rw (absent, mark, insert_new (key a b) s w.streams absent) at e in
        rw (absent, stream_of)
          (trim-lookup (key a b) j s found w.streams v.distinct v.bounded absent e')
    | inr (t, there) ↦
        let s = (mark_stream w.totals t seq).stream in
        let e' : lookup j (move_to_end (key a b) s w.streams) ≡ some found =
          rw (there, mark) at e in
        rw (there, stream_of) (ground (arith, lookup-move_to_end j (key a b) s w.streams))
  ]

  -- The marked stream is explained, and rejects the sequence from now on.
  pub marked_stream :
      IsSound w
      → let s = (mark_stream w.totals (stream_of w a b) seq).stream in
        IsExplained s × (accepts (classify s seq) ≡ false)
  marked_stream v = elim (Option-cases (lookup (key a b) w.streams)) [
    | inl absent ↦
        let (_, k) = first-IsTracked w.totals seq in
        rw (absent, stream_of) (explain k, ap accepts (classify-ideal seq k) ∙ rejects_first seq)
    | inr (t, there) ↦
        let (p, base, h, all) = v.explained (key a b) t there in
        let (class, k) = mark_stream-IsTracked w.totals seq (all w.totals.gaps).1 in
        rw (there, stream_of)
          (
            explain k,
            ap accepts (classify-ideal seq (rw class at k))
                ∙ rejects_marked p base h seq (all w.totals.gaps).1.tracks.ordered,
          )
  ]

  -- A mark keeps the window sound.
  pub mark-IsSound : IsSound w → IsSound (mark w a b seq).1
  mark-IsSound v = record {
    window = mark-IsWindow w a b seq v.window;
    explained = λ j s e. elim (found_in_mark v.window j s e) [
      | inl same ↦ rw same (marked_stream v).0
      | inr old ↦ v.explained j s old
    ];
  }

pub init-IsSound : IsSound init
unfolding init lookup
init-IsSound = record {
  window = record { distinct = tt; bounded = omega arith };
  explained = λ j s e. absurd (cc);
}
