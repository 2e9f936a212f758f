-- ===== src/Receiver/Dedup/Window.antt =====
-- The window of all streams: one entry for each key, and at most `max_streams` of them.
use ot_security.Common.{
  ℕ, suc, ◌≤◌, ◌<◌, ◌≡◌, ◌≢◌, refl, ◌∙◌, none, some, [], ◌∷◌, ◌++◌, arith, ltb, ltb→lt, if_pos,
  Bool-cases, Option-cases, inl, inr, length, length-append,
}
use ot_security.Common.Dict.{
  Dict, Text, text_eq, text_dec, lookup, insert_new, NodupKeys, lookup-append_new,
  lookup-move_to_end, append_new-NodupKeys, move_to_end-NodupKeys, length-move_to_end,
}
use ot_security.Receiver.Dedup.{
  Stream, DedupWindow, fresh, mark_stream, key, trim, check, mark, max_streams, new, Totals,
}
use ot_security.Receiver.Dedup.Mark.{mark_class}

pub record IsWindow (w : DedupWindow) : Type 0 where
  pub distinct : NodupKeys w.streams
  pub bounded : length w.streams ≤ max_streams

pub trim_small : (d : Dict Text Stream) → length d ≤ max_streams → trim d ≡ d
unfolding trim
trim_small [] h = refl
trim_small (x ∷ d) h = ground arith

-- One stream too many costs the least recently used one.
pub trim_full :
    (x : Text × Stream) (d : Dict Text Stream) → length d ≡ max_streams → trim (x ∷ d) ≡ d
unfolding trim
trim_full x d h = ground (arith, trim_small d)

-- A new stream goes to the end, and the bound holds again after `trim`.
module _ (k : Text) (s : Stream) where
  abbrev pub with_stream : Dict Text Stream → Dict Text Stream
  with_stream d = d ++ ((k, s) ∷ [])

  lookup-with_stream :
      (d : Dict Text Stream) → lookup k d ≡ none → lookup k (with_stream d) ≡ some s
  lookup-with_stream d h =
      lookup-append_new k k s d h ∙ if_pos (text_dec k k) refl (some s) (lookup k d)

  pub length-with_stream : (d : Dict Text Stream) → length (with_stream d) ≡ suc (length d)
  length-with_stream d = omega (arith, length-append d ((k, s) ∷ []))

  pub trim_room :
      (d : Dict Text Stream) → length d < max_streams → trim (with_stream d) ≡ with_stream d
  trim_room d l = trim_small (with_stream d) (omega (arith, length-with_stream d))

  pub trim_new :
      (d : Dict Text Stream)
      → NodupKeys d
      → length d ≤ max_streams
      → lookup k d ≡ none
      → NodupKeys (trim (with_stream d))
        × (length (trim (with_stream d)) ≤ max_streams)
        × (lookup k (trim (with_stream d)) ≡ some s)
  unfolding lookup
  trim_new [] n l h =
      rw (trim_room [] (omega arith))
        (append_new-NodupKeys k s [] h n, omega arith, lookup-with_stream [] h)
  trim_new (x ∷ d) n l h = elim (Bool-cases (ltb (length (x ∷ d)) max_streams)) [
    | inl room ↦ rw (trim_room (x ∷ d) (ltb→lt _ _ room)) (
      append_new-NodupKeys k s (x ∷ d) h n,
      omega (arith, length-with_stream (x ∷ d), ltb→lt _ _ room),
      lookup-with_stream (x ∷ d) h,
    )
    | inr full ↦
        let l' : length (with_stream d) ≡ max_streams = ground (arith, length-with_stream d) in
        let h' : lookup k d ≡ none = ground arith in
        rw (trim_full x (with_stream d) l')
          (append_new-NodupKeys k s d h' n.1, omega arith, lookup-with_stream d h')
  ]

fresh_class : (t : Totals) (q : ℕ) → (mark_stream t fresh q).class ≡ new
unfolding fresh mark_stream
fresh_class t q = refl

module _ (w : DedupWindow) (a b : Text) (seq : ℕ) where
  -- `mark` returns the class that `check` gives.
  pub mark-check : (mark w a b seq).0 ≡ check w a b seq
  unfolding mark check
  mark-check = elim (Option-cases (lookup (key a b) w.streams)) [
    | inl e ↦ rw (e, mark, check) (fresh_class w.totals seq)
    | inr (s, e) ↦ rw (e, mark, check) (mark_class w.totals s seq)
  ]

  -- A mark keeps the keys distinct and their number bounded.
  pub mark-IsWindow : IsWindow w → IsWindow (mark w a b seq).1
  unfolding mark
  mark-IsWindow v = elim (Option-cases (lookup (key a b) w.streams)) [
    | inl e ↦
        let m = mark_stream w.totals fresh seq in
        let (n, l, _) = trim_new (key a b) m.stream w.streams v.distinct v.bounded e in
        rw (e, mark, insert_new (key a b) m.stream w.streams e)
          (record { distinct = n; bounded = l })
    | inr (s, e) ↦
        let m = mark_stream w.totals s seq in
        rw (e, mark)
          (record {
            distinct = move_to_end-NodupKeys (key a b) m.stream w.streams v.distinct;
            bounded =
                omega (
                  arith,
                  length-move_to_end (key a b) m.stream s w.streams v.distinct e,
                  v.bounded,
                );
          })
  ]

-- The stream that a mark works on.
abbrev pub stream_of : DedupWindow → Text → Text → Stream
stream_of w a b = elim (lookup (key a b) w.streams) [ none ↦ fresh | some s ↦ s ]

module _ (w : DedupWindow) (a b : Text) (seq : ℕ) where
  -- After a mark, the stream of its key is the marked one, and the totals are those of the mark.
  pub mark-stream :
      IsWindow w
      → let r = mark_stream w.totals (stream_of w a b) seq in
        (lookup (key a b) (mark w a b seq).1.streams ≡ some r.stream)
        × ((mark w a b seq).1.totals ≡ r.totals)
  unfolding mark
  mark-stream v = elim (Option-cases (lookup (key a b) w.streams)) [
    | inl e ↦
        let m = mark_stream w.totals fresh seq in
        let (_, _, found) = trim_new (key a b) m.stream w.streams v.distinct v.bounded e in
        rw (e, mark, stream_of, insert_new (key a b) m.stream w.streams e) (found, refl)
    | inr (s, e) ↦
        let m = mark_stream w.totals s seq in
        let found = lookup-move_to_end (key a b) (key a b) m.stream w.streams in
        rw (e, mark, stream_of) (found ∙ if_pos (text_dec (key a b) (key a b)) refl _ _, refl)
  ]

  -- While there is room for a new stream, a mark leaves the streams of the other keys alone.
  pub mark_isolated :
      (j : Text)
      → length w.streams < max_streams
      → j ≢ key a b
      → lookup j (mark w a b seq).1.streams ≡ lookup j w.streams
  unfolding mark
  mark_isolated j room n = elim (Option-cases (lookup (key a b) w.streams)) [
    | inl e ↦
        let m = mark_stream w.totals fresh seq in
        rw
          (
            e,
            mark,
            insert_new (key a b) m.stream w.streams e,
            trim_room (key a b) m.stream w.streams room,
          )
          (ground (arith, lookup-append_new j (key a b) m.stream w.streams e))
    | inr (s, e) ↦
        let m = mark_stream w.totals s seq in
        rw (e, mark) (ground (arith, lookup-move_to_end j (key a b) m.stream w.streams))
  ]
