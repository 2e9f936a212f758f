-- ===== src/Receiver/Dedup/Copies.antt =====
-- A copy of a marked record, for as long as the window knows its stream.
use mathlib.Core.Option.{some-injective}
use ot_security.Common.{
  ℕ, ◌≤◌, max, ◌≡◌, ◌≢◌, ap, ◌∙◌, false, none, some, List, [], ◌∷◌, arith, ltb, ltb→lt, Bool-cases,
  Option-cases, inl, inr, length, Bool, subst, sym,
}
use ot_security.Common.Dict.{
  Dict, Text, text_eq, text_dec, lookup, insert_new, NodupKeys, lookup-move_to_end,
  lookup-append_new,
}
use ot_security.Receiver.Dedup.{
  Stream, DedupWindow, fresh, mark_stream, classify, key, trim, check, mark, max_streams,
}
use ot_security.Receiver.Dedup.Mark.{
  accepts, after_mark, ideal_class, classify-ideal, mark_stream-IsTracked,
}
use ot_security.Receiver.Dedup.Window.{
  with_stream, trim_room, trim_full, length-with_stream, stream_of, mark-stream,
}
use ot_security.Receiver.Dedup.Sound.{IsSound, mark-IsSound, marked_stream}

-- A sequence that is refused stays so, whichever one is marked.
still_refused :
    (p : ℕ → Bool) (b h q seq : ℕ)
    → accepts (ideal_class p b h seq) ≡ false
    → accepts (ideal_class (after_mark p (ideal_class p b h q) q) b (max h q) seq) ≡ false
still_refused p b h q seq e = ground arith

-- What is found after the mark of another stream was there before.
module _ (k j : Text) (s found : Stream) (other : j ≢ k) where
  kept_append :
      (d : Dict Text Stream)
      → lookup k d ≡ none
      → lookup j (with_stream k s d) ≡ some found
      → lookup j d ≡ some found
  kept_append d h e = ground (arith, lookup-append_new j k s d h)

  kept-trim :
      (d : Dict Text Stream)
      → NodupKeys d
      → length d ≤ max_streams
      → lookup k d ≡ none
      → lookup j (trim (with_stream k s d)) ≡ some found
      → lookup j d ≡ some found
  unfolding lookup
  kept-trim [] n l h e = kept_append [] h (rw (trim_room k s [] (omega arith)) at e)
  kept-trim (x ∷ d) n l h e = elim (Bool-cases (ltb (length (x ∷ d)) max_streams)) [
    | inl room ↦ kept_append (x ∷ d) h (rw (trim_room k s (x ∷ d) (ltb→lt _ _ room)) at e)
    | inr full ↦
        let l' : length (with_stream k s d) ≡ max_streams =
          ground (arith, length-with_stream k s d) in
        let old = kept_append d (ground arith) (rw (trim_full x (with_stream k s d) l') at e) in
        ground (arith, n.0)
  ]

kept-mark :
    (w : DedupWindow) (a b : Text) (seq : ℕ) (j : Text) (found : Stream)
    → IsSound w
    → j ≢ key a b
    → lookup j (mark w a b seq).1.streams ≡ some found
    → lookup j w.streams ≡ some found
unfolding mark
kept-mark w a b seq j found v other e = elim (Option-cases (lookup (key a b) w.streams)) [
  | inl absent ↦
      let s = (mark_stream w.totals fresh seq).stream in
      kept-trim (key a b) j s found other w.streams v.window.distinct v.window.bounded absent
        (rw (absent, mark, insert_new (key a b) s w.streams absent) at e)
  | inr (t, there) ↦
      let s = (mark_stream w.totals t seq).stream in
      let e' = rw (there, mark) at e in ground (arith, lookup-move_to_end j (key a b) s w.streams)
]

-- A record that is marked, by its sensor, boot and sequence
pub record Marked : Type 0 where
  pub sensor_id : Text
  pub boot_id : Text
  pub sequence : ℕ

-- The window after marks
unfoldable pub marks : DedupWindow → List Marked → DedupWindow
marks w [] = w
marks w (m ∷ ms) = marks (mark w m.sensor_id m.boot_id m.sequence).1 ms

module _ (a b : Text) where
  -- The stream is known, with what is said of it.
  abbrev Found : (Stream → Type 0) → DedupWindow → Type 0
  Found P w = (s : Stream) × (lookup (key a b) w.streams ≡ some s) × P s

  -- No mark evicts the stream.
  abbrev pub IsKept : DedupWindow → List Marked → Type 0
  IsKept w [] = Unit
  IsKept w (m ∷ ms) =
      let u = (mark w m.sensor_id m.boot_id m.sequence).1 in Found (λ s. Unit {0}) u × IsKept u ms

  module _ (seq : ℕ) where
    abbrev IsRefused : Stream → Type 0
    IsRefused s = accepts (classify s seq) ≡ false

    mark_stream-IsRefused :
        (w : DedupWindow) (q : ℕ) (s : Stream)
        → IsSound w
        → lookup (key a b) w.streams ≡ some s
        → IsRefused s
        → IsRefused (mark_stream w.totals s q).stream
    mark_stream-IsRefused w q s v there e =
        let (p, base, h, all) = v.explained (key a b) s there in
        let k0 = (all w.totals.gaps).1 in
        let (class, k) = mark_stream-IsTracked w.totals q k0 in
        ap accepts (classify-ideal seq (rw class at k))
        ∙ still_refused p base h q seq (sym (ap accepts (classify-ideal seq k0)) ∙ e)

    mark-IsRefused :
        (w : DedupWindow) (a' b' : Text) (q : ℕ)
        → IsSound w
        → Found IsRefused w
        → Found (λ s. Unit {0}) (mark w a' b' q).1
        → Found IsRefused (mark w a' b' q).1
    mark-IsRefused w a' b' q v (s, there, e) (found, later, _) =
        elim (text_dec (key a b) (key a' b')) [
          | yes same ↦
              let there' : lookup (key a' b') w.streams ≡ some s = rw (← same) there in
              let at : lookup (key a b) (mark w a' b' q).1.streams
                  ≡ some (mark_stream w.totals s q).stream =
                rw same (rw (there', stream_of) at ((mark-stream w a' b' q v.window).0)) in
              ((mark_stream w.totals s q).stream, at, mark_stream-IsRefused w q s v there e)
          | no other ↦
              let before = kept-mark w a' b' q (key a b) found v other later in
              (found, later, subst IsRefused (some-injective _ _ (sym there ∙ before)) e)
        ]

    check-marks :
        (w : DedupWindow) (ms : List Marked)
        → IsSound w
        → Found IsRefused w
        → IsKept w ms
        → accepts (check (marks w ms) a b seq) ≡ false
    unfolding marks check
    check-marks w [] v (s, there, e) k = rw (there, check) e
    check-marks w (m ∷ ms) v f (here, k) =
        check-marks (mark w m.sensor_id m.boot_id m.sequence).1 ms
          (mark-IsSound w m.sensor_id m.boot_id m.sequence v)
          (mark-IsRefused w m.sensor_id m.boot_id m.sequence v f here) k

-- Once a record has been marked in a sound window, whatever is marked after it, of any streams: as long as its own
-- stream is not evicted, a copy of it is not classed as new or reordered.
pub check-mark :
    (w : DedupWindow) (a b : Text) (seq : ℕ) (later : List Marked)
    → IsSound w
    → IsKept a b (mark w a b seq).1 later
    → accepts (check (marks (mark w a b seq).1 later) a b seq) ≡ false
check-mark w a b seq later v k =
    check-marks a b seq (mark w a b seq).1 later (mark-IsSound w a b seq v)
      (
        (mark_stream w.totals (stream_of w a b) seq).stream,
        (mark-stream w a b seq v.window).0,
        (marked_stream w a b seq v).1,
      )
      k
