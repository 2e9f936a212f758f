-- ===== src/Link/Reassembly/Records.antt =====
-- What is reassembled is the record that was cut into fragments, in whatever order they come.
use ot_security.Common.{
  ℕ, zero, suc, ◌+◌, ◌*◌, ◌≤◌, ◌<◌, ◌≡◌, refl, ap, sym, ◌∙◌, false, not, ◌||◌, Option, none, some,
  List, [], ◌∷◌, arith, ltb, ltb_false→le, ◌==◌, if◌then◌else◌, length, set, replicate, drop,
  Bool-cases, Option-cases, inl, inr, length-set, length-replicate, take-append-drop,
}
use ot_security.Common.Bytes.{Bytes}
use ot_security.Common.Dict.{Text, lookup, found_inserted, found_erased}
use ot_security.Link.Frame.{Codec, Frame, chunk_of, chunk_count}
use ot_security.Link.Frame.RoundTrip.{frame_of}
use ot_security.Link.Reassembly.{
  key_eq, Entry, Reassembler, Expired, Added, waiting, complete, completed, key_of, slot, join,
  finish, store, make_room, add, new_entry,
}
use ot_security.Link.Reassembly.Slots.{
  filled, filled-le, filled-replicate, filled-set, slot_in_range,
}

-- The chunks that have come are those of the record, from place j on.
abbrev pub Holds : Bytes → ℕ → List (Option Bytes) → Type 0
Holds bytes j [] = Unit
Holds bytes j (none ∷ cs) = Holds bytes (j + 1) cs
Holds bytes j (some b ∷ cs) = (b ≡ chunk_of bytes j) × Holds bytes (j + 1) cs

-- The entry is one for the record.
pub record IsPart (bytes : Bytes) (p : Entry) : Type 0 where
  pub counted : p.received ≡ filled p.chunks
  pub size : length p.chunks ≡ chunk_count (length bytes)
  pub total : p.total ≡ length bytes
  pub chunks : Holds bytes 0 p.chunks

-- The entry under a key, where there is one, is one for the record.
abbrev pub IsPending : Bytes → Option Entry → Type 0
IsPending bytes none = Unit
IsPending bytes (some p) = IsPart bytes p

IsPending-of :
    (bytes : Bytes) (o : Option Entry)
    → ((p : Entry) → o ≡ some p → IsPart bytes p)
    → IsPending bytes o
IsPending-of bytes none h = tt
IsPending-of bytes (some p) h = h p refl

drop-drop : (m n : ℕ) (xs : Bytes) → drop m (drop n xs) ≡ drop (n + m) xs
drop-drop m zero xs = let e : zero + m ≡ m = omega arith in rw e
drop-drop zero (suc n) [] = let e : suc n + zero ≡ suc n = omega arith in rw e
drop-drop (suc m) (suc n) [] = let e : suc n + suc m ≡ suc (n + suc m) = omega arith in rw e
drop-drop m (suc n) (x ∷ xs) =
    let e : suc n + m ≡ suc (n + m) = omega arith in rw e (drop-drop m n xs)

drop_all : (n : ℕ) (xs : Bytes) → length xs ≤ n → drop n xs ≡ []
drop_all zero [] h = refl
drop_all zero (x ∷ xs) h = absurd (omega arith)
drop_all (suc n) [] h = refl
drop_all (suc n) (x ∷ xs) h = drop_all n xs (omega arith)

covers : (n j : ℕ) → j + 0 ≡ chunk_count n → n ≤ j * 1200
unfolding chunk_count
covers n j e = omega arith

-- The chunks from place j on are the bytes from there on.
join-Holds :
    (bytes : Bytes) (j : ℕ) (cs : List (Option Bytes))
    → Holds bytes j cs
    → filled cs ≡ length cs
    → j + length cs ≡ chunk_count (length bytes)
    → join cs ≡ some (drop (j * 1200) bytes)
unfolding filled join
join-Holds bytes j [] h f e = rw (drop_all (j * 1200) bytes (covers (length bytes) j e))
join-Holds bytes j (none ∷ cs) h f e = absurd (omega (arith, filled-le cs))
join-Holds bytes j (some b ∷ cs) h f e =
    let tail : join cs ≡ some (drop ((j + 1) * 1200) bytes) =
      join-Holds bytes (j + 1) cs h.1 (omega arith) (omega arith) in
    let next : drop ((j + 1) * 1200) bytes ≡ drop 1200 (drop (j * 1200) bytes) =
      let e' : (j + 1) * 1200 ≡ j * 1200 + 1200 = omega arith in
      rw e' (sym (drop-drop 1200 (j * 1200) bytes)) in
    rw (tail, next, h.0) (ap some (take-append-drop 1200 (drop (j * 1200) bytes)))

Holds-set :
    (bytes : Bytes) (j i : ℕ) (cs : List (Option Bytes))
    → Holds bytes j cs
    → Holds bytes j (set cs i (some (chunk_of bytes (j + i))))
Holds-set bytes j i [] h = tt
Holds-set bytes j zero (none ∷ cs) h = (let e : j + zero ≡ j = omega arith in rw e, h)
Holds-set bytes j zero (some b ∷ cs) h = (let e : j + zero ≡ j = omega arith in rw e, h.1)
Holds-set bytes j (suc i) (none ∷ cs) h =
    let e : j + suc i ≡ j + 1 + i = omega arith in rw e (Holds-set bytes (j + 1) i cs h)
Holds-set bytes j (suc i) (some b ∷ cs) h =
    let e : j + suc i ≡ j + 1 + i = omega arith in (h.0, rw e (Holds-set bytes (j + 1) i cs h.1))

Holds-replicate : (bytes : Bytes) (j n : ℕ) → Holds bytes j (replicate n none)
Holds-replicate bytes j zero = tt
Holds-replicate bytes j (suc n) = Holds-replicate bytes (j + 1) n

module _ (c : Codec) (ftype : ℕ) (sid : Text) (boot : Bytes) (sequence : ℕ) (bytes : Bytes)
    (i : ℕ) where
  abbrev fragment : Frame
  fragment = frame_of c ftype sid boot sequence bytes i

  -- How many chunks the entry has after the fragment.
  abbrev pub have_after : Entry → ℕ
  have_after p = elim (slot p.chunks i) [
    | none ↦ p.received
    | some none ↦ p.received + 1
    | some (some _) ↦ p.received
  ]

  module _ (r : Reassembler) (now_us : ℕ) where
    abbrev pub Answers : ℕ → Added → Type 0
    Answers have a =
        (a.answer ≡ (
          if ltb have (chunk_count (length bytes))
          then waiting
          else complete (completed fragment now_us bytes)))
        × IsPending bytes (lookup (key_of fragment) a.state.pending)

    finish_answer :
        (expired : List Expired) (p : Entry)
        → IsPart bytes p
        → Answers p.received (finish r fragment now_us expired p)
    unfolding finish
    finish_answer expired p part = elim (Bool-cases (ltb p.received (chunk_count (length bytes)))) [
      | inl more ↦ rw more (
        refl,
        IsPending-of bytes _ (λ q e. rw (← found_inserted (key_of fragment) p q r.pending e) part),
      )
      | inr done ↦
          let whole : join p.chunks ≡ some (drop (0 * 1200) bytes) =
            join-Holds bytes 0 p.chunks part.chunks
              (omega (arith, part.counted, part.size, filled-le p.chunks, ltb_false→le _ _ done))
              (omega (arith, part.size)) in
          rw (done, whole)
            (
              refl,
              IsPending-of bytes _ (λ q e. absurd (found_erased (key_of fragment) q r.pending e)),
            )
    ]

    store_answer :
        (expired : List Expired) (p : Entry)
        → IsPart bytes p
        → i < chunk_count (length bytes)
        → Answers (have_after p) (store r fragment now_us expired p)
    unfolding store
    store_answer expired p part l =
        let (old, e) = slot_in_range p.chunks i (omega (arith, part.size)) in go old e
      where
        zero_plus : 0 + i ≡ i
        zero_plus = omega arith

        go :
            (old : Option Bytes)
            → slot p.chunks i ≡ some old
            → Answers (have_after p) (store r fragment now_us expired p)
        go none e =
            rw (e, store, have_after)
              (finish_answer expired _ (record {
                counted = omega (arith, part.counted, filled-set p.chunks i (chunk_of bytes i) e);
                size = length-set p.chunks i (some (chunk_of bytes i)) ∙ part.size;
                total = part.total;
                chunks = rw zero_plus at (Holds-set bytes 0 i p.chunks part.chunks);
              }))
        go (some _) e = rw (e, store, have_after) (finish_answer expired p part)

  -- The entry that the fragment goes to.
  abbrev pub entry_of : Reassembler → ℕ → Entry
  entry_of r now_us = elim (lookup (key_of fragment) r.pending) [
    | none ↦ new_entry fragment now_us
    | some p ↦ p
  ]

  new_entry-IsPart : (now_us : ℕ) → IsPart bytes (new_entry fragment now_us)
  new_entry-IsPart now_us = record {
    counted = sym (filled-replicate (chunk_count (length bytes)));
    size = length-replicate {A = Option Bytes} (chunk_count (length bytes)) none;
    total = refl;
    chunks = Holds-replicate bytes 0 (chunk_count (length bytes));
  }

  -- Where the entry under its key, if there is one, is a part of the record, a fragment of a record of
  -- several, whichever it is and however often it came before, is answered by waiting
  -- as long as chunks are missing, and by exactly the record as soon as none is. What stays pending
  -- under the key is still a part of the record.
  pub add-fragment :
      (r : Reassembler) (now_us : ℕ)
      → IsPending bytes (lookup (key_of fragment) r.pending)
      → 1 < chunk_count (length bytes)
      → i < chunk_count (length bytes)
      → Answers r now_us (have_after (entry_of r now_us)) (add r fragment now_us)
  unfolding add
  add-fragment r now_us parts several l = elim (Option-cases (lookup (key_of fragment) r.pending)) [
    | inl absent ↦
        let d = (make_room r.max_pending r.pending).0 in
        rw (many several, absent, add, entry_of)
          (store_answer (record r { pending = d }) now_us (make_room r.max_pending r.pending).1
            (new_entry fragment now_us) (new_entry-IsPart now_us) l)
    | inr (p, there) ↦
        let part : IsPart bytes p = rw there at parts in
        let agree : (not (length p.chunks == chunk_count (length bytes))
              || not (p.total == length bytes))
            ≡ false =
          ground (arith, part.size, part.total) in
        rw (many several, there, add, entry_of, agree) (store_answer r now_us [] p part l)
  ]
    where
      many : 1 < chunk_count (length bytes) → (chunk_count (length bytes) == 1) ≡ false
      many h = ground arith
