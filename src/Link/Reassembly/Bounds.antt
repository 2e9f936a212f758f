-- ===== src/Link/Reassembly/Bounds.antt =====
-- The reassembler stays within its bound, and its entries count their chunks.
use ot_security.Common.{
  ℕ, suc, ◌≤◌, ◌<◌, ◌≡◌, sym, ◌∙◌, not, ◌||◌, Option, none, some, List, [], ◌∷◌, arith, ltb, leb,
  ltb→lt, ltb_false→le, ◌==◌, length, Bool-cases, Option-cases, inl, inr, length-set,
  length-replicate,
}
use ot_security.Common.Bytes.{Bytes}
use ot_security.Common.Dict.{
  Dict, lookup, insert, erase, NodupKeys, AllValues, insert-NodupKeys, erase-NodupKeys,
  insert-AllValues, erase-AllValues, lookup-AllValues, length-insert-le, length-insert_old,
  length-erase-le,
}
use ot_security.Link.Frame.{Frame}
use ot_security.Link.Reassembly.{
  Key, key_eq, Entry, Reassembler, Expired, Answer, waiting, complete, index_error, type_error,
  key_of, slot, finish, store, make_room, add, new_entry,
}
use ot_security.Link.Reassembly.Slots.{
  filled, filled-le, filled-replicate, filled-set, slot_in_range, join_all,
}

-- An entry knows how many of its chunks have come, and some have not.
pub record IsEntry (p : Entry) : Type 0 where
  pub counted : p.received ≡ filled p.chunks
  pub unfinished : p.received < length p.chunks

pub record IsReassembler (r : Reassembler) : Type 0 where
  pub room : 0 < r.max_pending
  pub distinct : NodupKeys r.pending
  pub bounded : length r.pending ≤ r.max_pending
  pub entries : AllValues IsEntry r.pending

-- The answer is a value that `add` returns.
abbrev pub Returns : Answer → Type 0
Returns waiting = Unit
Returns (complete _) = Unit
Returns index_error = ⊥
Returns type_error = ⊥

-- A state that stays within its bound also with an entry for the key k.
record Fits (k : Key) (r : Reassembler) : Type 0 where
  room : 0 < r.max_pending
  distinct : NodupKeys r.pending
  bounded : (p : Entry) → length (insert k p r.pending) ≤ r.max_pending
  smaller : length r.pending ≤ r.max_pending
  entries : AllValues IsEntry r.pending

module _ (r : Reassembler) (f : Frame) (now_us : ℕ) (expired : List Expired) where
  insert-IsReassembler :
      (p : Entry)
      → Fits (key_of f) r
      → IsEntry p
      → IsReassembler (record r { pending = insert (key_of f) p r.pending })
  insert-IsReassembler p v e = record {
    room = v.room;
    distinct = insert-NodupKeys (key_of f) p r.pending v.distinct;
    bounded = v.bounded p;
    entries = insert-AllValues IsEntry (key_of f) p r.pending e v.entries;
  }

  erase-IsReassembler :
      Fits (key_of f) r → IsReassembler (record r { pending = erase (key_of f) r.pending })
  erase-IsReassembler v = record {
    room = v.room;
    distinct = erase-NodupKeys (key_of f) r.pending v.distinct;
    bounded = omega (arith, length-erase-le (key_of f) r.pending, v.smaller);
    entries = erase-AllValues IsEntry (key_of f) r.pending v.entries;
  }

  finish-IsReassembler :
      (p : Entry)
      → Fits (key_of f) r
      → p.received ≡ filled p.chunks
      → length p.chunks ≡ f.frag_count
      → let a = finish r f now_us expired p in IsReassembler a.state × Returns a.answer
  unfolding finish
  finish-IsReassembler p v c l = elim (Bool-cases (ltb p.received f.frag_count)) [
    | inl more ↦ rw more (
      insert-IsReassembler p v
          (record { counted = c; unfinished = omega (arith, ltb→lt _ _ more) }),
      tt,
    )
    | inr done ↦
        let (b, e) = join_all p.chunks (omega (arith, filled-le p.chunks, ltb_false→le _ _ done)) in
        rw (done, e) (erase-IsReassembler v, tt)
  ]

  store-IsReassembler :
      (p : Entry)
      → Fits (key_of f) r
      → p.received ≡ filled p.chunks
      → length p.chunks ≡ f.frag_count
      → f.frag_index < f.frag_count
      → let a = store r f now_us expired p in IsReassembler a.state × Returns a.answer
  unfolding store
  store-IsReassembler p v c l i =
      let (old, e) = slot_in_range p.chunks f.frag_index (omega arith) in go old e
    where
      go :
          (old : Option Bytes)
          → slot p.chunks f.frag_index ≡ some old
          → let a = store r f now_us expired p in IsReassembler a.state × Returns a.answer
      go none e =
          rw (e, store)
            (finish-IsReassembler _ v (omega (arith, filled-set p.chunks f.frag_index f.chunk e))
              (length-set p.chunks f.frag_index (some f.chunk) ∙ l))
      go (some _) e = rw (e, store) (finish-IsReassembler p v c l)

module _ (k : Key) (limit : ℕ) where
  -- After `make_room` there is room for one more entry.
  fits_after_room :
      (d : Dict Key Entry)
      → 0 < limit
      → NodupKeys d
      → length d ≤ limit
      → AllValues IsEntry d
      → let d' = (make_room limit d).0 in NodupKeys d' × (length d' < limit) × AllValues IsEntry d'
  unfolding make_room
  fits_after_room [] z n l a = (tt, z, tt)
  fits_after_room ((j, p) ∷ d) z n l a = elim (Bool-cases (leb limit (suc (length d)))) [
    | inl full ↦ rw full (n.1, omega arith, a.1)
    | inr free ↦ rw free (n, ground arith, a)
  ]

-- Adding a frame whose index is below its count keeps a well-formed state so, its bound and the counts
-- of its entries included, and raises nothing.
pub add-IsReassembler :
    (r : Reassembler) (f : Frame) (now_us : ℕ)
    → IsReassembler r
    → f.frag_index < f.frag_count
    → let a = add r f now_us in IsReassembler a.state × Returns a.answer
unfolding add
add-IsReassembler r f now_us v i = elim (Bool-cases (f.frag_count == 1)) [
  | inl single ↦ rw single (v, tt)
  | inr several ↦ elim (Option-cases (lookup (key_of f) r.pending)) [
    | inl absent ↦
        let d = (make_room r.max_pending r.pending).0 in
        let (n, l, a) =
          fits_after_room (key_of f) r.max_pending r.pending v.room v.distinct v.bounded
            v.entries in
        let fits : Fits (key_of f) (record r { pending = d }) = record {
          room = v.room;
          distinct = n;
          bounded = λ p. omega (arith, l, length-insert-le (key_of f) p d);
          smaller = omega (arith, l);
          entries = a;
        } in
        rw (several, absent, add)
          (store-IsReassembler (record r { pending = d }) f now_us _ (new_entry f now_us) fits
            (sym (filled-replicate f.frag_count))
            (length-replicate {A = Option Bytes} f.frag_count none) i)
    | inr (p, there) ↦
        let e = lookup-AllValues IsEntry (key_of f) p r.pending v.entries there in
        let fits : Fits (key_of f) r = record {
          room = v.room;
          distinct = v.distinct;
          bounded =
              λ p'. omega (arith, length-insert_old (key_of f) p' p r.pending there, v.bounded);
          smaller = v.bounded;
          entries = v.entries;
        } in
        elim (Bool-cases
          (not (length p.chunks == f.frag_count) || not (p.total == f.total_length))) [
            | inl differ ↦
                rw (several, there, add, differ) (erase-IsReassembler r f now_us [] fits, tt)
            | inr agree ↦
                rw (several, there, add, agree)
                  (store-IsReassembler r f now_us [] p fits e.counted (ground arith) i)
          ]
  ]
]
