-- ===== src/Receiver/Spool/Release.antt =====
-- What `release` deletes.
use ot_security.Common.{
  ℕ, ◌+◌, ◌-◌, ◌≤◌, ◌<◌, ◌≡◌, ◌⊎◌, refl, ap, sym, ◌∙◌, true, false, ◌||◌, none, some, List, [], ◌∷◌,
  ◌++◌, arith, leb, le→leb, ◌==◌, length, Bool-cases, inl, inr, length-append, ℕ_discrete, if_pos,
  if_neg,
}
use ot_security.Common.Bytes.{Bytes}
use ot_security.Common.Dict.{Dict, lookup, erase, erase_absent}
use ot_security.Receiver.Spool.{
  Spool, Position, segment_eq, size_at, bytes_at, insert_sorted, sorted_keys, release_loop, release,
  sizes_of,
}
use ot_security.Receiver.Spool.Layout.{
  AllOlder, AllNewer, IsAscending, IsSpool, content, append_last-IsAscending, size_at-sizes_of,
}

keys_of : Dict ℕ Bytes → List ℕ
keys_of [] = []
keys_of ((k, _) ∷ d) = k ∷ keys_of d

-- The segments of an ordered directory are sorted to themselves.
sorted_keys-sizes_of : (d : Dict ℕ Bytes) → IsAscending d → sorted_keys (sizes_of d) ≡ keys_of d
unfolding keys_of sorted_keys sizes_of insert_sorted
sorted_keys-sizes_of [] a = refl
sorted_keys-sizes_of ((k, b) ∷ d) a =
    ap (insert_sorted k) (sorted_keys-sizes_of d a.1) ∙ first k d a.0
  where
    first : (k : ℕ) (d : Dict ℕ Bytes) → AllNewer k d → insert_sorted k (keys_of d) ≡ k ∷ keys_of d
    first k [] n = refl
    first k ((j, _) ∷ d) n = rw (le→leb k j (omega (arith, n.0)), insert_sorted) refl

lookup-newer : (k : ℕ) (d : Dict ℕ Bytes) → AllNewer k d → lookup k d ≡ none
unfolding lookup
lookup-newer k [] n = refl
lookup-newer k ((j, _) ∷ d) n =
    if_neg (ℕ_discrete k j) (λ e. absurd (omega (arith, n.0))) _ _ ∙ lookup-newer k d n.1

erase-first : (k : ℕ) (b : Bytes) (d : Dict ℕ Bytes) → AllNewer k d → erase k ((k, b) ∷ d) ≡ d
unfolding erase
erase-first k b d n = if_pos (ℕ_discrete k k) refl _ _ ∙ erase_absent k d (lookup-newer k d n)

sizes_of-erase : (k : ℕ) (d : Dict ℕ Bytes) → erase k (sizes_of d) ≡ sizes_of (erase k d)
unfolding sizes_of erase
sizes_of-erase k [] = refl
sizes_of-erase k ((j, b) ∷ d) = ground (arith, sizes_of-erase k d)

bytes-first : (k : ℕ) (b : Bytes) (d : Dict ℕ Bytes) → bytes_at ((k, b) ∷ d) k ≡ b
unfolding bytes_at lookup
bytes-first k b d = rw (if_pos (ℕ_discrete k k) refl (some b) (lookup k d), bytes_at)

-- The oldest segment that is left is one that the position is not beyond, or the active one.
abbrev pub IsNeeded : ℕ → ℕ → Dict ℕ Bytes → Type 0
IsNeeded acked active [] = ⊥
IsNeeded acked active ((k, _) ∷ d) = (acked ≤ k) ⊎ (k ≡ active)

-- What stands between the state s and the state t after the release of the segments before acked.
pub record IsReleased (acked : ℕ) (s t : Spool) : Type 0 where
  pub kept : IsSpool t
  pub gone : Dict ℕ Bytes
  pub split : s.files ≡ gone ++ t.files
  pub old : AllOlder acked gone
  pub needed : IsNeeded acked t.active t.files
  pub active : t.active ≡ s.active

abbrev without_first : Spool → ℕ → Spool
without_first s k = record s {
  total = s.total - size_at s.sizes k;
  sizes = erase k s.sizes;
  files = erase k s.files;
}

-- Without its oldest segment, which is not the active one, a spool is still well formed.
without_first-IsSpool :
    (s : Spool) (k : ℕ) (b last : Bytes) (olds : Dict ℕ Bytes)
    → s.files ≡ ((k, b) ∷ olds) ++ ((s.active, last) ∷ [])
    → AllOlder s.active ((k, b) ∷ olds)
    → IsAscending ((k, b) ∷ olds)
    → s.sizes ≡ sizes_of s.files
    → s.total ≡ length (content s.files)
    → IsSpool (without_first s k) × (erase k s.files ≡ olds ++ ((s.active, last) ∷ []))
unfolding content
without_first-IsSpool s k b last olds files older ascending sizes total =
    let rest = olds ++ ((s.active, last) ∷ []) in
    let newer : AllNewer k rest =
      (append_last-IsAscending ((k, b) ∷ olds) s.active last older ascending).0 in
    let left : erase k s.files ≡ rest = rw files (erase-first k b rest newer) in
    let size : size_at s.sizes k ≡ length b =
      rw (sizes, files)
        (size_at-sizes_of ((k, b) ∷ rest) k ∙ ap (λ t. length t) (bytes-first k b rest)) in
    let all : length (content s.files) ≡ length b + length (content rest) =
      rw files (content_first k b rest) in
    (
      record {
        olds = olds;
        last = last;
        layout = left;
        older = older.1;
        ascending = ascending.1;
        sizes = rw sizes (sizes_of-erase k s.files);
        total = rw left (omega (arith, total, all, size));
      },
      left,
    )
  where
    content_first :
        (k : ℕ) (b : Bytes) (d : Dict ℕ Bytes)
        → length (content ((k, b) ∷ d)) ≡ length b + length (content d)
    content_first k b d = length-append b (content d)

nothing-IsReleased :
    (acked : ℕ) (s : Spool) → IsSpool s → IsNeeded acked s.active s.files → IsReleased acked s s
nothing-IsReleased acked s v n = record {
  kept = v;
  gone = [];
  split = refl;
  old = tt;
  needed = n;
  active = refl;
}

release_loop-IsReleased :
    (acked : ℕ) (olds : Dict ℕ Bytes) (s : Spool) (last : Bytes)
    → s.files ≡ olds ++ ((s.active, last) ∷ [])
    → AllOlder s.active olds
    → IsAscending olds
    → s.sizes ≡ sizes_of s.files
    → s.total ≡ length (content s.files)
    → IsReleased acked s (release_loop acked (keys_of (olds ++ ((s.active, last) ∷ []))) s)
unfolding release_loop keys_of
release_loop-IsReleased acked [] s last files older ascending sizes total =
    let stop : (leb acked s.active || s.active == s.active) ≡ true = ground (arith, s.active) in
    rw (stop, release_loop)
      (nothing-IsReleased acked s
        (record {
          olds = [];
          last = last;
          layout = files;
          older = older;
          ascending = ascending;
          sizes = sizes;
          total = total;
        })
        (rw files (inr refl)))
release_loop-IsReleased acked ((k, b) ∷ olds) s last files older ascending sizes total =
    elim (Bool-cases (leb acked k || k == s.active)) [
      | inl stop ↦
          rw (stop, release_loop)
            (nothing-IsReleased acked s
              (record {
                olds = (k, b) ∷ olds;
                last = last;
                layout = files;
                older = older;
                ascending = ascending;
                sizes = sizes;
                total = total;
              })
              (rw files (inl (reached k s.active older.0 stop))))
      | inr on ↦
          let (v, left) = without_first-IsSpool s k b last olds files older ascending sizes total in
          let r =
            release_loop-IsReleased acked olds (without_first s k) last left older.1 ascending.1
              v.sizes v.total in
          rw (on, release_loop)
            (record {
              kept = r.kept;
              gone = (k, b) ∷ r.gone;
              split = files ∙ ap (◌∷◌ (k, b)) (sym left ∙ r.split);
              old = (passed k s.active on, r.old);
              needed = r.needed;
              active = r.active;
            })
    ]
  where
    reached : (k active : ℕ) → k < active → (leb acked k || k == active) ≡ true → acked ≤ k
    reached k active l h = ground arith

    passed : (k active : ℕ) → (leb acked k || k == active) ≡ false → k < acked
    passed k active h = ground arith

-- `release` deletes a first run of segments, all before that of the acknowledged position, up to one
-- that is not, or the active one, and keeps the spool well formed.
pub release-IsReleased :
    (s : Spool) (acked : Position) → IsSpool s → IsReleased acked.0 s (release s acked)
unfolding release
release-IsReleased s acked v =
    let keys : sorted_keys s.sizes ≡ keys_of (v.olds ++ ((s.active, v.last) ∷ [])) =
      rw (v.sizes, v.layout)
        (sorted_keys-sizes_of (v.olds ++ ((s.active, v.last) ∷ []))
          (append_last-IsAscending v.olds s.active v.last v.older v.ascending)) in
    rw keys
      (release_loop-IsReleased acked.0 v.olds s v.last v.layout v.older v.ascending v.sizes v.total)
