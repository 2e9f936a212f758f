-- ===== src/Receiver/Spool/Layout.antt =====
-- The segments of the spool: what an append adds to them, and its bound.
use ot_security.Common.{
  ℕ, ◌+◌, ◌≤◌, ◌<◌, ◌≡◌, refl, ap, sym, ◌∙◌, ◌&&◌, none, some, [], ◌∷◌, ◌++◌, arith, ltb,
  ltb_false→le, if◌then◌else◌, length, Bool-cases, inl, inr, length-append, append_assoc,
  append-nil, ℕ_discrete, if_pos, if_neg,
}
use ot_security.Common.Bytes.{Bytes}
use ot_security.Common.Dict.{Dict, lookup, insert, insert_new}
use ot_security.Receiver.Spool.{
  Spool, segment_eq, size_at, bytes_at, open_segment, roll, write, append_record, sizes_of,
}

-- Every segment is older than the given one.
abbrev pub AllOlder : ℕ → Dict ℕ Bytes → Type 0
AllOlder seg [] = Unit
AllOlder seg ((k, _) ∷ d) = (k < seg) × AllOlder seg d

abbrev pub AllNewer : ℕ → Dict ℕ Bytes → Type 0
AllNewer seg [] = Unit
AllNewer seg ((k, _) ∷ d) = (seg < k) × AllNewer seg d

abbrev pub IsAscending : Dict ℕ Bytes → Type 0
IsAscending [] = Unit
IsAscending ((k, _) ∷ d) = AllNewer k d × IsAscending d

-- The bytes of all segments, in order.
unfoldable pub content : Dict ℕ Bytes → Bytes
content [] = []
content ((_, b) ∷ d) = b ++ content d

-- The segments of the files are in order, the active one is the last, the sizes are those of the files,
-- and the total is their sum.
pub record IsSpool (s : Spool) : Type 0 where
  pub olds : Dict ℕ Bytes
  pub last : Bytes
  pub layout : s.files ≡ olds ++ ((s.active, last) ∷ [])
  pub older : AllOlder s.active olds
  pub ascending : IsAscending olds
  pub sizes : s.sizes ≡ sizes_of s.files
  pub total : s.total ≡ length (content s.files)

AllOlder-mono : (a b : ℕ) (d : Dict ℕ Bytes) → a ≤ b → AllOlder a d → AllOlder b d
AllOlder-mono a b [] l h = tt
AllOlder-mono a b ((k, _) ∷ d) l h = (omega arith, AllOlder-mono a b d l h.1)

AllOlder-append : (a : ℕ) (d e : Dict ℕ Bytes) → AllOlder a d → AllOlder a e → AllOlder a (d ++ e)
AllOlder-append a [] e h k = k
AllOlder-append a (_ ∷ d) e h k = (h.0, AllOlder-append a d e h.1 k)

AllNewer-append : (k : ℕ) (d e : Dict ℕ Bytes) → AllNewer k d → AllNewer k e → AllNewer k (d ++ e)
AllNewer-append k [] e h n = n
AllNewer-append k (_ ∷ d) e h n = (h.0, AllNewer-append k d e h.1 n)

pub append_last-IsAscending :
    (d : Dict ℕ Bytes) (seg : ℕ) (b : Bytes)
    → AllOlder seg d
    → IsAscending d
    → IsAscending (d ++ ((seg, b) ∷ []))
append_last-IsAscending [] seg b o a = (tt, tt)
append_last-IsAscending ((k, _) ∷ d) seg b o a =
    (AllNewer-append k d ((seg, b) ∷ []) a.0 (o.0, tt), append_last-IsAscending d seg b o.1 a.1)

lookup-older : (seg : ℕ) (d : Dict ℕ Bytes) → AllOlder seg d → lookup seg d ≡ none
unfolding lookup
lookup-older seg [] h = refl
lookup-older seg ((k, b) ∷ d) h =
    if_neg (ℕ_discrete seg k) (λ e. absurd (omega arith)) _ _ ∙ lookup-older seg d h.1

module _ (seg : ℕ) (b : Bytes) where
  lookup-last : (d : Dict ℕ Bytes) → AllOlder seg d → lookup seg (d ++ ((seg, b) ∷ [])) ≡ some b
  unfolding lookup
  lookup-last [] h = if_pos (ℕ_discrete seg seg) refl _ _
  lookup-last ((k, _) ∷ d) h =
      if_neg (ℕ_discrete seg k) (λ e. absurd (omega arith)) _ _ ∙ lookup-last d h.1

  insert-last :
      (v : Bytes) (d : Dict ℕ Bytes)
      → AllOlder seg d
      → insert seg v (d ++ ((seg, b) ∷ [])) ≡ d ++ ((seg, v) ∷ [])
  unfolding insert
  insert-last v [] h = if_pos (ℕ_discrete seg seg) refl _ _
  insert-last v ((k, w) ∷ d) h =
      if_neg (ℕ_discrete seg k) (λ e. absurd (omega arith)) _ _
      ∙ ap (◌∷◌ (k, w)) (insert-last v d h.1)

sizes_of-insert :
    (seg : ℕ) (v : Bytes) (d : Dict ℕ Bytes)
    → sizes_of (insert seg v d) ≡ insert seg (length v) (sizes_of d)
unfolding sizes_of insert
sizes_of-insert seg v [] = refl
sizes_of-insert seg v ((k, w) ∷ d) = ground (arith, sizes_of-insert seg v d)

pub size_at-sizes_of :
    (d : Dict ℕ Bytes) (seg : ℕ) → size_at (sizes_of d) seg ≡ length (bytes_at d seg)
unfolding size_at bytes_at sizes_of lookup
size_at-sizes_of [] seg = refl
size_at-sizes_of ((k, b) ∷ d) seg = ground (arith, size_at-sizes_of d seg)

content-append : (d e : Dict ℕ Bytes) → content (d ++ e) ≡ content d ++ content e
unfolding content
content-append [] e = refl
content-append ((_, b) ∷ d) e =
    ap (λ t. b ++ t) (content-append d e) ∙ sym (append_assoc b (content d) (content e))

content-single : (seg : ℕ) (b : Bytes) → content ((seg, b) ∷ []) ≡ b
unfolding content
content-single seg b = append-nil b

-- The content of the files, by the older ones and the last.
content-layout :
    (d : Dict ℕ Bytes) (seg : ℕ) (b : Bytes) → content (d ++ ((seg, b) ∷ [])) ≡ content d ++ b
content-layout d seg b =
    content-append d ((seg, b) ∷ []) ∙ ap (λ t. content d ++ t) (content-single seg b)

bytes_absent : (d : Dict ℕ Bytes) (seg : ℕ) → lookup seg d ≡ none → bytes_at d seg ≡ []
unfolding bytes_at
bytes_absent d seg h = rw (h, bytes_at)

module _ (s : Spool) (v : IsSpool s) where
  bytes-active : bytes_at s.files s.active ≡ v.last
  unfolding bytes_at
  bytes-active = rw (v.layout, lookup-last s.active v.last v.olds v.older, bytes_at)

  size-active : size_at s.sizes s.active ≡ length v.last
  size-active = rw v.sizes (size_at-sizes_of s.files s.active ∙ ap (λ b. length b) bytes-active)

  write-IsSpool :
      (rec : Bytes) → IsSpool (write s rec) × (content (write s rec).files ≡ content s.files ++ rec)
  unfolding write
  write-IsSpool rec =
      let files : insert s.active (bytes_at s.files s.active ++ rec) s.files
          ≡ v.olds ++ ((s.active, v.last ++ rec) ∷ []) =
        rw (bytes-active, v.layout) (insert-last s.active v.last (v.last ++ rec) v.olds v.older) in
      let same : content (insert s.active (bytes_at s.files s.active ++ rec) s.files)
          ≡ content s.files ++ rec =
        rw (files, v.layout)
          (content-layout v.olds s.active (v.last ++ rec)
            ∙ (sym (append_assoc (content v.olds) v.last rec)
                ∙ ap (λ t. t ++ rec) (sym (content-layout v.olds s.active v.last)))) in
      let len : size_at s.sizes s.active + length rec ≡ length (bytes_at s.files s.active ++ rec) =
        rw (size-active, bytes-active) (sym (length-append v.last rec)) in
      (
        record {
          olds = v.olds;
          last = v.last ++ rec;
          layout = files;
          older = v.older;
          ascending = v.ascending;
          sizes =
              rw (len, v.sizes)
                (sym (sizes_of-insert s.active (bytes_at s.files s.active ++ rec) s.files));
          total = rw same (omega (arith, v.total, length-append (content s.files) rec));
        },
        same,
      )

module _ (s : Spool) (v : IsSpool s) where
  written :
      (rec : Bytes) (r : Spool)
      → r.total ≡ s.total
      → r.max_bytes ≡ s.max_bytes
      → s.total + length rec ≤ s.max_bytes
      → (write r rec).total ≤ (write r rec).max_bytes
  unfolding write
  written rec r total limit fits = omega arith

  abbrev next : ℕ
  next = s.active + 1

  all_older : AllOlder next s.files
  all_older = rw v.layout (
      AllOlder-append next v.olds ((s.active, v.last) ∷ [])
        (AllOlder-mono s.active next v.olds (omega arith) v.older) (omega arith, tt))

  open_segment-IsSpool :
      let t = open_segment s (s.active + 1) in IsSpool t × (content t.files ≡ content s.files)
  unfolding open_segment
  open_segment-IsSpool =
      let absent : lookup next s.files ≡ none = lookup-older next s.files all_older in
      let empty : bytes_at s.files next ≡ [] = bytes_absent s.files next absent in
      let no_size : size_at s.sizes next ≡ 0 =
        rw v.sizes (size_at-sizes_of s.files next ∙ ap (λ b. length b) empty) in
      let files : insert next (bytes_at s.files next) s.files ≡ s.files ++ ((next, []) ∷ []) =
        rw empty (insert_new next [] s.files absent) in
      let same : content (insert next (bytes_at s.files next) s.files) ≡ content s.files =
        rw files (content-layout s.files next [] ∙ append-nil (content s.files)) in
      (
        record {
          olds = s.files;
          last = [];
          layout = files;
          older = all_older;
          ascending =
              rw v.layout (append_last-IsAscending v.olds s.active v.last v.older v.ascending);
          sizes = rw (no_size, v.sizes, empty) (sym (sizes_of-insert next [] s.files));
          total = rw same v.total;
        },
        same,
      )

  roll-IsSpool :
      (len : ℕ)
      → IsSpool (roll s len)
        × (content (roll s len).files ≡ content s.files)
        × ((roll s len).total ≡ s.total)
        × ((roll s len).max_bytes ≡ s.max_bytes)
  unfolding roll open_segment
  roll-IsSpool len =
      elim (Bool-cases (
        ltb 0 (size_at s.sizes s.active) && ltb s.segment_bytes (size_at s.sizes s.active + len))) [
          | inl full ↦ rw full (open_segment-IsSpool.0, open_segment-IsSpool.1, refl, refl)
          | inr free ↦ rw free (v, refl, refl, refl)
        ]

  appended :
      (rec : Bytes)
      → s.total + length rec ≤ s.max_bytes
      → let t = write (roll s (length rec)) rec in
        IsSpool t × (t.total ≤ t.max_bytes) × (content t.files ≡ content s.files ++ rec)
  appended rec fits =
      let (w, same, total, limit) = roll-IsSpool (length rec) in
      let (u, more) = write-IsSpool (roll s (length rec)) w rec in
      (u, written rec (roll s (length rec)) total limit fits, rw same at more)

  -- An append to a well-formed spool within its limit leaves it so: where it answers true, the bytes of
  -- the record stand behind all that was there, in whichever segment, and where it answers false,
  -- nothing has been written.
  pub append_record-IsSpool :
      (rec : Bytes)
      → s.total ≤ s.max_bytes
      → let (done, t) = append_record s rec in
        IsSpool t
        × (t.total ≤ t.max_bytes)
        × (content t.files ≡ (if done then content s.files ++ rec else content s.files))
  unfolding append_record
  append_record-IsSpool rec h = elim (Bool-cases (ltb s.max_bytes (s.total + length rec))) [
    | inl full ↦ rw full (v, h, refl)
    | inr fits ↦ rw fits (appended rec (ltb_false→le _ _ fits))
  ]
