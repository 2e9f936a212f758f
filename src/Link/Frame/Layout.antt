-- ===== src/Link/Frame/Layout.antt =====
-- Reading a frame's body back, field by field.
use ot_security.Common.{
  ℕ, ◌+◌, ◌-◌, ◌*◌, ◌^◌, ◌<◌, min, ◌≡◌, refl, ap, sym, ◌∙◌, true, false, ◌++◌, arith, ltb,
  if◌then◌else◌, length, take, drop, length-append, length-take, length-drop, ltb→lt, ltb_false→le,
  Bool-cases, inl, inr, take-append, drop-append, drop-append_past, if_pos,
}
use ot_security.Common.Bytes.{Bytes, be_bytes, be_value, length-be_bytes, be_value-be_bytes}
use ot_security.Common.Dict.{text_dec}
use ot_security.Link.Frame.{bytes_eq, chunk_of, chunk_count, max_chunk_bytes}

pub bytes_eq_refl : (a : Bytes) → bytes_eq a a ≡ true
bytes_eq_refl a = if_pos (text_dec a a) refl true false

-- The part of a body after the sensor id.
module _ (boot : Bytes) (sequence total len : ℕ) (chunk : Bytes) where
  abbrev pub mid_of : Bytes
  mid_of = boot ++ (be_bytes 8 sequence ++ (be_bytes 4 total ++ (be_bytes 2 len ++ chunk)))

  module _ (boot_size : length boot ≡ 16) where
    pub mid_boot : take 16 mid_of ≡ boot
    mid_boot = take-append 16 boot _ (sym boot_size)

    after_boot :
        drop 16 mid_of ≡ be_bytes 8 sequence ++ (be_bytes 4 total ++ (be_bytes 2 len ++ chunk))
    after_boot = drop-append 16 boot _ (sym boot_size)

    after_sequence : drop 24 mid_of ≡ be_bytes 4 total ++ (be_bytes 2 len ++ chunk)
    after_sequence =
        drop-append_past 24 8 boot _ (omega (arith, boot_size))
        ∙ drop-append 8 (be_bytes 8 sequence) _ (sym (length-be_bytes 8 sequence))

    after_total : drop 28 mid_of ≡ be_bytes 2 len ++ chunk
    after_total =
        drop-append_past 28 12 boot _ (omega (arith, boot_size))
        ∙ drop-append_past 12 4 (be_bytes 8 sequence) _ (omega (arith, length-be_bytes 8 sequence))
        ∙ drop-append 4 (be_bytes 4 total) _ (sym (length-be_bytes 4 total))

    pub mid_chunk : drop 30 mid_of ≡ chunk
    mid_chunk =
        drop-append_past 30 14 boot _ (omega (arith, boot_size))
        ∙ drop-append_past 14 6 (be_bytes 8 sequence) _ (omega (arith, length-be_bytes 8 sequence))
        ∙ drop-append_past 6 2 (be_bytes 4 total) _ (omega (arith, length-be_bytes 4 total))
        ∙ drop-append 2 (be_bytes 2 len) chunk (sym (length-be_bytes 2 len))

    pub mid_sequence : sequence < 2 ^ 64 → be_value (take 8 (drop 16 mid_of)) ≡ sequence
    mid_sequence h =
        ap be_value (
          ap (take 8) after_boot
          ∙ take-append 8 (be_bytes 8 sequence) _ (sym (length-be_bytes 8 sequence)))
        ∙ be_value-be_bytes 8 sequence h

    pub mid_total : total < 2 ^ 32 → be_value (take 4 (drop 24 mid_of)) ≡ total
    mid_total h =
        ap be_value (
          ap (take 4) after_sequence
          ∙ take-append 4 (be_bytes 4 total) _ (sym (length-be_bytes 4 total)))
        ∙ be_value-be_bytes 4 total h

    pub mid_len : len < 2 ^ 16 → be_value (take 2 (drop 28 mid_of)) ≡ len
    mid_len h =
        ap be_value
          (ap (take 2) after_total ∙ take-append 2 (be_bytes 2 len) _ (sym (length-be_bytes 2 len)))
        ∙ be_value-be_bytes 2 len h

    pub length-mid : length mid_of ≡ 30 + length chunk
    length-mid = omega (
      arith,
      length-append boot (be_bytes 8 sequence ++ (be_bytes 4 total ++ (be_bytes 2 len ++ chunk))),
      length-append (be_bytes 8 sequence) (be_bytes 4 total ++ (be_bytes 2 len ++ chunk)),
      length-append (be_bytes 4 total) (be_bytes 2 len ++ chunk),
      length-append (be_bytes 2 len) chunk,
      length-be_bytes 8 sequence,
      length-be_bytes 4 total,
      length-be_bytes 2 len,
      boot_size,
    )

-- The length of chunk i of a record of n bytes: all are full but the last.
abbrev pub chunk_length : ℕ → ℕ → ℕ
chunk_length n i =
    if ltb i (chunk_count n - 1) then max_chunk_bytes else n - (chunk_count n - 1) * max_chunk_bytes

min_chunk : (n i : ℕ) → i < chunk_count n → min 1200 (n - i * 1200) ≡ chunk_length n i
unfolding chunk_count
min_chunk n i h = elim (Bool-cases (ltb i (chunk_count n - 1))) [
  | inl full ↦ let l : i < chunk_count n - 1 = ltb→lt _ _ full in rw full (omega arith)
  | inr rest ↦
      let l : i ≡ chunk_count n - 1 = omega (arith, ltb_false→le _ _ rest) in rw rest (omega arith)
]

pub length-chunk_of :
    (bytes : Bytes) (i : ℕ)
    → i < chunk_count (length bytes)
    → length (chunk_of bytes i) ≡ chunk_length (length bytes) i
length-chunk_of bytes i h =
    length-take 1200 (drop (i * 1200) bytes)
    ∙ ap (min 1200) (length-drop (i * 1200) bytes)
    ∙ min_chunk (length bytes) i h
