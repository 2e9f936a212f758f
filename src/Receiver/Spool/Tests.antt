-- ===== src/Receiver/Spool/Tests.antt =====
-- A small spool, and each theorem about it at an input that meets its hypotheses.
use ot_security.Common.{
  ℕ, ◌<◌, ◌^◌, ◌≤◌, ◌≡◌, refl, Option, some, List, [], ◌∷◌, ◌++◌, arith, take, replicate,
  if◌then◌else◌, ok, or_raise, ◌%◌, ℕ_discrete,
}
use ot_security.Common.Int.{pos, negsuc}
use ot_security.Common.Bytes.{Bytes, be_bytes, be_value}
use ot_security.Common.Dict.{Text, lookup, insert}
use ot_security.Receiver.Spool.{
  Spool, Entry, is_empty, is_ascii, or_empty, signed_fits, join_body, body_of, parse_body,
  open_spool, frame, valid_prefix, append_record, roll, write, open_segment, size_at, bytes_at,
  sizes_of, release,
}
use ot_security.Receiver.Spool.Body.{parse_body-body_of}
use ot_security.Receiver.Spool.Prefix.{frames, IsTorn, valid_prefix-frames}
use ot_security.Receiver.Spool.Layout.{IsSpool, content, append_record-IsSpool}
use ot_security.Receiver.Spool.Release.{IsReleased, release-IsReleased}

-- A checksum for the tests: the value of the bytes.
abbrev crc : Bytes → ℕ
crc b = be_value b % 4294967296

abbrev uuid_bytes : Text → Option Bytes
uuid_bytes t = some (be_bytes 16 7)

abbrev body : Bytes
body = join_body 1 (75 ∷ []) (115 ∷ []) (be_bytes 16 7) (pos 5) (negsuc 0) (1 ∷ 2 ∷ [])

body_packed :
    body_of uuid_bytes 1
      (75 ∷ [])
      (some (115 ∷ []))
      (some (98 ∷ []))
      (pos 5)
      (negsuc 0)
      (1 ∷ 2 ∷ [])
    ≡ ok body
unfolding body_of is_empty is_ascii or_empty signed_fits or_raise
body_packed = refl

abbrev parsed : Entry
parsed = record {
  topic = 1;
  key = 75 ∷ [];
  sensor_id = some (115 ∷ []);
  boot_id = some (98 ∷ []);
  sequence = pos 5;
  ts_ms = negsuc 0;
  value = 1 ∷ 2 ∷ [];
  start = (0, 0);
  end = (0, 60);
}

parse_body-body_of_example : parse_body (λ b. 98 ∷ []) body (0, 0) (0, 60) ≡ parsed
unfolding is_empty be_bytes
parse_body-body_of_example =
    parse_body-body_of uuid_bytes 1 (75 ∷ []) (115 ∷ []) (98 ∷ []) (be_bytes 16 7) (pos 5)
      (negsuc 0) (1 ∷ 2 ∷ []) body (λ b. 98 ∷ []) (0, 0) (0, 60) refl refl refl refl refl
      body_packed

abbrev two : List Bytes
two = (1 ∷ 2 ∷ []) ∷ (3 ∷ []) ∷ []

abbrev torn : Bytes
torn = take 5 (frame crc (4 ∷ []))

crc_small : (b : Bytes) → crc b < 2 ^ 32
crc_small b = omega arith

torn-IsTorn : IsTorn crc torn
unfolding frame be_bytes be_value
torn-IsTorn = (4 ∷ [], 5, (omega arith, omega arith), omega arith, refl)

valid_prefix-frames_example :
    take (valid_prefix crc (frames crc two ++ torn)) (frames crc two ++ torn) ≡ frames crc two
valid_prefix-frames_example =
    valid_prefix-frames crc crc_small two torn
      ((omega arith, omega arith), ((omega arith, omega arith), tt)) torn-IsTorn

-- A spool whose segments hold 20 bytes, with one record of 15 bytes.
abbrev empty : Spool
empty = open_spool crc 1000 20 []

abbrev rec : Bytes
rec = replicate 15 7

empty-IsSpool : IsSpool empty
unfolding open_spool sizes_of content
empty-IsSpool = record {
  olds = [];
  last = [];
  layout = refl;
  older = tt;
  ascending = tt;
  sizes = refl;
  total = refl;
}

abbrev one : Spool
one = (append_record empty rec).1

append_record-IsSpool_example :
    IsSpool one
    × (one.total ≤ one.max_bytes)
    × (content one.files
        ≡ (if (append_record empty rec).0 then content empty.files ++ rec else content empty.files))
unfolding open_spool
append_record-IsSpool_example = append_record-IsSpool empty empty-IsSpool rec (omega arith)

-- The next record goes to a new segment.
rolled : (append_record one rec).1.active ≡ 1
unfolding append_record roll write open_segment size_at bytes_at open_spool lookup insert ℕ_discrete
rolled = refl

abbrev both : Spool
both = (append_record one rec).1

both-IsSpool : IsSpool both
unfolding open_spool
both-IsSpool =
    let (v, bound, _) = append_record-IsSpool empty empty-IsSpool rec (omega arith) in
    (append_record-IsSpool one v rec bound).0

release-IsReleased_example : IsReleased 1 both (release both (1, 0))
release-IsReleased_example = release-IsReleased both (1, 0) both-IsSpool
