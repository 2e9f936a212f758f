-- ===== src/Receiver/Spool.antt =====
-- ingest/receiver/sih_receiver/spool.py: the durable queue of accepted records. zlib and the uuid
-- module are parameters; the directory is a dict from the number of a segment to its bytes.
pub mod Body
pub mod Prefix
pub mod Layout
pub mod Release
mod Tests
use ot_security.Common.{
  ℕ, zero, suc, ◌+◌, ◌-◌, ◌^◌, Bool, true, false, not, ◌&&◌, ◌||◌, Option, none, some, List, [],
  ◌∷◌, ◌++◌, ltb, leb, ◌==◌, if◌then◌else◌, length, get_or, take, drop, replicate, ℕ_discrete,
  Outcome, ok, err, ◌>>=◌, ◌>>◌, ensure, or_raise,
}
use ot_security.Common.Int.{ℤ, pos, negsuc}
use ot_security.Common.Bytes.{Bytes, be_bytes, be_value}
use ot_security.Common.Dict.{Dict, Text, Eq, lookup, insert, erase}

abbrev pub topic_raw : ℕ
topic_raw = 1

abbrev pub topic_invalid : ℕ
topic_invalid = 2

abbrev pub topic_health : ℕ
topic_health = 3

-- (segment_id, offset)
abbrev pub Position : Type 0
Position = ℕ × ℕ

pub record Entry : Type 0 where
  pub topic : ℕ
  pub key : Bytes
  pub sensor_id : Option Text
  pub boot_id : Option Text
  pub sequence : ℤ
  pub ts_ms : ℤ
  pub value : Bytes
  pub start : Position
  pub end : Position

-- The exceptions of an append: an identifier that is not ASCII, a field that does not fit its bytes
-- (`struct.error`), and a ValueError of `bytes` or of the uuid module.
pub data Error : Type 0 where
  unicode_error struct_error value_error : Error

instance abbrev pub segment_eq : Eq ℕ
segment_eq = record { dec = ℕ_discrete }

-- The format `q`: a signed number in eight bytes, as its two's complement.
unfoldable pub signed_bytes : ℤ → Bytes
signed_bytes (pos n) = be_bytes 8 n
signed_bytes (negsuc n) = be_bytes 8 (2 ^ 64 - 1 - n)

unfoldable pub signed_value : Bytes → ℤ
signed_value b = let v = be_value b in if ltb v (2 ^ 63) then pos v else negsuc (2 ^ 64 - 1 - v)

unfoldable pub signed_fits : ℤ → Bool
signed_fits (pos n) = ltb n (2 ^ 63)
signed_fits (negsuc n) = ltb n (2 ^ 63)

unfoldable pub or_empty : Option Text → Text
or_empty none = []
or_empty (some t) = t

unfoldable pub is_empty : Text → Bool
is_empty [] = true
is_empty (_ ∷ _) = false

unfoldable pub is_ascii : Text → Bool
is_ascii [] = true
is_ascii (c ∷ t) = ltb c 128 && is_ascii t

-- `b"".join(...)` of `append`
unfoldable pub join_body : ℕ → Bytes → Text → Bytes → ℤ → ℤ → Bytes → Bytes
join_body topic key sid boot seq ts_ms value =
    (topic ∷ be_bytes 2 (length key))
    ++ (key
        ++ ((length sid ∷ [])
            ++ (sid
                ++ (boot
                    ++ (signed_bytes seq
                        ++ (signed_bytes ts_ms ++ (be_bytes 4 (length value) ++ value)))))))

module _ (uuid_bytes : Text → Option Bytes) where
  -- The body of a record: the packing of its fields, or the exception of the first that does not fit.
  unfoldable pub body_of :
      ℕ → Bytes → Option Text → Option Text → ℤ → ℤ → Bytes → Outcome Error Bytes
  body_of topic key sensor_id boot_id seq ts_ms value = do
    let sid = or_empty sensor_id
    ensure (is_ascii sid) unicode_error
    boot ←
        if is_empty (or_empty boot_id)
        then ok (replicate 16 0)
        else or_raise (uuid_bytes (or_empty boot_id)) value_error
    ensure (ltb topic 256 && ltb (length key) (2 ^ 16)) struct_error
    ensure (ltb (length sid) 256) value_error
    ensure (signed_fits seq && signed_fits ts_ms && ltb (length value) (2 ^ 32)) struct_error
    ok (join_body topic key sid boot seq ts_ms value)

-- `_parse_body`, for a body that `append` wrote: at the end of a shorter one the source raises, where
-- `take` and `get_or` give what is there.
unfoldable pub parse_body : (Bytes → Text) → Bytes → Position → Position → Entry
parse_body uuid_text body start end =
    let topic = get_or body 0 0 in
    let klen = be_value (take 2 (drop 1 body)) in
    let key = take klen (drop 3 body) in
    let at_sid = drop klen (drop 3 body) in
    let slen = get_or at_sid 0 0 in
    let sid = take slen (drop 1 at_sid) in
    let at_boot = drop slen (drop 1 at_sid) in
    let at_tail = drop 16 at_boot in
    let vlen = be_value (take 4 (drop 16 at_tail)) in
    record {
      topic = topic;
      key = key;
      sensor_id = if is_empty sid then none else some sid;
      boot_id = if is_empty sid then none else some (uuid_text (take 16 at_boot));
      sequence = signed_value (take 8 at_tail);
      ts_ms = signed_value (take 8 (drop 8 at_tail));
      value = take vlen (drop 20 at_tail);
      start = start;
      end = end;
    }

-- `_U32.pack(len(body)) + body + _U32.pack(zlib.crc32(body))`
unfoldable pub frame : (Bytes → ℕ) → Bytes → Bytes
frame crc32 body = be_bytes 4 (length body) ++ (body ++ be_bytes 4 (crc32 body))

pub record Spool : Type 0 where
  pub max_bytes : ℕ
  pub segment_bytes : ℕ
  pub sizes : Dict ℕ ℕ
  pub files : Dict ℕ Bytes
  pub active : ℕ
  pub total : ℕ
  pub dirty : Bool
  pub synced : Position

-- `self._sizes[seg]`, and the bytes of a file; a segment that is not there has none.
unfoldable pub size_at : Dict ℕ ℕ → ℕ → ℕ
size_at sizes seg = elim (lookup seg sizes) [ none ↦ 0 | some n ↦ n ]

unfoldable pub bytes_at : Dict ℕ Bytes → ℕ → Bytes
bytes_at files seg = elim (lookup seg files) [ none ↦ [] | some b ↦ b ]

-- `_open_segment`: `open(..., "ab")` creates the file, and `setdefault` its size.
unfoldable pub open_segment : Spool → ℕ → Spool
open_segment s seg = record s {
  active = seg;
  files = insert seg (bytes_at s.files seg) s.files;
  sizes = insert seg (size_at s.sizes seg) s.sizes;
}

-- The choice of the segment in `append`
unfoldable pub roll : Spool → ℕ → Spool
roll s len =
    if ltb 0 (size_at s.sizes s.active) && ltb s.segment_bytes (size_at s.sizes s.active + len)
    then open_segment s (s.active + 1)
    else s

unfoldable pub write : Spool → Bytes → Spool
write s rec = record s {
  files = insert s.active (bytes_at s.files s.active ++ rec) s.files;
  sizes = insert s.active (size_at s.sizes s.active + length rec) s.sizes;
  total = s.total + length rec;
  dirty = true;
}

-- `append` under its lock, for the bytes of the record
unfoldable pub append_record : Spool → Bytes → Bool × Spool
append_record s rec =
    if ltb s.max_bytes (s.total + length rec)
    then (false, s)
    else (true, write (roll s (length rec)) rec)

module _ (crc32 : Bytes → ℕ) (uuid_bytes : Text → Option Bytes) where
  unfoldable pub append :
      Spool → ℕ → Bytes → Option Text → Option Text → ℤ → ℤ → Bytes → Outcome Error (Bool × Spool)
  append s topic key sensor_id boot_id seq ts_ms value = do
    body ← body_of uuid_bytes topic key sensor_id boot_id seq ts_ms value
    ensure (ltb (length body) (2 ^ 32)) struct_error
    ok (append_record s (frame crc32 body))

pub end_of : Spool → Position
end_of s = (s.active, size_at s.sizes s.active)

unfoldable pub sync : Spool → Position × Spool
unfolding end_of
sync s = (end_of s, record s { dirty = false; synced = end_of s })

-- `sorted(self._sizes)`
unfoldable pub insert_sorted : ℕ → List ℕ → List ℕ
insert_sorted x [] = x ∷ []
insert_sorted x (y ∷ ys) = elim (leb x y) [ true ↦ x ∷ y ∷ ys | false ↦ y ∷ insert_sorted x ys ]

unfoldable pub sorted_keys : Dict ℕ ℕ → List ℕ
sorted_keys [] = []
sorted_keys ((seg, _) ∷ d) = insert_sorted seg (sorted_keys d)

-- The loop of `release` (`total` is the sum of the sizes, so the subtraction does not stop at 0), for the segment of the acknowledged position
unfoldable pub release_loop : ℕ → List ℕ → Spool → Spool
release_loop acked [] s = s
release_loop acked (seg ∷ segs) s = elim (leb acked seg || seg == s.active) [
  | true ↦ s
  | false ↦ release_loop acked segs (record s {
    total = s.total - size_at s.sizes seg;
    sizes = erase seg s.sizes;
    files = erase seg s.files;
  })
]

unfoldable pub release : Spool → Position → Spool
release s acked = release_loop acked.0 (sorted_keys s.sizes) s

-- `_valid_prefix` from the offset at on: at most n rounds of its loop.
unfoldable pub valid_from : (Bytes → ℕ) → ℕ → Bytes → ℕ → ℕ
valid_from crc32 zero bytes at = at
valid_from crc32 (suc n) bytes at =
    let blen = be_value (take 4 (drop at bytes)) in
    let body = take blen (drop (at + 4) bytes) in
    let crc = be_value (take 4 (drop (at + 4 + blen) bytes)) in
    elim (leb (at + 8) (length bytes)
      && ltb 0 blen
      && leb (at + 8 + blen) (length bytes)
      && crc32 body == crc) [ true ↦ valid_from crc32 n bytes (at + 8 + blen) | false ↦ at ]

-- A round advances by more than one byte, so the number of bytes is fuel enough.
unfoldable pub valid_prefix : (Bytes → ℕ) → Bytes → ℕ
valid_prefix crc32 bytes = valid_from crc32 (length bytes) bytes 0

-- `max(self._sizes)`, and the sum of the sizes
unfoldable pub newest : Dict ℕ ℕ → ℕ
newest [] = 0
newest ((seg, _) ∷ d) = let m = newest d in if ltb m seg then seg else m

unfoldable pub sum_sizes : Dict ℕ ℕ → ℕ
sum_sizes [] = 0
sum_sizes ((_, n) ∷ d) = n + sum_sizes d

-- The sizes that `stat` gives
unfoldable pub sizes_of : Dict ℕ Bytes → Dict ℕ ℕ
sizes_of [] = []
sizes_of ((seg, b) ∷ d) = (seg, length b) ∷ sizes_of d

-- `__init__`, on the segments that the directory holds
unfoldable pub open_spool : (Bytes → ℕ) → ℕ → ℕ → Dict ℕ Bytes → Spool
open_spool crc32 max_bytes segment_bytes [] = record {
  max_bytes = max_bytes;
  segment_bytes = segment_bytes;
  sizes = (0, 0) ∷ [];
  files = (0, []) ∷ [];
  active = 0;
  total = 0;
  dirty = false;
  synced = (0, 0);
}
open_spool crc32 max_bytes segment_bytes (f ∷ fs) =
    let found = sizes_of (f ∷ fs) in
    let active = newest found in
    let bytes = bytes_at (f ∷ fs) active in
    let valid = valid_prefix crc32 bytes in
    let sizes = insert active valid found in
    record {
      max_bytes = max_bytes;
      segment_bytes = segment_bytes;
      sizes = sizes;
      files = insert active (take valid bytes) (f ∷ fs);
      active = active;
      total = sum_sizes sizes;
      dirty = false;
      synced = (active, valid);
    }
