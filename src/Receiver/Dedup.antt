-- ===== src/Receiver/Dedup.antt =====
-- ingest/receiver/sih_receiver/dedup.py: the sliding sequence window of each (sensor, boot) stream.
mod Bitmap
pub mod Count
pub mod Tracks
pub mod Accept
pub mod Mark
pub mod History
pub mod Window
pub mod Sound
pub mod Copies
pub mod Snapshot
mod Tests
use ot_security.Common.{
  ℕ, zero, suc, ◌+◌, ◌-◌, ◌/◌, ◌%◌, ◌^◌, Bool, true, false, not, ◌&&◌, ◌||◌, Option, none, some,
  List, [], ◌∷◌, ◌++◌, ltb, ◌==◌, if◌then◌else◌, length, get_or, set, replicate,
}
use ot_security.Common.Int.{ℤ, pos, negsuc, sub_ℕ, ◌+ℤ◌, ◌-ℤ◌, ltb_ℤ, leb_ℤ}
use ot_security.Common.Bytes.{Bytes}
use ot_security.Common.Dict.{Dict, Text, text_eq, lookup, insert, move_to_end}
use Prim.Native.Nat.{bit_and, bit_or}

abbrev pub window : ℕ
window = 65536

abbrev pub max_streams : ℕ
max_streams = 64

pub data Class : Type 0 where
  new reordered duplicate stale : Class

pub record Stream : Type 0 where
  pub base : ℤ
  pub highest : ℤ
  pub missing : ℤ
  pub bits : Bytes

-- `bytearray(WINDOW // 8)`
unfoldable pub zero_bits : Bytes
zero_bits = replicate 8192 0

pub fresh : Stream
fresh = record { base = negsuc 0; highest = negsuc 0; missing = pos 0; bits = zero_bits }

-- `seq & (WINDOW - 1)`, the residue modulo the power of two also of a negative number
unfoldable pub slot : ℤ → ℕ
slot (pos n) = n % window
slot (negsuc n) = window - 1 - n % window

-- `b & (1 << k)`, `b | 1 << k` and `b & ~(1 << k) & 0xFF` on one byte
bit_test : ℕ → ℕ → Bool
bit_test b k = not (bit_and b (2 ^ k) == 0)

bit_set : ℕ → ℕ → ℕ
bit_set b k = bit_or b (2 ^ k)

bit_clear : ℕ → ℕ → ℕ
bit_clear b k = bit_and b (255 - 2 ^ k)

-- `_Stream.get`
unfoldable pub get : Bytes → ℤ → Bool
unfolding slot bit_test
get bits seq = let i = slot seq in bit_test (get_or bits (i / 8) 0) (i % 8)

-- `_Stream.set`
unfoldable pub put : Bytes → ℤ → Bool → Bytes
unfolding slot bit_set bit_clear
put bits seq value =
    let i = slot seq in
    let b = get_or bits (i / 8) 0 in
    set bits (i / 8) (if value then bit_set b (i % 8) else bit_clear b (i % 8))

-- `DedupWindow.check`, on the stream that `_streams.get` finds
unfoldable pub classify : Stream → ℕ → Class
classify s seq =
    if ltb_ℤ s.highest (pos 0) || ltb_ℤ s.highest (pos seq)
    then new
    else if leb_ℤ (pos seq) (s.highest -ℤ pos window) || ltb_ℤ (pos seq) s.base
    then stale
    else if get s.bits (pos seq)
    then duplicate
    else reordered

pub record Totals : Type 0 where
  pub gaps : ℤ
  pub duplicates : ℕ
  pub reorders : ℕ
  pub stales : ℕ

-- What the loop over `range(s.highest + 1, seq + 1)` changes.
pub record Sweep : Type 0 where
  pub gaps : ℤ
  pub missing : ℤ
  pub bits : Bytes

-- One round of the loop, for the sequence q.
unfoldable pub sweep : ℤ → ℕ → Sweep → Sweep
sweep base q w =
    let evicted = sub_ℕ q window in
    let lost = leb_ℤ base evicted && not (get w.bits evicted) in
    record {
      gaps = if lost then w.gaps +ℤ pos 1 else w.gaps;
      missing = if lost then w.missing -ℤ pos 1 else w.missing;
      bits = put w.bits (pos q) false;
    }

-- The n rounds from q on.
unfoldable pub sweep_range : ℤ → ℕ → ℕ → Sweep → Sweep
sweep_range base zero q w = w
sweep_range base (suc n) q w = sweep_range base n (q + 1) (sweep base q w)

pub record Marked : Type 0 where
  pub class : Class
  pub stream : Stream
  pub totals : Totals

-- The `seq > s.highest` branch of `mark`, for the highest sequence h.
unfoldable pub advance : Totals → Stream → ℕ → ℕ → Marked
advance t s h seq =
    let delta = seq - h in
    if ltb window delta
    then record {
      class = new;
      stream = record s {
        highest = pos seq;
        missing = pos (window - 1);
        bits = put (replicate (length s.bits) 0) (pos seq) true;
      };
      totals = record t { gaps = t.gaps +ℤ (s.missing +ℤ pos (delta - window)) };
    }
    else (let w =
          sweep_range s.base delta (h + 1)
            (record { gaps = t.gaps; missing = s.missing; bits = s.bits }) in
        record {
          class = new;
          stream = record s {
            highest = pos seq;
            missing = w.missing +ℤ pos (delta - 1);
            bits = put w.bits (pos seq) true;
          };
          totals = record t { gaps = w.gaps };
        })

-- The branches of `mark` for a sequence that is not above the highest, h.
unfoldable pub settle : Totals → Stream → ℕ → ℕ → Marked
settle t s h seq =
    if leb_ℤ (pos seq) (pos h -ℤ pos window) || ltb_ℤ (pos seq) s.base
    then record { class = stale; stream = s; totals = record t { stales = t.stales + 1 } }
    else if get s.bits (pos seq)
    then record {
      class = duplicate;
      stream = s;
      totals = record t { duplicates = t.duplicates + 1 };
    }
    else record {
      class = reordered;
      stream = record s { missing = s.missing -ℤ pos 1; bits = put s.bits (pos seq) true };
      totals = record t { reorders = t.reorders + 1 };
    }

-- `mark` on one stream: a negative `highest` is that of a stream that has seen nothing.
unfoldable pub mark_stream : Totals → Stream → ℕ → Marked
mark_stream t s seq = elim s.highest [
  | negsuc _ ↦ record {
    class = new;
    stream = record s { base = pos seq; highest = pos seq; bits = put s.bits (pos seq) true };
    totals = t;
  }
  | pos h ↦ if ltb h seq then advance t s h seq else settle t s h seq
]

pub record DedupWindow : Type 0 where
  pub streams : Dict Text Stream
  pub totals : Totals

unfoldable pub init : DedupWindow
init = record {
  streams = [];
  totals = record { gaps = pos 0; duplicates = 0; reorders = 0; stales = 0 };
}

-- `DedupWindow._key`; 124 is the character `|`
unfoldable pub key : Text → Text → Text
key sensor_id boot_id = sensor_id ++ (124 ∷ boot_id)

-- `while len(self._streams) > MAX_STREAMS: self._streams.popitem(last=False)`
unfoldable pub trim : Dict Text Stream → Dict Text Stream
trim [] = []
trim (x ∷ d) = elim (ltb max_streams (length (x ∷ d))) [ true ↦ trim d | false ↦ x ∷ d ]

unfoldable pub check : DedupWindow → Text → Text → ℕ → Class
check w sensor_id boot_id seq = elim (lookup (key sensor_id boot_id) w.streams) [
  | none ↦ new
  | some s ↦ classify s seq
]

-- The stream object stands at the end of the dict when `mark` changes it, so the entry that is put
-- there holds its final fields.
unfoldable pub mark : DedupWindow → Text → Text → ℕ → Class × DedupWindow
mark w sensor_id boot_id seq =
    let k = key sensor_id boot_id in
    elim (lookup k w.streams) [
      | none ↦
          let m = mark_stream w.totals fresh seq in
          (m.class, record { streams = trim (insert k m.stream w.streams); totals = m.totals })
      | some s ↦
          let m = mark_stream w.totals s seq in
          (m.class, record { streams = move_to_end k m.stream w.streams; totals = m.totals })
    ]

-- `missing_in_window`: the sum over the streams
unfoldable pub missing_in_window : Dict Text Stream → ℤ
missing_in_window [] = pos 0
missing_in_window ((_, s) ∷ d) = s.missing +ℤ missing_in_window d

unfoldable pub highest : DedupWindow → Text → Text → ℤ
highest w sensor_id boot_id = elim (lookup (key sensor_id boot_id) w.streams) [
  | none ↦ negsuc 0
  | some s ↦ s.highest
]
