-- ===== src/Receiver/Core/Quarantine.antt =====
-- `quarantine` of ingest/receiver/sih_receiver/core.py, and the append behind it.
use Prim.Native.String.{String}
use ot_security.Common.{
  ℕ, ◌+◌, Bool, ◌||◌, Option, none, some, List, [], ◌∷◌, if◌then◌else◌, length, take, Outcome, ok,
  ◌>>=◌,
}
use ot_security.Common.Int.{ℤ, pos, negsuc}
use ot_security.Common.Bytes.{Bytes}
use ot_security.Common.Dict.{Text, text_eq}
use ot_security.Common.Strings.{string_eq, same}
use ot_security.Link.Reassembly.{Expired}
use ot_security.Receiver.Spool.{topic_invalid, append}
use ot_security.Receiver.Core.Environment.{Invalid, Tools}
use ot_security.Receiver.Core.State.{
  bump, expired_reason, cut_id, raised, escaped, encoded, Failure, Core,
}

module _ {J V R : Type 0} (t : Tools J V R) where
  -- `self.spool.append(...)`
  unfoldable pub spooled :
      Core R
      → ℕ
      → Bytes
      → Option Text
      → Option Text
      → ℤ
      → ℤ
      → Bytes
      → Outcome Failure (Bool × Core R)
  spooled r topic key sensor_id boot_id seq ts_ms value = do
    (done, s) ←
        raised (append t.crc32 t.uuid_bytes r.spool topic key sensor_id boot_id seq ts_ms value)
    ok (done, record r { spool = s })

  -- The excerpt of the raw bytes
  unfoldable pub excerpt_of : String → Option Bytes → Option Text
  excerpt_of reason none = none
  excerpt_of reason (some raw) =
      if same reason "frame_hmac_invalid" || same reason "frame_malformed"
      then none
      else some (take 2048 (t.decode_replace raw))

  unfoldable pub invalid_of : String → Option Text → Option Text → Option ℕ → Option Bytes → Invalid
  unfolding excerpt_of
  invalid_of reason sensor_id boot_id seq raw =
      let sha : Option Text = elim raw [ none ↦ none | some b ↦ some (t.sha256 b) ] in
      record {
        invalid_id = t.invalid_id reason sha sensor_id boot_id seq;
        reason_code = reason;
        sensor_id = cut_id sensor_id;
        sensor_boot_id = boot_id;
        sequence = seq;
        raw_sha256 = sha;
        raw_size_bytes = elim raw [ none ↦ 0 | some b ↦ length b ];
        raw_excerpt = excerpt_of reason raw;
      }

  -- The count and the refill of `quarantine`, which come before its rate limit
  unfoldable pub refilled : String → Core R → Core R
  unfolding bump
  refilled reason r =
      let now = t.monotonic r.readings in
      record r {
        metrics = record r.metrics { invalid = bump reason r.metrics.invalid };
        readings = r.readings + 1;
        q_tokens = t.refill now r.q_refill r.q_tokens;
        q_refill = now;
      }

  -- The answer of the append, which `quarantine` does not read
  unfoldable pub written :
      String
      → Option Text
      → Option Text
      → Option ℕ
      → Option Bytes
      → Core R
      → Outcome Failure (Core R)
  unfolding spooled invalid_of escaped encoded
  written reason sensor_id boot_id seq raw r = do
    let rec = invalid_of reason sensor_id boot_id seq raw
    key ← escaped (encoded (t.encode_ascii rec.invalid_id))
    value ← escaped (encoded (t.dumps_invalid rec))
    (done, s) ← spooled r topic_invalid key none none (negsuc 0) (pos 0) value
    ok s

  unfoldable pub quarantine :
      String
      → Option Text
      → Option Text
      → Option ℕ
      → Option Bytes
      → Core R
      → Outcome Failure (Core R)
  unfolding refilled written
  quarantine reason sensor_id boot_id seq raw r0 =
      let r = refilled reason r0 in
      if t.below_one r.q_tokens
      then ok (record r {
        metrics = record r.metrics { quarantine_suppressed = r.metrics.quarantine_suppressed + 1 };
      })
      else written reason sensor_id boot_id seq raw (record r { q_tokens = t.less_one r.q_tokens })

  -- `for x in evicted`, and the loop of `housekeeping`
  unfoldable pub quarantine_all : List Expired → Core R → Outcome Failure (Core R)
  unfolding quarantine expired_reason
  quarantine_all [] r = ok r
  quarantine_all (x ∷ xs) r = do
    let k = x.key
    r' ←
        quarantine (expired_reason x.reason) (some k.sensor_id) (some k.boot_id) (some k.sequence)
          none r
    quarantine_all xs r'
