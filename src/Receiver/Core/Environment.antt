-- ===== src/Receiver/Core/Environment.antt =====
-- What ingest/receiver/sih_receiver/core.py reads of its records, and calls of the Python library.
use Prim.Native.String.{String}
use ot_security.Common.{ℕ, ◌/◌, Bool, Option, List, Outcome, ok, err, ◌>>=◌, or_raise}
use ot_security.Common.Int.{ℤ, pos, negsuc, ◌+ℤ◌}
use ot_security.Common.Bytes.{Bytes}
use ot_security.Common.Dict.{Dict, Text}
use ot_security.Contracts.{Problem, Version, RecordError, no_time}
use ot_security.Link.Frame.{Codec}

-- `round(float(duration_s) * 1_000_000)` of a terminal record with a duration, which raises for one that is no finite float
pub data Duration : Type 0 where
  no_duration not_finite : Duration
  micros : ℤ → Duration

-- The fields of an event, for one that meets its schema; V is the type of the values of a payload.
pub record Event (V : Type 0) : Type 0 where
  pub event_id : Text
  pub sensor_id : Text
  pub sensor_boot_id : Text
  pub sequence : ℕ
  pub replay_run_id : Option Text
  -- `parse_us` of its time, `none` where that raises ValueError
  pub event_time_us : Option ℤ
  pub replay_time_offset_us : ℤ
  pub duration_us : Duration
  pub original_record_sha256 : Text
  pub original_record : Option Text
  pub original_record_truncated : Bool
  -- `payload.get("uid")`
  pub uid : Option Text
  pub payload : Dict String V
  pub availability : Dict String String
  pub availability_reasons : Dict String String

-- The fields of a health record, for one that meets its schema.
pub record Health : Type 0 where
  pub sensor_id : Text
  pub sensor_boot_id : Text
  pub last_sequence_sent : Option ℕ
  pub spool_bytes : ℕ
  pub records_invalid_local_total : ℕ
  pub records_rejected_oversize_total : ℕ

-- The record of the quarantine; its detail, a message, is left to `dumps_invalid`.
pub record Invalid : Type 0 where
  pub invalid_id : Text
  pub reason_code : String
  pub sensor_id : Option Text
  pub sensor_boot_id : Option Text
  pub sequence : Option ℕ
  pub raw_sha256 : Option Text
  pub raw_size_bytes : ℕ
  pub raw_excerpt : Option Text

-- J is the type of JSON values, and R that of floats.
pub record Tools (J V R : Type 0) : Type 0 where
  pub codec : Codec
  -- `json.loads(b.decode("utf-8"))`: `none` is each of the exceptions that the code catches
  pub loads : Bytes → Option J
  pub is_dict : J → Bool
  -- `ev[field] = timeutil.format_us(us)`
  pub with_time : String → ℕ → J → J
  -- `_dumps`: `none` is UnicodeEncodeError
  pub dumps : J → Option Bytes
  -- the version that a record of a kind names, and the errors of its schema
  pub version : String → J → Version
  pub schema_errors : String → J → List Problem
  pub event : J → Event V
  pub health : J → Health
  pub is_null : V → Bool
  pub sha256 : Bytes → Text
  -- `t.encode("utf-8")` and `t.encode("ascii")`: `none` is UnicodeEncodeError
  pub encode : Text → Option Bytes
  pub encode_ascii : Text → Option Bytes
  -- `b.decode("utf-8", errors="replace")`
  pub decode_replace : Bytes → Text
  pub event_id : Text → Text → ℕ → Text → Text
  pub invalid_id : String → Option Text → Option Text → Option Text → Option ℕ → Text
  pub dumps_invalid : Invalid → Option Bytes
  pub crc32 : Bytes → ℕ
  pub uuid_bytes : Text → Option Bytes
  -- `min(rate, tokens + (now - last) * rate)`, `tokens < 1` and `tokens - 1`
  pub refill : R → R → R → R
  pub below_one : R → Bool
  pub less_one : R → R
  -- `now - last >= 1.0`
  pub is_due : R → R → Bool
  -- the readings of `time.monotonic()`, in order
  pub monotonic : ℕ → R

-- `//` of a number by 1000
unfoldable pub per_thousand : ℤ → ℤ
per_thousand (pos n) = pos (n / 1000)
per_thousand (negsuc n) = negsuc (n / 1000)

-- `observation_ms` of lib/sih_common/contracts.py
unfoldable pub observation_ms : {V : Type 0} → Event V → Outcome RecordError ℤ
unfolding per_thousand
observation_ms ev = or_raise ev.event_time_us no_time >>= λ time.
    let us = time +ℤ ev.replay_time_offset_us in
    elim ev.duration_us [
      | no_duration ↦ ok (per_thousand us)
      | micros d ↦ ok (per_thousand (us +ℤ d))
      | not_finite ↦ err no_time
    ]
