-- ===== src/Receiver/Core/State.antt =====
-- The state of ingest/receiver/sih_receiver/core.py, its counters and its codes.
use Prim.Native.String.{String}
use ot_security.Common.{
  ℕ, ◌+◌, Bool, true, false, Option, none, some, [], ◌∷◌, if◌then◌else◌, ite, take, Outcome, ok,
  err,
}
use ot_security.Link.Reassembly.{Complete}
use ot_security.Receiver.Dedup.{mark}
use ot_security.Common.Dict.{lookup}
use ot_security.Common.{leb, ◌++◌}
use ot_security.Common.Int.{ℤ}
use ot_security.Common.Dict.{Dict, Text, text_eq, text_dec}
use ot_security.Common.Strings.{string_eq, string_dec}
use ot_security.Contracts.{
  Problem, RecordError, unencodable_text, unsupported_schema_version, schema,
}
use ot_security.Link.Frame
use ot_security.Link.Frame.{Frame, frame_malformed, frame_hmac_invalid, decode, type_health}
use ot_security.Link.Reassembly.{Reassembler, Reason, fragment_overflow, fragment_timeout}
use ot_security.Receiver.Dedup.{DedupWindow}
use ot_security.Receiver.Spool
use ot_security.Receiver.Spool.{
  Spool, Position, topic_raw, topic_invalid, topic_health, append, sync, is_empty,
}

-- What ends a call: an exception of `Spool.append`, of `Reassembler.add`, or of the handling of a record. The state
-- it leaves behind is not modelled.
pub data Failure : Type 0 where
  spool_error : ot_security.Receiver.Spool.Error → Failure
  index_error type_error : Failure
  record_error : RecordError → Failure

-- `_sensors`, and the gauges of a sensor that `_health` sets
pub record Sensor (R : Type 0) : Type 0 where
  pub boot : Text
  pub at : R
  pub last_sent : ℤ
  pub backlog : ℕ
  pub invalid_local : ℕ
  pub oversize : ℕ

pub record Metrics : Type 0 where
  pub datagrams : ℕ
  pub frames_rejected : Dict String ℕ
  pub records : Dict String ℕ
  pub accepted : Dict String ℕ
  pub invalid : Dict String ℕ
  pub dropped : Dict String ℕ
  pub quarantine_suppressed : ℕ

pub record Core (R : Type 0) : Type 0 where
  pub reassembler : Reassembler
  pub dedup : DedupWindow
  pub spool : Spool
  pub metrics : Metrics
  pub health_seen : Dict Text ℕ
  pub sensors : Dict Text (Sensor R)
  pub q_tokens : R
  pub q_refill : R
  pub last_snapshot : R
  -- how often the clock has been read, and the dedup.json that was written last
  pub readings : ℕ
  pub saved : Option (DedupWindow × Position)

-- `.labels(label).inc()`
unfoldable pub bump : String → Dict String ℕ → Dict String ℕ
bump label [] = (label, 1) ∷ []
bump label ((k, n) ∷ d) = ite (string_dec label k) ((k, n + 1) ∷ d) ((k, n) ∷ bump label d)

-- The `reason` of a FrameError
unfoldable pub frame_reason : ot_security.Link.Frame.Error → String
frame_reason frame_hmac_invalid = "frame_hmac_invalid"
frame_reason _ = "frame_malformed"

unfoldable pub expired_reason : Reason → String
expired_reason fragment_overflow = "fragment_overflow"
expired_reason Reason.frame_malformed = "frame_malformed"
expired_reason fragment_timeout = "fragment_timeout"

-- `_CODE_TO_REASON.get(code, other)`
unfoldable pub code_reason : String → Problem → String
code_reason other schema = "schema_violation"
code_reason other unsupported_schema_version = "unsupported_schema_version"
code_reason other _ = other

-- `==` of texts
unfoldable pub text_same : Text → Text → Bool
text_same a b = ite (text_dec a b) true false

-- `t[:63] if t else None`
unfoldable pub cut_id : Option Text → Option Text
cut_id none = none
cut_id (some t) = if is_empty t then none else some (take 63 t)

unfoldable pub raised :
    {A : Type 0} → Outcome ot_security.Receiver.Spool.Error A → Outcome Failure A
raised (err e) = err (spool_error e)
raised (ok a) = ok a

unfoldable pub escaped : {A : Type 0} → Outcome RecordError A → Outcome Failure A
escaped (err e) = err (record_error e)
escaped (ok a) = ok a

-- An encoding, `none` for UnicodeEncodeError
unfoldable pub encoded : {A : Type 0} → Option A → Outcome RecordError A
encoded none = err unencodable_text
encoded (some a) = ok a

module _ {R : Type 0} where
  -- `self.dedup.mark(c.sensor_id, c.boot_id, c.sequence)`
  unfoldable pub marked : Complete → Core R → Core R
  marked c r = record r { dedup = (mark r.dedup c.sensor_id c.boot_id c.sequence).1 }

  -- `c.sequence <= self._health_seen.get(key, -1)`
  unfoldable pub health_known : Complete → Core R → Bool
  health_known c r = elim (lookup (c.sensor_id ++ (124 ∷ c.boot_id)) r.health_seen) [
    | none ↦ false
    | some seen ↦ leb c.sequence seen
  ]

  unfoldable pub count_record : String → Core R → Core R
  unfolding bump
  count_record kind r = record r {
    metrics = record r.metrics { records = bump kind r.metrics.records };
  }

  unfoldable pub count_accepted : String → Core R → Core R
  unfolding bump
  count_accepted topic r = record r {
    metrics = record r.metrics { accepted = bump topic r.metrics.accepted };
  }

  unfoldable pub count_dropped : Core R → Core R
  unfolding bump
  count_dropped r = record r {
    metrics = record r.metrics { dropped = bump "spool_full" r.metrics.dropped };
  }
