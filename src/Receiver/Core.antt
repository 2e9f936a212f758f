-- ===== src/Receiver/Core.antt =====
-- ingest/receiver/sih_receiver/core.py: the way of a datagram to the spool or the quarantine. Counters
-- are dicts from their label; gauges that copy a number of the state are left out.
pub mod Environment
pub mod State
pub mod Quarantine
pub mod Events
pub mod Gives
pub mod Invariant
pub mod Accounts
pub mod Durable
mod Tests
use Prim.Native.String.{String}
use ot_security.Common.{
  ℕ, ◌+◌, Bool, true, false, not, ◌&&◌, ◌||◌, Option, none, some, List, [], ◌∷◌, ◌++◌, ltb, leb,
  ◌==◌, if◌then◌else◌, ite, length, take, Outcome, ok, err, ◌>>=◌, ◌>>◌,
}
use ot_security.Common.Int.{ℤ, pos, negsuc}
use ot_security.Common.Bytes.{Bytes}
use ot_security.Common.Dict.{Dict, Text, Eq, text_eq, text_dec, lookup, insert}
use ot_security.Common.Strings.{string_eq, string_dec, same}
use ot_security.Contracts.{Problem, unsupported_schema_version, schema, validate, event_rules}
use ot_security.Link.Frame.{Frame, frame_malformed, frame_hmac_invalid, decode, type_health}
use ot_security.Link.Reassembly.{
  Reassembler, Complete, Expired, Reason, fragment_overflow, fragment_timeout, Answer, waiting,
  complete, add, expire,
}
use ot_security.Receiver.Dedup.{DedupWindow, Class, new, reordered, duplicate, stale, check, mark}
use ot_security.Receiver.Spool.{
  Spool, Position, topic_raw, topic_invalid, topic_health, append, sync, is_empty,
}
use ot_security.Receiver.Core.Environment.{Event, Health, Invalid, Tools, observation_ms}
use ot_security.Receiver.Core.State.{
  marked, count_accepted, count_dropped, health_known, count_record, bump, frame_reason,
  expired_reason, code_reason, text_same, cut_id, raised, escaped, encoded, Failure, Sensor,
  Metrics, Core, spool_error, index_error, type_error,
}
use ot_security.Receiver.Core.Quarantine.{
  spooled, excerpt_of, invalid_of, refilled, written, quarantine, quarantine_all,
}
use ot_security.Receiver.Core.Events.{
  partition_key, event_errors, hash_differs, identity_reason, validate_event, stamped, reject,
  accept_event, fresh_event, event,
}

module _ {J V R : Type 0} (t : Tools J V R) where
  -- `_sensors[c.sensor_id] = ...` and the gauges
  unfoldable pub observed : Health → Complete → Core R → Core R
  observed h c r = record r {
    readings = r.readings + 1;
    sensors =
        insert c.sensor_id
          (record {
            boot = c.boot_id;
            at = t.monotonic r.readings;
            last_sent = elim h.last_sequence_sent [ none ↦ negsuc 0 | some n ↦ pos n ];
            backlog = h.spool_bytes;
            invalid_local = h.records_invalid_local_total;
            oversize = h.records_rejected_oversize_total;
          })
          r.sensors;
  }

  unfoldable pub accept_health : J → Complete → Core R → Outcome Failure (Core R)
  unfolding spooled observed escaped encoded count_accepted count_dropped
  accept_health j c r = do
    key ← escaped (encoded (t.encode_ascii c.sensor_id))
    value ← escaped (encoded (t.dumps j))
    (done, s) ←
        spooled t (observed (t.health j) c r) topic_health key none none (negsuc 0) (pos 0) value
    ok (if done then count_accepted "sensor-health.v1" s else count_dropped s)

  -- `_health` from the parser on
  unfoldable pub fresh_health : Complete → Core R → Outcome Failure (Core R)
  unfolding accept_health stamped text_same code_reason escaped
  fresh_health c r = elim (t.loads c.bytes) [
    | none ↦ reject t "json_parse_error" c r
    | some j ↦
        let h = stamped t "received_at" j c in
        escaped (validate (t.version "sensor_health" h) (t.schema_errors "sensor_health" h) [])
        >>= λ errs. elim errs [
          | ◌∷◌ e _ ↦ reject t (code_reason "schema_violation" e) c r
          | [] ↦
              if text_same (t.health h).sensor_id c.sensor_id
                && text_same (t.health h).sensor_boot_id c.boot_id
              then accept_health h c r
              else reject t "schema_violation" c r
        ]
  ]

  -- `_health`
  unfoldable pub health_record : Complete → Core R → Outcome Failure (Core R)
  unfolding fresh_health health_known
  health_record c r =
      if health_known c r
      then ok r
      else fresh_health c (record r {
        health_seen = insert (c.sensor_id ++ (124 ∷ c.boot_id)) c.sequence r.health_seen;
      })

  -- The end of `handle_datagram`
  unfoldable pub route : Answer → Core R → Outcome Failure (Core R)
  unfolding event health_record count_record
  route waiting r = ok r
  route Answer.index_error r = err index_error
  route Answer.type_error r = err type_error
  route (complete c) r =
      if c.type == type_health
      then health_record c (count_record "health" r)
      else event t c (count_record "event" r)

  -- `handle_datagram` from the reassembly on
  unfoldable pub reassembled : Frame → ℕ → Core R → Outcome Failure (Core R)
  unfolding quarantine_all route
  reassembled frame now_us r = do
    let a = add r.reassembler frame now_us
    s ← quarantine_all t a.expired (record r { reassembler = a.state })
    route a.answer s

  unfoldable pub handle_datagram : Bytes → ℕ → Core R → Outcome Failure (Core R)
  unfolding reassembled quarantine frame_reason bump
  handle_datagram bytes now_us r0 =
      let r = record r0 { metrics = record r0.metrics { datagrams = r0.metrics.datagrams + 1 } } in
      elim (decode t.codec bytes) [
        | ok frame ↦ reassembled frame now_us r
        | err e ↦ quarantine t (frame_reason e) none none none (some bytes) (record r {
          metrics = record r.metrics {
            frames_rejected = bump (frame_reason e) r.metrics.frames_rejected;
          };
        })
      ]

  -- `housekeeping` after its loop: the document in dedup.json stands for the window that it restores.
  unfoldable pub synced : Core R → Core R
  synced r =
      let now = t.monotonic r.readings in
      let (position, s) = sync r.spool in
      let kept = record r { spool = s; readings = r.readings + 1 } in
      if t.is_due now r.last_snapshot
      then record kept { saved = some (r.dedup, position); last_snapshot = now }
      else kept

  unfoldable pub housekeeping : ℕ → Core R → Outcome Failure (Core R)
  unfolding quarantine_all synced
  housekeeping now_us r = do
    let (reassembler, expired) = expire r.reassembler now_us
    s ← quarantine_all t expired (record r { reassembler = reassembler })
    ok (synced s)
