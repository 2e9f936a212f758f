-- ===== src/Receiver/Core/Events.antt =====
-- `_event` and `_validate_event` of ingest/receiver/sih_receiver/core.py.
use Prim.Native.String.{String}
use ot_security.Common.{
  Bool, true, false, not, ◌&&◌, ◌||◌, Option, none, some, List, [], ◌∷◌, ◌++◌, ◌==◌, if◌then◌else◌,
  Outcome, ok, ◌>>=◌,
}
use ot_security.Common.Int.{ℤ, pos}
use ot_security.Common.Bytes.{Bytes}
use ot_security.Common.Dict.{text_eq}
use ot_security.Common.Strings.{string_eq}
use ot_security.Contracts.{Problem, RecordError, validate, event_rules}
use ot_security.Link.Reassembly.{Complete}
use ot_security.Receiver.Dedup.{new, reordered, duplicate, stale, check}
use ot_security.Receiver.Spool.{topic_raw, is_empty}
use ot_security.Receiver.Core.Environment.{Event, Tools, observation_ms}
use ot_security.Receiver.Core.State.{
  marked, count_accepted, count_dropped, code_reason, text_same, escaped, encoded, Failure, Core,
}
use ot_security.Receiver.Core.Quarantine.{spooled, quarantine}

module _ {J V R : Type 0} (t : Tools J V R) where
  -- `partition_key`; 124 is the character `|`
  unfoldable pub partition_key : Event V → Outcome RecordError Bytes
  unfolding encoded
  partition_key ev = elim ev.uid [
    | none ↦ encoded (t.encode_ascii ev.event_id)
    | some uid ↦
        if is_empty uid
        then encoded (t.encode_ascii ev.event_id)
        else encoded (
            t.encode (
              ev.sensor_id
              ++ ((124 ∷ [])
                  ++ (ev.sensor_boot_id
                      ++ ((124 ∷ [])
                          ++ (elim ev.replay_run_id [ none ↦ [] | some run ↦ run ]
                              ++ (124 ∷ uid)))))))
  ]

  -- `contracts.validate("event", ev)`
  unfoldable pub event_errors : J → Outcome RecordError (List Problem)
  event_errors j =
      let ev = t.event j in
      validate (t.version "event" j) (t.schema_errors "event" j) (
        event_rules t.is_null ev.payload ev.availability ev.availability_reasons
          (elim ev.original_record [ none ↦ true | some _ ↦ false ]) ev.original_record_truncated)

  -- `orig is not None and hashlib.sha256(...) != sha`
  unfoldable pub hash_differs : Event V → Outcome RecordError Bool
  unfolding text_same encoded
  hash_differs ev = elim ev.original_record [
    | none ↦ ok false
    | some orig ↦ encoded (t.encode orig) >>= λ bytes.
        ok (not (text_same (t.sha256 bytes) ev.original_record_sha256))
  ]

  -- The end of `_validate_event`, for an event that meets its contract
  unfoldable pub identity_reason : Event V → Complete → Outcome RecordError (Option String)
  unfolding hash_differs text_same
  identity_reason ev c =
      if not (
        text_same ev.sensor_id c.sensor_id
        && text_same ev.sensor_boot_id c.boot_id
        && ev.sequence == c.sequence)
      then ok (some "schema_violation")
      else hash_differs ev >>= λ differs. ok (
          if differs
            || not (
                text_same (t.event_id c.sensor_id c.boot_id c.sequence ev.original_record_sha256)
                  ev.event_id)
          then some "schema_violation"
          else none)

  -- `_validate_event`: the reason, for the event with its time of receipt
  unfoldable pub validate_event : J → Complete → Outcome RecordError (Option String)
  unfolding event_errors identity_reason code_reason
  validate_event ev c =
      if not (t.is_dict ev)
      then ok (some "json_parse_error")
      else event_errors ev >>= λ errs. elim errs [
        | [] ↦ identity_reason (t.event ev) c
        | ◌∷◌ e _ ↦ ok (some (code_reason "availability_violation" e))
      ]

  -- `ev["receiver_received_at"] = ...`, which only a dict gets
  unfoldable pub stamped : String → J → Complete → J
  stamped field ev c = if t.is_dict ev then t.with_time field c.received_at_us ev else ev

  abbrev pub reject : String → Complete → Core R → Outcome Failure (Core R)
  reject reason c r =
      quarantine t reason (some c.sensor_id) (some c.boot_id) (some c.sequence) (some c.bytes) r

  -- What `_event` gives the append: the key, the time, and the bytes of the event
  unfoldable pub parts_of : J → Outcome RecordError (Bytes × ℤ × Bytes)
  unfolding partition_key encoded
  parts_of j = do
    let ev = t.event j
    key ← partition_key ev
    ts_ms ← observation_ms ev
    value ← encoded (t.dumps j)
    ok (key, ts_ms, value)

  -- The append of `_event`: where the spool is full, the record is not marked.
  unfoldable pub accept_event : J → Complete → Core R → Outcome Failure (Core R)
  unfolding spooled parts_of escaped count_accepted count_dropped marked
  accept_event j c r = do
    p ← escaped (parts_of j)
    (done, s) ←
        spooled t r topic_raw p.0 (some c.sensor_id) (some c.boot_id) (pos c.sequence) p.1 p.2
    ok (if done then count_accepted "raw-events.v1" (marked c s) else count_dropped s)

  -- `_event` from the parser on
  unfoldable pub fresh_event : Complete → Core R → Outcome Failure (Core R)
  unfolding accept_event validate_event stamped marked escaped
  fresh_event c r = elim (t.loads c.bytes) [
    | none ↦ reject "json_parse_error" c (marked c r)
    | some j ↦
        let ev = stamped "receiver_received_at" j c in
        escaped (validate_event ev c) >>= λ judged. elim judged [
          | some reason ↦ reject reason c (marked c r)
          | none ↦ accept_event ev c r
        ]
  ]

  -- `_event`
  unfoldable pub event : Complete → Core R → Outcome Failure (Core R)
  unfolding fresh_event marked
  event c r = elim (check r.dedup c.sensor_id c.boot_id c.sequence) [
    | duplicate ↦ ok (marked c r)
    | stale ↦ ok (marked c r)
    | new ↦ fresh_event c r
    | reordered ↦ fresh_event c r
  ]
