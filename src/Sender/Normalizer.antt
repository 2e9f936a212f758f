-- ===== src/Sender/Normalizer.antt =====
-- ingest/sender/sih_sender/normalizer.py: a line of a Zeek log becomes the envelope of an event. The
-- JSON parser and writer, the hash and the clock are parameters.
pub mod Payload
pub mod Fields
pub mod Records
pub mod Consistent
pub mod Steps
pub mod Built
pub mod BuiltOthers
pub mod Payloads
pub mod Accepted
pub mod Size
pub mod Tests
use Prim.Native.String.{String}
use ot_security.Common.{
  ℕ, ◌*◌, Bool, true, false, not, ◌&&◌, Option, none, some, List, [], ◌∷◌, ltb, leb, if◌then◌else◌,
  length, Outcome, ok, err, ◌>>=◌, ◌>>◌, ensure, or_raise,
}
use ot_security.Common.Int.{ℤ, pos, negsuc, ◌+ℤ◌, leb_ℤ}
use ot_security.Common.Bytes.{Bytes}
use ot_security.Common.Dict.{Dict, Text, lookup}
use ot_security.Common.Strings.{same, listed, string_eq}
use ot_security.Link.Frame.{max_record_bytes}
use ot_security.Sender.Normalizer.Payload.{
  Json, none_value, bool_value, int_value, decimal_value, str_value, list_value, dict_value,
  nan_value, Record, Tools, Value, number, duration, Builder, empty, get, put, Seen, absent, wrong,
  found, as_int, as_num,
}
use ot_security.Sender.Normalizer.Fields.{Error, normalization_error, invalid_operation}
use ot_security.Sender.Normalizer.Records.{conn_like, dns, ssl, weird}

pub record Normalized (F : Type 0) : Type 0 where
  pub log_type : String
  pub built : Builder F
  pub event_time_us : ℤ
  pub emit_time_us : ℤ
  pub uid : Option Text
  pub original_line : Text

abbrev pub log_types : List String
log_types = "conn" ∷ "flow_update" ∷ "dns" ∷ "ssl" ∷ "weird" ∷ []

abbrev pub original_max_chars : ℕ
original_max_chars = 4096

module _ {D F : Type 0} (t : Tools D F) (loads : Text → Option (Json D × Record D)) where
  -- `_parse`: the parser gives a value, and the members where it is a dict.
  unfoldable pub parse : Text → Outcome Error (Record D)
  parse line = elim (loads line) [
    | none ↦ err (normalization_error "not valid JSON")
    | some (dict_value, n) ↦ ok n
    | some (none_value, _) ↦ err (normalization_error "record is not a JSON object")
    | some (bool_value _, _) ↦ err (normalization_error "record is not a JSON object")
    | some (int_value _, _) ↦ err (normalization_error "record is not a JSON object")
    | some (decimal_value _, _) ↦ err (normalization_error "record is not a JSON object")
    | some (str_value _, _) ↦ err (normalization_error "record is not a JSON object")
    | some (nan_value, _) ↦ err (normalization_error "record is not a JSON object")
    | some (list_value _, _) ↦ err (normalization_error "record is not a JSON object")
  ]

  -- `_ts`
  unfoldable pub time_of : Record D → Outcome Error ℤ
  time_of n = elim (as_num t.of_int (get n "ts")) [
    | absent ↦ err (normalization_error "ts missing or not numeric")
    | wrong ↦ err (normalization_error "ts missing or not numeric")
    | found d ↦ or_raise (t.micros d) invalid_operation
  ]

  -- `ts + zeek_ts_to_us(Decimal(d))`, for the duration d
  unfoldable pub end_of : Record D → ℤ → Outcome Error ℤ
  end_of n ts = elim (as_num t.of_int (get n "duration")) [
    | absent ↦ ok ts
    | wrong ↦ ok ts
    | found d ↦ do length ← or_raise (t.micros d) invalid_operation; ok (ts +ℤ length)
  ]

  -- `b.payload["duration_s"] is not None`
  unfoldable pub has_duration : Builder F → Bool
  has_duration b = elim (lookup "duration_s" b.payload) [
    | none ↦ false
    | some Value.null ↦ false
    | some (number _) ↦ true
    | some (duration _) ↦ true
    | some (Value.flag _) ↦ true
    | some (Value.words _) ↦ true
    | some (Value.word_list _) ↦ true
  ]

  unfoldable pub snapshot_seq : Record D → Outcome Error ℕ
  snapshot_seq n = elim (as_int (get n "snapshot_seq")) [
    | found (pos seq) ↦
        if leb 1 seq && leb seq 1000000000
        then ok seq
        else err (normalization_error "flow_update snapshot_seq missing or out of range")
    | found (negsuc _) ↦
        err (normalization_error "flow_update snapshot_seq missing or out of range")
    | absent ↦ err (normalization_error "flow_update snapshot_seq missing or out of range")
    | wrong ↦ err (normalization_error "flow_update snapshot_seq missing or out of range")
  ]

  unfoldable pub snapshot_interval : Record D → Outcome Error F
  snapshot_interval n = elim (as_num t.of_int (get n "snapshot_interval")) [
    | found d ↦
        if t.is_interval d
        then ok (t.float d)
        else err (normalization_error "flow_update snapshot_interval missing or out of range")
    | absent ↦ err (normalization_error "flow_update snapshot_interval missing or out of range")
    | wrong ↦ err (normalization_error "flow_update snapshot_interval missing or out of range")
  ]

  -- The two fields of a snapshot
  unfoldable pub add_snapshot : Record D → Builder F → Outcome Error (Builder F)
  add_snapshot n b = do
    seq ← snapshot_seq n
    interval ← snapshot_interval n
    ok (put "snapshot_interval_s" (duration interval) (put "snapshot_seq" (number seq) b))

  -- The branches of `normalize`: uid, builder and emit time
  unfoldable pub of_conn : String → Record D → ℤ → Outcome Error (Option Text × Builder F × ℤ)
  of_conn coverage n ts = do
    (uid, b) ← conn_like t n coverage true empty
    emit ← if has_duration b then end_of n ts else ok ts
    ok (some uid, b, emit)

  unfoldable pub of_flow_update :
      String → Record D → ℤ → Outcome Error (Option Text × Builder F × ℤ)
  of_flow_update coverage n ts = do
    (uid, b) ← conn_like t n coverage false empty
    b' ← add_snapshot n b
    ok (some uid, b', ts)

  unfoldable pub of_dns : Record D → ℤ → Outcome Error (Option Text × Builder F × ℤ)
  of_dns n ts = do (uid, b) ← dns t n empty; ok (some uid, b, ts)

  unfoldable pub of_ssl : Record D → ℤ → Outcome Error (Option Text × Builder F × ℤ)
  of_ssl n ts = do (uid, b) ← ssl t n empty; ok (some uid, b, ts)

  unfoldable pub of_weird : Record D → ℤ → Outcome Error (Option Text × Builder F × ℤ)
  of_weird n ts = do (uid, b) ← weird t n empty; ok (uid, b, ts)

  unfoldable pub payload_of :
      String → String → Record D → ℤ → Outcome Error (Option Text × Builder F × ℤ)
  payload_of coverage log_type n ts =
      if same log_type "conn"
      then of_conn coverage n ts
      else if same log_type "flow_update"
      then of_flow_update coverage n ts
      else if same log_type "dns"
      then of_dns n ts
      else if same log_type "ssl"
      then of_ssl n ts
      else of_weird n ts

  unfoldable pub normalize : String → String → Text → Outcome Error (Normalized F)
  normalize coverage log_type line = do
    ensure (listed log_types log_type) (normalization_error "unsupported log type")
    n ← parse line
    ts ← time_of n
    (uid, b, emit) ← payload_of coverage log_type n ts
    ok (record {
      log_type = log_type;
      built = b;
      event_time_us = ts;
      emit_time_us = emit;
      uid = uid;
      original_line = line;
    })

  -- `emit_time_us`: the time that orders a replay
  unfoldable pub emit_time_us : String → Text → Outcome Error ℤ
  emit_time_us log_type line = do
    n ← parse line
    ts ← time_of n
    elim (as_num t.of_int (get n "duration")) [
      | absent ↦ ok ts
      | wrong ↦ ok ts
      | found d ↦ if same log_type "conn" && t.non_negative d then end_of n ts else ok ts
    ]

-- The fields of the envelope that the code decides; the others are copied into it by `dumps`.
pub record Envelope (F : Type 0) : Type 0 where
  pub event_id : Text
  pub sensor_id : Text
  pub sensor_boot_id : Text
  pub sequence : ℕ
  pub replay_run_id : Option Text
  pub replay_time_offset_us : ℤ
  pub capture_mode : String
  pub coverage : String
  pub sha256 : Text
  pub original_record : Option Text
  pub original_record_truncated : Bool
  pub source : Normalized F

-- `RecordTooLarge` of the envelope
pub data TooLarge : Type 0 where
  record_too_large : TooLarge

module _ {F : Type 0} (sha256 : Text → Text) (event_id : Text → Text → ℕ → Text → Text)
    (dumps : Envelope F → Bytes) where
  unfoldable pub envelope_of :
      String → Normalized F → Text → Text → ℕ → Option Text → ℤ → String → Option Text → Envelope F
  envelope_of coverage r sensor_id boot_id sequence run offset capture_mode original =
      let sha = sha256 r.original_line in
      record {
        event_id = event_id sensor_id boot_id sequence sha;
        sensor_id = sensor_id;
        sensor_boot_id = boot_id;
        sequence = sequence;
        replay_run_id = run;
        replay_time_offset_us = offset;
        capture_mode = capture_mode;
        coverage = coverage;
        sha256 = sha;
        original_record = original;
        original_record_truncated = elim original [ none ↦ true | some _ ↦ false ];
        source = r;
      }

  -- `envelope`
  unfoldable pub envelope :
      String → Normalized F → Text → Text → ℕ → Option Text → ℤ → String → Outcome TooLarge Bytes
  envelope coverage r sensor_id boot_id sequence run offset capture_mode =
      let fits = leb (length r.original_line) original_max_chars in
      let built = envelope_of coverage r sensor_id boot_id sequence run offset capture_mode in
      let out = dumps (built (if fits then some r.original_line else none)) in
      let smaller = dumps (built none) in
      let sent = if ltb max_record_bytes (length out) && fits then smaller else out in
      if ltb max_record_bytes (length sent) then err record_too_large else ok sent
