-- ===== src/Receiver/Core/Tests.antt =====
-- A receiver with an empty state, and each theorem at a record that it accepts.
use ot_security.Common.{
  ℕ, ◌+◌, ◌≡◌, refl, true, false, none, some, [], ◌∷◌, arith, Outcome, ok, err, or_raise,
  ℕ_discrete,
}
use ot_security.Common.Int.{pos, ◌+ℤ◌}
use ot_security.Common.Bytes.{be_bytes}
use ot_security.Common.Dict.{lookup, text_dec}
use ot_security.Contracts.{named, validate, event_rules}
use ot_security.Common.Strings.{listed, string_dec}
use ot_security.Link.Frame.Tests.{codec}
use ot_security.Link.Reassembly.{Complete}
use ot_security.Receiver.Dedup.{init, check}
use ot_security.Receiver.Dedup.Sound.{init-IsSound}
use ot_security.Receiver.Spool.{
  sizes_of, append, body_of, is_ascii, or_empty, is_empty, signed_fits, join_body, signed_bytes,
}
use ot_security.Receiver.Spool.Layout.{IsSpool, content}
use ot_security.Receiver.Core.{handle_datagram}
use ot_security.Receiver.Core.Environment.{Tools, Event, no_duration, observation_ms}
use ot_security.Receiver.Core.State.{Core, Failure, raised, escaped, encoded}
use ot_security.Receiver.Core.Events.{event, accept_event, parts_of, partition_key}
use ot_security.Receiver.Core.Gives.{IsCore, Gives}
use ot_security.Receiver.Core.Invariant.{handle_datagram-IsCore}
use ot_security.Receiver.Core.Accounts.{counted, event_counted_once}
use ot_security.Receiver.Core.Durable.{Durable, accept_event-Durable}

abbrev sensor_event : Event ℕ
sensor_event = record {
  event_id = [];
  sensor_id = 115 ∷ [];
  sensor_boot_id = 98 ∷ [];
  sequence = 5;
  replay_run_id = none;
  event_time_us = some (pos 2000);
  replay_time_offset_us = pos 0;
  duration_us = no_duration;
  original_record_sha256 = [];
  original_record = none;
  original_record_truncated = true;
  uid = none;
  payload = [];
  availability = [];
  availability_reasons = [];
}

abbrev tools : Tools ℕ ℕ ℕ
tools = record {
  codec = codec;
  loads = λ b. some 0;
  is_dict = λ j. true;
  with_time = λ f us j. j;
  dumps = λ j. some (123 ∷ 125 ∷ []);
  version = λ k j. named "1.0.0";
  schema_errors = λ k j. [];
  event = λ j. sensor_event;
  health = λ j. record {
    sensor_id = 115 ∷ [];
    sensor_boot_id = 98 ∷ [];
    last_sequence_sent = none;
    spool_bytes = 0;
    records_invalid_local_total = 0;
    records_rejected_oversize_total = 0;
  };
  is_null = λ v. false;
  sha256 = λ b. [];
  encode = λ s. some s;
  encode_ascii = λ s. some s;
  decode_replace = λ b. b;
  event_id = λ s b n h. [];
  invalid_id = λ r h s b n. [];
  dumps_invalid = λ x. some (123 ∷ 125 ∷ []);
  crc32 = λ b. 7;
  uuid_bytes = λ s. some (be_bytes 16 7);
  refill = λ now last tokens. 3;
  below_one = λ tokens. false;
  less_one = λ tokens. 2;
  is_due = λ now last. true;
  monotonic = λ n. n;
}

abbrev blank : Core ℕ
blank = record {
  reassembler = record { max_pending = 4096; timeout_us = 2000000; pending = [] };
  dedup = init;
  spool = record {
    max_bytes = 1000;
    segment_bytes = 500;
    sizes = (0, 0) ∷ [];
    files = (0, []) ∷ [];
    active = 0;
    total = 0;
    dirty = false;
    synced = (0, 0);
  };
  metrics = record {
    datagrams = 0;
    frames_rejected = [];
    records = [];
    accepted = [];
    invalid = [];
    dropped = [];
    quarantine_suppressed = 0;
  };
  health_seen = [];
  sensors = [];
  q_tokens = 3;
  q_refill = 0;
  last_snapshot = 0;
  readings = 0;
  saved = none;
}

blank_spool : IsSpool blank.spool
unfolding sizes_of content
blank_spool = record {
  olds = [];
  last = [];
  layout = refl;
  older = tt;
  ascending = tt;
  sizes = refl;
  total = refl;
}

blank-IsCore : IsCore blank
blank-IsCore = record {
  reassembler = record { room = omega arith; distinct = tt; bounded = omega arith; entries = tt };
  dedup = init-IsSound;
  spool = blank_spool;
  bounded = omega arith;
}

handle_datagram-IsCore_example : Gives IsCore (handle_datagram tools (1 ∷ 2 ∷ []) 9 blank)
handle_datagram-IsCore_example = handle_datagram-IsCore tools (1 ∷ 2 ∷ []) 9 blank blank-IsCore

abbrev record_five : Complete
record_five = record {
  type = 1;
  sensor_id = 115 ∷ [];
  boot_id = 98 ∷ [];
  sequence = 5;
  bytes = 123 ∷ 125 ∷ [];
  received_at_us = 9;
}

abbrev state_of : Outcome Failure (Core ℕ) → Core ℕ
state_of (ok s) = s
state_of (err e) = blank

event_counted_once_example : counted (state_of (event tools record_five blank)) ≡ counted blank + 1
unfolding event check lookup init validate listed string_dec event_rules text_dec ℕ_discrete raised
    escaped encoded parts_of partition_key append body_of is_ascii or_empty is_empty or_raise
    signed_fits observation_ms ◌+ℤ◌ join_body be_bytes signed_bytes
event_counted_once_example =
    event_counted_once tools record_five blank (state_of (event tools record_five blank)) refl

accept_event-Durable_example :
    Durable tools 0 record_five blank (state_of (accept_event tools 0 record_five blank))
unfolding accept_event parts_of partition_key escaped encoded raised append body_of is_ascii
    or_empty is_empty or_raise signed_fits observation_ms ◌+ℤ◌ join_body be_bytes signed_bytes
accept_event-Durable_example =
    accept_event-Durable tools 0 record_five blank
      (state_of (accept_event tools 0 record_five blank)) blank_spool (omega arith) refl
