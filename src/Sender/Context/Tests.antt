-- ===== src/Sender/Context/Tests.antt =====
-- A sender whose link is down, and a weird record that it reads.
use ot_security.Common.{ℕ, refl, Bool, false, none, [], ◌∷◌, Outcome, ok, err, or_raise}
use ot_security.Common.Int.{pos, negsuc}
use ot_security.Common.Dict.{lookup}
use ot_security.Common.Strings.{listed, string_dec, same}
use ot_security.Link.Frame.{encode}
use ot_security.Link.Frame.Tests.{codec, sensor}
use ot_security.Sender.Normalizer.{
  normalize, parse, time_of, payload_of, of_weird, envelope, envelope_of,
}
use ot_security.Sender.Link.{send}
use ot_security.Sender.Normalizer.Payload.{as_num, get, as_text}
use ot_security.Sender.Normalizer.Records.{weird, weird_name}
use ot_security.Sender.Normalizer.Tests.{tools, loads, no_hash, no_id, dumps}
use ot_security.Sender.Context.{Settings, SenderContext, Escape, send_record}
use ot_security.Sender.Context.Accounts.{OneMore, send_record-OneMore}

abbrev pub settings : Settings ℕ ℕ
settings = record {
  sensor_id = sensor;
  coverage = "full";
  capture_mode = "passive_live";
  tools = tools;
  loads = loads;
  sha256 = no_hash;
  event_id = no_id;
  dumps = dumps;
  codec = codec;
  reaches = λ n. false;
}

abbrev pub idle : SenderContext
idle = record {
  state = record {
    boot_id = 7 ∷ [];
    next_sequence = 0;
    health_seq = 0;
    tail_files = [];
    completed_runs = [];
    current_run = none;
  };
  link = record {
    redundancy = 1;
    attempts = 0;
    wire = [];
    frames_sent = 0;
    records_sent = 0;
    send_errors = 0;
    last_sequence_sent = negsuc 0;
  };
  records_read = 0;
  rejected_oversize = 0;
  invalid_local = 0;
  backlog_bytes = 0;
}

abbrev answer_of : Outcome Escape (Bool × SenderContext) → Bool × SenderContext
answer_of (ok r) = r
answer_of (err e) = (false, idle)

send_record-OneMore_example :
    OneMore 5 idle (answer_of (send_record settings "weird" [] 5 none (pos 0) idle))
unfolding send_record normalize listed string_dec parse time_of as_num get lookup or_raise
    payload_of same of_weird weird weird_name as_text envelope envelope_of send encode
send_record-OneMore_example =
    send_record-OneMore settings "weird" [] 5 none (pos 0) idle
      (answer_of (send_record settings "weird" [] 5 none (pos 0) idle)) refl
