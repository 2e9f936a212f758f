-- ===== src/Sender/Normalizer/Tests.antt =====
-- Examples of the normalizer, on records with whole numbers.
use ot_security.Common.{
  ℕ, ◌≡◌, refl, true, Option, none, some, [], ◌∷◌, leb, ◌<◌, Outcome, ok, err, length, replicate,
  or_raise,
}
use ot_security.Common.Int.{pos, negsuc}
use ot_security.Common.Bytes.{Bytes}
use ot_security.Common.Dict.{Text, lookup}
use ot_security.Common.Strings.{listed, string_dec, same}
use ot_security.Contracts.{availability_errors}
use ot_security.Link.Frame.{max_record_bytes}
use ot_security.Sender.Normalizer.{
  Normalized, Envelope, normalize, parse, time_of, payload_of, of_weird, envelope, envelope_of,
}
use ot_security.Sender.Normalizer.Payload.{
  Json, dict_value, str_value, int_value, Record, Tools, empty, as_num, get, as_text,
}
use ot_security.Sender.Normalizer.Records.{weird, weird_name}
use ot_security.Sender.Normalizer.Fields.{Error, codes}
use ot_security.Sender.Normalizer.Consistent.{is_null}
use ot_security.Sender.Normalizer.Accepted.{normalize-availability_errors}
use ot_security.Sender.Normalizer.Size.{
  Chosen, envelope-max_record_bytes, envelope-record_too_large,
}

-- A number without a fraction is its own decimal, and counts microseconds.
abbrev pub tools : Tools ℕ ℕ
tools = record {
  of_int = λ z. elim z [ pos k ↦ k | negsuc k ↦ 0 ];
  up_to = λ maximum d. leb d maximum;
  non_negative = λ d. true;
  is_interval = λ d. leb 1 d;
  float = λ d. d;
  micros = λ d. some (pos d);
  ip_address = λ s. true;
  show = λ v. [];
}

abbrev members : Record ℕ
members =
    ("ts", int_value (pos 7))
    ∷ ("uid", str_value (codes "C1"))
    ∷ ("name", str_value (codes "bad ack"))
    ∷ ("id.orig_p", int_value (pos 99999))
    ∷ []

abbrev pub loads : Text → Option (Json ℕ × Record ℕ)
loads line = some (dict_value, members)

abbrev blank : Normalized ℕ
blank = record {
  log_type = "";
  built = empty;
  event_time_us = pos 0;
  emit_time_us = pos 0;
  uid = none;
  original_line = [];
}

abbrev value_of : Outcome Error (Normalized ℕ) → Normalized ℕ
value_of (err e) = blank
value_of (ok r) = r

abbrev weird_record : Normalized ℕ
weird_record = value_of (normalize tools loads "full" "weird" [])

normalize-availability_errors_example :
    availability_errors is_null weird_record.built.payload weird_record.built.availability
      weird_record.built.reasons
    ≡ []
unfolding normalize listed string_dec parse time_of as_num get lookup or_raise payload_of same
    of_weird weird weird_name as_text
normalize-availability_errors_example =
    normalize-availability_errors tools loads "full" "weird" [] weird_record refl

abbrev pub no_hash : Text → Text
no_hash s = s

abbrev pub no_id : Text → Text → ℕ → Text → Text
no_id s b k h = s

-- An encoding with the original line as it is.
abbrev pub dumps : Envelope ℕ → Bytes
dumps e = elim e.original_record [ none ↦ 1 ∷ [] | some line ↦ 2 ∷ line ]

abbrev short_line : Normalized ℕ
short_line = record blank { original_line = 3 ∷ [] }

envelope-max_record_bytes_example : Chosen (3 ∷ []) (2 ∷ 3 ∷ []) (1 ∷ []) (2 ∷ 3 ∷ [])
unfolding envelope envelope_of
envelope-max_record_bytes_example =
    envelope-max_record_bytes no_hash no_id dumps "full" short_line [] [] 0 none (pos 0) "live"
      (2 ∷ 3 ∷ []) refl

abbrev large : Envelope ℕ → Bytes
large e = replicate 9601 0

envelope-record_too_large_example : max_record_bytes < length (replicate {A = ℕ} 9601 0)
unfolding envelope envelope_of
envelope-record_too_large_example =
    envelope-record_too_large no_hash no_id large "full" short_line [] [] 0 none (pos 0) "live" refl
