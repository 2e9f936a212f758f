-- ===== src/Sender/Tail/Tests.antt =====
-- A weird record in a log that is followed.
use ot_security.Common.{refl, true, some, [], ◌∷◌, Outcome, ok, err, or_raise}
use ot_security.Common.Dict.{lookup}
use ot_security.Common.Strings.{listed, string_dec, same}
use ot_security.Link.Frame.{encode}
use ot_security.Sender.Link.{send}
use ot_security.Sender.Normalizer.{
  normalize, parse, time_of, payload_of, of_weird, envelope, envelope_of,
}
use ot_security.Sender.Normalizer.Payload.{as_num, get, as_text}
use ot_security.Sender.Normalizer.Records.{weird, weird_name}
use ot_security.Sender.Context.{Escape, send_record}
use ot_security.Sender.Context.Tests.{settings, idle}
use ot_security.Sender.Tail.{TailMode, without_return, is_skipped, handle}
use ot_security.Sender.Tail.Numbers.{Handled, is_record, handle-Handled}

abbrev fresh : TailMode
fresh = record { ctx = idle; since_save = 0; saves = 0 }

abbrev state_of : Outcome Escape TailMode → TailMode
state_of (ok m) = m
state_of (err e) = fresh

handle-Handled_example :
    Handled true fresh
      (state_of (handle settings (λ b. some b) 200 "weird" (123 ∷ 125 ∷ 13 ∷ []) fresh))
unfolding handle is_record without_return is_skipped send_record normalize listed string_dec parse
    time_of as_num get lookup or_raise payload_of same of_weird weird weird_name as_text envelope
    envelope_of send encode
handle-Handled_example =
    handle-Handled settings (λ b. some b) 200 "weird" (123 ∷ 125 ∷ 13 ∷ []) fresh
      (state_of (handle settings (λ b. some b) 200 "weird" (123 ∷ 125 ∷ 13 ∷ []) fresh)) refl
