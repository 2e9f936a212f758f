-- ===== src/Sender/Context/Accounts.antt =====
-- Every record that the sender reads is counted once: as sent, as invalid or as too large.
use Prim.Native.String.{String}
use ot_security.Common.{
  ℕ, zero, suc, ◌+◌, ◌≡◌, refl, ap, ◌∙◌, Bool, true, false, Option, List, [], ◌∷◌, Outcome, ok, err,
  Yields, bind-Yields, Yields-ok, arith, max, Bool-cases, inl, inr,
}
use ot_security.Common.Int.{ℤ, pos}
use ot_security.Common.Bytes.{Bytes}
use ot_security.Common.Dict.{Text}
use ot_security.Link.Frame
use ot_security.Link.Frame.{Codec, encode, type_event}
use ot_security.Sender.Normalizer
use ot_security.Sender.Normalizer.{Normalized, TooLarge, normalize, envelope}
use ot_security.Sender.Normalizer.Fields.{normalization_error, invalid_operation, type_error}
use ot_security.Sender.Link.{LinkWriter, transmit, transmit_all, repeat, count_sent, send}
use ot_security.Sender.Context.{
  Settings, SenderContext, Escape, oversize, sent, send_normalized, send_record,
}

module _ (codec : Codec) (reaches : ℕ → Bool) where
  records_sent-transmit :
      (f : Bytes) (l : LinkWriter) → (transmit codec reaches f l).records_sent ≡ l.records_sent
  unfolding transmit
  records_sent-transmit f l = elim (Bool-cases (reaches l.attempts)) [
    | inl e ↦ rw e refl
    | inr e ↦ rw e refl
  ]

  records_sent-transmit_all :
      (fs : List Bytes) (l : LinkWriter)
      → (transmit_all codec reaches fs l).records_sent ≡ l.records_sent
  unfolding transmit_all
  records_sent-transmit_all [] l = refl
  records_sent-transmit_all (f ∷ fs) l = records_sent-transmit_all fs _ ∙ records_sent-transmit f l

  records_sent-repeat :
      (n : ℕ) (fs : List Bytes) (l : LinkWriter)
      → (repeat codec reaches n fs l).records_sent ≡ l.records_sent
  unfolding repeat
  records_sent-repeat zero fs l = refl
  records_sent-repeat (suc n) fs l = records_sent-repeat n fs _ ∙ records_sent-transmit_all fs l

  -- An event that is sent is one more, and its number is the last.
  abbrev Sent : LinkWriter → ℕ → LinkWriter → Type 0
  Sent l sequence k = (k.records_sent ≡ l.records_sent + 1) × (k.last_sequence_sent ≡ pos sequence)

  send-Sent :
      (sensor_id boot_id : Text) (sequence : ℕ) (bytes : Bytes) (l : LinkWriter)
      → Yields (Sent l sequence) (send codec reaches type_event sensor_id boot_id sequence bytes l)
  unfolding send count_sent
  send-Sent sensor_id boot_id sequence bytes l =
      bind-Yields (λ u. Unit {0}) (Sent l sequence)
        (encode codec type_event sensor_id boot_id sequence bytes) _ (anything _)
        (λ frames h. (ap (λ n. n + 1) (records_sent-repeat (max 1 l.redundancy) frames l), refl))
    where
      anything : {E A : Type 0} (m : Outcome E A) → Yields (λ a. Unit {0}) m
      anything (err e) = tt
      anything (ok a) = tt

-- The records that have been dealt with.
unfoldable pub dealt : SenderContext → ℕ
dealt c = c.link.records_sent + c.invalid_local + c.rejected_oversize

-- A record that was sent has its number.
abbrev pub Numbered : ℕ → SenderContext → Bool → Type 0
Numbered sequence d true = d.link.last_sequence_sent ≡ pos sequence
Numbered sequence d false = Unit

-- One more has been read and dealt with, the state is as it was, and a record that was sent has its number.
abbrev pub OneMore : ℕ → SenderContext → Bool × SenderContext → Type 0
OneMore sequence c (done, d) =
    (d.records_read ≡ c.records_read + 1)
    × (dealt d ≡ dealt c + 1)
    × (d.state ≡ c.state)
    × Numbered sequence d done

-- The same, where the record has been counted as read already.
abbrev Dealt : ℕ → SenderContext → Bool × SenderContext → Type 0
Dealt sequence c (done, d) =
    (d.records_read ≡ c.records_read)
    × (dealt d ≡ dealt c + 1)
    × (d.state ≡ c.state)
    × Numbered sequence d done

module _ {D F : Type 0} (cfg : Settings D F) where
  oversize-Dealt : (sequence : ℕ) (c : SenderContext) → Dealt sequence c (oversize cfg c)
  unfolding oversize dealt
  oversize-Dealt sequence c = (refl, omega arith, refl, tt)

  sent-Dealt :
      (sequence : ℕ) (c : SenderContext) (m : ot_security.Link.Frame.Result LinkWriter)
      → Yields (Sent cfg.codec cfg.reaches c.link sequence) m
      → Yields (Dealt sequence c) (sent cfg c m)
  unfolding sent dealt
  sent-Dealt sequence c (ok l) h = (refl, omega (arith, h.0), refl, h.1)
  sent-Dealt sequence c (err ot_security.Link.Frame.record_too_large) h = oversize-Dealt sequence c
  sent-Dealt sequence c (err ot_security.Link.Frame.value_error) h = tt
  sent-Dealt sequence c (err ot_security.Link.Frame.unicode_error) h = tt
  sent-Dealt sequence c (err ot_security.Link.Frame.struct_error) h = tt
  sent-Dealt sequence c (err ot_security.Link.Frame.frame_malformed) h = tt
  sent-Dealt sequence c (err ot_security.Link.Frame.frame_hmac_invalid) h = tt

  send_normalized-Dealt :
      (n : Normalized F) (sequence : ℕ) (run_id : Option Text) (offset_us : ℤ) (c : SenderContext)
      → Yields (Dealt sequence c) (send_normalized cfg n sequence run_id offset_us c)
  unfolding send_normalized
  send_normalized-Dealt n sequence run_id offset_us c = go (
      envelope cfg.sha256 cfg.event_id cfg.dumps cfg.coverage n cfg.sensor_id c.state.boot_id
        sequence run_id offset_us cfg.capture_mode)
    where
      go :
          (m : Outcome TooLarge Bytes)
          → Yields (Dealt sequence c) (elim m [
            | err _ ↦ ok (oversize cfg c)
            | ok bytes ↦ sent cfg c (
                send cfg.codec cfg.reaches type_event cfg.sensor_id c.state.boot_id sequence bytes
                  c.link)
          ])
      go (err e) = oversize-Dealt sequence c
      go (ok bytes) =
          sent-Dealt sequence c _
            (send-Sent cfg.codec cfg.reaches cfg.sensor_id c.state.boot_id sequence bytes c.link)

  pub send_record-OneMore_when :
      (log_type : String) (line : Text) (sequence : ℕ) (run_id : Option Text) (offset_us : ℤ)
      (c : SenderContext)
      → Yields (OneMore sequence c) (send_record cfg log_type line sequence run_id offset_us c)
  unfolding send_record dealt
  send_record-OneMore_when log_type line sequence run_id offset_us c =
      go (normalize cfg.tools cfg.loads cfg.coverage log_type line)
    where
      read : SenderContext
      read = record c { records_read = c.records_read + 1 }

      go :
          (m : Outcome ot_security.Sender.Normalizer.Fields.Error (Normalized F))
          → Yields (OneMore sequence c) (elim m [
            | err (normalization_error _) ↦
                ok (false, record read { invalid_local = read.invalid_local + 1 })
            | err invalid_operation ↦ err Escape.of_number
            | err type_error ↦ err Escape.of_set
            | ok n ↦ send_normalized cfg n sequence run_id offset_us read
          ])
      go (err (normalization_error s)) = (refl, omega arith, refl, tt)
      go (err invalid_operation) = tt
      go (err type_error) = tt
      go (ok n) = send_normalized-Dealt n sequence run_id offset_us read

  -- A record that does not end the sender by an exception is counted once as read and once as sent, invalid or too
  -- large; the state is left alone, and where the answer is true its number is the last one sent.
  pub send_record-OneMore :
      (log_type : String) (line : Text) (sequence : ℕ) (run_id : Option Text) (offset_us : ℤ)
      (c : SenderContext) (r : Bool × SenderContext)
      → send_record cfg log_type line sequence run_id offset_us c ≡ ok r
      → OneMore sequence c r
  send_record-OneMore log_type line sequence run_id offset_us c r =
      Yields-ok (OneMore sequence c) (send_record cfg log_type line sequence run_id offset_us c) r
        (send_record-OneMore_when log_type line sequence run_id offset_us c)
