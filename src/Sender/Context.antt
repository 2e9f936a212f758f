-- ===== src/Sender/Context.antt =====
-- ingest/sender/sih_sender/context.py: one record is normalized, put in its envelope and sent.
pub mod Accounts
pub mod Tests
use Prim.Native.String.{String}
use ot_security.Common.{ℕ, ◌+◌, Bool, true, false, Option, List, Outcome, ok, err, ◌>>=◌}
use ot_security.Common.Int.{ℤ}
use ot_security.Common.Bytes.{Bytes}
use ot_security.Common.Dict.{Text}
use ot_security.Link.Frame
use ot_security.Link.Frame.{Codec, type_event}
use ot_security.Sender.Normalizer
use ot_security.Sender.Normalizer.{Normalized, Envelope, normalize, envelope}
use ot_security.Sender.Normalizer.Payload.{Json, Record, Tools}
use ot_security.Sender.Normalizer.Fields.{normalization_error, invalid_operation, type_error}
use ot_security.Sender.State.{SenderState}
use ot_security.Sender.Link.{LinkWriter, send}

-- The settings that a record needs, and what the sender calls of the Python library.
pub record Settings (D F : Type 0) : Type 0 where
  pub sensor_id : Text
  pub coverage : String
  pub capture_mode : String
  pub tools : Tools D F
  pub loads : Text → Option (Json D × Record D)
  pub sha256 : Text → Text
  pub event_id : Text → Text → ℕ → Text → Text
  pub dumps : Envelope F → Bytes
  pub codec : Codec
  pub reaches : ℕ → Bool

-- `SenderContext`, its counters and its parts
pub record SenderContext : Type 0 where
  pub state : SenderState
  pub link : LinkWriter
  pub records_read : ℕ
  pub rejected_oversize : ℕ
  pub invalid_local : ℕ
  pub backlog_bytes : ℕ

-- The exceptions that `send_record` does not catch
pub data Escape : Type 0 where
  of_number of_set : Escape
  of_frame : ot_security.Link.Frame.Error → Escape

module _ {D F : Type 0} (cfg : Settings D F) where
  -- The second `try`: an envelope that is too large, or whose frames are, is counted.
  unfoldable pub oversize : SenderContext → Bool × SenderContext
  oversize c = (false, record c { rejected_oversize = c.rejected_oversize + 1 })

  unfoldable pub sent :
      SenderContext
      → ot_security.Link.Frame.Result LinkWriter
      → Outcome Escape (Bool × SenderContext)
  unfolding oversize
  sent c (ok l) = ok (true, record c { link = l })
  sent c (err ot_security.Link.Frame.record_too_large) = ok (oversize c)
  sent c (err e) = err (of_frame e)

  unfoldable pub send_normalized :
      Normalized F → ℕ → Option Text → ℤ → SenderContext → Outcome Escape (Bool × SenderContext)
  unfolding oversize sent
  send_normalized n sequence run_id offset_us c =
      elim (envelope cfg.sha256 cfg.event_id cfg.dumps cfg.coverage n cfg.sensor_id c.state.boot_id
        sequence run_id offset_us cfg.capture_mode) [
          | err _ ↦ ok (oversize c)
          | ok bytes ↦ sent c (
              send cfg.codec cfg.reaches type_event cfg.sensor_id c.state.boot_id sequence bytes
                c.link)
        ]

  unfoldable pub send_record :
      String → Text → ℕ → Option Text → ℤ → SenderContext → Outcome Escape (Bool × SenderContext)
  unfolding send_normalized
  send_record log_type line sequence run_id offset_us c0 =
      let c = record c0 { records_read = c0.records_read + 1 } in
      elim (normalize cfg.tools cfg.loads cfg.coverage log_type line) [
        | err (normalization_error _) ↦ ok (false, record c { invalid_local = c.invalid_local + 1 })
        | err invalid_operation ↦ err of_number
        | err type_error ↦ err of_set
        | ok n ↦ send_normalized n sequence run_id offset_us c
      ]
