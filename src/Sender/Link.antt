-- ===== src/Sender/Link.antt =====
-- ingest/sender/sih_sender/link.py: the writer of datagrams. Whether an attempt reaches the target, name
-- resolution included, is a parameter; the wait for a token of the rate limit has no effect in the model.
use ot_security.Common.{
  ℕ, zero, suc, ◌+◌, Bool, List, [], ◌∷◌, ◌++◌, ◌==◌, if◌then◌else◌, max, ok, ◌>>=◌,
}
use ot_security.Common.Int.{ℤ, pos}
use ot_security.Common.Bytes.{Bytes}
use ot_security.Common.Dict.{Text}
use ot_security.Link.Frame.{Codec, Result, encode, type_event}

-- The counters of `LinkWriter`, and the datagrams that the socket has taken.
pub record LinkWriter : Type 0 where
  pub redundancy : ℕ
  pub attempts : ℕ
  pub wire : List Bytes
  pub frames_sent : ℕ
  pub records_sent : ℕ
  pub send_errors : ℕ
  pub last_sequence_sent : ℤ

module _ (codec : Codec) (reaches : ℕ → Bool) where
  unfoldable pub transmit : Bytes → LinkWriter → LinkWriter
  transmit frame l =
      if reaches l.attempts
      then record l {
        attempts = l.attempts + 1;
        wire = l.wire ++ (frame ∷ []);
        frames_sent = l.frames_sent + 1;
      }
      else record l { attempts = l.attempts + 1; send_errors = l.send_errors + 1 }

  -- `for f in frames`
  unfoldable pub transmit_all : List Bytes → LinkWriter → LinkWriter
  unfolding transmit
  transmit_all [] l = l
  transmit_all (f ∷ fs) l = transmit_all fs (transmit f l)

  -- `for _ in range(self.redundancy)`
  unfoldable pub repeat : ℕ → List Bytes → LinkWriter → LinkWriter
  unfolding transmit_all
  repeat zero frames l = l
  repeat (suc n) frames l = repeat n frames (transmit_all frames l)

  -- The end of `send`
  unfoldable pub count_sent : ℕ → ℕ → LinkWriter → LinkWriter
  count_sent ftype sequence l =
      if ftype == type_event
      then record l { records_sent = l.records_sent + 1; last_sequence_sent = pos sequence }
      else l

  unfoldable pub send : ℕ → Text → Text → ℕ → Bytes → LinkWriter → Result LinkWriter
  unfolding repeat count_sent
  send ftype sensor_id boot_id sequence bytes l = do
    frames ← encode codec ftype sensor_id boot_id sequence bytes
    ok (count_sent ftype sequence (repeat (max 1 l.redundancy) frames l))
