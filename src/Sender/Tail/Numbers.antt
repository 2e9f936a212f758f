-- ===== src/Sender/Tail/Numbers.antt =====
-- The numbers that a sender gives are consecutive, whatever becomes of the records.
use Prim.Native.String.{String}
use ot_security.Common.{
  ℕ, ◌+◌, ◌≡◌, refl, Bool, true, false, Option, none, some, if◌then◌else◌, leb, Outcome, ok, Yields,
  bind-Yields, Yields-ok, Bool-cases, inl, inr,
}
use ot_security.Common.Int.{pos}
use ot_security.Common.Bytes.{Bytes}
use ot_security.Common.Dict.{Text}
use ot_security.Sender.Context.{Settings, SenderContext, Escape, send_record}
use ot_security.Sender.Context.Accounts.{dealt, OneMore, send_record-OneMore_when}
use ot_security.Sender.Tail.{TailMode, without_return, is_skipped, numbered, handle_line, handle}

-- The line took one number and was counted as read and dealt with, or it took none: then it was skipped, or
-- counted as invalid.
abbrev pub Handled : Bool → TailMode → TailMode → Type 0
Handled true m n =
    (n.ctx.state.next_sequence ≡ m.ctx.state.next_sequence + 1)
    × (n.ctx.records_read ≡ m.ctx.records_read + 1)
    × (dealt n.ctx ≡ dealt m.ctx + 1)
Handled false m n =
    (n.ctx.state.next_sequence ≡ m.ctx.state.next_sequence)
    × (n.ctx.records_read ≡ m.ctx.records_read)

-- A line that is neither empty, a comment nor undecodable.
unfoldable pub is_record : (Bytes → Option Text) → Bytes → Bool
is_record decode raw =
    if is_skipped (without_return raw)
    then false
    else elim (decode (without_return raw)) [ none ↦ false | some _ ↦ true ]

module _ {D F : Type 0} (cfg : Settings D F) (decode : Bytes → Option Text)
    (persist_every : ℕ) where
  numbered-Handled :
      (m : TailMode) (c : SenderContext)
      → c.records_read ≡ m.ctx.records_read + 1
      → dealt c ≡ dealt m.ctx + 1
      → Handled true m (numbered cfg decode persist_every m.ctx.state.next_sequence m c)
  unfolding numbered dealt
  numbered-Handled m c h g = elim (Bool-cases (leb persist_every (m.since_save + 1))) [
    | inl e ↦ rw e (refl, h, g)
    | inr e ↦ rw e (refl, h, g)
  ]

  handle_line-Handled :
      (log_type : String) (line : Text) (m : TailMode)
      → Yields (Handled true m) (handle_line cfg decode persist_every log_type line m)
  unfolding handle_line
  handle_line-Handled log_type line m =
      bind-Yields (OneMore m.ctx.state.next_sequence m.ctx) (Handled true m)
        (send_record cfg log_type line m.ctx.state.next_sequence none (pos 0) m.ctx) _
        (send_record-OneMore_when cfg log_type line m.ctx.state.next_sequence none (pos 0) m.ctx)
        (λ r h. numbered-Handled m r.1 h.0 h.1)

  handle-Handled_when :
      (log_type : String) (raw : Bytes) (m : TailMode)
      → Yields (Handled (is_record decode raw) m) (handle cfg decode persist_every log_type raw m)
  unfolding handle is_record
  handle-Handled_when log_type raw m = elim (Bool-cases (is_skipped (without_return raw))) [
    | inl e ↦ rw e (refl, refl)
    | inr e ↦ rw e (go (decode (without_return raw)))
  ]
    where
      go :
          (o : Option Text)
          → Yields
              (Handled (elim o as (λ _. Bool) [ none ↦ false | some _ ↦ true ]) m)
              (elim o as (λ _. Outcome Escape TailMode) [
                | none ↦
                    ok (record m { ctx = record m.ctx { invalid_local = m.ctx.invalid_local + 1 } })
                | some line ↦ handle_line cfg decode persist_every log_type line m
              ])
      go none = (refl, refl)
      go (some line) = handle_line-Handled log_type line m

  -- A line that does not end the sender by an exception takes exactly the next number where it is a record, and is then
  -- counted as read and as sent, invalid or too large; any other line takes no number and is not counted as read.
  pub handle-Handled :
      (log_type : String) (raw : Bytes) (m n : TailMode)
      → handle cfg decode persist_every log_type raw m ≡ ok n
      → Handled (is_record decode raw) m n
  handle-Handled log_type raw m n =
      Yields-ok (Handled (is_record decode raw) m) (handle cfg decode persist_every log_type raw m)
        n (handle-Handled_when log_type raw m)
