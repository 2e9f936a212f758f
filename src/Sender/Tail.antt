-- ===== src/Sender/Tail.antt =====
-- ingest/sender/sih_sender/tail.py: a line of a log that is followed gets the next sequence number.
pub mod Numbers
mod Tests
use Prim.Native.String.{String}
use ot_security.Common.{
  ℕ, zero, suc, ◌+◌, Bool, true, false, not, ◌&&◌, ◌||◌, Option, none, some, List, [], ◌∷◌, leb,
  ◌==◌, if◌then◌else◌, Outcome, ok, err, ◌>>=◌,
}
use ot_security.Common.Int.{ℤ, pos}
use ot_security.Common.Bytes.{Bytes}
use ot_security.Common.Dict.{Text}
use ot_security.Sender.Context.{Settings, SenderContext, Escape, send_record}

-- `TailMode`: the context, the lines since the last save, and how often the state has been saved
pub record TailMode : Type 0 where
  pub ctx : SenderContext
  pub since_save : ℕ
  pub saves : ℕ

-- `if raw.endswith(b"\r"): raw = raw[:-1]`
unfoldable pub without_return : Bytes → Bytes
without_return [] = []
without_return (b ∷ []) = if b == 13 then [] else b ∷ []
without_return (b ∷ c ∷ bs) = b ∷ without_return (c ∷ bs)

-- `not raw or raw.startswith(b"#")`
unfoldable pub is_skipped : Bytes → Bool
is_skipped [] = true
is_skipped (b ∷ _) = b == 35

module _ {D F : Type 0} (cfg : Settings D F) (decode : Bytes → Option Text)
    (persist_every : ℕ) where
  -- The end of `_handle`, after the record was sent or rejected
  unfoldable pub numbered : ℕ → TailMode → SenderContext → TailMode
  numbered seq m c =
      let after = record c { state = record c.state { next_sequence = seq + 1 } } in
      let count = m.since_save + 1 in
      if leb persist_every count
      then record { ctx = after; since_save = 0; saves = m.saves + 1 }
      else record { ctx = after; since_save = count; saves = m.saves }

  unfoldable pub handle_line : String → Text → TailMode → Outcome Escape TailMode
  unfolding numbered
  handle_line log_type line m = do
    let seq = m.ctx.state.next_sequence
    (done, c) ← send_record cfg log_type line seq none (pos 0) m.ctx
    ok (numbered seq m c)

  -- `_handle`; `decode` is that of UTF-8, with none for its error.
  unfoldable pub handle : String → Bytes → TailMode → Outcome Escape TailMode
  unfolding without_return is_skipped handle_line
  handle log_type raw m =
      let bytes = without_return raw in
      if is_skipped bytes then ok m else elim (decode bytes) [
        | none ↦ ok (record m { ctx = record m.ctx { invalid_local = m.ctx.invalid_local + 1 } })
        | some line ↦ handle_line log_type line m
      ]
