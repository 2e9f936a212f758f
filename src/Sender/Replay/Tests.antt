-- ===== src/Sender/Replay/Tests.antt =====
-- A run of two records, stopped before the second.
use Prim.Native.String.{String}
use ot_security.Common.{
  ℕ, Bool, Option, none, some, if◌then◌else◌, List, [], ◌∷◌, ◌==◌, Outcome, ok, err,
}
use ot_security.Common.Int.{pos}
use ot_security.Common.Bytes.{Bytes}
use ot_security.Common.Dict.{Text}
use ot_security.Sender.State.{Run}
use ot_security.Sender.Context.{SenderContext, Escape}
use ot_security.Sender.Context.Tests.{settings, idle}
use ot_security.Sender.Replay.{Index, replay}

-- Two records, a comment, and a line that is not UTF-8
abbrev lines : List (String × Bytes)
lines =
    ("weird", 123 ∷ 125 ∷ 13 ∷ 10 ∷ [])
    ∷ ("weird", 35 ∷ 10 ∷ [])
    ∷ ("weird", 255 ∷ 10 ∷ [])
    ∷ ("weird", 123 ∷ [])
    ∷ []

abbrev decode : Bytes → Option Text
decode [] = some []
decode (b ∷ bs) = if b == 255 then none else some (b ∷ bs)

abbrev indexed : Index
indexed = record {
  items =
      record { emit_us = pos 7; log_type = "weird"; line = 123 ∷ 125 ∷ [] }
      ∷ record { emit_us = pos 7; log_type = "weird"; line = 123 ∷ [] }
      ∷ [];
  malformed = 1;
}

abbrev run : Run
run = record {
  run_id = 97 ∷ [];
  base_sequence = 40;
  total = 2;
  next_index = 0;
  wall_start_us = pos 100;
  first_emit_us = pos 7;
  offset_us = pos 93;
}

abbrev busy : SenderContext
busy = record idle { state = record idle.state { current_run = some run } }

abbrev stopped : ℕ → Bool
stopped i = i == 1

abbrev state_of : Outcome Escape SenderContext → SenderContext
state_of (ok c) = c
state_of (err e) = idle

abbrev halfway : SenderContext
halfway = state_of (replay settings stopped decode 100 (97 ∷ []) (pos 100) lines busy)
