-- ===== src/Sender/State.antt =====
-- ingest/sender/sih_sender/state.py: the state that the sender keeps over restarts, and its document.
use ot_security.Common.{ℕ, ◌+◌, ◌-◌, Option, none, List, [], ◌∷◌, ◌++◌, length, drop}
use ot_security.Common.Int.{ℤ}
use ot_security.Common.Dict.{Dict, Text}

abbrev pub max_completed_runs : ℕ
max_completed_runs = 1000

-- `current_run`; the start on the wall is only there to pace the replay.
pub record Run : Type 0 where
  pub run_id : Text
  pub base_sequence : ℕ
  pub total : ℕ
  pub next_index : ℕ
  pub wall_start_us : ℤ
  pub first_emit_us : ℤ
  pub offset_us : ℤ

pub record TailFile : Type 0 where
  pub path : Text
  pub offset : ℕ
  pub fingerprint : Text

-- The fields of `SenderState` that `save` writes; `save` and `load` read and write all of them.
pub record SenderState : Type 0 where
  pub boot_id : Text
  pub next_sequence : ℕ
  pub health_seq : ℕ
  pub tail_files : Dict Text TailFile
  pub completed_runs : List Text
  pub current_run : Option Run

-- `runs[-MAX_COMPLETED_RUNS:]`
unfoldable pub last_runs : List Text → List Text
last_runs runs = drop (length runs - max_completed_runs) runs

unfoldable pub mark_completed : Text → SenderState → SenderState
unfolding last_runs
mark_completed run_id s = record s {
  completed_runs = last_runs (s.completed_runs ++ (run_id ∷ []));
  current_run = none;
}

unfoldable pub next_health_seq : SenderState → ℕ × SenderState
next_health_seq s = (s.health_seq, record s { health_seq = s.health_seq + 1 })
