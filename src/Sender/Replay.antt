-- ===== src/Sender/Replay.antt =====
-- ingest/sender/sih_sender/replay.py: the index of a run, its replay, record by record, and its resumption. A line
-- of a file of the run comes with the log type that the name of the file gives.
pub mod Malformed
pub mod Resume
mod Tests
use Prim.Native.String.{String}
use ot_security.Common.{
  ℕ, ◌+◌, ◌-◌, ◌*◌, Bool, true, false, Option, none, some, List, [], ◌∷◌, ◌++◌, ◌==◌, ltb, leb,
  if◌then◌else◌, ite, length, take, drop, min, Outcome, ok, err, ◌>>=◌,
}
use ot_security.Common.Int.{ℤ, pos, ◌+ℤ◌, ◌-ℤ◌, leb_ℤ}
use ot_security.Common.Bytes.{Bytes}
use ot_security.Common.Dict.{Text, text_dec}
use ot_security.Sender.Normalizer.{emit_time_us}
use ot_security.Sender.Normalizer.Fields.{normalization_error, invalid_operation, type_error}
use ot_security.Sender.Tail.{without_return, is_skipped}
use ot_security.Sender.State.{Run, SenderState, mark_completed}
use ot_security.Sender.Context.{Settings, SenderContext, Escape, of_number, of_set, send_record}

-- An entry of the index, with the log type of its file and the line at its place
pub record Item : Type 0 where
  pub emit_us : ℤ
  pub log_type : String
  pub line : Text

-- What `index` has found: the records, and the lines that are none, which `invalid_local` counts
pub record Index : Type 0 where
  pub items : List Item
  pub malformed : ℕ

-- `raw.rstrip(b"\n")`
unfoldable pub without_newlines : Bytes → Bytes
without_newlines [] = []
without_newlines (b ∷ bs) = elim (without_newlines bs) [
  | [] ↦ if b == 10 then [] else b ∷ []
  | ◌∷◌ c cs ↦ b ∷ (c ∷ cs)
]

-- `items.sort()`: the items come in the order of their files and offsets, which those of one time keep.
unfoldable pub sort_in : Item → List Item → List Item
sort_in x [] = x ∷ []
sort_in x (y ∷ ys) =
    let rest = sort_in x ys in if leb_ℤ x.emit_us y.emit_us then x ∷ (y ∷ ys) else y ∷ rest

unfoldable pub sort : List Item → List Item
unfolding sort_in
sort [] = []
sort (x ∷ xs) = sort_in x (sort xs)

module _ {D F : Type 0} (cfg : Settings D F) (decode : Bytes → Option Text) where
  -- The `try` of `index`: an item, or none for a line that is no record. Other exceptions are not caught.
  unfoldable pub item_of : String → Bytes → Outcome Escape (Option Item)
  unfolding emit_time_us
  item_of log_type bytes = elim (decode bytes) [
    | none ↦ ok none
    | some line ↦ elim (emit_time_us cfg.tools cfg.loads log_type line) [
      | ok emit ↦ ok (some (record { emit_us = emit; log_type = log_type; line = line }))
      | err (normalization_error _) ↦ ok none
      | err invalid_operation ↦ err of_number
      | err type_error ↦ err of_set
    ]
  ]

  -- The loop of `index` over the lines that are left, up to the most records
  unfoldable pub index_from : ℕ → List (String × Bytes) → Index → Outcome Escape Index
  unfolding item_of without_newlines without_return is_skipped
  index_from most [] x = ok x
  index_from most ((log_type, raw) ∷ lines) x =
      let bytes = without_return (without_newlines raw) in
      if is_skipped bytes
      then index_from most lines x
      else item_of log_type bytes >>= λ found. elim found [
        | none ↦ index_from most lines (record x { malformed = x.malformed + 1 })
        | some i ↦
            let more = record x { items = x.items ++ (i ∷ []) } in
            if leb most (length more.items) then ok more else index_from most lines more
      ]

  -- `index`
  unfoldable pub index : ℕ → List (String × Bytes) → Outcome Escape Index
  unfolding index_from sort
  index most lines = do
    x ← index_from most lines (record { items = []; malformed = 0 })
    ok (record x { items = sort x.items })

-- The run that `replay` starts
unfoldable pub new_run : Text → ℤ → List Item → ℕ → Run
new_run run_id now_us items next_sequence =
    let wall_start = now_us +ℤ pos 500000 in
    let first : ℤ = elim items [ [] ↦ pos 0 | ◌∷◌ x _ ↦ x.emit_us ] in
    record {
      run_id = run_id;
      base_sequence = next_sequence;
      total = length items;
      next_index = 0;
      wall_start_us = wall_start;
      first_emit_us = first;
      offset_us = wall_start -ℤ first;
    }

-- The range of sequences is reserved with the run.
unfoldable pub start_run : Text → ℤ → List Item → SenderState → Run × SenderState
unfolding new_run
start_run run_id now_us items st =
    let run = new_run run_id now_us items st.next_sequence in
    (run, record st { current_run = some run; next_sequence = run.base_sequence + run.total })

-- The run that is replayed: the current one where it has the name, or a new one
unfoldable pub the_run : Text → ℤ → List Item → SenderState → Run × SenderState
unfolding start_run
the_run run_id now_us items st = elim st.current_run [
  | none ↦ start_run run_id now_us items st
  | some run ↦ ite (text_dec run.run_id run_id) (run, st) (start_run run_id now_us items st)
]

module _ {D F : Type 0} (cfg : Settings D F) where
  -- A round of the loop, for the record i: it is sent with the number base + i, and counted.
  unfoldable pub replay_one : Run → ℕ → ℕ → Item → SenderContext → Outcome Escape (SenderContext)
  replay_one run limit i x c = do
    (done, d) ←
        send_record cfg x.log_type x.line (run.base_sequence + i) (some run.run_id) run.offset_us c
    ok (record d {
      state = record d.state { current_run = some (record run { next_index = i + 1 }) };
      backlog_bytes = (limit - i - 1) * 400;
    })

module _ {D F : Type 0} (cfg : Settings D F) (stopped : ℕ → Bool) where
  -- The loop from the index i on, over the records that are left: its answer is where it ends.
  unfoldable pub replay_from :
      Run → ℕ → ℕ → List Item → SenderContext → Outcome Escape (ℕ × SenderContext)
  unfolding replay_one
  replay_from run limit i [] c = ok (i, c)
  replay_from run limit i (x ∷ xs) c =
      if stopped i
      then ok (i, c)
      else replay_one cfg run limit i x c >>= λ d. replay_from run limit (i + 1) xs d

  -- `replay` from the choice of the run on; `save` has no effect in the model.
  unfoldable pub replay_items : Text → ℤ → List Item → SenderContext → Outcome Escape SenderContext
  unfolding the_run replay_from
  replay_items run_id now_us items c0 = do
    let (run, st) = the_run run_id now_us items c0.state
    let limit = min run.total (length items)
    (i, d) ←
        replay_from run limit run.next_index (drop run.next_index (take limit items))
          (record c0 { state = st })
    ok (
        if leb limit i
        then record d { state = mark_completed run_id d.state; backlog_bytes = 0 }
        else d)

  -- `replay`, over the lines of the run's files: each replay counts the lines that are no records.
  unfoldable pub replay :
      (Bytes → Option Text)
      → ℕ
      → Text
      → ℤ
      → List (String × Bytes)
      → SenderContext
      → Outcome Escape SenderContext
  unfolding index replay_items
  replay decode most run_id now_us lines c = do
    x ← index cfg decode most lines
    replay_items run_id now_us x.items (record c { invalid_local = c.invalid_local + x.malformed })
