-- ===== src/Consumers/Archive/Cycle.antt =====
-- The cycle of consumers/sih_consumers/archive.py over the closed partitions, its restoration, and runs of both.
use ot_security.Common.{
  ℕ, ◌+◌, Bool, true, false, Option, none, some, List, [], ◌∷◌, ◌++◌, if◌then◌else◌,
}
use ot_security.Common.Bytes.{Bytes}
use ot_security.Common.Dict.{Text}
use ot_security.Consumers.Archive.{
  exported, stale, verified, deleted_hot, Content, Manifest, was_dropped, was_restored, Archive,
  Tools, text_lt, count_lines, set_at, put_at, Run, and_then, return, raise, request, manifest,
  record_manifest, export, read_back, is_intact, verify,
}

-- An exception counts the partition as unverified.
unfoldable pub is_good : Option Bool → Bool
is_good none = false
is_good (some b) = b

module _ {R : Type 0} (tools : Tools R) where
  unfoldable pub drop_partition : Text → Text → Content → Text → Run R Unit
  unfolding request set_at
  drop_partition table pid c cutoff = request tools (λ w. (
    tt,
    record w { hot = set_at table pid [] w.hot; log = was_dropped table pid c cutoff ∷ w.log },
  ))

  -- `m is None or m["status"] == "stale"`
  unfoldable pub needs_export : Option Manifest → Bool
  needs_export none = true
  needs_export (some m) = elim m.status [
    | stale ↦ true
    | exported ↦ false
    | verified ↦ false
    | deleted_hot ↦ false
  ]

  -- `m["status"]` raises where there is no manifest.
  unfoldable pub required : Option Manifest → Run R Manifest
  unfolding return raise
  required none = raise
  required (some m) = return m

  -- The export tools of `cycle`, and the manifest tools after it
  unfoldable pub exported_manifest : Text → Text → Run R Manifest
  unfolding and_then manifest export needs_export required
  exported_manifest table pid = and_then (manifest tools table pid) (λ m.
      if needs_export m
      then and_then (export tools table pid) (λ _. and_then (manifest tools table pid) required)
      else required m)

  -- The verification of `cycle`, and the manifest tools after it
  unfoldable pub verified_manifest : Text → Text → Manifest → Run R Manifest
  unfolding and_then return manifest verify required
  verified_manifest table pid m = elim m.status [
    | exported ↦
        and_then (verify tools table pid m) (λ _. and_then (manifest tools table pid) required)
    | stale ↦ return m
    | verified ↦ return m
    | deleted_hot ↦ return m
  ]

  -- The drop of `cycle`: whether the partition counts as verified
  unfoldable pub retire : Text → Text → Text → Manifest → Run R Bool
  unfolding and_then return text_lt drop_partition record_manifest
  retire cutoff table pid m = elim m.status [
    | exported ↦ return false
    | stale ↦ return false
    | deleted_hot ↦ return false
    | verified ↦
        if text_lt pid cutoff
        then and_then (drop_partition table pid m.content cutoff) (λ _.
          and_then (record_manifest tools table pid (record m { status = deleted_hot }))
            (λ _. return true))
        else return true
  ]

  -- The `try` of `cycle` for one partition
  unfoldable pub cycle_partition : Text → Text → Text → Run R Bool
  unfolding and_then exported_manifest verified_manifest retire
  cycle_partition cutoff table pid =
      and_then (exported_manifest table pid)
        (λ m. and_then (verified_manifest table pid m) (λ m'. retire cutoff table pid m'))

  -- The loop over the partitions of a table, with the number that are unverified
  unfoldable pub cycle_table : Text → Text → List Text → ℕ → Archive R → ℕ × Archive R
  unfolding cycle_partition is_good
  cycle_table cutoff table [] unverified w = (unverified, w)
  cycle_table cutoff table (pid ∷ pids) unverified w =
      let (answer, w') = cycle_partition cutoff table pid w in
      cycle_table cutoff table pids (if is_good answer then unverified else unverified + 1) w'

  -- Partitions before today, of those that ClickHouse names
  unfoldable pub closed_partitions : Text → List Text → List Text
  unfolding text_lt
  closed_partitions today [] = []
  closed_partitions today (pid ∷ pids) =
      let rest = closed_partitions today pids in if text_lt pid today then pid ∷ rest else rest

  -- `cycle`, over the partitions that ClickHouse names for each table; that query raises outside of the `try`.
  unfoldable pub cycle : Text → Text → List (Text × List Text) → ℕ → Run R ℕ
  unfolding and_then return request cycle_table closed_partitions
  cycle today cutoff [] unverified = return unverified
  cycle today cutoff (t ∷ ts) unverified = and_then (request tools (λ w. (t.1, w))) (λ pids w.
      let (n, w') = cycle_table cutoff t.0 (closed_partitions today pids) unverified w in
      cycle today cutoff ts n w')

  unfoldable pub restore : Text → Text → Run R ℕ
  unfolding and_then return raise request manifest read_back is_intact set_at count_lines
  restore table pid = and_then (manifest tools table pid) (λ found. elim found [
    | none ↦ raise
    | some m ↦ and_then (read_back tools m.content.object_key) (λ o.
        if is_intact tools m.content o.0 o.1
        then request tools (λ w. (
          count_lines o.1,
          record w {
            hot = set_at table pid (w.hot table pid ++ tools.load o.1) w.hot;
            log = was_restored table pid m.content o.0 ∷ w.log;
          },
        ))
        else raise)
  ])

-- A cycle on some day, a restoration, and what others do: rows that arrive late, an object that is replaced or lost
pub data Step (R : Type 0) : Type 0 where
  cycle_step : (today cutoff : Text) (parts : List (Text × List Text)) → Step R
  restore_step : (table pid : Text) → Step R
  arrive_step : (table pid : Text) (rows : List R) → Step R
  damage_step : (key : Text) (object : Option Bytes) → Step R

module _ {R : Type 0} (tools : Tools R) where
  unfoldable pub step : Step R → Archive R → Archive R
  unfolding cycle restore set_at put_at
  step (cycle_step today cutoff parts) w = (cycle tools today cutoff parts 0 w).1
  step (restore_step table pid) w = (restore tools table pid w).1
  step (arrive_step table pid rows) w = record w {
    hot = set_at table pid (w.hot table pid ++ rows) w.hot;
  }
  step (damage_step key object) w = record w { objects = put_at key object w.objects }

  unfoldable pub run : List (Step R) → Archive R → Archive R
  unfolding step
  run [] w = w
  run (s ∷ ss) w = run ss (step s w)
