-- ===== src/Consumers/Archive/Dropped.antt =====
-- `cycle` and `restore` of consumers/sih_consumers/archive.py, and the reasons in the log of the archive.
use ot_security.Common.{
  ℕ, ◌≡◌, refl, Bool, true, false, Option, none, some, List, [], ◌∷◌, ◌++◌, if◌then◌else◌,
}
use mathlib.Core.Option.{none-ne-some}
use ot_security.Common.Bytes.{Bytes}
use ot_security.Common.Dict.{Text}
use ot_security.Consumers.Archive.{
  Content, Manifest, was_restored, Archive, Tools, count_lines, set_at, Run, and_then, raise,
  request, manifest, read_back, is_intact,
}
use ot_security.Consumers.Archive.Justified.{
  Intact, Justified, IsSafe, Post, and_then-Post, request-Post, logged-IsSafe,
}
use ot_security.Consumers.Archive.Cycle.{
  cycle_partition, cycle_table, closed_partitions, cycle, restore, Step, cycle_step, restore_step,
  arrive_step, damage_step, step, run,
}
use ot_security.Consumers.Archive.Calls.{
  Any, Found, manifest-Post, read_back-Post, Unpacks, return-Post, raise-Post, Post-IsSafe,
  hot-IsSafe, objects-IsSafe, is_intact-true,
}
use ot_security.Consumers.Archive.Partition.{cycle_partition-Post}

module _ {R : Type 0} (tools : Tools R) where
  cycle_table-IsSafe :
      (cutoff table : Text) (pids : List Text) (unverified : ℕ) (w : Archive R)
      → IsSafe tools w
      → IsSafe tools (cycle_table tools cutoff table pids unverified w).1
  unfolding cycle_table
  cycle_table-IsSafe cutoff table [] unverified w h = h
  cycle_table-IsSafe cutoff table (pid ∷ pids) unverified w h =
      cycle_table-IsSafe cutoff table pids _ _ (
        Post-IsSafe tools Any (cycle_partition tools cutoff table pid w)
          (cycle_partition-Post tools cutoff table pid w h))

  cycle-Post :
      (today cutoff : Text) (ts : List (Text × List Text)) (unverified : ℕ) (w : Archive R)
      → IsSafe tools w
      → Post tools Any (cycle tools today cutoff ts unverified w)
  unfolding cycle Any
  cycle-Post today cutoff [] unverified w h = return-Post tools Any unverified w h tt
  cycle-Post today cutoff (t ∷ ts) unverified w h =
      and_then-Post tools Any Any (request tools (λ v. (t.1, v)))
        (λ pids v. cycle tools today cutoff ts (after pids v).0 (after pids v).1) w
        (request-Post tools Any (λ v. (t.1, v)) w h (λ v k e. (k, tt)))
        (λ pids v k _.
          cycle-Post today cutoff ts (after pids v).0 (after pids v).1
            (cycle_table-IsSafe cutoff t.0 (closed_partitions tools today pids) unverified v k))
    where
      after : List Text → Archive R → ℕ × Archive R
      after pids v = cycle_table tools cutoff t.0 (closed_partitions tools today pids) unverified v

  restored-Post :
      (table pid : Text) (c : Content) (object raw : Bytes) (w : Archive R)
      → IsSafe tools w
      → Intact tools c object
      → Post tools Any (
          request tools
            (λ v. (
              count_lines raw,
              record v {
                hot = set_at table pid (v.hot table pid ++ tools.load raw) v.hot;
                log = was_restored table pid c object ∷ v.log;
              },
            ))
            w)
  unfolding Any
  restored-Post table pid c object raw w h i = request-Post tools Any _ w h (λ v k e. (
    hot-IsSafe tools (set_at table pid (v.hot table pid ++ tools.load raw) v.hot)
        (record v { log = was_restored table pid c object ∷ v.log })
        (logged-IsSafe tools (was_restored table pid c object) v k i),
    tt,
  ))

  restore-Post :
      (table pid : Text) (w : Archive R)
      → IsSafe tools w
      → Post tools Any (restore tools table pid w)
  unfolding restore
  restore-Post table pid w h =
      and_then-Post tools (Found table pid) Any (manifest tools table pid) _ w
        (manifest-Post tools table pid w h) (λ o v k _. go o v k)
    where
      insert : Content → Bytes × Bytes → Run R ℕ
      insert c o = request tools (λ v. (
        count_lines o.1,
        record v {
          hot = set_at table pid (v.hot table pid ++ tools.load o.1) v.hot;
          log = was_restored table pid c o.0 ∷ v.log;
        },
      ))

      checked :
          (c : Content) (o : Bytes × Bytes) (v : Archive R)
          → IsSafe tools v
          → tools.decompress o.0 ≡ some o.1
          → (b : Bool) → is_intact tools c o.0 o.1 ≡ b
          → Post tools Any ((if b then insert c o else raise) v)
      checked c o v k d false e = raise-Post tools Any v k
      checked c o v k d true e =
          let t = is_intact-true tools c o.0 o.1 e in
          restored-Post table pid c o.0 o.1 v k (t.0, (o.1, (d, t.1)))

      go :
          (o : Option Manifest) (v : Archive R)
          → IsSafe tools v
          → Post tools Any (
              (elim o as (λ _. Run R ℕ) [
                | none ↦ raise
                | some m ↦
                    and_then
                      (read_back tools m.content.object_key)
                      (λ o. if is_intact tools m.content o.0 o.1 then insert m.content o else raise)
              ])
                v)
      go none v k = raise-Post tools Any v k
      go (some m) v k =
          and_then-Post tools (Unpacks tools) Any (read_back tools m.content.object_key) _ v
            (read_back-Post tools m.content.object_key v k)
            (λ o u l d. checked m.content o u l d (is_intact tools m.content o.0 o.1) refl)

  step-IsSafe : (s : Step R) (w : Archive R) → IsSafe tools w → IsSafe tools (step tools s w)
  unfolding step
  step-IsSafe (cycle_step today cutoff parts) w h =
      Post-IsSafe tools Any _ (cycle-Post today cutoff parts 0 w h)
  step-IsSafe (restore_step table pid) w h = Post-IsSafe tools Any _ (restore-Post table pid w h)
  step-IsSafe (arrive_step table pid rows) w h = hot-IsSafe tools _ w h
  step-IsSafe (damage_step key object) w h = objects-IsSafe tools key object w h

  run-IsSafe : (ss : List (Step R)) (w : Archive R) → IsSafe tools w → IsSafe tools (run tools ss w)
  unfolding run
  run-IsSafe [] w h = h
  run-IsSafe (s ∷ ss) w h = run-IsSafe ss (step tools s w) (step-IsSafe s w h)

  -- An archive that has no manifest yet
  abbrev pub fresh : (Text → Text → List R) → Archive R
  fresh hot = record {
    calls = 0;
    hot = hot;
    objects = λ _. none;
    manifests = λ _ _. none;
    log = [];
  }

  -- Over any cycles, restorations, late rows and damaged objects, whichever calls raise: each partition that was
  -- dropped was before the cutoff of its cycle, and was verified earlier with the content of its manifest. Whenever one
  -- was verified, the object that was read had the manifest's digest, and as many lines as the manifest says, and so
  -- many rows were hot. Whatever was restored was from such an object.
  pub run-Justified :
      (hot : Text → Text → List R) (ss : List (Step R))
      → Justified tools (run tools ss (fresh hot)).log
  run-Justified hot ss =
      (run-IsSafe ss (fresh hot)
        (record { justified = tt; backed = λ t p m q. absurd (none-ne-some m q) })).justified
