-- ===== src/Consumers/Archive/Partition.antt =====
-- The part of `cycle` of consumers/sih_consumers/archive.py for one partition, and the log of the archive.
use ot_security.Common.{
  ◌≡◌, refl, sym, subst, Bool, true, false, Option, none, some, [], ◌∷◌, inr, if◌then◌else◌,
}
use ot_security.Common.Members.{In}
use ot_security.Common.Dict.{Text}
use ot_security.Consumers.Archive.{
  Status, exported, stale, verified, deleted_hot, Content, Manifest, was_verified, was_dropped,
  Archive, Tools, text_lt, set_at, Run, and_then, return, manifest, record_manifest, export, verify,
}
use ot_security.Consumers.Archive.Justified.{
  Seen, Backed, IsSafe, Post, and_then-Post, request-Post, logged-IsSafe,
}
use ot_security.Consumers.Archive.Cycle.{
  drop_partition, needs_export, required, exported_manifest, verified_manifest, retire,
  cycle_partition,
}
use ot_security.Consumers.Archive.Calls.{
  Any, Found, manifest-Post, record_manifest-Post, export-Post, return-Post, raise-Post, hot-IsSafe,
}
use ot_security.Consumers.Archive.Safe.{verify-Post}

module _ {R : Type 0} (tools : Tools R) where
  pub required-Post :
      (table pid : Text) (o : Option Manifest) (w : Archive R)
      → IsSafe tools w
      → Found table pid o w.log
      → Post tools (Backed table pid) (required tools o w)
  unfolding required Found
  required-Post table pid none w h f = raise-Post tools (Backed table pid) w h
  required-Post table pid (some m) w h f = return-Post tools (Backed table pid) m w h f

  -- A manifest that is read anew
  pub reread-Post :
      (table pid : Text) (w : Archive R)
      → IsSafe tools w
      → Post tools (Backed table pid) (and_then (manifest tools table pid) (required tools) w)
  reread-Post table pid w h =
      and_then-Post tools (Found table pid) (Backed table pid) (manifest tools table pid)
        (required tools) w (manifest-Post tools table pid w h)
        (λ o v k f. required-Post table pid o v k f)

  pub exported_manifest-Post :
      (table pid : Text) (w : Archive R)
      → IsSafe tools w
      → Post tools (Backed table pid) (exported_manifest tools table pid w)
  unfolding exported_manifest
  exported_manifest-Post table pid w h =
      and_then-Post tools (Found table pid) (Backed table pid) (manifest tools table pid) _ w
        (manifest-Post tools table pid w h) (λ o v k f. go o v k f (needs_export tools o))
    where
      go :
          (o : Option Manifest) (v : Archive R)
          → IsSafe tools v
          → Found table pid o v.log
          → (b : Bool)
          → Post tools (Backed table pid) (
              (if b
                  then and_then
                      (export tools table pid)
                      (λ _. and_then (manifest tools table pid) (required tools))
                  else required tools o)
                v)
      go o v k f true =
          and_then-Post tools Any (Backed table pid) (export tools table pid) _ v
            (export-Post tools table pid v k) (λ _ u l _. reread-Post table pid u l)
      go o v k f false = required-Post table pid o v k f

  pub verified_manifest-Post :
      (table pid : Text) (m : Manifest) (w : Archive R)
      → IsSafe tools w
      → Backed table pid m w.log
      → Post tools (Backed table pid) (verified_manifest tools table pid m w)
  unfolding verified_manifest
  verified_manifest-Post table pid m w h b = go m.status
    where
      go :
          (s : Status)
          → Post tools (Backed table pid) (
              (elim s as (λ _. Run R Manifest) [
                | exported ↦
                    and_then
                      (verify tools table pid m)
                      (λ _. and_then (manifest tools table pid) (required tools))
                | stale ↦ return m
                | verified ↦ return m
                | deleted_hot ↦ return m
              ])
                w)
      go exported =
          and_then-Post tools Any (Backed table pid) (verify tools table pid m) _ w
            (verify-Post tools table pid m w h) (λ _ u l _. reread-Post table pid u l)
      go stale = return-Post tools (Backed table pid) m w h b
      go verified = return-Post tools (Backed table pid) m w h b
      go deleted_hot = return-Post tools (Backed table pid) m w h b

  pub drop_partition-Post :
      (table pid : Text) (c : Content) (cutoff : Text) (w : Archive R)
      → IsSafe tools w
      → text_lt pid cutoff ≡ true
      → Seen table pid c w.log
      → Post tools (λ _ log. Seen table pid c log) (drop_partition tools table pid c cutoff w)
  unfolding drop_partition
  drop_partition-Post table pid c cutoff w h l (o, n, i) =
      request-Post tools (λ _ log. Seen table pid c log) _ w h
        (λ v k e. (
          hot-IsSafe tools (set_at table pid [] v.hot)
              (record v { log = was_dropped table pid c cutoff ∷ v.log })
              (logged-IsSafe tools (was_dropped table pid c cutoff) v k
                (l, (o, n, subst (In (was_verified table pid c o n)) (sym e) i))),
          (o, n, inr (subst (In (was_verified table pid c o n)) (sym e) i)),
        ))

  pub retire-Post :
      (cutoff table pid : Text) (m : Manifest) (w : Archive R)
      → IsSafe tools w
      → Backed table pid m w.log
      → Post tools Any (retire tools cutoff table pid m w)
  unfolding retire Any Backed
  retire-Post cutoff table pid m w h = go m.status (text_lt pid cutoff) refl
    where
      dropped :
          text_lt pid cutoff ≡ true
          → Seen table pid m.content w.log
          → Post tools Any (
              and_then
                (drop_partition tools table pid m.content cutoff)
                (λ _.
                  and_then
                    (record_manifest tools table pid (record m { status = deleted_hot }))
                    (λ _. return true))
                w)
      dropped l b =
          and_then-Post tools (λ _ log. Seen table pid m.content log) Any
            (drop_partition tools table pid m.content cutoff) _ w
            (drop_partition-Post table pid m.content cutoff w h l b)
            (λ _ v k b'.
              and_then-Post tools Any Any
                (record_manifest tools table pid (record m { status = deleted_hot }))
                (λ _. return true) v
                (record_manifest-Post tools table pid (record m { status = deleted_hot }) v k b')
                (λ _ u l _. return-Post tools Any true u l tt))

      go :
          (s : Status) (c : Bool)
          → text_lt pid cutoff ≡ c
          → elim s as (λ _. Type 0) [
            | exported ↦ Unit
            | stale ↦ Unit
            | verified ↦ Seen table pid m.content w.log
            | deleted_hot ↦ Seen table pid m.content w.log
          ]
          → Post tools Any (
              (elim s as (λ _. Run R Bool) [
                | exported ↦ return false
                | stale ↦ return false
                | deleted_hot ↦ return false
                | verified ↦
                    if c
                    then and_then (drop_partition tools table pid m.content cutoff) (λ _.
                      and_then
                        (record_manifest tools table pid (record m { status = deleted_hot }))
                        (λ _. return true))
                    else return true
              ])
                w)
      go exported c l b = return-Post tools Any false w h tt
      go stale c l b = return-Post tools Any false w h tt
      go deleted_hot c l b = return-Post tools Any false w h tt
      go verified false l b = return-Post tools Any true w h tt
      go verified true l b = dropped l b

  pub cycle_partition-Post :
      (cutoff table pid : Text) (w : Archive R)
      → IsSafe tools w
      → Post tools Any (cycle_partition tools cutoff table pid w)
  unfolding cycle_partition
  cycle_partition-Post cutoff table pid w h =
      and_then-Post tools (Backed table pid) Any (exported_manifest tools table pid) _ w
        (exported_manifest-Post table pid w h)
        (λ m v k b.
          and_then-Post tools (Backed table pid) Any (verified_manifest tools table pid m)
            (retire tools cutoff table pid) v (verified_manifest-Post table pid m v k b)
            (λ m' u l b'. retire-Post cutoff table pid m' u l b'))
