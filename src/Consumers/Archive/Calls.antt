-- ===== src/Consumers/Archive/Calls.antt =====
-- The single calls of Archiver in consumers/sih_consumers/archive.py, and the log of the archive.
use ot_security.Common.{
  ℕ, ◌==◌, ◌≡◌, refl, sym, subst, Bool, true, false, Option, none, some, List, ◌++◌, length, arith,
}
use mathlib.Core.Bool.{false≢true}
use ot_security.Common.Bytes.{Bytes}
use ot_security.Common.Dict.{Text, text_dec}
use ot_security.Consumers.Archive.{
  exported, Content, Manifest, Event, Archive, Tools, count_lines, set_at, put_at, Run, and_then,
  return, raise, request, manifest, record_manifest, hot_count, put_object, content_of, object_name,
  manifest_suffix, export, read_back, is_intact,
}
use ot_security.Consumers.Archive.Justified.{
  Backed, IsSafe, Post, and_then-Post, request-Post, set_at-IsSafe,
}

pub same_number : (a b : ℕ) → (a == b) ≡ true → a ≡ b
same_number a b e = ground arith

-- Nothing more is said of the result.
unfoldable pub Any : {A : Type 0} → A → List Event → Type 0
Any a log = Unit

unfoldable pub Found : Text → Text → Option Manifest → List Event → Type 0
Found table pid none log = Unit
Found table pid (some m) log = Backed table pid m log

module _ {R : Type 0} (tools : Tools R) where
  pub return-Post :
      {A : Type 0} (Q : A → List Event → Type 0) (a : A) (w : Archive R)
      → IsSafe tools w
      → Q a w.log
      → Post tools Q (return a w)
  unfolding return Post
  return-Post Q a w h q = (h, q)

  pub raise-Post :
      {A : Type 0} (Q : A → List Event → Type 0) (w : Archive R)
      → IsSafe tools w
      → Post tools Q (raise w)
  unfolding raise Post
  raise-Post Q w h = h

  pub Post-IsSafe :
      {A : Type 0} (Q : A → List Event → Type 0) (o : Option A × Archive R)
      → Post tools Q o
      → IsSafe tools o.1
  unfolding Post
  Post-IsSafe Q (none, w) h = h
  Post-IsSafe Q (some a, w) (h, q) = h

  pub objects-IsSafe :
      (key : Text) (o : Option Bytes) (w : Archive R)
      → IsSafe tools w
      → IsSafe tools (record w { objects = put_at key o w.objects })
  objects-IsSafe key o w h = record { justified = h.justified; backed = h.backed }

  pub hot-IsSafe :
      (hot : Text → Text → List R) (w : Archive R)
      → IsSafe tools w
      → IsSafe tools (record w { hot = hot })
  hot-IsSafe hot w h = record { justified = h.justified; backed = h.backed }

  pub manifest-Post :
      (table pid : Text) (w : Archive R)
      → IsSafe tools w
      → Post tools (Found table pid) (manifest tools table pid w)
  unfolding manifest Found
  manifest-Post table pid w h =
      request-Post tools (Found table pid) (λ v. (v.manifests table pid, v)) w h
        (λ v k e. (k, found v k (v.manifests table pid) refl))
    where
      found :
          (v : Archive R)
          → IsSafe tools v
          → (o : Option Manifest) → v.manifests table pid ≡ o
          → Found table pid o v.log
      found v k none e = tt
      found v k (some m) e = k.backed table pid m e

  pub record_manifest-Post :
      (table pid : Text) (m : Manifest) (w : Archive R)
      → IsSafe tools w
      → Backed table pid m w.log
      → Post tools Any (record_manifest tools table pid m w)
  unfolding record_manifest Any
  record_manifest-Post table pid m w h b =
      request-Post tools Any
        (λ v. (tt, record v { manifests = set_at table pid (some m) v.manifests })) w h
        (λ v k e. (set_at-IsSafe tools table pid m v k (subst (Backed table pid m) (sym e) b), tt))

  pub put_object-Post :
      (key : Text) (object : Bytes) (w : Archive R)
      → IsSafe tools w
      → Post tools Any (put_object tools key object w)
  unfolding put_object Any
  put_object-Post key object w h =
      request-Post tools Any (λ v. (tt, record v { objects = put_at key (some object) v.objects }))
        w h (λ v k e. (objects-IsSafe key (some object) v k, tt))

  pub export-Post :
      (table pid : Text) (w : Archive R)
      → IsSafe tools w
      → Post tools Any (export tools table pid w)
  unfolding export Backed Any
  export-Post table pid w h =
      and_then-Post tools Any Any (request tools (λ v. (v.hot table pid, v))) _ w
        (request-Post tools Any (λ v. (v.hot table pid, v)) w h (λ v k e. (k, tt)))
        (λ rows v k _. stored rows v k)
    where
      content : List R → Content
      content rows = content_of tools table pid rows

      stored :
          (rows : List R) (v : Archive R)
          → IsSafe tools v
          → Post tools Any (
              and_then
                (put_object tools (content rows).object_key (tools.compress (tools.dump rows)))
                (λ _.
                  and_then
                    (put_object tools
                      (object_name table pid (content rows).sha256 ++ manifest_suffix)
                      (tools.describe (content rows)))
                    (λ _.
                      record_manifest tools table pid
                        (record { content = content rows; status = exported })))
                v)
      stored rows v k =
          and_then-Post tools Any Any
            (put_object tools (content rows).object_key (tools.compress (tools.dump rows))) _ v
            (put_object-Post (content rows).object_key (tools.compress (tools.dump rows)) v k)
            (λ _ u l _.
              and_then-Post tools Any Any
                (put_object tools (object_name table pid (content rows).sha256 ++ manifest_suffix)
                  (tools.describe (content rows)))
                _ u
                (put_object-Post (object_name table pid (content rows).sha256 ++ manifest_suffix)
                  (tools.describe (content rows)) u l)
                (λ _ x y _.
                  record_manifest-Post table pid
                    (record { content = content rows; status = exported }) x y tt))

  abbrev pub Unpacks : Bytes × Bytes → List Event → Type 0
  Unpacks o _ = tools.decompress o.0 ≡ some o.1

  pub read_back-Post :
      (key : Text) (w : Archive R) → IsSafe tools w → Post tools Unpacks (read_back tools key w)
  unfolding read_back Any
  read_back-Post key w h =
      and_then-Post tools Any _ (request tools (λ v. (v.objects key, v))) _ w
        (request-Post tools Any (λ v. (v.objects key, v)) w h (λ v k e. (k, tt)))
        (λ found v k _. unpacked found v k)
    where
      opened :
          (object : Bytes) (o : Option Bytes)
          → tools.decompress object ≡ o
          → (v : Archive R) → IsSafe tools v
          → Post tools Unpacks (
              (elim o as (λ _. Run R (Bytes × Bytes)) [
                | none ↦ raise
                | some raw ↦ return (object, raw)
              ])
                v)
      opened object none e v k = raise-Post Unpacks v k
      opened object (some raw) e v k = return-Post Unpacks (object, raw) v k e

      unpacked :
          (found : Option Bytes) (v : Archive R)
          → IsSafe tools v
          → Post tools Unpacks (
              (elim found as (λ _. Run R (Bytes × Bytes)) [
                | none ↦ raise
                | some object ↦ elim (tools.decompress object) as (λ _. Run R (Bytes × Bytes)) [
                  | none ↦ raise
                  | some raw ↦ return (object, raw)
                ]
              ])
                v)
      unpacked none v k = raise-Post Unpacks v k
      unpacked (some object) v k = opened object (tools.decompress object) refl v k

  pub hot_count-Post :
      (table pid : Text) (w : Archive R)
      → IsSafe tools w
      → Post tools Any (hot_count tools table pid w)
  unfolding hot_count Any
  hot_count-Post table pid w h =
      request-Post tools Any (λ v. (length (v.hot table pid), v)) w h (λ v k e. (k, tt))

  pub is_intact-true :
      (c : Content) (object raw : Bytes)
      → is_intact tools c object raw ≡ true
      → (tools.sha256 object ≡ c.sha256) × (count_lines raw ≡ c.rows)
  unfolding is_intact
  is_intact-true c object raw = go (text_dec (tools.sha256 object) c.sha256)
    where
      go :
          (d : Dec (tools.sha256 object ≡ c.sha256))
          → elim d as (λ _. Bool) [ yes _ ↦ count_lines raw == c.rows | no _ ↦ false ] ≡ true
          → (tools.sha256 object ≡ c.sha256) × (count_lines raw ≡ c.rows)
      go (yes s) e = (s, same_number (count_lines raw) c.rows e)
      go (no n) e = absurd (false≢true e)
