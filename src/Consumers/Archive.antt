-- ===== src/Consumers/Archive.antt =====
-- consumers/sih_consumers/archive.py: partitions are exported, read back, and dropped only once they are verified.
-- A call of ClickHouse or of the object store either takes effect or raises, by the number of calls before it.
pub mod Cycle
mod Justified
mod Calls
mod Safe
mod Partition
mod Dropped
mod Tests
use ot_security.Common.{
  ℕ, zero, suc, ◌+◌, ◌==◌, Bool, true, false, not, ◌&&◌, ◌||◌, Option, none, some, List, [], ◌∷◌,
  ◌++◌, length, take, drop, ltb, if◌then◌else◌,
}
use ot_security.Common.Bytes.{Bytes}
use ot_security.Common.Dict.{Text, text_dec}

pub data Status : Type 0 where
  exported stale verified deleted_hot : Status

-- What the rows of a partition's manifest copy from one to the next
pub record Content : Type 0 where
  pub object_key : Text
  pub rows : ℕ
  pub sha256 : Text

pub record Manifest : Type 0 where
  pub content : Content
  pub status : Status

-- What has happened, the last one first: a partition was verified, by the object that was read and the count of its
-- hot rows; it was dropped, on the day that the cutoff stands for; it was restored from an object.
pub data Event : Type 0 where
  was_verified : (table pid : Text) (content : Content) (object : Bytes) (hot_rows : ℕ) → Event
  was_dropped : (table pid : Text) (content : Content) (cutoff : Text) → Event
  was_restored : (table pid : Text) (content : Content) (object : Bytes) → Event

pub record Archive (R : Type 0) : Type 0 where
  pub calls : ℕ
  pub hot : Text → Text → List R
  pub objects : Text → Option Bytes
  pub manifests : Text → Text → Option Manifest
  pub log : List Event

-- JSONEachRow of rows and its inverse, gzip and its inverse, SHA-256 in hexadecimal, the JSON of a manifest, and the
-- calls that raise
pub record Tools (R : Type 0) : Type 0 where
  pub dump : List R → Bytes
  pub load : Bytes → List R
  pub compress : Bytes → Bytes
  pub decompress : Bytes → Option Bytes
  pub sha256 : Bytes → Text
  pub describe : Content → Bytes
  pub raises : ℕ → Bool

-- The order of str
unfoldable pub text_lt : Text → Text → Bool
text_lt xs [] = false
text_lt [] (y ∷ ys) = true
text_lt (x ∷ xs) (y ∷ ys) =
    let rest = text_lt xs ys in if ltb x y then true else (if x == y then rest else false)

-- `raw.count(b"\n")`
unfoldable pub count_lines : Bytes → ℕ
count_lines [] = 0
count_lines (b ∷ bs) = let rest = count_lines bs in if b == 10 then rest + 1 else rest

-- `day`: dashes between the year, the month and the day
unfoldable pub day : Text → Text
day pid = take 4 pid ++ (45 ∷ take 2 (drop 4 pid)) ++ (45 ∷ take 2 (drop 6 pid))

-- "/ingest_day="
abbrev folder : Text
folder = 47 ∷ 105 ∷ 110 ∷ 103 ∷ 101 ∷ 115 ∷ 116 ∷ 95 ∷ 100 ∷ 97 ∷ 121 ∷ 61 ∷ []

-- ".jsonl.gz", and ".manifest.json" below
abbrev object_suffix : Text
object_suffix = 46 ∷ 106 ∷ 115 ∷ 111 ∷ 110 ∷ 108 ∷ 46 ∷ 103 ∷ 122 ∷ []

abbrev manifest_suffix : Text
manifest_suffix =
    46 ∷ 109 ∷ 97 ∷ 110 ∷ 105 ∷ 102 ∷ 101 ∷ 115 ∷ 116 ∷ 46 ∷ 106 ∷ 115 ∷ 111 ∷ 110 ∷ []

-- The key of an object less its suffix
unfoldable pub object_name : Text → Text → Text → Text
unfolding day
object_name table pid digest =
    table ++ folder ++ day pid ++ (47 ∷ table) ++ (45 ∷ day pid) ++ (45 ∷ take 16 digest)

-- A map over tables and partitions with one value changed
unfoldable pub set_at : {A : Type 0} → Text → Text → A → (Text → Text → A) → Text → Text → A
set_at table pid a f t p = elim (text_dec table t) [
  | no _ ↦ f t p
  | yes _ ↦ elim (text_dec pid p) [ no _ ↦ f t p | yes _ ↦ a ]
]

unfoldable pub put_at : {A : Type 0} → Text → A → (Text → A) → Text → A
put_at key a f k = elim (text_dec key k) [ no _ ↦ f k | yes _ ↦ a ]

-- A method: its result, `none` for an exception, and the state that it leaves
abbrev pub Run : Type 0 → Type 0 → Type 0
Run R A = Archive R → Option A × Archive R

unfoldable pub and_then : {R A B : Type 0} → Run R A → (A → Run R B) → Run R B
and_then f g w = elim (f w).0 [ none ↦ (none, (f w).1) | some a ↦ g a (f w).1 ]

unfoldable pub return : {R A : Type 0} → A → Run R A
return a w = (some a, w)

unfoldable pub raise : {R A : Type 0} → Run R A
raise w = (none, w)

module _ {R : Type 0} (tools : Tools R) where
  -- A call of a service
  unfoldable pub request : {A : Type 0} → (Archive R → A × Archive R) → Run R A
  request f w =
      let w' : Archive R = record w { calls = w.calls + 1 } in
      if tools.raises w.calls then (none, w') else (some (f w').0, (f w').1)

  unfoldable pub manifest : Text → Text → Run R (Option Manifest)
  unfolding request
  manifest table pid = request (λ w. (w.manifests table pid, w))

  -- `_record`
  unfoldable pub record_manifest : Text → Text → Manifest → Run R Unit
  unfolding request set_at
  record_manifest table pid m =
      request (λ w. (tt, record w { manifests = set_at table pid (some m) w.manifests }))

  unfoldable pub hot_count : Text → Text → Run R ℕ
  unfolding request
  hot_count table pid = request (λ w. (length (w.hot table pid), w))

  unfoldable pub put_object : Text → Bytes → Run R Unit
  unfolding request put_at
  put_object key object =
      request (λ w. (tt, record w { objects = put_at key (some object) w.objects }))

  -- What `export` records of the rows that it has read
  unfoldable pub content_of : Text → Text → List R → Content
  unfolding object_name count_lines
  content_of table pid rows =
      let digest = tools.sha256 (tools.compress (tools.dump rows)) in
      record {
        object_key = object_name table pid digest ++ object_suffix;
        rows = count_lines (tools.dump rows);
        sha256 = digest;
      }

  unfoldable pub export : Text → Text → Run R Unit
  unfolding request and_then put_object record_manifest content_of object_name
  export table pid = and_then (request (λ w. (w.hot table pid, w))) (λ rows.
      let content = content_of table pid rows in
      and_then (put_object content.object_key (tools.compress (tools.dump rows))) (λ _.
        and_then
          (put_object (object_name table pid content.sha256 ++ manifest_suffix)
            (tools.describe content))
          (λ _. record_manifest table pid (record { content = content; status = exported }))))

  -- `read_back`: the object, and the rows that it unpacks to
  unfoldable pub read_back : Text → Run R (Bytes × Bytes)
  unfolding request and_then return raise
  read_back key = and_then (request (λ w. (w.objects key, w))) (λ found. elim found [
    | none ↦ raise
    | some object ↦ elim (tools.decompress object) [
      | none ↦ raise
      | some raw ↦ return (object, raw)
    ]
  ])

  -- `digest != m["sha256"] or rows != int(m["rows"])`, negated
  unfoldable pub is_intact : Content → Bytes → Bytes → Bool
  unfolding count_lines
  is_intact c object raw = elim (text_dec (tools.sha256 object) c.sha256) [
    | yes _ ↦ count_lines raw == c.rows
    | no _ ↦ false
  ]

  -- The last `_record` of `verify`
  unfoldable pub record_verified : Text → Text → Content → Bytes → ℕ → Run R Unit
  unfolding request set_at
  record_verified table pid c object hot = request (λ w. (
    tt,
    record w {
      manifests = set_at table pid (some (record { content = c; status = verified })) w.manifests;
      log = was_verified table pid c object hot ∷ w.log;
    },
  ))

  -- `verify`, after the object was read and the hot rows were counted
  unfoldable pub judge : Text → Text → Manifest → Bytes × Bytes → ℕ → Run R Bool
  unfolding and_then return is_intact record_manifest record_verified
  judge table pid m o hot =
      if is_intact m.content o.0 o.1
      then (if hot == count_lines o.1
          then and_then (record_verified table pid m.content o.0 hot) (λ _. return true)
          else and_then (record_manifest table pid (record m { status = stale }))
              (λ _. return false))
      else return false

  unfoldable pub verify : Text → Text → Manifest → Run R Bool
  unfolding and_then read_back hot_count judge
  verify table pid m =
      and_then (read_back m.content.object_key)
        (λ o. and_then (hot_count table pid) (λ hot. judge table pid m o hot))
