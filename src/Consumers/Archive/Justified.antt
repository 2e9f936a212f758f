-- ===== src/Consumers/Archive/Justified.antt =====
-- The reasons for the events in the log of an archive (consumers/sih_consumers/archive.py).
use ot_security.Common.{
  ℕ, ◌+◌, ◌≡◌, refl, subst, Bool, true, false, Option, none, some, List, [], ◌∷◌, inr,
  if◌then◌else◌,
}
use mathlib.Core.Option.{some-injective}
use ot_security.Common.Members.{In}
use ot_security.Common.Bytes.{Bytes}
use ot_security.Common.Dict.{Text, text_dec}
use ot_security.Consumers.Archive.{
  Status, exported, stale, verified, deleted_hot, Content, Manifest, Event, was_verified,
  was_dropped, was_restored, Archive, Tools, text_lt, count_lines, set_at, Run, and_then, request,
}

-- The partition was verified with this content.
abbrev pub Seen : Text → Text → Content → List Event → Type 0
Seen table pid c log =
    (object : Bytes) × (hot_rows : ℕ) × In (was_verified table pid c object hot_rows) log

unfoldable pub Backed : Text → Text → Manifest → List Event → Type 0
Backed table pid m log = elim m.status [
  | exported ↦ Unit
  | stale ↦ Unit
  | verified ↦ Seen table pid m.content log
  | deleted_hot ↦ Seen table pid m.content log
]

module _ {R : Type 0} (tools : Tools R) where
  -- An object has the digest of a manifest, and unpacks to as many lines as the manifest says.
  abbrev pub Intact : Content → Bytes → Type 0
  Intact c object =
      (tools.sha256 object ≡ c.sha256)
      × ((raw : Bytes) × ((tools.decompress object ≡ some raw) × (count_lines raw ≡ c.rows)))

  -- The reason for an event, with what happened before it
  abbrev pub JustifiedBy : Event → List Event → Type 0
  JustifiedBy (was_verified table pid c object hot_rows) log = Intact c object × (hot_rows ≡ c.rows)
  JustifiedBy (was_dropped table pid c cutoff) log =
      (text_lt pid cutoff ≡ true) × Seen table pid c log
  JustifiedBy (was_restored table pid c object) log = Intact c object

  abbrev pub Justified : List Event → Type 0
  Justified [] = Unit
  Justified (e ∷ log) = JustifiedBy e log × Justified log

  pub record IsSafe (w : Archive R) : Type 0 where
    pub justified : Justified w.log
    pub backed :
        (table pid : Text) (m : Manifest)
        → w.manifests table pid ≡ some m
        → Backed table pid m w.log

  -- What a method leaves: a safe state, and more of its result
  unfoldable pub Post : {A : Type 0} → (A → List Event → Type 0) → Option A × Archive R → Type 0
  Post Q (none, w) = IsSafe w
  Post Q (some a, w) = IsSafe w × Q a w.log

  pub and_then-Post :
      {A B : Type 0} (Q : A → List Event → Type 0) (S : B → List Event → Type 0) (f : Run R A)
      (g : A → Run R B) (w : Archive R)
      → Post Q (f w)
      → ((a : A) (w' : Archive R) → IsSafe w' → Q a w'.log → Post S (g a w'))
      → Post S (and_then f g w)
  unfolding and_then Post
  and_then-Post {A = A} {B = B} Q S f g w h k = go (f w) h
    where
      go :
          (o : Option A × Archive R)
          → Post Q o
          → Post S
              (elim o.0 as (λ _. Option B × Archive R) [ none ↦ (none, o.1) | some a ↦ g a o.1 ])
      go (none, w') h' = h'
      go (some a, w') (h', q) = k a w' h' q

  pub request-Post :
      {A : Type 0} (Q : A → List Event → Type 0) (f : Archive R → A × Archive R) (w : Archive R)
      → IsSafe w
      → ((w' : Archive R) → IsSafe w' → w'.log ≡ w.log → IsSafe (f w').1 × Q (f w').0 (f w').1.log)
      → Post Q (request tools f w)
  unfolding request Post
  request-Post Q f w h k = go (tools.raises w.calls)
    where
      called : Archive R
      called = record w { calls = w.calls + 1 }

      safe : IsSafe called
      safe = record { justified = h.justified; backed = h.backed }

      go : (b : Bool) → Post Q (if b then (none, called) else (some (f called).0, (f called).1))
      go true = safe
      go false = k called safe refl

  -- A manifest that is backed takes the place of another.
  set_at-Backed :
      (table pid : Text) (m : Manifest) (manifests : Text → Text → Option Manifest)
      (log : List Event)
      → Backed table pid m log
      → ((t p : Text) (n : Manifest) → manifests t p ≡ some n → Backed t p n log)
      → (t p : Text) (n : Manifest) → set_at table pid (some m) manifests t p ≡ some n
      → Backed t p n log
  unfolding set_at
  set_at-Backed table pid m manifests log b h t p n = go (text_dec table t) (text_dec pid p)
    where
      go :
          (d : Dec (table ≡ t)) (e : Dec (pid ≡ p))
          → elim d as (λ _. Option Manifest) [
            | no _ ↦ manifests t p
            | yes _ ↦ elim e as (λ _. Option Manifest) [ no _ ↦ manifests t p | yes _ ↦ some m ]
          ]
            ≡ some n
          → Backed t p n log
      go (no _) e q = h t p n q
      go (yes d) (no _) q = h t p n q
      go (yes d) (yes e) q =
          subst (λ x. Backed t p x log) (some-injective m n q)
            (subst (λ x. Backed t x m log) e (subst (λ x. Backed x pid m log) d b))

  pub Backed-later :
      (table pid : Text) (m : Manifest) (e : Event) (log : List Event)
      → Backed table pid m log
      → Backed table pid m (e ∷ log)
  unfolding Backed
  Backed-later table pid m e log = go m.status
    where
      As : Status → List Event → Type 0
      As s l = elim s [
        | exported ↦ Unit
        | stale ↦ Unit
        | verified ↦ Seen table pid m.content l
        | deleted_hot ↦ Seen table pid m.content l
      ]

      go : (s : Status) → As s log → As s (e ∷ log)
      go exported b = tt
      go stale b = tt
      go verified (o, n, i) = (o, n, inr i)
      go deleted_hot (o, n, i) = (o, n, inr i)

  pub set_at-IsSafe :
      (table pid : Text) (m : Manifest) (w : Archive R)
      → IsSafe w
      → Backed table pid m w.log
      → IsSafe (record w { manifests = set_at table pid (some m) w.manifests })
  set_at-IsSafe table pid m w h b = record {
    justified = h.justified;
    backed = set_at-Backed table pid m w.manifests w.log b h.backed;
  }

  -- An event with a reason
  pub logged-IsSafe :
      (e : Event) (w : Archive R)
      → IsSafe w
      → JustifiedBy e w.log
      → IsSafe (record w { log = e ∷ w.log })
  logged-IsSafe e w h j = record {
    justified = (j, h.justified);
    backed = λ t p m q. Backed-later t p m e w.log (h.backed t p m q);
  }
