-- ===== src/Consumers/Archive/Safe.antt =====
-- `verify` of consumers/sih_consumers/archive.py, and the reason that it logs.
use ot_security.Common.{ℕ, ◌==◌, ◌≡◌, refl, ◌∙◌, Bool, true, false, some, ◌∷◌, inl, if◌then◌else◌}
use ot_security.Common.Bytes.{Bytes}
use ot_security.Common.Dict.{Text}
use ot_security.Consumers.Archive.{
  stale, verified, Content, Manifest, was_verified, Archive, Tools, count_lines, and_then, return,
  record_manifest, hot_count, read_back, is_intact, record_verified, judge, verify,
}
use ot_security.Consumers.Archive.Justified.{
  Backed, Intact, IsSafe, Post, and_then-Post, request-Post, set_at-IsSafe, logged-IsSafe,
}
use ot_security.Consumers.Archive.Calls.{
  same_number, Any, return-Post, record_manifest-Post, Unpacks, read_back-Post, hot_count-Post,
  is_intact-true,
}

module _ {R : Type 0} (tools : Tools R) where
  record_verified-Post :
      (table pid : Text) (c : Content) (object : Bytes) (hot : ℕ) (w : Archive R)
      → IsSafe tools w
      → Intact tools c object × (hot ≡ c.rows)
      → Post tools Any (record_verified tools table pid c object hot w)
  unfolding record_verified Any Backed
  record_verified-Post table pid c object hot w h j = request-Post tools Any _ w h (λ v k e. (
    set_at-IsSafe tools table pid (record { content = c; status = verified })
        (record v { log = was_verified table pid c object hot ∷ v.log })
        (logged-IsSafe tools (was_verified table pid c object hot) v k j) (object, hot, inl refl),
    tt,
  ))

  judge-Post :
      (table pid : Text) (m : Manifest) (o : Bytes × Bytes) (hot : ℕ) (w : Archive R)
      → IsSafe tools w
      → tools.decompress o.0 ≡ some o.1
      → Post tools Any (judge tools table pid m o hot w)
  unfolding judge Any Backed
  judge-Post table pid m o hot w h d =
      go (is_intact tools m.content o.0 o.1) refl (hot == count_lines o.1) refl
    where
      go :
          (b : Bool)
          → is_intact tools m.content o.0 o.1 ≡ b
          → (c : Bool) → (hot == count_lines o.1) ≡ c
          → Post tools Any (
              (if b
                  then (if c
                      then and_then
                          (record_verified tools table pid m.content o.0 hot)
                          (λ _. return true)
                      else and_then
                          (record_manifest tools table pid (record m { status = stale }))
                          (λ _. return false))
                  else return false)
                w)
      go false e c f = return-Post tools Any false w h tt
      go true e false f =
          and_then-Post tools Any Any
            (record_manifest tools table pid (record m { status = stale })) (λ _. return false) w
            (record_manifest-Post tools table pid (record m { status = stale }) w h tt)
            (λ _ v k _. return-Post tools Any false v k tt)
      go true e true f =
          let t = is_intact-true tools m.content o.0 o.1 e in
          and_then-Post tools Any Any (record_verified tools table pid m.content o.0 hot)
            (λ _. return true) w
            (record_verified-Post table pid m.content o.0 hot w h
              ((t.0, (o.1, (d, t.1))), same_number hot (count_lines o.1) f ∙ t.1))
            (λ _ v k _. return-Post tools Any true v k tt)

  pub verify-Post :
      (table pid : Text) (m : Manifest) (w : Archive R)
      → IsSafe tools w
      → Post tools Any (verify tools table pid m w)
  unfolding verify Any
  verify-Post table pid m w h =
      and_then-Post tools (Unpacks tools) Any (read_back tools m.content.object_key) _ w
        (read_back-Post tools m.content.object_key w h)
        (λ o v k d.
          and_then-Post tools Any Any (hot_count tools table pid) (judge tools table pid m o) v
            (hot_count-Post tools table pid v k) (λ hot u l _. judge-Post table pid m o hot u l d))
