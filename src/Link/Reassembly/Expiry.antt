-- ===== src/Link/Reassembly/Expiry.antt =====
-- `expire` removes exactly the records that are too old.
use ot_security.Common.{
  ℕ, ◌+◌, ◌≤◌, ◌<◌, ◌≡◌, refl, ap, List, [], ◌∷◌, ◌++◌, arith, ltb, ltb→lt, ltb_false→le, map,
  Bool-cases, inl, inr,
}
use ot_security.Common.Dict.{Dict}
use ot_security.Link.Reassembly.{
  Key, key_eq, Entry, Expired, fragment_timeout, Reassembler, expire_loop, expire,
}

abbrev pub AllEntries : (Entry → Type 0) → Dict Key Entry → Type 0
AllEntries P [] = Unit
AllEntries P ((_, p) ∷ d) = P p × AllEntries P d

-- The entries stand in the order in which they were first seen.
abbrev pub IsOldestFirst : Dict Key Entry → Type 0
IsOldestFirst [] = Unit
IsOldestFirst ((_, p) ∷ d) = AllEntries (λ q. p.first_seen_us ≤ q.first_seen_us) d × IsOldestFirst d

abbrev pub timed_out : Key × Entry → Expired
timed_out e = record { reason = fragment_timeout; key = e.0 }

AllEntries-mono :
    (P Q : Entry → Type 0) (d : Dict Key Entry)
    → ((p : Entry) → P p → Q p)
    → AllEntries P d
    → AllEntries Q d
AllEntries-mono P Q [] f a = tt
AllEntries-mono P Q ((_, p) ∷ d) f a = (f p a.0, AllEntries-mono P Q d f a.1)

-- What the loop leaves and reports, for the pending records d.
abbrev pub Split : ℕ → ℕ → Dict Key Entry → Dict Key Entry × List Expired → Type 0
Split timeout_us now_us d r =
    (gone : Dict Key Entry) × (d ≡ gone ++ r.0)
    × (r.1 ≡ map timed_out gone)
    × AllEntries (λ p. p.first_seen_us + timeout_us ≤ now_us) gone
    × AllEntries (λ p. now_us < p.first_seen_us + timeout_us) r.0

expire_loop-Split :
    (timeout_us now_us : ℕ) (d : Dict Key Entry)
    → IsOldestFirst d
    → Split timeout_us now_us d (expire_loop timeout_us now_us d)
unfolding expire_loop
expire_loop-Split timeout_us now_us [] o = ([], refl, refl, tt, tt)
expire_loop-Split timeout_us now_us ((k, p) ∷ d) o =
    elim (Bool-cases (ltb now_us (p.first_seen_us + timeout_us))) [
      | inl young ↦ rw young (
        [],
        refl,
        refl,
        tt,
        (
          ltb→lt _ _ young,
          AllEntries-mono (λ q. p.first_seen_us ≤ q.first_seen_us)
              (λ q. now_us < q.first_seen_us + timeout_us) d
              (λ q l. omega (arith, ltb→lt _ _ young)) o.0,
        ),
      )
      | inr old ↦
          let (gone, parts, out, aged, kept) = expire_loop-Split timeout_us now_us d o.1 in
          rw old (
            (k, p) ∷ gone,
            ap (◌∷◌ (k, p)) parts,
            ap (◌∷◌ (timed_out (k, p))) out,
            (ltb_false→le _ _ old, aged),
            kept,
          )
    ]

-- Of records in the order in which they were first seen, `expire` removes those that have waited for
-- the timeout, reports each as timed out, in order, and leaves the younger ones alone.
pub expire-Split :
    (r : Reassembler) (now_us : ℕ)
    → IsOldestFirst r.pending
    → Split r.timeout_us now_us r.pending ((expire r now_us).0.pending, (expire r now_us).1)
unfolding expire
expire-Split r now_us o = expire_loop-Split r.timeout_us now_us r.pending o
