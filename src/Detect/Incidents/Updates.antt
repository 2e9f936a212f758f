-- ===== src/Detect/Incidents/Updates.antt =====
-- How a finding updates an open incident.
use ot_security.Common.{
  ℕ, ◌+◌, ◌≤◌, ◌≡◌, ◌⊎◌, refl, not, ◌&&◌, List, [], ◌∷◌, arith, ltb, leb, ltb→lt, ltb_false→le,
  Bool-cases, inl, inr,
}
use ot_security.Detect.Incidents.{
  Finding, Alert, Incident, Config, Kind, escalated, updated, rank_of, severity_of, contains,
  merged, absorb, emit, update,
}

module _ {Rest : Type 0} (st : Incident Rest) (f : Finding Rest) where
  -- The incident keeps its id, never falls in rank and reaches the rank of the finding; either nothing is
  -- emitted and the number stays, or one alert has the next number, the id and the severity.
  pub record IsUpdate (r : Incident Rest × List (Alert Rest)) : Type 0 where
    pub same : r.0.id ≡ st.id
    pub grows : st.rank ≤ r.0.rank
    pub reaches : rank_of f.severity ≤ r.0.rank
    pub numbered :
        ((r.1 ≡ []) × (r.0.seq ≡ st.seq))
        ⊎ ((a : Alert Rest) × (r.1 ≡ a ∷ [])
            × (a.id ≡ st.id)
            × (a.seq ≡ st.seq + 1)
            × (r.0.seq ≡ st.seq + 1)
            × (a.finding.severity ≡ severity_of r.0.rank))

  emit-IsUpdate :
      (rank : ℕ) (kind : Kind)
      → st.rank ≤ rank
      → rank_of f.severity ≤ rank
      → IsUpdate (emit (absorb st f) f rank kind)
  unfolding emit absorb merged
  emit-IsUpdate rank kind grows reaches = record {
    same = refl;
    grows = grows;
    reaches = reaches;
    numbered = inr (_, refl, refl, refl, refl, refl);
  }

  silent-IsUpdate : rank_of f.severity ≤ st.rank → IsUpdate (absorb st f, [])
  unfolding absorb
  silent-IsUpdate reaches = record {
    same = refl;
    grows = omega arith;
    reaches = reaches;
    numbered = inl (refl, refl);
  }

  absorbed_rank : (absorb st f).rank ≡ st.rank
  unfolding absorb
  absorbed_rank = refl

  -- On every branch, a finding for an open incident keeps its id, never lowers its rank and lifts it to
  -- that of the finding; it emits nothing and keeps the number, or emits one alert with the next number,
  -- the id of the incident and the severity of its rank.
  pub update-IsUpdate : (cfg : Config) → IsUpdate (update cfg st f)
  unfolding update
  update-IsUpdate cfg = elim (Bool-cases (ltb (absorb st f).rank (rank_of f.severity))) [
    | inl more ↦ rw more (
        emit-IsUpdate (rank_of f.severity) escalated (omega (arith, absorbed_rank, ltb→lt _ _ more))
          (omega arith))
    | inr less ↦
        let reaches : rank_of f.severity ≤ st.rank =
          omega (arith, absorbed_rank, ltb_false→le _ _ less) in
        let kept : IsUpdate (emit (absorb st f) f (absorb st f).rank updated) =
          emit-IsUpdate (absorb st f).rank updated (omega (arith, absorbed_rank))
            (omega (arith, absorbed_rank)) in
        elim (Bool-cases (not (contains st.subtypes f.subtype))) [
          | inl other ↦ rw (less, other) kept
          | inr same ↦
              elim (Bool-cases (
                leb ((absorb st f).last_emit + cfg.cooldown) f.obs_ms
                && ltb (absorb st f).emitted_count (absorb st f).count)) [
                  | inl due ↦ rw (less, same, due) kept
                  | inr early ↦ rw (less, same, early) (silent-IsUpdate reaches)
                ]
        ]
  ]
