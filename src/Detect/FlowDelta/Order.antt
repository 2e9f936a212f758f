-- ===== src/Detect/FlowDelta/Order.antt =====
-- The order of the outputs of a flow over its events.
use ot_security.Common.{ℕ, ◌<◌, ◌≡◌, ◌⊎◌, refl, true, false, some, List, [], ◌∷◌, inl, inr}
use ot_security.Common.Dict.{Text}
use ot_security.Detect.FlowDelta.{Counts, Config, Event, Out, live, out_of, merge}
use ot_security.Detect.FlowDelta.Peak.{run, run-step}

module _ {Info : Type 0} where
  -- Snapshot numbers rise from n on, and nothing comes behind a terminal record.
  abbrev pub IsOrdered : ℕ → List (Out Info) → Type 0
  IsOrdered n [] = Unit
  IsOrdered n (o ∷ os) =
      ((o.terminal ≡ true) × (os ≡ []))
      ⊎ ((o.terminal ≡ false) × (n < o.event.snapshot_seq) × IsOrdered o.event.snapshot_seq os)

  -- Over events of a live flow with no timer between them, the outputs have rising snapshot numbers, above that of
  -- its state, and end with the terminal record, if there is one.
  pub run-IsOrdered :
      (cfg : Config) (key : Text) (prev : Counts) (seq at : ℕ) (evs : List (Event Info))
      → IsOrdered seq (run cfg key (some (live prev seq at)) evs)
  unfolding run out_of
  run-IsOrdered cfg key prev seq at [] = tt
  run-IsOrdered cfg key prev seq at (ev ∷ evs) = elim (run-step cfg key prev seq at ev evs) [
    | inl same ↦ rw same (run-IsOrdered cfg key prev seq at evs)
    | inr (inl (last, e)) ↦ rw e (inl (last, refl))
    | inr (inr (more, newer, e)) ↦ rw e (
        inr (
          more,
          newer,
          run-IsOrdered cfg key (λ k. merge (prev k) (ev.counts k)) ev.snapshot_seq ev.obs_ms evs,
        ))
  ]
