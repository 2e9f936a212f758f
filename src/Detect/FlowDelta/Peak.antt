-- ===== src/Detect/FlowDelta/Peak.antt =====
-- What the deltas of a flow add up to.
use ot_security.Common.{
  ℕ, ◌+◌, ◌<◌, ◌⊎◌, max, ◌≡◌, refl, ap, ◌∙◌, Bool, true, false, not, ◌&&◌, Option, none, some, List,
  [], ◌∷◌, arith, ltb, leb, Bool-cases, if_true, if_false, inl, inr, ltb→lt, ltb_false→le,
}
use ot_security.Common.Dict.{Text}
use ot_security.Detect.FlowDelta.{
  Counter, Counts, Config, Event, State, Out, Effect, live, ended, or_zero, delta, merge, out_of,
  snapshot, on_event,
}

-- `out` is a list of at most one record.
unfoldable pub add_out : {Info : Type 0} → Option (Out Info) → List (Out Info) → List (Out Info)
add_out none os = os
add_out (some o) os = o ∷ os

module _ {Info : Type 0} (cfg : Config) (key : Text) where
  -- The outputs of the events of a flow, one after the other.
  unfoldable pub run : Option State → List (Event Info) → List (Out Info)
  run st [] = []
  run st (ev ∷ evs) =
      let e = on_event cfg key st ev in let rest = run e.state evs in add_out e.out rest

module _ {Info : Type 0} (c : Counter) where
  -- The sum of the deltas of a counter.
  unfoldable pub total : List (Out Info) → ℕ
  total [] = 0
  total (o ∷ os) = or_zero (o.d c) + total os

  -- The largest value of the counter in the events of the outputs, or p.
  unfoldable pub peak : ℕ → List (Out Info) → ℕ
  peak p [] = p
  peak p (o ∷ os) = peak (max p (or_zero (o.event.counts c))) os

or_zero-delta :
    (prev cur : Option ℕ)
    → or_zero prev + or_zero (delta prev cur) ≡ max (or_zero prev) (or_zero cur)
unfolding or_zero delta
or_zero-delta prev none = omega arith
or_zero-delta prev (some n) = elim (Bool-cases (ltb n (or_zero prev))) [
  | inl less ↦ rw less (omega (arith, ltb→lt _ _ less))
  | inr more ↦ rw more (omega (arith, ltb_false→le _ _ more))
]

or_zero-merge : (prev cur : Option ℕ) → or_zero (merge prev cur) ≡ max (or_zero prev) (or_zero cur)
unfolding or_zero merge
or_zero-merge prev none = omega arith
or_zero-merge prev (some n) = refl

counted :
    (prev cur : Option ℕ) (sum top : ℕ)
    → max (or_zero prev) (or_zero cur) + sum ≡ top
    → or_zero prev + (or_zero (delta prev cur) + sum) ≡ top
counted prev cur sum top e = omega (arith, e, or_zero-delta prev cur)

module _ {Info : Type 0} (cfg : Config) (key : Text) where
  run-ended : (at : ℕ) (evs : List (Event Info)) → run cfg key (some (ended at)) evs ≡ []
  unfolding run on_event add_out
  run-ended at [] = refl
  run-ended at (ev ∷ evs) = run-ended at evs

  abbrev merged : Counts → Event Info → Counts
  merged prev ev = λ k. merge (prev k) (ev.counts k)

  -- What a live flow does with its next event: it drops an old snapshot, ends with a terminal record, or
  -- goes on with a newer snapshot.
  pub run-step :
      (prev : Counts) (seq at : ℕ) (ev : Event Info) (evs : List (Event Info))
      → let outs = run cfg key (some (live prev seq at)) (ev ∷ evs) in
        (outs ≡ run cfg key (some (live prev seq at)) evs)
        ⊎ ((ev.terminal ≡ true) × (outs ≡ out_of key prev false ev ∷ []))
        ⊎ ((ev.terminal ≡ false)
            × (seq < ev.snapshot_seq)
            × (outs
                ≡ out_of key prev false ev
                  ∷ run cfg key (some (live (merged prev ev) ev.snapshot_seq ev.obs_ms)) evs))
  unfolding run on_event snapshot add_out
  run-step prev seq at ev evs =
      let old_test = not ev.terminal && leb ev.snapshot_seq seq in
      let goes_on : Effect Info → List (Out Info) = λ e. add_out e.out (run cfg key e.state evs) in
      elim (Bool-cases old_test) [
        | inl old ↦ inl (ap goes_on (if_true old_test _ _ old))
        | inr new ↦ inr (elim (Bool-cases ev.terminal) [
          | inl last ↦ inl (
            last,
            ap goes_on (if_false old_test _ _ new ∙ if_true ev.terminal _ _ last)
                ∙ ap (◌∷◌ (out_of key prev false ev)) (run-ended ev.obs_ms evs),
          )
          | inr more ↦ inr (
            more,
            newer ev.terminal ev.snapshot_seq more new,
            ap goes_on (if_false old_test _ _ new ∙ if_false ev.terminal _ _ more),
          )
        ])
      ]
    where
      newer : (t : Bool) (n : ℕ) → t ≡ false → (not t && leb n seq) ≡ false → seq < n
      newer t n more h = ground arith

  pub run-first :
      (ev : Event Info) (evs : List (Event Info))
      → ev.terminal ≡ false
      → run cfg key none (ev ∷ evs)
        ≡ out_of key (λ k. none) true ev
          ∷ run cfg key (some (live (merged (λ k. none) ev) ev.snapshot_seq ev.obs_ms)) evs
  unfolding run on_event snapshot add_out
  run-first ev evs first =
      let goes_on : Effect Info → List (Out Info) = λ e. add_out e.out (run cfg key e.state evs) in
      ap goes_on (if_false ev.terminal _ _ first)

module _ {Info : Type 0} (cfg : Config) (key : Text) (c : Counter) where
  run-live :
      (prev : Counts) (seq at : ℕ) (evs : List (Event Info))
      → let outs = run cfg key (some (live prev seq at)) evs in
        or_zero (prev c) + total c outs ≡ peak c (or_zero (prev c)) outs
  unfolding run total peak out_of
  run-live prev seq at [] = omega arith
  run-live prev seq at (ev ∷ evs) = elim (run-step cfg key prev seq at ev evs) [
    | inl same ↦ rw same (run-live prev seq at evs)
    | inr (inl (last, e)) ↦ rw e (omega (arith, or_zero-delta (prev c) (ev.counts c)))
    | inr (inr (more, newer, e)) ↦
        let rest = run-live (merged cfg key prev ev) ev.snapshot_seq ev.obs_ms evs in
        rw e
          (counted (prev c) (ev.counts c) _ _ (rw (or_zero-merge (prev c) (ev.counts c)) at rest))
  ]

  -- The deltas of a flow whose first event is a snapshot add up, for each counter, to the largest value
  -- that an event with an output reported: traffic is counted once, whatever comes late, twice or
  -- after the terminal record, as long as no timer clears the state.
  pub total-peak :
      (ev : Event Info) (evs : List (Event Info))
      → ev.terminal ≡ false
      → total c (run cfg key none (ev ∷ evs)) ≡ peak c 0 (run cfg key none (ev ∷ evs))
  unfolding total peak out_of or_zero
  total-peak ev evs first =
      let rest = run-live (merged cfg key (λ k. none) ev) ev.snapshot_seq ev.obs_ms evs in
      rw (run-first cfg key ev evs first) (
        omega
          (arith, counted none (ev.counts c) _ _ (rw (or_zero-merge none (ev.counts c)) at rest)))
