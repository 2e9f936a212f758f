-- ===== src/Detect/FlowDelta/Tests.antt =====
-- A flow of two snapshots, a late one and an end, and each theorem at an input that meets its hypotheses.
use ot_security.Common.{ℕ, ◌≡◌, refl, Bool, true, false, none, some, List, [], ◌∷◌}
use ot_security.Common.Int.{pos, negsuc, ◌+ℤ◌, ◌-ℤ◌}
use ot_security.Detect.FlowDelta.{
  orig_bytes, Config, Event, Effect, live, or_zero, delta, merge, out_of, snapshot, on_event,
  on_timer, start_of, floor_1000, last_obs, limit,
}
use ot_security.Detect.FlowDelta.Peak.{run, add_out, total, peak, total-peak}
use ot_security.Detect.FlowDelta.Order.{IsOrdered, run-IsOrdered}

abbrev cfg : Config
cfg = record { idle_ms = 900000; tombstone_ms = 600000 }

abbrev event : Bool → ℕ → ℕ → Event (Unit {0})
event terminal seq n = record {
  terminal = terminal;
  snapshot_seq = seq;
  counts = λ c. some n;
  event_time_us = pos 5000000;
  offset_us = negsuc 0;
  obs_ms = 7000;
  duration_ms = some (pos 1000);
  conn_state = none;
  info = tt;
}

abbrev later : List (Event (Unit {0}))
later = event false 2 250 ∷ event false 2 300 ∷ event true 0 400 ∷ event false 3 500 ∷ []

-- 100, then 150, then 150 more at the end; the repeated and the late snapshot add nothing.
total_400 : total orig_bytes (run cfg [] none (event false 1 100 ∷ later)) ≡ 400
unfolding total run add_out on_event snapshot out_of or_zero delta merge
total_400 = refl

-- One microsecond before five seconds, less the duration of the snapshot
start_3999 : start_of (event false 1 100) ≡ pos 3999
unfolding start_of floor_1000 ◌+ℤ◌ ◌-ℤ◌
start_3999 = refl

-- A live flow that has been idle for its limit is cleared by the timer, one that has not is kept.
cleared :
    let after : ℕ → Effect (Unit {0}) = on_timer cfg (some (live (λ c. some 100) 1 7000)) in
    ((after 907000).state ≡ none) × ((after 906999).state ≡ some (live (λ c. some 100) 1 7000))
unfolding on_timer last_obs limit
cleared = (refl, refl)

total-peak_example :
    total orig_bytes (run cfg [] none (event false 1 100 ∷ later))
    ≡ peak orig_bytes 0 (run cfg [] none (event false 1 100 ∷ later))
total-peak_example = total-peak cfg [] orig_bytes (event false 1 100) later refl

run-IsOrdered_example : IsOrdered 1 (run cfg [] (some (live (λ c. some 100) 1 7000)) later)
run-IsOrdered_example = run-IsOrdered cfg [] (λ c. some 100) 1 7000 later
