-- ===== src/Detect/Scan/Tests.antt =====
-- Runs of the scan detector, and the theorem of its counts at one of them.
use ot_security.Common.{
  ℕ, ◌*◌, ◌≡◌, refl, Bool, true, false, Option, none, some, List, [], ◌∷◌, map, ltb, All,
}
use ot_security.Common.Dict.{Text}
use ot_security.Detect.Scan.{ScanConfig, Delta, Scan}
use ot_security.Detect.Scan.Timer.{Step, delta_step, timer_step, step, run}
use ot_security.Detect.Scan.Expiry.{IsKey, run-IsKey}

abbrev config : ScanConfig
config = record {
  scan_horizon_ms = 30000;
  scan_host_threshold = 2;
  scan_port_threshold = 3;
  scan_pair_cap = 3;
  feature_min_interval_ms = 1000;
}

abbrev delta : ℕ → ℕ → ℕ → Delta
delta host port obs = record {
  new_flow = true;
  dst = host ∷ [];
  port_key = port ∷ [];
  obs_ms = obs;
  terminal = true;
  both_directions = true;
  has_state = true;
  failed = true;
  event_id = obs ∷ [];
}

-- Two hosts on port 1, two ports of host 5, one contact too many, and a timer that forgets the first
abbrev steps : List Step
steps =
    delta_step false (delta 5 1 1000)
    ∷ delta_step false (delta 6 1 20000)
    ∷ delta_step false (delta 5 2 21000)
    ∷ delta_step false (delta 7 2 22000)
    ∷ timer_step 40000
    ∷ []

abbrev high_ratio : ℕ → ℕ → Bool
high_ratio failed known = ltb known (2 * failed)

abbrev after_steps : Option Scan
after_steps = run high_ratio config steps none

run-IsKey_example : IsKey config after_steps
run-IsKey_example =
    run-IsKey high_ratio config steps
      ((refl, tt), ((refl, tt), ((refl, tt), ((refl, tt), (tt, tt)))))

abbrev numbers : Option Scan → List ℕ
numbers none = []
numbers (some m) = m.n ∷ m.port_hosts.size ∷ m.host_ports.size ∷ m.known ∷ []

two_pairs_left : numbers after_steps ≡ 2 ∷ 2 ∷ 2 ∷ 4 ∷ []
unfolding run step ot_security.Common.Dict.lookup ot_security.Detect.Scan.empty
    ot_security.Common.Dict.insert ot_security.Common.Dict.text_dec ot_security.Common.ℕ_discrete
two_pairs_left = refl
