-- ===== src/Detect/Scan/Timer.antt =====
-- `on_timer` of flink/sih_detect/scan.py, and the histories of a source.
use ot_security.Common.{
  ℕ, ◌+◌, ◌-◌, ◌==◌, Bool, ◌&&◌, Option, none, some, List, [], ◌∷◌, leb, if◌then◌else◌,
}
use ot_security.Common.Dict.{Text, text_eq, Dict, erase}
use ot_security.Detect.Scan.{ScanConfig, Delta, Scan, split_bar, remove, on_event, empty}

-- A pair that has expired
unfoldable pub forget : Text → Scan → Scan
unfolding split_bar remove
forget pair m =
    let key = split_bar pair in
    record m {
      pairs = erase pair m.pairs;
      n = m.n - 1;
      port_hosts = remove key.1 m.port_hosts;
      host_ports = remove key.0 m.host_ports;
    }

-- The loop over the copy of the pairs
unfoldable pub expire : ℕ → Dict Text ℕ → Scan → Scan
unfolding forget
expire cutoff [] m = m
expire cutoff ((pair, seen) ∷ rest) m =
    if leb cutoff seen then expire cutoff rest m else expire cutoff rest (forget pair m)

-- `on_timer`: the state, `none` once it is cleared, and the next timer. The cutoff is `ts - scan_horizon_ms`.
unfoldable pub on_timer : ScanConfig → ℕ → Scan → Option Scan × Option ℕ
unfolding expire
on_timer cfg ts m =
    let m' : Scan = expire (ts - cfg.scan_horizon_ms) m.pairs m in
    if m'.n == 0
    then (none, none)
    else (some (record m' { capped = m'.capped && leb cfg.scan_pair_cap m'.n }), some (ts + 5000))

-- The deltas of a source and its timers, in the order in which they are handled
pub data Step : Type 0 where
  delta_step : (allowed : Bool) (delta : Delta) → Step
  timer_step : (ts : ℕ) → Step

module _ (is_high_ratio : ℕ → ℕ → Bool) where
  -- A source without a state is given the empty one by a new flow, and its timers do nothing.
  unfoldable pub step : ScanConfig → Step → Option Scan → Option Scan
  unfolding on_event on_timer
  step cfg (delta_step allowed d) none =
      if d.new_flow then some (on_event is_high_ratio allowed cfg d empty).0 else none
  step cfg (delta_step allowed d) (some m) = some (on_event is_high_ratio allowed cfg d m).0
  step cfg (timer_step ts) none = none
  step cfg (timer_step ts) (some m) = (on_timer cfg ts m).0

  unfoldable pub run : ScanConfig → List Step → Option Scan → Option Scan
  unfolding step
  run cfg [] o = o
  run cfg (s ∷ ss) o = run cfg ss (step cfg s o)
