-- ===== src/Detect/Scan.antt =====
-- flink/sih_detect/scan.py: the pairs of host and port that a source has contacted, with the counts of hosts on each
-- port and of ports on each host. The fields of a finding that are only copied are left out.
pub mod Timer
mod Counts
mod Counted
mod Expiry
mod Tests
use ot_security.Common.{
  ℕ, zero, suc, ◌+◌, ◌-◌, ◌*◌, ◌/◌, ◌==◌, Bool, true, false, not, ◌&&◌, ◌||◌, Option, none, some,
  List, [], ◌∷◌, ◌++◌, length, drop, max, ltb, leb, if◌then◌else◌,
}
use ot_security.Common.Dict.{Text, text_dec, text_eq, Dict, lookup, insert, erase}

pub record ScanConfig : Type 0 where
  pub scan_horizon_ms : ℕ
  pub scan_host_threshold : ℕ
  pub scan_port_threshold : ℕ
  pub scan_pair_cap : ℕ
  pub feature_min_interval_ms : ℕ

-- A delta of a flow; `port_key` is the text of its port and protocol, `failed` tells whether the connection's state is
-- one of FAILED_STATES.
pub record Delta : Type 0 where
  pub new_flow : Bool
  pub dst : Text
  pub port_key : Text
  pub obs_ms : ℕ
  pub terminal : Bool
  pub both_directions : Bool
  pub has_state : Bool
  pub failed : Bool
  pub event_id : Text

-- A map of counts, with the number of its keys that `meta` keeps
pub record Tally : Type 0 where
  pub counts : Dict Text ℕ
  pub size : ℕ

-- What was last emitted for a subtype
pub record Level : Type 0 where
  pub rank : Option ℕ
  pub emitted : ℕ

-- The maps, and `meta`
pub record Scan : Type 0 where
  pub pairs : Dict Text ℕ
  pub port_hosts : Tally
  pub host_ports : Tally
  pub n : ℕ
  pub capped : Bool
  pub failed : ℕ
  pub known : ℕ
  pub horizontal : Level
  pub vertical : Level
  pub ids : List Text
  pub last_feature : Option ℕ

pub data Subtype : Type 0 where
  horizontal_scan vertical_scan : Subtype

pub data Severity : Type 0 where
  info medium high : Severity

pub record Finding : Type 0 where
  pub subtype : Subtype
  pub count : ℕ
  pub severity : Severity
  pub distinct_pairs : ℕ

-- `pair.split("|", 1)`. A text without a bar, on which the source raises, is no key of the pairs.
unfoldable pub split_bar : Text → Text × Text
split_bar [] = ([], [])
split_bar (c ∷ cs) = let rest = split_bar cs in if c == 124 then ([], cs) else (c ∷ rest.0, rest.1)

unfoldable pub pair_of : Text → Text → Text
pair_of dst port_key = dst ++ (124 ∷ port_key)

-- `c or 0` and `mp.get(k) or 1`
unfoldable pub or_zero : Option ℕ → ℕ
or_zero none = 0
or_zero (some c) = c

unfoldable pub or_one : Option ℕ → ℕ
or_one none = 1
or_one (some c) = if c == 0 then 1 else c

-- One more of a key
unfoldable pub add : Text → Tally → Tally
unfolding or_zero
add k t =
    let c = lookup k t.counts in
    record {
      counts = insert k (or_zero c + 1) t.counts;
      size = elim c [ none ↦ t.size + 1 | some _ ↦ t.size ];
    }

-- One less of a key
unfoldable pub remove : Text → Tally → Tally
unfolding or_one
remove k t =
    let c = or_one (lookup k t.counts) - 1 in
    if c == 0
    then record { counts = erase k t.counts; size = t.size - 1 }
    else record t { counts = insert k c t.counts }

-- The pairs of `on_event`, and whether the cap was reached
unfoldable pub contact : ScanConfig → Delta → Scan → Scan
unfolding add pair_of
contact cfg d m =
    let pair = pair_of d.dst d.port_key in
    elim (lookup pair m.pairs) [
      | some prev ↦ record m { pairs = insert pair (max prev d.obs_ms) m.pairs }
      | none ↦ if leb cfg.scan_pair_cap m.n then record m { capped = true } else record m {
        pairs = insert pair d.obs_ms m.pairs;
        n = m.n + 1;
        port_hosts = add d.port_key m.port_hosts;
        host_ports = add d.dst m.host_ports;
      }
    ]

-- The counts of the outcomes that are known
unfoldable pub outcome : Delta → Scan → Scan
outcome d m =
    if d.terminal && (d.both_directions && d.has_state)
    then record m { known = m.known + 1; failed = if d.failed then m.failed + 1 else m.failed }
    else m

unfoldable pub is_listed : Text → List Text → Bool
is_listed t [] = false
is_listed t (x ∷ xs) =
    let rest = is_listed t xs in elim (text_dec t x) [ yes _ ↦ true | no _ ↦ rest ]

-- `append_ids` of common.py, with its cap of 32
unfoldable pub append_ids : List Text → Text → List Text
unfolding is_listed
append_ids ids event_id =
    let all = if is_listed event_id ids then ids else ids ++ (event_id ∷ []) in
    drop (length all - 32) all

-- SEVERITY_RANK
unfoldable pub rank_of : Severity → ℕ
rank_of info = 0
rank_of medium = 2
rank_of high = 3

-- `rank <= levels.get(subtype, -1)`
unfoldable pub reached : ℕ → Option ℕ → Bool
reached rank none = false
reached rank (some r) = leb rank r

-- `ph.get(port_key) or 0` and `hp.get(dst) or 0`
unfoldable pub count_in : Text → Tally → ℕ
unfolding or_zero
count_in k t = or_zero (lookup k t.counts)

-- `failed_ratio >= 0.8`, a test of floating point, and whether the inventory allows the source to scan
module _ (is_high_ratio : ℕ → ℕ → Bool) (allowed : Bool) where
  unfoldable pub severity_of : Bool → Scan → ℕ → ℕ → Severity
  severity_of both m count thr =
      if allowed
      then info
      else if leb (5 * thr) count
          || ((both && ltb 0 m.known) && (is_high_ratio m.failed m.known && leb (2 * thr) count))
      then high
      else medium

  -- One round of the loop over `checks`: what it remembers, and what it emits
  unfoldable pub check : Subtype → Bool → Scan → ℕ → ℕ → Level → Level × List Finding
  unfolding severity_of rank_of reached
  check subtype both m count thr l =
      let sev = severity_of both m count thr in
      if ltb count thr || (reached (rank_of sev) l.rank && ltb count (2 * l.emitted))
      then (l, [])
      else (
        record { rank = some (rank_of sev); emitted = count },
        record { subtype = subtype; count = count; severity = sev; distinct_pairs = m.n } ∷ [],
      )

  -- `rate_limited` of alerts.py: whether a feature record is due
  unfoldable pub is_due : ScanConfig → Delta → Scan → Bool
  is_due cfg d m = elim m.last_feature [
    | none ↦ true
    | some last ↦ leb (last + cfg.feature_min_interval_ms) d.obs_ms
  ]

  -- The feature record, when a count is half of its threshold
  unfoldable pub feature : ScanConfig → Delta → Scan → Scan × Bool
  unfolding count_in is_due
  feature cfg d m =
      let near =
        leb cfg.scan_host_threshold (2 * count_in d.port_key m.port_hosts)
        || leb cfg.scan_port_threshold (2 * count_in d.dst m.host_ports) in
      if near && is_due cfg d m
      then (record m { last_feature = some d.obs_ms }, true)
      else (m, false)

  -- `on_event` for a new flow
  unfoldable pub observe : ScanConfig → Delta → Scan → Scan × List Finding × Bool × Option ℕ
  unfolding contact outcome append_ids count_in check feature
  observe cfg d m =
      let c = outcome d (contact cfg d m) in
      let m' : Scan = record c { ids = append_ids c.ids d.event_id } in
      let h =
        check horizontal_scan d.both_directions m' (count_in d.port_key m'.port_hosts)
          cfg.scan_host_threshold m'.horizontal in
      let v =
        check vertical_scan d.both_directions m' (count_in d.dst m'.host_ports)
          cfg.scan_port_threshold m'.vertical in
      let f = feature cfg d (record m' { horizontal = h.0; vertical = v.0 }) in
      (f.0, h.1 ++ v.1, f.1, some ((d.obs_ms / 5000 + 1) * 5000))

  -- The state, the findings, whether a feature record is emitted, and the timer
  unfoldable pub on_event : ScanConfig → Delta → Scan → Scan × List Finding × Bool × Option ℕ
  unfolding observe
  on_event cfg d m = if d.new_flow then observe cfg d m else (m, [], false, none)

-- The state of a source that is not known
unfoldable pub empty : Scan
empty = record {
  pairs = [];
  port_hosts = record { counts = []; size = 0 };
  host_ports = record { counts = []; size = 0 };
  n = 0;
  capped = false;
  failed = 0;
  known = 0;
  horizontal = record { rank = none; emitted = 0 };
  vertical = record { rank = none; emitted = 0 };
  ids = [];
  last_feature = none;
}
