-- ===== src/Detect/FlowDelta.antt =====
-- flink/sih_detect/flowdelta.py: the deltas of the cumulative counters of a flow.
pub mod Peak
pub mod Order
mod Tests
use ot_security.Common.{
  ℕ, ◌+◌, ◌-◌, ◌*◌, ◌/◌, max, Bool, true, false, not, ◌&&◌, Option, none, some, List, [], ◌∷◌, ◌++◌,
  ltb, leb, if◌then◌else◌,
}
use ot_security.Common.Int.{ℤ, pos, negsuc, ◌+ℤ◌, ◌-ℤ◌}
use ot_security.Common.Dict.{Text}

-- `COUNTERS`
pub data Counter : Type 0 where
  orig_bytes resp_bytes orig_pkts resp_pkts : Counter

abbrev pub counters : List Counter
counters = orig_bytes ∷ resp_bytes ∷ orig_pkts ∷ resp_pkts ∷ []

-- The value of each counter; `none` is a missing key or a null.
abbrev pub Counts : Type 0
Counts = Counter → Option ℕ

pub data Metric : Type 0 where
  late_after_terminal duplicate_snapshot counter_regression state_expired : Metric

-- What `on_event` reads of an event. `duration_ms` is `int(p["duration_s"] * 1000)`, where a duration is
-- given; the fields that are only copied to the output are `info`.
pub record Event (Info : Type 0) : Type 0 where
  pub terminal : Bool
  pub snapshot_seq : ℕ
  pub counts : Counts
  pub event_time_us : ℤ
  pub offset_us : ℤ
  pub obs_ms : ℕ
  pub duration_ms : Option ℤ
  pub conn_state : Option Text
  pub info : Info

-- The value of the state "flow". The update of a terminal record leaves `term` and `last_obs` only.
pub data State : Type 0 where
  live : Counts → ℕ → ℕ → State
  ended : ℕ → State

pub record Config : Type 0 where
  pub idle_ms : ℕ
  pub tombstone_ms : ℕ

-- The record that is emitted; `event` stands for the fields that are copied.
pub record Out (Info : Type 0) : Type 0 where
  pub flow_id : Text
  pub event : Event Info
  pub start_ms : ℤ
  pub new_flow : Bool
  pub terminal : Bool
  pub conn_state : Option Text
  pub d : Counts

-- What a call does: the new state, the metrics, a timer and the output.
pub record Effect (Info : Type 0) : Type 0 where
  pub state : Option State
  pub metrics : List Metric
  pub timer : Option ℕ
  pub out : Option (Out Info)

-- `_bucket_up`
unfoldable pub bucket_up : ℕ → ℕ
bucket_up ts_ms = (ts_ms / 10000 + 1) * 10000

-- `n // 1000`, which rounds down also below zero
unfoldable pub floor_1000 : ℤ → ℤ
floor_1000 (pos n) = pos (n / 1000)
floor_1000 (negsuc n) = negsuc (n / 1000)

-- `prev.get(c) or 0`
unfoldable pub or_zero : Option ℕ → ℕ
or_zero none = 0
or_zero (some n) = n

-- `deltas[c]`, from the previous and the current value
unfoldable pub delta : Option ℕ → Option ℕ → Option ℕ
delta prev none = none
delta prev (some cur) = if ltb cur (or_zero prev) then some 0 else some (cur - or_zero prev)

unfoldable pub merge : Option ℕ → Option ℕ → Option ℕ
merge prev none = prev
merge prev (some cur) = some (max (or_zero prev) cur)

unfoldable pub regressed : Option ℕ → Option ℕ → Bool
regressed prev none = false
regressed prev (some cur) = ltb cur (or_zero prev)

-- One metric for each counter that moved backwards
unfoldable pub regressions : Counts → Counts → List Counter → List Metric
regressions prev cur [] = []
regressions prev cur (c ∷ cs) =
    let rest = regressions prev cur cs in
    if regressed (prev c) (cur c) then counter_regression ∷ rest else rest

unfoldable pub last_obs : State → ℕ
last_obs (live _ _ at) = at
last_obs (ended at) = at

unfoldable pub limit : Config → State → ℕ
limit cfg (live _ _ _) = cfg.idle_ms
limit cfg (ended _) = cfg.tombstone_ms

module _ {Info : Type 0} where
  unfoldable pub start_of : Event Info → ℤ
  start_of ev =
      let start_ms = floor_1000 (ev.event_time_us +ℤ ev.offset_us) in
      if ev.terminal
      then start_ms
      else elim ev.duration_ms [ none ↦ start_ms | some ms ↦ start_ms -ℤ ms ]

  unfoldable pub out_of : Text → Counts → Bool → Event Info → Out Info
  out_of key prev new_flow ev = record {
    flow_id = key;
    event = ev;
    start_ms = start_of ev;
    new_flow = new_flow;
    terminal = ev.terminal;
    conn_state = if ev.terminal then ev.conn_state else none;
    d = λ c. delta (prev c) (ev.counts c);
  }

  abbrev pub dropped : State → Metric → Effect Info
  dropped st m = record { state = some st; metrics = m ∷ []; timer = none; out = none }

  -- The record of a snapshot, and of a terminal record in the state `st`.
  unfoldable pub snapshot : Config → Text → Counts → Bool → Event Info → Effect Info
  snapshot cfg key prev new_flow ev = record {
    state = some (live (λ c. merge (prev c) (ev.counts c)) ev.snapshot_seq ev.obs_ms);
    metrics = regressions prev ev.counts counters;
    timer = some (bucket_up (ev.obs_ms + cfg.idle_ms));
    out = some (out_of key prev new_flow ev);
  }

  unfoldable pub on_event : Config → Text → Option State → Event Info → Effect Info
  on_event cfg key none ev =
      if ev.terminal
      then record {
        state = none;
        metrics = regressions (λ c. none) ev.counts counters;
        timer = none;
        out = some (out_of key (λ c. none) true ev);
      }
      else snapshot cfg key (λ c. none) true ev
  on_event cfg key (some (ended at)) ev = dropped (ended at) late_after_terminal
  on_event cfg key (some (live prev seq at)) ev =
      if not ev.terminal && leb ev.snapshot_seq seq
      then dropped (live prev seq at) duplicate_snapshot
      else if ev.terminal
      then record {
        state = some (ended ev.obs_ms);
        metrics = regressions prev ev.counts counters;
        timer = some (bucket_up (ev.obs_ms + cfg.tombstone_ms));
        out = some (out_of key prev false ev);
      }
      else snapshot cfg key prev false ev

  unfoldable pub on_timer : Config → Option State → ℕ → Effect Info
  on_timer cfg none ts = record { state = none; metrics = []; timer = none; out = none }
  on_timer cfg (some st) ts =
      if leb (last_obs st + limit cfg st) ts
      then record { state = none; metrics = state_expired ∷ []; timer = none; out = none }
      else record { state = some st; metrics = []; timer = none; out = none }
