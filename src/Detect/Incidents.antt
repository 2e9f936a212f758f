-- ===== src/Detect/Incidents.antt =====
-- flink/sih_detect/incidents.py: the correlation of findings into incidents. The hash of `ids` is a
-- parameter; an alert stands for the arguments of `alert_record`.
pub mod Updates
mod Tests
use ot_security.Common.{
  ℕ, zero, suc, ◌+◌, ◌-◌, ◌*◌, ◌/◌, min, max, Bool, true, false, not, ◌&&◌, Option, none, some,
  List, [], ◌∷◌, ◌++◌, ltb, leb, ◌==◌, if◌then◌else◌, length, drop, ite,
}
use ot_security.Common.Dict.{Text, text_dec}

-- The keys of `SEVERITY_RANK`
pub data Severity : Type 0 where
  info low medium high critical : Severity

unfoldable pub rank_of : Severity → ℕ
rank_of info = 0
rank_of low = 1
rank_of medium = 2
rank_of high = 3
rank_of critical = 4

-- `_severity_of`
unfoldable pub severity_of : ℕ → Severity
severity_of rank =
    if rank == 1
    then low
    else if rank == 2
    then medium
    else if rank == 3
    then high
    else if rank == 4
    then critical
    else info

-- A finding: the fields that the correlator reads or changes; the others are `rest`.
pub record Finding (Rest : Type 0) : Type 0 where
  pub threat_class : Text
  pub entity_type : Text
  pub entity_key : Text
  pub subtype : Text
  pub severity : Severity
  pub obs_ms : ℕ
  pub window_start_ms : ℕ
  pub first_seen_ms : ℕ
  pub evidence_count : ℕ
  pub raw_event_ids : List Text
  pub rest : Rest

pub data Kind : Type 0 where
  new escalated updated resolved : Kind

pub record Alert (Rest : Type 0) : Type 0 where
  pub finding : Finding Rest
  pub id : Text
  pub seq : ℕ
  pub kind : Kind

pub record Incident (Rest : Type 0) : Type 0 where
  pub id : Text
  pub seq : ℕ
  pub rank : ℕ
  pub last_emit : ℕ
  pub last_obs : ℕ
  pub count : ℕ
  pub emitted_count : ℕ
  pub first : ℕ
  pub window_start : ℕ
  pub ids : List Text
  pub last : Finding Rest
  pub subtypes : List Text

pub record Config : Type 0 where
  pub cooldown : ℕ
  pub idle : ℕ
  pub idle_beacon : ℕ

-- What a call does: the new state, a timer and the alerts. The metrics are left out.
pub record Effect (Rest : Type 0) : Type 0 where
  pub state : Option (Incident Rest)
  pub timer : Option ℕ
  pub out : List (Alert Rest)

unfoldable pub bucket_up : ℕ → ℕ
bucket_up ts_ms = (ts_ms / 10000 + 1) * 10000

-- `"beaconing"`
abbrev pub beaconing : Text
beaconing = 98 ∷ 101 ∷ 97 ∷ 99 ∷ 111 ∷ 110 ∷ 105 ∷ 110 ∷ 103 ∷ []

unfoldable pub idle_for : Config → Text → ℕ
idle_for cfg threat_class = ite (text_dec threat_class beaconing) cfg.idle_beacon cfg.idle

-- `t in ts`
unfoldable pub contains : List Text → Text → Bool
contains [] t = false
contains (u ∷ ts) t = let rest = contains ts t in ite (text_dec t u) true rest

-- `[i for i in new if i not in ids]`
unfoldable pub fresh_ids : List Text → List Text → List Text
fresh_ids ids [] = []
fresh_ids ids (i ∷ is) = let rest = fresh_ids ids is in if contains ids i then rest else i ∷ rest

-- `xs[-n:]`
abbrev pub last_n : ℕ → List Text → List Text
last_n n xs = drop (length xs - n) xs

module _ {Rest : Type 0} where
  unfoldable pub merged : Incident Rest → Finding Rest → Finding Rest
  merged st f = record f {
    raw_event_ids = st.ids;
    evidence_count = max st.count (length st.ids);
    first_seen_ms = min st.first f.first_seen_ms;
    window_start_ms = min st.window_start f.window_start_ms;
    severity = severity_of st.rank;
  }

  -- `_resolve`: the alert
  unfoldable pub resolve : Incident Rest → Alert Rest
  resolve st = record { finding = merged st st.last; id = st.id; seq = st.seq + 1; kind = resolved }

  -- The first branch of `on_event`, for an identifier of the incident
  unfoldable pub open_incident : Text → Finding Rest → Incident Rest
  open_incident id f = record {
    id = id;
    seq = 1;
    rank = rank_of f.severity;
    last_emit = f.obs_ms;
    last_obs = f.obs_ms;
    count = f.evidence_count;
    emitted_count = f.evidence_count;
    first = f.first_seen_ms;
    window_start = f.window_start_ms;
    ids = f.raw_event_ids;
    last = f;
    subtypes = f.subtype ∷ [];
  }

  -- The lines of the `else` branch before its tests
  unfoldable pub absorb : Incident Rest → Finding Rest → Incident Rest
  absorb st f = record st {
    last_obs = max st.last_obs f.obs_ms;
    count = max st.count f.evidence_count;
    ids = last_n 32 (st.ids ++ fresh_ids st.ids f.raw_event_ids);
    last = f;
    subtypes =
        if contains st.subtypes f.subtype
        then st.subtypes
        else last_n 8 (st.subtypes ++ (f.subtype ∷ []));
  }

  -- An update that is emitted, with the rank that the incident has from then on
  unfoldable pub emit : Incident Rest → Finding Rest → ℕ → Kind → Incident Rest × List (Alert Rest)
  emit st f rank kind =
      let st' = record st {
        seq = st.seq + 1;
        rank = rank;
        last_emit = f.obs_ms;
        emitted_count = st.count;
      } in
      (st', record { finding = merged st' f; id = st.id; seq = st'.seq; kind = kind } ∷ [])

  -- The `else` branch of `on_event`
  unfoldable pub update : Config → Incident Rest → Finding Rest → Incident Rest × List (Alert Rest)
  update cfg old f =
      let st = absorb old f in
      if ltb st.rank (rank_of f.severity)
      then emit st f (rank_of f.severity) escalated
      else if not (contains old.subtypes f.subtype)
      then emit st f st.rank updated
      else if leb (st.last_emit + cfg.cooldown) f.obs_ms && ltb st.emitted_count st.count
      then emit st f st.rank updated
      else (st, [])

module _ {Rest : Type 0} (incident_id : Text → Text → Text → ℕ → Text) where
  -- `on_event` for a finding that opens an incident, after the alerts `before`
  unfoldable pub opened : Config → Finding Rest → List (Alert Rest) → Effect Rest
  opened cfg f before =
      let epoch = f.window_start_ms / 1000 * 1000 in
      let id = incident_id f.threat_class f.entity_type f.entity_key epoch in
      let st = open_incident id f in
      record {
        state = some st;
        timer = some (bucket_up (st.last_obs + idle_for cfg f.threat_class));
        out = before ++ (record { finding = merged st f; id = id; seq = 1; kind = new } ∷ []);
      }

  unfoldable pub on_event : Config → Option (Incident Rest) → Finding Rest → Effect Rest
  on_event cfg none f = opened cfg f []
  on_event cfg (some st) f =
      let idle = idle_for cfg f.threat_class in
      let next = update cfg st f in
      if ltb (st.last_obs + idle) f.obs_ms then opened cfg f (resolve st ∷ []) else record {
        state = some next.0;
        timer = some (bucket_up (next.0.last_obs + idle));
        out = next.1;
      }

unfoldable pub on_timer : {Rest : Type 0} → Config → Option (Incident Rest) → ℕ → Effect Rest
on_timer cfg none ts = record { state = none; timer = none; out = [] }
on_timer cfg (some st) ts =
    if leb (st.last_obs + idle_for cfg st.last.threat_class) ts
    then record { state = none; timer = none; out = resolve st ∷ [] }
    else record { state = some st; timer = none; out = [] }
