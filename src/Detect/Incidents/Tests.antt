-- ===== src/Detect/Incidents/Tests.antt =====
-- An incident that is escalated and suppressed, and each theorem at an input.
use ot_security.Common.{ℕ, ◌≡◌, refl, [], ◌∷◌}
use ot_security.Detect.Incidents.{
  Finding, Incident, Config, Severity, low, high, open_incident, update, absorb, emit, rank_of,
}
use ot_security.Detect.Incidents.Updates.{IsUpdate, update-IsUpdate}

abbrev cfg : Config
cfg = record { cooldown = 60000; idle = 600000; idle_beacon = 3600000 }

abbrev finding : Severity → ℕ → Finding (Unit {0})
finding severity obs_ms = record {
  threat_class = 115 ∷ [];
  entity_type = 104 ∷ [];
  entity_key = 49 ∷ [];
  subtype = 120 ∷ [];
  severity = severity;
  obs_ms = obs_ms;
  window_start_ms = 1500;
  first_seen_ms = 1000;
  evidence_count = 1;
  raw_event_ids = (97 ∷ []) ∷ [];
  rest = tt;
}

abbrev incident : Incident (Unit {0})
incident = open_incident (105 ∷ []) (finding low 2000)

-- A stronger finding escalates at once.
escalates : (update cfg incident (finding high 3000)).0.rank ≡ 3
unfolding open_incident update absorb emit rank_of
escalates = refl

update-IsUpdate_example :
    IsUpdate incident (finding high 3000) (update cfg incident (finding high 3000))
update-IsUpdate_example = update-IsUpdate incident (finding high 3000) cfg
