-- ===== src/Receiver/Publisher/Tests.antt =====
-- Two records, of which the second is sent again by a second pump.
use ot_security.Common.{◌≡◌, refl, false, List, [], ◌∷◌, ℕ_discrete}
use ot_security.Receiver.Publisher.{
  Pump, Event, produced, delivered, failed, started, round, all_happen, settle, happens, drain,
  elem, discard, position_dec, persist, is_empty,
}
use ot_security.Receiver.Publisher.Behind.{IsBehind}
use ot_security.Receiver.Publisher.Cursor.{
  Reachable, begun, sends, hears, fails, settles, restarts, sent_after, known_after, round-IsBehind,
}

abbrev idle : Pump
idle = record {
  spool = record {
    max_bytes = 1000;
    segment_bytes = 500;
    sizes = (0, 60) ∷ [];
    files = (0, []) ∷ [];
    active = 0;
    total = 60;
    dirty = false;
    synced = (0, 60);
  };
  cursor = (0, 0);
  persisted = (0, 0);
  healthy = false;
  read_pos = (0, 0);
  in_flight = [];
  acked = [];
  failures = 0;
  published = 0;
  last_persist = 0;
  idle_rounds = 0;
}

-- Both records are sent, the first is delivered soon after the start, and the delivery of the other one fails.
abbrev halfway : Pump
halfway = happens (failed (0, 60)) (
    settle 9 false (
      happens (delivered (0, 30))
        (happens (produced (0, 60)) (happens (produced (0, 30)) (started 9 idle)))))

-- The next pump begins with the cursor ahead of its file.
ahead : ((started 20 halfway).cursor ≡ (0, 30)) × ((started 20 halfway).persisted ≡ (0, 0))
unfolding started happens settle drain elem discard position_dec ℕ_discrete persist is_empty
ahead = (refl, refl)

halfway-Reachable : Reachable (0, 0) ((0, 30) ∷ []) ((0, 30) ∷ []) (started 20 halfway)
unfolding started happens settle drain elem discard position_dec ℕ_discrete persist is_empty
halfway-Reachable = restarts 20 ((0, 30) ∷ []) refl (
    fails (0, 60)
      (settles 9 false (hears (0, 30) (sends (0, 60) (sends (0, 30) (begun 9 idle refl refl))))))

abbrev again : List Event
again = produced (0, 60) ∷ delivered (0, 60) ∷ []

round-IsBehind_example :
    IsBehind
      (0, 0)
      ((0, 30) ∷ (0, 60) ∷ [])
      ((0, 60) ∷ (0, 30) ∷ [])
      (settle 30 false (all_happen again (started 20 halfway)))
unfolding round sent_after known_after started
round-IsBehind_example =
    round-IsBehind (0, 0) again 30 false ((0, 30) ∷ []) ((0, 30) ∷ []) (started 20 halfway)
      (settle 30 false (all_happen again (started 20 halfway))) halfway-Reachable refl
