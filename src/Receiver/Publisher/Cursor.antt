-- ===== src/Receiver/Publisher/Cursor.antt =====
-- The cursor stands behind acknowledged records only, in whatever order the acknowledgements come.
use mathlib.Core.Option.{some-injective}
use ot_security.Common.{
  ℕ, ◌≡◌, refl, ◌∙◌, ap, Bool, true, false, List, [], ◌∷◌, ◌++◌, append_assoc, if◌then◌else◌, ◌==◌,
  subst, some, none,
}
use ot_security.Receiver.Spool.{Position}
use ot_security.Receiver.Publisher.{
  elem, Pump, started, Event, produced, delivered, failed, happens, all_happen, settle, round,
}
use ot_security.Receiver.Publisher.Behind.{
  last_of, IsBehind, AllIn-later, elem_heard, settle-IsBehind, restarted-IsBehind,
}

-- The states of `run`, with the positions sent, in order, and those reported as delivered. A pump that ends by an
-- exception is followed by another one, from the cursor where it is: the positions that have left the queue stay, and
-- those in flight are to be sent again.
pub data Reachable (start : Position) : List Position → List Position → Pump → Type 0 where
  begun :
      (now : ℕ) (s : Pump)
      → s.cursor ≡ start
      → s.persisted ≡ start
      → Reachable start [] [] (started now s)
  sends :
      {sent known : List Position} {s : Pump} (p : Position)
      → Reachable start sent known s
      → Reachable start (sent ++ (p ∷ [])) known (happens (produced p) s)
  hears :
      {sent known : List Position} {s : Pump} (p : Position)
      → Reachable start sent known s
      → Reachable start sent (p ∷ known) (happens (delivered p) s)
  fails :
      {sent known : List Position} {s : Pump} (p : Position)
      → Reachable start sent known s
      → Reachable start sent known (happens (failed p) s)
  settles :
      {sent known : List Position} {s : Pump} (now : ℕ) (no_batch : Bool)
      → Reachable start sent known s
      → Reachable start sent known (settle now no_batch s)
  restarts :
      {sent known : List Position} {s : Pump} (now : ℕ) (left : List Position)
      → sent ≡ left ++ s.in_flight
      → Reachable start sent known s
      → Reachable start left known (started now s)

-- In every state of the publisher, whatever the order of the acknowledgements: the positions sent are those behind
-- the cursor, each of them reported as delivered, and then those in flight; the cursor file holds the cursor or
-- an earlier position, which is also the last of delivered ones.
pub Reachable-IsBehind :
    (start : Position) (sent known : List Position) (s : Pump)
    → Reachable start sent known s
    → IsBehind start sent known s
unfolding started happens last_of elem
Reachable-IsBehind start _ _ _ (begun now s e f) = record {
  done = [];
  parts = refl;
  acknowledged = tt;
  cursor = e;
  kept = λ p h. h;
  saved = [];
  more = [];
  saved_parts = refl;
  persisted = f;
}
Reachable-IsBehind start _ known _ (sends {sent} {s = s} p r) =
    let v = Reachable-IsBehind start sent known s r in
    record {
      done = v.done;
      parts = ap (λ x. x ++ (p ∷ [])) v.parts ∙ append_assoc v.done s.in_flight (p ∷ []);
      acknowledged = v.acknowledged;
      cursor = v.cursor;
      kept = v.kept;
      saved = v.saved;
      more = v.more;
      saved_parts = v.saved_parts;
      persisted = v.persisted;
    }
Reachable-IsBehind start sent _ _ (hears {known = known} {s} p r) =
    let v = Reachable-IsBehind start sent known s r in
    record {
      done = v.done;
      parts = v.parts;
      acknowledged = AllIn-later p known v.done v.acknowledged;
      cursor = v.cursor;
      kept = λ q h. elem_heard p q s.acked known (v.kept q) h;
      saved = v.saved;
      more = v.more;
      saved_parts = v.saved_parts;
      persisted = v.persisted;
    }
Reachable-IsBehind start sent known _ (fails {s = s} p r) =
    let v = Reachable-IsBehind start sent known s r in
    record {
      done = v.done;
      parts = v.parts;
      acknowledged = v.acknowledged;
      cursor = v.cursor;
      kept = v.kept;
      saved = v.saved;
      more = v.more;
      saved_parts = v.saved_parts;
      persisted = v.persisted;
    }
Reachable-IsBehind start sent known _ (settles {s = s} now no_batch r) =
    settle-IsBehind start sent known now no_batch s (Reachable-IsBehind start sent known s r)
Reachable-IsBehind start left known _ (restarts {sent} {s = s} now _ e r) =
    restarted-IsBehind start sent left known now s e (Reachable-IsBehind start sent known s r)

-- The positions sent, and those reported, after a list of events.
unfoldable pub sent_after : List Event → List Position → List Position
sent_after [] sent = sent
sent_after (produced p ∷ es) sent = sent_after es (sent ++ (p ∷ []))
sent_after (delivered p ∷ es) sent = sent_after es sent
sent_after (failed p ∷ es) sent = sent_after es sent

unfoldable pub known_after : List Event → List Position → List Position
known_after [] known = known
known_after (produced p ∷ es) known = known_after es known
known_after (delivered p ∷ es) known = known_after es (p ∷ known)
known_after (failed p ∷ es) known = known_after es known

all_happen-Reachable :
    (start : Position) (events : List Event) (sent known : List Position) (s : Pump)
    → Reachable start sent known s
    → Reachable start (sent_after events sent) (known_after events known) (all_happen events s)
unfolding all_happen sent_after known_after
all_happen-Reachable start [] sent known s r = r
all_happen-Reachable start (produced p ∷ es) sent known s r =
    all_happen-Reachable start es _ _ _ (sends p r)
all_happen-Reachable start (delivered p ∷ es) sent known s r =
    all_happen-Reachable start es _ _ _ (hears p r)
all_happen-Reachable start (failed p ∷ es) sent known s r =
    all_happen-Reachable start es _ _ _ (fails p r)

-- A round that does not raise leads from such a state to such a state.
round_when :
    (start : Position) (events : List Event) (now : ℕ) (no_batch : Bool)
    (sent known : List Position) (s u : Pump) (c : Bool)
    → Reachable start sent known s
    → (if c then some (settle now no_batch (all_happen events s)) else none) ≡ some u
    → Reachable start (sent_after events sent) (known_after events known) u
round_when start events now no_batch sent known s u true r h =
    subst (λ x. Reachable start (sent_after events sent) (known_after events known) x)
      (some-injective _ _ h)
      (settles now no_batch (all_happen-Reachable start events sent known s r))
round_when start events now no_batch sent known s u false r h = absurd (cc)

-- After a round that does not raise, whatever is sent and reported in it, in whatever order, also in a pump that
-- follows on others which raised and left the cursor ahead of its file: the positions sent, less those that were in
-- flight when a pump ended and are to be sent again, are those behind the cursor, each of them reported as delivered,
-- and then those in flight; the cursor file holds the cursor or an earlier position, which is also that of the last
-- of some delivered ones.
pub round-IsBehind :
    (start : Position) (events : List Event) (now : ℕ) (no_batch : Bool)
    (sent known : List Position) (s u : Pump)
    → Reachable start sent known s
    → round events now no_batch s ≡ some u
    → IsBehind start (sent_after events sent) (known_after events known) u
unfolding round
round-IsBehind start events now no_batch sent known s u r h =
    Reachable-IsBehind start _ _ u
      (round_when start events now no_batch sent known s u (s.failures == 0) r h)
