-- ===== src/Receiver/Core/Accounts.antt =====
-- Every event record is counted once, and it is marked as seen exactly where it has been dealt with.
use Prim.Native.String.{String}
use ot_security.Common.{
  ℕ, ◌+◌, ◌≡◌, refl, ◌∙◌, ap, Option, none, some, [], ◌∷◌, Outcome, ok, err, Yields, bind-Yields,
  ◌>>=◌, Yields-ok, arith, inl, inr, Option-cases, Bool-cases,
}
use ot_security.Common.Int.{ℤ}
use ot_security.Common.Bytes.{Bytes}
use ot_security.Common.Dict.{Dict, Text, lookup, text_eq}
use ot_security.Link.Reassembly.{Complete}
use ot_security.Receiver.Dedup.{
  check, mark, Class, new, reordered, duplicate, stale, Stream, Totals, mark_stream, advance,
  settle, DedupWindow, fresh, key,
}
use ot_security.Receiver.Dedup.Window.{mark-check}
use ot_security.Receiver.Core.Environment.{Tools}
use ot_security.Receiver.Core.State.{
  Core, Failure, raised, escaped, encoded, bump, marked, count_accepted, count_dropped,
}
use ot_security.Receiver.Core.Quarantine.{spooled, invalid_of, refilled, written, quarantine}
use ot_security.Receiver.Core.Events.{
  accept_event, fresh_event, event, reject, validate_event, stamped, parts_of,
}

-- The sum of a counter over its labels.
unfoldable pub total : Dict String ℕ → ℕ
total [] = 0
total ((_, n) ∷ d) = n + total d

total-bump : (label : String) (d : Dict String ℕ) → total (bump label d) ≡ total d + 1
unfolding total bump
total-bump label [] = refl
total-bump label ((k, n) ∷ d) = ground (arith, total-bump label d)

-- Whether a class is counted as a duplicate or as stale
unfoldable repeated : Class → ℕ
repeated new = 0
repeated reordered = 0
repeated duplicate = 1
repeated stale = 1

pub repeats : Totals → ℕ
repeats t = t.duplicates + t.stales

repeats-mark_stream :
    (t : Totals) (s : Stream) (seq : ℕ)
    → let m = mark_stream t s seq in repeats m.totals ≡ repeats t + repeated m.class
unfolding repeats repeated mark_stream advance settle
repeats-mark_stream t s seq = ground arith

repeats-mark :
    (w : DedupWindow) (a b : Text) (seq : ℕ)
    → repeats (mark w a b seq).1.totals ≡ repeats w.totals + repeated (check w a b seq)
unfolding mark repeats
repeats-mark w a b seq = elim (Option-cases (lookup (key a b) w.streams)) [
  | inl e ↦ rw (← mark-check w a b seq) (rw (mark, e) (repeats-mark_stream w.totals fresh seq))
  | inr (s, e) ↦ rw (← mark-check w a b seq) (rw (mark, e) (repeats-mark_stream w.totals s seq))
]

-- The records that have been counted: accepted, dropped, invalid or repeated.
pub counted : {R : Type 0} → Core R → ℕ
counted r =
    total r.metrics.accepted
    + total r.metrics.dropped
    + total r.metrics.invalid
    + repeats r.dedup.totals

module _ {R : Type 0} (c : Complete) (r : Core R) where
  -- Whether the record has been seen
  abbrev repeat : ℕ
  repeat = repeated (check r.dedup c.sensor_id c.boot_id c.sequence)

  counted-marked : counted (marked c r) ≡ counted r + repeat
  unfolding counted marked
  counted-marked = let m = repeats-mark r.dedup c.sensor_id c.boot_id c.sequence in omega (arith, m)

module _ {R : Type 0} (r : Core R) where
  counted-count_accepted : (topic : String) → counted (count_accepted topic r) ≡ counted r + 1
  unfolding counted count_accepted
  counted-count_accepted topic = omega (arith, total-bump topic r.metrics.accepted)

  counted-count_dropped : counted (count_dropped r) ≡ counted r + 1
  unfolding counted count_dropped
  counted-count_dropped = omega (arith, total-bump "spool_full" r.metrics.dropped)

-- What comes after an outcome, which an exception skips
after :
    {E A B : Type 0} (Q : B → Type 0) (m : Outcome E A) (next : A → Outcome E B)
    → ((a : A) → Yields Q (next a))
    → Yields Q (m >>= next)
after Q (ok a) next k = k a
after Q (err e) next k = tt

module _ {J V R : Type 0} (t : Tools J V R) where
  -- The metrics and the window of a state are those of another one.
  abbrev Same : Core R → Core R → Type 0
  Same r s = (s.metrics ≡ r.metrics) × (s.dedup ≡ r.dedup)

  spooled-Same :
      (r : Core R) (topic : ℕ) (key : Bytes) (sensor_id boot_id : Option Text) (seq ts_ms : ℤ)
      (value : Bytes)
      → Yields (λ p. Same r p.1) (spooled t r topic key sensor_id boot_id seq ts_ms value)
  unfolding spooled
  spooled-Same r topic key sensor_id boot_id seq ts_ms value =
      after (λ p. Same r p.1) (raised _) _ (λ p. (refl, refl))

  -- One more record has been counted.
  abbrev OneMore : Core R → Core R → Type 0
  OneMore r s = counted s ≡ counted r + 1

  counted-Same : (r s : Core R) → Same r s → counted s ≡ counted r
  unfolding counted
  counted-Same r s h = rw (h.0, h.1) refl

  counted-refilled : (reason : String) (r : Core R) → counted (refilled t reason r) ≡ counted r + 1
  unfolding counted refilled
  counted-refilled reason r = omega (arith, total-bump reason r.metrics.invalid)

  quarantine-OneMore :
      (reason : String) (sensor_id boot_id : Option Text) (seq : Option ℕ) (raw : Option Bytes)
      (r : Core R)
      → Yields (OneMore r) (quarantine t reason sensor_id boot_id seq raw r)
  unfolding quarantine written counted
  quarantine-OneMore reason sensor_id boot_id seq raw r =
      let made = invalid_of t reason sensor_id boot_id seq raw in
      elim (Bool-cases (t.below_one (refilled t reason r).q_tokens)) [
        | inl e ↦ rw e (counted-refilled reason r)
        | inr e ↦ rw e (
            after (OneMore r) (escaped (encoded (t.encode_ascii made.invalid_id))) _ (λ key.
              after (OneMore r) (escaped (encoded (t.dumps_invalid made))) _ (λ value.
                bind-Yields (λ p. Same (refilled t reason r) p.1) (OneMore r)
                  (spooled t _ _ _ _ _ _ _ _) _ (spooled-Same _ _ _ _ _ _ _ _)
                  (λ p h. counted-Same (refilled t reason r) p.1 h ∙ counted-refilled reason r))))
      ]

  accept_event-OneMore :
      (j : J) (c : Complete) (r : Core R)
      → repeat c r ≡ 0
      → Yields (OneMore r) (accept_event t j c r)
  unfolding accept_event
  accept_event-OneMore j c r h = after (OneMore r) (escaped (parts_of t j)) _ (λ parts.
      bind-Yields (λ p. Same r p.1) (OneMore r) (spooled t r _ _ _ _ _ _ _) _
        (spooled-Same r _ _ _ _ _ _ _)
        (λ p w. elim (Bool-cases p.0) [
          | inl e ↦ rw e (
              omega (
                arith,
                counted-count_accepted (marked c p.1) "raw-events.v1",
                counted-marked c p.1,
                counted-Same r p.1 w,
                unseen p.1 w.1,
              ))
          | inr e ↦ rw e (omega (arith, counted-count_dropped p.1, counted-Same r p.1 w))
        ]))
    where
      unseen : (s : Core R) → s.dedup ≡ r.dedup → repeat c s ≡ 0
      unseen s e = rw e h

  marked-OneMore :
      (c : Complete) (r s : Core R) → repeat c r ≡ 0 → OneMore (marked c r) s → OneMore r s
  marked-OneMore c r s h k = omega (arith, counted-marked c r, h, k)

  reject-OneMore :
      (reason : String) (c : Complete) (r : Core R)
      → repeat c r ≡ 0
      → Yields (OneMore r) (reject t reason c (marked c r))
  reject-OneMore reason c r h = weaken (reject t reason c (marked c r)) (
      quarantine-OneMore reason (some c.sensor_id) (some c.boot_id) (some c.sequence) (some c.bytes)
        (marked c r))
    where
      weaken :
          (m : Outcome Failure (Core R)) → Yields (OneMore (marked c r)) m → Yields (OneMore r) m
      weaken (ok s) k = marked-OneMore c r s h k
      weaken (err e) k = tt

  fresh_event-OneMore :
      (c : Complete) (r : Core R) → repeat c r ≡ 0 → Yields (OneMore r) (fresh_event t c r)
  unfolding fresh_event
  fresh_event-OneMore c r h = go (t.loads c.bytes)
    where
      judged :
          (ev : J) (o : Option String)
          → Yields (OneMore r) (elim o [
            | some reason ↦ reject t reason c (marked c r)
            | none ↦ accept_event t ev c r
          ])
      judged ev none = accept_event-OneMore ev c r h
      judged ev (some reason) = reject-OneMore reason c r h

      go :
          (o : Option J)
          → Yields (OneMore r) (elim o [
            | none ↦ reject t "json_parse_error" c (marked c r)
            | some j ↦
                let ev = stamped t "receiver_received_at" j c in
                escaped (validate_event t ev c) >>= λ judged. elim judged [
                  | some reason ↦ reject t reason c (marked c r)
                  | none ↦ accept_event t ev c r
                ]
          ])
      go none = reject-OneMore "json_parse_error" c r h
      go (some j) =
          let ev = stamped t "receiver_received_at" j c in
          after (OneMore r) (escaped (validate_event t ev c)) _ (judged ev)

  event_counted : (c : Complete) (r : Core R) → Yields (OneMore r) (event t c r)
  unfolding event repeated
  event_counted c r = go (check r.dedup c.sensor_id c.boot_id c.sequence) refl
    where
      go :
          (k : Class)
          → check r.dedup c.sensor_id c.boot_id c.sequence ≡ k
          → Yields (OneMore r) (elim k [
            | duplicate ↦ ok (marked c r)
            | stale ↦ ok (marked c r)
            | new ↦ fresh_event t c r
            | reordered ↦ fresh_event t c r
          ])
      go duplicate e = counted-marked c r ∙ ap (λ k. counted r + repeated k) e
      go stale e = counted-marked c r ∙ ap (λ k. counted r + repeated k) e
      go new e = fresh_event-OneMore c r (ap repeated e)
      go reordered e = fresh_event-OneMore c r (ap repeated e)

  -- Each complete event record adds exactly one to the sum of the records accepted, dropped, invalid, duplicate
  -- and stale, where no exception ends the call, of the spool or of the handling of the record.
  pub event_counted_once :
      (c : Complete) (r s : Core R) → event t c r ≡ ok s → counted s ≡ counted r + 1
  event_counted_once c r s = Yields-ok (OneMore r) (event t c r) s (event_counted c r)
