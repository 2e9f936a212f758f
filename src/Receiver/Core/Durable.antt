-- ===== src/Receiver/Core/Durable.antt =====
-- A valid event is marked as seen exactly where its bytes stand in the spool.
use ot_security.Common.{
  ℕ, ◌≡◌, refl, Bool, true, false, Option, ◌++◌, ◌≤◌, ltb, if◌then◌else◌, length, ◌^◌, ◌⊎◌, inl,
  inr, some, Outcome, ok, err, ◌>>=◌, ◌>>◌, ensure, Yields, ensure-Yields, Yields-ok,
}
use ot_security.Common.Int.{ℤ, pos}
use ot_security.Common.Bytes.{Bytes}
use ot_security.Common.Dict.{Text}
use ot_security.Contracts.{RecordError}
use ot_security.Link.Reassembly.{Complete}
use ot_security.Receiver.Spool
use ot_security.Receiver.Spool.{
  Spool, append, append_record, frame, body_of, struct_error, topic_raw,
}
use ot_security.Receiver.Spool.Layout.{IsSpool, append_record-IsSpool, content}
use ot_security.Receiver.Core.Environment.{Tools}
use ot_security.Receiver.Core.State.{Core, raised, escaped, marked, count_accepted, count_dropped}
use ot_security.Receiver.Core.Quarantine.{spooled}
use ot_security.Receiver.Core.Events.{accept_event, parts_of}

-- The body has been packed, and its frame is added to the content where the append answers true.
abbrev Appended :
    (Bytes → ℕ) → Outcome ot_security.Receiver.Spool.Error Bytes → Spool → Bool × Spool → Type 0
Appended crc32 packed s (done, u) =
    (body : Bytes) × (packed ≡ ok body)
    × (content u.files ≡ (if done then content s.files ++ frame crc32 body else content s.files))

append-Appended :
    (crc32 : Bytes → ℕ) (uuid_bytes : Text → Option Bytes) (s : Spool) (topic : ℕ) (key : Bytes)
    (sensor_id boot_id : Option Text) (seq ts_ms : ℤ) (value : Bytes)
    → IsSpool s
    → s.total ≤ s.max_bytes
    → Yields
        (Appended crc32 (body_of uuid_bytes topic key sensor_id boot_id seq ts_ms value) s)
        (append crc32 uuid_bytes s topic key sensor_id boot_id seq ts_ms value)
unfolding append
append-Appended crc32 uuid_bytes s topic key sensor_id boot_id seq ts_ms value v h =
    go (body_of uuid_bytes topic key sensor_id boot_id seq ts_ms value)
  where
    go :
        (packed : Outcome ot_security.Receiver.Spool.Error Bytes)
        → Yields (Appended crc32 packed s) (
            packed >>= λ body.
            ensure (ltb (length body) (2 ^ 32)) struct_error
            >> ok (append_record s (frame crc32 body)))
    go (err e) = tt
    go (ok body) =
        ensure-Yields (Appended crc32 (ok body) s) (ltb (length body) (2 ^ 32)) struct_error _
          (let (w, b, same) = append_record-IsSpool s v (frame crc32 body) h in (body, refl, same))

module _ {J V R : Type 0} (t : Tools J V R) (j : J) (c : Complete) (r : Core R) where
  -- The body of the record of the event, from its key, its time and its bytes
  abbrev packed : Bytes × ℤ × Bytes → Outcome ot_security.Receiver.Spool.Error Bytes
  packed p =
      body_of t.uuid_bytes topic_raw p.0 (some c.sensor_id) (some c.boot_id) (pos c.sequence) p.1
        p.2

  -- Marked and written, or neither
  abbrev pub Durable : Core R → Type 0
  Durable s =
      ((s.dedup ≡ (marked c r).dedup)
        × ((parts : Bytes × ℤ × Bytes) × (parts_of t j ≡ ok parts)
            × ((body : Bytes) × (packed parts ≡ ok body)
                × (content s.spool.files ≡ content r.spool.files ++ frame t.crc32 body))))
      ⊎ ((s.dedup ≡ r.dedup) × (content s.spool.files ≡ content r.spool.files))

  accept_event-Durable_when :
      IsSpool r.spool → r.spool.total ≤ r.spool.max_bytes → Yields Durable (accept_event t j c r)
  unfolding accept_event spooled raised escaped count_accepted count_dropped marked
  accept_event-Durable_when v h = whole (parts_of t j) refl
    where
      settled :
          (parts : Bytes × ℤ × Bytes) (done : Bool) (u : Spool)
          → parts_of t j ≡ ok parts
          → Appended t.crc32 (packed parts) r.spool (done, u)
          → Durable (
              if done
              then count_accepted "raw-events.v1" (marked c (record r { spool = u }))
              else count_dropped (record r { spool = u }))
      settled parts true u k (body, e, more) = inl (refl, (parts, k, (body, e, more)))
      settled parts false u k (body, e, same) = inr (refl, same)

      go :
          (parts : Bytes × ℤ × Bytes) (o : Outcome ot_security.Receiver.Spool.Error (Bool × Spool))
          → parts_of t j ≡ ok parts
          → Yields (Appended t.crc32 (packed parts) r.spool) o
          → Yields Durable (
              ◌>>=◌ {A = Bool × Core R}
                (◌>>=◌ {A = Bool × Spool} (raised o) (λ p. ok (p.0, record r { spool = p.1 })))
                (λ p. ok (
                  if p.0
                  then count_accepted "raw-events.v1" (marked c p.1)
                  else count_dropped p.1)))
      go parts (err e) e' k = tt
      go parts (ok (done, u)) e k = settled parts done u e k

      whole :
          (m : Outcome RecordError (Bytes × ℤ × Bytes))
          → parts_of t j ≡ m
          → Yields Durable (
              ◌>>=◌ {A = Bytes × ℤ × Bytes} (escaped m) (λ p.
                ◌>>=◌ {A = Bool × Core R}
                  (◌>>=◌ {A = Bool × Spool}
                    (raised (
                      append t.crc32 t.uuid_bytes r.spool topic_raw p.0
                        (some c.sensor_id)
                        (some c.boot_id)
                        (pos c.sequence)
                        p.1
                        p.2))
                    (λ q. ok (q.0, record r { spool = q.1 })))
                  (λ q. ok (
                    if q.0
                    then count_accepted "raw-events.v1" (marked c q.1)
                    else count_dropped q.1))))
      whole (err e) k = tt
      whole (ok p) k = go p _ k (
          append-Appended t.crc32 t.uuid_bytes r.spool topic_raw p.0 (some c.sensor_id)
            (some c.boot_id) (pos c.sequence) p.1 p.2 v h)

  -- On a well-formed spool within its limit, an event that meets its contract is marked as seen together with its
  -- record being added behind all that the spool holds, or neither: then a copy of it may still be accepted.
  pub accept_event-Durable :
      (s : Core R)
      → IsSpool r.spool
      → r.spool.total ≤ r.spool.max_bytes
      → accept_event t j c r ≡ ok s
      → Durable s
  accept_event-Durable s v h =
      Yields-ok Durable (accept_event t j c r) s (accept_event-Durable_when v h)
