-- ===== src/Receiver/Core/Invariant.antt =====
-- Every datagram leaves the reassembler, the window and the spool of the receiver well formed.
use Prim.Native.String.{String}
use ot_security.Common.{
  ℕ, ◌+◌, ◌≡◌, refl, ◌&&◌, Option, none, some, List, [], ◌∷◌, ◌==◌, if◌then◌else◌, ◌<◌, ok, err,
  ◌>>=◌, inl, inr, Bool-cases,
}
use ot_security.Common.Bytes.{Bytes}
use ot_security.Contracts.{Problem, validate}
use ot_security.Link.Frame
use ot_security.Link.Frame.{Frame, decode, type_health}
use ot_security.Link.Frame.Checks.{decode-IsFragment}
use ot_security.Link.Reassembly.{Complete, Answer, waiting, complete, add}
use ot_security.Link.Reassembly.Bounds.{add-IsReassembler, Returns}
use ot_security.Receiver.Dedup.{check, Class, new, reordered, duplicate, stale}
use ot_security.Receiver.Spool.{frame}
use ot_security.Receiver.Core.Environment.{Tools}
use ot_security.Receiver.Core.State.{
  bump, Core, frame_reason, code_reason, text_same, escaped, encoded, marked, health_known,
  count_record, count_accepted, count_dropped,
}
use ot_security.Receiver.Core.Quarantine.{spooled, quarantine, quarantine_all}
use ot_security.Receiver.Core.Events.{
  validate_event, stamped, parts_of, accept_event, fresh_event, event, reject,
}
use ot_security.Receiver.Core.{
  observed, accept_health, fresh_health, health_record, route, reassembled, handle_datagram,
}
use ot_security.Receiver.Core.Gives.{
  IsCore, Gives, bind-Gives, after_record, Kept, spooled-IsCore, marked-IsCore, same_parts,
  quarantine-IsCore, quarantine_all-IsCore,
}

module _ {J V R : Type 0} (t : Tools J V R) where
  accept_event-IsCore :
      (j : J) (c : Complete) (r : Core R) → IsCore r → Gives IsCore (accept_event t j c r)
  unfolding accept_event count_accepted count_dropped
  accept_event-IsCore j c r v = after_record IsCore (parts_of t j) _ (λ parts.
      bind-Gives (Kept t) IsCore (spooled t r _ _ _ _ _ _ _) _ (spooled-IsCore t r _ _ _ _ _ _ _ v)
        (λ p w. elim (Bool-cases p.0) [
          | inl e ↦ rw e (same_parts t (marked c p.1) _ refl refl refl (marked-IsCore t c p.1 w))
          | inr e ↦ rw e (same_parts t p.1 _ refl refl refl w)
        ]))

  reject-IsCore :
      (reason : String) (c : Complete) (r : Core R) → IsCore r → Gives IsCore (reject t reason c r)
  reject-IsCore reason c r v =
      quarantine-IsCore t reason (some c.sensor_id) (some c.boot_id) (some c.sequence)
        (some c.bytes) r v

  fresh_event-IsCore : (c : Complete) (r : Core R) → IsCore r → Gives IsCore (fresh_event t c r)
  unfolding fresh_event
  fresh_event-IsCore c r v = go (t.loads c.bytes)
    where
      judged :
          (ev : J) (o : Option String)
          → Gives IsCore (elim o [
            | some reason ↦ reject t reason c (marked c r)
            | none ↦ accept_event t ev c r
          ])
      judged ev none = accept_event-IsCore ev c r v
      judged ev (some reason) = reject-IsCore reason c (marked c r) (marked-IsCore t c r v)

      go :
          (o : Option J)
          → Gives IsCore (elim o [
            | none ↦ reject t "json_parse_error" c (marked c r)
            | some j ↦
                let ev = stamped t "receiver_received_at" j c in
                escaped (validate_event t ev c) >>= λ judged. elim judged [
                  | some reason ↦ reject t reason c (marked c r)
                  | none ↦ accept_event t ev c r
                ]
          ])
      go none = reject-IsCore "json_parse_error" c (marked c r) (marked-IsCore t c r v)
      go (some j) =
          let ev = stamped t "receiver_received_at" j c in
          after_record IsCore (validate_event t ev c) _ (judged ev)

  event-IsCore : (c : Complete) (r : Core R) → IsCore r → Gives IsCore (event t c r)
  unfolding event
  event-IsCore c r v = go (check r.dedup c.sensor_id c.boot_id c.sequence)
    where
      go :
          (k : Class)
          → Gives IsCore (elim k [
            | duplicate ↦ ok (marked c r)
            | stale ↦ ok (marked c r)
            | new ↦ fresh_event t c r
            | reordered ↦ fresh_event t c r
          ])
      go duplicate = marked-IsCore t c r v
      go stale = marked-IsCore t c r v
      go new = fresh_event-IsCore c r v
      go reordered = fresh_event-IsCore c r v

  accept_health-IsCore :
      (j : J) (c : Complete) (r : Core R) → IsCore r → Gives IsCore (accept_health t j c r)
  unfolding accept_health observed count_accepted count_dropped
  accept_health-IsCore j c r v =
      after_record IsCore (encoded (t.encode_ascii c.sensor_id)) _ (λ key.
        after_record IsCore (encoded (t.dumps j)) _ (λ value.
          bind-Gives (Kept t) IsCore (spooled t _ _ _ _ _ _ _ _) _
            (spooled-IsCore t (observed t (t.health j) c r) _ _ _ _ _ _ _
              (same_parts t r _ refl refl refl v))
            (λ p w. elim (Bool-cases p.0) [
              | inl e ↦ rw e (same_parts t p.1 _ refl refl refl w)
              | inr e ↦ rw e (same_parts t p.1 _ refl refl refl w)
            ])))

  checked_health-IsCore :
      (h : J) (c : Complete) (r : Core R) (es : List Problem)
      → IsCore r
      → Gives IsCore (elim es [
        | ◌∷◌ e _ ↦ reject t (code_reason "schema_violation" e) c r
        | [] ↦
            if text_same (t.health h).sensor_id c.sensor_id
              && text_same (t.health h).sensor_boot_id c.boot_id
            then accept_health t h c r
            else reject t "schema_violation" c r
      ])
  checked_health-IsCore h c r (e ∷ es) v = reject-IsCore _ c r v
  checked_health-IsCore h c r [] v =
      elim (Bool-cases (
        text_same (t.health h).sensor_id c.sensor_id
        && text_same (t.health h).sensor_boot_id c.boot_id)) [
          | inl e ↦ rw e (accept_health-IsCore h c r v)
          | inr e ↦ rw e (reject-IsCore _ c r v)
        ]

  fresh_health-IsCore : (c : Complete) (r : Core R) → IsCore r → Gives IsCore (fresh_health t c r)
  unfolding fresh_health
  fresh_health-IsCore c r v = go (t.loads c.bytes)
    where
      go :
          (o : Option J)
          → Gives IsCore (elim o [
            | none ↦ reject t "json_parse_error" c r
            | some j ↦
                let h = stamped t "received_at" j c in
                escaped
                  (validate (t.version "sensor_health" h) (t.schema_errors "sensor_health" h) [])
                >>= λ errs. elim errs [
                  | ◌∷◌ e _ ↦ reject t (code_reason "schema_violation" e) c r
                  | [] ↦
                      if text_same (t.health h).sensor_id c.sensor_id
                        && text_same (t.health h).sensor_boot_id c.boot_id
                      then accept_health t h c r
                      else reject t "schema_violation" c r
                ]
          ])
      go none = reject-IsCore "json_parse_error" c r v
      go (some j) =
          let h = stamped t "received_at" j c in
          after_record IsCore
            (validate (t.version "sensor_health" h) (t.schema_errors "sensor_health" h) []) _
            (λ errs. checked_health-IsCore h c r errs v)

  health_record-IsCore : (c : Complete) (r : Core R) → IsCore r → Gives IsCore (health_record t c r)
  unfolding health_record
  health_record-IsCore c r v = elim (Bool-cases (health_known c r)) [
    | inl e ↦ rw e v
    | inr e ↦ rw e (fresh_health-IsCore c _ (same_parts t r _ refl refl refl v))
  ]

  route-IsCore : (a : Answer) (r : Core R) → Returns a → IsCore r → Gives IsCore (route t a r)
  unfolding route count_record
  route-IsCore waiting r h v = v
  route-IsCore (complete c) r h v = elim (Bool-cases (c.type == type_health)) [
    | inl e ↦
        rw e (health_record-IsCore c (count_record "health" r) (same_parts t r _ refl refl refl v))
    | inr e ↦ rw e (event-IsCore c (count_record "event" r) (same_parts t r _ refl refl refl v))
  ]
  route-IsCore Answer.index_error r h v = absurd h
  route-IsCore Answer.type_error r h v = absurd h

  reassembled-IsCore :
      (f : Frame) (now_us : ℕ) (r : Core R)
      → f.frag_index < f.frag_count
      → IsCore r
      → Gives IsCore (reassembled t f now_us r)
  unfolding reassembled
  reassembled-IsCore f now_us r i v =
      let (w, a) = add-IsReassembler r.reassembler f now_us v.reassembler i in
      bind-Gives IsCore IsCore (quarantine_all t (add r.reassembler f now_us).expired _) _
        (quarantine_all-IsCore t (add r.reassembler f now_us).expired
          (record r { reassembler = (add r.reassembler f now_us).state })
          (record { reassembler = w; dedup = v.dedup; spool = v.spool; bounded = v.bounded }))
        (λ s u. route-IsCore (add r.reassembler f now_us).answer s a u)

  -- Whatever bytes arrive, a receiver whose reassembler, window and spool are well formed has well-formed ones
  -- afterwards, with the spool within its limit. No index error and no type error of the reassembler ends the
  -- call, only an exception of the spool or of the handling of a record: its version is unhashable, a text of it
  -- cannot be encoded, or a time of it cannot be computed.
  pub handle_datagram-IsCore :
      (bytes : Bytes) (now_us : ℕ) (r : Core R)
      → IsCore r
      → Gives IsCore (handle_datagram t bytes now_us r)
  unfolding handle_datagram
  handle_datagram-IsCore bytes now_us r v = go (decode t.codec bytes) refl
    where
      counted : Core R
      counted = record r { metrics = record r.metrics { datagrams = r.metrics.datagrams + 1 } }

      go :
          (o : ot_security.Link.Frame.Result Frame)
          → decode t.codec bytes ≡ o
          → Gives IsCore (elim o [
            | ok frame ↦ reassembled t frame now_us counted
            | err e ↦ quarantine t (frame_reason e) none none none (some bytes) (record counted {
              metrics = record counted.metrics {
                frames_rejected = bump (frame_reason e) counted.metrics.frames_rejected;
              };
            })
          ])
      go (ok f) e =
          reassembled-IsCore f now_us counted (decode-IsFragment t.codec bytes f e).indexed
            (same_parts t r _ refl refl refl v)
      go (err e) h =
          quarantine-IsCore t _ none none none (some bytes) _ (same_parts t r _ refl refl refl v)
