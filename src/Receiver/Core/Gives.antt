-- ===== src/Receiver/Core/Gives.antt =====
-- The well-formed states of the receiver, and what the append and the quarantine leave of them.
use Prim.Native.String.{String}
use ot_security.Common.{
  ℕ, ◌≡◌, refl, Bool, Option, none, some, List, [], ◌∷◌, ◌≤◌, ltb, length, ◌^◌, Outcome, ok, err,
  ◌>>=◌, Yields, bind-Yields, ensure-Yields, inl, inr, Bool-cases, subst, sym,
}
use ot_security.Common.Int.{ℤ}
use ot_security.Common.Bytes.{Bytes}
use ot_security.Common.Dict.{Text}
use ot_security.Contracts.{RecordError}
use ot_security.Link.Reassembly.{Complete, Expired}
use ot_security.Link.Reassembly.Bounds.{IsReassembler}
use ot_security.Receiver.Dedup.Sound.{IsSound, mark-IsSound}
use ot_security.Receiver.Spool.{Spool, append, append_record, frame, body_of, struct_error}
use ot_security.Receiver.Spool.Layout.{IsSpool, append_record-IsSpool}
use ot_security.Receiver.Core.Environment.{Tools}
use ot_security.Receiver.Core.State.{
  Core, Failure, expired_reason, spool_error, index_error, type_error, record_error, raised,
  escaped, encoded, marked,
}
use ot_security.Receiver.Core.Quarantine.{
  spooled, invalid_of, refilled, written, quarantine, quarantine_all,
}

pub record IsCore {R : Type 0} (r : Core R) : Type 0 where
  pub reassembler : IsReassembler r.reassembler
  pub dedup : IsSound r.dedup
  pub spool : IsSpool r.spool
  pub bounded : r.spool.total ≤ r.spool.max_bytes

-- The value satisfies P where there is one, and an exception is one of the spool or of the handling of a record.
abbrev pub Gives : {A : Type 0} → (A → Type 0) → Outcome Failure A → Type 0
Gives P (ok a) = P a
Gives P (err (spool_error _)) = Unit
Gives P (err (record_error _)) = Unit
Gives P (err index_error) = ⊥
Gives P (err type_error) = ⊥

pub bind-Gives :
    {A B : Type 0} (P : A → Type 0) (Q : B → Type 0) (m : Outcome Failure A)
    (next : A → Outcome Failure B)
    → Gives P m
    → ((a : A) → P a → Gives Q (next a))
    → Gives Q (m >>= next)
bind-Gives P Q (ok a) next h k = k a h
bind-Gives P Q (err (spool_error e)) next h k = tt
bind-Gives P Q (err (record_error e)) next h k = tt
bind-Gives P Q (err index_error) next h k = absurd h
bind-Gives P Q (err type_error) next h k = absurd h

raised-Gives :
    {A : Type 0} (P : A → Type 0) (m : Outcome ot_security.Receiver.Spool.Error A)
    → Yields P m
    → Gives P (raised m)
unfolding raised
raised-Gives P (ok a) h = h
raised-Gives P (err e) h = tt

anything : {E A : Type 0} (m : Outcome E A) → Yields (λ a. Unit {0}) m
anything (err e) = tt
anything (ok a) = tt

-- What comes after the handling of a record, which its exceptions skip
pub after_record :
    {A B : Type 0} (Q : B → Type 0) (m : Outcome RecordError A) (next : A → Outcome Failure B)
    → ((a : A) → Gives Q (next a))
    → Gives Q (escaped m >>= next)
unfolding escaped
after_record Q (ok a) next k = k a
after_record Q (err e) next k = tt

abbrev Sound : Bool × Spool → Type 0
Sound (_, s) = IsSpool s × (s.total ≤ s.max_bytes)

append-IsSpool :
    (crc32 : Bytes → ℕ) (uuid_bytes : Text → Option Bytes) (s : Spool) (topic : ℕ) (key : Bytes)
    (sensor_id boot_id : Option Text) (seq ts_ms : ℤ) (value : Bytes)
    → IsSpool s
    → s.total ≤ s.max_bytes
    → Yields Sound (append crc32 uuid_bytes s topic key sensor_id boot_id seq ts_ms value)
unfolding append
append-IsSpool crc32 uuid_bytes s topic key sensor_id boot_id seq ts_ms value v h =
    bind-Yields (λ u. Unit {0}) Sound
      (body_of uuid_bytes topic key sensor_id boot_id seq ts_ms value) _ (anything _)
      (λ body u.
        ensure-Yields Sound (ltb (length body) (2 ^ 32)) struct_error _
          (let (w, b, _) = append_record-IsSpool s v (frame crc32 body) h in (w, b)))

module _ {J V R : Type 0} (t : Tools J V R) where
  abbrev pub Kept : Bool × Core R → Type 0
  Kept (_, r) = IsCore r

  pub spooled-IsCore :
      (r : Core R) (topic : ℕ) (key : Bytes) (sensor_id boot_id : Option Text) (seq ts_ms : ℤ)
      (value : Bytes)
      → IsCore r
      → Gives Kept (spooled t r topic key sensor_id boot_id seq ts_ms value)
  unfolding spooled
  spooled-IsCore r topic key sensor_id boot_id seq ts_ms value v =
      bind-Gives Sound Kept
        (raised (append t.crc32 t.uuid_bytes r.spool topic key sensor_id boot_id seq ts_ms value)) _
        (raised-Gives Sound _ (
          append-IsSpool t.crc32 t.uuid_bytes r.spool topic key sensor_id boot_id seq ts_ms value
            v.spool v.bounded))
        (λ p h. record { reassembler = v.reassembler; dedup = v.dedup; spool = h.0; bounded = h.1 })

  refilled-IsCore : (reason : String) (r : Core R) → IsCore r → IsCore (refilled t reason r)
  unfolding refilled
  refilled-IsCore reason r v = record {
    reassembler = v.reassembler;
    dedup = v.dedup;
    spool = v.spool;
    bounded = v.bounded;
  }

  pub marked-IsCore : (c : Complete) (r : Core R) → IsCore r → IsCore (marked c r)
  unfolding marked
  marked-IsCore c r v = record {
    reassembler = v.reassembler;
    dedup = mark-IsSound r.dedup c.sensor_id c.boot_id c.sequence v.dedup;
    spool = v.spool;
    bounded = v.bounded;
  }

  -- A state that differs in what the invariant does not read.
  pub same_parts :
      (r s : Core R)
      → s.reassembler ≡ r.reassembler
      → s.dedup ≡ r.dedup
      → s.spool ≡ r.spool
      → IsCore r
      → IsCore s
  same_parts r s a b c v = record {
    reassembler = subst IsReassembler (sym a) v.reassembler;
    dedup = subst IsSound (sym b) v.dedup;
    spool = subst IsSpool (sym c) v.spool;
    bounded = subst (λ p. p.total ≤ p.max_bytes) (sym c) v.bounded;
  }

  pub quarantine-IsCore :
      (reason : String) (sensor_id boot_id : Option Text) (seq : Option ℕ) (raw : Option Bytes)
      (r : Core R)
      → IsCore r
      → Gives IsCore (quarantine t reason sensor_id boot_id seq raw r)
  unfolding quarantine written
  quarantine-IsCore reason sensor_id boot_id seq raw r v =
      let made = invalid_of t reason sensor_id boot_id seq raw in
      elim (Bool-cases (t.below_one (refilled t reason r).q_tokens)) [
        | inl e ↦
            rw e (same_parts (refilled t reason r) _ refl refl refl (refilled-IsCore reason r v))
        | inr e ↦ rw e (
            after_record IsCore (encoded (t.encode_ascii made.invalid_id)) _ (λ key.
              after_record IsCore (encoded (t.dumps_invalid made)) _ (λ value.
                bind-Gives Kept IsCore (spooled t _ _ _ _ _ _ _ _) _
                  (spooled-IsCore _ _ _ _ _ _ _ _ (
                    same_parts (refilled t reason r) _ refl refl refl (refilled-IsCore reason r v)))
                  (λ p h. h))))
      ]

  pub quarantine_all-IsCore :
      (xs : List Expired) (r : Core R) → IsCore r → Gives IsCore (quarantine_all t xs r)
  unfolding quarantine_all
  quarantine_all-IsCore [] r v = v
  quarantine_all-IsCore (x ∷ xs) r v =
      bind-Gives IsCore IsCore
        (quarantine t (expired_reason x.reason) (some x.key.sensor_id) (some x.key.boot_id)
          (some x.key.sequence) none r)
        _
        (quarantine-IsCore _ (some x.key.sensor_id) (some x.key.boot_id) (some x.key.sequence) none
          r v)
        (λ s w. quarantine_all-IsCore xs s w)
