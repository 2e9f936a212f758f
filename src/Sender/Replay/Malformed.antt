-- ===== src/Sender/Replay/Malformed.antt =====
-- What has been counted as invalid before does not matter to the records that are sent.
use Prim.Native.String.{String}
use ot_security.Common.{
  ℕ, ◌+◌, ◌-◌, ◌*◌, ◌≡◌, refl, ap, ◌∙◌, Bool, false, Option, some, List, [], ◌∷◌, leb,
  if◌then◌else◌, length, take, drop, min, Outcome, ok, err, ◌>>=◌, arith, Bool-cases, inl, inr,
}
use ot_security.Common.Int.{ℤ}
use ot_security.Common.Bytes.{Bytes}
use ot_security.Common.Dict.{Text}
use ot_security.Link.Frame
use ot_security.Link.Frame.{
  type_event, record_too_large, value_error, unicode_error, struct_error, frame_malformed,
  frame_hmac_invalid,
}
use ot_security.Sender.Link.{LinkWriter, send}
use ot_security.Sender.Normalizer
use ot_security.Sender.Normalizer.{Normalized, TooLarge, normalize, envelope}
use ot_security.Sender.Normalizer.Fields.{normalization_error, invalid_operation, type_error}
use ot_security.Sender.State.{Run, mark_completed}
use ot_security.Sender.Context.{
  Settings, SenderContext, Escape, of_number, of_set, oversize, sent, send_normalized, send_record,
}
use ot_security.Sender.Replay.{Item, the_run, replay_one, replay_from, replay_items}

-- The context with more lines counted as invalid
abbrev pub more_invalid : ℕ → SenderContext → SenderContext
more_invalid n c = record c { invalid_local = c.invalid_local + n }

-- The answer, with more lines counted
abbrev with_more :
    {A : Type 0} → ℕ → Outcome Escape (A × SenderContext) → Outcome Escape (A × SenderContext)
with_more n m = m >>= λ p. ok (p.0, more_invalid n p.1)

module _ {D F : Type 0} (cfg : Settings D F) (n : ℕ) where
  sent-more_invalid :
      (c : SenderContext) (r : ot_security.Link.Frame.Result LinkWriter)
      → sent cfg (more_invalid n c) r ≡ with_more n (sent cfg c r)
  unfolding sent oversize
  sent-more_invalid c (ok l) = refl
  sent-more_invalid c (err record_too_large) = refl
  sent-more_invalid c (err value_error) = refl
  sent-more_invalid c (err unicode_error) = refl
  sent-more_invalid c (err struct_error) = refl
  sent-more_invalid c (err frame_malformed) = refl
  sent-more_invalid c (err frame_hmac_invalid) = refl

  send_normalized-more_invalid :
      (x : Normalized F) (seq : ℕ) (run_id : Option Text) (offset_us : ℤ) (c : SenderContext)
      → send_normalized cfg x seq run_id offset_us (more_invalid n c)
        ≡ with_more n (send_normalized cfg x seq run_id offset_us c)
  unfolding send_normalized oversize
  send_normalized-more_invalid x seq run_id offset_us c = go (
      envelope cfg.sha256 cfg.event_id cfg.dumps cfg.coverage x cfg.sensor_id c.state.boot_id seq
        run_id offset_us cfg.capture_mode)
    where
      go :
          (o : Outcome TooLarge Bytes)
          → ◌≡◌ {A = Outcome Escape (Bool × SenderContext)}
              (elim o [
                | err _ ↦ ok (oversize cfg (more_invalid n c))
                | ok bytes ↦ sent cfg (more_invalid n c) (
                    send cfg.codec cfg.reaches type_event cfg.sensor_id c.state.boot_id seq bytes
                      c.link)
              ])
              (with_more n (elim o [
                | err _ ↦ ok (oversize cfg c)
                | ok bytes ↦ sent cfg c (
                    send cfg.codec cfg.reaches type_event cfg.sensor_id c.state.boot_id seq bytes
                      c.link)
              ]))
      go (err e) = refl
      go (ok bytes) = sent-more_invalid c _

  send_record-more_invalid :
      (log_type : String) (line : Text) (seq : ℕ) (run_id : Option Text) (offset_us : ℤ)
      (c : SenderContext)
      → send_record cfg log_type line seq run_id offset_us (more_invalid n c)
        ≡ with_more n (send_record cfg log_type line seq run_id offset_us c)
  unfolding send_record
  send_record-more_invalid log_type line seq run_id offset_us c =
      go (normalize cfg.tools cfg.loads cfg.coverage log_type line)
    where
      read : SenderContext
      read = record c { records_read = c.records_read + 1 }

      invalid : SenderContext → Outcome Escape (Bool × SenderContext)
      invalid s = ok (false, record s { invalid_local = s.invalid_local + 1 })

      go :
          (o : Outcome ot_security.Sender.Normalizer.Fields.Error (Normalized F))
          → ◌≡◌ {A = Outcome Escape (Bool × SenderContext)}
              (elim o [
                | err (normalization_error _) ↦ invalid (more_invalid n read)
                | err invalid_operation ↦ err of_number
                | err type_error ↦ err of_set
                | ok x ↦ send_normalized cfg x seq run_id offset_us (more_invalid n read)
              ])
              (with_more n (elim o [
                | err (normalization_error _) ↦ invalid read
                | err invalid_operation ↦ err of_number
                | err type_error ↦ err of_set
                | ok x ↦ send_normalized cfg x seq run_id offset_us read
              ]))
      go (err (normalization_error _)) =
          let e : (c.invalid_local + n) + 1 ≡ (c.invalid_local + 1) + n = omega arith in
          ap (λ k. ok (false, record read { invalid_local = k })) e
      go (err invalid_operation) = refl
      go (err type_error) = refl
      go (ok x) = send_normalized-more_invalid x seq run_id offset_us read

  replay_one-more_invalid :
      (run : Run) (limit i : ℕ) (x : Item) (c : SenderContext)
      → replay_one cfg run limit i x (more_invalid n c)
        ≡ (replay_one cfg run limit i x c >>= λ d. ok (more_invalid n d))
  unfolding replay_one
  replay_one-more_invalid run limit i x c =
      ap (λ m. m >>= moved)
        (send_record-more_invalid x.log_type x.line (run.base_sequence + i) (some run.run_id)
          run.offset_us c)
      ∙ go (
          send_record cfg x.log_type x.line (run.base_sequence + i) (some run.run_id) run.offset_us
            c)
    where
      moved : Bool × SenderContext → Outcome Escape SenderContext
      moved p = ok (record p.1 {
        state = record p.1.state { current_run = some (record run { next_index = i + 1 }) };
        backlog_bytes = (limit - i - 1) * 400;
      })

      go :
          (m : Outcome Escape (Bool × SenderContext))
          → (with_more n m >>= moved) ≡ ((m >>= moved) >>= λ d. ok (more_invalid n d))
      go (err e) = refl
      go (ok p) = refl

  module _ (stopped : ℕ → Bool) where
    replay_from-more_invalid :
        (run : Run) (limit i : ℕ) (xs : List Item) (c : SenderContext)
        → replay_from cfg stopped run limit i xs (more_invalid n c)
          ≡ with_more n (replay_from cfg stopped run limit i xs c)
    unfolding replay_from
    replay_from-more_invalid run limit i [] c = refl
    replay_from-more_invalid run limit i (x ∷ xs) c = elim (Bool-cases (stopped i)) [
      | inl s ↦ rw s refl
      | inr s ↦ rw s (
          ap (λ m. m >>= λ d. replay_from cfg stopped run limit (i + 1) xs d)
            (replay_one-more_invalid run limit i x c)
          ∙ go (λ d. replay_from-more_invalid run limit (i + 1) xs d)
              (replay_one cfg run limit i x c))
    ]
      where
        next : SenderContext → Outcome Escape (ℕ × SenderContext)
        next d = replay_from cfg stopped run limit (i + 1) xs d

        go :
            ((d : SenderContext) → next (more_invalid n d) ≡ with_more n (next d))
            → (m : Outcome Escape SenderContext)
            → ((m >>= λ d. ok (more_invalid n d)) >>= next) ≡ with_more n (m >>= next)
        go later (err e) = refl
        go later (ok d) = later d

    -- The replay of the items
    pub replay_items-more_invalid :
        (run_id : Text) (now_us : ℤ) (items : List Item) (c : SenderContext)
        → replay_items cfg stopped run_id now_us items (more_invalid n c)
          ≡ (replay_items cfg stopped run_id now_us items c >>= λ d. ok (more_invalid n d))
    unfolding replay_items
    replay_items-more_invalid run_id now_us items c =
        ap (λ m. m >>= finish)
          (replay_from-more_invalid run limit run.next_index
            (drop run.next_index (take limit items))
            (record c { state = (the_run run_id now_us items c.state).1 }))
        ∙ go (
            replay_from cfg stopped run limit run.next_index
              (drop run.next_index (take limit items))
              (record c { state = (the_run run_id now_us items c.state).1 }))
      where
        run : Run
        run = (the_run run_id now_us items c.state).0

        limit : ℕ
        limit = min run.total (length items)

        finish : ℕ × SenderContext → Outcome Escape SenderContext
        finish (i, d) = ok (
            if leb limit i
            then record d { state = mark_completed run_id d.state; backlog_bytes = 0 }
            else d)

        go :
            (m : Outcome Escape (ℕ × SenderContext))
            → (with_more n m >>= finish) ≡ ((m >>= finish) >>= λ d. ok (more_invalid n d))
        go (err e) = refl
        go (ok (i, d)) = elim (Bool-cases (leb limit i)) [ inl e ↦ rw e refl | inr e ↦ rw e refl ]
