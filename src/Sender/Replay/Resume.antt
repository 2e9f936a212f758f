-- ===== src/Sender/Replay/Resume.antt =====
-- A replay that is interrupted and resumed sends what an uninterrupted one sends.
use ot_security.Common.{
  ℕ, zero, suc, ◌+◌, ◌-◌, ◌*◌, ◌≡◌, refl, sym, ap, subst, ◌∙◌, Bool, false, none, some, List, [],
  ◌∷◌, leb, if◌then◌else◌, length, take, drop, min, Outcome, ok, err, ◌>>=◌, arith, Bool-cases, inl,
  inr, if_pos,
}
use Prim.Native.String.{String}
use ot_security.Common.Int.{ℤ}
use ot_security.Common.Bytes.{Bytes}
use ot_security.Common.Dict.{Text, text_dec}
use ot_security.Sender.State.{Run, SenderState, mark_completed}
use ot_security.Sender.Context.{Settings, SenderContext, Escape, send_record}
use ot_security.Sender.Replay.{Item, the_run, replay_one, replay_from, replay_items, replay}

drop_tail :
    {A : Type 0} (zs : List A) (i : ℕ) (x : A) (xs : List A)
    → x ∷ xs ≡ drop i zs
    → xs ≡ drop (suc i) zs
drop_tail [] zero x xs e = absurd (cc)
drop_tail [] (suc i) x xs e = absurd (cc)
drop_tail (z ∷ zs) zero x xs e = cc
drop_tail (z ∷ zs) (suc i) x xs e = drop_tail zs i x xs e

drop_next :
    {A : Type 0} (zs : List A) (i : ℕ) (x : A) (xs : List A)
    → x ∷ xs ≡ drop i zs
    → xs ≡ drop (i + 1) zs
drop_next zs i x xs e =
    let same : suc i ≡ i + 1 = omega arith in
    subst (λ k. xs ≡ drop k zs) same (drop_tail zs i x xs e)

abbrev pub never : ℕ → Bool
never i = false

-- The run in progress is at the index.
abbrev At : Run → ℕ → SenderContext → Type 0
At run i c = c.state.current_run ≡ some (record run { next_index = i })

module _ {D F : Type 0} (cfg : Settings D F) (run : Run) (limit : ℕ) where
  replay_one-At :
      (i : ℕ) (x : Item) (c d : SenderContext)
      → replay_one cfg run limit i x c ≡ ok d
      → At run (i + 1) d
  unfolding replay_one
  replay_one-At i x c d =
      go (
        send_record cfg x.log_type x.line (run.base_sequence + i) (some run.run_id) run.offset_us c)
    where
      go :
          (m : Outcome Escape (Bool × SenderContext))
          → (m >>= λ p. ok (record p.1 {
            state = record p.1.state { current_run = some (record run { next_index = i + 1 }) };
            backlog_bytes = (limit - i - 1) * 400;
          }))
            ≡ ok d
          → At run (i + 1) d
      go (err e) h = absurd (cc)
      go (ok p) h = subst (λ o. elim o [ err _ ↦ Unit {0} | ok s ↦ At run (i + 1) s ]) h refl

  module _ (stopped : ℕ → Bool) (zs : List Item) (j : ℕ) (d : SenderContext) where
    -- Where a loop has ended, an uninterrupted one goes on.
    abbrev GoesOn : ℕ → List Item → SenderContext → ℕ × SenderContext → Type 0
    GoesOn i xs c (k, s) =
        At run k s
        × (replay_from cfg never run limit i xs c ≡ replay_from cfg never run limit k (drop k zs) s)

    replay_from-GoesOn :
        (i : ℕ) (xs : List Item) (c : SenderContext)
        → xs ≡ drop i zs
        → At run i c
        → replay_from cfg stopped run limit i xs c ≡ ok (j, d)
        → GoesOn i xs c (j, d)
    unfolding replay_from
    replay_from-GoesOn i [] c e a h =
        subst (λ o. elim o [ err _ ↦ Unit {0} | ok p ↦ GoesOn i [] c p ]) h
          (a, ap (λ l. replay_from cfg never run limit i l c) e)
    replay_from-GoesOn i (x ∷ xs) c e a h = elim (Bool-cases (stopped i)) [
      | inl s ↦
          subst (λ o. elim o [ err _ ↦ Unit {0} | ok p ↦ GoesOn i (x ∷ xs) c p ]) (rw (s) at h)
            (a, ap (λ l. replay_from cfg never run limit i l c) e)
      | inr s ↦
          go (λ s. replay_from-GoesOn (i + 1) xs s (drop_next zs i x xs e))
            (replay_one cfg run limit i x c) refl (rw (s) at h)
    ]
      where
        go :
            ((s : SenderContext)
              → At run (i + 1) s
              → replay_from cfg stopped run limit (i + 1) xs s ≡ ok (j, d)
              → GoesOn (i + 1) xs s (j, d))
            → (m : Outcome Escape SenderContext) → replay_one cfg run limit i x c ≡ m
            → (m >>= λ s. replay_from cfg stopped run limit (i + 1) xs s) ≡ ok (j, d)
            → At run j d
              × ((replay_one cfg run limit i x c >>= λ s.
                    replay_from cfg never run limit (i + 1) xs s)
                  ≡ replay_from cfg never run limit j (drop j zs) d)
        go later (err f) same g = absurd (cc)
        go later (ok s) same g =
            let (b, next) = later s (replay_one-At i x c s same) g in
            (b, ap (λ m. m >>= λ s. replay_from cfg never run limit (i + 1) xs s) same ∙ next)

bind_same :
    {E A B : Type 0} (m : Outcome E A) (f g : A → Outcome E B)
    → ((a : A) → f a ≡ g a)
    → (m >>= f) ≡ (m >>= g)
bind_same (err e) f g h = refl
bind_same (ok a) f g h = h a

taken :
    (run_id : Text) (now_us : ℤ) (items : List Item) (st : SenderState) (run : Run)
    → st.current_run ≡ some run
    → run.run_id ≡ run_id
    → the_run run_id now_us items st ≡ (run, st)
unfolding the_run
taken run_id now_us items st run e f = rw (e) (if_pos (text_dec run.run_id run_id) f _ _)

module _ {D F : Type 0} (cfg : Settings D F) (stopped : ℕ → Bool) where
  -- The index that the run is at does not matter to its loop.
  replay_from-run :
      (run : Run) (k limit i : ℕ) (xs : List Item) (c : SenderContext)
      → replay_from cfg stopped (record run { next_index = k }) limit i xs c
        ≡ replay_from cfg stopped run limit i xs c
  unfolding replay_from replay_one
  replay_from-run run k limit i [] c = refl
  replay_from-run run k limit i (x ∷ xs) c = elim (Bool-cases (stopped i)) [
    | inl s ↦ rw s refl
    | inr s ↦ rw s (
        bind_same (replay_one cfg run limit i x c) _ _
          (λ d. replay_from-run run k limit (i + 1) xs d))
  ]

  -- What `replay` does after its loop.
  abbrev finish : Text → ℕ → ℕ × SenderContext → Outcome Escape SenderContext
  finish run_id limit (i, d) = ok (
      if leb limit i
      then record d { state = mark_completed run_id d.state; backlog_bytes = 0 }
      else d)

  -- A run in progress is taken up where it is.
  replay_items-current :
      (run_id : Text) (now_us : ℤ) (items : List Item) (c : SenderContext) (run : Run)
      → c.state.current_run ≡ some run
      → run.run_id ≡ run_id
      → replay_items cfg stopped run_id now_us items c ≡ (
          replay_from cfg stopped run
            (min run.total (length items))
            run.next_index
            (drop run.next_index (take (min run.total (length items)) items))
            c
          >>= finish run_id (min run.total (length items)))
  unfolding replay
  replay_items-current run_id now_us items c run e f =
      ap
        (λ p.
          replay_from cfg stopped p.0 (min p.0.total (length items)) p.0.next_index
            (drop p.0.next_index (take (min p.0.total (length items)) items))
            (record c { state = p.1 })
          >>= finish run_id (min p.0.total (length items)))
        (taken run_id now_us items c.state run e f)

module _ {D F : Type 0} (cfg : Settings D F) (stopped : ℕ → Bool) (run_id : Text)
    (now_us later_us : ℤ) (items : List Item) (c d : SenderContext) (run : Run)
    (current : c.state.current_run ≡ some run) (named : run.run_id ≡ run_id) where
  abbrev limit : ℕ
  limit = min run.total (length items)

  abbrev indexed : List Item
  indexed = take limit items

  -- An interrupted loop leaves the run where it ended.
  interrupted :
      (m : Outcome Escape (ℕ × SenderContext))
      → replay_from cfg stopped run limit run.next_index (drop run.next_index indexed) c ≡ m
      → (m >>= finish cfg stopped run_id limit) ≡ ok d
      → ¬ (d.state.current_run ≡ none)
      → (j : ℕ) × (replay_from cfg stopped run limit run.next_index (drop run.next_index indexed) c
          ≡ ok (j, d))
  unfolding mark_completed
  interrupted (err e) same h open_run = absurd (cc)
  interrupted (ok (j, s)) same h open_run = elim (Bool-cases (leb limit j)) [
    | inl e ↦ absurd (open_run (completed (rw (e) at h)))
    | inr e ↦
        let kept : ◌≡◌ {A = Outcome Escape SenderContext} (ok s) (ok d) = rw (e) at h in
        (j, same ∙ ap (λ m. m >>= λ x. ok (j, x)) kept)
  ]
    where
      completed :
          ◌≡◌ {A = Outcome Escape SenderContext}
            (ok (record s { state = mark_completed run_id s.state; backlog_bytes = 0 }))
            (ok d)
          → d.state.current_run ≡ none
      completed g =
          subst (λ o. elim o [ err _ ↦ Unit {0} | ok x ↦ x.state.current_run ≡ none ]) g refl

  -- The same for the items, which are those of both replays.
  pub replay_items_twice :
      replay_items cfg stopped run_id now_us items c ≡ ok d
      → ¬ (d.state.current_run ≡ none)
      → replay_items cfg never run_id later_us items d
        ≡ replay_items cfg never run_id now_us items c
  replay_items_twice h open_run =
      let (j, ended) =
        interrupted
          (replay_from cfg stopped run limit run.next_index (drop run.next_index indexed) c) refl
          (sym (replay_items-current cfg stopped run_id now_us items c run current named) ∙ h)
          open_run in
      let (at, goes) =
        replay_from-GoesOn cfg run limit stopped indexed j d run.next_index
          (drop run.next_index indexed) c refl current ended in
      replay_items-current cfg never run_id later_us items d (record run { next_index = j }) at
        named
      ∙ ap (λ m. m >>= finish cfg never run_id limit)
          (replay_from-run cfg never run j limit j (drop j indexed) d ∙ sym goes)
      ∙ sym (replay_items-current cfg never run_id now_us items c run current named)
