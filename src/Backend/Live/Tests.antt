-- ===== src/Backend/Live/Tests.antt =====
-- Runs of the hub with one client, and the theorem of its streams at one of them.
use ot_security.Common.{
  ℕ, ◌-◌, ◌≡◌, refl, Bool, true, false, Option, none, some, List, [], ◌∷◌, map, All, arith,
}
use ot_security.Common.Dict.{Text}
use ot_security.Backend.Live.Stream.{
  Live, Step, publish_step, fanout_step, connect_step, advance_step, fanout, publish, connect, step,
  run,
}
use ot_security.Backend.Live.Kept.{Kept}
use ot_security.Backend.Live.Served.{started, run-Kept}

-- A message is not empty; an id ends in a digit.
abbrev stamp : Text → Option Text
stamp [] = none
stamp (c ∷ cs) = some (c ∷ cs)

abbrev parse_int : Text → Option ℕ
parse_int [] = none
parse_int (c ∷ cs) = some (c - 48)

abbrev nonce : Text
nonce = 97 ∷ []

-- The id "a-1"
abbrev first_id : Text
first_id = 97 ∷ 45 ∷ 49 ∷ []

-- Four messages, the last one between the two halves of `connect`, and before the fan-out of the third
abbrev steps : List Step
steps =
    publish_step (1 ∷ [])
    ∷ publish_step (2 ∷ [])
    ∷ fanout_step
    ∷ fanout_step
    ∷ publish_step (3 ∷ [])
    ∷ connect_step (some first_id) ((4 ∷ []) ∷ [])
    ∷ fanout_step
    ∷ fanout_step
    ∷ advance_step 0
    ∷ advance_step 0
    ∷ advance_step 0
    ∷ advance_step 0
    ∷ []

abbrev after_steps : Live
after_steps = run stamp parse_int steps (started nonce 2 5)

run-Kept_example : All (Kept after_steps.published after_steps.scheduled) after_steps.streams
run-Kept_example = run-Kept stamp parse_int nonce 2 5 (omega arith) steps

-- The third item is in the backlog and in the fan-out that follows, and is sent twice.
sent_twice : map (λ s. map (λ i. i.seq) s.sent) after_steps.streams ≡ (2 ∷ 3 ∷ 3 ∷ 4 ∷ []) ∷ []
unfolding run step publish fanout connect ot_security.Common.Dict.text_dec
    ot_security.Common.ℕ_discrete
sent_twice = refl

-- After three items a ring of two has lost the first one, and a client that has none is told so.
abbrev zero_id : Text
zero_id = 97 ∷ 45 ∷ 48 ∷ []

told :
    map
      (λ s. s.resync)
      (run stamp parse_int
        (publish_step (1 ∷ [])
          ∷ publish_step (2 ∷ [])
          ∷ publish_step (3 ∷ [])
          ∷ connect_step (some zero_id) []
          ∷ [])
        (started nonce 2 5)).streams
    ≡ true ∷ []
unfolding run step publish connect ot_security.Common.Dict.text_dec ot_security.Common.ℕ_discrete
told = refl
