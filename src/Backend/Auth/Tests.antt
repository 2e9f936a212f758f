-- ===== src/Backend/Auth/Tests.antt =====
-- A store with one user, and each theorem at an input that meets its hypotheses.
use ot_security.Common.{ℕ, ◌≡◌, refl, Bool, none, [], ◌∷◌, arith, length, ℕ_discrete, ◌==◌}
use ot_security.Common.Dict.{Text, lookup, text_dec}
use ot_security.Backend.Auth.{AuthStore, failures_of, role_of, login}
use ot_security.Backend.Auth.Throttle.{tries, login-tries}
use ot_security.Backend.Auth.Sessions.{Bounded, attempts, apply, apply-Bounded}

-- A hash is the length of the password.
abbrev verify : ℕ → Text → Bool
verify h password = h == length password

abbrev key : Text → Text
key token = token

abbrev store : AuthStore ℕ
store = record {
  users = (97 ∷ [], ("admin", 3)) ∷ [];
  sessions = [];
  failures = [];
  idle_s = 1800;
  max_age_s = 28800;
  max_sessions = 1000;
  audit = [];
}

abbrev guess : ℕ × Text × Text
guess = (1000, [], [])

login-tries_example :
    let b =
      (login verify key 2000
        (97 ∷ [])
        []
        []
        (tries verify key (97 ∷ []) (guess ∷ guess ∷ guess ∷ guess ∷ []) store)).1 in
    ((login verify key 61000 (97 ∷ []) (1 ∷ 2 ∷ 3 ∷ []) [] b).0 ≡ none)
    × ((login verify key 61000 (97 ∷ []) (1 ∷ 2 ∷ 3 ∷ []) [] b).1.sessions ≡ [])
unfolding role_of lookup text_dec ℕ_discrete failures_of
login-tries_example =
    login-tries verify key (97 ∷ []) (guess ∷ guess ∷ guess ∷ guess ∷ []) store 2000 61000 [] []
      (1 ∷ 2 ∷ 3 ∷ []) [] refl (refl, (refl, (refl, (refl, (refl, tt))))) refl (omega arith)

apply-Bounded_example :
    Bounded (apply verify key (attempts 5 (97 ∷ []) (1 ∷ 2 ∷ 3 ∷ []) (9 ∷ [])) store)
apply-Bounded_example =
    apply-Bounded verify key (attempts 5 (97 ∷ []) (1 ∷ 2 ∷ 3 ∷ []) (9 ∷ [])) store (omega arith)
      (omega arith)
