-- ===== src/Backend/Auth/Throttle.antt =====
-- Five wrong passwords in a row lock a user out for a minute.
use Prim.Native.String.{String}
use ot_security.Common.{
  ℕ, suc, ◌+◌, ◌≡◌, refl, sym, ◌∙◌, ap, ◌<◌, ◌≤◌, Bool, true, false, Option, none, some, List, [],
  ◌∷◌, ltb, leb, if◌then◌else◌, arith, if_pos, lt→ltb, le→ltb, length, subst,
}
use ot_security.Common.Dict.{Text, text_eq, text_dec, lookup, lookup-insert}
use ot_security.Backend.Auth.{AuthStore, failures_of, role_of, fail, login, log}

module _ {H : Type 0} (verify : H → Text → Bool) (key : Text → Text) where
  failures_of-fail :
      (now : ℕ) (username : Text) (a : AuthStore H)
      → let count = (failures_of username a.failures).0 + 1 in
        failures_of username (fail verify key now username a).failures
        ≡ (count, if leb 5 count then now + 60000 else 0)
  unfolding fail failures_of log
  failures_of-fail now username a =
      ap (λ o. elim o as (λ _. ℕ × ℕ) [ none ↦ (0, 0) | some f ↦ f ])
        (lookup-insert username username _ a.failures
          ∙ if_pos (text_dec username username) refl _ _)

  -- A login with a wrong password that is not locked out.
  wrong :
      (now : ℕ) (username password token : Text) (a : AuthStore H) (count : ℕ)
      → role_of verify key username password a ≡ none
      → failures_of username a.failures ≡ (count, 0)
      → login verify key now username password token a ≡ (none, fail verify key now username a)
  unfolding login
  wrong now username password token a count w h =
      rw (ap (λ p. ltb now p.1) h ∙ le→ltb now 0 (omega arith), w) refl

  -- Logins of one user, one after the other, by their times, passwords and tokens.
  unfoldable pub tries : Text → List (ℕ × Text × Text) → AuthStore H → AuthStore H
  tries username [] a = a
  tries username ((now, password, token) ∷ ws) a =
      tries username ws (login verify key now username password token a).1

  -- None of the passwords is right.
  abbrev pub AllWrong : Text → AuthStore H → List (ℕ × Text × Text) → Type 0
  AllWrong username a [] = Unit
  AllWrong username a ((_, password, _) ∷ ws) =
      (role_of verify key username password a ≡ none) × AllWrong username a ws

  AllWrong-fail :
      (username : Text) (ws : List (ℕ × Text × Text)) (a : AuthStore H) (now : ℕ)
      → AllWrong username a ws
      → AllWrong username (fail verify key now username a) ws
  unfolding role_of fail log
  AllWrong-fail username [] a now h = tt
  AllWrong-fail username (x ∷ ws) a now (w, later) = (w, AllWrong-fail username ws a now later)

  one_failure :
      (now : ℕ) (username : Text) (a : AuthStore H) (count : ℕ)
      → count < 4
      → failures_of username a.failures ≡ (count, 0)
      → failures_of username (fail verify key now username a).failures ≡ (count + 1, 0)
  one_failure now username a count few h =
      failures_of-fail now username a
      ∙ ap (λ p. (p.0 + 1, if leb 5 (p.0 + 1) then now + 60000 else 0)) h
      ∙ small (leb 5 (count + 1)) refl
    where
      small :
          (b : Bool)
          → leb 5 (count + 1) ≡ b
          → ◌≡◌ {A = ℕ × ℕ} (count + 1, if b then now + 60000 else 0) (count + 1, 0)
      small true e = absurd (ground arith)
      small false e = refl

  -- After wrong passwords only, few enough, their number is counted and nothing is locked.
  Counted : Text → ℕ → AuthStore H → AuthStore H → Type 0
  Counted username count a b =
      (failures_of username b.failures ≡ (count, 0))
      × (b.users ≡ a.users)
      × (b.sessions ≡ a.sessions)

  tries-Counted :
      (username : Text) (ws : List (ℕ × Text × Text)) (a : AuthStore H) (count : ℕ)
      → length ws + count ≤ 4
      → AllWrong username a ws
      → failures_of username a.failures ≡ (count, 0)
      → Counted username (length ws + count) a (tries username ws a)
  unfolding tries Counted fail log
  tries-Counted username [] a count few w h =
      let none_more : count ≡ 0 + count = omega arith in
      (h ∙ ap (λ n. (n, 0)) none_more, refl, refl)
  tries-Counted username ((now, password, token) ∷ ws) a count few (w, later) h =
      let same = wrong now username password token a count w h in
      let (f, u, s) =
        tries-Counted username ws (fail verify key now username a) (count + 1) (omega (arith, few))
          (AllWrong-fail username ws a now later)
          (one_failure now username a count (omega (arith, few)) h) in
      let sum : length ws + (count + 1) ≡ suc (length ws) + count = omega arith in
      subst (λ r. Counted username (suc (length ws) + count) a (tries username ws r.1)) (sym same)
        (f ∙ ap (λ n. (n, 0)) sum, u, s)

  role_of-users :
      (username password : Text) (a b : AuthStore H)
      → b.users ≡ a.users
      → role_of verify key username password b ≡ role_of verify key username password a
  unfolding role_of
  role_of-users username password a b e =
      ap
        (λ users. elim (lookup {V = String × H} username users) as (λ _. Option String) [
          | none ↦ none
          | some (role, hashed) ↦ if verify hashed password then some role else none
        ])
        e

  locked :
      (later : ℕ) (username password token : Text) (a : AuthStore H) (count until : ℕ)
      → failures_of username a.failures ≡ (count, until)
      → later < until
      → login verify key later username password token a
        ≡ (none, log verify key "login_locked" username a)
  unfolding login
  locked later username password token a count until h early =
      rw (ap (λ p. ltb later p.1) h ∙ lt→ltb later until early) refl

  sessions-fail :
      (now : ℕ) (username : Text) (a : AuthStore H)
      → (fail verify key now username a).sessions ≡ a.sessions
  unfolding fail log
  sessions-fail now username a = refl

  sessions-log :
      (event user : Text) (name : String) (a : AuthStore H)
      → (log verify key name user a).sessions ≡ a.sessions
  unfolding log
  sessions-log event user name a = refl

  locked_after :
      (username : Text) (a b : AuthStore H) (now later : ℕ) (password token any other : Text)
      → role_of verify key username password b ≡ none
      → failures_of username b.failures ≡ (4, 0)
      → later < now + 60000
      → let c = (login verify key now username password token b).1 in
        ((login verify key later username any other c).0 ≡ none)
        × ((login verify key later username any other c).1.sessions ≡ b.sessions)
  locked_after username a b now later password token any other w h early =
      let until : failures_of username (fail verify key now username b).failures
          ≡ (5, now + 60000) =
        failures_of-fail now username b
        ∙ ap (λ p. (p.0 + 1, if leb 5 (p.0 + 1) then now + 60000 else 0)) h in
      let shut =
        locked later username any other (fail verify key now username b) 5 (now + 60000) until
          early in
      subst
        (λ r.
          ((login verify key later username any other r.1).0 ≡ none)
          × ((login verify key later username any other r.1).1.sessions ≡ b.sessions))
        (sym (wrong now username password token b 4 w h))
        (
          ap (λ r. r.0) shut,
          ap (λ r. r.1.sessions) shut
              ∙ sessions-log username username "login_locked" (fail verify key now username b)
              ∙ sessions-fail now username b,
        )

  -- A fifth wrong password after four, by a user whose count is 0, locks the user out: until a minute has passed, no
  -- password is accepted, not the right one either, and no session begins.
  pub login-tries :
      (username : Text) (ws : List (ℕ × Text × Text)) (a : AuthStore H) (now later : ℕ)
      (password token any other : Text)
      → length ws ≡ 4
      → AllWrong username a ((now, password, token) ∷ ws)
      → failures_of username a.failures ≡ (0, 0)
      → later < now + 60000
      → let b = (login verify key now username password token (tries username ws a)).1 in
        ((login verify key later username any other b).0 ≡ none)
        × ((login verify key later username any other b).1.sessions ≡ a.sessions)
  unfolding Counted
  login-tries username ws a now later password token any other four (w, ws_wrong) h early =
      let (f, u, s) = tries-Counted username ws a 0 (omega (arith, four)) ws_wrong h in
      let sum : length ws + 0 ≡ 4 = omega (arith, four) in
      let (closed, same) =
        locked_after username a (tries username ws a) now later password token any other
          (role_of-users username password a (tries username ws a) u ∙ w) (f ∙ ap (λ n. (n, 0)) sum)
          early in
      (closed, same ∙ s)
