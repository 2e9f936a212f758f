-- ===== src/Backend/Auth.antt =====
-- backend/sih_api/auth.py: logins, their throttle, and sessions. The hashes of passwords and tokens and the
-- random tokens are parameters; times are in milliseconds.
pub mod Throttle
pub mod Sessions
mod Tests
use Prim.Native.String.{String}
use ot_security.Common.{
  ℕ, zero, suc, ◌+◌, ◌-◌, ◌*◌, Bool, true, false, ◌&&◌, ◌||◌, not, Option, none, some, List, [],
  ◌∷◌, ◌++◌, ltb, leb, if◌then◌else◌, length,
}
use ot_security.Common.Dict.{Dict, Text, text_eq, lookup, insert, erase}

pub record Session : Type 0 where
  pub user : Text
  pub role : String
  pub created : ℕ
  pub last_seen : ℕ

-- `AuthStore`, for the type H of password hashes; the audit log holds the events and their users.
pub record AuthStore (H : Type 0) : Type 0 where
  pub users : Dict Text (String × H)
  pub sessions : Dict Text Session
  pub failures : Dict Text (ℕ × ℕ)
  pub idle_s : ℕ
  pub max_age_s : ℕ
  pub max_sessions : ℕ
  pub audit : List (String × Text)

-- `self._failures.get(username, (0, 0.0))`
unfoldable pub failures_of : Text → Dict Text (ℕ × ℕ) → ℕ × ℕ
failures_of username d = elim (lookup username d) [ none ↦ (0, 0) | some f ↦ f ]

-- `min(self._sessions, key=...)`: the first of the sessions that were seen last at the earliest time
unfoldable pub oldest : Dict Text Session → Option (Text × ℕ)
oldest [] = none
oldest ((k, s) ∷ d) = elim (oldest d) [
  | none ↦ some (k, s.last_seen)
  | some (j, t) ↦ some (if leb s.last_seen t then (k, s.last_seen) else (j, t))
]

-- The eviction of `login`; without sessions, a limit of 0 would raise a ValueError.
unfoldable pub make_room : ℕ → Dict Text Session → Dict Text Session
unfolding oldest
make_room max_sessions sessions =
    if leb max_sessions (length sessions)
    then elim (oldest sessions) [ none ↦ sessions | some (k, _) ↦ erase k sessions ]
    else sessions

module _ {H : Type 0} (verify : H → Text → Bool) (key : Text → Text) where
  unfoldable pub log : String → Text → AuthStore H → AuthStore H
  log event user a = record a { audit = a.audit ++ ((event, user) ∷ []) }

  -- The role, where the user is known and the password is right; for an unknown user the answer of the dummy
  -- hash does not matter.
  unfoldable pub role_of : Text → Text → AuthStore H → Option String
  role_of username password a = elim (lookup username a.users) [
    | none ↦ none
    | some (role, hashed) ↦ if verify hashed password then some role else none
  ]

  unfoldable pub fail : ℕ → Text → AuthStore H → AuthStore H
  unfolding failures_of log
  fail now username a =
      let count = (failures_of username a.failures).0 + 1 in
      log "login_failed" username (record a {
        failures = insert username (count, if leb 5 count then now + 60000 else 0) a.failures;
      })

  unfoldable pub admit : ℕ → Text → String → Text → AuthStore H → AuthStore H
  unfolding make_room log
  admit now username role token a =
      let s : Session = record { user = username; role = role; created = now; last_seen = now } in
      log "login" username (record a {
        failures = erase username a.failures;
        sessions = insert (key token) s (make_room a.max_sessions a.sessions);
      })

  -- `login`, for the token that `secrets` gives: the session is the one under the token.
  unfoldable pub login : ℕ → Text → Text → Text → AuthStore H → Option Text × AuthStore H
  unfolding failures_of log role_of fail admit
  login now username password token a =
      if ltb now (failures_of username a.failures).1
      then (none, log "login_locked" username a)
      else elim (role_of username password a) [
        | none ↦ (none, fail now username a)
        | some role ↦ (some token, admit now username role token a)
      ]

  -- `now - s.last_seen > self.idle_s or now - s.created > self.max_age_s`
  unfoldable pub expired : ℕ → Session → AuthStore H → Bool
  expired now s a =
      ltb (a.idle_s * 1000) (now - s.last_seen) || ltb (a.max_age_s * 1000) (now - s.created)

  -- `session`, for a token that is not empty
  unfoldable pub session : ℕ → Text → AuthStore H → Option Session × AuthStore H
  unfolding expired
  session now token a = elim (lookup (key token) a.sessions) [
    | none ↦ (none, a)
    | some s ↦
        if expired now s a
        then (none, record a { sessions = erase (key token) a.sessions })
        else (let seen : Session = record s { last_seen = now } in
            (some seen, record a { sessions = insert (key token) seen a.sessions }))
  ]

  -- `logout`, for a token that is not empty
  unfoldable pub logout : Text → AuthStore H → AuthStore H
  unfolding log
  logout token a = elim (lookup (key token) a.sessions) [
    | none ↦ a
    | some s ↦ log "logout" s.user (record a { sessions = erase (key token) a.sessions })
  ]
