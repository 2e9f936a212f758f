-- ===== src/Backend/Auth/Sessions.antt =====
-- The number of sessions stays within its limit, and a session lives from its login to its logout.
use Prim.Native.String.{String}
use ot_security.Common.{
  ℕ, suc, ◌≡◌, refl, sym, ◌∙◌, ◌<◌, ◌≤◌, Bool, Option, none, some, [], ◌∷◌, ltb, leb, if◌then◌else◌,
  arith, if_pos, if_neg, Bool-cases, Option-cases, inl, inr, length,
}
use ot_security.Common.Dict.{
  Dict, Text, text_eq, text_dec, lookup, erase, length-insert-le, length-erase-le,
  length-insert_old,
}
use ot_security.Backend.Auth.{
  AuthStore, Session, oldest, make_room, failures_of, role_of, fail, admit, login, log, expired,
  session, logout,
}

-- A state that is reached by logins, looks at sessions and logouts.
abbrev pub Bounded : {H : Type 0} → AuthStore H → Type 0
Bounded a = length a.sessions ≤ a.max_sessions

length-erase_present :
    (k : Text) (s : Session) (d : Dict Text Session)
    → lookup k d ≡ some s
    → suc (length (erase k d)) ≤ length d
unfolding lookup erase
length-erase_present k s [] h = absurd (cc)
length-erase_present k s ((j, t) ∷ d) h = elim (text_dec k j) [
  | yes e ↦
      rw (if_pos (text_dec k j) e (erase k d) ((j, t) ∷ erase k d))
        (omega (arith, length-erase-le k d))
  | no n ↦
      let later : lookup k d ≡ some s = sym (if_neg (text_dec k j) n (some t) (lookup k d)) ∙ h in
      rw (if_neg (text_dec k j) n (erase k d) ((j, t) ∷ erase k d))
        (omega (arith, length-erase_present k s d later))
]

-- The key of the oldest session is a key.
abbrev Present : Dict Text Session → Option (Text × ℕ) → Type 0
Present d none = d ≡ []
Present d (some (k, _)) = (s : Session) × (lookup k d ≡ some s)

first-Present :
    (k : Text) (s : Session) (d : Dict Text Session) (t : ℕ) → Present ((k, s) ∷ d) (some (k, t))
unfolding lookup
first-Present k s d t = (s, if_pos (text_dec k k) refl (some s) (lookup k d))

later-Present :
    (k j : Text) (s : Session) (d : Dict Text Session) (t : ℕ)
    → Present d (some (j, t))
    → Present ((k, s) ∷ d) (some (j, t))
unfolding lookup
later-Present k j s d t (r, h) = elim (text_dec j k) [
  | yes e ↦ (s, if_pos (text_dec j k) e (some s) (lookup j d))
  | no n ↦ (r, if_neg (text_dec j k) n (some s) (lookup j d) ∙ h)
]

step-Present :
    (k : Text) (s : Session) (d : Dict Text Session) (o : Option (Text × ℕ))
    → Present d o
    → Present ((k, s) ∷ d) (elim o as (λ _. Option (Text × ℕ)) [
      | none ↦ some (k, s.last_seen)
      | some (j, t) ↦ some (if leb s.last_seen t then (k, s.last_seen) else (j, t))
    ])
step-Present k s d none h = first-Present k s d s.last_seen
step-Present k s d (some (j, t)) h = elim (Bool-cases (leb s.last_seen t)) [
  | inl e ↦ rw e (first-Present k s d s.last_seen)
  | inr e ↦ rw e (later-Present k j s d t h)
]

oldest-Present : (d : Dict Text Session) → Present d (oldest d)
unfolding oldest
oldest-Present [] = refl
oldest-Present ((k, s) ∷ d) = step-Present k s d (oldest d) (oldest-Present d)

-- There is room for one more.
make_room-room :
    (limit : ℕ) (d : Dict Text Session)
    → 0 < limit
    → length d ≤ limit
    → length (make_room limit d) < limit
unfolding make_room
make_room-room limit d some_room h = elim (Bool-cases (leb limit (length d))) [
  | inl e ↦ rw e (go (oldest d) (oldest-Present d))
  | inr e ↦ rw e (ground arith)
]
  where
    go :
        (o : Option (Text × ℕ))
        → Present d o
        → length (elim o as (λ _. Dict Text Session) [ none ↦ d | some (k, _) ↦ erase k d ]) < limit
    go none e = rw e some_room
    go (some (k, t)) (s, e) = omega (arith, length-erase_present k s d e, h)

-- An operation of the store.
pub data Operation : Type 0 where
  attempts : ℕ → Text → Text → Text → Operation
  looks : ℕ → Text → Operation
  leaves : Text → Operation

module _ {H : Type 0} (verify : H → Text → Bool) (key : Text → Text) where
  login-Bounded :
      (now : ℕ) (username password token : Text) (a : AuthStore H)
      → 0 < a.max_sessions
      → Bounded a
      → Bounded (login verify key now username password token a).1
  unfolding login fail admit log
  login-Bounded now username password token a some_room h =
      elim (Bool-cases (ltb now (failures_of username a.failures).1)) [
        | inl e ↦ rw e h
        | inr e ↦ rw e (go (role_of verify key username password a))
      ]
    where
      go :
          (o : Option String)
          → Bounded
              (elim o as (λ _. Option Text × AuthStore H) [
                | none ↦ (none, fail verify key now username a)
                | some role ↦ (some token, admit verify key now username role token a)
              ]).1
      go none = h
      go (some role) = omega (
        arith,
        length-insert-le (key token)
            (record { user = username; role = role; created = now; last_seen = now })
            (make_room a.max_sessions a.sessions),
        make_room-room a.max_sessions a.sessions some_room h,
      )

  session-Bounded :
      (now : ℕ) (token : Text) (a : AuthStore H)
      → Bounded a
      → Bounded (session verify key now token a).1
  unfolding session
  session-Bounded now token a h = elim (Option-cases (lookup (key token) a.sessions)) [
    | inl e ↦ rw (e, session) h
    | inr (s, e) ↦ elim (Bool-cases (expired verify key now s a)) [
      | inl g ↦ rw (e, session, g) (omega (arith, length-erase-le (key token) a.sessions, h))
      | inr g ↦
          rw (e, session, g)
            (omega (
              arith,
              length-insert_old (key token) (record s { last_seen = now }) s a.sessions e,
              h,
            ))
    ]
  ]

  logout-Bounded :
      (token : Text) (a : AuthStore H) → Bounded a → Bounded (logout verify key token a)
  unfolding logout log
  logout-Bounded token a h = elim (Option-cases (lookup (key token) a.sessions)) [
    | inl e ↦ rw (e, logout) h
    | inr (s, e) ↦ rw (e, logout) (omega (arith, length-erase-le (key token) a.sessions, h))
  ]

  unfoldable pub apply : Operation → AuthStore H → AuthStore H
  apply (attempts now username password token) a =
      (login verify key now username password token a).1
  apply (looks now token) a = (session verify key now token a).1
  apply (leaves token) a = logout verify key token a

  -- Whatever is done with a store with room for a session, the number of its sessions stays within its limit.
  pub apply-Bounded :
      (o : Operation) (a : AuthStore H) → 0 < a.max_sessions → Bounded a → Bounded (apply o a)
  unfolding apply
  apply-Bounded (attempts now username password token) a some_room h =
      login-Bounded now username password token a some_room h
  apply-Bounded (looks now token) a some_room h = session-Bounded now token a h
  apply-Bounded (leaves token) a some_room h = logout-Bounded token a h
