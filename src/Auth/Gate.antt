-- ===== src/Auth/Gate.antt =====
-- What lets a request through `auth_middleware` of packages/crab_city/src/auth.rs, and why a request is
-- refused.
use crabcity.Auth.Cookies.{extract_session_token}
use crabcity.Auth.Forgery.{IsForged, IsGenuine}
use crabcity.Auth.Middleware.{
  Request, Verdict, auth_user_of, passed, rejected, synthetic_loopback_admin,
}
use crabcity.Auth.Paths.{IsOpenPath}
use crabcity.Auth.Tables.{
  Faults, answered, find_session_by, find_user_by, get_session_with_user, has_id, session_query,
}
use crabcity.Auth.Texts.{eq_text-true}
use crabcity.Auth.Types.{AuthConfig, AuthUser, Db, Session, User}
use crabcity.Shared.{
  Bool, Bool-cases, List, Option, Option-cases, Text, [], ap, arith, eq_text, false, inl, inr, none,
  some, subst, sym, true, ℕ, ◌<◌, ◌∙◌, ◌∷◌, ◌≡◌, ◌⊎◌,
}

abbrev pub In : {A : Type 0} → A → List A → Type 0
In a [] = ⊥
In a (x ∷ xs) = (x ≡ a) ⊎ In a xs

-- A session that a token names, and its user: both are in the tables, the session has not expired, and
-- the user is not disabled.
pub record IsLive (now : ℕ) (db : Db) (token : Text) (session : Session) (user : User)
    : Type 0 where
  pub stored : In session db.sessions
  pub named : session.token ≡ token
  pub known : In user db.users
  pub owner : user.id ≡ session.user_id
  pub unexpired : now < session.expires_at
  pub able : user.is_disabled ≡ false

find_session_by_lem :
    (token : Text) (sessions : List Session) (s : Session)
    → find_session_by token sessions ≡ some s
    → In s sessions × (s.token ≡ token)
unfolding find_session_by
find_session_by_lem token [] s e = cc
find_session_by_lem token (x ∷ sessions) s e = elim (Bool-cases (eq_text x.token token)) [
  | inl same ↦
      let is_it : x ≡ s = ground (arith, e, same) in
      (inl is_it, ap (λ (y : Session). y.token) (sym is_it) ∙ eq_text-true x.token token same)
  | inr other ↦
      let onward = find_session_by_lem token sessions s (ground (arith, e, other)) in
      (inr onward.0, onward.1)
]

pub find_user_by_lem :
    (p : User → Bool) (users : List User) (u : User)
    → find_user_by p users ≡ some u
    → In u users × (p u ≡ true)
unfolding find_user_by
find_user_by_lem p [] u e = cc
find_user_by_lem p (x ∷ users) u e = elim (Bool-cases (p x)) [
  | inl same ↦ let is_it : x ≡ u = ground (arith, e, same) in (inl is_it, ap p (sym is_it) ∙ same)
  | inr other ↦
      let onward = find_user_by_lem p users u (ground (arith, e, other)) in (inr onward.0, onward.1)
]

-- What the tables answer for a token is a live session.
pub get_session_with_user-IsLive :
    (fails : Faults) (now : ℕ) (token : Text) (db : Db) (session : Session) (user : User)
    → get_session_with_user fails now token db ≡ answered (some (session, user))
    → IsLive now db token session user
unfolding get_session_with_user
get_session_with_user-IsLive fails now token db session user e =
    elim (Option-cases (find_session_by token db.sessions)) [
      | inl missing ↦ ground (arith, e, missing)
      | inr (s, found) ↦ elim (Option-cases (find_user_by (has_id s.user_id) db.users)) [
        | inl missing ↦ ground (arith, e, found, missing)
        | inr (u, owned) ↦
            let same : (s ≡ session) × (u ≡ user) = ground (arith, e, found, owned) in
            let fine : (now < s.expires_at) × (u.is_disabled ≡ false) =
              ground (arith, e, found, owned) in
            let (stored, named) = find_session_by_lem token db.sessions s found in
            let (known, owner) = find_user_by_lem (has_id s.user_id) db.users u owned in
            subst (λ x. IsLive now db token x user) same.0
              (subst (λ x. IsLive now db token s x) same.1
                (record {
                  stored = stored;
                  named = named;
                  known = known;
                  owner = eq_text-true u.id s.user_id owner;
                  unexpired = fine.0;
                  able = fine.1;
                }))
      ]
    ]

module _ (fails : Faults) (now : ℕ) (config : AuthConfig) (db : Db) (r : Request) where
  -- The reasons to let a request through, with the identity that each gives.
  pub data Admits : Option AuthUser → Type 0 where
    exempt : IsOpenPath r.path → Admits none
    unguarded : config.enabled ≡ false → r.is_loopback ≡ false → Admits none
    from_loopback : r.is_loopback ≡ true → Admits (some synthetic_loopback_admin)
    by_session :
        (token : Text) (session : Session) (user : User)
        → extract_session_token r.cookie ≡ some token
        → IsLive now db token session user
        → IsGenuine r session
        → Admits (some (auth_user_of session user))

  -- The reasons to refuse one, with the status that each gives.
  pub data Refuses : ℕ → Type 0 where
    unknown_caller : r.is_loopback ≡ false → extract_session_token r.cookie ≡ none → Refuses 401
    dead_session :
        (token : Text)
        → r.is_loopback ≡ false
        → extract_session_token r.cookie ≡ some token
        → get_session_with_user fails now token db ≡ answered none
        → Refuses 401
    forged :
        (token : Text) (session : Session) (user : User)
        → extract_session_token r.cookie ≡ some token
        → IsLive now db token session user
        → IsForged r session
        → Refuses 403
    no_answer : fails session_query ≡ true → Refuses 500

  -- What a verdict must rest on. A refusal leaves the tables as they are.
  abbrev pub Rests : Verdict × Db → Type 0
  Rests (passed identity, after) = Admits identity
  Rests (rejected code, after) =
      Refuses code × (¬ (IsOpenPath r.path)) × (config.enabled ≡ true) × (after ≡ db)
