-- ===== src/Auth/Revocation.antt =====
-- What ends sessions: the logout and the change of a password in packages/crab_city/src/auth.rs.
use crabcity.Auth.Answers.{Argon2, Response, byte_len, ok_body, ok_with}
use crabcity.Auth.Cookies.{extract_session_token}
use crabcity.Auth.Gate.{In, IsLive}
use crabcity.Auth.Handlers.{logout_handler}
use crabcity.Auth.Middleware.{Request, auth_middleware, is_exempt, rejected}
use crabcity.Auth.Tables.{
  Faults, answered, delete_session, delete_session_query, find_session_by, get_session_with_user,
  session_query, set_password,
}
use crabcity.Auth.Types.{AuthConfig, Db, Session, User}
use crabcity.Auth.Unique.{find_session_by-retain}
use crabcity.Shared.{
  Option, Text, ap, eq_text, false, map, none, not, refl, retain, some, true, ℕ, ◌∙◌, ◌≡◌, ◌≢◌, ◌≤◌,
  ◌⊎◌,
}

auth_middleware-refuses :
    (fails : Faults) (now : ℕ) (config : AuthConfig) (db : Db) (r : Request) (token : Text)
    → config.enabled ≡ true
    → is_exempt r.path ≡ false
    → r.is_loopback ≡ false
    → extract_session_token r.cookie ≡ some token
    → get_session_with_user fails now token db ≡ answered none
    → auth_middleware fails now config db r ≡ (rejected 401, db)
unfolding auth_middleware
auth_middleware-refuses fails now config db r token on private remote found none_live =
    rw (private, on, found, none_live, remote) refl

gone-answered :
    (fails : Faults) (now : ℕ) (token : Text) (db : Db)
    → fails session_query ≡ false
    → find_session_by token db.sessions ≡ none
    → get_session_with_user fails now token db ≡ answered none
unfolding get_session_with_user
gone-answered fails now token db up gone = rw (up, gone) refl

-- After a logout the cookie is worth nothing: a request from elsewhere that carries it is refused
-- with 401 where a session is needed, and changes nothing. Of the tables the logout takes the sessions
-- with that token and nothing else. The queries are taken to succeed.
pub logout_handler-auth_middleware :
    (fails later_fails : Faults) (later : ℕ) (config : AuthConfig) (cookie : Option Text) (db : Db)
    (r : Request) (token : Text)
    → config.enabled ≡ true
    → fails delete_session_query ≡ false
    → later_fails session_query ≡ false
    → extract_session_token cookie ≡ some token
    → is_exempt r.path ≡ false
    → r.is_loopback ≡ false
    → r.cookie ≡ cookie
    → let after = (logout_handler fails config cookie db).1 in
      (auth_middleware later_fails later config after r ≡ (rejected 401, after))
      × (after ≡ record db { sessions = retain (λ s. not (eq_text s.token token)) db.sessions })
unfolding logout_handler delete_session
logout_handler-auth_middleware fails later_fails later config cookie db r token on up up_later found
      private remote same =
    let after = record db { sessions = retain (λ s. not (eq_text s.token token)) db.sessions } in
    let is_after : (logout_handler fails config cookie db).1 ≡ after =
      rw (found, logout_handler, up) refl in
    let read : extract_session_token r.cookie ≡ some token =
      ap extract_session_token same ∙ found in
    let refused =
      auth_middleware-refuses later_fails later config after r token on private remote read (
        gone-answered later_fails later token after up_later
          (find_session_by-retain token db.sessions)) in
    (rw is_after refused, is_after)

module _ (argon2 : Argon2) (fails : Faults) (now : ℕ) (salt : Text) (cookie : Option Text)
    (current_password new_password : Text) (db : Db) where
  -- The tables after a change of a password by a live session with a token: the password is that of
  -- the session's user.
  pub record IsRevoked (token : Text) (session : Session) (user : User) (after : Db) : Type 0 where
    pub asked : extract_session_token cookie ≡ some token
    pub live : IsLive now db token session user
    pub allowed : argon2.verify_password current_password user.password_hash ≡ true
    pub long_enough : 8 ≤ byte_len new_password
    pub other_sessions : (s : Session) → In s after.sessions → s.user_id ≡ user.id → s.token ≡ token
    pub kept_session : (s : Session) → In s db.sessions → s.token ≡ token → In s after.sessions
    pub other_users : (s : Session) → In s db.sessions → s.user_id ≢ user.id → In s after.sessions
    pub no_more : (s : Session) → In s after.sessions → In s db.sessions
    pub new_hash : Text
    pub hashed : argon2.hash_password salt new_password ≡ some new_hash
    pub stored : after.users ≡ map (set_password now user.id new_hash) db.users

  -- Either the password is changed and the user's other sessions are gone, or nothing changes.
  abbrev pub Changes : Response × Db → Type 0
  Changes answer =
      ((answer.0.code ≢ 200) × (answer.1 ≡ db))
      ⊎ ((answer.0 ≡ ok_with ok_body)
          × (token : Text) × (session : Session) × (user : User) × IsRevoked token session user
              answer.1)
