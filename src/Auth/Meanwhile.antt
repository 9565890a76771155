-- ===== src/Auth/Meanwhile.antt =====
-- A session that a login of packages/crab_city/src/auth.rs has made, through the requests that come before
-- the next one with its cookie.
use crabcity.Auth.Answers.{Argon2, Fresh, Response, auth_body, logged_in, session_for}
use crabcity.Auth.CookieTrip.{
  IsPlain, OtherName, cookie_header, extract-make_session_cookie, name_and_value,
}
use crabcity.Auth.Cookies.{encode, extract_session_token, make_session_cookie}
use crabcity.Auth.Handlers.{login_handler, logout_handler, with_user}
use crabcity.Auth.Login.{
  auth_middleware-passes, csrf_ok-header, encode-IsPlain, ids_of, login_handler-ends,
}
use crabcity.Auth.Middleware.{Request, auth_middleware, auth_user_of, is_exempt, passed}
use crabcity.Auth.Runs.{
  AuthRequest, changes_password, cleans_up, logs_in, logs_out, registers, serve, serve_all,
}
use crabcity.Auth.Tables.{
  Faults, Outcome, answered, cleanup_expired_sessions, create_session, create_session_query,
  delete_session, delete_session_query, find_session_by, find_user_by, get_session_with_user,
  get_user_by_username, has_id, not_unique, query_failed, session_query,
}
use crabcity.Auth.Texts.{eq_text_other}
use crabcity.Auth.Types.{AuthConfig, Db, Session, User, info_from}
use crabcity.Auth.Unique.{Unique, find_session_by-snoc, find_user_by-In}
use crabcity.Inference.Manager.{new}
use crabcity.Shared.{
  All, Bool, Bool-cases, List, Option, Option-cases, Text, [], any, ap, arith, eq_text, false, inl,
  inr, leb, none, not, refl, retain, some, subst, sym, true, ℕ, ◌++◌, ◌+◌, ◌<◌, ◌∙◌, ◌∷◌, ◌≡◌, ◌≢◌,
}

-- A session and its user, as the queries find them.
abbrev IsHeld : Session → User → Db → Type 0
IsHeld session user db =
    (find_session_by session.token db.sessions ≡ some session)
    × (find_user_by (has_id session.user_id) db.users ≡ some user)

find_session_by-retained :
    (token : Text) (p : Session → Bool) (s : Session) (sessions : List Session)
    → p s ≡ true
    → find_session_by token sessions ≡ some s
    → find_session_by token (retain p sessions) ≡ some s
unfolding find_session_by
find_session_by-retained token p s [] keeps e = cc
find_session_by-retained token p s (x ∷ sessions) keeps e =
    elim (Bool-cases (eq_text x.token token)) [
      | inl same ↦
          let is_it : x ≡ s = ground (arith, e, same) in
          rw (ap p is_it ∙ keeps) (rw (same, find_session_by) (ap some is_it))
      | inr other ↦
          let onward =
            find_session_by-retained token p s sessions keeps (ground (arith, e, other)) in
          elim (Bool-cases (p x)) [
            | inl stays ↦ rw stays (rw (other, find_session_by) onward)
            | inr goes ↦ rw goes onward
          ]
    ]

find_session_by-append :
    (token : Text) (s x : Session) (sessions : List Session)
    → find_session_by token sessions ≡ some s
    → find_session_by token (sessions ++ x ∷ []) ≡ some s
unfolding find_session_by
find_session_by-append token s x [] e = cc
find_session_by-append token s x (y ∷ sessions) e =
    ground (arith, e, find_session_by-append token s x sessions)

-- A request that leaves a session alone: a login, a logout with no cookie or that of another session,
-- or a removal of expired sessions before this one expires.
abbrev pub Spares : Session → AuthRequest → Type 0
Spares session (registers fails now salt fresh cookie user_agent req) = ⊥
Spares session (logs_in fails now fresh user_agent username password) = Unit {0}
Spares session (logs_out fails cookie) = extract_session_token cookie ≢ some session.token
Spares session (changes_password fails now salt cookie current_password new_password) = ⊥
Spares session (cleans_up now) = now < session.expires_at

module _ (argon2 : Argon2) (config : AuthConfig) (session : Session) (user : User) where
  created-IsHeld :
      (fails : Faults) (code : ℕ) (fresh : Fresh) (other : User) (made : Session) (db : Db)
      → IsHeld session user db
      → IsHeld session user (logged_in code config fresh other db (create_session fails made db)).1
  created-IsHeld fails code fresh other made db h = go (create_session fails made db) refl
    where
      go :
          (o : Outcome Db)
          → create_session fails made db ≡ o
          → IsHeld session user (logged_in code config fresh other db o).1
      go query_failed e = h
      go not_unique e = h
      go (answered after) e =
          unfold create_session in
          (let is_after : record db { sessions = db.sessions ++ made ∷ [] } ≡ after =
              ground (arith, e) in
            subst (IsHeld session user) is_after
              (find_session_by-append session.token session made db.sessions h.0, h.1))

  with_user-IsHeld :
      (fails : Faults) (now : ℕ) (fresh : Fresh) (user_agent : Option Text) (password : Text)
      (db : Db) (o : Outcome (Option User))
      → IsHeld session user db
      → IsHeld session user (with_user argon2 fails now config fresh user_agent password db o).1
  with_user-IsHeld fails now fresh user_agent password db query_failed h = h
  with_user-IsHeld fails now fresh user_agent password db not_unique h = h
  with_user-IsHeld fails now fresh user_agent password db (answered none) h = h
  with_user-IsHeld fails now fresh user_agent password db (answered (some other)) h =
      elim (Bool-cases other.is_disabled) [
        | inl off ↦ rw off h
        | inr able ↦ elim (Bool-cases (argon2.verify_password password other.password_hash)) [
          | inr wrong ↦ rw (able, wrong) h
          | inl right ↦
              rw (able, right)
                (created-IsHeld fails 200 fresh other
                  (session_for now config fresh user_agent other) db h)
        ]
      ]

  logout-IsHeld :
      (fails : Faults) (cookie : Option Text) (db : Db)
      → extract_session_token cookie ≢ some session.token
      → IsHeld session user db
      → IsHeld session user (logout_handler fails config cookie db).1
  unfolding logout_handler delete_session
  logout-IsHeld fails cookie db ne h = elim (Option-cases (extract_session_token cookie)) [
    | inl nobody ↦ rw (nobody, logout_handler) h
    | inr (token, found) ↦ elim (Bool-cases (fails delete_session_query)) [
      | inl down ↦ rw (found, logout_handler, down) h
      | inr up ↦
          let other = eq_text_other session.token token (λ e. ne (found ∙ ap some (sym e))) in
          rw (found, logout_handler, up)
            (
              find_session_by-retained session.token (λ s. not (eq_text s.token token)) session
                  db.sessions (ground (arith, other)) h.0,
              h.1,
            )
    ]
  ]

  serve-IsHeld :
      (r : AuthRequest) (db : Db)
      → Spares session r
      → IsHeld session user db
      → IsHeld session user (serve argon2 config r db)
  unfolding serve login_handler cleanup_expired_sessions
  serve-IsHeld (registers fails now salt fresh cookie user_agent req) db spares h = absurd spares
  serve-IsHeld (logs_in fails now fresh user_agent username password) db spares h =
      let inner =
        with_user-IsHeld fails now fresh user_agent password db
          (get_user_by_username fails username db) h in
      elim (Bool-cases config.enabled) [ inr off ↦ rw off h | inl on ↦ rw on inner ]
  serve-IsHeld (logs_out fails cookie) db spares h = logout-IsHeld fails cookie db spares h
  serve-IsHeld (changes_password fails now salt cookie current_password new_password) db spares h =
      absurd spares
  serve-IsHeld (cleans_up now) db spares h = (
    find_session_by-retained session.token (λ s. not (leb s.expires_at now)) session db.sessions
        (ground (arith, spares)) h.0,
    h.1,
  )

  serve_all-IsHeld :
      (requests : List AuthRequest) (db : Db)
      → All (Spares session) requests
      → IsHeld session user db
      → IsHeld session user (serve_all argon2 config requests db)
  unfolding serve_all
  serve_all-IsHeld [] db spares h = h
  serve_all-IsHeld (r ∷ requests) db spares h =
      serve_all-IsHeld requests (serve argon2 config r db) spares.1 (serve-IsHeld r db spares.0 h)

held-found :
    (fails : Faults) (now : ℕ) (session : Session) (user : User) (db : Db)
    → IsHeld session user db
    → user.is_disabled ≡ false
    → now < session.expires_at
    → fails session_query ≡ false
    → get_session_with_user fails now session.token db ≡ answered (some (session, user))
unfolding get_session_with_user
held-found fails now session user db h able live up = rw (up, h.0, h.1) (ground (arith, live, able))

module _ (argon2 : Argon2) (fails later_fails : Faults) (now later : ℕ) (config : AuthConfig)
    (fresh : Fresh) (user_agent : Option Text) (username password : Text) (db : Db) (user : User)
    (bytes : List ℕ) (requests : List AuthRequest) (r : Request) (front back : List Text) where
  -- The session that the login makes.
  abbrev pub login_session : Session
  login_session = session_for now config fresh user_agent user

  -- While authentication is on, a user who is not disabled and gives the right password is logged in.
  -- After any logins, any logouts without this session's token, and any removals of expired sessions
  -- before this one expires, a request to a path that is not exempt, with the cookie of the answer, no
  -- cookie of that name in front of it, and the token of its body, reaches its handler as that user
  -- until the session expires. The ids of users are unique, the token that was drawn is new, and the
  -- queries for the login and for that request answer.
  pub login_handler-auth_middleware :
      config.enabled ≡ true
      → Unique (ids_of db)
      → get_user_by_username fails username db ≡ answered (some user)
      → user.is_disabled ≡ false
      → argon2.verify_password password user.password_hash ≡ true
      → fails create_session_query ≡ false
      → fresh.session_token ≡ encode bytes
      → any (λ s. eq_text s.token fresh.session_token) db.sessions ≡ false
      → All OtherName front
      → All (Spares login_session) requests
      → later < now + config.session_ttl_secs
      → later_fails session_query ≡ false
      → is_exempt r.path ≡ false
      → r.cookie
        ≡ some (
            cookie_header
              (front ++ name_and_value (make_session_cookie fresh.session_token config) ∷ back))
      → r.csrf_header ≡ some fresh.csrf_token
      → let answer = login_handler argon2 fails now config fresh user_agent username password db in
        (answer.0 ≡ record {
          code = 200;
          set_cookie = some (make_session_cookie fresh.session_token config);
          body = auth_body (info_from user) fresh.csrf_token;
        })
        × ((auth_middleware later_fails later config
              (serve_all argon2 config requests answer.1)
              r).0
            ≡ passed (some (auth_user_of login_session user)))
  login_handler-auth_middleware on unique found able right up drawn new foreign spares live up_later
        private cookie csrf =
      let (known, done) =
        login_handler-ends argon2 fails now config fresh user_agent username password db user on
          found able right up new in
      let after : Db = record db { sessions = db.sessions ++ login_session ∷ [] } in
      let plain : All IsPlain fresh.session_token = rw drawn (encode-IsPlain bytes) in
      let token_read : extract_session_token r.cookie ≡ some fresh.session_token =
        ap extract_session_token cookie
        ∙ extract-make_session_cookie fresh.session_token config front back plain foreign in
      let held = serve_all-IsHeld argon2 config login_session user requests after spares (
        find_session_by-snoc login_session db.sessions new,
        find_user_by-In user db.users unique known,
      ) in
      let served = serve_all argon2 config requests after in
      let row = held-found later_fails later login_session user served held able live up_later in
      (
        ap (λ (q : Response × Db). q.0) done,
        ap
              (λ (q : Response × Db).
                (auth_middleware later_fails later config (serve_all argon2 config requests q.1)
                  r).0)
              done
            ∙ auth_middleware-passes later_fails later config served r fresh.session_token
                login_session user on private token_read row (csrf_ok-header r login_session csrf),
      )
