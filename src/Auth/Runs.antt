-- ===== src/Auth/Runs.antt =====
-- Any sequence of requests to packages/crab_city/src/auth.rs, each done before the next, with whatever
-- queries failing.
use crabcity.Auth.Answers.{Argon2, Fresh, byte_len}
use crabcity.Auth.Consistent.{IsConsistent, retain-IsConsistent}
use crabcity.Auth.Cookies.{extract_session_token}
use crabcity.Auth.Handlers.{
  after_update, change_password_handler, login_handler, logout_handler, with_caller,
}
use crabcity.Auth.Middleware.{or_unchanged}
use crabcity.Auth.Register.{RegisterRequest, register_handler}
use crabcity.Auth.Requests.{login_handler-IsConsistent, register_handler-IsConsistent}
use crabcity.Auth.Stored.{set_password-IsConsistent}
use crabcity.Auth.Tables.{
  Faults, Outcome, answered, cleanup_expired_sessions, delete_session, delete_session_query,
  delete_sessions_query, delete_user_sessions, get_session_with_user, is_kept, not_unique,
  query_failed, set_password, update_password_query, update_user_password,
}
use crabcity.Auth.Types.{AuthConfig, Db, Session, User}
use crabcity.Shared.{
  Bool-cases, List, Option, Option-cases, Text, [], eq_text, inl, inr, leb, ltb, map, none, not,
  some, ℕ, ◌∷◌,
}

deleted-IsConsistent :
    (fails : Faults) (user_id : Text) (keep : Option Text) (db : Db)
    → IsConsistent db
    → IsConsistent (or_unchanged db (delete_user_sessions fails user_id keep db))
unfolding delete_user_sessions
deleted-IsConsistent fails user_id keep db h = elim (Bool-cases (fails delete_sessions_query)) [
  | inl down ↦ rw down h
  | inr up ↦ rw up (retain-IsConsistent (is_kept user_id keep) db h)
]

updated-IsConsistent :
    (argon2 : Argon2) (fails : Faults) (now : ℕ) (token : Text) (user : User) (hash : Text)
    (db : Db)
    → IsConsistent db
    → IsConsistent
        (after_update argon2 fails token user db (update_user_password fails now user.id hash db)).1
unfolding update_user_password
updated-IsConsistent argon2 fails now token user hash db h =
    elim (Bool-cases (fails update_password_query)) [
      | inl down ↦ rw down h
      | inr up ↦ rw up (
          deleted-IsConsistent fails user.id (some token)
            (record db { users = map (set_password now user.id hash) db.users })
            (set_password-IsConsistent now user.id hash db h))
    ]

change-IsConsistent :
    (argon2 : Argon2) (fails : Faults) (now : ℕ) (salt token current_password new_password : Text)
    (db : Db) (o : Outcome (Option (Session × User)))
    → IsConsistent db
    → IsConsistent (with_caller argon2 fails now salt token current_password new_password db o).1
change-IsConsistent argon2 fails now salt token current_password new_password db query_failed h = h
change-IsConsistent argon2 fails now salt token current_password new_password db not_unique h = h
change-IsConsistent argon2 fails now salt token current_password new_password db (answered none) h =
    h
change-IsConsistent argon2 fails now salt token current_password new_password db
      (answered (some (session, user))) h =
    elim (Bool-cases (argon2.verify_password current_password user.password_hash)) [
      | inr wrong ↦ rw wrong h
      | inl right ↦ elim (Bool-cases (ltb (byte_len new_password) 8)) [
        | inl short ↦ rw (right, short) h
        | inr long ↦ elim (Option-cases (argon2.hash_password salt new_password)) [
          | inl no_hash ↦ rw (right, long, no_hash) h
          | inr (hash, hashed) ↦
              rw (right, long, hashed) (updated-IsConsistent argon2 fails now token user hash db h)
        ]
      ]
    ]

change_password_handler-IsConsistent :
    (argon2 : Argon2) (fails : Faults) (now : ℕ) (salt : Text) (cookie : Option Text)
    (current_password new_password : Text) (db : Db)
    → IsConsistent db
    → IsConsistent
        (change_password_handler argon2 fails now salt cookie current_password new_password db).1
unfolding change_password_handler
change_password_handler-IsConsistent argon2 fails now salt cookie current_password new_password db
      h =
    elim (Option-cases (extract_session_token cookie)) [
      | inl nobody ↦ rw (nobody, change_password_handler) h
      | inr (token, found) ↦
          rw (found, change_password_handler)
            (change-IsConsistent argon2 fails now salt token current_password new_password db
              (get_session_with_user fails now token db) h)
    ]

logout-IsConsistent :
    (fails : Faults) (config : AuthConfig) (cookie : Option Text) (db : Db)
    → IsConsistent db
    → IsConsistent (logout_handler fails config cookie db).1
unfolding logout_handler delete_session
logout-IsConsistent fails config cookie db h = elim (Option-cases (extract_session_token cookie)) [
  | inl nobody ↦ rw (nobody, logout_handler) h
  | inr (token, found) ↦ elim (Bool-cases (fails delete_session_query)) [
    | inl down ↦ rw (found, logout_handler, down) h
    | inr up ↦
        rw (found, logout_handler, up) (retain-IsConsistent (λ s. not (eq_text s.token token)) db h)
  ]
]

-- A request, with what it draws at random, the time, and the queries that fail.
pub data AuthRequest : Type 0 where
  registers :
      (fails : Faults) (now : ℕ) (salt : Text) (fresh : Fresh) (cookie user_agent : Option Text)
      (req : RegisterRequest)
      → AuthRequest
  logs_in :
      (fails : Faults) (now : ℕ) (fresh : Fresh) (user_agent : Option Text)
      (username password : Text)
      → AuthRequest
  logs_out : (fails : Faults) (cookie : Option Text) → AuthRequest
  changes_password :
      (fails : Faults) (now : ℕ) (salt : Text) (cookie : Option Text)
      (current_password new_password : Text)
      → AuthRequest
  cleans_up : (now : ℕ) → AuthRequest

module _ (argon2 : Argon2) (config : AuthConfig) where
  unfoldable pub serve : AuthRequest → Db → Db
  unfolding register_handler login_handler logout_handler change_password_handler
      cleanup_expired_sessions
  serve (registers fails now salt fresh cookie user_agent req) db =
      (register_handler argon2 fails now config salt fresh cookie user_agent req db).1
  serve (logs_in fails now fresh user_agent username password) db =
      (login_handler argon2 fails now config fresh user_agent username password db).1
  serve (logs_out fails cookie) db = (logout_handler fails config cookie db).1
  serve (changes_password fails now salt cookie current_password new_password) db =
      (change_password_handler argon2 fails now salt cookie current_password new_password db).1
  serve (cleans_up now) db = cleanup_expired_sessions now db

  unfoldable pub serve_all : List AuthRequest → Db → Db
  unfolding serve
  serve_all [] db = db
  serve_all (r ∷ requests) db = serve_all requests (serve r db)

  serve-IsConsistent : (r : AuthRequest) (db : Db) → IsConsistent db → IsConsistent (serve r db)
  unfolding serve cleanup_expired_sessions
  serve-IsConsistent (registers fails now salt fresh cookie user_agent req) db h =
      register_handler-IsConsistent argon2 fails now config fresh user_agent salt cookie req db h
  serve-IsConsistent (logs_in fails now fresh user_agent username password) db h =
      login_handler-IsConsistent argon2 fails now config fresh user_agent username password db h
  serve-IsConsistent (logs_out fails cookie) db h = logout-IsConsistent fails config cookie db h
  serve-IsConsistent (changes_password fails now salt cookie current_password new_password) db h =
      change_password_handler-IsConsistent argon2 fails now salt cookie current_password
        new_password db h
  serve-IsConsistent (cleans_up now) db h =
      retain-IsConsistent (λ s. not (leb s.expires_at now)) db h

  -- Registrations, logins, logouts, changes of passwords and the removal of expired sessions, each done
  -- before the next, keep the tables consistent, whatever queries fail and whatever is drawn at random:
  -- no id, username, session token or invite token occurs twice, every session belongs to a user,
  -- nobody but the first user is an admin, and no invite is used more often than it may be.
  pub serve_all-IsConsistent :
      (requests : List AuthRequest) (db : Db)
      → IsConsistent db
      → IsConsistent (serve_all requests db)
  unfolding serve_all
  serve_all-IsConsistent [] db h = h
  serve_all-IsConsistent (r ∷ requests) db h =
      serve_all-IsConsistent requests (serve r db) (serve-IsConsistent r db h)
