-- ===== src/Auth/Handlers.antt =====
-- Login, logout, the current user, the change of a password and the check of an invite:
-- packages/crab_city/src/auth.rs.
use crabcity.Auth.Answers.{
  Argon2, Body, Fresh, Response, byte_len, error_with, internal_error, invite_body, logged_in,
  me_body, ok_body, ok_with, session_for,
}
use crabcity.Auth.Cookies.{extract_session_token, make_clear_cookie, make_session_cookie}
use crabcity.Auth.Middleware.{or_unchanged}
use crabcity.Auth.Register.{usable_invite}
use crabcity.Auth.Tables.{
  Faults, Outcome, answered, create_session, delete_session, delete_user_sessions,
  get_server_invite, get_session_with_user, get_user_by_username, not_unique, query_failed,
  update_user_password, user_count,
}
use crabcity.Auth.Types.{AuthConfig, Db, Session, User, info_from, invite_is_valid}
use crabcity.Shared.{Option, Text, false, if◌then◌else◌, ltb, none, not, some, true, ℕ, ◌==◌}

module _ (argon2 : Argon2) where
  abbrev pub with_user :
      Faults
      → ℕ
      → AuthConfig
      → Fresh
      → Option Text
      → Text
      → Db
      → Outcome (Option User)
      → Response × Db
  with_user fails now config fresh user_agent password db query_failed = (internal_error, db)
  with_user fails now config fresh user_agent password db not_unique = (internal_error, db)
  with_user fails now config fresh user_agent password db (answered none) = (error_with 401, db)
  with_user fails now config fresh user_agent password db (answered (some user)) =
      if user.is_disabled
      then (error_with 403, db)
      else if argon2.verify_password password user.password_hash
      then logged_in 200 config fresh user db
          (create_session fails (session_for now config fresh user_agent user) db)
      else (error_with 401, db)

  -- `POST /api/auth/login`
  unfoldable pub login_handler :
      Faults
      → ℕ
      → AuthConfig
      → Fresh
      → Option Text
      → (username password : Text) → Db
      → Response × Db
  unfolding get_user_by_username create_session make_session_cookie
  login_handler fails now config fresh user_agent username password db =
      if not config.enabled
      then (error_with 404, db)
      else with_user fails now config fresh user_agent password db
          (get_user_by_username fails username db)

  abbrev pub after_update : Faults → Text → User → Db → Outcome Db → Response × Db
  after_update fails token user db query_failed = (internal_error, db)
  after_update fails token user db not_unique = (internal_error, db)
  after_update fails token user db (answered changed) = (
    ok_with ok_body,
    or_unchanged changed (delete_user_sessions fails user.id (some token) changed),
  )

  abbrev pub with_new_hash : Faults → ℕ → Text → User → Db → Option Text → Response × Db
  with_new_hash fails now token user db none = (internal_error, db)
  with_new_hash fails now token user db (some new_hash) =
      after_update fails token user db (update_user_password fails now user.id new_hash db)

  abbrev pub with_caller :
      Faults
      → ℕ
      → Text
      → Text
      → (current_password new_password : Text) → Db
      → Outcome (Option (Session × User))
      → Response × Db
  with_caller fails now salt token current_password new_password db query_failed =
      (error_with 401, db)
  with_caller fails now salt token current_password new_password db not_unique =
      (error_with 401, db)
  with_caller fails now salt token current_password new_password db (answered none) =
      (error_with 401, db)
  with_caller fails now salt token current_password new_password db
        (answered (some (session, user))) =
      if argon2.verify_password current_password user.password_hash
      then (if ltb (byte_len new_password) 8
          then (error_with 400, db)
          else with_new_hash fails now token user db (argon2.hash_password salt new_password))
      else (error_with 401, db)

  -- `POST /api/auth/change-password`
  unfoldable pub change_password_handler :
      Faults → ℕ → Text → Option Text → (current_password new_password : Text) → Db → Response × Db
  unfolding extract_session_token get_session_with_user byte_len update_user_password
      delete_user_sessions
  change_password_handler fails now salt cookie current_password new_password db =
      elim (extract_session_token cookie) [
        | none ↦ (error_with 401, db)
        | some token ↦
            with_caller fails now salt token current_password new_password db
              (get_session_with_user fails now token db)
      ]

-- `POST /api/auth/logout`
unfoldable pub logout_handler : Faults → AuthConfig → Option Text → Db → Response × Db
unfolding extract_session_token delete_session make_clear_cookie
logout_handler fails config cookie db = (
  record { code = 200; set_cookie = some (make_clear_cookie config); body = ok_body },
  elim (extract_session_token cookie) [
    | none ↦ db
    | some token ↦ or_unchanged db (delete_session fails token db)
  ],
)

abbrev pub count_or_zero : Outcome ℕ → ℕ
count_or_zero (answered count) = count
count_or_zero query_failed = 0
count_or_zero not_unique = 0

abbrev pub me_of : Outcome (Option (Session × User)) → Body
me_of (answered (some (session, user))) =
    me_body (some (info_from user)) (some session.csrf_token) false true
me_of (answered none) = me_body none none false true
me_of query_failed = me_body none none false true
me_of not_unique = me_body none none false true

abbrev pub me_with : Faults → ℕ → Db → Option Text → Body
me_with fails now db none = me_body none none false true
me_with fails now db (some token) = me_of (get_session_with_user fails now token db)

-- `GET /api/auth/me`
unfoldable pub me_handler : Faults → ℕ → AuthConfig → Option Text → Db → Response
unfolding user_count extract_session_token get_session_with_user
me_handler fails now config cookie db = ok_with (
    if not config.enabled
    then me_body none none false false
    else if count_or_zero (user_count fails db) == 0
    then me_body none none true true
    else me_with fails now db (extract_session_token cookie))

-- `GET /api/auth/check-invite`
unfoldable pub check_invite_handler : Faults → ℕ → Text → Db → Response
unfolding get_server_invite invite_is_valid
check_invite_handler fails now token db =
    ok_with (elim (usable_invite now (get_server_invite fails token db)) [
      | none ↦ invite_body false none
      | some invite ↦ invite_body true invite.label
    ])
