-- ===== src/Auth/Register.antt =====
-- The registration of packages/crab_city/src/auth.rs.
use crabcity.Auth.Answers.{
  Argon2, Fresh, Response, byte_len, error_with, internal_error, logged_in, session_for,
}
use crabcity.Auth.Cookies.{extract_session_token, make_session_cookie}
use crabcity.Auth.Middleware.{or_unchanged}
use crabcity.Auth.Tables.{
  Faults, Outcome, answered, create_session, create_user, get_server_invite, get_session_with_user,
  get_setting, not_unique, query_failed, use_server_invite, user_count,
}
use crabcity.Auth.Types.{AuthConfig, Db, ServerInvite, Session, User, invite_is_valid}
use crabcity.Shared.{
  Bool, Option, Text, codes, eq_text, false, if◌then◌else◌, ltb, none, not, some, trim, true, ℕ,
  ◌&&◌, ◌==◌, ◌||◌,
}

pub record RegisterRequest : Type 0 where
  pub username : Text
  pub password : Text
  pub display_name : Option Text
  pub invite_token : Option Text

-- What lets a caller register.
abbrev pub usable_invite : ℕ → Outcome (Option ServerInvite) → Option ServerInvite
usable_invite now (answered (some invite)) =
    if invite_is_valid now invite then some invite else none
usable_invite now (answered none) = none
usable_invite now query_failed = none
usable_invite now not_unique = none

abbrev pub registration_allowed : AuthConfig → Outcome (Option Text) → Bool
registration_allowed config (answered (some value)) =
    not (eq_text value (codes "false")) && not (eq_text value (codes "0"))
registration_allowed config (answered none) = config.allow_registration
registration_allowed config query_failed = config.allow_registration
registration_allowed config not_unique = config.allow_registration

abbrev pub is_admin_session : Outcome (Option (Session × User)) → Bool
is_admin_session (answered (some (session, user))) = user.is_admin
is_admin_session (answered none) = false
is_admin_session query_failed = false
is_admin_session not_unique = false

unfoldable pub caller_is_admin : Faults → ℕ → Db → Option Text → Bool
unfolding get_session_with_user
caller_is_admin fails now db none = false
caller_is_admin fails now db (some token) =
    is_admin_session (get_session_with_user fails now token db)

abbrev pub record_invite : Faults → Option ServerInvite → Text → Db → Db
record_invite fails none user_id db = db
record_invite fails (some invite) user_id db =
    or_unchanged db (use_server_invite fails invite.token user_id db)

abbrev pub has_invite : Option ServerInvite → Bool
has_invite none = false
has_invite (some invite) = true

-- Whether the registration goes on, for a caller with or without a usable invite.
abbrev pub may_register :
    Faults → ℕ → AuthConfig → Db → Option Text → Option ServerInvite → Bool → Bool
may_register fails now config db cookie invite is_first_user =
    is_first_user
    || registration_allowed config (get_setting fails (codes "allow_registration") db)
    || has_invite invite
    || caller_is_admin fails now db (extract_session_token cookie)

module _ (argon2 : Argon2) where
  -- The user is stored, the invite counted, and the session made.
  abbrev pub after_create :
      Faults
      → ℕ
      → AuthConfig
      → Fresh
      → Option Text
      → Option ServerInvite
      → User
      → Db
      → Outcome Db
      → Response × Db
  after_create fails now config fresh user_agent invite user db query_failed = (internal_error, db)
  after_create fails now config fresh user_agent invite user db not_unique = (error_with 409, db)
  after_create fails now config fresh user_agent invite user db (answered created) =
      let recorded = record_invite fails invite user.id created in
      logged_in 201 config fresh user recorded
        (create_session fails (session_for now config fresh user_agent user) recorded)

  abbrev pub new_user : ℕ → Fresh → Text → Text → Option Text → Bool → User
  new_user now fresh username password_hash display_name is_admin = record {
    id = fresh.user_id;
    username = username;
    display_name = elim display_name [ none ↦ username | some name ↦ name ];
    password_hash = password_hash;
    is_admin = is_admin;
    is_disabled = false;
    created_at = now;
    updated_at = now;
  }

  abbrev pub with_hash :
      Faults
      → ℕ
      → AuthConfig
      → Fresh
      → Option Text
      → Option ServerInvite
      → RegisterRequest
      → Bool
      → Db
      → Option Text
      → Response × Db
  with_hash fails now config fresh user_agent invite req is_first_user db none =
      (internal_error, db)
  with_hash fails now config fresh user_agent invite req is_first_user db (some password_hash) =
      let user =
        new_user now fresh (trim req.username) password_hash req.display_name is_first_user in
      after_create fails now config fresh user_agent invite user db (create_user fails user db)

  abbrev pub with_invite :
      Faults
      → ℕ
      → AuthConfig
      → Text
      → Fresh
      → Option Text
      → Option Text
      → RegisterRequest
      → Bool
      → Db
      → Option ServerInvite
      → Response × Db
  with_invite fails now config salt fresh cookie user_agent req is_first_user db invite =
      if may_register fails now config db cookie invite is_first_user
      then with_hash fails now config fresh user_agent invite req is_first_user db
          (argon2.hash_password salt req.password)
      else (error_with 403, db)

  -- An invite that is named must be usable.
  abbrev pub with_count :
      Faults
      → ℕ
      → AuthConfig
      → Text
      → Fresh
      → Option Text
      → Option Text
      → RegisterRequest
      → Db
      → Outcome ℕ
      → Response × Db
  with_count fails now config salt fresh cookie user_agent req db query_failed =
      (internal_error, db)
  with_count fails now config salt fresh cookie user_agent req db not_unique = (internal_error, db)
  with_count fails now config salt fresh cookie user_agent req db (answered count) =
      elim req.invite_token [
        | none ↦ with_invite fails now config salt fresh cookie user_agent req (count == 0) db none
        | some token ↦ elim (usable_invite now (get_server_invite fails token db)) [
          | none ↦ (error_with 403, db)
          | some invite ↦
              with_invite fails now config salt fresh cookie user_agent req (count == 0) db
                (some invite)
        ]
      ]

  -- `POST /api/auth/register`
  unfoldable pub register_handler :
      Faults
      → ℕ
      → AuthConfig
      → Text
      → Fresh
      → Option Text
      → Option Text
      → RegisterRequest
      → Db
      → Response × Db
  unfolding byte_len extract_session_token caller_is_admin invite_is_valid make_session_cookie
      user_count get_server_invite get_setting create_user create_session use_server_invite
  register_handler fails now config salt fresh cookie user_agent req db =
      if not config.enabled
      then (error_with 404, db)
      else if ltb (byte_len (trim req.username)) 2 || ltb 64 (byte_len (trim req.username))
      then (error_with 400, db)
      else if ltb (byte_len req.password) 8
      then (error_with 400, db)
      else with_count fails now config salt fresh cookie user_agent req db (user_count fails db)
