-- ===== src/Auth/Middleware.antt =====
-- `auth_middleware` of packages/crab_city/src/auth.rs: which requests reach a handler, and as whom.
use crabcity.Auth.Cookies.{extract_session_token}
use crabcity.Auth.Tables.{
  Faults, Outcome, answered, get_session_with_user, not_unique, query_failed, touch_session,
}
use crabcity.Auth.Types.{AuthConfig, AuthUser, Db, Session, User}
use crabcity.Shared.{
  Bool, Option, Text, [], codes, eq_text, false, if◌then◌else◌, leb, map, none, reverse_text, some,
  starts_with, true, ℕ, ◌&&◌, ◌+◌, ◌||◌,
}

abbrev pub ends_with : Text → Text → Bool
ends_with s p = starts_with (reverse_text s) (reverse_text p)

-- The paths that need no session.
unfoldable pub is_exempt : Text → Bool
unfolding starts_with reverse_text
is_exempt path =
    starts_with path (codes "/api/auth/")
    || eq_text path (codes "/health")
    || starts_with path (codes "/health/")
    || eq_text path (codes "/metrics")
    || starts_with path (codes "/api/share/")
    || starts_with path (codes "/spa/")
    || eq_text path (codes "/")
    || ends_with path (codes ".js")
    || ends_with path (codes ".css")
    || ends_with path (codes ".png")
    || ends_with path (codes ".ico")
    || ends_with path (codes ".svg")
    || ends_with path (codes ".woff2")

-- A request, with the headers that are text; `is_loopback` says where it comes from.
pub record Request : Type 0 where
  pub path : Text
  pub method : Text
  pub is_loopback : Bool
  pub cookie : Option Text
  pub upgrade : Option Text
  pub csrf_header : Option Text

abbrev pub to_lowercase : ℕ → ℕ
to_lowercase ch = if leb 65 ch && leb ch 90 then ch + 32 else ch

abbrev pub eq_ignore_ascii_case : Text → Text → Bool
eq_ignore_ascii_case s t = eq_text (map to_lowercase s) (map to_lowercase t)

unfoldable pub is_mutating : Text → Bool
is_mutating method =
    eq_text method (codes "POST")
    || eq_text method (codes "PUT")
    || eq_text method (codes "DELETE")
    || eq_text method (codes "PATCH")

abbrev pub is_websocket : Option Text → Bool
is_websocket none = false
is_websocket (some value) = eq_ignore_ascii_case value (codes "websocket")

abbrev pub or_empty : Option Text → Text
or_empty none = []
or_empty (some value) = value

-- The check of the token against forged requests, which only requests that change something need.
unfoldable pub csrf_ok : Request → Session → Bool
unfolding is_mutating
csrf_ok r session =
    if is_mutating r.method
    then (if is_websocket r.upgrade
        then true
        else eq_text (or_empty r.csrf_header) session.csrf_token)
    else true

abbrev pub synthetic_loopback_admin : AuthUser
synthetic_loopback_admin = record {
  user_id = codes "loopback";
  display_name = codes "Local Admin";
  is_admin = true;
  session_token = [];
  csrf_token = [];
}

abbrev pub auth_user_of : Session → User → AuthUser
auth_user_of session user = record {
  user_id = user.id;
  display_name = user.display_name;
  is_admin = user.is_admin;
  session_token = session.token;
  csrf_token = session.csrf_token;
}

-- The request goes on, with the identity that is put into it, or is answered with a status.
pub data Verdict : Type 0 where
  passed : (identity : Option AuthUser) → Verdict
  rejected : (code : ℕ) → Verdict

-- What is left of an answer of the tables that nobody waits for.
abbrev pub or_unchanged : Db → Outcome Db → Db
or_unchanged db (answered changed) = changed
or_unchanged db query_failed = db
or_unchanged db not_unique = db

abbrev pub loopback_or : ℕ → Request → Db → Verdict × Db
loopback_or code r db =
    if r.is_loopback then (passed (some synthetic_loopback_admin), db) else (rejected code, db)

abbrev pub with_session :
    Faults → ℕ → Db → Request → Text → Outcome (Option (Session × User)) → Verdict × Db
with_session fails now db r token query_failed = (rejected 500, db)
with_session fails now db r token not_unique = (rejected 500, db)
with_session fails now db r token (answered none) = loopback_or 401 r db
with_session fails now db r token (answered (some (session, user))) =
    if csrf_ok r session
    then (
      passed (some (auth_user_of session user)),
      or_unchanged db (touch_session fails now token db),
    )
    else (rejected 403, db)

abbrev pub with_token : Faults → ℕ → Db → Request → Option Text → Verdict × Db
with_token fails now db r none = loopback_or 401 r db
with_token fails now db r (some token) =
    with_session fails now db r token (get_session_with_user fails now token db)

unfoldable pub auth_middleware : Faults → ℕ → AuthConfig → Db → Request → Verdict × Db
unfolding is_exempt extract_session_token get_session_with_user csrf_ok touch_session
auth_middleware fails now config db r =
    if is_exempt r.path
    then (passed none, db)
    else if config.enabled
    then with_token fails now db r (extract_session_token r.cookie)
    else if r.is_loopback
    then (passed (some synthetic_loopback_admin), db)
    else (passed none, db)
