-- ===== src/Auth/Answers.antt =====
-- What the handlers of packages/crab_city/src/auth.rs share. Hashing of passwords (crate argon2) and
-- the ids and tokens that are drawn at random are parameters; the texts of errors are left out.
use crabcity.Auth.Cookies.{make_session_cookie}
use crabcity.Auth.Tables.{Outcome, answered, not_unique, query_failed}
use crabcity.Auth.Types.{AuthConfig, Db, Session, User, UserInfo, info_from}
use crabcity.Shared.{Bool, Option, Text, [], if◌then◌else◌, ltb, none, some, ℕ, ◌+◌, ◌∷◌}

-- The bytes of a character in UTF-8, which `len` of a `str` counts.
abbrev pub len_utf8 : ℕ → ℕ
len_utf8 ch =
    if ltb ch 0x80 then 1 else if ltb ch 0x800 then 2 else if ltb ch 0x1_0000 then 3 else 4

unfoldable pub byte_len : Text → ℕ
byte_len [] = 0
byte_len (ch ∷ s) = len_utf8 ch + byte_len s

-- What a request draws at random.
pub record Fresh : Type 0 where
  pub user_id : Text
  pub session_token : Text
  pub csrf_token : Text

pub data Body : Type 0 where
  no_body : Body
  error_body : Body
  ok_body : Body
  auth_body : (user : UserInfo) (csrf_token : Text) → Body
  me_body :
      (user : Option UserInfo) (csrf_token : Option Text) (needs_setup auth_enabled : Bool) → Body
  invite_body : (is_valid : Bool) (label : Option Text) → Body

pub record Response : Type 0 where
  pub code : ℕ
  pub set_cookie : Option Text
  pub body : Body

abbrev pub error_with : ℕ → Response
error_with code = record { code = code; set_cookie = none; body = error_body }

abbrev pub internal_error : Response
internal_error = record { code = 500; set_cookie = none; body = no_body }

abbrev pub ok_with : Body → Response
ok_with body = record { code = 200; set_cookie = none; body = body }

-- `hash_password`, with the salt that is drawn, and `verify_password`.
pub record Argon2 : Type 0 where
  pub hash_password : (salt password : Text) → Option Text
  pub verify_password : (password password_hash : Text) → Bool

abbrev pub session_for : ℕ → AuthConfig → Fresh → Option Text → User → Session
session_for now config fresh user_agent user = record {
  token = fresh.session_token;
  user_id = user.id;
  csrf_token = fresh.csrf_token;
  expires_at = now + config.session_ttl_secs;
  last_active_at = now;
  user_agent = user_agent;
  ip_address = none;
}

-- The end of registration and of login, once the session is stored.
abbrev pub logged_in : ℕ → AuthConfig → Fresh → User → Db → Outcome Db → Response × Db
logged_in code config fresh user db (answered changed) = (
  record {
    code = code;
    set_cookie = some (make_session_cookie fresh.session_token config);
    body = auth_body (info_from user) fresh.csrf_token;
  },
  changed,
)
logged_in code config fresh user db query_failed = (internal_error, db)
logged_in code config fresh user db not_unique = (internal_error, db)
