-- ===== src/Auth/Examples.antt =====
-- The theorems on packages/crab_city/src/auth.rs at tables with one user and one session.
use crabcity.Auth.Answers.{Argon2, Fresh, auth_body, session_for}
use crabcity.Auth.Consistent.{IsConsistent}
use crabcity.Auth.CookieTrip.{cookie_header}
use crabcity.Auth.Cookies.{
  encode, extract_session_token, find_session, make_session_cookie, split_first,
}
use crabcity.Auth.Handlers.{login_handler, logout_handler}
use crabcity.Auth.Meanwhile.{login_handler-auth_middleware}
use crabcity.Auth.Middleware.{
  Request, auth_middleware, auth_user_of, csrf_ok, is_exempt, is_mutating, passed, rejected,
}
use crabcity.Auth.Revocation.{logout_handler-auth_middleware}
use crabcity.Auth.Runs.{
  AuthRequest, cleans_up, logs_in, logs_out, registers, serve_all, serve_all-IsConsistent,
}
use crabcity.Auth.Tables.{
  Faults, find_session_by, find_user_by, get_session_with_user, get_user_by_username,
}
use crabcity.Auth.Types.{AuthConfig, Db, Session, User, info_from}
use crabcity.Shared.{
  List, Option, Text, [], arith, codes, eq_text, false, is_whitespace, none, not, refl, retain,
  reverse_text, some, starts_with, strip_prefix, text_dec, trim, trim_end, trim_start, true,
  ℕ_discrete, ◌∷◌, ◌≡◌,
}

-- Passwords that are stored as they are.
abbrev plain_argon2 : Argon2
plain_argon2 = record {
  hash_password = λ salt password. some password;
  verify_password = λ password password_hash. eq_text password password_hash;
}

abbrev none_fail : Faults
none_fail q = false

abbrev a_config : AuthConfig
a_config = record {
  enabled = true;
  https = true;
  session_ttl_secs = 3600;
  allow_registration = false;
}

abbrev ada : User
ada = record {
  id = codes "u1";
  username = codes "ada";
  display_name = codes "Ada";
  password_hash = codes "lovelace";
  is_admin = true;
  is_disabled = false;
  created_at = 1;
  updated_at = 1;
}

abbrev ada_session : Session
ada_session = record {
  token = codes "f0";
  user_id = codes "u1";
  csrf_token = codes "c0";
  expires_at = 50;
  last_active_at = 1;
  user_agent = none;
  ip_address = none;
}

abbrev some_db : Db
some_db = record {
  users = ada ∷ [];
  sessions = ada_session ∷ [];
  server_invites = [];
  server_settings = [];
  invited = [];
}

abbrev a_post : Request
a_post = record {
  path = codes "/api/instances";
  method = codes "POST";
  is_loopback = false;
  cookie = some (codes "theme=dark; crab_session=f0");
  upgrade = none;
  csrf_header = some (codes "forged");
}

refuses_forged : auth_middleware none_fail 10 a_config some_db a_post ≡ (rejected 403, some_db)
unfolding auth_middleware is_exempt starts_with reverse_text text_dec ℕ_discrete
    extract_session_token split_first find_session strip_prefix trim trim_start trim_end
    is_whitespace get_session_with_user find_session_by find_user_by csrf_ok is_mutating
refuses_forged = refl

abbrev drawn : Fresh
drawn = record { user_id = codes "u2"; session_token = codes "0aff"; csrf_token = codes "c1" }

abbrev a_get : Request
a_get = record {
  path = codes "/api/instances";
  method = codes "GET";
  is_loopback = false;
  cookie = some (codes "theme=dark; crab_session=0aff");
  upgrade = none;
  csrf_header = some (codes "c1");
}

-- A login with another password, a logout from another session and a clean-up.
abbrev between : List AuthRequest
between =
    logs_in none_fail 8 drawn none (codes "ada") (codes "x")
    ∷ logs_out none_fail (some (codes "crab_session=f0"))
    ∷ cleans_up 9
    ∷ []

reads_other : extract_session_token (some (codes "crab_session=f0")) ≡ some (codes "f0")
unfolding extract_session_token find_session split_first strip_prefix trim trim_start trim_end
    is_whitespace starts_with text_dec ℕ_discrete
reads_other = refl

login_handler-auth_middleware_example :
    ((login_handler plain_argon2 none_fail 5 a_config drawn none
        (codes "ada")
        (codes "lovelace")
        some_db).0
      ≡ record {
        code = 200;
        set_cookie = some (make_session_cookie (codes "0aff") a_config);
        body = auth_body (info_from ada) (codes "c1");
      })
    × ((auth_middleware none_fail 20 a_config
          (serve_all plain_argon2 a_config between
            (login_handler plain_argon2 none_fail 5 a_config drawn none
              (codes "ada")
              (codes "lovelace")
              some_db).1)
          a_get).0
        ≡ passed (some (auth_user_of (session_for 5 a_config drawn none ada) ada)))
unfolding is_exempt starts_with reverse_text text_dec ℕ_discrete split_first strip_prefix trim
    trim_start trim_end is_whitespace find_user_by get_user_by_username encode make_session_cookie
    cookie_header
login_handler-auth_middleware_example =
    login_handler-auth_middleware plain_argon2 none_fail none_fail 5 20 a_config drawn none
      (codes "ada") (codes "lovelace") some_db ada (10 ∷ 255 ∷ []) between a_get
      (codes "theme=dark" ∷ []) [] refl (refl, tt) refl refl refl refl refl refl
      (
        ((refl, (refl, (refl, (refl, (refl, (refl, (refl, (refl, (refl, (refl, tt)))))))))), refl),
        tt,
      )
      (tt, ((λ e. ground (arith, reads_other, e)), (omega arith, tt))) (omega arith) refl refl refl
      refl

abbrev a_cookie : Option Text
a_cookie = some (codes "crab_session=f0")

abbrev a_revisit : Request
a_revisit = record {
  path = codes "/api/instances";
  method = codes "GET";
  is_loopback = false;
  cookie = some (codes "crab_session=f0");
  upgrade = none;
  csrf_header = none;
}

logout_handler-auth_middleware_example :
    (auth_middleware none_fail 20 a_config
        (logout_handler none_fail a_config a_cookie some_db).1
        a_revisit
      ≡ (rejected 401, (logout_handler none_fail a_config a_cookie some_db).1))
    × ((logout_handler none_fail a_config a_cookie some_db).1 ≡ record some_db {
      sessions = retain (λ s. not (eq_text s.token (codes "f0"))) some_db.sessions;
    })
unfolding is_exempt starts_with reverse_text text_dec ℕ_discrete extract_session_token split_first
    find_session strip_prefix trim trim_start trim_end is_whitespace
logout_handler-auth_middleware_example =
    logout_handler-auth_middleware none_fail none_fail 20 a_config a_cookie some_db a_revisit
      (codes "f0") refl refl refl refl refl refl refl

abbrev empty_db : Db
empty_db = record {
  users = [];
  sessions = [];
  server_invites = [];
  server_settings = [];
  invited = [];
}

abbrev some_requests : List AuthRequest
some_requests =
    registers none_fail 3 (codes "salt") drawn none none (record {
      username = codes " ada ";
      password = codes "lovelace";
      display_name = none;
      invite_token = none;
    })
    ∷ logs_in none_fail 4 (record drawn { session_token = codes "0b" }) none (codes "ada")
        (codes "lovelace")
    ∷ cleans_up 5
    ∷ logs_out none_fail (some (codes "crab_session=0b"))
    ∷ []

serve_all-IsConsistent_example :
    IsConsistent (serve_all plain_argon2 a_config some_requests empty_db)
serve_all-IsConsistent_example =
    serve_all-IsConsistent plain_argon2 a_config some_requests empty_db (record {
      ids = tt;
      usernames = tt;
      tokens = tt;
      invite_tokens = tt;
      owners = tt;
      admins = tt;
      limits = tt;
    })
