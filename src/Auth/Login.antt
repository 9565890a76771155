-- ===== src/Auth/Login.antt =====
-- From the login of packages/crab_city/src/auth.rs to the requests that follow, and to the logout.
use crabcity.Auth.Answers.{Argon2, Fresh, auth_body, session_for}
use crabcity.Auth.CookieTrip.{IsPlain}
use crabcity.Auth.Cookies.{encode, extract_session_token, hex_digit, make_session_cookie}
use crabcity.Auth.Gate.{In, find_user_by_lem}
use crabcity.Auth.Handlers.{login_handler}
use crabcity.Auth.Middleware.{
  Request, auth_middleware, auth_user_of, csrf_ok, is_exempt, or_empty, passed,
}
use crabcity.Auth.Tables.{
  Faults, answered, create_session, create_session_query, get_session_with_user,
  get_user_by_username, has_id, has_username,
}
use crabcity.Auth.Texts.{eq_text_self}
use crabcity.Auth.Types.{AuthConfig, Db, Session, User, info_from}
use crabcity.Inference.Manager.{new}
use crabcity.Shared.{
  All, List, Option, Text, [], any, ap, arith, eq_text, false, inl, inr, is_whitespace, map, refl,
  some, true, ℕ, ◌%◌, ◌++◌, ◌/◌, ◌<◌, ◌∙◌, ◌∷◌, ◌≡◌,
}

abbrev pub ids_of : Db → List Text
ids_of db = map (λ (u : User). u.id) db.users

hex_digit-IsPlain : (n : ℕ) → n < 16 → IsPlain (hex_digit n)
unfolding is_whitespace
hex_digit-IsPlain n h = (ground arith, ground arith)

pub encode-IsPlain : (bytes : List ℕ) → All IsPlain (encode bytes)
unfolding encode
encode-IsPlain [] = tt
encode-IsPlain (b ∷ bytes) = (
  hex_digit-IsPlain (b / 16 % 16) (omega arith),
  (hex_digit-IsPlain (b % 16) (omega arith), encode-IsPlain bytes),
)

any-In : (u : User) (users : List User) → In u users → any (has_id u.id) users ≡ true
any-In u [] h = absurd h
any-In u (x ∷ users) (inl same) = rw (ap (λ (y : User). y.id) same, eq_text_self u.id) refl
any-In u (x ∷ users) (inr later) = ground (arith, any-In u users later)

create_session_new :
    (fails : Faults) (session : Session) (db : Db) (user : User)
    → In user db.users
    → session.user_id ≡ user.id
    → fails create_session_query ≡ false
    → any (λ s. eq_text s.token session.token) db.sessions ≡ false
    → create_session fails session db
      ≡ answered (record db { sessions = db.sessions ++ session ∷ [] })
unfolding create_session
create_session_new fails session db user known owner up new =
    rw (up, new, owner, any-In user db.users known) refl

pub csrf_ok-header :
    (r : Request) (session : Session)
    → r.csrf_header ≡ some session.csrf_token
    → csrf_ok r session ≡ true
unfolding csrf_ok
csrf_ok-header r session e =
    let same : eq_text (or_empty r.csrf_header) session.csrf_token ≡ true =
      ap (λ h. eq_text (or_empty h) session.csrf_token) e ∙ eq_text_self session.csrf_token in
    ground (arith, same)

-- A request that carries the cookie of a stored session.
pub auth_middleware-passes :
    (fails : Faults) (now : ℕ) (config : AuthConfig) (db : Db) (r : Request) (token : Text)
    (session : Session) (user : User)
    → config.enabled ≡ true
    → is_exempt r.path ≡ false
    → extract_session_token r.cookie ≡ some token
    → get_session_with_user fails now token db ≡ answered (some (session, user))
    → csrf_ok r session ≡ true
    → (auth_middleware fails now config db r).0 ≡ passed (some (auth_user_of session user))
unfolding auth_middleware
auth_middleware-passes fails now config db r token session user on private found live fine =
    rw (private, on, found, live, fine) refl

-- The answer to a login, and the tables that it leaves.
pub login_handler-ends :
    (argon2 : Argon2) (fails : Faults) (now : ℕ) (config : AuthConfig) (fresh : Fresh)
    (user_agent : Option Text) (username password : Text) (db : Db) (user : User)
    → config.enabled ≡ true
    → get_user_by_username fails username db ≡ answered (some user)
    → user.is_disabled ≡ false
    → argon2.verify_password password user.password_hash ≡ true
    → fails create_session_query ≡ false
    → any (λ s. eq_text s.token fresh.session_token) db.sessions ≡ false
    → In user db.users
      × (login_handler argon2 fails now config fresh user_agent username password db ≡ (
        record {
          code = 200;
          set_cookie = some (make_session_cookie fresh.session_token config);
          body = auth_body (info_from user) fresh.csrf_token;
        },
        record db { sessions = db.sessions ++ session_for now config fresh user_agent user ∷ [] },
      ))
unfolding login_handler get_user_by_username
login_handler-ends argon2 fails now config fresh user_agent username password db user on found able
      right up new =
    let session = session_for now config fresh user_agent user in
    let known : In user db.users =
      (find_user_by_lem (has_username username) db.users user (ground (arith, found))).0 in
    let stored = create_session_new fails session db user known refl up new in
    (known, rw (on, found, able, right, stored) refl)
