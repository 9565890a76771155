-- ===== src/Auth/Cookies.antt =====
-- The session cookie and the tokens of packages/crab_city/src/auth.rs.
use crabcity.Auth.Types.{AuthConfig}
use crabcity.Shared.{
  List, Option, Text, [], codes, decimal, if◌then◌else◌, ltb, none, some, strip_prefix, trim, ℕ,
  ◌%◌, ◌++◌, ◌+◌, ◌/◌, ◌==◌, ◌∷◌,
}

abbrev pub semicolon : ℕ
semicolon = 59

-- `s.split(';')`: the first part, and the parts behind it.
unfoldable pub split_first : Text → Text × List Text
split_first [] = ([], [])
split_first (ch ∷ s) =
    let rest = split_first s in
    if ch == semicolon then ([], rest.0 ∷ rest.1) else (ch ∷ rest.0, rest.1)

abbrev pub session_prefix : Text
session_prefix = codes "crab_session="

-- The loop over the cookies.
unfoldable pub find_session : List Text → Option Text
find_session [] = none
find_session (cookie ∷ cookies) = elim (strip_prefix (trim cookie) session_prefix) [
  | none ↦ find_session cookies
  | some value ↦ some value
]

-- The argument is the header `Cookie`, if there is one and it is text.
unfoldable pub extract_session_token : Option Text → Option Text
unfolding split_first find_session
extract_session_token none = none
extract_session_token (some cookie_header) =
    let parts = split_first cookie_header in find_session (parts.0 ∷ parts.1)

unfoldable pub make_session_cookie : Text → AuthConfig → Text
make_session_cookie token auth_config =
    session_prefix
    ++ (token
        ++ (codes "; HttpOnly; SameSite=Lax; Path=/; Max-Age="
            ++ (decimal auth_config.session_ttl_secs
                ++ (if auth_config.https then codes "; Secure" else []))))

unfoldable pub make_clear_cookie : AuthConfig → Text
make_clear_cookie auth_config =
    codes "crab_session=; HttpOnly; SameSite=Lax; Path=/; Max-Age=0"
    ++ (if auth_config.https then codes "; Secure" else [])

abbrev pub hex_digit : ℕ → ℕ
hex_digit n = if ltb n 10 then 48 + n else 87 + n

-- `hex::encode`: two digits for each byte.
unfoldable pub encode : List ℕ → Text
encode [] = []
encode (b ∷ bytes) = hex_digit (b / 16 % 16) ∷ hex_digit (b % 16) ∷ encode bytes
