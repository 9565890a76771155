-- ===== src/Auth/CookieTrip.antt =====
-- A session cookie of packages/crab_city/src/auth.rs on its way to the browser and back.
use crabcity.Auth.Cookies.{
  extract_session_token, find_session, make_session_cookie, semicolon, session_prefix, split_first,
}
use crabcity.Auth.Types.{AuthConfig}
use crabcity.Shared.{
  All, All-append, List, Option, StartsDark, Text, [], ap, arith, codes, decimal, false,
  if◌then◌else◌, is_empty, is_whitespace, none, refl, some, strip_prefix, subst, sym, trim,
  trim_end, trim_start, ℕ, ◌&&◌, ◌++◌, ◌==◌, ◌∙◌, ◌∷◌, ◌≡◌,
}
use crabcity.Terminal.Sgr.{plain}

-- What a browser keeps of the header `Set-Cookie`: name and value, in front of the attributes.
abbrev pub name_and_value : Text → Text
name_and_value set_cookie = (split_first set_cookie).0

-- The header `Cookie` that a browser sends.
unfoldable pub cookie_header : List Text → Text
cookie_header [] = []
cookie_header (x ∷ []) = x
cookie_header (x ∷ y ∷ xs) = x ++ semicolon ∷ 32 ∷ cookie_header (y ∷ xs)

abbrev pub IsPlain : ℕ → Type 0
IsPlain ch = (ch == semicolon ≡ false) × (is_whitespace ch ≡ false)

-- A cookie of another name.
abbrev pub OtherName : Text → Type 0
OtherName cookie =
    All (λ ch. ch == semicolon ≡ false) cookie × (strip_prefix (trim cookie) session_prefix ≡ none)

split_first-plain : (s : Text) → All (λ ch. ch == semicolon ≡ false) s → split_first s ≡ (s, [])
unfolding split_first
split_first-plain [] h = refl
split_first-plain (ch ∷ s) (not_it, rest) = rw (not_it, split_first, split_first-plain s rest) refl

split_first-append :
    (s t : Text)
    → All (λ ch. ch == semicolon ≡ false) s
    → split_first (s ++ semicolon ∷ t) ≡ (s, (split_first t).0 ∷ (split_first t).1)
unfolding split_first
split_first-append [] t h = refl
split_first-append (ch ∷ s) t (not_it, rest) =
    rw (not_it, split_first, split_first-append s t rest) refl

trim-space : (s : Text) → trim (32 ∷ s) ≡ trim s
unfolding trim trim_start trim_end is_whitespace
trim-space s = go (trim_end s)
  where
    go :
        (t : Text)
        → trim_start (if is_whitespace 32 && is_empty t then [] else 32 ∷ t) ≡ trim_start t
    go [] = refl
    go (ch ∷ t) = refl

trim_start-dark : (s : Text) → StartsDark s → trim_start s ≡ s
unfolding trim_start
trim_start-dark [] h = refl
trim_start-dark (ch ∷ s) h = rw (h, trim_start) refl

trim_end-dark : (s : Text) → All (λ ch. is_whitespace ch ≡ false) s → trim_end s ≡ s
unfolding trim_end
trim_end-dark [] h = refl
trim_end-dark (ch ∷ s) (dark, rest) = rw (dark, trim_end, trim_end-dark s rest) refl

All-StartsDark : (s : Text) → All (λ ch. is_whitespace ch ≡ false) s → StartsDark s
All-StartsDark [] h = tt
All-StartsDark (ch ∷ s) h = h.0

trim-dark : (s : Text) → All (λ ch. is_whitespace ch ≡ false) s → trim s ≡ s
unfolding trim
trim-dark s h = rw (trim_end-dark s h) (trim_start-dark s (All-StartsDark s h))

strip_prefix-append : (p s : Text) → strip_prefix (p ++ s) p ≡ some s
unfolding strip_prefix
strip_prefix-append [] [] = refl
strip_prefix-append [] (ch ∷ s) = refl
strip_prefix-append (ch ∷ p) s = ground (arith, strip_prefix-append p s)

-- The search over what a header is split into.
abbrev found_in : Text × List Text → Option Text
found_in parts = find_session (parts.0 ∷ parts.1)

found_in-space : (t : Text) → found_in (split_first (32 ∷ t)) ≡ found_in (split_first t)
unfolding split_first find_session
found_in-space t = rw (find_session, trim-space (split_first t).0) refl

found_in-match :
    (parts : Text × List Text) (s token : Text)
    → parts.0 ≡ s
    → strip_prefix (trim s) session_prefix ≡ some token
    → found_in parts ≡ some token
unfolding find_session
found_in-match parts s token first e = rw (first, find_session, e) refl

find_session-foreign :
    (x : Text) (cookies : List Text)
    → strip_prefix (trim x) session_prefix ≡ none
    → find_session (x ∷ cookies) ≡ find_session cookies
unfolding find_session
find_session-foreign x cookies foreign = rw (find_session, foreign) refl

found_in-skip :
    (x t : Text)
    → OtherName x
    → found_in (split_first (x ++ semicolon ∷ t)) ≡ found_in (split_first t)
found_in-skip x t (whole, foreign) =
    ap found_in (split_first-append x t whole)
    ∙ find_session-foreign x ((split_first t).0 ∷ (split_first t).1) foreign

session_prefix-IsPlain : All IsPlain session_prefix
unfolding is_whitespace
session_prefix-IsPlain = (
  (refl, refl),
  (
    (refl, refl),
    (
      (refl, refl),
      (
        (refl, refl),
        (
          (refl, refl),
          (
            (refl, refl),
            (
              (refl, refl),
              (
                (refl, refl),
                ((refl, refl), ((refl, refl), ((refl, refl), ((refl, refl), ((refl, refl), tt))))),
              ),
            ),
          ),
        ),
      ),
    ),
  ),
)

All-first : (s : Text) → All IsPlain s → All (λ ch. ch == semicolon ≡ false) s
All-first [] h = tt
All-first (ch ∷ s) ((p, q), h) = (p, All-first s h)

All-second : (s : Text) → All IsPlain s → All (λ ch. is_whitespace ch ≡ false) s
All-second [] h = tt
All-second (ch ∷ s) ((p, q), h) = (q, All-second s h)

module _ (token : Text) (plain : All IsPlain token) where
  abbrev session_pair : Text
  session_pair = session_prefix ++ token

  session_pair-IsPlain : All IsPlain session_pair
  session_pair-IsPlain = All-append IsPlain session_prefix token session_prefix-IsPlain plain

  strip-session_pair : strip_prefix (trim session_pair) session_prefix ≡ some token
  strip-session_pair =
      subst (λ x. strip_prefix x session_prefix ≡ some token)
        (sym (trim-dark session_pair (All-second session_pair session_pair-IsPlain)))
        (strip_prefix-append session_prefix token)

  session_pair-found :
      (back : List Text) → found_in (split_first (cookie_header (session_pair ∷ back))) ≡ some token
  unfolding cookie_header
  session_pair-found [] =
      let whole = All-first session_pair session_pair-IsPlain in
      found_in-match (split_first session_pair) session_pair token
        (ap (λ (q : Text × List Text). q.0) (split_first-plain session_pair whole))
        strip-session_pair
  session_pair-found (y ∷ back) =
      let whole = All-first session_pair session_pair-IsPlain in
      let rest = 32 ∷ cookie_header (y ∷ back) in
      found_in-match (split_first (session_pair ++ semicolon ∷ rest)) session_pair token
        (ap (λ (q : Text × List Text). q.0) (split_first-append session_pair rest whole))
        strip-session_pair

  cookie_header-cons :
      (x : Text) (front : List Text) (back : List Text)
      → cookie_header (x ∷ (front ++ session_pair ∷ back))
        ≡ x ++ semicolon ∷ 32 ∷ cookie_header (front ++ session_pair ∷ back)
  unfolding cookie_header
  cookie_header-cons x [] back = refl
  cookie_header-cons x (y ∷ front) back = refl

  -- The cookie with a token is found behind cookies of other names.
  pub found_in-front :
      (front back : List Text)
      → All OtherName front
      → found_in (split_first (cookie_header (front ++ session_pair ∷ back))) ≡ some token
  found_in-front [] back h = session_pair-found back
  found_in-front (x ∷ front) back (foreign, rest) =
      let tail = cookie_header (front ++ session_pair ∷ back) in
      ap (λ s. found_in (split_first s)) (cookie_header-cons x front back)
      ∙ (found_in-skip x (32 ∷ tail) foreign
          ∙ (found_in-space tail ∙ found_in-front front back rest))

  name_and_value-make :
      (config : AuthConfig) → name_and_value (make_session_cookie token config) ≡ session_pair
  unfolding make_session_cookie
  name_and_value-make config =
      let whole = All-first session_pair session_pair-IsPlain in
      ap (λ (q : Text × List Text). q.0)
        (split_first-append session_pair
          (codes " HttpOnly; SameSite=Lax; Path=/; Max-Age="
            ++ (decimal config.session_ttl_secs ++ (if config.https then codes "; Secure" else [])))
          whole)

-- What a browser sends of a session cookie that it was given is read as the same token, whatever other
-- cookies come with it.
pub extract-make_session_cookie :
    (token : Text) (config : AuthConfig) (front back : List Text)
    → All IsPlain token
    → All OtherName front
    → extract_session_token
        (some (cookie_header (front ++ name_and_value (make_session_cookie token config) ∷ back)))
      ≡ some token
unfolding extract_session_token
extract-make_session_cookie token config front back plain foreign =
    rw (name_and_value-make token plain config) (found_in-front token plain front back foreign)
