-- ===== src/Auth/Forgery.antt =====
-- Which requests need the token against forged requests (packages/crab_city/src/auth.rs), described
-- apart from the code.
use crabcity.Auth.Middleware.{Request, csrf_ok, is_mutating, is_websocket, or_empty, to_lowercase}
use crabcity.Auth.Texts.{eq_text-true, eq_text_self}
use crabcity.Auth.Types.{Session}
use crabcity.Shared.{
  All, Bool-cases, Option, Text, [], arith, codes, eq_text, false, inl, inr, map, none, refl, some,
  sym, true, ◌+◌, ◌∙◌, ◌∷◌, ◌≡◌, ◌≤◌, ◌⊎◌,
}
use crabcity.Terminal.Sgr.{plain}

-- A request that may change something.
abbrev pub IsChange : Text → Type 0
IsChange method =
    (method ≡ codes "POST")
    ⊎ (method ≡ codes "PUT")
    ⊎ (method ≡ codes "DELETE")
    ⊎ (method ≡ codes "PATCH")

-- The same text, where capital letters may stand for the small letters of the first.
abbrev pub Spells : Text → Text → Type 0
Spells [] [] = Unit
Spells [] (d ∷ t) = ⊥
Spells (c ∷ s) [] = ⊥
Spells (c ∷ s) (d ∷ t) = ((d ≡ c) ⊎ ((65 ≤ d) × (d ≤ 90) × (d + 32 ≡ c))) × Spells s t

-- An upgrade to a WebSocket.
abbrev pub IsUpgrade : Option Text → Type 0
IsUpgrade none = ⊥
IsUpgrade (some value) = Spells (codes "websocket") value

-- The header has the token; a missing one has the empty token.
abbrev pub Carries : Option Text → Text → Type 0
Carries none token = [] ≡ token
Carries (some value) token = value ≡ token

-- What keeps a request with the cookie of a session from being taken for a forged one.
abbrev pub IsGenuine : Request → Session → Type 0
IsGenuine r session =
    (¬ (IsChange r.method)) ⊎ IsUpgrade r.upgrade ⊎ Carries r.csrf_header session.csrf_token

abbrev pub IsForged : Request → Session → Type 0
IsForged r session =
    IsChange r.method × (¬ (IsUpgrade r.upgrade)) × (¬ (Carries r.csrf_header session.csrf_token))

is_mutating-IsChange : (method : Text) → is_mutating method ≡ true → IsChange method
unfolding is_mutating
is_mutating-IsChange method h = elim (Bool-cases (eq_text method (codes "POST"))) [
  | inl post ↦ inl (eq_text-true method (codes "POST") post)
  | inr post ↦ elim (Bool-cases (eq_text method (codes "PUT"))) [
    | inl put ↦ inr (inl (eq_text-true method (codes "PUT") put))
    | inr put ↦ elim (Bool-cases (eq_text method (codes "DELETE"))) [
      | inl delete ↦ inr (inr (inl (eq_text-true method (codes "DELETE") delete)))
      | inr delete ↦
          inr
            (inr (inr (eq_text-true method (codes "PATCH") (ground (arith, h, post, put, delete)))))
    ]
  ]
]

IsChange-is_mutating : (method : Text) → IsChange method → is_mutating method ≡ true
unfolding is_mutating
IsChange-is_mutating method (inl e) = rw (e, eq_text_self (codes "POST")) refl
IsChange-is_mutating method (inr (inl e)) =
    let same : eq_text method (codes "PUT") ≡ true = rw e (eq_text_self (codes "PUT")) in
    ground (arith, same)
IsChange-is_mutating method (inr (inr (inl e))) =
    let same : eq_text method (codes "DELETE") ≡ true = rw e (eq_text_self (codes "DELETE")) in
    ground (arith, same)
IsChange-is_mutating method (inr (inr (inr e))) =
    let same : eq_text method (codes "PATCH") ≡ true = rw e (eq_text_self (codes "PATCH")) in
    ground (arith, same)

-- Only small letters.
abbrev AreSmall : Text → Type 0
AreSmall s = All (λ c. 97 ≤ c) s

map-Spells : (s t : Text) → map to_lowercase t ≡ s → Spells s t
map-Spells [] [] e = tt
map-Spells [] (d ∷ t) e = cc
map-Spells (c ∷ s) [] e = cc
map-Spells (c ∷ s) (d ∷ t) e = (ground arith, map-Spells s t (ground arith))

Spells-map : (s t : Text) → AreSmall s → Spells s t → map to_lowercase t ≡ s
Spells-map [] [] small h = refl
Spells-map [] (d ∷ t) small h = absurd h
Spells-map (c ∷ s) [] small h = absurd h
Spells-map (c ∷ s) (d ∷ t) small (inl same, h) =
    ground (arith, small.0, same, Spells-map s t small.1 h)
Spells-map (c ∷ s) (d ∷ t) small (inr capital, h) =
    ground (arith, capital.0, capital.1, capital.2, Spells-map s t small.1 h)

websocket-small : AreSmall (codes "websocket")
websocket-small = ground arith

websocket-lower : map to_lowercase (codes "websocket") ≡ codes "websocket"
websocket-lower = refl

is_websocket-IsUpgrade : (o : Option Text) → is_websocket o ≡ true → IsUpgrade o
is_websocket-IsUpgrade none h = cc
is_websocket-IsUpgrade (some value) h =
    map-Spells (codes "websocket") value (eq_text-true _ _ h ∙ websocket-lower)

IsUpgrade-is_websocket : (o : Option Text) → IsUpgrade o → is_websocket o ≡ true
IsUpgrade-is_websocket none h = absurd h
IsUpgrade-is_websocket (some value) h =
    rw (Spells-map (codes "websocket") value websocket-small h ∙ sym websocket-lower)
      (eq_text_self (map to_lowercase (codes "websocket")))

or_empty-Carries : (o : Option Text) (token : Text) → or_empty o ≡ token → Carries o token
or_empty-Carries none token e = e
or_empty-Carries (some value) token e = e

Carries-or_empty : (o : Option Text) (token : Text) → Carries o token → or_empty o ≡ token
Carries-or_empty none token e = e
Carries-or_empty (some value) token e = e

pub csrf_ok-IsGenuine :
    (r : Request) (session : Session) → csrf_ok r session ≡ true → IsGenuine r session
unfolding csrf_ok
csrf_ok-IsGenuine r session h = elim (Bool-cases (is_mutating r.method)) [
  | inr reads ↦ inl (λ change. let e = IsChange-is_mutating r.method change in cc)
  | inl writes ↦ elim (Bool-cases (is_websocket r.upgrade)) [
    | inl upgrades ↦ inr (inl (is_websocket-IsUpgrade r.upgrade upgrades))
    | inr plain ↦ inr (
        inr (
          or_empty-Carries r.csrf_header session.csrf_token
            (eq_text-true _ _ (ground (arith, h, writes, plain)))))
  ]
]

pub csrf_ok-IsForged :
    (r : Request) (session : Session) → csrf_ok r session ≡ false → IsForged r session
unfolding csrf_ok
csrf_ok-IsForged r session h = elim (Bool-cases (is_mutating r.method)) [
  | inr reads ↦ absurd (ground (arith, h, reads))
  | inl writes ↦ elim (Bool-cases (is_websocket r.upgrade)) [
    | inl upgrades ↦ absurd (ground (arith, h, writes, upgrades))
    | inr plain ↦
        let differs : eq_text (or_empty r.csrf_header) session.csrf_token ≡ false =
          ground (arith, h, writes, plain) in
        (
          is_mutating-IsChange r.method writes,
          λ up. let e = IsUpgrade-is_websocket r.upgrade up in cc,
          λ carried.
              let same = Carries-or_empty r.csrf_header session.csrf_token carried in
              let e : eq_text (or_empty r.csrf_header) session.csrf_token ≡ true =
                rw same (eq_text_self session.csrf_token) in
              cc,
        )
  ]
]
