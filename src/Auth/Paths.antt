-- ===== src/Auth/Paths.antt =====
-- The paths that need no session (packages/crab_city/src/auth.rs), described apart from the code.
use crabcity.Auth.Middleware.{ends_with, is_exempt}
use crabcity.Auth.Texts.{eq_text-true, eq_text_self}
use crabcity.Shared.{
  Bool, Bool-cases, List, Text, [], any, ap, append-nil, append_assoc, arith, codes, eq_text, false,
  inl, inr, refl, reverse_text, starts_with, starts_with_of_prefix, starts_with_sound, sym, true,
  ◌++◌, ◌||◌, ◌∙◌, ◌∷◌, ◌≡◌, ◌⊎◌,
}

-- What an open path may look like: a given path, or anything that begins or ends in a given way.
pub data Pattern : Type 0 where
  is_path : (path : Text) → Pattern
  has_front : (front : Text) → Pattern
  has_back : (back : Text) → Pattern

abbrev open_patterns : List Pattern
open_patterns =
    has_front (codes "/api/auth/")
    ∷ is_path (codes "/health")
    ∷ has_front (codes "/health/")
    ∷ is_path (codes "/metrics")
    ∷ has_front (codes "/api/share/")
    ∷ has_front (codes "/spa/")
    ∷ is_path (codes "/")
    ∷ has_back (codes ".js")
    ∷ has_back (codes ".css")
    ∷ has_back (codes ".png")
    ∷ has_back (codes ".ico")
    ∷ has_back (codes ".svg")
    ∷ has_back (codes ".woff2")
    ∷ []

abbrev pub Fits : Text → Pattern → Type 0
Fits path (is_path other) = path ≡ other
Fits path (has_front front) = (rest : Text) × (path ≡ front ++ rest)
Fits path (has_back back) = (rest : Text) × (path ≡ rest ++ back)

abbrev pub FitsOne : Text → List Pattern → Type 0
FitsOne path [] = ⊥
FitsOne path (x ∷ patterns) = Fits path x ⊎ FitsOne path patterns

-- A path of the frontend or of the public part of the interface.
abbrev pub IsOpenPath : Text → Type 0
IsOpenPath path = FitsOne path open_patterns

abbrev fits : Text → Pattern → Bool
fits path (is_path other) = eq_text path other
fits path (has_front front) = starts_with path front
fits path (has_back back) = ends_with path back

reverse-append : (s t : Text) → reverse_text (s ++ t) ≡ reverse_text t ++ reverse_text s
unfolding reverse_text
reverse-append [] t = sym (append-nil (reverse_text t))
reverse-append (c ∷ s) t =
    ap (λ u. u ++ c ∷ []) (reverse-append s t)
    ∙ append_assoc (reverse_text t) (reverse_text s) (c ∷ [])

reverse-reverse : (s : Text) → reverse_text (reverse_text s) ≡ s
unfolding reverse_text
reverse-reverse [] = refl
reverse-reverse (c ∷ s) = reverse-append (reverse_text s) (c ∷ []) ∙ ap (◌∷◌ c) (reverse-reverse s)

fits-Fits : (path : Text) (x : Pattern) → fits path x ≡ true → Fits path x
fits-Fits path (is_path other) h = eq_text-true path other h
fits-Fits path (has_front front) h = starts_with_sound path front h
fits-Fits path (has_back back) h =
    let (rest, e) = starts_with_sound (reverse_text path) (reverse_text back) h in
    (
      reverse_text rest,
      sym (reverse-reverse path)
          ∙ (ap reverse_text e
              ∙ (reverse-append (reverse_text back) rest
                  ∙ ap (λ u. reverse_text rest ++ u) (reverse-reverse back))),
    )

Fits-fits : (path : Text) (x : Pattern) → Fits path x → fits path x ≡ true
Fits-fits path (is_path other) e = rw e (eq_text_self other)
Fits-fits path (has_front front) e = starts_with_of_prefix front path e
Fits-fits path (has_back back) (rest, e) =
    starts_with_of_prefix (reverse_text back) (reverse_text path)
      (reverse_text rest, ap reverse_text e ∙ reverse-append rest back)

FitsOne-any :
    (path : Text) (patterns : List Pattern)
    → FitsOne path patterns
    → any (fits path) patterns ≡ true
FitsOne-any path [] h = absurd h
FitsOne-any path (x ∷ patterns) (inl h) = rw (Fits-fits path x h) refl
FitsOne-any path (x ∷ patterns) (inr h) = ground (arith, FitsOne-any path patterns h)

any-FitsOne :
    (path : Text) (patterns : List Pattern)
    → any (fits path) patterns ≡ true
    → FitsOne path patterns
any-FitsOne path [] h = cc
any-FitsOne path (x ∷ patterns) h = elim (Bool-cases (fits path x)) [
  | inl now ↦ inl (fits-Fits path x now)
  | inr later ↦ inr (any-FitsOne path patterns (ground (arith, h, later)))
]

-- The tests in the order of the code, which joins them to the left.
any_from : Bool → Text → List Pattern → Bool
any_from acc path [] = acc
any_from acc path (x ∷ patterns) = any_from (acc || fits path x) path patterns

any_from-any :
    (acc : Bool) (path : Text) (patterns : List Pattern)
    → any_from acc path patterns ≡ (acc || any (fits path) patterns)
unfolding any_from
any_from-any true path [] = refl
any_from-any false path [] = refl
any_from-any acc path (x ∷ patterns) =
    any_from-any (acc || fits path x) path patterns ∙ or_assoc acc (fits path x)
  where
    or_assoc :
        (a b : Bool) → (a || b || any (fits path) patterns) ≡ (a || (b || any (fits path) patterns))
    or_assoc true b = refl
    or_assoc false b = refl

is_exempt-patterns : (path : Text) → is_exempt path ≡ any (fits path) open_patterns
unfolding is_exempt any_from
is_exempt-patterns path = any_from-any false path open_patterns

-- A path that the code takes for exempt is an open one.
pub is_exempt-IsOpenPath : (path : Text) → is_exempt path ≡ true → IsOpenPath path
is_exempt-IsOpenPath path h = any-FitsOne path open_patterns (sym (is_exempt-patterns path) ∙ h)

-- And no other path is open.
pub is_exempt-closed : (path : Text) → is_exempt path ≡ false → ¬ (IsOpenPath path)
is_exempt-closed path h fitting =
    let e = is_exempt-patterns path ∙ FitsOne-any path open_patterns fitting in cc
