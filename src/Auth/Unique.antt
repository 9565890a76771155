-- ===== src/Auth/Unique.antt =====
-- Keys of the tables behind packages/crab_city/src/repository/auth.rs: no id, name or token occurs
-- twice, and a lookup by such a key finds the row itself.
use crabcity.Auth.Gate.{In}
use crabcity.Auth.Tables.{find_session_by, find_user_by, has_id}
use crabcity.Auth.Texts.{eq_text-true, eq_text_self}
use crabcity.Auth.Types.{Session, User}
use crabcity.Inference.Manager.{new}
use crabcity.Shared.{
  Bool-cases, List, Text, [], any, ap, arith, contains_text, eq_text, false, inl, inr, map, none,
  not, refl, retain, some, subst, sym, true, ◌++◌, ◌||◌, ◌∙◌, ◌∷◌, ◌≡◌,
}

abbrev pub Unique : List Text → Type 0
Unique [] = Unit
Unique (x ∷ xs) = (contains_text x xs ≡ false) × Unique xs

pub eq_text_sym : (s t : Text) → eq_text s t ≡ eq_text t s
eq_text_sym s t = elim (Bool-cases (eq_text s t)) [
  | inl same ↦ rw (eq_text-true s t same) refl
  | inr other ↦ elim (Bool-cases (eq_text t s)) [
    | inl same ↦ rw (eq_text-true t s same) refl
    | inr other' ↦ rw (other, other') refl
  ]
]

contains_text-append :
    (x : Text) (xs ys : List Text)
    → contains_text x (xs ++ ys) ≡ contains_text x xs || contains_text x ys
contains_text-append x [] ys = refl
contains_text-append x (y ∷ xs) ys = ground (arith, contains_text-append x xs ys)

pub Unique-snoc :
    (xs : List Text) (y : Text) → Unique xs → contains_text y xs ≡ false → Unique (xs ++ y ∷ [])
Unique-snoc [] y h new = (refl, tt)
Unique-snoc (x ∷ xs) y (first, rest) new =
    let apart : (eq_text x y ≡ false) × (contains_text y xs ≡ false) = ground (arith, new) in
    (
      rw (contains_text-append x xs (y ∷ []), first, sym (eq_text_sym x y), apart.0) refl,
      Unique-snoc xs y rest apart.1,
    )

pub map-append :
    {A : Type 0} (f : A → Text) (xs ys : List A) → map f (xs ++ ys) ≡ map f xs ++ map f ys
map-append f [] ys = refl
map-append f (x ∷ xs) ys = ap (◌∷◌ (f x)) (map-append f xs ys)

-- A test for a key over a table is a test over its keys.
pub any-contains :
    {A : Type 0} (f : A → Text) (key : Text) (rows : List A)
    → any (λ x. eq_text (f x) key) rows ≡ contains_text key (map f rows)
any-contains f key [] = refl
any-contains f key (x ∷ rows) = ground (arith, any-contains f key rows)

contains_text-In :
    {A : Type 0} (f : A → Text) (x : A) (rows : List A)
    → In x rows
    → contains_text (f x) (map f rows) ≡ true
contains_text-In f x [] h = absurd h
contains_text-In f x (y ∷ rows) (inl same) = rw (ap f same, eq_text_self (f x)) refl
contains_text-In f x (y ∷ rows) (inr later) = ground (arith, contains_text-In f x rows later)

pub find_user_by-In :
    (u : User) (users : List User)
    → Unique (map (λ (x : User). x.id) users)
    → In u users
    → find_user_by (has_id u.id) users ≡ some u
unfolding find_user_by
find_user_by-In u [] h there = absurd there
find_user_by-In u (x ∷ users) h (inl same) =
    rw (ap (λ (y : User). eq_text y.id u.id) same ∙ eq_text_self u.id, find_user_by) (ap some same)
find_user_by-In u (x ∷ users) (first, rest) (inr later) = elim (Bool-cases (eq_text x.id u.id)) [
  | inl same ↦
      let twice : contains_text x.id (map (λ (y : User). y.id) users) ≡ true =
        subst (λ k. contains_text k (map (λ (y : User). y.id) users) ≡ true)
          (sym (eq_text-true x.id u.id same))
          (contains_text-In (λ (y : User). y.id) u users later) in
      cc
  | inr other ↦ rw (other, find_user_by) (find_user_by-In u users rest later)
]

-- A session that is stored last is found by its token, where the token is new.
pub find_session_by-snoc :
    (s : Session) (sessions : List Session)
    → any (λ x. eq_text x.token s.token) sessions ≡ false
    → find_session_by s.token (sessions ++ s ∷ []) ≡ some s
unfolding find_session_by
find_session_by-snoc s [] new = rw (eq_text_self s.token) refl
find_session_by-snoc s (x ∷ sessions) new = ground (arith, find_session_by-snoc s sessions)

pub find_session_by-retain :
    (token : Text) (sessions : List Session)
    → find_session_by token (retain (λ s. not (eq_text s.token token)) sessions) ≡ none
unfolding find_session_by
find_session_by-retain token [] = refl
find_session_by-retain token (x ∷ sessions) = elim (Bool-cases (eq_text x.token token)) [
  | inl same ↦ rw same (find_session_by-retain token sessions)
  | inr other ↦ rw (other, find_session_by, other) (find_session_by-retain token sessions)
]
