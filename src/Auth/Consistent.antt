-- ===== src/Auth/Consistent.antt =====
-- What holds of the tables between any two requests to packages/crab_city/src/auth.rs.
use crabcity.Auth.Login.{ids_of}
use crabcity.Auth.Tables.{Faults, answered, create_session, has_id}
use crabcity.Auth.Types.{Db, ServerInvite, Session, User}
use crabcity.Auth.Unique.{Unique, Unique-snoc, any-contains, map-append}
use crabcity.Shared.{
  All, All-snoc, Bool, Bool-cases, List, Text, [], any, arith, contains_text, drop, eq_text, false,
  inl, inr, map, refl, retain, some, sym, true, ℕ, ◌++◌, ◌||◌, ◌∙◌, ◌∷◌, ◌≡◌, ◌≤◌,
}

abbrev pub WithinLimit : ServerInvite → Type 0
WithinLimit i = (most : ℕ) → i.max_uses ≡ some most → i.use_count ≤ most

pub record IsConsistent (db : Db) : Type 0 where
  -- Primary keys and unique columns.
  pub ids : Unique (ids_of db)
  pub usernames : Unique (map (λ (u : User). u.username) db.users)
  pub tokens : Unique (map (λ (s : Session). s.token) db.sessions)
  pub invite_tokens : Unique (map (λ (i : ServerInvite). i.token) db.server_invites)
  -- Sessions belong to users.
  pub owners : All (λ (s : Session). any (has_id s.user_id) db.users ≡ true) db.sessions
  -- Nobody but the first user is an admin.
  pub admins : All (λ (u : User). u.is_admin ≡ false) (drop 1 db.users)
  -- No invite is used more often than it may be.
  pub limits : All WithinLimit db.server_invites

pub any-append :
    {A : Type 0} (p : A → Bool) (xs ys : List A) → any p (xs ++ ys) ≡ any p xs || any p ys
any-append p [] ys = refl
any-append p (x ∷ xs) ys = ground (arith, any-append p xs ys)

pub All-map :
    {A : Type 0} (P Q : A → Type 0) (xs : List A) → ((a : A) → P a → Q a) → All P xs → All Q xs
All-map P Q [] f h = tt
All-map P Q (x ∷ xs) f (p, h) = (f x p, All-map P Q xs f h)

contains_text-retain :
    {A : Type 0} (f : A → Text) (p : A → Bool) (x : Text) (rows : List A)
    → contains_text x (map f rows) ≡ false
    → contains_text x (map f (retain p rows)) ≡ false
contains_text-retain f p x [] h = refl
contains_text-retain f p x (r ∷ rows) h =
    let rest = contains_text-retain f p x rows in ground (arith, rest)

Unique-retain :
    {A : Type 0} (f : A → Text) (p : A → Bool) (rows : List A)
    → Unique (map f rows)
    → Unique (map f (retain p rows))
Unique-retain f p [] h = tt
Unique-retain f p (r ∷ rows) (first, rest) = elim (Bool-cases (p r)) [
  | inl stays ↦ rw stays (contains_text-retain f p (f r) rows first, Unique-retain f p rows rest)
  | inr goes ↦ rw goes (Unique-retain f p rows rest)
]

All-retain :
    {A : Type 0} (P : A → Type 0) (p : A → Bool) (rows : List A)
    → All P rows
    → All P (retain p rows)
All-retain P p [] h = tt
All-retain P p (r ∷ rows) (first, rest) = elim (Bool-cases (p r)) [
  | inl stays ↦ rw stays (first, All-retain P p rows rest)
  | inr goes ↦ rw goes (All-retain P p rows rest)
]

-- Fewer sessions.
pub retain-IsConsistent :
    (p : Session → Bool) (db : Db)
    → IsConsistent db
    → IsConsistent (record db { sessions = retain p db.sessions })
retain-IsConsistent p db h = record {
  ids = h.ids;
  usernames = h.usernames;
  tokens = Unique-retain (λ (s : Session). s.token) p db.sessions h.tokens;
  invite_tokens = h.invite_tokens;
  owners =
      All-retain (λ (s : Session). any (has_id s.user_id) db.users ≡ true) p db.sessions h.owners;
  admins = h.admins;
  limits = h.limits;
}

-- One session more.
pub create_session-IsConsistent :
    (fails : Faults) (session : Session) (db after : Db)
    → create_session fails session db ≡ answered after
    → IsConsistent db
    → IsConsistent after
unfolding create_session
create_session-IsConsistent fails session db after e h =
    let new : any (λ s. eq_text s.token session.token) db.sessions ≡ false = ground (arith, e) in
    let owned : any (has_id session.user_id) db.users ≡ true = ground (arith, e) in
    let is_after : record db { sessions = db.sessions ++ session ∷ [] } ≡ after =
      ground (arith, e) in
    let key = λ (s : Session). s.token in
    rw (sym is_after) (record {
      ids = h.ids;
      usernames = h.usernames;
      tokens = rw (map-append key db.sessions (session ∷ [])) (
          Unique-snoc (map key db.sessions) session.token h.tokens
            (sym (any-contains key session.token db.sessions) ∙ new));
      invite_tokens = h.invite_tokens;
      owners =
          All-snoc (λ (s : Session). any (has_id s.user_id) db.users ≡ true) db.sessions session
            h.owners owned;
      admins = h.admins;
      limits = h.limits;
    })
