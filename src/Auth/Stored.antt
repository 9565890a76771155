-- ===== src/Auth/Stored.antt =====
-- The queries of packages/crab_city/src/repository/auth.rs that change users and invites keep the
-- tables consistent.
use crabcity.Auth.Consistent.{All-map, IsConsistent, WithinLimit, any-append}
use crabcity.Auth.Tables.{
  Faults, answered, create_user, find_invite_by, has_id, has_username, set_password,
  use_server_invite, used_once,
}
use crabcity.Auth.Texts.{eq_text-true}
use crabcity.Auth.Types.{Db, ServerInvite, Session, User, invite_is_valid}
use crabcity.Auth.Unique.{Unique, Unique-snoc, any-contains, eq_text_sym, map-append}
use crabcity.Shared.{
  All, All-snoc, Bool-cases, List, Text, [], any, ap, arith, contains_text, drop, eq_text, false,
  if◌then◌else◌, inl, inr, insert, map, refl, some, subst, sym, true, ℕ, ◌++◌, ◌+◌, ◌∙◌, ◌∷◌, ◌≡◌,
}
use crabcity.Terminal.Sgr.{plain}

drop-snoc :
    (users : List User) (u : User)
    → (u.is_admin ≡ true → users ≡ [])
    → All (λ (x : User). x.is_admin ≡ false) (drop 1 users)
    → All (λ (x : User). x.is_admin ≡ false) (drop 1 (users ++ u ∷ []))
drop-snoc [] u first h = tt
drop-snoc (x ∷ users) u first h =
    All-snoc (λ (x : User). x.is_admin ≡ false) users u h
      (elim (Bool-cases u.is_admin) [ inl yes_admin ↦ cc (first yes_admin) | inr plain ↦ plain ])

-- One user more, an admin only if the first.
pub create_user-IsConsistent :
    (fails : Faults) (user : User) (db after : Db)
    → (user.is_admin ≡ true → db.users ≡ [])
    → create_user fails user db ≡ answered after
    → IsConsistent db
    → IsConsistent after
unfolding create_user
create_user-IsConsistent fails user db after first e h =
    let no_id : any (has_id user.id) db.users ≡ false = ground (arith, e) in
    let no_name : any (has_username user.username) db.users ≡ false = ground (arith, e) in
    let is_after : record db { users = db.users ++ user ∷ [] } ≡ after = ground (arith, e) in
    let id_of = λ (u : User). u.id in
    let name_of = λ (u : User). u.username in
    rw (sym is_after) (record {
      ids = rw (map-append id_of db.users (user ∷ [])) (
          Unique-snoc (map id_of db.users) user.id h.ids
            (sym (any-contains id_of user.id db.users) ∙ no_id));
      usernames = rw (map-append name_of db.users (user ∷ [])) (
          Unique-snoc (map name_of db.users) user.username h.usernames
            (sym (any-contains name_of user.username db.users) ∙ no_name));
      tokens = h.tokens;
      invite_tokens = h.invite_tokens;
      owners =
          All-map (λ (s : Session). any (has_id s.user_id) db.users ≡ true)
            (λ (s : Session). any (has_id s.user_id) (db.users ++ user ∷ []) ≡ true) db.sessions
            (λ s known. any-append (has_id s.user_id) db.users (user ∷ []) ∙ rw known refl)
            h.owners;
      admins = drop-snoc db.users user first h.admins;
      limits = h.limits;
    })

map-set_password :
    {A : Type 0} (f : User → A) (now : ℕ) (id hash : Text) (users : List User)
    → ((u : User) → f (set_password now id hash u) ≡ f u)
    → map f (map (set_password now id hash) users) ≡ map f users
map-set_password f now id hash [] same = refl
map-set_password f now id hash (u ∷ users) same =
    rw (same u, map-set_password f now id hash users same) refl

any-set_password :
    (now : ℕ) (id hash key : Text) (users : List User)
    → any (has_id key) (map (set_password now id hash) users) ≡ any (has_id key) users
any-set_password now id hash key [] = refl
any-set_password now id hash key (u ∷ users) =
    ground (arith, any-set_password now id hash key users)

All-set_password :
    (now : ℕ) (id hash : Text) (users : List User)
    → All (λ (x : User). x.is_admin ≡ false) users
    → All (λ (x : User). x.is_admin ≡ false) (map (set_password now id hash) users)
All-set_password now id hash [] h = tt
All-set_password now id hash (u ∷ users) (plain, rest) =
    (ground (arith, plain), All-set_password now id hash users rest)

drop-set_password :
    (now : ℕ) (id hash : Text) (users : List User)
    → All (λ (x : User). x.is_admin ≡ false) (drop 1 users)
    → All (λ (x : User). x.is_admin ≡ false) (drop 1 (map (set_password now id hash) users))
drop-set_password now id hash [] h = tt
drop-set_password now id hash (u ∷ users) h = All-set_password now id hash users h

-- Another password.
pub set_password-IsConsistent :
    (now : ℕ) (id hash : Text) (db : Db)
    → IsConsistent db
    → IsConsistent (record db { users = map (set_password now id hash) db.users })
set_password-IsConsistent now id hash db h = record {
  ids = rw (map-set_password (λ (u : User). u.id) now id hash db.users (λ u. ground arith)) h.ids;
  usernames =
      rw (map-set_password (λ (u : User). u.username) now id hash db.users (λ u. ground arith))
        h.usernames;
  tokens = h.tokens;
  invite_tokens = h.invite_tokens;
  owners =
      All-map (λ (s : Session). any (has_id s.user_id) db.users ≡ true)
        (λ (s : Session). any (has_id s.user_id) (map (set_password now id hash) db.users) ≡ true)
        db.sessions (λ s known. any-set_password now id hash s.user_id db.users ∙ known) h.owners;
  admins = drop-set_password now id hash db.users h.admins;
  limits = h.limits;
}

map-used_once_other :
    (token : Text) (invites : List ServerInvite)
    → contains_text token (map (λ (i : ServerInvite). i.token) invites) ≡ false
    → map (used_once token) invites ≡ invites
map-used_once_other token [] h = refl
map-used_once_other token (i ∷ invites) h =
    let other : (eq_text token i.token ≡ false)
        × (contains_text token (map (λ (x : ServerInvite). x.token) invites) ≡ false) =
      ground (arith, h) in
    rw (sym (eq_text_sym token i.token), other.0, map-used_once_other token invites other.1) refl

map-used_once_token :
    (token : Text) (invites : List ServerInvite)
    → map (λ (i : ServerInvite). i.token) (map (used_once token) invites)
      ≡ map (λ (i : ServerInvite). i.token) invites
map-used_once_token token [] = refl
map-used_once_token token (i ∷ invites) = ground (arith, map-used_once_token token invites)

-- An invite that is still valid may be used once more.
used_once-WithinLimit :
    (now : ℕ) (i : ServerInvite)
    → invite_is_valid now i ≡ true
    → WithinLimit (record i { use_count = i.use_count + 1 })
unfolding invite_is_valid
used_once-WithinLimit now i valid most e = ground (arith, valid, e)

used_once-All :
    (now : ℕ) (token : Text) (invites : List ServerInvite) (i : ServerInvite)
    → Unique (map (λ (x : ServerInvite). x.token) invites)
    → find_invite_by token invites ≡ some i
    → invite_is_valid now i ≡ true
    → All WithinLimit invites
    → All WithinLimit (map (used_once token) invites)
unfolding find_invite_by
used_once-All now token [] i u found valid h = tt
used_once-All now token (x ∷ invites) i (first, rest) found valid (within, h) =
    elim (Bool-cases (eq_text x.token token)) [
      | inl same ↦
          let is_it : x ≡ i = ground (arith, found, same) in
          let valid_x : invite_is_valid now x ≡ true = ap (invite_is_valid now) is_it ∙ valid in
          let others : contains_text token (map (λ (y : ServerInvite). y.token) invites) ≡ false =
            subst (λ k. contains_text k (map (λ (y : ServerInvite). y.token) invites) ≡ false)
              (eq_text-true x.token token same) first in
          rw (same, map-used_once_other token invites others)
            (used_once-WithinLimit now x valid_x, h)
      | inr other ↦
          let found_later : find_invite_by token invites ≡ some i = ground (arith, found, other) in
          rw other (within, used_once-All now token invites i rest found_later valid h)
    ]

-- One use more of an invite that is valid.
pub use_server_invite-IsConsistent :
    (fails : Faults) (now : ℕ) (token user_id : Text) (db after : Db) (i : ServerInvite)
    → find_invite_by token db.server_invites ≡ some i
    → invite_is_valid now i ≡ true
    → use_server_invite fails token user_id db ≡ answered after
    → IsConsistent db
    → IsConsistent after
unfolding use_server_invite
use_server_invite-IsConsistent fails now token user_id db after i found valid e h =
    let is_after : record db {
      server_invites = map (used_once token) db.server_invites;
      invited =
          if any (has_id user_id) db.users then insert user_id token db.invited else db.invited;
    }
        ≡ after =
      ground (arith, e) in
    rw (sym is_after) (record {
      ids = h.ids;
      usernames = h.usernames;
      tokens = h.tokens;
      invite_tokens = rw (map-used_once_token token db.server_invites) h.invite_tokens;
      owners = h.owners;
      admins = h.admins;
      limits = used_once-All now token db.server_invites i h.invite_tokens found valid h.limits;
    })
