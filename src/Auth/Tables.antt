-- ===== src/Auth/Tables.antt =====
-- The queries of packages/crab_city/src/repository/auth.rs and
-- packages/crab_city/src/repository/settings.rs that authentication makes, over the tables of
-- packages/crab_city/src/db.rs. A query may fail for reasons of the database; which do is an argument.
use crabcity.Auth.Types.{Db, ServerInvite, Session, User}
use crabcity.Shared.{
  Bool, List, Option, Text, [], any, eq_text, if◌then◌else◌, insert, leb, length, lookup, ltb, map,
  none, not, retain, some, ℕ, ◌&&◌, ◌++◌, ◌+◌, ◌||◌, ◌∷◌,
}

pub data Outcome {ℓ} (A : Type ℓ) : Type ℓ where
  answered : (result : A) → Outcome A
  query_failed : Outcome A
  -- A constraint UNIQUE or PRIMARY KEY is violated.
  not_unique : Outcome A

pub data Query : Type 0 where
  user_count_query create_user_query user_by_username_query update_password_query : Query
  create_session_query session_query delete_session_query delete_sessions_query : Query
  server_invite_query use_invite_query setting_query touch_query : Query

-- Which queries of a request fail.
abbrev pub Faults : Type 0
Faults = Query → Bool

abbrev pub unless_failed {ℓ} : {A : Type ℓ} → Bool → Outcome A → Outcome A
unless_failed b o = if b then query_failed else o

unfoldable pub find_user_by : (User → Bool) → List User → Option User
find_user_by p [] = none
find_user_by p (u ∷ users) = let rest = find_user_by p users in if p u then some u else rest

unfoldable pub find_session_by : Text → List Session → Option Session
find_session_by token [] = none
find_session_by token (s ∷ sessions) =
    let rest = find_session_by token sessions in if eq_text s.token token then some s else rest

unfoldable pub find_invite_by : Text → List ServerInvite → Option ServerInvite
find_invite_by token [] = none
find_invite_by token (i ∷ invites) =
    let rest = find_invite_by token invites in if eq_text i.token token then some i else rest

abbrev pub has_id : Text → User → Bool
has_id id u = eq_text u.id id

abbrev pub has_username : Text → User → Bool
has_username username u = eq_text u.username username

unfoldable pub user_count : Faults → Db → Outcome ℕ
user_count fails db = unless_failed (fails user_count_query) (answered (length db.users))

unfoldable pub get_user_by_username : Faults → Text → Db → Outcome (Option User)
unfolding find_user_by
get_user_by_username fails username db =
    unless_failed (fails user_by_username_query)
      (answered (find_user_by (has_username username) db.users))

unfoldable pub create_user : Faults → User → Db → Outcome Db
create_user fails user db = unless_failed (fails create_user_query) (
    if any (has_id user.id) db.users || any (has_username user.username) db.users
    then not_unique
    else answered (record db { users = db.users ++ user ∷ [] }))

abbrev pub set_password : ℕ → Text → Text → User → User
set_password now user_id password_hash u =
    if eq_text u.id user_id then record u { password_hash = password_hash; updated_at = now } else u

unfoldable pub update_user_password : Faults → ℕ → Text → Text → Db → Outcome Db
update_user_password fails now user_id password_hash db =
    unless_failed (fails update_password_query)
      (answered (record db { users = map (set_password now user_id password_hash) db.users }))

-- The user of a session must be in the table of users.
unfoldable pub create_session : Faults → Session → Db → Outcome Db
create_session fails session db = unless_failed (fails create_session_query) (
    if any (λ s. eq_text s.token session.token) db.sessions
    then not_unique
    else if any (has_id session.user_id) db.users
    then answered (record db { sessions = db.sessions ++ session ∷ [] })
    else query_failed)

-- The join with the user, and the conditions on both.
abbrev pub live_session : ℕ → Session → Option User → Option (Session × User)
live_session now session none = none
live_session now session (some user) =
    if ltb now session.expires_at && not user.is_disabled then some (session, user) else none

abbrev pub joined : ℕ → List User → Option Session → Option (Session × User)
joined now users none = none
joined now users (some session) =
    live_session now session (find_user_by (has_id session.user_id) users)

unfoldable pub get_session_with_user : Faults → ℕ → Text → Db → Outcome (Option (Session × User))
unfolding find_user_by find_session_by
get_session_with_user fails now token db =
    unless_failed (fails session_query)
      (answered (joined now db.users (find_session_by token db.sessions)))

unfoldable pub delete_session : Faults → Text → Db → Outcome Db
delete_session fails token db =
    unless_failed (fails delete_session_query)
      (answered (record db { sessions = retain (λ s. not (eq_text s.token token)) db.sessions }))

abbrev pub is_kept : Text → Option Text → Session → Bool
is_kept user_id none s = not (eq_text s.user_id user_id)
is_kept user_id (some keep) s = not (eq_text s.user_id user_id && not (eq_text s.token keep))

unfoldable pub delete_user_sessions : Faults → Text → Option Text → Db → Outcome Db
delete_user_sessions fails user_id except_token db =
    unless_failed (fails delete_sessions_query)
      (answered (record db { sessions = retain (is_kept user_id except_token) db.sessions }))

unfoldable pub cleanup_expired_sessions : ℕ → Db → Db
cleanup_expired_sessions now db = record db {
  sessions = retain (λ s. not (leb s.expires_at now)) db.sessions;
}

abbrev pub touch : ℕ → Text → Session → Session
touch now token s = if eq_text s.token token then record s { last_active_at = now } else s

unfoldable pub touch_session : Faults → ℕ → Text → Db → Outcome Db
touch_session fails now token db =
    unless_failed (fails touch_query)
      (answered (record db { sessions = map (touch now token) db.sessions }))

unfoldable pub get_server_invite : Faults → Text → Db → Outcome (Option ServerInvite)
unfolding find_invite_by
get_server_invite fails token db =
    unless_failed (fails server_invite_query) (answered (find_invite_by token db.server_invites))

abbrev pub used_once : Text → ServerInvite → ServerInvite
used_once token i = if eq_text i.token token then record i { use_count = i.use_count + 1 } else i

unfoldable pub use_server_invite : Faults → Text → Text → Db → Outcome Db
use_server_invite fails token user_id db = unless_failed (fails use_invite_query) (
    answered (record db {
      server_invites = map (used_once token) db.server_invites;
      invited =
          if any (has_id user_id) db.users then insert user_id token db.invited else db.invited;
    }))

unfoldable pub get_setting : Faults → Text → Db → Outcome (Option Text)
get_setting fails key db =
    unless_failed (fails setting_query) (answered (lookup key db.server_settings))
