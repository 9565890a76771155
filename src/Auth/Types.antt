-- ===== src/Auth/Types.antt =====
-- The records of packages/crab_city/src/models.rs and packages/crab_city/src/auth.rs that
-- authentication works on, and the tables that hold them.
use crabcity.Shared.{Bool, List, Option, Text, false, leb, ltb, none, not, some, ℕ, ◌&&◌}

pub record User : Type 0 where
  pub id : Text
  pub username : Text
  pub display_name : Text
  pub password_hash : Text
  pub is_admin : Bool
  pub is_disabled : Bool
  pub created_at : ℕ
  pub updated_at : ℕ

pub record UserInfo : Type 0 where
  pub id : Text
  pub username : Text
  pub display_name : Text
  pub is_admin : Bool

abbrev pub info_from : User → UserInfo
info_from u = record {
  id = u.id;
  username = u.username;
  display_name = u.display_name;
  is_admin = u.is_admin;
}

pub record Session : Type 0 where
  pub token : Text
  pub user_id : Text
  pub csrf_token : Text
  pub expires_at : ℕ
  pub last_active_at : ℕ
  pub user_agent : Option Text
  pub ip_address : Option Text

pub record ServerInvite : Type 0 where
  pub token : Text
  pub created_by : Text
  pub label : Option Text
  pub max_uses : Option ℕ
  pub use_count : ℕ
  pub expires_at : Option ℕ
  pub revoked : Bool
  pub created_at : ℕ

abbrev pub invite_is_expired : ℕ → ServerInvite → Bool
invite_is_expired now i = elim i.expires_at [ none ↦ false | some expires ↦ ltb expires now ]

abbrev pub invite_is_used_up : ServerInvite → Bool
invite_is_used_up i = elim i.max_uses [ none ↦ false | some most ↦ leb most i.use_count ]

unfoldable pub invite_is_valid : ℕ → ServerInvite → Bool
invite_is_valid now i =
    not i.revoked && (not (invite_is_expired now i) && not (invite_is_used_up i))

pub record AuthUser : Type 0 where
  pub user_id : Text
  pub display_name : Text
  pub is_admin : Bool
  pub session_token : Text
  pub csrf_token : Text

pub record AuthConfig : Type 0 where
  pub enabled : Bool
  pub https : Bool
  pub session_ttl_secs : ℕ
  pub allow_registration : Bool

-- The tables, in the order of insertion. `invited` is the column `server_invite_token` of the users.
pub record Db : Type 0 where
  pub users : List User
  pub sessions : List Session
  pub server_invites : List ServerInvite
  pub server_settings : List (Text × Text)
  pub invited : List (Text × Text)
