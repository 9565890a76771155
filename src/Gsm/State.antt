-- ===== src/Gsm/State.antt =====
-- The records of packages/crab_city/src/ws/state_manager.rs, and of packages/crab_city/src/ws/
-- protocol.rs the two that it uses. A `DateTime<Utc>` is its nanoseconds since the epoch. The handle
-- of an instance's actor is a parameter.
use crabcity.Attribution.Queue.{Queues}
use crabcity.Shared.{Bool, List, Text, [], ℕ}

pub record WsUser : Type 0 where
  pub user_id : Text
  pub display_name : Text

pub record PresenceUser : Type 0 where
  pub user_id : Text
  pub display_name : Text

pub record PresenceEntry : Type 0 where
  pub user_id : Text
  pub display_name : Text

pub record TerminalLock : Type 0 where
  pub holder_connection_id : Text
  pub holder_user_id : Text
  pub holder_display_name : Text
  pub last_activity : ℕ

pub record FirstInputData : Type 0 where
  pub timestamp : ℕ
  pub content_prefixes : List Text
  pub pending_line : Text

pub record InstanceTracker (Handle : Type 0) : Type 0 where
  pub handle : Handle
  pub working_dir : Text
  pub created_at : ℕ
  pub is_claude : Bool

-- The connections of one instance.
abbrev pub Connections : Type 0
Connections = List (Text × PresenceEntry)

pub record GlobalStateManager (Handle : Type 0) : Type 0 where
  pub trackers : List (Text × InstanceTracker Handle)
  pub claimed_sessions : List (Text × Text)
  pub first_input_at : List (Text × FirstInputData)
  pub presence : List (Text × Connections)
  pub pending_attributions : Queues
  pub terminal_locks : List (Text × TerminalLock)
  pub state_entered_at : List (Text × ℕ)

unfoldable pub new_gsm : {Handle : Type 0} → GlobalStateManager Handle
new_gsm = record {
  trackers = [];
  claimed_sessions = [];
  first_input_at = [];
  presence = [];
  pending_attributions = [];
  terminal_locks = [];
  state_entered_at = [];
}
