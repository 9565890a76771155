-- ===== src/Gsm/Instances.antt =====
-- The instances of packages/crab_city/src/ws/state_manager.rs: their registration, and what is
-- cleaned up behind them.
use crabcity.Gsm.Locks.{reconcile_terminal_lock}
use crabcity.Gsm.Presence.{connections_of}
use crabcity.Gsm.Sessions.{release_session}
use crabcity.Gsm.State.{GlobalStateManager}
use crabcity.Shared.{Bool, List, Option, Text, insert, lookup, map, none, remove, some, ℕ}

module _ {Handle : Type 0} where
  unfoldable pub register_instance :
      Text → Handle → Text → ℕ → Bool → GlobalStateManager Handle → GlobalStateManager Handle
  register_instance instance_id handle working_dir created_at is_claude gsm = record gsm {
    trackers =
        insert instance_id
          (record {
            handle = handle;
            working_dir = working_dir;
            created_at = created_at;
            is_claude = is_claude;
          })
          gsm.trackers;
  }

  -- The presence of connections on the instance is left as it is.
  unfoldable pub unregister_instance : Text → GlobalStateManager Handle → GlobalStateManager Handle
  unregister_instance instance_id gsm = record gsm {
    trackers = remove instance_id gsm.trackers;
    claimed_sessions = release_session instance_id gsm.claimed_sessions;
    first_input_at = remove instance_id gsm.first_input_at;
    pending_attributions = remove instance_id gsm.pending_attributions;
    terminal_locks = remove instance_id gsm.terminal_locks;
    state_entered_at = remove instance_id gsm.state_entered_at;
  }

  unfoldable pub get_handle : Text → GlobalStateManager Handle → Option Handle
  get_handle instance_id gsm = elim (lookup instance_id gsm.trackers) [
    | none ↦ none
    | some tracker ↦ some tracker.handle
  ]

  unfoldable pub all_handles : GlobalStateManager Handle → List (Text × Handle)
  all_handles gsm = map (λ e. (e.0, e.1.handle)) gsm.trackers

  unfoldable pub get_tracker_info :
      Text → GlobalStateManager Handle → Option (Handle × Text × ℕ × Bool)
  get_tracker_info instance_id gsm = elim (lookup instance_id gsm.trackers) [
    | none ↦ none
    | some t ↦ some (t.handle, t.working_dir, t.created_at, t.is_claude)
  ]

  unfoldable pub get_state_entered_at : Text → GlobalStateManager Handle → Option ℕ
  get_state_entered_at instance_id gsm = lookup instance_id gsm.state_entered_at

  unfoldable pub set_state_entered_at :
      Text → ℕ → GlobalStateManager Handle → GlobalStateManager Handle
  set_state_entered_at instance_id timestamp gsm = record gsm {
    state_entered_at = insert instance_id timestamp gsm.state_entered_at;
  }

  -- It reads the presence, drops that lock, and then works on the terminal locks.
  unfoldable pub reconcile_terminal_lock_with_presence :
      ℕ → Text → GlobalStateManager Handle → GlobalStateManager Handle × Bool
  reconcile_terminal_lock_with_presence now instance_id gsm =
      let (locks, changed) =
        reconcile_terminal_lock now instance_id (connections_of instance_id gsm.presence)
          gsm.terminal_locks in
      (record gsm { terminal_locks = locks }, changed)
