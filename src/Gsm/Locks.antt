-- ===== src/Gsm/Locks.antt =====
-- Terminal locks (packages/crab_city/src/ws/state_manager.rs): who may type into an instance.
use crabcity.Gsm.Presence.{dedupe_presence}
use crabcity.Gsm.State.{Connections, PresenceUser, TerminalLock, WsUser}
use crabcity.Shared.{
  Bool, List, Option, Text, [], contains_text, eq_text, false, if◌then◌else◌, insert, keys, lookup,
  ltb, none, remove, some, true, ℕ, ◌-◌, ◌/◌, ◌∷◌,
}

abbrev pub LockMap : Type 0
LockMap = List (Text × TerminalLock)

abbrev pub terminal_lock_timeout_secs : ℕ
terminal_lock_timeout_secs = 120

abbrev pub lock_for : ℕ → Text → WsUser → TerminalLock
lock_for now connection_id user = record {
  holder_connection_id = connection_id;
  holder_user_id = user.user_id;
  holder_display_name = user.display_name;
  last_activity = now;
}

-- `(now - last_activity).num_seconds()`. A clock that ran backwards gives a negative number there
-- and 0 here, which both are below the timeout.
abbrev pub elapsed_seconds : ℕ → TerminalLock → ℕ
elapsed_seconds now lock = (now - lock.last_activity) / 1000000000

unfoldable pub acquire_from :
    ℕ → Text → Text → WsUser → Option TerminalLock → LockMap → LockMap × Bool
acquire_from now instance_id connection_id user none locks =
    (insert instance_id (lock_for now connection_id user) locks, true)
acquire_from now instance_id connection_id user (some existing) locks =
    if eq_text existing.holder_user_id user.user_id
    then (insert instance_id (lock_for now connection_id user) locks, true)
    else if ltb (elapsed_seconds now existing) terminal_lock_timeout_secs
    then (locks, false)
    else (insert instance_id (lock_for now connection_id user) locks, true)

unfoldable pub try_acquire_terminal_lock : ℕ → Text → Text → WsUser → LockMap → LockMap × Bool
unfolding acquire_from
try_acquire_terminal_lock now instance_id connection_id user locks =
    acquire_from now instance_id connection_id user (lookup instance_id locks) locks

unfoldable pub touch_terminal_lock : ℕ → Text → Text → LockMap → LockMap
touch_terminal_lock now instance_id connection_id locks = elim (lookup instance_id locks) [
  | none ↦ locks
  | some lock ↦
      if eq_text lock.holder_connection_id connection_id
      then insert instance_id (record lock { last_activity = now }) locks
      else locks
]

unfoldable pub release_terminal_lock : Text → Text → LockMap → LockMap × Bool
release_terminal_lock instance_id connection_id locks = elim (lookup instance_id locks) [
  | none ↦ (locks, false)
  | some lock ↦
      if eq_text lock.holder_connection_id connection_id
      then (remove instance_id locks, true)
      else (locks, false)
]

unfoldable pub get_terminal_lock : Text → LockMap → Option TerminalLock
get_terminal_lock instance_id locks = lookup instance_id locks

-- The automatic grant to the sole user present, if nobody holds the lock.
unfoldable pub auto_grant : ℕ → Text → List Text → List PresenceUser → LockMap → LockMap × Bool
auto_grant now instance_id (conn_id ∷ ids) (sole_user ∷ []) locks = (
  insert instance_id
      (record {
        holder_connection_id = conn_id;
        holder_user_id = sole_user.user_id;
        holder_display_name = sole_user.display_name;
        last_activity = now;
      })
      locks,
  true,
)
auto_grant now instance_id _ _ locks = (locks, false)

-- The reconciliation, given the lock that the map has.
unfoldable pub reconcile_from :
    ℕ → Text → Connections → Option TerminalLock → LockMap → LockMap × Bool
unfolding auto_grant
reconcile_from now instance_id connections (some lock) locks =
    if contains_text lock.holder_connection_id (keys connections)
    then (locks, false)
    else (remove instance_id locks, true)
reconcile_from now instance_id connections none locks =
    auto_grant now instance_id (keys connections) (dedupe_presence connections) locks

unfoldable pub reconcile_terminal_lock : ℕ → Text → Connections → LockMap → LockMap × Bool
unfolding reconcile_from
reconcile_terminal_lock now instance_id connections locks =
    reconcile_from now instance_id connections (lookup instance_id locks) locks
