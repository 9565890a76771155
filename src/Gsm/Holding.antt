-- ===== src/Gsm/Holding.antt =====
-- How long a terminal lock is held, and by whom (packages/crab_city/src/ws/state_manager.rs).
use crabcity.Gsm.Locks.{
  LockMap, acquire_from, auto_grant, lock_for, reconcile_terminal_lock, release_terminal_lock,
  touch_terminal_lock, try_acquire_terminal_lock,
}
use crabcity.Gsm.Presence.{dedupe_presence}
use crabcity.Gsm.State.{Connections, PresenceUser, TerminalLock, WsUser}
use crabcity.Shared.{
  All, List, Option, Text, [], arith, contains_text, inl, inr, keys, lookup, lookup-insert,
  lookup-remove, none, refl, some, text_dec, true, ℕ, ◌+◌, ◌<◌, ◌∙◌, ◌∷◌, ◌≡◌, ◌≢◌, ◌⊎◌,
}

-- The operations on the locks, each with the instance that it is about.
pub data LockStep : Type 0 where
  acquire_step : (connection_id : Text) (user : WsUser) → LockStep
  touch_step : (connection_id : Text) → LockStep
  release_step : (connection_id : Text) → LockStep
  reconcile_step : (connections : Connections) → LockStep

unfoldable pub lock_step : ℕ → Text → LockStep → LockMap → LockMap
lock_step now i (acquire_step c user) locks = (try_acquire_terminal_lock now i c user locks).0
lock_step now i (touch_step c) locks = touch_terminal_lock now i c locks
lock_step now i (release_step c) locks = (release_terminal_lock i c locks).0
lock_step now i (reconcile_step cs) locks = (reconcile_terminal_lock now i cs locks).0

unfoldable pub lock_steps : List (ℕ × Text × LockStep) → LockMap → LockMap
unfolding lock_step
lock_steps [] locks = locks
lock_steps ((now, i, s) ∷ rest) locks = lock_steps rest (lock_step now i s locks)

-- A step that is not the holder's own.
abbrev pub IsForeign : TerminalLock → LockStep → Type 0
IsForeign lock (acquire_step c user) = lock.holder_user_id ≢ user.user_id
IsForeign lock (touch_step c) = lock.holder_connection_id ≢ c
IsForeign lock (release_step c) = lock.holder_connection_id ≢ c
IsForeign lock (reconcile_step cs) = contains_text lock.holder_connection_id (keys cs) ≡ true

-- A step on another instance, or one that is not the holder's, within 120 seconds of its activity.
abbrev pub Spares : Text → TerminalLock → ℕ × Text × LockStep → Type 0
Spares i lock (now, j, s) = (j ≢ i) ⊎ (IsForeign lock s × (now < lock.last_activity + 120000000000))

acquire_other :
    (now : ℕ) (i j c : Text) (user : WsUser) (locks : LockMap) (held : Option TerminalLock)
    → j ≢ i
    → lookup i (acquire_from now j c user held locks).0 ≡ lookup i locks
unfolding acquire_from
acquire_other now i j c user locks none ne =
    ground (arith, lookup-insert j i (lock_for now c user) locks)
acquire_other now i j c user locks (some held) ne =
    ground (arith, lookup-insert j i (lock_for now c user) locks)

auto_grant_other :
    (now : ℕ) (i j : Text) (ids : List Text) (users : List PresenceUser) (locks : LockMap)
    → j ≢ i
    → lookup i (auto_grant now j ids users locks).0 ≡ lookup i locks
unfolding auto_grant
auto_grant_other now i j [] users locks ne = refl
auto_grant_other now i j (c ∷ ids) [] locks ne = refl
auto_grant_other now i j (c ∷ ids) (u ∷ []) locks ne = ground (
  arith,
  lookup-insert j i
      (record {
        holder_connection_id = c;
        holder_user_id = u.user_id;
        holder_display_name = u.display_name;
        last_activity = now;
      })
      locks,
)
auto_grant_other now i j (c ∷ ids) (u ∷ v ∷ us) locks ne = refl

lock_step_other :
    (now : ℕ) (i j : Text) (s : LockStep) (locks : LockMap) (held : Option TerminalLock)
    → j ≢ i
    → lookup j locks ≡ held
    → lookup i (lock_step now j s locks) ≡ lookup i locks
unfolding lock_step try_acquire_terminal_lock touch_terminal_lock release_terminal_lock
    reconcile_terminal_lock
lock_step_other now i j (acquire_step c user) locks held ne e =
    acquire_other now i j c user locks (lookup j locks) ne
lock_step_other now i j (touch_step c) locks none ne e = ground arith
lock_step_other now i j (touch_step c) locks (some l) ne e =
    ground (arith, lookup-insert j i (record l { last_activity = now }) locks)
lock_step_other now i j (release_step c) locks none ne e = ground arith
lock_step_other now i j (release_step c) locks (some l) ne e =
    ground (arith, lookup-remove j i locks)
lock_step_other now i j (reconcile_step cs) locks none ne e =
    ground (arith, auto_grant_other now i j (keys cs) (dedupe_presence cs) locks ne)
lock_step_other now i j (reconcile_step cs) locks (some l) ne e =
    ground (arith, lookup-remove j i locks)

lock_step_foreign :
    (now : ℕ) (i : Text) (lock : TerminalLock) (s : LockStep) (locks : LockMap)
    → lookup i locks ≡ some lock
    → IsForeign lock s
    → now < lock.last_activity + 120000000000
    → lookup i (lock_step now i s locks) ≡ some lock
unfolding lock_step try_acquire_terminal_lock touch_terminal_lock release_terminal_lock
    reconcile_terminal_lock acquire_from
lock_step_foreign now i lock (acquire_step c user) locks h f t = ground arith
lock_step_foreign now i lock (touch_step c) locks h f t = ground arith
lock_step_foreign now i lock (release_step c) locks h f t = ground arith
lock_step_foreign now i lock (reconcile_step cs) locks h f t = ground arith

-- A lock is safe from everybody else: through any operations on the locks of other instances, and
-- any by other users and connections within 120 seconds of the holder's last activity, as long as
-- reconciliations find the holder's connection present, the lock stays as it is.
pub lock_steps-keep :
    (i : Text) (lock : TerminalLock) (ss : List (ℕ × Text × LockStep)) (locks : LockMap)
    → lookup i locks ≡ some lock
    → All (Spares i lock) ss
    → lookup i (lock_steps ss locks) ≡ some lock
unfolding lock_steps
lock_steps-keep i lock [] locks h a = h
lock_steps-keep i lock ((now, j, s) ∷ ss) locks h (inl ne, a) =
    lock_steps-keep i lock ss (lock_step now j s locks)
      (lock_step_other now i j s locks (lookup j locks) ne refl ∙ h) a
lock_steps-keep i lock ((now, j, s) ∷ ss) locks h (inr (f, t), a) = elim (text_dec j i) [
  | yes same ↦
      lock_steps-keep i lock ss (lock_step now j s locks)
        (rw same (lock_step_foreign now i lock s locks h f t)) a
  | no ne ↦
      lock_steps-keep i lock ss (lock_step now j s locks)
        (lock_step_other now i j s locks (lookup j locks) ne refl ∙ h) a
]
