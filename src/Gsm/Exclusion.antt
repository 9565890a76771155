-- ===== src/Gsm/Exclusion.antt =====
-- The terminal lock excludes (packages/crab_city/src/ws/state_manager.rs).
use crabcity.Gsm.Locks.{
  LockMap, acquire_from, elapsed_seconds, lock_for, terminal_lock_timeout_secs,
  try_acquire_terminal_lock,
}
use crabcity.Gsm.State.{TerminalLock, WsUser}
use crabcity.Inference.Manager.{new}
use crabcity.Shared.{
  Bool, Bool-cases, Option, Text, arith, eq_text, false, inl, inr, lookup, lookup-insert_self, ltb,
  none, refl, some, true, ℕ, ◌+◌, ◌<◌, ◌≡◌, ◌≢◌, ◌≤◌, ◌⊎◌,
}

-- What an attempt to take the lock means. It succeeds, and the caller holds the lock from now on;
-- or another user holds it who was active within the last 120 seconds, and nothing changes.
abbrev pub Acquires : ℕ → Text → Text → WsUser → LockMap → LockMap × Bool → Type 0
Acquires now i connection user old (new, true) =
    (lookup i new ≡ some (lock_for now connection user))
    × ((lock : TerminalLock)
        → lookup i old ≡ some lock
        → (lock.holder_user_id ≡ user.user_id) ⊎ (lock.last_activity + 120000000000 ≤ now))
Acquires now i connection user old (new, false) =
    (lock : TerminalLock) × (lookup i old ≡ some lock)
    × (lock.holder_user_id ≢ user.user_id)
    × (now < lock.last_activity + 120000000000)
    × (new ≡ old)

acquire_from-Acquires :
    (now : ℕ) (i connection : Text) (user : WsUser) (held : Option TerminalLock) (locks : LockMap)
    → lookup i locks ≡ held
    → Acquires now i connection user locks (acquire_from now i connection user held locks)
unfolding acquire_from
acquire_from-Acquires now i connection user none locks e =
    (lookup-insert_self i _ locks, λ lock h. absurd (cc))
acquire_from-Acquires now i connection user (some lock) locks e =
    elim (Bool-cases (eq_text lock.holder_user_id user.user_id)) [
      | inl same ↦ rw same (lookup-insert_self i _ locks, λ l h. inl (ground arith))
      | inr differ ↦ elim (Bool-cases (ltb (elapsed_seconds now lock) terminal_lock_timeout_secs)) [
        | inl active ↦ rw (differ, active) (lock, e, ground arith, ground arith, refl)
        | inr expired ↦
            rw (differ, expired) (lookup-insert_self i _ locks, λ l h. inr (ground arith))
      ]
    ]

-- An attempt to take the terminal lock is refused exactly when another user holds it who was
-- active on it within the last 120 seconds; a grant makes the caller the holder from now on, and a
-- refusal changes nothing.
pub try_acquire-Acquires :
    (now : ℕ) (i connection : Text) (user : WsUser) (locks : LockMap)
    → Acquires now i connection user locks (try_acquire_terminal_lock now i connection user locks)
unfolding try_acquire_terminal_lock
try_acquire-Acquires now i connection user locks =
    acquire_from-Acquires now i connection user (lookup i locks) locks refl
