-- ===== src/Gsm/Reconcile.antt =====
-- The terminal lock follows the presence (packages/crab_city/src/ws/state_manager.rs).
use crabcity.Gsm.Locks.{LockMap, auto_grant, reconcile_from, reconcile_terminal_lock}
use crabcity.Gsm.Presence.{dedupe_from, dedupe_presence}
use crabcity.Gsm.State.{Connections, PresenceEntry, PresenceUser, TerminalLock}
use crabcity.Inference.Manager.{new}
use crabcity.Shared.{
  Bool, Bool-cases, List, Option, Text, [], arith, contains_text, false, inl, inr, insert, keys,
  lookup, lookup-insert_self, lookup-remove, none, refl, remove, some, true, values, ℕ, ◌∷◌, ◌≡◌,
  ◌≢◌,
}

-- What a reconciliation with the connections of the instance means: the lock that is left has its
-- holder present; a lock that was not there before is held by a connection that is present, for the
-- user who it is; and the answer is whether the locks changed.
abbrev pub Reconciled : Text → Connections → LockMap → LockMap × Bool → Type 0
Reconciled i connections old (new, changed) =
    ((lock : TerminalLock)
      → lookup i new ≡ some lock
      → contains_text lock.holder_connection_id (keys connections) ≡ true)
    × ((lock : TerminalLock)
        → lookup i old ≡ none
        → lookup i new ≡ some lock
        → lookup lock.holder_connection_id connections
          ≡ some
              (record { user_id = lock.holder_user_id; display_name = lock.holder_display_name }))
    × (changed ≡ false → new ≡ old)
    × (changed ≡ true → lookup i new ≢ lookup i old)

unchanged-Reconciled :
    (i : Text) (connections : Connections) (locks : LockMap)
    → lookup i locks ≡ none
    → Reconciled i connections locks (locks, false)
unchanged-Reconciled i connections locks e =
    (λ lock h. absurd (cc), λ lock h k. absurd (cc), λ _. refl, λ h. absurd (cc))

first_holder :
    (c : Text) (entry : PresenceEntry) (connections : Connections) (granted lock : TerminalLock)
    (held : Option TerminalLock)
    → granted.holder_connection_id ≡ c
    → granted.holder_user_id ≡ entry.user_id
    → granted.holder_display_name ≡ entry.display_name
    → held ≡ some granted
    → held ≡ some lock
    → lookup lock.holder_connection_id ((c, entry) ∷ connections)
      ≡ some (record { user_id = lock.holder_user_id; display_name = lock.holder_display_name })
unfolding lookup
first_holder c entry connections granted lock held x y z e k = ground arith

-- The first connection, and the users that the presence names beside its own.
grant-Reconciled :
    (now : ℕ) (i c : Text) (entry : PresenceEntry) (connections : Connections)
    (others : List PresenceUser) (locks : LockMap)
    → lookup i locks ≡ none
    → Reconciled i ((c, entry) ∷ connections) locks (
        auto_grant now i
          (c ∷ keys connections)
          ((record { user_id = entry.user_id; display_name = entry.display_name }) ∷ others)
          locks)
unfolding auto_grant
grant-Reconciled now i c entry connections (other ∷ others) locks e =
    unchanged-Reconciled i ((c, entry) ∷ connections) locks e
grant-Reconciled now i c entry connections [] locks e = (
  λ lock h. ground (arith, given, h),
  λ lock h k.
      first_holder c entry connections granted lock (lookup i (insert i granted locks)) refl refl
        refl given k,
  λ h. absurd (cc),
  λ _ same. ground (arith, given, same),
)
  where
    granted : TerminalLock
    granted = record {
      holder_connection_id = c;
      holder_user_id = entry.user_id;
      holder_display_name = entry.display_name;
      last_activity = now;
    }

    given : lookup i (insert i granted locks) ≡ some granted
    given = lookup-insert_self i granted locks

auto_grant-Reconciled :
    (now : ℕ) (i : Text) (connections : Connections) (locks : LockMap)
    → lookup i locks ≡ none
    → Reconciled i connections locks
        (auto_grant now i (keys connections) (dedupe_presence connections) locks)
unfolding auto_grant dedupe_presence
auto_grant-Reconciled now i [] locks e = unchanged-Reconciled i [] locks e
auto_grant-Reconciled now i ((c, entry) ∷ connections) locks e =
    grant-Reconciled now i c entry connections
      (dedupe_from (entry.user_id ∷ []) (values connections)) locks e

reconcile_from-Reconciled :
    (now : ℕ) (i : Text) (connections : Connections) (held : Option TerminalLock) (locks : LockMap)
    → lookup i locks ≡ held
    → Reconciled i connections locks (reconcile_from now i connections held locks)
unfolding reconcile_from
reconcile_from-Reconciled now i connections none locks e =
    auto_grant-Reconciled now i connections locks e
reconcile_from-Reconciled now i connections (some lock) locks e =
    elim (Bool-cases (contains_text lock.holder_connection_id (keys connections))) [
      | inl present ↦
          rw present (λ l h. ground (arith, h), λ l h k. absurd (cc), λ _. refl, λ h. absurd (cc))
      | inr gone ↦
          let removed : lookup i (remove i locks) ≡ none =
            ground (arith, lookup-remove i i locks) in
          rw gone
            (λ l h. absurd (cc), λ l h k. absurd (cc), λ h. absurd (cc), λ _ same. absurd (cc))
    ]

-- After a reconciliation a lock is held only by a connection that is present, and a lock where
-- there was none before belongs to that connection's user; if the answer is negative, then no lock
-- changed, and if it is positive, then the lock of the instance did.
pub reconcile-Reconciled :
    (now : ℕ) (i : Text) (connections : Connections) (locks : LockMap)
    → Reconciled i connections locks (reconcile_terminal_lock now i connections locks)
unfolding reconcile_terminal_lock
reconcile-Reconciled now i connections locks =
    reconcile_from-Reconciled now i connections (lookup i locks) locks refl
