-- ===== src/Gsm/Examples.antt =====
-- The theorems on the state manager that the connections share, at concrete states
-- (packages/crab_city/src/ws/state_manager.rs).
use crabcity.Inference.State
use crabcity.Attribution.Content.{normalize_attribution_content}
use crabcity.Attribution.Queue.{consume_pending_attribution, queue_of, typed}
use crabcity.Gsm.Attention.{IsAttended, new_watch, observe_all, observe_new-IsAttended}
use crabcity.Gsm.Claims.{ClaimStep, claim-exclusive, claim_steps, claims, releases, rotates}
use crabcity.Gsm.Cleanup.{IsForgotten, SameFor, unregister_cleans}
use crabcity.Gsm.Delivery.{handle_input-SameFor, handle_input-consume}
use crabcity.Gsm.Discovery.{AreStored, accumulate-type_line, mark_first_input-AreStored, type_line}
use crabcity.Gsm.Exclusion.{Acquires, try_acquire-Acquires}
use crabcity.Gsm.FirstInput.{accumulate, fresh_data, mark_first_input}
use crabcity.Gsm.Holding.{LockStep, acquire_step, lock_steps, lock_steps-keep}
use crabcity.Gsm.Input.{InputContext, handle_input}
use crabcity.Gsm.Instances.{get_handle, unregister_instance}
use crabcity.Gsm.Locks.{LockMap, lock_for, reconcile_terminal_lock, try_acquire_terminal_lock}
use crabcity.Gsm.Presence.{PresenceMap}
use crabcity.Gsm.Reconcile.{Reconciled, reconcile-Reconciled}
use crabcity.Gsm.Sessions.{Claims, claim_from, try_claim_session}
use crabcity.Gsm.State.{Connections, GlobalStateManager, TerminalLock, WsUser, new_gsm}
use crabcity.Inference.State.{ClaudeState, thinking}
use crabcity.Shared.{
  List, Option, Text, [], arith, codes, false, inl, inr, is_whitespace, lookup, none, refl, some,
  text_dec, trim, true, ℕ, ◌++◌, ◌∷◌, ◌≡◌, ◌≢◌,
}

abbrev here : Text
here = codes "a"

abbrev there : Text
there = codes "b"

abbrev session_claims : Claims
session_claims = (codes "s", here) ∷ []

abbrev rivals : List ClaimStep
rivals =
    releases (codes "c") ∷ rotates (codes "t") (codes "c") ∷ claims (codes "s") (codes "c") ∷ []

claim-exclusive_example :
    (try_claim_session
      (codes "s")
      there
      (claim_steps rivals (try_claim_session (codes "s") here []).0)).1
    ≡ false
unfolding try_claim_session claim_from lookup
claim-exclusive_example =
    claim-exclusive (codes "s") here there rivals [] refl (λ e. ground arith)
      ((λ e. ground arith), (inl (λ e. ground arith), (tt, tt)))

abbrev ann : WsUser
ann = record { user_id = codes "u"; display_name = codes "Ann" }

abbrev bob : WsUser
bob = record { user_id = codes "v"; display_name = codes "Bob" }

abbrev ann_lock : TerminalLock
ann_lock = lock_for 0 (codes "k") ann

abbrev held : LockMap
held = (here, ann_lock) ∷ []

try_acquire-Acquires_example :
    Acquires 120000000000 here
      (codes "l")
      bob
      held
      (try_acquire_terminal_lock 120000000000 here (codes "l") bob held)
try_acquire-Acquires_example = try_acquire-Acquires 120000000000 here (codes "l") bob held

-- Another user asks for the lock, and takes that of another instance.
abbrev intrusions : List (ℕ × Text × LockStep)
intrusions =
    (119000000000, here, acquire_step (codes "l") bob)
    ∷ (500000000000, there, acquire_step (codes "l") bob)
    ∷ []

lock_steps-keep_example : lookup here (lock_steps intrusions held) ≡ some ann_lock
unfolding lookup text_dec
lock_steps-keep_example =
    lock_steps-keep here ann_lock intrusions held refl
      (inr ((λ e. ground arith), omega arith), (inl (λ e. ground arith), tt))

abbrev alone : Connections
alone = (codes "l", record { user_id = codes "v"; display_name = codes "Bob" }) ∷ []

reconcile-Reconciled_example :
    Reconciled here alone held (reconcile_terminal_lock 5 here alone held)
reconcile-Reconciled_example = reconcile-Reconciled 5 here alone held

abbrev two_tabs : Connections
two_tabs =
    (codes "k", record { user_id = codes "u"; display_name = codes "Ann" })
    ∷ (codes "m", record { user_id = codes "u"; display_name = codes "Ann" })
    ∷ []

abbrev both : PresenceMap
both = (here, two_tabs) ∷ (there, alone) ∷ []

mark_first_input-AreStored_example : AreStored (mark_first_input 1 here (codes "hi\r") []).0
unfolding lookup
mark_first_input-AreStored_example =
    mark_first_input-AreStored 1 here (codes "hi\r") [] (λ i d h. absurd (cc))

accumulate-type_line_example :
    accumulate (13 ∷ []) (type_line (codes "hi") (fresh_data 1))
    ≡ accumulate (codes "hi" ++ 13 ∷ []) (fresh_data 1)
accumulate-type_line_example = accumulate-type_line (codes "hi") (fresh_data 1) (refl, (refl, tt))

-- An instance with a handle, a session and a lock; the handle is a number.
abbrev populated : GlobalStateManager ℕ
populated = record new_gsm {
  trackers =
      (here, record { handle = 7; working_dir = codes "/src"; created_at = 0; is_claude = true })
      ∷ [];
  claimed_sessions = session_claims;
  terminal_locks = held;
}

unregister_cleans_example :
    IsForgotten here (unregister_instance here populated)
    × ((j : Text) → here ≢ j → SameFor j populated (unregister_instance here populated))
unregister_cleans_example = unregister_cleans here populated

-- An actor without a session, that accepts what is written.
abbrev no_session_yet : ℕ → Option Text
no_session_yet handle = none

abbrev accepts : ℕ → Text → Option Text
accepts handle input = none

abbrev by_ann : InputContext
by_ann = record {
  instance_id = here;
  input = codes "hello\r";
  connection_id = codes "k";
  user = some (record { user_id = codes "u"; display_name = codes "Ann" });
  task_id = none;
}

handle_input-SameFor_example :
    SameFor there populated (handle_input no_session_yet accepts 1 true by_ann populated).0
handle_input-SameFor_example =
    handle_input-SameFor no_session_yet accepts 1 true by_ann there populated (λ e. ground arith)

abbrev anonymous : InputContext
anonymous = record by_ann { user = none }

handle_input-consume_example :
    let after = (handle_input no_session_yet accepts 1 true by_ann populated).0 in
    let (queues, found) =
      consume_pending_attribution 2 here (trim by_ann.input) after.pending_attributions in
    (found ≡ some (typed 1 (codes "u") (codes "Ann") (trim by_ann.input) none))
    × (queue_of here queues ≡ queue_of here populated.pending_attributions)
unfolding get_handle lookup text_dec normalize_attribution_content trim is_whitespace queue_of
    new_gsm
handle_input-consume_example =
    handle_input-consume no_session_yet accepts 1 2 true by_ann
      (record { user_id = codes "u"; display_name = codes "Ann" }) 7 populated refl refl refl
      (omega arith) tt

abbrev quoted : Text → Text
quoted s = 34 ∷ s ++ 34 ∷ []

abbrev sightings : List (ℕ × Text × ClaudeState)
sightings =
    (1000000000, here, thinking)
    ∷ (2000000000, here, State.waiting_for_input none)
    ∷ (3000000000, there, thinking)
    ∷ (4000000000, there, State.idle)
    ∷ []

observe_new-IsAttended_example : IsAttended (observe_all quoted sightings new_watch)
observe_new-IsAttended_example = observe_new-IsAttended quoted sightings
