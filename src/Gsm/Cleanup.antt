-- ===== src/Gsm/Cleanup.antt =====
-- What an unregistered instance leaves behind (packages/crab_city/src/ws/state_manager.rs).
use crabcity.Gsm.Claims.{release_session-owners}
use crabcity.Gsm.FirstInput.{get_first_input_at}
use crabcity.Gsm.Instances.{get_handle, get_state_entered_at, unregister_instance}
use crabcity.Gsm.Locks.{get_terminal_lock}
use crabcity.Gsm.State.{GlobalStateManager}
use crabcity.Shared.{List, Text, arith, lookup, lookup-remove, none, refl, remove, some, ◌≡◌, ◌≢◌}

removed {ℓ} : {V : Type ℓ} (i : Text) (m : List (Text × V)) → lookup i (remove i m) ≡ none
removed i m = ground (arith, lookup-remove i i m)

kept {ℓ} :
    {V : Type ℓ} (i j : Text) (m : List (Text × V)) → i ≢ j → lookup j (remove i m) ≡ lookup j m
kept i j m ne = ground (arith, lookup-remove i j m)

module _ {Handle : Type 0} where
  -- Nothing that the state manager keeps for an instance, but its presence.
  pub record IsForgotten (i : Text) (gsm : GlobalStateManager Handle) : Type 0 where
    pub no_handle : get_handle i gsm ≡ none
    pub no_session : (s : Text) → lookup s gsm.claimed_sessions ≢ some i
    pub no_input : get_first_input_at i gsm.first_input_at ≡ none
    pub no_queue : lookup i gsm.pending_attributions ≡ none
    pub no_lock : get_terminal_lock i gsm.terminal_locks ≡ none
    pub no_entry : get_state_entered_at i gsm ≡ none

  -- An instance has the same records in two states of the manager.
  pub record SameFor (j : Text) (old new : GlobalStateManager Handle) : Type 0 where
    pub tracker : lookup j new.trackers ≡ lookup j old.trackers
    pub session :
        (s : Text) → lookup s old.claimed_sessions ≡ some j → lookup s new.claimed_sessions ≡ some j
    pub input : lookup j new.first_input_at ≡ lookup j old.first_input_at
    pub queue : lookup j new.pending_attributions ≡ lookup j old.pending_attributions
    pub lock : lookup j new.terminal_locks ≡ lookup j old.terminal_locks
    pub entered : lookup j new.state_entered_at ≡ lookup j old.state_entered_at
    pub present : lookup j new.presence ≡ lookup j old.presence

  -- An instance that is unregistered is forgotten, sessions that it had claimed included.
  unregister-IsForgotten :
      (i : Text) (gsm : GlobalStateManager Handle) → IsForgotten i (unregister_instance i gsm)
  unfolding unregister_instance get_handle get_first_input_at get_terminal_lock get_state_entered_at
  unregister-IsForgotten i gsm = record {
    no_handle = ground (arith, removed i gsm.trackers);
    no_session = λ s. (release_session-owners i s gsm.claimed_sessions).0;
    no_input = ground (arith, removed i gsm.first_input_at);
    no_queue = removed i gsm.pending_attributions;
    no_lock = removed i gsm.terminal_locks;
    no_entry = removed i gsm.state_entered_at;
  }

  -- The records of every other instance are the same after it.
  unregister-SameFor :
      (i j : Text) (gsm : GlobalStateManager Handle)
      → i ≢ j
      → SameFor j gsm (unregister_instance i gsm)
  unfolding unregister_instance
  unregister-SameFor i j gsm ne = record {
    tracker = kept i j gsm.trackers ne;
    session = λ s h. (release_session-owners i s gsm.claimed_sessions).1 j ne h;
    input = kept i j gsm.first_input_at ne;
    queue = kept i j gsm.pending_attributions ne;
    lock = kept i j gsm.terminal_locks ne;
    entered = kept i j gsm.state_entered_at ne;
    present = refl;
  }

  -- Unregistering an instance forgets all that the state manager keeps for it, its claims of
  -- sessions included and its presence excepted; every other instance keeps its registration, its
  -- sessions, its first input, its pending attributions, its lock, its time of entry and its
  -- presence.
  pub unregister_cleans :
      (i : Text) (gsm : GlobalStateManager Handle)
      → IsForgotten i (unregister_instance i gsm)
        × ((j : Text) → i ≢ j → SameFor j gsm (unregister_instance i gsm))
  unregister_cleans i gsm = (unregister-IsForgotten i gsm, λ j. unregister-SameFor i j gsm)
