-- ===== src/Actor/Turns.antt =====
-- What a watcher sees of an actor's broadcasts (packages/crab_city/src/instance_actor.rs with
-- packages/crab_city/src/ws/state_manager.rs).
use crabcity.Inference.State
use crabcity.Driver.Process
use crabcity.Actor.Instance.{
  ActorEvent, InstanceActor, actor_step, apply_effect, broadcast_change, broadcast_state,
  client_activated, client_removed, driver_signal, process_pty_output, pty_output, set_custom_name,
  set_session_id, stop, take_session, tick_interval, viewport_updated, write_input,
}
use crabcity.Driver.Claude.{
  ClaudeDriver, apply_state_change, infer, map_state, on_input, on_output, on_signal, on_tick,
}
use crabcity.Driver.Process.{DriverSignal, ProcessState}
use crabcity.Driver.Sync.{IsSynced, infer-IsSynced}
use crabcity.Inference.Manager.{
  StateManager, is_turn_duration, on_conversation_entry, on_terminal_output, process,
}
use crabcity.Inference.State.{ClaudeState, StateSignal, is_active, is_idle}
use crabcity.Shared.{
  Bool, Bool-cases, List, Option, Text, [], ap, arith, false, inl, inr, none, refl, some, sym, true,
  ℕ, ◌∙◌, ◌∷◌, ◌≡◌,
}
use crabcity.Terminal.Emulator.{Vt100}

-- No single signal takes the manager from work to idle.
process-is_idle :
    (now : ℕ) (m : StateManager) (s : StateSignal)
    → is_active m.state ≡ true
    → is_idle (process now m s).0.state ≡ false
unfolding process on_terminal_output on_conversation_entry is_active
process-is_idle now m (State.terminal_input input) h = ground arith
process-is_idle now m (State.terminal_output output) h = ground arith
process-is_idle now m State.tick h = ground arith
process-is_idle now m (State.conversation_entry entry_type subtype stop_reason tool_names) h =
    elim (Bool-cases (is_turn_duration entry_type subtype)) [
      | inl done ↦ rw done refl
      | inr other ↦ rw other (ground arith)
    ]

abbrev is_working : ProcessState → Bool
is_working (Process.working tool) = true
is_working _ = false

is_working-map_state : (s : ClaudeState) → is_working (map_state s) ≡ is_active s
unfolding map_state is_active
is_working-map_state State.initializing = refl
is_working-map_state State.starting = refl
is_working-map_state State.idle = refl
is_working-map_state State.thinking = refl
is_working-map_state State.responding = refl
is_working-map_state (State.tool_executing tool) = refl
is_working-map_state (State.waiting_for_input prompt) = refl

pub same_work : (p q : ClaudeState) → map_state p ≡ map_state q → is_active p ≡ is_active q
same_work p q e = sym (is_working-map_state p) ∙ (ap is_working e ∙ is_working-map_state q)

-- What one call of the driver does: the states stay in step, and without an answer the process state
-- is as it was; and work does not become idle.
abbrev Steps :
    {Json : Type 0} → ClaudeDriver Json → ClaudeDriver Json × Option ProcessState → Type 0
Steps d (e, change) =
    IsSynced e
    × (change ≡ none → e.current_state ≡ d.current_state)
    × (is_active d.current_claude_state ≡ true → is_idle e.current_claude_state ≡ false)

active_is_idle : (s : ClaudeState) → is_active s ≡ true → is_idle s ≡ false
unfolding is_active
active_is_idle s h = ground arith

module _ {Json : Type 0} where
  apply_quiet :
      (d : ClaudeDriver Json) (result : Option ClaudeState)
      → (apply_state_change d result).1 ≡ none
      → (apply_state_change d result).0.current_state ≡ d.current_state
  unfolding apply_state_change
  apply_quiet d result h = ground arith

  apply_manager :
      (d : ClaudeDriver Json) (result : Option ClaudeState)
      → (apply_state_change d result).0.state_manager ≡ d.state_manager
  unfolding apply_state_change
  apply_manager d result = ground arith

  infer-Steps :
      (now : ℕ) (d : ClaudeDriver Json) (s : StateSignal) → IsSynced d → Steps d (infer now d s)
  unfolding infer
  infer-Steps now d s v =
      let m = (process now d.state_manager s).0 in
      let result = (process now d.state_manager s).1 in
      let kept = apply_manager (record d { state_manager = m }) result in
      let synced = infer-IsSynced now d s v in
      (
        synced,
        apply_quiet (record d { state_manager = m }) result,
        λ h.
            ap is_idle (synced.0 ∙ ap (λ (n : StateManager). n.state) kept)
            ∙ process-is_idle now d.state_manager s (ap is_active (sym v.0) ∙ h),
      )

  signal-Steps :
      (now : ℕ) (d : ClaudeDriver Json) (s : DriverSignal Json)
      → IsSynced d
      → Steps d ((on_signal now d s).0, (on_signal now d s).1.state_change)
  unfolding on_signal
  signal-Steps now d (Process.conversation_entry e s r t) v = infer-Steps now d _ v
  signal-Steps now d (Process.session_discovered session_id) v =
      (v, λ h. refl, active_is_idle d.current_claude_state)
  signal-Steps now d (Process.conversation_snapshot turns) v =
      (v, λ h. refl, active_is_idle d.current_claude_state)
  signal-Steps now d (Process.conversation_delta turns) v =
      (v, λ h. refl, active_is_idle d.current_claude_state)

module _ {Json : Type 0} (v : Vt100) where
  -- What a step of the actor broadcasts: nothing, if the process state is as before, or the state
  -- that the driver now has.
  abbrev pub Told : ClaudeDriver Json → ClaudeDriver Json → List ClaudeState → Type 0
  Told d e [] = e.current_state ≡ d.current_state
  Told d e (s ∷ []) =
      (s ≡ e.current_claude_state) × (is_active d.current_claude_state ≡ true → is_idle s ≡ false)
  Told d e (s ∷ t ∷ more) = ⊥

  abbrev pub Tells : InstanceActor Json v → InstanceActor Json v × List ClaudeState → Type 0
  Tells a (b, sent) = IsSynced b.driver × Told a.driver b.driver sent

  broadcast-Tells :
      (a b : InstanceActor Json v) (change : Option ProcessState)
      → Steps a.driver (b.driver, change)
      → Tells a (broadcast_change v change b)
  unfolding broadcast_change broadcast_state
  broadcast-Tells a b none h = (h.0, h.1 refl)
  broadcast-Tells a b (some state) h = (h.0, (refl, h.2))

  Tells-take_session :
      (a b : InstanceActor Json v) (session : Option Text) (sent : List ClaudeState)
      → Tells a (b, sent)
      → Tells a (take_session v session b, sent)
  unfolding take_session
  Tells-take_session a b none sent h = h
  Tells-take_session a b (some session) sent h = h

  pub actor_step-Tells :
      (decode : List ℕ → Text) (now : ℕ) (e : ActorEvent Json) (a : InstanceActor Json v)
      → IsSynced a.driver
      → Tells a (actor_step v decode now e a)
  unfolding actor_step process_pty_output apply_effect on_output on_input on_tick
  actor_step-Tells decode now (write_input line) a s =
      broadcast-Tells a _ _ (infer-Steps now a.driver _ s)
  actor_step-Tells decode now (set_session_id session) a s = (s, refl)
  actor_step-Tells decode now (set_custom_name custom) a s = (s, refl)
  actor_step-Tells decode now stop a s = (s, refl)
  actor_step-Tells decode now (pty_output bytes) a s =
      broadcast-Tells a _ _ (infer-Steps now a.driver _ s)
  actor_step-Tells decode now (driver_signal g) a s =
      Tells-take_session a _ _ _ (broadcast-Tells a _ _ (signal-Steps now a.driver g s))
  actor_step-Tells decode now tick_interval a s =
      broadcast-Tells a _ _ (infer-Steps now a.driver _ s)
  actor_step-Tells decode now (viewport_updated c rows cols k) a s = (s, refl)
  actor_step-Tells decode now (client_activated c active) a s = (s, refl)
  actor_step-Tells decode now (client_removed c) a s = (s, refl)
