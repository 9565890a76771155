-- ===== src/Driver/Sync.antt =====
-- The driver never drifts from the state manager that it wraps, nor its event stream from the
-- conversation that it holds (packages/crab_city/src/claude_driver.rs).
use crabcity.Driver.Process
use crabcity.Inference.Manager
use crabcity.Driver.Claude.{
  ClaudeDriver, apply_state_change, infer, map_state, new_driver, on_input, on_output, on_signal,
  on_tick, start,
}
use crabcity.Driver.Process.{ConversationEvent, DriverSignal, full, update}
use crabcity.Inference.Manager.{StateManager, process}
use crabcity.Inference.State.{ClaudeState, StateSignal}
use crabcity.Inference.Transitions.{Reports, process-Reports}
use crabcity.Shared.{List, Option, Text, [], ap, arith, refl, ℕ, ◌++◌, ◌∙◌, ◌∷◌, ◌≡◌}

-- What an actor calls on its driver.
pub data Call (Json : Type 0) : Type 0 where
  output_call : (bytes : List ℕ) → Call Json
  input_call : (line : Text) → Call Json
  tick_call : Call Json
  signal_call : DriverSignal Json → Call Json

module _ {Json : Type 0} where
  abbrev pub call : (List ℕ → Text) → ℕ → ClaudeDriver Json → Call Json → ClaudeDriver Json
  call decode now d (output_call bytes) = (on_output decode now d bytes).0
  call decode now d (input_call line) = (on_input now d line).0
  call decode now d tick_call = (on_tick now d).0
  call decode now d (signal_call s) = (on_signal now d s).0

  unfoldable pub calls :
      (List ℕ → Text) → ClaudeDriver Json → List (ℕ × Call Json) → ClaudeDriver Json
  calls decode d [] = d
  calls decode d ((now, c) ∷ rest) = calls decode (call decode now d c) rest

  -- The published states are those of the state manager.
  abbrev pub IsSynced : ClaudeDriver Json → Type 0
  IsSynced d =
      (d.current_claude_state ≡ d.state_manager.state)
      × (d.current_state ≡ map_state d.state_manager.state)

  apply-IsSynced :
      (d : ClaudeDriver Json) (m : StateManager) (result : Option ClaudeState)
      → IsSynced d
      → Reports d.state_manager.state (m, result)
      → IsSynced (apply_state_change (record d { state_manager = m }) result).0
  unfolding apply_state_change
  apply-IsSynced d m result v h = ground arith

  pub infer-IsSynced :
      (now : ℕ) (d : ClaudeDriver Json) (s : StateSignal) → IsSynced d → IsSynced (infer now d s).0
  unfolding infer
  infer-IsSynced now d s v = apply-IsSynced d _ _ v (process-Reports now d.state_manager s)

  call-IsSynced :
      (decode : List ℕ → Text) (now : ℕ) (d : ClaudeDriver Json) (c : Call Json)
      → IsSynced d
      → IsSynced (call decode now d c)
  unfolding on_output on_input on_tick on_signal
  call-IsSynced decode now d (output_call bytes) v = infer-IsSynced now d _ v
  call-IsSynced decode now d (input_call line) v = infer-IsSynced now d _ v
  call-IsSynced decode now d tick_call v = infer-IsSynced now d _ v
  call-IsSynced decode now d (signal_call (Process.conversation_entry e s r t)) v =
      infer-IsSynced now d _ v
  call-IsSynced decode now d (signal_call (Process.session_discovered session_id)) v = v
  call-IsSynced decode now d (signal_call (Process.conversation_snapshot turns)) v = v
  call-IsSynced decode now d (signal_call (Process.conversation_delta turns)) v = v

  calls-IsSynced :
      (decode : List ℕ → Text) (d : ClaudeDriver Json) (cs : List (ℕ × Call Json))
      → IsSynced d
      → IsSynced (calls decode d cs)
  unfolding calls
  calls-IsSynced decode d [] v = v
  calls-IsSynced decode d ((now, c) ∷ cs) v =
      calls-IsSynced decode (call decode now d c) cs (call-IsSynced decode now d c v)

-- After any output, input, ticks and signals to a new driver, the Claude state and the process state
-- that it publishes are those of its state manager, however bytes decode to text.
pub calls_new-IsSynced :
    {Json : Type 0} (decode : List ℕ → Text) (now : ℕ) (cs : List (ℕ × Call Json))
    → IsSynced (calls decode (new_driver now) cs)
unfolding new_driver Manager.new map_state
calls_new-IsSynced decode now cs = calls-IsSynced decode (new_driver now) cs (refl, refl)

module _ {Json : Type 0} where
  -- What a client holds that starts from `turns` and applies the events in order.
  abbrev pub replay_events : List Json → List (ConversationEvent Json) → List Json
  replay_events turns [] = turns
  replay_events turns (full instance_id new_turns ∷ events) = replay_events new_turns events
  replay_events turns (update instance_id new_turns ∷ events) =
      replay_events (turns ++ new_turns) events

  replay_events-append :
      (turns : List Json) (es fs : List (ConversationEvent Json))
      → replay_events turns (es ++ fs) ≡ replay_events (replay_events turns es) fs
  replay_events-append turns [] fs = refl
  replay_events-append turns (full instance_id new_turns ∷ es) fs =
      replay_events-append new_turns es fs
  replay_events-append turns (update instance_id new_turns ∷ es) fs =
      replay_events-append (turns ++ new_turns) es fs

  -- The events sent beside the conversation held.
  abbrev pub Follows : List Json → ClaudeDriver Json → Type 0
  Follows start d = replay_events start d.conversation_tx ≡ d.conversation_turns

  apply_keeps :
      (d : ClaudeDriver Json) (result : Option ClaudeState)
      → ((apply_state_change d result).0.conversation_tx ≡ d.conversation_tx)
        × ((apply_state_change d result).0.conversation_turns ≡ d.conversation_turns)
  unfolding apply_state_change
  apply_keeps d result = ground arith

  infer-Follows :
      (start : List Json) (now : ℕ) (d : ClaudeDriver Json) (s : StateSignal)
      → Follows start d
      → Follows start (infer now d s).0
  unfolding infer
  infer-Follows start now d s v =
      let (same_tx, same_turns) =
        apply_keeps (record d { state_manager = (process now d.state_manager s).0 })
          (process now d.state_manager s).1 in
      rw (same_tx, same_turns) v

  call-Follows :
      (start : List Json) (decode : List ℕ → Text) (now : ℕ) (d : ClaudeDriver Json) (c : Call Json)
      → Follows start d
      → Follows start (call decode now d c)
  unfolding on_output on_input on_tick on_signal
  call-Follows start decode now d (output_call bytes) v = infer-Follows start now d _ v
  call-Follows start decode now d (input_call line) v = infer-Follows start now d _ v
  call-Follows start decode now d tick_call v = infer-Follows start now d _ v
  call-Follows start decode now d (signal_call (Process.conversation_entry e s r t)) v =
      infer-Follows start now d _ v
  call-Follows start decode now d (signal_call (Process.session_discovered session_id)) v = v
  call-Follows start decode now d (signal_call (Process.conversation_snapshot turns)) v =
      replay_events-append start d.conversation_tx _
  call-Follows start decode now d (signal_call (Process.conversation_delta turns)) v =
      replay_events-append start d.conversation_tx _ ∙ ap (λ held. held ++ turns) v

  -- If the events sent so far, applied in order to `start`, give the conversation that the driver
  -- holds, then so do the events sent after any calls on the driver.
  pub calls-Follows :
      (start : List Json) (decode : List ℕ → Text) (d : ClaudeDriver Json)
      (cs : List (ℕ × Call Json))
      → Follows start d
      → Follows start (calls decode d cs)
  unfolding calls
  calls-Follows start decode d [] v = v
  calls-Follows start decode d ((now, c) ∷ cs) v =
      calls-Follows start decode (call decode now d c) cs (call-Follows start decode now d c v)
