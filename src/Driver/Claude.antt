-- ===== src/Driver/Claude.antt =====
-- packages/crab_city/src/claude_driver.rs: the driver of a Claude instance. The conversation channel
-- is the list of the events sent, oldest first; the cancellation token is whether it was cancelled.
use crabcity.Inference.State
use crabcity.Driver.Process
use crabcity.Inference.Manager
use crabcity.Driver.Process.{
  ConversationEvent, DriverEffect, DriverSignal, ProcessState, ProcessState-discrete, full,
  no_effect, update,
}
use crabcity.Inference.Manager.{StateManager, default_idle_timeout, process}
use crabcity.Inference.State.{ClaudeState, StateSignal}
use crabcity.Shared.{
  Bool, List, Option, Text, [], false, holds, if◌then◌else◌, none, some, true, ℕ, ◌++◌, ◌∷◌,
}

pub record ClaudeDriver (Json : Type 0) : Type 0 where
  pub state_manager : StateManager
  pub current_state : ProcessState
  pub current_claude_state : ClaudeState
  pub instance_id : Text
  pub conversation_turns : List Json
  pub conversation_tx : List (ConversationEvent Json)
  pub cancel : Option Bool

unfoldable pub map_state : ClaudeState → ProcessState
map_state State.initializing = Process.initializing
map_state State.starting = Process.starting
map_state State.idle = Process.idle
map_state State.thinking = Process.working none
map_state State.responding = Process.working none
map_state (State.tool_executing tool) = Process.working (some tool)
map_state (State.waiting_for_input prompt) = Process.waiting_for_input prompt

module _ {Json : Type 0} where
  unfoldable pub new_driver : ℕ → ClaudeDriver Json
  unfolding Manager.new
  new_driver now = record {
    state_manager = Manager.new default_idle_timeout now;
    current_state = Process.initializing;
    current_claude_state = State.initializing;
    instance_id = [];
    conversation_turns = [];
    conversation_tx = [];
    cancel = none;
  }

  unfoldable pub apply_state_change :
      ClaudeDriver Json → Option ClaudeState → ClaudeDriver Json × Option ProcessState
  unfolding map_state
  apply_state_change d none = (d, none)
  apply_state_change d (some state) =
      let seen = record d { current_claude_state = state } in
      if holds (ProcessState-discrete (map_state state) d.current_state)
      then (seen, none)
      else (record seen { current_state = map_state state }, some (map_state state))

  -- A signal handed to the state manager, and its result applied.
  unfoldable pub infer :
      ℕ → ClaudeDriver Json → StateSignal → ClaudeDriver Json × Option ProcessState
  unfolding apply_state_change
  infer now d signal =
      let (m, result) = process now d.state_manager signal in
      apply_state_change (record d { state_manager = m }) result

  -- `String::from_utf8_lossy` is the argument `decode`.
  unfoldable pub on_output :
      (List ℕ → Text) → ℕ → ClaudeDriver Json → List ℕ → ClaudeDriver Json × Option ProcessState
  unfolding infer
  on_output decode now d bytes = infer now d (State.terminal_output (decode bytes))

  unfoldable pub on_input : ℕ → ClaudeDriver Json → Text → ClaudeDriver Json × Option ProcessState
  unfolding infer
  on_input now d input = infer now d (State.terminal_input input)

  unfoldable pub on_tick : ℕ → ClaudeDriver Json → ClaudeDriver Json × Option ProcessState
  unfolding infer
  on_tick now d = infer now d State.tick

  -- The spawned watcher is the environment that sends the signals.
  unfoldable pub start : Text → ClaudeDriver Json → ClaudeDriver Json
  start instance_id d = record d { instance_id = instance_id; cancel = some false }

  unfoldable pub drop_driver : ClaudeDriver Json → ClaudeDriver Json
  drop_driver d = record d { cancel = elim d.cancel [ none ↦ none | some cancelled ↦ some true ] }

  unfoldable pub on_signal :
      ℕ → ClaudeDriver Json → DriverSignal Json → ClaudeDriver Json × DriverEffect
  unfolding infer
  on_signal now d (Process.conversation_entry entry_type subtype stop_reason tool_names) =
      let (d', change) =
        infer now d (State.conversation_entry entry_type subtype stop_reason tool_names) in
      (d', record { state_change = change; session_id = none })
  on_signal now d (Process.session_discovered session_id) =
      (d, record { state_change = none; session_id = some session_id })
  on_signal now d (Process.conversation_snapshot turns) = (
    record d {
      conversation_turns = turns;
      conversation_tx = d.conversation_tx ++ full d.instance_id turns ∷ [];
    },
    no_effect,
  )
  on_signal now d (Process.conversation_delta turns) = (
    record d {
      conversation_turns = d.conversation_turns ++ turns;
      conversation_tx = d.conversation_tx ++ update d.instance_id turns ∷ [];
    },
    no_effect,
  )
