-- ===== src/Inference/State.antt =====
-- packages/crab_city/src/inference/state.rs: the states and the signals.
use crabcity.Shared.{Bool, List, Option, Text, false, none, some, true, ℕ_discrete}

pub data ClaudeState : Type 0 where
  initializing starting idle thinking responding : ClaudeState
  tool_executing : Text → ClaudeState
  waiting_for_input : Option Text → ClaudeState

-- `#[derive(PartialEq)]`.
pub ClaudeState-discrete : Discrete ClaudeState
ClaudeState-discrete = hlevel ℕ_discrete

pub data StateSignal : Type 0 where
  terminal_output : Text → StateSignal
  terminal_input : Text → StateSignal
  conversation_entry :
      (entry_type : Text) (subtype stop_reason : Option Text) (tool_names : List Text) → StateSignal
  tick : StateSignal

unfoldable pub is_active : ClaudeState → Bool
is_active thinking = true
is_active responding = true
is_active (tool_executing tool) = true
is_active _ = false

unfoldable pub current_tool : ClaudeState → Option Text
current_tool (tool_executing tool) = some tool
current_tool _ = none

-- The `matches!` tests that the code makes.
abbrev pub is_initializing : ClaudeState → Bool
is_initializing initializing = true
is_initializing _ = false

abbrev pub is_starting : ClaudeState → Bool
is_starting starting = true
is_starting _ = false

abbrev pub is_booting : ClaudeState → Bool
is_booting initializing = true
is_booting starting = true
is_booting _ = false

abbrev pub is_idle : ClaudeState → Bool
is_idle idle = true
is_idle _ = false

abbrev pub is_thinking : ClaudeState → Bool
is_thinking thinking = true
is_thinking _ = false

abbrev pub is_waiting : ClaudeState → Bool
is_waiting (waiting_for_input prompt) = true
is_waiting _ = false
