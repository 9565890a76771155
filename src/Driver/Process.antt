-- ===== src/Driver/Process.antt =====
-- packages/crab_city/src/process_driver.rs: the vocabulary of a driver, and the driver of a raw
-- shell. The JSON values of a conversation are a parameter.
use crabcity.Shared.{List, Option, Text, none, ℕ_discrete}

pub data ProcessState : Type 0 where
  initializing starting idle : ProcessState
  working : Option Text → ProcessState
  waiting_for_input : Option Text → ProcessState
  exited : ProcessState

-- `#[derive(PartialEq)]`.
pub ProcessState-discrete : Discrete ProcessState
ProcessState-discrete = hlevel ℕ_discrete

pub data DriverSignal (Json : Type 0) : Type 0 where
  conversation_entry :
      (entry_type : Text) (subtype stop_reason : Option Text) (tool_names : List Text)
      → DriverSignal Json
  session_discovered : Text → DriverSignal Json
  conversation_snapshot : List Json → DriverSignal Json
  conversation_delta : List Json → DriverSignal Json

pub record DriverEffect : Type 0 where
  pub state_change : Option ProcessState
  pub session_id : Option Text

abbrev pub no_effect : DriverEffect
no_effect = record { state_change = none; session_id = none }

-- What the conversation channel carries (packages/crab_city/src/ws/state_manager.rs).
pub data ConversationEvent (Json : Type 0) : Type 0 where
  full : (instance_id : Text) (turns : List Json) → ConversationEvent Json
  update : (instance_id : Text) (turns : List Json) → ConversationEvent Json

-- `ShellDriver`, which has no state: each method's answer.
module _ {Json : Type 0} where
  abbrev pub shell_on_signal : DriverSignal Json → DriverEffect
  shell_on_signal signal = no_effect

abbrev pub shell_state : ProcessState
shell_state = idle
