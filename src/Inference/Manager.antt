-- ===== src/Inference/Manager.antt =====
-- packages/crab_city/src/inference/manager.rs: the unified state manager. `Instant::now()` is the
-- argument `now` of each call, in nanoseconds.
use crabcity.Inference.State.{
  ClaudeState, ClaudeState-discrete, StateSignal, conversation_entry, idle, initializing,
  is_booting, is_idle, is_initializing, is_starting, is_thinking, is_waiting, responding, starting,
  terminal_input, terminal_output, thinking, tick, tool_executing, waiting_for_input,
}
use crabcity.Shared.{
  Bool, List, Option, Text, [], any, codes, contains, eq_text, false, holds, if◌then◌else◌,
  is_empty, ltb, none, not, some, true, ℕ, ◌&&◌, ◌*◌, ◌-◌, ◌||◌, ◌∷◌,
}

-- Each pattern with the tool that it shows; the more specific ones come first.
abbrev pub tool_patterns : List (Text × Text)
tool_patterns =
    (codes "NotebookEdit(", codes "NotebookEdit")
    ∷ (codes "TodoRead(", codes "TodoRead")
    ∷ (codes "TodoWrite(", codes "TodoWrite")
    ∷ (codes "WebFetch(", codes "WebFetch")
    ∷ (codes "WebSearch(", codes "WebSearch")
    ∷ (codes "AskUserQuestion(", codes "AskUserQuestion")
    ∷ (codes "EnterPlanMode(", codes "EnterPlanMode")
    ∷ (codes "ExitPlanMode(", codes "ExitPlanMode")
    ∷ (codes "Task(", codes "Task")
    ∷ (codes "Read(", codes "Read")
    ∷ (codes "Write(", codes "Write")
    ∷ (codes "Edit(", codes "Edit")
    ∷ (codes "Glob(", codes "Glob")
    ∷ (codes "Grep(", codes "Grep")
    ∷ (codes "Bash(", codes "Bash")
    ∷ []

pub record StateManager : Type 0 where
  pub state : ClaudeState
  pub idle_timeout : ℕ
  pub last_convo_activity : ℕ
  pub last_terminal_activity : ℕ
  pub current_tool : Option Text
  pub sent_idle : Bool
  pub last_convo_role : Option Text
  pub definitive_idle : Bool

-- `StateManagerConfig::default()`: ten seconds.
abbrev pub default_idle_timeout : ℕ
default_idle_timeout = 10 * 1000000000

unfoldable pub new : ℕ → ℕ → StateManager
new idle_timeout now = record {
  state = initializing;
  idle_timeout = idle_timeout;
  last_convo_activity = now;
  last_terminal_activity = now;
  current_tool = none;
  sent_idle = false;
  last_convo_role = none;
  definitive_idle = false;
}

unfoldable pub first_pattern : List (Text × Text) → Text → Option Text
first_pattern [] output = none
first_pattern ((pattern, tool) ∷ rest) output =
    let found = first_pattern rest output in if contains output pattern then some tool else found

unfoldable pub detect_tool : Text → Option Text
detect_tool output = first_pattern tool_patterns output

unfoldable pub is_interactive_tool : Text → Bool
is_interactive_tool name =
    eq_text name (codes "AskUserQuestion")
    || eq_text name (codes "EnterPlanMode")
    || eq_text name (codes "ExitPlanMode")

-- The boot transitions of terminal output.
unfoldable pub boot : Text → ClaudeState → ClaudeState
boot output state =
    let started = if is_initializing state then starting else state in
    if is_starting started && contains output (codes "Claude Code") then idle else started

-- The arm `StateSignal::TerminalOutput`.
unfoldable pub on_terminal_output : ℕ → Text → StateManager → StateManager
unfolding boot
on_terminal_output now output m =
    let booted = record m {
      state = boot output m.state;
      last_terminal_activity = now;
      sent_idle = false;
    } in
    if is_waiting booted.state && booted.definitive_idle
    then booted
    else (elim (detect_tool output) [
      | some tool ↦ record booted {
        current_tool = some tool;
        definitive_idle = false;
        state = tool_executing tool;
      }
      | none ↦ if is_thinking booted.state then record booted { state = responding } else booted
    ])

-- The branch of an entry of type "assistant".
unfoldable pub on_assistant : List Text → StateManager → StateManager
on_assistant tool_names m =
    let mid_turn = not (is_empty tool_names) && not (any is_interactive_tool tool_names) in
    if mid_turn
    then m
    else (if m.definitive_idle
        then record m { current_tool = none }
        else record m { current_tool = none; state = waiting_for_input none })

-- The branch of an entry of type "tool_result".
unfoldable pub on_tool_result : StateManager → StateManager
on_tool_result m =
    if not m.definitive_idle && (is_idle m.state || is_waiting m.state)
    then record m { definitive_idle = false; state = thinking }
    else m

-- An entry that is no definitive turn completion.
unfoldable pub on_entry : Text → List Text → StateManager → StateManager
unfolding on_assistant on_tool_result
on_entry entry_type tool_names m =
    let alive = record m {
      last_convo_role = some entry_type;
      state = if is_booting m.state then idle else m.state;
    } in
    if eq_text entry_type (codes "user")
    then record alive { definitive_idle = false; state = thinking }
    else if eq_text entry_type (codes "tool_result")
    then on_tool_result alive
    else if eq_text entry_type (codes "assistant")
    then on_assistant tool_names alive
    else alive

abbrev pub is_turn_duration : Text → Option Text → Bool
is_turn_duration entry_type none = false
is_turn_duration entry_type (some subtype) =
    eq_text entry_type (codes "system") && eq_text subtype (codes "turn_duration")

-- The new state, if it differs from the old one.
unfoldable pub report : ClaudeState → StateManager → StateManager × Option ClaudeState
report old m = (m, if holds (ClaudeState-discrete m.state old) then none else some m.state)

-- The arm `StateSignal::ConversationEntry`, which returns early on a turn's completion.
unfoldable pub on_conversation_entry :
    ℕ → Text → Option Text → List Text → StateManager → StateManager × Option ClaudeState
unfolding on_entry report
on_conversation_entry now entry_type subtype tool_names m =
    let seen = record m { last_convo_activity = now; sent_idle = false } in
    if is_turn_duration entry_type subtype
    then (
      record seen { current_tool = none; definitive_idle = true; state = waiting_for_input none },
      some (waiting_for_input none),
    )
    else report m.state (on_entry entry_type tool_names seen)

unfoldable pub process : ℕ → StateManager → StateSignal → StateManager × Option ClaudeState
unfolding report on_terminal_output on_conversation_entry
process now m (terminal_input input) = report m.state (record m { sent_idle = false })
process now m (terminal_output output) = report m.state (on_terminal_output now output m)
process now m (conversation_entry entry_type subtype stop_reason tool_names) =
    on_conversation_entry now entry_type subtype tool_names m
process now m tick = report m.state m

-- `elapsed() > idle_timeout`.
unfoldable pub is_terminal_stale : ℕ → StateManager → Bool
is_terminal_stale now m = ltb m.idle_timeout (now - m.last_terminal_activity)

unfoldable pub is_conversation_stale : ℕ → StateManager → Bool
is_conversation_stale now m = ltb m.idle_timeout (now - m.last_convo_activity)

unfoldable pub terminal_idle_duration : ℕ → StateManager → ℕ
terminal_idle_duration now m = now - m.last_terminal_activity

unfoldable pub reset : ℕ → StateManager → StateManager
reset now m = record m {
  state = idle;
  last_convo_activity = now;
  last_terminal_activity = now;
  current_tool = none;
  sent_idle = false;
  last_convo_role = none;
  definitive_idle = false;
}

-- A run of timed signals.
unfoldable pub run : StateManager → List (ℕ × StateSignal) → StateManager
run m [] = m
run m ((now, s) ∷ rest) = run (process now m s).0 rest
