-- ===== src/Inference/Examples.antt =====
-- The theorems on the state manager (packages/crab_city/src/inference/manager.rs) at a turn of Claude.
use crabcity.Inference.State
use crabcity.Inference.Manager.{StateManager, new, run}
use crabcity.Inference.State.{
  StateSignal, current_tool, terminal_input, terminal_output, tick, tool_executing,
}
use crabcity.Inference.Sticky.{IsOver, IsValid, run-IsOver, run-IsValid}
use crabcity.Shared.{List, Text, [], codes, none, refl, some, text_dec, true, ℕ, ◌∷◌}

abbrev prompt_shown : List (ℕ × StateSignal)
prompt_shown =
    (1, terminal_output (codes "Welcome to Claude Code"))
    ∷ (2, terminal_input (codes "fix it"))
    ∷ (3, State.conversation_entry (codes "user") none none [])
    ∷ (4, terminal_output (codes "Bash(ls)"))
    ∷ []

run-IsValid_example : IsValid (run (new 10 0) prompt_shown)
run-IsValid_example = run-IsValid 10 0 prompt_shown

abbrev finished : StateManager
finished = record (new 10 0) { state = State.waiting_for_input none; definitive_idle = true }

abbrev afterwards : List (ℕ × StateSignal)
afterwards =
    (5, terminal_output (codes "Bash(ls)"))
    ∷ (6, State.conversation_entry (codes "assistant") none none (codes "Bash" ∷ []))
    ∷ (7, tick)
    ∷ []

run-IsOver_example : IsOver (run finished afterwards)
unfolding text_dec new
run-IsOver_example = run-IsOver finished afterwards (refl, (refl, (refl, tt))) (refl, refl)

abbrev two_calls : Text
two_calls = codes "Edit(a.rs) Bash(ls)"

abbrev busy : StateManager
busy = record (new 10 0) {
  state = tool_executing (codes "Bash");
  current_tool = some (codes "Bash");
}

abbrev silence : List (ℕ × StateSignal)
silence = (1, terminal_input (codes "y")) ∷ (3600000000000, tick) ∷ []
