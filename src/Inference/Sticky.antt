-- ===== src/Inference/Sticky.antt =====
-- Invariants of the state manager over any run of signals
-- (packages/crab_city/src/inference/manager.rs).
use crabcity.Inference.Manager.{
  StateManager, is_turn_duration, new, on_conversation_entry, on_entry, on_terminal_output, process,
  run,
}
use crabcity.Inference.State.{
  ClaudeState, StateSignal, conversation_entry, is_booting, terminal_input, terminal_output, tick,
  tool_executing, waiting_for_input,
}
use crabcity.Shared.{
  All, Bool, Bool-cases, List, Option, Text, [], arith, codes, eq_text, false, inl, inr, none, refl,
  some, true, ℕ, ◌∷◌, ◌≡◌,
}

-- What a state says of the tool on record and of the definitive mark: only a wait for input can be
-- definitive, a running tool is the one on record, and a wait carries no prompt.
abbrev pub Fits : ClaudeState → Option Text → Bool → Type 0
Fits (waiting_for_input prompt) tool definitive = prompt ≡ none
Fits (tool_executing running) tool definitive = (tool ≡ some running) × (definitive ≡ false)
Fits _ tool definitive = definitive ≡ false

abbrev pub IsValid : StateManager → Type 0
IsValid m = Fits m.state m.current_tool m.definitive_idle

new-IsValid : (idle_timeout now : ℕ) → IsValid (new idle_timeout now)
unfolding new
new-IsValid idle_timeout now = refl

output-IsValid :
    (now : ℕ) (output : Text) (m : StateManager)
    → IsValid m
    → IsValid (on_terminal_output now output m)
unfolding on_terminal_output
output-IsValid now output m v = ground arith

entry-IsValid :
    (entry_type : Text) (tool_names : List Text) (m : StateManager)
    → IsValid m
    → IsValid (on_entry entry_type tool_names m)
unfolding on_entry
entry-IsValid entry_type tool_names m v = ground arith

conversation-IsValid :
    (now : ℕ) (entry_type : Text) (subtype : Option Text) (tool_names : List Text)
    (m : StateManager)
    → IsValid m
    → IsValid (on_conversation_entry now entry_type subtype tool_names m).0
unfolding on_conversation_entry
conversation-IsValid now entry_type subtype tool_names m v =
    elim (Bool-cases (is_turn_duration entry_type subtype)) [
      | inl done ↦ rw done refl
      | inr other ↦ rw other (
          entry-IsValid entry_type tool_names
            (record m { last_convo_activity = now; sent_idle = false }) v)
    ]

-- Every signal keeps the manager valid.
pub process-IsValid :
    (now : ℕ) (m : StateManager) (s : StateSignal) → IsValid m → IsValid (process now m s).0
unfolding process
process-IsValid now m (terminal_input input) v = v
process-IsValid now m (terminal_output output) v = output-IsValid now output m v
process-IsValid now m tick v = v
process-IsValid now m (conversation_entry entry_type subtype stop_reason tool_names) v =
    conversation-IsValid now entry_type subtype tool_names m v

run_from-IsValid : (m : StateManager) (ss : List (ℕ × StateSignal)) → IsValid m → IsValid (run m ss)
unfolding run
run_from-IsValid m [] v = v
run_from-IsValid m ((now, s) ∷ ss) v =
    run_from-IsValid (process now m s).0 ss (process-IsValid now m s v)

-- After any signals to a new manager, only a wait for input is marked definitive, a running tool
-- is the tool on record, and no wait carries a prompt.
pub run-IsValid :
    (idle_timeout now : ℕ) (ss : List (ℕ × StateSignal)) → IsValid (run (new idle_timeout now) ss)
run-IsValid idle_timeout now ss =
    run_from-IsValid (new idle_timeout now) ss (new-IsValid idle_timeout now)

-- The user's own entry, which alone begins a new turn.
abbrev pub is_user_entry : StateSignal → Bool
is_user_entry (conversation_entry entry_type subtype stop_reason tool_names) =
    eq_text entry_type (codes "user")
is_user_entry _ = false

-- The turn is over for good.
abbrev pub IsOver : StateManager → Type 0
IsOver m = (m.definitive_idle ≡ true) × (m.state ≡ waiting_for_input none)

output-IsOver :
    (now : ℕ) (output : Text) (m : StateManager)
    → IsOver m
    → IsOver (on_terminal_output now output m)
unfolding on_terminal_output
output-IsOver now output m v = ground arith

conversation-IsOver :
    (now : ℕ) (entry_type : Text) (subtype : Option Text) (tool_names : List Text)
    (m : StateManager)
    → eq_text entry_type (codes "user") ≡ false
    → IsOver m
    → IsOver (on_conversation_entry now entry_type subtype tool_names m).0
unfolding on_conversation_entry
conversation-IsOver now entry_type subtype tool_names m h v = ground arith

process-IsOver :
    (now : ℕ) (m : StateManager) (s : StateSignal)
    → is_user_entry s ≡ false
    → IsOver m
    → IsOver (process now m s).0
unfolding process
process-IsOver now m (terminal_input input) h v = v
process-IsOver now m (terminal_output output) h v = output-IsOver now output m v
process-IsOver now m tick h v = v
process-IsOver now m (conversation_entry entry_type subtype stop_reason tool_names) h v =
    conversation-IsOver now entry_type subtype tool_names m h v

-- Once a turn is over for good, which is a definitive wait without a prompt, it stays so through
-- any signals, whatever the terminal prints, as long as no entry of the user arrives.
pub run-IsOver :
    (m : StateManager) (ss : List (ℕ × StateSignal))
    → All (λ e. is_user_entry e.1 ≡ false) ss
    → IsOver m
    → IsOver (run m ss)
unfolding run
run-IsOver m [] h v = v
run-IsOver m ((now, s) ∷ ss) h v =
    run-IsOver (process now m s).0 ss h.1 (process-IsOver now m s h.0 v)

output-booted :
    (now : ℕ) (output : Text) (m : StateManager)
    → is_booting m.state ≡ false
    → is_booting (on_terminal_output now output m).state ≡ false
unfolding on_terminal_output
output-booted now output m h = ground arith

conversation-booted :
    (now : ℕ) (entry_type : Text) (subtype : Option Text) (tool_names : List Text)
    (m : StateManager)
    → is_booting (on_conversation_entry now entry_type subtype tool_names m).0.state ≡ false
unfolding on_conversation_entry
conversation-booted now entry_type subtype tool_names m = ground arith

process-booted :
    (now : ℕ) (m : StateManager) (s : StateSignal)
    → is_booting m.state ≡ false
    → is_booting (process now m s).0.state ≡ false
unfolding process
process-booted now m (terminal_input input) h = h
process-booted now m (terminal_output output) h = output-booted now output m h
process-booted now m tick h = h
process-booted now m (conversation_entry entry_type subtype stop_reason tool_names) h =
    conversation-booted now entry_type subtype tool_names m

run-booted :
    (m : StateManager) (ss : List (ℕ × StateSignal))
    → is_booting m.state ≡ false
    → is_booting (run m ss).state ≡ false
unfolding run
run-booted m [] h = h
run-booted m ((now, s) ∷ ss) h = run-booted (process now m s).0 ss (process-booted now m s h)

-- A conversation entry of any kind ends the boot phase, and no later signals bring it back.
pub run-entry_booted :
    (m : StateManager) (now : ℕ) (entry_type : Text) (subtype stop_reason : Option Text)
    (tool_names : List Text) (ss : List (ℕ × StateSignal))
    → is_booting
        (run m ((now, conversation_entry entry_type subtype stop_reason tool_names) ∷ ss)).state
      ≡ false
unfolding run process
run-entry_booted m now entry_type subtype stop_reason tool_names ss =
    run-booted (on_conversation_entry now entry_type subtype tool_names m).0 ss
      (conversation-booted now entry_type subtype tool_names m)
