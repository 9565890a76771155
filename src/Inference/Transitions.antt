-- ===== src/Inference/Transitions.antt =====
-- What one signal does to the state (packages/crab_city/src/inference/manager.rs).
use crabcity.Inference.Manager.{
  StateManager, detect_tool, first_pattern, is_turn_duration, on_conversation_entry, on_entry,
  on_terminal_output, process, report, run, tool_patterns,
}
use crabcity.Inference.State.{
  ClaudeState, StateSignal, conversation_entry, terminal_input, terminal_output, tick,
}
use crabcity.Shared.{
  All, Bool, Bool-cases, List, Option, Text, [], ap, arith, contains, false, inl, inr, none, refl,
  some, true, ℕ, ◌++◌, ◌∷◌, ◌≡◌,
}

-- The result tells exactly whether, and to what, the state changed.
abbrev pub Reports : ClaudeState → StateManager × Option ClaudeState → Type 0
Reports old (m, none) = m.state ≡ old
Reports old (m, some s) = s ≡ m.state

report-Reports : (old : ClaudeState) (m : StateManager) → Reports old (report old m)
unfolding report
report-Reports old m = ground arith

entry-Reports :
    (now : ℕ) (entry_type : Text) (subtype : Option Text) (tool_names : List Text)
    (m : StateManager)
    → Reports m.state (on_conversation_entry now entry_type subtype tool_names m)
unfolding on_conversation_entry
entry-Reports now entry_type subtype tool_names m =
    elim (Bool-cases (is_turn_duration entry_type subtype)) [
      | inl done ↦ rw done refl
      | inr other ↦ rw other (
          report-Reports m.state (
            on_entry entry_type tool_names
              (record m { last_convo_activity = now; sent_idle = false })))
    ]

-- For every signal, `process` answers `none` only if the state is what it was, and otherwise
-- answers the state that the manager now has.
pub process-Reports :
    (now : ℕ) (m : StateManager) (s : StateSignal) → Reports m.state (process now m s)
unfolding process
process-Reports now m (terminal_input input) =
    report-Reports m.state (record m { sent_idle = false })
process-Reports now m (terminal_output output) =
    report-Reports m.state (on_terminal_output now output m)
process-Reports now m tick = report-Reports m.state m
process-Reports now m (conversation_entry entry_type subtype stop_reason tool_names) =
    entry-Reports now entry_type subtype tool_names m

-- A table entry that stands behind entries which the text does not contain.
pub record FirstMatch (table : List (Text × Text)) (output tool : Text) : Type 0 where
  pub pattern : Text
  pub before : List (Text × Text)
  pub after : List (Text × Text)
  pub split : table ≡ before ++ ((pattern, tool) ∷ after)
  pub absent : All (λ e. contains output e.0 ≡ false) before
  pub present : contains output pattern ≡ true

first_pattern-FirstMatch :
    (table : List (Text × Text)) (output tool : Text)
    → first_pattern table output ≡ some tool
    → FirstMatch table output tool
unfolding first_pattern
first_pattern-FirstMatch [] output tool h = cc
first_pattern-FirstMatch ((p, t) ∷ rest) output tool h = elim (Bool-cases (contains output p)) [
  | inl hit ↦ record {
    pattern = p;
    before = [];
    after = rest;
    split = ground arith;
    absent = tt;
    present = hit;
  }
  | inr miss ↦
      let m = first_pattern-FirstMatch rest output tool (ground arith) in
      record {
        pattern = m.pattern;
        before = (p, t) ∷ m.before;
        after = m.after;
        split = ap (◌∷◌ (p, t)) m.split;
        absent = (miss, m.absent);
        present = m.present;
      }
]

-- A detected tool is that of the first pattern of the table which the output contains.
pub detect_tool-FirstMatch :
    (output tool : Text) → detect_tool output ≡ some tool → FirstMatch tool_patterns output tool
unfolding detect_tool
detect_tool-FirstMatch output tool h = first_pattern-FirstMatch tool_patterns output tool h

-- A keystroke or a tick.
abbrev pub is_quiet : StateSignal → Bool
is_quiet (terminal_input input) = true
is_quiet tick = true
is_quiet _ = false

-- Keystrokes and ticks, however many and however late, leave the state, the tool on record and the
-- definitive mark as they are: there is no idle timeout.
pub run-quiet :
    (m : StateManager) (ss : List (ℕ × StateSignal))
    → All (λ e. is_quiet e.1 ≡ true) ss
    → ((run m ss).state ≡ m.state)
      × ((run m ss).current_tool ≡ m.current_tool)
      × ((run m ss).definitive_idle ≡ m.definitive_idle)
unfolding run process report
run-quiet m [] h = (refl, refl, refl)
run-quiet m ((now, terminal_input input) ∷ ss) h = run-quiet (record m { sent_idle = false }) ss h.1
run-quiet m ((now, tick) ∷ ss) h = run-quiet m ss h.1
run-quiet m ((now, terminal_output output) ∷ ss) h = cc
run-quiet m ((now, conversation_entry e s r t) ∷ ss) h = cc
