-- ===== src/Driver/Examples.antt =====
-- The theorems on the driver (packages/crab_city/src/claude_driver.rs) at a short session. Output is
-- ASCII here, which decodes to its own codes, and a turn of the conversation is a number.
use crabcity.Driver.Process
use crabcity.Driver.Claude.{new_driver}
use crabcity.Driver.Process.{conversation_delta, conversation_snapshot}
use crabcity.Driver.Sync.{
  Call, Follows, IsSynced, calls, calls-Follows, calls_new-IsSynced, output_call, signal_call,
  tick_call,
}
use crabcity.Shared.{List, Text, [], codes, none, refl, ℕ, ◌∷◌}

abbrev ascii : List ℕ → Text
ascii bytes = bytes

abbrev session : List (ℕ × Call ℕ)
session =
    (1, output_call (codes "Claude Code"))
    ∷ (2, signal_call (conversation_snapshot (7 ∷ [])))
    ∷ (3, signal_call (Process.conversation_entry (codes "user") none none []))
    ∷ (4, signal_call (conversation_delta (8 ∷ 9 ∷ [])))
    ∷ (5, tick_call)
    ∷ []

calls_new-IsSynced_example : IsSynced (calls ascii (new_driver 0) session)
calls_new-IsSynced_example = calls_new-IsSynced ascii 0 session

calls-Follows_example : Follows [] (calls ascii (new_driver 0) session)
unfolding new_driver
calls-Follows_example = calls-Follows [] ascii (new_driver 0) session refl
