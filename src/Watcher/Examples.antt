-- ===== src/Watcher/Examples.antt =====
-- The theorems on packages/crab_city/src/ws/merging_watcher.rs at a turn that delegates to an agent.
use crabcity.Shared.{
  All, List, Option, [], arith, codes, false, lookup, none, refl, some, text_dec, true, ℕ_discrete,
  ◌∷◌, ◌≡◌,
}
use crabcity.Watcher.Arrivals.{Arrive, IsResolved, poll-late_result, poll-same_or_later}
use crabcity.Watcher.Merging.{poll}
use crabcity.Watcher.Replies.{AreResolved, ToolResults, late_all}
use crabcity.Watcher.Turns.{
  ConvoTurn, Delegation, MergingWatcher, ToolResult, ToolUse, WatchedEntry, WatchedMessage,
  WatcherEvent, find_use, is_tool_result_only, new_watcher, resolve_first, store_result,
  turn_emitted, turn_updated, update_delegation_results,
}

abbrev asking : ToolUse
asking = record { id = codes "tool"; result = none }

abbrev looking : ToolUse
looking = record { id = codes "look"; result = none }

abbrev a_delegation : Delegation
a_delegation = record { agent_id = codes "tool"; result = none }

abbrev delegating : ConvoTurn
delegating = record {
  id = codes "turn";
  tool_uses = asking ∷ looking ∷ [];
  delegations = a_delegation ∷ [];
  rest = [];
}

abbrev done_result : ToolResult
done_result = record { content = codes "ok"; is_error = false }

abbrev failed_result : ToolResult
failed_result = record { content = codes "no"; is_error = true }

abbrev tool_results_of_two : ToolResults
tool_results_of_two = (codes "tool", done_result) ∷ (codes "look", failed_result) ∷ []

abbrev own_message : WatchedMessage
own_message = record { from_user = false; written = codes "hi"; tool_results = [] }

abbrev reply_message : WatchedMessage
reply_message = record { from_user = true; written = []; tool_results = tool_results_of_two }

abbrev asked_entry : WatchedEntry
asked_entry = record { uuid = codes "a"; message = some own_message }

abbrev reply_entry : WatchedEntry
reply_entry = record { uuid = codes "b"; message = some reply_message }

abbrev as_turn : WatchedEntry → Option ConvoTurn
as_turn e = some delegating

an_arrival :
    Arrive as_turn asked_entry reply_entry delegating
      (codes "tool", done_result)
      ((codes "look", failed_result) ∷ [])
unfolding is_tool_result_only find_use text_dec ℕ_discrete
an_arrival = record {
  own = own_message;
  reply = reply_message;
  sent = refl;
  is_own = refl;
  converted = refl;
  replied = refl;
  only_results = refl;
  its_results = refl;
  differ = (((λ e. ground arith), tt), (tt, tt));
  awaiting = ((asking, (refl, refl)), ((looking, (refl, refl)), tt));
}

abbrev first_poll : MergingWatcher × List WatcherEvent
first_poll = poll as_turn (asked_entry ∷ []) new_watcher

abbrev second_poll : MergingWatcher × List WatcherEvent
second_poll = poll as_turn (reply_entry ∷ []) first_poll.0

abbrev only_poll : MergingWatcher × List WatcherEvent
only_poll = poll as_turn (asked_entry ∷ reply_entry ∷ []) new_watcher

poll-late_result_example :
    (late : ConvoTurn) × (first_poll.1 ≡ turn_emitted delegating ∷ [])
    × (second_poll.1 ≡ turn_updated late ∷ [])
    × IsResolved tool_results_of_two delegating late
    × (lookup (codes "turn") second_poll.0.emitted_turns ≡ some late)
    × All (λ q. lookup q.0 second_poll.0.pending_tool_uses ≡ none) tool_results_of_two
poll-late_result_example =
    poll-late_result as_turn new_watcher asked_entry reply_entry delegating
      (codes "tool", done_result) ((codes "look", failed_result) ∷ []) an_arrival

poll-same_or_later_example :
    (kept : ConvoTurn) × (only_poll.1 ≡ turn_emitted kept ∷ [])
    × (second_poll.1 ≡ turn_updated (update_delegation_results kept) ∷ [])
    × (lookup (codes "turn") only_poll.0.emitted_turns ≡ some kept)
    × (lookup (codes "turn") second_poll.0.emitted_turns ≡ some (update_delegation_results kept))
    × (only_poll.0.pending_tool_uses ≡ second_poll.0.pending_tool_uses)
    × (kept.delegations ≡ a_delegation ∷ [])
    × AreResolved tool_results_of_two delegating kept
poll-same_or_later_example =
    poll-same_or_later as_turn new_watcher asked_entry reply_entry delegating
      (codes "tool", done_result) ((codes "look", failed_result) ∷ []) an_arrival

-- The later poll gives the delegation its result.
derives_later :
    (late_all tool_results_of_two delegating).delegations
    ≡ record { agent_id = codes "tool"; result = some (codes "ok") } ∷ []
unfolding late_all update_delegation_results store_result resolve_first find_use text_dec ℕ_discrete
derives_later = refl
