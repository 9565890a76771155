-- ===== src/Watcher/Merging.antt =====
-- `MergingWatcher` of packages/crab_city/src/ws/merging_watcher.rs: results of tools are merged into the
-- turns that wait for them. The conversion of an entry to a turn is a parameter.
use crabcity.Shared.{
  List, Option, Text, [], contains_text, if◌then◌else◌, insert, lookup, none, remove, some, ◌++◌,
  ◌∷◌,
}
use crabcity.Watcher.Turns.{
  ConvoTurn, MergingWatcher, ToolResult, ToolUse, WatchedEntry, WatchedMessage, WatcherEvent,
  awaits, is_tool_result_only, is_unresolved, progressed, resolve_first, store_result, turn_emitted,
  turn_updated, update_delegation_results,
}

-- A turn of the batch in which the result was put.
abbrev pub merged_turn : Text → ToolResult → ConvoTurn → Option ConvoTurn
merged_turn tool_use_id r t = elim (resolve_first (awaits tool_use_id) r t.tool_uses) [
  | none ↦ none
  | some uses ↦ some (record t { tool_uses = uses })
]

abbrev pub merged_event : Text → ToolResult → WatcherEvent → Option (ConvoTurn × WatcherEvent)
merged_event tool_use_id r (turn_emitted t) = elim (merged_turn tool_use_id r t) [
  | none ↦ none
  | some m ↦ some (m, turn_emitted m)
]
merged_event tool_use_id r (turn_updated t) = elim (merged_turn tool_use_id r t) [
  | none ↦ none
  | some m ↦ some (m, turn_updated m)
]
merged_event tool_use_id r (progressed e) = none

-- The events of a batch stand with the newest first, the order in which the loop tries them.
unfoldable pub merge_events :
    Text → ToolResult → List WatcherEvent → Option (ConvoTurn × List WatcherEvent)
unfolding resolve_first
merge_events tool_use_id r [] = none
merge_events tool_use_id r (e ∷ events) =
    let later = merge_events tool_use_id r events in
    elim (merged_event tool_use_id r e) [
      | some (t, changed) ↦ some (t, changed ∷ events)
      | none ↦ elim later [ none ↦ none | some (t, changed) ↦ some (t, e ∷ changed) ]
    ]

abbrev pub change_stored :
    Text → (ConvoTurn → ConvoTurn) → List (Text × ConvoTurn) → List (Text × ConvoTurn)
change_stored id f turns = elim (lookup id turns) [ none ↦ turns | some t ↦ insert id (f t) turns ]

-- The watcher after a result was put into the batch.
unfoldable pub merged_into_batch : Text → ToolResult → ConvoTurn → MergingWatcher → MergingWatcher
unfolding store_result
merged_into_batch tool_use_id r t w = record {
  emitted_turns = change_stored t.id (store_result tool_use_id r) w.emitted_turns;
  pending_tool_uses = remove tool_use_id w.pending_tool_uses;
}

-- What an entry with results only goes through: the watcher, the batch, and the ids of the turns that
-- were updated.
pub record Merge : Type 0 where
  pub watcher : MergingWatcher
  pub events : List WatcherEvent
  pub updated : List Text

abbrev pub add_new : Text → List Text → List Text
add_new id ids = if contains_text id ids then ids else ids ++ id ∷ []

-- A result for a turn of an earlier poll.
abbrev pub merge_stored : Text → ToolResult → Text → Option ConvoTurn → Merge → Merge
merge_stored tool_use_id r turn_id none m = record m {
  watcher = record m.watcher { pending_tool_uses = remove tool_use_id m.watcher.pending_tool_uses };
}
merge_stored tool_use_id r turn_id (some stored) m = record m {
  watcher = record {
    emitted_turns =
        insert turn_id (update_delegation_results (store_result tool_use_id r stored))
          m.watcher.emitted_turns;
    pending_tool_uses = remove tool_use_id m.watcher.pending_tool_uses;
  };
  updated = add_new turn_id m.updated;
}

abbrev pub merge_later : Text → ToolResult → Option Text → Merge → Merge
merge_later tool_use_id r none m = m
merge_later tool_use_id r (some turn_id) m =
    merge_stored tool_use_id r turn_id (lookup turn_id m.watcher.emitted_turns) m

unfoldable pub merge_result : Text → ToolResult → Merge → Merge
unfolding merge_events merged_into_batch store_result update_delegation_results
merge_result tool_use_id r m = elim (merge_events tool_use_id r m.events) [
  | some (t, events) ↦ record m {
    watcher = merged_into_batch tool_use_id r t m.watcher;
    events = events;
  }
  | none ↦ merge_later tool_use_id r (lookup tool_use_id m.watcher.pending_tool_uses) m
]

unfoldable pub merge_results : List (Text × ToolResult) → Merge → Merge
unfolding merge_result
merge_results [] m = m
merge_results ((tool_use_id, r) ∷ results) m = merge_results results (merge_result tool_use_id r m)

-- One event for each turn that was updated; the batch has the newest first.
unfoldable pub emit_updated :
    List (Text × ConvoTurn) → List Text → List WatcherEvent → List WatcherEvent
emit_updated turns [] events = events
emit_updated turns (id ∷ ids) events =
    emit_updated turns ids
      (elim (lookup id turns) [ none ↦ events | some t ↦ turn_updated t ∷ events ])

unfoldable pub track_uses : Text → List ToolUse → List (Text × Text) → List (Text × Text)
track_uses turn_id [] pending = pending
track_uses turn_id (u ∷ uses) pending =
    track_uses turn_id uses (if is_unresolved u then insert u.id turn_id pending else pending)

abbrev pub emit_turn :
    WatchedEntry
    → Option ConvoTurn
    → MergingWatcher
    → List WatcherEvent
    → MergingWatcher × List WatcherEvent
emit_turn entry none w events = (w, progressed entry ∷ events)
emit_turn entry (some t) w events = (
  record {
    emitted_turns = insert t.id t w.emitted_turns;
    pending_tool_uses = track_uses t.id t.tool_uses w.pending_tool_uses;
  },
  turn_emitted t ∷ events,
)

abbrev pub merge_entry :
    List (Text × ToolResult)
    → MergingWatcher
    → List WatcherEvent
    → MergingWatcher × List WatcherEvent
merge_entry results w events =
    let m = merge_results results (record { watcher = w; events = events; updated = [] }) in
    (m.watcher, emit_updated m.watcher.emitted_turns m.updated m.events)

-- The batch with the oldest event first.
abbrev pub in_order : List WatcherEvent → List WatcherEvent
in_order [] = []
in_order (e ∷ events) = in_order events ++ e ∷ []

module _ (to_turn : WatchedEntry → Option ConvoTurn) where
  abbrev pub poll_message :
      WatchedEntry
      → Option WatchedMessage
      → MergingWatcher
      → List WatcherEvent
      → MergingWatcher × List WatcherEvent
  poll_message entry none w events = (w, progressed entry ∷ events)
  poll_message entry (some msg) w events =
      if is_tool_result_only msg
      then merge_entry msg.tool_results w events
      else emit_turn entry (to_turn entry) w events

  unfoldable pub poll_entries :
      List WatchedEntry → MergingWatcher → List WatcherEvent → MergingWatcher × List WatcherEvent
  unfolding is_tool_result_only merge_results emit_updated track_uses
  poll_entries [] w events = (w, events)
  poll_entries (entry ∷ entries) w events =
      let next = poll_message entry entry.message w events in poll_entries entries next.0 next.1

  -- `poll`, with the entries that the inner watcher has not reported before.
  unfoldable pub poll : List WatchedEntry → MergingWatcher → MergingWatcher × List WatcherEvent
  unfolding poll_entries
  poll entries w = let polled = poll_entries entries w [] in (polled.0, in_order polled.1)
