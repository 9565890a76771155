-- ===== src/Watcher/Polls.antt =====
-- Polls of packages/crab_city/src/ws/merging_watcher.rs: a turn, and the results of its tools in the same
-- poll or in the next.
use crabcity.Auth.Texts.{eq_text_self}
use crabcity.Shared.{
  List, Option, Text, [], ap, contains_text, false, insert, lookup, lookup-insert_self, none, refl,
  remove, some, sym, true, ◌∙◌, ◌∷◌, ◌≡◌,
}
use crabcity.Watcher.Merging.{
  Merge, emit_updated, in_order, merge_events, merge_result, merge_results, merged_into_batch, poll,
  poll_entries, poll_message, track_uses,
}
use crabcity.Watcher.Replies.{
  AreAwaiting, IdsDiffer, ToolResults, given_all, late_all, still_awaiting,
}
use crabcity.Watcher.Results.{IsAwaiting, resolve_first-awaits, resolve_first-found}
use crabcity.Watcher.Stored.{
  ArePending, lookup-stored_late, removed_all, still_pending, stored_late, stored_same,
}
use crabcity.Watcher.Turns.{
  ConvoTurn, MergingWatcher, ToolResult, ToolUse, WatchedEntry, WatchedMessage, WatcherEvent,
  is_tool_result_only, or_same, store_result, turn_emitted, turn_updated, update_delegation_results,
}

contains_self : (id : Text) → contains_text id (id ∷ []) ≡ true
contains_self id = rw (eq_text_self id) refl

emit_one :
    (turns : List (Text × ConvoTurn)) (turn_id : Text) (t : ConvoTurn)
    → lookup turn_id turns ≡ some t
    → emit_updated turns (turn_id ∷ []) [] ≡ turn_updated t ∷ []
unfolding emit_updated
emit_one turns turn_id t e = rw (e, emit_updated) refl

module _ (to_turn : WatchedEntry → Option ConvoTurn) where
  poll_one :
      (e : WatchedEntry) (msg : WatchedMessage) (w : MergingWatcher)
      → e.message ≡ some msg
      → poll to_turn (e ∷ []) w ≡ (
        (poll_message to_turn e (some msg) w []).0,
        in_order (poll_message to_turn e (some msg) w []).1,
      )
  unfolding poll poll_entries
  poll_one e msg w m = rw (m, poll, poll_entries) refl

  -- A turn is kept, and its uses that wait are noted.
  pub poll_turn :
      (e : WatchedEntry) (msg : WatchedMessage) (t : ConvoTurn) (w : MergingWatcher)
      → e.message ≡ some msg
      → is_tool_result_only msg ≡ false
      → to_turn e ≡ some t
      → poll to_turn (e ∷ []) w ≡ (
        record {
          emitted_turns = insert t.id t w.emitted_turns;
          pending_tool_uses = track_uses t.id t.tool_uses w.pending_tool_uses;
        },
        turn_emitted t ∷ [],
      )
  poll_turn e msg t w m own conv = poll_one e msg w m ∙ rw (own, conv) refl

  -- The ids of the updated turns, once the turn is among them.
  results_later :
      (turn_id : Text) (results : ToolResults) (stored : ConvoTurn)
      (turns : List (Text × ConvoTurn)) (pending : List (Text × Text))
      → IdsDiffer results
      → ArePending turn_id results pending
      → lookup turn_id turns ≡ some stored
      → merge_results results (record {
        watcher = record { emitted_turns = turns; pending_tool_uses = pending };
        events = [];
        updated = turn_id ∷ [];
      })
        ≡ record {
          watcher = record {
            emitted_turns = stored_late turn_id results stored turns;
            pending_tool_uses = removed_all results pending;
          };
          events = [];
          updated = turn_id ∷ [];
        }
  unfolding merge_results merge_result merge_events stored_late removed_all
  results_later turn_id [] stored turns pending differ waits there = refl
  results_later turn_id ((id, r) ∷ results) stored turns pending differ waits there =
      let next = update_delegation_results (store_result id r stored) in
      rw (waits.0, merge_results, merge_result, there, contains_self turn_id)
        (results_later turn_id results next (insert turn_id next turns) (remove id pending) differ.1
          (still_pending id turn_id results pending differ.0 waits.1)
          (lookup-insert_self turn_id next turns))

  results_late :
      (turn_id : Text) (p : Text × ToolResult) (results : ToolResults) (stored : ConvoTurn)
      (w : MergingWatcher)
      → IdsDiffer (p ∷ results)
      → ArePending turn_id (p ∷ results) w.pending_tool_uses
      → lookup turn_id w.emitted_turns ≡ some stored
      → merge_results (p ∷ results) (record { watcher = w; events = []; updated = [] }) ≡ record {
        watcher = record {
          emitted_turns = stored_late turn_id (p ∷ results) stored w.emitted_turns;
          pending_tool_uses = removed_all (p ∷ results) w.pending_tool_uses;
        };
        events = [];
        updated = turn_id ∷ [];
      }
  unfolding merge_results merge_result merge_events stored_late removed_all
  results_late turn_id (id, r) results stored w differ waits there =
      let next = update_delegation_results (store_result id r stored) in
      rw (waits.0, merge_results, merge_result, there)
        (results_later turn_id results next (insert turn_id next w.emitted_turns)
          (remove id w.pending_tool_uses) differ.1
          (still_pending id turn_id results w.pending_tool_uses differ.0 waits.1)
          (lookup-insert_self turn_id next w.emitted_turns))

  -- Results for a turn of an earlier poll: the turn is sent again with the results in it.
  pub poll_late :
      (e : WatchedEntry) (msg : WatchedMessage) (turn_id : Text) (p : Text × ToolResult)
      (results : ToolResults) (stored : ConvoTurn) (w : MergingWatcher)
      → e.message ≡ some msg
      → is_tool_result_only msg ≡ true
      → msg.tool_results ≡ p ∷ results
      → IdsDiffer (p ∷ results)
      → ArePending turn_id (p ∷ results) w.pending_tool_uses
      → lookup turn_id w.emitted_turns ≡ some stored
      → poll to_turn (e ∷ []) w ≡ (
        record {
          emitted_turns = stored_late turn_id (p ∷ results) stored w.emitted_turns;
          pending_tool_uses = removed_all (p ∷ results) w.pending_tool_uses;
        },
        turn_updated (late_all (p ∷ results) stored) ∷ [],
      )
  poll_late e msg turn_id p results stored w m only brought differ waits there =
      let late = late_all (p ∷ results) stored in
      let turns = stored_late turn_id (p ∷ results) stored w.emitted_turns in
      let merged = results_late turn_id p results stored w differ waits there in
      poll_one e msg w m
      ∙ rw
          (
            only,
            brought,
            merged,
            emit_one turns turn_id late
                (lookup-stored_late turn_id (p ∷ results) stored w.emitted_turns there),
          )
          refl

  -- A result for the turn of the batch, which is kept as it stands there.
  result_same :
      (id : Text) (r : ToolResult) (t : ConvoTurn) (u : ToolUse) (turns : List (Text × ConvoTurn))
      (pending : List (Text × Text))
      → IsAwaiting id u t
      → lookup t.id turns ≡ some t
      → merge_result id r (record {
        watcher = record { emitted_turns = turns; pending_tool_uses = pending };
        events = turn_emitted t ∷ [];
        updated = [];
      })
        ≡ record {
          watcher = record {
            emitted_turns = insert t.id (store_result id r t) turns;
            pending_tool_uses = remove id pending;
          };
          events = turn_emitted (store_result id r t) ∷ [];
          updated = [];
        }
  unfolding merge_result merge_events merged_into_batch store_result
  result_same id r t u turns pending (known, waits) there =
      let (changed, is_changed, own) = resolve_first-found id r t.tool_uses u known in
      let found = resolve_first-awaits id r t.tool_uses u known waits ∙ is_changed in
      let batch : MergingWatcher = record { emitted_turns = turns; pending_tool_uses = pending } in
      let merged : ConvoTurn → Merge = λ m. record {
        watcher = merged_into_batch id r m batch;
        events = turn_emitted m ∷ [];
        updated = [];
      } in
      rw (found, merge_result, merge_events) refl
      ∙ (ap (λ (o : Option (List ToolUse)). merged (record t { tool_uses = or_same t.tool_uses o }))
            (sym is_changed)
          ∙ ap
              (λ (o : Option ConvoTurn). record {
                watcher = record {
                  emitted_turns = elim o [
                    | none ↦ turns
                    | some m ↦ insert t.id (store_result id r m) turns
                  ];
                  pending_tool_uses = remove id pending;
                };
                events = turn_emitted (store_result id r t) ∷ [];
                updated = [];
              })
              there)

  results_same :
      (results : ToolResults) (t : ConvoTurn) (turns : List (Text × ConvoTurn))
      (pending : List (Text × Text))
      → IdsDiffer results
      → AreAwaiting results t
      → lookup t.id turns ≡ some t
      → merge_results results (record {
        watcher = record { emitted_turns = turns; pending_tool_uses = pending };
        events = turn_emitted t ∷ [];
        updated = [];
      })
        ≡ record {
          watcher = record {
            emitted_turns = stored_same t.id results t turns;
            pending_tool_uses = removed_all results pending;
          };
          events = turn_emitted (given_all results t) ∷ [];
          updated = [];
        }
  unfolding merge_results stored_same removed_all given_all store_result
  results_same [] t turns pending differ waits there = refl
  results_same ((id, r) ∷ results) t turns pending differ waits there =
      let next = store_result id r t in
      ap (merge_results results) (result_same id r t waits.0.0 turns pending waits.0.1 there)
      ∙ results_same results next (insert t.id next turns) (remove id pending) differ.1
          (still_awaiting id r t next results refl differ.0 waits.1)
          (lookup-insert_self t.id next turns)

  poll_entries-step :
      (e : WatchedEntry) (o : Option WatchedMessage) (entries : List WatchedEntry)
      (w after : MergingWatcher) (events polled : List WatcherEvent)
      → e.message ≡ o
      → poll_message to_turn e o w events ≡ (after, polled)
      → poll_entries to_turn (e ∷ entries) w events ≡ poll_entries to_turn entries after polled
  unfolding poll_entries
  poll_entries-step e o entries w after events polled m step_is =
      ap
        (λ (q : Option WatchedMessage).
          poll_entries to_turn entries (poll_message to_turn e q w events).0
            (poll_message to_turn e q w events).1)
        m
      ∙ ap (λ (q : MergingWatcher × List WatcherEvent). poll_entries to_turn entries q.0 q.1)
          step_is

  pub poll_same :
      (e1 e2 : WatchedEntry) (msg1 msg2 : WatchedMessage) (results : ToolResults) (t : ConvoTurn)
      (w : MergingWatcher)
      → e1.message ≡ some msg1
      → is_tool_result_only msg1 ≡ false
      → to_turn e1 ≡ some t
      → e2.message ≡ some msg2
      → is_tool_result_only msg2 ≡ true
      → msg2.tool_results ≡ results
      → IdsDiffer results
      → AreAwaiting results t
      → poll to_turn (e1 ∷ e2 ∷ []) w ≡ (
        record {
          emitted_turns = stored_same t.id results t (insert t.id t w.emitted_turns);
          pending_tool_uses = removed_all results (track_uses t.id t.tool_uses w.pending_tool_uses);
        },
        turn_emitted (given_all results t) ∷ [],
      )
  unfolding poll poll_entries emit_updated
  poll_same e1 e2 msg1 msg2 results t w m1 own conv m2 only brought differ waits =
      let after : MergingWatcher = record {
        emitted_turns = insert t.id t w.emitted_turns;
        pending_tool_uses = track_uses t.id t.tool_uses w.pending_tool_uses;
      } in
      let first =
        poll_entries-step e1 (some msg1) (e2 ∷ []) w after [] (turn_emitted t ∷ []) m1
          (rw (own, conv) refl) in
      let merged =
        results_same results t after.emitted_turns after.pending_tool_uses differ waits
          (lookup-insert_self t.id t w.emitted_turns) in
      let second =
        poll_entries-step e2 (some msg2) [] after
          (record {
            emitted_turns = stored_same t.id results t after.emitted_turns;
            pending_tool_uses = removed_all results after.pending_tool_uses;
          })
          (turn_emitted t ∷ []) (turn_emitted (given_all results t) ∷ []) m2
          (rw (only, brought, merged) refl) in
      ap (λ (q : MergingWatcher × List WatcherEvent). (q.0, in_order q.1)) (first ∙ second)
