-- ===== src/Watcher/Arrivals.antt =====
-- A turn with tools in use, and a reply with results of them, in two polls or in one:
-- packages/crab_city/src/ws/merging_watcher.rs.
use crabcity.Shared.{
  All, List, Option, Text, [], ap, false, insert, lookup, lookup-insert_self, map, none, refl, some,
  subst, sym, true, ◌∙◌, ◌∷◌, ◌≡◌, ◌≢◌,
}
use crabcity.Watcher.Delegated.{given_all-AreResolved, late_all-delegations, late_all-given_all}
use crabcity.Watcher.Merging.{poll, track_uses}
use crabcity.Watcher.Polls.{poll_late, poll_same, poll_turn}
use crabcity.Watcher.Replies.{
  AreAwaiting, AreResolved, IdsDiffer, ToolResults, given_all, given_all-rest, late_all,
  late_all-AreResolved, late_all-others, late_all-rest,
}
use crabcity.Watcher.Results.{track_uses-awaiting}
use crabcity.Watcher.Stored.{
  ArePending, lookup-stored_late, lookup-stored_same, removed_all-clears, removed_all, stored_late,
}
use crabcity.Watcher.Turns.{
  ConvoTurn, MergingWatcher, ToolResult, ToolUse, WatchedEntry, WatchedMessage, WatcherEvent,
  derived, find_use, is_tool_result_only, turn_emitted, turn_updated, update_delegation_results,
  with_result,
}

-- A turn that differs from another by the results of some uses, and by what is derived of the results
-- for its delegations.
pub record IsResolved (results : ToolResults) (t late : ConvoTurn) : Type 0 where
  pub same_id : late.id ≡ t.id
  pub same_rest : late.rest ≡ t.rest
  pub resolved :
      All
        (λ p.
          (u : ToolUse) × (find_use p.0 t.tool_uses ≡ some u)
          × (find_use p.0 late.tool_uses ≡ some (with_result p.1 u)))
        results
  pub others :
      (other_id : Text)
      → All (λ p. other_id ≢ p.0) results
      → find_use other_id late.tool_uses ≡ find_use other_id t.tool_uses
  pub delegated : late.delegations ≡ map (derived late.tool_uses) t.delegations

-- A message of the conversation with its turn, and one that brings only results of tools that wait in
-- the turn, each of its own.
pub record Arrive (to_turn : WatchedEntry → Option ConvoTurn) (e1 e2 : WatchedEntry) (t : ConvoTurn)
    (p : Text × ToolResult) (results : ToolResults) : Type 0 where
  pub own : WatchedMessage
  pub reply : WatchedMessage
  pub sent : e1.message ≡ some own
  pub is_own : is_tool_result_only own ≡ false
  pub converted : to_turn e1 ≡ some t
  pub replied : e2.message ≡ some reply
  pub only_results : is_tool_result_only reply ≡ true
  pub its_results : reply.tool_results ≡ p ∷ results
  pub differ : IdsDiffer (p ∷ results)
  pub awaiting : AreAwaiting (p ∷ results) t

are_pending :
    (turn_id : Text) (results : ToolResults) (t : ConvoTurn) (pending : List (Text × Text))
    → AreAwaiting results t
    → ArePending turn_id results (track_uses turn_id t.tool_uses pending)
are_pending turn_id [] t pending h = tt
are_pending turn_id (q ∷ results) t pending h = (
  track_uses-awaiting q.0 turn_id t.tool_uses h.0.0 pending h.0.1.0 h.0.1.1,
  are_pending turn_id results t pending h.1,
)

module _ (to_turn : WatchedEntry → Option ConvoTurn) (w : MergingWatcher) (e1 e2 : WatchedEntry)
    (t : ConvoTurn) (p : Text × ToolResult) (results : ToolResults) where
  abbrev pub after_turn : MergingWatcher
  after_turn = record {
    emitted_turns = insert t.id t w.emitted_turns;
    pending_tool_uses = track_uses t.id t.tool_uses w.pending_tool_uses;
  }

  abbrev pub late_turn : ConvoTurn
  late_turn = late_all (p ∷ results) t

  polled_late :
      Arrive to_turn e1 e2 t p results
      → poll to_turn (e2 ∷ []) after_turn ≡ (
        record {
          emitted_turns = stored_late t.id (p ∷ results) t after_turn.emitted_turns;
          pending_tool_uses = removed_all (p ∷ results) after_turn.pending_tool_uses;
        },
        turn_updated late_turn ∷ [],
      )
  polled_late a =
      poll_late to_turn e2 a.reply t.id p results t after_turn a.replied a.only_results
        a.its_results a.differ (are_pending t.id (p ∷ results) t w.pending_tool_uses a.awaiting)
        (lookup-insert_self t.id t w.emitted_turns)

  -- Results that come in the poll after their uses are not lost. In a poll with only the entry of a turn,
  -- and a next one with only a reply, of results for different uses of the turn that wait, the turn is
  -- reported once when it comes, and once more with all the results in it, with nothing else of it
  -- changed but what is derived for its delegations. The watcher keeps the turn as it was last
  -- reported, and none of these uses waits any longer.
  pub poll-late_result :
      Arrive to_turn e1 e2 t p results
      → let first = poll to_turn (e1 ∷ []) w in
        let second = poll to_turn (e2 ∷ []) first.0 in
        (late : ConvoTurn) × (first.1 ≡ turn_emitted t ∷ [])
        × (second.1 ≡ turn_updated late ∷ [])
        × IsResolved (p ∷ results) t late
        × (lookup t.id second.0.emitted_turns ≡ some late)
        × All (λ q. lookup q.0 second.0.pending_tool_uses ≡ none) (p ∷ results)
  poll-late_result a =
      let first = poll_turn to_turn e1 a.own t w a.sent a.is_own a.converted in
      let second = polled_late a in
      (
        late_turn,
        rw first refl,
        rw (first, second) refl,
        record {
          same_id = (late_all-rest (p ∷ results) t).0;
          same_rest = (late_all-rest (p ∷ results) t).1;
          resolved = late_all-AreResolved (p ∷ results) t a.differ a.awaiting;
          others = λ other_id h. late_all-others (p ∷ results) t other_id h;
          delegated = late_all-delegations p results t a.differ a.awaiting;
        },
        rw (first, second)
            (lookup-stored_late t.id (p ∷ results) t after_turn.emitted_turns
              (lookup-insert_self t.id t w.emitted_turns)),
        subst (λ (x : List (Text × Text)). All (λ q. lookup q.0 x ≡ none) (p ∷ results))
            (sym (
              ap (λ (q : MergingWatcher × List WatcherEvent). q.0.pending_tool_uses)
                (ap (λ (q : MergingWatcher × List WatcherEvent). poll to_turn (e2 ∷ []) q.0) first
                  ∙ second)))
            (removed_all-clears (p ∷ results) after_turn.pending_tool_uses),
      )

  -- Results that come in the same poll as their uses, one with only the entry of the turn and the reply,
  -- are put into the turn before the turn is reported, and the same uses wait afterwards as if they
  -- had come in the next poll. The turn that is reported and kept is the one that two polls lead to,
  -- except for its delegations: the same poll leaves them as they came, and only the later one derives
  -- their results. The reply has results for different uses of the turn that wait, and nothing else.
  pub poll-same_or_later :
      Arrive to_turn e1 e2 t p results
      → let once = poll to_turn (e1 ∷ e2 ∷ []) w in
        let twice = poll to_turn (e2 ∷ []) (poll to_turn (e1 ∷ []) w).0 in
        (kept : ConvoTurn) × (once.1 ≡ turn_emitted kept ∷ [])
        × (twice.1 ≡ turn_updated (update_delegation_results kept) ∷ [])
        × (lookup t.id once.0.emitted_turns ≡ some kept)
        × (lookup t.id twice.0.emitted_turns ≡ some (update_delegation_results kept))
        × (once.0.pending_tool_uses ≡ twice.0.pending_tool_uses)
        × (kept.delegations ≡ t.delegations)
        × AreResolved (p ∷ results) t kept
  poll-same_or_later a =
      let all = p ∷ results in
      let first = poll_turn to_turn e1 a.own t w a.sent a.is_own a.converted in
      let second = polled_late a in
      let same =
        poll_same to_turn e1 e2 a.own a.reply all t w a.sent a.is_own a.converted a.replied
          a.only_results a.its_results a.differ a.awaiting in
      let both : poll to_turn (e2 ∷ []) (poll to_turn (e1 ∷ []) w).0
          ≡ poll to_turn (e2 ∷ []) after_turn =
        ap (λ (q : MergingWatcher × List WatcherEvent). poll to_turn (e2 ∷ []) q.0) first in
      let late = late_all-given_all p results t a.differ a.awaiting in
      let kept = lookup-insert_self t.id t w.emitted_turns in
      (
        given_all all t,
        ap (λ (q : MergingWatcher × List WatcherEvent). q.1) same,
        ap (λ (q : MergingWatcher × List WatcherEvent). q.1) (both ∙ second)
            ∙ ap (λ (x : ConvoTurn). turn_updated x ∷ []) late,
        ap (λ (q : MergingWatcher × List WatcherEvent). lookup t.id q.0.emitted_turns) same
            ∙ lookup-stored_same t.id all t after_turn.emitted_turns kept,
        ap (λ (q : MergingWatcher × List WatcherEvent). lookup t.id q.0.emitted_turns)
              (both ∙ second)
            ∙ (lookup-stored_late t.id all t after_turn.emitted_turns kept
                ∙ ap (λ (x : ConvoTurn). some x) late),
        ap (λ (q : MergingWatcher × List WatcherEvent). q.0.pending_tool_uses) same
            ∙ sym (
                ap (λ (q : MergingWatcher × List WatcherEvent). q.0.pending_tool_uses)
                  (both ∙ second)),
        (given_all-rest all t).2,
        given_all-AreResolved all t a.differ a.awaiting,
      )
