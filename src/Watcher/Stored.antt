-- ===== src/Watcher/Stored.antt =====
-- What packages/crab_city/src/ws/merging_watcher.rs keeps while the results of a reply go in: the turns,
-- and the uses that wait.
use crabcity.Auth.Texts.{eq_text_other, eq_text_self}
use crabcity.Shared.{
  All, List, Text, [], ap, arith, if◌then◌else◌, insert, lookup, lookup-insert_self, lookup-remove,
  none, remove, some, sym, ◌∙◌, ◌∷◌, ◌≡◌, ◌≢◌,
}
use crabcity.Watcher.Replies.{ToolResults, given_all, late_all}
use crabcity.Watcher.Turns.{ConvoTurn, store_result, update_delegation_results}

-- The uses that no longer wait.
unfoldable pub removed_all : ToolResults → List (Text × Text) → List (Text × Text)
removed_all [] pending = pending
removed_all (p ∷ results) pending = removed_all results (remove p.0 pending)

removed-none :
    (results : ToolResults) (id : Text) (pending : List (Text × Text))
    → lookup id pending ≡ none
    → lookup id (removed_all results pending) ≡ none
unfolding removed_all
removed-none [] id pending e = e
removed-none (p ∷ results) id pending e =
    removed-none results id (remove p.0 pending) (ground (arith, e, lookup-remove p.0 id pending))

pub removed_all-clears :
    (results : ToolResults) (pending : List (Text × Text))
    → All (λ p. lookup p.0 (removed_all results pending) ≡ none) results
unfolding removed_all
removed_all-clears [] pending = tt
removed_all-clears (p ∷ results) pending = (
  removed-none results p.0 (remove p.0 pending) (
      lookup-remove p.0 p.0 pending
      ∙ ap (λ b. if b then none else lookup p.0 pending) (eq_text_self p.0)),
  removed_all-clears results (remove p.0 pending),
)

-- Each result waits for a turn.
abbrev pub ArePending : Text → ToolResults → List (Text × Text) → Type 0
ArePending turn_id results pending = All (λ p. lookup p.0 pending ≡ some turn_id) results

pub still_pending :
    (id turn_id : Text) (results : ToolResults) (pending : List (Text × Text))
    → All (λ q. q.0 ≢ id) results
    → ArePending turn_id results pending
    → ArePending turn_id results (remove id pending)
still_pending id turn_id [] pending differ h = tt
still_pending id turn_id (q ∷ results) pending differ h = (
  lookup-remove id q.0 pending
      ∙ (ap (λ b. if b then none else lookup q.0 pending)
            (eq_text_other id q.0 (λ e. differ.0 (sym e)))
          ∙ h.0),
  still_pending id turn_id results pending differ.1 h.1,
)

-- The turns that are kept while the results of a late reply go into one of them.
unfoldable pub stored_late :
    Text → ToolResults → ConvoTurn → List (Text × ConvoTurn) → List (Text × ConvoTurn)
stored_late turn_id [] t turns = turns
stored_late turn_id (p ∷ results) t turns =
    let next = update_delegation_results (store_result p.0 p.1 t) in
    stored_late turn_id results next (insert turn_id next turns)

-- And while they go into one of the same poll.
unfoldable pub stored_same :
    Text → ToolResults → ConvoTurn → List (Text × ConvoTurn) → List (Text × ConvoTurn)
stored_same turn_id [] t turns = turns
stored_same turn_id (p ∷ results) t turns =
    let next = store_result p.0 p.1 t in
    stored_same turn_id results next (insert turn_id next turns)

pub lookup-stored_late :
    (turn_id : Text) (results : ToolResults) (t : ConvoTurn) (turns : List (Text × ConvoTurn))
    → lookup turn_id turns ≡ some t
    → lookup turn_id (stored_late turn_id results t turns) ≡ some (late_all results t)
unfolding stored_late late_all
lookup-stored_late turn_id [] t turns e = e
lookup-stored_late turn_id (p ∷ results) t turns e =
    let next = update_delegation_results (store_result p.0 p.1 t) in
    lookup-stored_late turn_id results next (insert turn_id next turns)
      (lookup-insert_self turn_id next turns)

pub lookup-stored_same :
    (turn_id : Text) (results : ToolResults) (t : ConvoTurn) (turns : List (Text × ConvoTurn))
    → lookup turn_id turns ≡ some t
    → lookup turn_id (stored_same turn_id results t turns) ≡ some (given_all results t)
unfolding stored_same given_all
lookup-stored_same turn_id [] t turns e = e
lookup-stored_same turn_id (p ∷ results) t turns e =
    let next = store_result p.0 p.1 t in
    lookup-stored_same turn_id results next (insert turn_id next turns)
      (lookup-insert_self turn_id next turns)
