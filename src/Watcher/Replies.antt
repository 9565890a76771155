-- ===== src/Watcher/Replies.antt =====
-- A reply with the results of several tools of one turn, for packages/crab_city/src/ws/merging_watcher.rs:
-- what the turn becomes when the results go into it one by one.
use crabcity.Shared.{
  All, List, Option-cases, Text, [], ap, inl, inr, refl, some, sym, ◌∙◌, ◌∷◌, ◌≡◌, ◌≢◌,
}
use crabcity.Watcher.Results.{IsAwaiting, resolve_first-found, resolve_first-others}
use crabcity.Watcher.Turns.{
  ConvoTurn, ToolResult, ToolUse, find_use, has_use_id, or_same, resolve_first, store_result,
  update_delegation_results, with_result,
}

abbrev pub ToolResults : Type 0
ToolResults = List (Text × ToolResult)

-- No two results are for the same use.
abbrev pub IdsDiffer : ToolResults → Type 0
IdsDiffer [] = Unit
IdsDiffer (p ∷ results) = All (λ q. q.0 ≢ p.0) results × IdsDiffer results

-- Each result has a use in the turn that waits for it.
abbrev pub AreAwaiting : ToolResults → ConvoTurn → Type 0
AreAwaiting results t = All (λ p. (u : ToolUse) × IsAwaiting p.0 u t) results

-- The turn with the results put in, and the turn to which they come later, whose delegations are derived
-- again at each.
unfoldable pub given_all : ToolResults → ConvoTurn → ConvoTurn
given_all [] t = t
given_all (p ∷ results) t = given_all results (store_result p.0 p.1 t)

unfoldable pub late_all : ToolResults → ConvoTurn → ConvoTurn
late_all [] t = t
late_all (p ∷ results) t = late_all results (update_delegation_results (store_result p.0 p.1 t))

pub store_result-others :
    (id other_id : Text) (r : ToolResult) (t : ConvoTurn)
    → other_id ≢ id
    → find_use other_id (store_result id r t).tool_uses ≡ find_use other_id t.tool_uses
unfolding store_result
store_result-others id other_id r t ne =
    elim (Option-cases (resolve_first (has_use_id id) r t.tool_uses)) [
      | inl missing ↦ rw missing refl
      | inr (changed, e) ↦ rw e (resolve_first-others id other_id r t.tool_uses changed ne e)
    ]

store_result-own :
    (id : Text) (u : ToolUse) (r : ToolResult) (t : ConvoTurn)
    → find_use id t.tool_uses ≡ some u
    → find_use id (store_result id r t).tool_uses ≡ some (with_result r u)
unfolding store_result
store_result-own id u r t found =
    let (changed, is_changed, there) = resolve_first-found id r t.tool_uses u found in
    rw is_changed there

-- The other uses go on waiting.
pub still_awaiting :
    (id : Text) (r : ToolResult) (t next : ConvoTurn) (results : ToolResults)
    → next.tool_uses ≡ (store_result id r t).tool_uses
    → All (λ q. q.0 ≢ id) results
    → AreAwaiting results t
    → AreAwaiting results next
still_awaiting id r t next [] same differ h = tt
still_awaiting id r t next (q ∷ results) same differ h = (
  (h.0.0, (ap (find_use q.0) same ∙ (store_result-others id q.0 r t differ.0 ∙ h.0.1.0), h.0.1.1)),
  still_awaiting id r t next results same differ.1 h.1,
)

pub late_tool_uses :
    (id : Text) (r : ToolResult) (t : ConvoTurn)
    → (update_delegation_results (store_result id r t)).tool_uses ≡ (store_result id r t).tool_uses
unfolding update_delegation_results
late_tool_uses id r t = refl

-- The turns differ by the delegations only.
pub late_all-given :
    (results : ToolResults) (t u : ConvoTurn)
    → t.tool_uses ≡ u.tool_uses
    → (late_all results t).tool_uses ≡ (given_all results u).tool_uses
unfolding late_all given_all update_delegation_results store_result
late_all-given [] t u same = same
late_all-given (p ∷ results) t u same =
    late_all-given results (update_delegation_results (store_result p.0 p.1 t))
      (store_result p.0 p.1 u)
      (ap (λ uses. or_same uses (resolve_first (has_use_id p.0) p.1 uses)) same)

pub late_all-rest :
    (results : ToolResults) (t : ConvoTurn)
    → ((late_all results t).id ≡ t.id) × ((late_all results t).rest ≡ t.rest)
unfolding late_all update_delegation_results store_result
late_all-rest [] t = (refl, refl)
late_all-rest (p ∷ results) t =
    late_all-rest results (update_delegation_results (store_result p.0 p.1 t))

pub given_all-rest :
    (results : ToolResults) (t : ConvoTurn)
    → ((given_all results t).id ≡ t.id)
      × ((given_all results t).rest ≡ t.rest)
      × ((given_all results t).delegations ≡ t.delegations)
unfolding given_all store_result
given_all-rest [] t = (refl, refl, refl)
given_all-rest (p ∷ results) t = given_all-rest results (store_result p.0 p.1 t)

pub late_all-others :
    (results : ToolResults) (t : ConvoTurn) (other_id : Text)
    → All (λ p. other_id ≢ p.0) results
    → find_use other_id (late_all results t).tool_uses ≡ find_use other_id t.tool_uses
unfolding late_all
late_all-others [] t other_id h = refl
late_all-others (p ∷ results) t other_id h =
    late_all-others results (update_delegation_results (store_result p.0 p.1 t)) other_id h.1
    ∙ (ap (find_use other_id) (late_tool_uses p.0 p.1 t)
        ∙ store_result-others p.0 other_id p.1 t h.0)

-- What a use has after the results, by what it had before them.
abbrev pub AreResolved : ToolResults → ConvoTurn → ConvoTurn → Type 0
AreResolved results t late =
    All
      (λ p.
        (u : ToolUse) × (find_use p.0 t.tool_uses ≡ some u)
        × (find_use p.0 late.tool_uses ≡ some (with_result p.1 u)))
      results

turned :
    (id : Text) (results : ToolResults) → All (λ q. q.0 ≢ id) results → All (λ q. id ≢ q.0) results
turned id [] h = tt
turned id (q ∷ results) h = ((λ e. h.0 (sym e)), turned id results h.1)

resolved_before :
    (id : Text) (r : ToolResult) (t next late : ConvoTurn) (results : ToolResults)
    → next.tool_uses ≡ (store_result id r t).tool_uses
    → All (λ q. q.0 ≢ id) results
    → AreResolved results next late
    → AreResolved results t late
resolved_before id r t next late [] same differ h = tt
resolved_before id r t next late (q ∷ results) same differ h = (
  (
    h.0.0,
    sym (store_result-others id q.0 r t differ.0) ∙ (sym (ap (find_use q.0) same) ∙ h.0.1),
    h.0.2,
  ),
  resolved_before id r t next late results same differ.1 h.1,
)

pub late_all-AreResolved :
    (results : ToolResults) (t : ConvoTurn)
    → IdsDiffer results
    → AreAwaiting results t
    → AreResolved results t (late_all results t)
unfolding late_all
late_all-AreResolved [] t differ h = tt
late_all-AreResolved ((id, r) ∷ results) t differ h =
    let next = update_delegation_results (store_result id r t) in
    let uses = late_tool_uses id r t in
    (
      (
        h.0.0,
        h.0.1.0,
        late_all-others results next id (turned id results differ.0)
            ∙ (ap (find_use id) uses ∙ store_result-own id h.0.0 r t h.0.1.0),
      ),
      resolved_before id r t next (late_all results next) results uses differ.0 (
          late_all-AreResolved results next differ.1
            (still_awaiting id r t next results uses differ.0 h.1)),
    )
