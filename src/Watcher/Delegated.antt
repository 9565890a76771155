-- ===== src/Watcher/Delegated.antt =====
-- The delegations of a turn after several results, for packages/crab_city/src/ws/merging_watcher.rs: to
-- derive them at each result is to derive them once at the end.
use crabcity.Shared.{List, Option, Text, [], ap, map, none, refl, some, sym, ◌∙◌, ◌∷◌, ◌≡◌, ◌≢◌}
use crabcity.Watcher.Replies.{
  AreAwaiting, AreResolved, IdsDiffer, ToolResults, given_all, given_all-rest, late_all,
  late_all-AreResolved, late_all-given, late_all-rest, late_tool_uses, still_awaiting,
  store_result-others,
}
use crabcity.Watcher.Results.{IsAwaiting}
use crabcity.Watcher.Turns.{
  ConvoTurn, Delegation, ToolResult, ToolUse, content_of, derived, find_use, store_result,
  update_delegation_results,
}

-- What has a content keeps it.
abbrev pub Extends : List ToolUse → List ToolUse → Type 0
Extends uses later =
    (a content : Text)
    → content_of (find_use a uses) ≡ some content
    → content_of (find_use a later) ≡ some content

derived-derived :
    (uses later : List ToolUse) (d : Delegation)
    → Extends uses later
    → derived later (derived uses d) ≡ derived later d
derived-derived uses later d h = go d.result refl
  where
    fills :
        (o : Option Text)
        → content_of (find_use d.agent_id uses) ≡ o
        → derived later (record d { result = o })
          ≡ record d { result = content_of (find_use d.agent_id later) }
    fills none e = refl
    fills (some content) e = ap (λ x. record d { result = x }) (sym (h d.agent_id content e))

    go : (o : Option Text) → d.result ≡ o → derived later (derived uses d) ≡ derived later d
    go (some content) e = ap (derived later) (
        ap
          (λ q. elim q [
            | some c ↦ d
            | none ↦ record d { result = content_of (find_use d.agent_id uses) }
          ])
          e)
    go none e =
        ap (derived later) (
          ap
            (λ q. elim q [
              | some c ↦ d
              | none ↦ record d { result = content_of (find_use d.agent_id uses) }
            ])
            e)
        ∙ (fills (content_of (find_use d.agent_id uses)) refl
            ∙ sym (
                ap
                  (λ q. elim q [
                    | some c ↦ d
                    | none ↦ record d { result = content_of (find_use d.agent_id later) }
                  ])
                  e))

map-derived :
    (uses later : List ToolUse) (ds : List Delegation)
    → Extends uses later
    → map (derived later) (map (derived uses) ds) ≡ map (derived later) ds
map-derived uses later [] h = refl
map-derived uses later (d ∷ ds) h =
    ap (λ x. x ∷ map (derived later) (map (derived uses) ds)) (derived-derived uses later d h)
    ∙ ap (◌∷◌ (derived later d)) (map-derived uses later ds h)

nothing_yet :
    (id : Text) (u : ToolUse) (t : ConvoTurn)
    → IsAwaiting id u t
    → content_of (find_use id t.tool_uses) ≡ none
nothing_yet id u t (found, waits) =
    ap content_of found
    ∙ ap (λ (o : Option ToolResult). elim o [ none ↦ none | some r ↦ some r.content ]) waits

late_all-Extends :
    (results : ToolResults) (t : ConvoTurn)
    → IdsDiffer results
    → AreAwaiting results t
    → Extends t.tool_uses (late_all results t).tool_uses
unfolding late_all
late_all-Extends [] t differ h a content e = e
late_all-Extends ((id, r) ∷ results) t differ h a content e =
    let next = update_delegation_results (store_result id r t) in
    let apart : a ≢ id = λ same.
      let q = ap (λ x. content_of (find_use x t.tool_uses)) same ∙ nothing_yet id h.0.0 t h.0.1 in
      cc in
    late_all-Extends results next differ.1
      (still_awaiting id r t next results (late_tool_uses id r t) differ.0 h.1) a content
      (ap (λ uses. content_of (find_use a uses)) (late_tool_uses id r t)
        ∙ (ap content_of (store_result-others id a r t apart) ∙ e))

-- The delegations are derived from the uses with all results.
pub late_all-delegations :
    (p : Text × ToolResult) (results : ToolResults) (t : ConvoTurn)
    → IdsDiffer (p ∷ results)
    → AreAwaiting (p ∷ results) t
    → (late_all (p ∷ results) t).delegations
      ≡ map (derived (late_all (p ∷ results) t).tool_uses) t.delegations
unfolding late_all update_delegation_results store_result
late_all-delegations p [] t differ h = refl
late_all-delegations (id, r) (q ∷ results) t differ h =
    let next = update_delegation_results (store_result id r t) in
    let waits = still_awaiting id r t next (q ∷ results) (late_tool_uses id r t) differ.0 h.1 in
    late_all-delegations q results next differ.1 waits
    ∙ map-derived next.tool_uses (late_all (q ∷ results) next).tool_uses t.delegations
        (late_all-Extends (q ∷ results) next differ.1 waits)

same_turn :
    (t u : ConvoTurn)
    → t.id ≡ u.id
    → t.tool_uses ≡ u.tool_uses
    → t.delegations ≡ u.delegations
    → t.rest ≡ u.rest
    → t ≡ u
same_turn t u a b c d =
    ap (λ x. record t { id = x }) a
    ∙ (ap (λ x. record t { id = u.id; tool_uses = x }) b
        ∙ (ap (λ x. record t { id = u.id; tool_uses = u.tool_uses; delegations = x }) c
            ∙ ap (λ x. record u { rest = x }) d))

-- A reply that comes later leads to the turn that one in the same poll leads to, with its delegations
-- derived.
pub late_all-given_all :
    (p : Text × ToolResult) (results : ToolResults) (t : ConvoTurn)
    → IdsDiffer (p ∷ results)
    → AreAwaiting (p ∷ results) t
    → late_all (p ∷ results) t ≡ update_delegation_results (given_all (p ∷ results) t)
unfolding update_delegation_results
late_all-given_all p results t differ h =
    let all = p ∷ results in
    let uses = late_all-given all t t refl in
    let (late_id, late_rest) = late_all-rest all t in
    let (given_id, given_rest, kept) = given_all-rest all t in
    same_turn (late_all all t) (update_delegation_results (given_all all t))
      (late_id ∙ sym given_id) uses
      (late_all-delegations p results t differ h
        ∙ (ap (λ x. map (derived x) t.delegations) uses
            ∙ ap (map (derived (given_all all t).tool_uses)) (sym kept)))
      (late_rest ∙ sym given_rest)

resolved_as :
    (results : ToolResults) (t late kept : ConvoTurn)
    → late.tool_uses ≡ kept.tool_uses
    → AreResolved results t late
    → AreResolved results t kept
resolved_as [] t late kept same h = tt
resolved_as (q ∷ results) t late kept same h =
    ((h.0.0, h.0.1, sym (ap (find_use q.0) same) ∙ h.0.2), resolved_as results t late kept same h.1)

-- Each result is in the turn that got them in the same poll.
pub given_all-AreResolved :
    (results : ToolResults) (t : ConvoTurn)
    → IdsDiffer results
    → AreAwaiting results t
    → AreResolved results t (given_all results t)
given_all-AreResolved results t differ h =
    resolved_as results t (late_all results t) (given_all results t)
      (late_all-given results t t refl) (late_all-AreResolved results t differ h)
