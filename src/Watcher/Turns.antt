-- ===== src/Watcher/Turns.antt =====
-- The turns and entries of a conversation as packages/crab_city/src/ws/merging_watcher.rs uses them.
-- Entries and their conversion are of the packages toolpath-claude and toolpath-convo: a turn has the
-- fields that the code reads or writes, and `rest` for the others.
use crabcity.Shared.{
  Bool, List, Option, Text, [], eq_text, false, if◌then◌else◌, is_empty, map, none, not, some, true,
  ◌&&◌, ◌∷◌,
}

pub record ToolResult : Type 0 where
  pub content : Text
  pub is_error : Bool

pub record ToolUse : Type 0 where
  pub id : Text
  pub result : Option ToolResult

pub record Delegation : Type 0 where
  pub agent_id : Text
  pub result : Option Text

pub record ConvoTurn : Type 0 where
  pub id : Text
  pub tool_uses : List ToolUse
  pub delegations : List Delegation
  pub rest : Text

-- The message of an entry: whether a user sent it, its text, and the results in it by the ids of their
-- uses.
pub record WatchedMessage : Type 0 where
  pub from_user : Bool
  pub written : Text
  pub tool_results : List (Text × ToolResult)

pub record WatchedEntry : Type 0 where
  pub uuid : Text
  pub message : Option WatchedMessage

pub data WatcherEvent : Type 0 where
  turn_emitted : ConvoTurn → WatcherEvent
  turn_updated : ConvoTurn → WatcherEvent
  progressed : WatchedEntry → WatcherEvent

pub record MergingWatcher : Type 0 where
  pub emitted_turns : List (Text × ConvoTurn)
  pub pending_tool_uses : List (Text × Text)

abbrev pub new_watcher : MergingWatcher
new_watcher = record { emitted_turns = []; pending_tool_uses = [] }

unfoldable pub is_tool_result_only : WatchedMessage → Bool
is_tool_result_only msg = msg.from_user && (is_empty msg.written && not (is_empty msg.tool_results))

abbrev pub is_unresolved : ToolUse → Bool
is_unresolved u = elim u.result [ none ↦ true | some r ↦ false ]

abbrev pub with_result : ToolResult → ToolUse → ToolUse
with_result r u = record u { result = some r }

-- The first use that passes a test gets the result; `none` if no use does.
unfoldable pub resolve_first : (ToolUse → Bool) → ToolResult → List ToolUse → Option (List ToolUse)
resolve_first p r [] = none
resolve_first p r (u ∷ uses) =
    let later = resolve_first p r uses in
    if p u
    then some (with_result r u ∷ uses)
    else elim later [ none ↦ none | some changed ↦ some (u ∷ changed) ]

abbrev pub awaits : Text → ToolUse → Bool
awaits tool_use_id u = eq_text u.id tool_use_id && is_unresolved u

abbrev pub has_use_id : Text → ToolUse → Bool
has_use_id tool_use_id u = eq_text u.id tool_use_id

abbrev pub or_same {ℓ} : {A : Type ℓ} → A → Option A → A
or_same a none = a
or_same a (some b) = b

-- The use with an id gets the result, whether or not it had one.
unfoldable pub store_result : Text → ToolResult → ConvoTurn → ConvoTurn
unfolding resolve_first
store_result tool_use_id r t = record t {
  tool_uses = or_same t.tool_uses (resolve_first (has_use_id tool_use_id) r t.tool_uses);
}

unfoldable pub find_use : Text → List ToolUse → Option ToolUse
find_use agent_id [] = none
find_use agent_id (u ∷ uses) =
    let later = find_use agent_id uses in if eq_text u.id agent_id then some u else later

abbrev pub content_of : Option ToolUse → Option Text
content_of none = none
content_of (some u) = elim u.result [ none ↦ none | some r ↦ some r.content ]

abbrev pub derived : List ToolUse → Delegation → Delegation
derived uses d = elim d.result [
  | some content ↦ d
  | none ↦ record d { result = content_of (find_use d.agent_id uses) }
]

unfoldable pub update_delegation_results : ConvoTurn → ConvoTurn
unfolding find_use
update_delegation_results t = record t { delegations = map (derived t.tool_uses) t.delegations }
