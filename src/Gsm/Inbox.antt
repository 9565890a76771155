-- ===== src/Gsm/Inbox.antt =====
-- The inbox watcher: `start_inbox_watcher` of packages/crab_city/src/ws/state_manager.rs, over the
-- table of packages/crab_city/src/repository/inbox.rs. The table has one row for an instance (its
-- primary key); a query that fails is not modelled. Row times are in seconds.
use crabcity.Inference.State
use crabcity.Inference.State.{ClaudeState, is_active, is_idle, is_waiting}
use crabcity.Shared.{
  Bool, List, Option, Text, false, has_key, holds, if◌then◌else◌, insert, lookup, none, not, remove,
  some, true, ℕ, ◌%◌, ◌&&◌, ◌+◌, ◌/◌,
}

pub data EventType : Type 0 where
  completed_turn needs_input : EventType

pub EventType-discrete : Discrete EventType
EventType-discrete = hlevel

-- `n + 1` on the bits of an `i32`, which wraps around in a release build.
abbrev i32_succ : ℕ → ℕ
i32_succ n = (n + 1) % 4294967296

-- An item of the inbox; `turn_count` is an `i32`, given by its 32 bits.
pub record InboxItem : Type 0 where
  pub event_type : EventType
  pub turn_count : ℕ
  pub created_at : ℕ
  pub updated_at : ℕ
  pub metadata_json : Option Text

abbrev pub Inbox : Type 0
Inbox = List (Text × InboxItem)

-- `COALESCE(a, b)`.
abbrev coalesce : Option Text → Option Text → Option Text
coalesce none b = b
coalesce (some a) b = some a

-- The row that `upsert_inbox_item` leaves, given the row that it finds.
unfoldable pub upserted : ℕ → EventType → Option Text → Option InboxItem → InboxItem
upserted now event_type metadata none = record {
  event_type = event_type;
  turn_count = 1;
  created_at = now;
  updated_at = now;
  metadata_json = metadata;
}
upserted now event_type metadata (some row) =
    if holds (EventType-discrete row.event_type completed_turn)
      && holds (EventType-discrete event_type completed_turn)
    then record row {
      turn_count = i32_succ row.turn_count;
      updated_at = now;
      metadata_json = coalesce metadata row.metadata_json;
    }
    else record {
      event_type = event_type;
      turn_count = 1;
      created_at = now;
      updated_at = now;
      metadata_json = metadata;
    }

unfoldable pub upsert_inbox_item : ℕ → Text → EventType → Option Text → Inbox → Inbox
unfolding upserted
upsert_inbox_item now instance_id event_type metadata inbox =
    insert instance_id (upserted now event_type metadata (lookup instance_id inbox)) inbox

unfoldable pub dismiss_inbox_item : Text → Inbox → Inbox × Bool
dismiss_inbox_item instance_id inbox = (remove instance_id inbox, has_key instance_id inbox)

unfoldable pub clear_inbox_by_type : Text → EventType → Inbox → Inbox × Bool
clear_inbox_by_type instance_id event_type inbox = elim (lookup instance_id inbox) [
  | none ↦ (inbox, false)
  | some row ↦
      if holds (EventType-discrete row.event_type event_type)
      then (remove instance_id inbox, true)
      else (inbox, false)
]

-- `std::mem::discriminant`.
unfoldable pub same_discriminant : ClaudeState → ClaudeState → Bool
same_discriminant State.initializing State.initializing = true
same_discriminant State.starting State.starting = true
same_discriminant State.idle State.idle = true
same_discriminant State.thinking State.thinking = true
same_discriminant State.responding State.responding = true
same_discriminant (State.tool_executing a) (State.tool_executing b) = true
same_discriminant (State.waiting_for_input a) (State.waiting_for_input b) = true
same_discriminant _ _ = false

-- What the watcher holds and writes: the previous states are its own, the times of entry are the
-- state manager's, and the inbox is the database's.
pub record Watch : Type 0 where
  pub prev_states : List (Text × ClaudeState)
  pub state_entered_at : List (Text × ℕ)
  pub inbox : Inbox

-- `serde_json` prints the metadata of a prompt: the argument `print`.
abbrev pub metadata_of : (Text → Text) → ClaudeState → Option Text
metadata_of print (State.waiting_for_input (some prompt)) = some (print prompt)
metadata_of print _ = none

-- The four transitions, in the order of the code.
unfoldable pub on_completed : ℕ → Text → ClaudeState → ClaudeState → Inbox → Inbox
on_completed now i prev state inbox =
    if is_active prev && is_idle state
    then upsert_inbox_item now i completed_turn none inbox
    else inbox

unfoldable pub on_needs_input : (Text → Text) → ℕ → Text → ClaudeState → ClaudeState → Inbox → Inbox
on_needs_input print now i prev state inbox =
    if is_waiting state && not (is_waiting prev)
    then upsert_inbox_item now i needs_input (metadata_of print state) inbox
    else inbox

unfoldable pub on_responded : Text → ClaudeState → ClaudeState → Inbox → Inbox
on_responded i prev state inbox =
    if is_waiting prev && not (is_waiting state)
    then (clear_inbox_by_type i needs_input inbox).0
    else inbox

unfoldable pub on_new_work : Text → ClaudeState → ClaudeState → Inbox → Inbox
on_new_work i prev state inbox =
    if not (is_active prev) && is_active state
    then (clear_inbox_by_type i completed_turn inbox).0
    else inbox

unfoldable pub transition : (Text → Text) → ℕ → Text → ClaudeState → ClaudeState → Inbox → Inbox
transition print now i prev state inbox = on_new_work i prev state (
    on_responded i prev state
      (on_needs_input print now i prev state (on_completed now i prev state inbox)))

-- One broadcast state of an instance. The inbox broadcasts to the clients are not modelled.
unfoldable pub observe : (Text → Text) → ℕ → Text → ClaudeState → Watch → Watch
observe print now i state w = elim (lookup i w.prev_states) [
  | none ↦ record w {
    prev_states = insert i state w.prev_states;
    state_entered_at = insert i now w.state_entered_at;
  }
  | some prev ↦ record w {
    prev_states = insert i state w.prev_states;
    state_entered_at =
        if same_discriminant prev state
        then w.state_entered_at
        else insert i now w.state_entered_at;
    inbox = transition print (now / 1000000000) i prev state w.inbox;
  }
]
