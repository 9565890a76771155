-- ===== src/Attribution/Queue.antt =====
-- The pending attributions of each instance: `push_pending_attribution` of
-- packages/crab_city/src/ws/state_manager.rs and `consume_pending_attribution` of
-- packages/crab_city/src/handlers/conversations/format.rs. Times are in nanoseconds.
use crabcity.Attribution.Content.{attribution_content_matches, normalize_attribution_content}
use crabcity.Shared.{
  Bool, List, Option, Text, [], if◌then◌else◌, insert, is_empty, length, lookup, ltb, none, retain,
  some, ℕ, ◌*◌, ◌++◌, ◌+◌, ◌∷◌,
}

pub record PendingAttribution : Type 0 where
  pub user_id : Text
  pub display_name : Text
  pub content_prefix : Text
  pub timestamp : ℕ
  pub task_id : Option ℕ

-- The queues by instance id, each from the oldest to the newest.
abbrev pub Queues : Type 0
Queues = List (Text × List PendingAttribution)

-- `while queue.len() > 50 { queue.pop_front(); }`
unfoldable pub cap_queue : List PendingAttribution → List PendingAttribution
cap_queue [] = []
cap_queue (a ∷ queue) =
    let rest = cap_queue queue in if ltb 50 (length (a ∷ queue)) then rest else a ∷ queue

unfoldable pub queue_of : Text → Queues → List PendingAttribution
queue_of instance_id queues = elim (lookup instance_id queues) [ none ↦ [] | some queue ↦ queue ]

-- The entry that a user's input leaves in the queue.
abbrev pub typed : ℕ → Text → Text → Text → Option ℕ → PendingAttribution
typed now user_id display_name content task_id = record {
  user_id = user_id;
  display_name = display_name;
  content_prefix = normalize_attribution_content content;
  timestamp = now;
  task_id = task_id;
}

unfoldable pub push_pending_attribution : ℕ → Text → Text → Text → Text → Option ℕ → Queues → Queues
unfolding cap_queue
push_pending_attribution now instance_id user_id display_name content task_id queues =
    if is_empty (normalize_attribution_content content)
    then queues
    else insert instance_id
        (cap_queue
          (queue_of instance_id queues ++ typed now user_id display_name content task_id ∷ []))
        queues

-- `queue.iter().position(..)` and `queue.remove(idx)`: the first match, and the queue without it.
unfoldable pub take_match :
    Text → List PendingAttribution → Option (PendingAttribution × List PendingAttribution)
take_match content [] = none
take_match content (a ∷ queue) =
    let later = take_match content queue in
    if attribution_content_matches a.content_prefix content
    then some (a, queue)
    else (elim later [ none ↦ none | some (found, rest) ↦ some (found, a ∷ rest) ])

-- `attr.timestamp > now - 60 s`, with the subtraction moved to the other side.
abbrev pub is_fresh : ℕ → PendingAttribution → Bool
is_fresh now a = ltb now (a.timestamp + 60 * 1000000000)

unfoldable pub consume_from :
    ℕ → Text → Text → List PendingAttribution → Queues → Queues × Option PendingAttribution
unfolding take_match
consume_from now instance_id content queue queues = elim (take_match content queue) [
  | some (found, rest) ↦ (insert instance_id rest queues, some found)
  | none ↦ (insert instance_id (retain (is_fresh now) queue) queues, none)
]

unfoldable pub consume_pending_attribution :
    ℕ → Text → Text → Queues → Queues × Option PendingAttribution
unfolding consume_from
consume_pending_attribution now instance_id entry_content queues =
    if is_empty (normalize_attribution_content entry_content)
    then (queues, none)
    else (elim (lookup instance_id queues) [
      | none ↦ (queues, none)
      | some queue ↦ consume_from now instance_id entry_content queue queues
    ])
