-- ===== src/Gsm/Presence.antt =====
-- Presence (packages/crab_city/src/ws/state_manager.rs): which connection of which user looks at
-- which instance.
use crabcity.Gsm.State.{Connections, PresenceEntry, PresenceUser, WsUser}
use crabcity.Shared.{
  List, Text, [], contains_text, has_key, if◌then◌else◌, insert, is_empty, lookup, none, remove,
  some, values, ◌∷◌,
}

abbrev pub PresenceMap : Type 0
PresenceMap = List (Text × Connections)

-- The loop of `dedupe_presence`, with the user ids seen so far.
unfoldable pub dedupe_from : List Text → List PresenceEntry → List PresenceUser
dedupe_from seen [] = []
dedupe_from seen (entry ∷ entries) =
    let known = dedupe_from seen entries in
    let rest = dedupe_from (entry.user_id ∷ seen) entries in
    if contains_text entry.user_id seen
    then known
    else (record { user_id = entry.user_id; display_name = entry.display_name }) ∷ rest

unfoldable pub dedupe_presence : Connections → List PresenceUser
unfolding dedupe_from
dedupe_presence connections = dedupe_from [] (values connections)

abbrev pub connections_of : Text → PresenceMap → Connections
connections_of instance_id presence = elim (lookup instance_id presence) [
  | none ↦ []
  | some connections ↦ connections
]

unfoldable pub add_presence : Text → Text → WsUser → PresenceMap → PresenceMap × List PresenceUser
unfolding dedupe_presence
add_presence instance_id connection_id user presence =
    let entry : PresenceEntry = record {
      user_id = user.user_id;
      display_name = user.display_name;
    } in
    let connections = insert connection_id entry (connections_of instance_id presence) in
    (insert instance_id connections presence, dedupe_presence connections)

-- A map without the connections of an instance that has none left.
abbrev store_connections : Text → Connections → PresenceMap → PresenceMap
store_connections instance_id connections presence =
    if is_empty connections
    then remove instance_id presence
    else insert instance_id connections presence

unfoldable pub remove_presence_from_instance :
    Text → Text → PresenceMap → PresenceMap × List PresenceUser
unfolding dedupe_presence
remove_presence_from_instance instance_id connection_id presence =
    elim (lookup instance_id presence) [
      | none ↦ (presence, [])
      | some connections ↦ (
        store_connections instance_id (remove connection_id connections) presence,
        dedupe_presence (remove connection_id connections),
      )
    ]

-- The loop of `remove_presence_all`: the map without the connection and without the instances that
-- it leaves empty, and the updates in the order of the map.
unfoldable pub remove_presence_all :
    Text → PresenceMap → PresenceMap × List (Text × List PresenceUser)
unfolding dedupe_presence
remove_presence_all connection_id [] = ([], [])
remove_presence_all connection_id ((instance_id, connections) ∷ presence) =
    let (rest, updates) = remove_presence_all connection_id presence in
    let left = remove connection_id connections in
    if has_key connection_id connections
    then (
      if is_empty left then rest else (instance_id, left) ∷ rest,
      (instance_id, dedupe_presence left) ∷ updates,
    )
    else ((instance_id, connections) ∷ rest, updates)
