-- ===== src/Gsm/Attendance.antt =====
-- Laws of the presence (packages/crab_city/src/ws/state_manager.rs).
use crabcity.Gsm.Presence.{
  PresenceMap, add_presence, connections_of, dedupe_from, dedupe_presence, remove_presence_all,
  remove_presence_from_instance,
}
use crabcity.Gsm.State.{Connections, PresenceEntry, PresenceUser, WsUser}
use crabcity.Shared.{
  All, Bool-cases, List, Option-cases, Text, [], arith, contains_text, false, has_key, inl, inr,
  insert, is_empty, keys, lookup, map, not, refl, remove, retain_values, values, ◌&&◌, ◌∷◌, ◌≡◌,
}

abbrev pub user_ids : List PresenceUser → List Text
user_ids = map (λ u. u.user_id)

abbrev pub AllDistinct : List Text → Type 0
AllDistinct [] = Unit
AllDistinct (t ∷ ts) = (contains_text t ts ≡ false) × AllDistinct ts

dedupe_from-contains :
    (u : Text) (seen : List Text) (entries : List PresenceEntry)
    → contains_text u (user_ids (dedupe_from seen entries))
      ≡ (contains_text u (map (λ e. e.user_id) entries) && not (contains_text u seen))
unfolding dedupe_from
dedupe_from-contains u seen [] = refl
dedupe_from-contains u seen (entry ∷ entries) = ground (
  arith,
  dedupe_from-contains u seen entries,
  dedupe_from-contains u (entry.user_id ∷ seen) entries,
)

dedupe_from-distinct :
    (seen : List Text) (entries : List PresenceEntry)
    → AllDistinct (user_ids (dedupe_from seen entries))
unfolding dedupe_from
dedupe_from-distinct seen [] = tt
dedupe_from-distinct seen (entry ∷ entries) = ground (
  arith,
  dedupe_from-distinct seen entries,
  dedupe_from-distinct (entry.user_id ∷ seen) entries,
  dedupe_from-contains entry.user_id (entry.user_id ∷ seen) entries,
)

-- The presence list of an instance names every user with a connection to it, nobody else, and
-- nobody twice.
pub dedupe_presence-users :
    (connections : Connections)
    → AllDistinct (user_ids (dedupe_presence connections))
      × ((u : Text)
          → contains_text u (user_ids (dedupe_presence connections))
            ≡ contains_text u (map (λ e. e.user_id) (values connections)))
unfolding dedupe_presence
dedupe_presence-users connections = (
  dedupe_from-distinct [] (values connections),
  λ u. ground (arith, dedupe_from-contains u [] (values connections)),
)

-- No instance is kept with no connection to it.
abbrev pub IsTidy : PresenceMap → Type 0
IsTidy presence = All (λ e. is_empty e.1 ≡ false) presence

insert-IsTidy :
    (i : Text) (connections : Connections) (presence : PresenceMap)
    → is_empty connections ≡ false
    → IsTidy presence
    → IsTidy (insert i connections presence)
unfolding insert
insert-IsTidy i connections [] h v = (h, tt)
insert-IsTidy i connections ((j, cs) ∷ presence) h v =
    ground (arith, insert-IsTidy i connections presence h)

remove-IsTidy : (i : Text) (presence : PresenceMap) → IsTidy presence → IsTidy (remove i presence)
unfolding remove
remove-IsTidy i [] v = tt
remove-IsTidy i ((j, cs) ∷ presence) v = ground (arith, remove-IsTidy i presence)

insert-nonempty :
    (c : Text) (entry : PresenceEntry) (connections : Connections)
    → is_empty (insert c entry connections) ≡ false
unfolding insert
insert-nonempty c entry [] = refl
insert-nonempty c entry ((d, e) ∷ connections) = ground arith

has_key-remove : (c : Text) (connections : Connections) → has_key c (remove c connections) ≡ false
unfolding remove
has_key-remove c [] = refl
has_key-remove c ((d, e) ∷ connections) = ground (arith, has_key-remove c connections)

leave-IsTidy :
    (i c : Text) (presence : PresenceMap)
    → IsTidy presence
    → IsTidy (remove_presence_from_instance i c presence).0
unfolding remove_presence_from_instance
leave-IsTidy i c presence v = elim (Option-cases (lookup i presence)) [
  | inl missing ↦ rw (missing, remove_presence_from_instance) v
  | inr (connections, held) ↦
      rw (held, remove_presence_from_instance)
        (elim (Bool-cases (is_empty (remove c connections))) [
          | inl none_left ↦ rw none_left (remove-IsTidy i presence v)
          | inr some_left ↦
              rw some_left (insert-IsTidy i (remove c connections) presence some_left v)
        ])
]

leave_all-IsTidy :
    (c : Text) (presence : PresenceMap)
    → IsTidy presence
    → IsTidy (remove_presence_all c presence).0
unfolding remove_presence_all
leave_all-IsTidy c [] v = tt
leave_all-IsTidy c ((j, cs) ∷ presence) v = ground (arith, leave_all-IsTidy c presence)

-- If no instance is kept in the presence without connections, then so it is after joining an
-- instance, leaving it, and leaving all instances.
pub presence-IsTidy :
    (i c : Text) (user : WsUser) (presence : PresenceMap)
    → IsTidy presence
    → IsTidy (add_presence i c user presence).0
      × IsTidy (remove_presence_from_instance i c presence).0
      × IsTidy (remove_presence_all c presence).0
unfolding add_presence
presence-IsTidy i c user presence v = (
  insert-IsTidy i (insert c _ (connections_of i presence)) presence
      (insert-nonempty c _ (connections_of i presence)) v,
  leave-IsTidy i c presence v,
  leave_all-IsTidy c presence v,
)

-- A connection that has left all instances is gone from each of them, and the updates are for
-- exactly the instances that it was on, in their order.
pub remove_presence_all-gone :
    (c : Text) (presence : PresenceMap)
    → All (λ e. has_key c e.1 ≡ false) (remove_presence_all c presence).0
      × (map (λ u. u.0) (remove_presence_all c presence).1
          ≡ keys (retain_values (has_key c) presence))
unfolding remove_presence_all retain_values
remove_presence_all-gone c [] = (tt, refl)
remove_presence_all-gone c ((j, cs) ∷ presence) =
    ground (arith, remove_presence_all-gone c presence, has_key-remove c cs)
