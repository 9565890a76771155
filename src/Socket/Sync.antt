-- ===== src/Socket/Sync.antt =====
-- What `send_conversation_since` of packages/crab_city/src/ws/focus.rs adds to the copy of a
-- conversation that a client has.
use crabcity.Shared.{
  All, List, Option, Text, [], append-nil, append_assoc, arith, drop, false, length, none, refl,
  some, suc, sym, true, ◌++◌, ◌+◌, ◌∷◌, ◌≡◌,
}
use crabcity.Socket.Focus.{
  ServerMessage, conversation_full, conversation_update, has_uuid, output_history, output_lagged,
  output_sent, position, send_conversation_since, update_unless_empty,
}

-- What the client has after a message: a full conversation replaces its copy, an update goes behind
-- it.
abbrev pub client_after : {Turn : Type 0} → List Turn → Option (ServerMessage Turn) → List Turn
client_after has none = has
client_after has (some (conversation_full turns)) = turns
client_after has (some (conversation_update turns)) = has ++ turns
client_after has (some (output_history pieces)) = has
client_after has (some (output_sent output cursor)) = has
client_after has (some (output_lagged n)) = has

module _ (Turn : Type 0) (uuid : Turn → Option Text) (since : Text) where
  abbrev pub IsOther : Turn → Type 0
  IsOther t = has_uuid since (uuid t) ≡ false

  position-first :
      (has : List Turn) (t : Turn) (more : List Turn)
      → All IsOther has
      → has_uuid since (uuid t) ≡ true
      → position Turn uuid since (has ++ t ∷ more) ≡ some (length has)
  unfolding position
  position-first [] t more others found = rw (found, position) refl
  position-first (x ∷ has) t more (other, others) found =
      rw (other, position, position-first has t more others found) refl

  position-none : (turns : List Turn) → All IsOther turns → position Turn uuid since turns ≡ none
  unfolding position
  position-none [] others = refl
  position-none (x ∷ turns) (other, others) = rw (other, position, position-none turns others) refl

  drop-behind :
      (has : List Turn) (t : Turn) (more : List Turn)
      → drop (length has + 1) (has ++ t ∷ more) ≡ more
  drop-behind [] t more = refl
  drop-behind (x ∷ has) t more =
      let e : length (x ∷ has) + 1 ≡ suc (length has + 1) = omega arith in
      rw e (drop-behind has t more)

  client_after-update :
      (has more : List Turn) → client_after has (update_unless_empty Turn uuid more) ≡ has ++ more
  client_after-update has [] = sym (append-nil has)
  client_after-update has (t ∷ more) = refl

  since_lem :
      (has : List Turn) (t : Turn) (more : List Turn)
      → position Turn uuid since (has ++ t ∷ more) ≡ some (length has)
      → send_conversation_since Turn uuid (some since) (has ++ t ∷ more)
        ≡ update_unless_empty Turn uuid more
  unfolding send_conversation_since
  since_lem [] t more e = rw (e, drop-behind [] t more) refl
  since_lem (x ∷ has) t more e = rw (e, drop-behind (x ∷ has) t more) refl

  strangers_synced :
      (turns : List Turn)
      → All IsOther turns
      → client_after [] (send_conversation_since Turn uuid (some since) turns) ≡ turns
  unfolding send_conversation_since
  strangers_synced [] others = refl
  strangers_synced (x ∷ turns) others = rw (position-none (x ∷ turns) others) refl

  -- A client whose last turn is the first with the uuid, and that has what the server has up to there,
  -- has the whole conversation after the message, each turn once. So does a client that has no turns
  -- and names a uuid that no turn has, and each client that names none, where the server has turns;
  -- where it has none, such a client is sent nothing.
  pub send_conversation_since_syncs :
      (has : List Turn) (t : Turn) (more strangers : List Turn)
      → All IsOther has
      → has_uuid since (uuid t) ≡ true
      → All IsOther strangers
      → (client_after
            (has ++ t ∷ [])
            (send_conversation_since Turn uuid (some since) (has ++ t ∷ more))
          ≡ has ++ t ∷ more)
        × (client_after [] (send_conversation_since Turn uuid (some since) strangers) ≡ strangers)
        × (client_after has (send_conversation_since Turn uuid none (t ∷ more)) ≡ t ∷ more)
        × (client_after has (send_conversation_since Turn uuid none []) ≡ has)
  unfolding send_conversation_since
  send_conversation_since_syncs has t more strangers others found foreign = (
    rw
        (
          since_lem has t more (position-first has t more others found),
          client_after-update (has ++ t ∷ []) more,
        )
        (append_assoc has (t ∷ []) more),
    strangers_synced strangers foreign,
    refl,
    refl,
  )
