-- ===== src/Socket/Focus.antt =====
-- The task that forwards an instance to a client that looks at it, and the catching up with a
-- conversation: `handle_focus`, `send_output_history` and `send_conversation_since` of
-- packages/crab_city/src/ws/focus.rs. A turn of a conversation is a parameter.
use crabcity.Shared.{
  Bool, List, Option, Text, [], drop, eq_text, false, if◌then◌else◌, is_empty, none, some, suc, ℕ,
  ◌++◌, ◌+◌, ◌∷◌,
}
use crabcity.Socket.Decoder.{Decoded, clear, decode}
use crabcity.Socket.Streams.{concat}
use crabcity.Terminal.Emulator.{Bytes}

-- What the broadcast channel of the output holds for the task.
pub data OutputItem : Type 0 where
  output_chunk : (output : Bytes) (cursor : ℕ × ℕ) → OutputItem
  lagged : (dropped_count : ℕ) → OutputItem

-- `while output_rx.try_recv().is_ok()`: the error at which it stops has been taken too.
unfoldable pub drain : List OutputItem → List OutputItem
drain [] = []
drain (output_chunk output cursor ∷ items) = drain items
drain (lagged n ∷ items) = items

abbrev pub has_uuid : Text → Option Text → Bool
has_uuid since none = false
has_uuid since (some u) = eq_text u since

module _ (Turn : Type 0) where
  -- `ServerMessage`, as far as the task sends it.
  pub data ServerMessage : Type 0 where
    output_history : (history : Bytes) → ServerMessage
    output_sent : (output : Bytes) (cursor : ℕ × ℕ) → ServerMessage
    output_lagged : (dropped_count : ℕ) → ServerMessage
    conversation_full : (turns : List Turn) → ServerMessage
    conversation_update : (turns : List Turn) → ServerMessage

  -- What wakes the task. The actor answers a refresh with the pieces of its replay, and a broadcast
  -- that was missed with the whole conversation. Behind the end of the channel of conversations the
  -- task does not ask it again, so that no event of it follows.
  pub data FocusEvent : Type 0 where
    cancelled : FocusEvent
    received : (item : OutputItem) → FocusEvent
    output_closed : FocusEvent
    refreshed : (pieces : List Bytes) → FocusEvent
    full_event : (instance_id : Text) (turns : List Turn) → FocusEvent
    update_event : (instance_id : Text) (turns : List Turn) → FocusEvent
    conversation_lagged : (snapshot : List Turn) → FocusEvent
    conversation_closed : FocusEvent

  -- The messages of one round, and the decoder behind it, if the task goes on.
  pub record Round : Type 0 where
    pub messages : List ServerMessage
    pub decoder : Option Bytes

  -- A message whose failure ends the task; `is_open` says whether the channel of the client is.
  abbrev pub send_or_break : Bool → ServerMessage → Bytes → Round
  send_or_break is_open message decoder =
      if is_open
      then record { messages = message ∷ []; decoder = some decoder }
      else record { messages = []; decoder = none }

  -- A message whose failure is ignored.
  abbrev pub send_or_ignore : Bool → ServerMessage → Bytes → Round
  send_or_ignore is_open message decoder = record {
    messages = if is_open then message ∷ [] else [];
    decoder = some decoder;
  }

  abbrev pub quiet : Bytes → Round
  quiet decoder = record { messages = []; decoder = some decoder }

  abbrev pub stopped : Round
  stopped = record { messages = []; decoder = none }

  -- The decoder always gives an answer; `none` stands for no fuel.
  abbrev pub forward_output : Bool → ℕ × ℕ → Option Decoded → Round
  forward_output is_open cursor none = stopped
  forward_output is_open cursor (some d) =
      if is_empty d.result
      then quiet d.buf
      else send_or_break is_open (output_sent d.result cursor) d.buf

  unfoldable pub send_output_history : Bool → List Bytes → Bytes → Round
  send_output_history is_open [] decoder = quiet decoder
  send_output_history is_open (piece ∷ pieces) decoder =
      send_or_break is_open (output_history (concat (piece ∷ pieces))) decoder

  unfoldable pub focus_step : Text → Bool → Bytes → FocusEvent → Round
  unfolding decode send_output_history
  focus_step id is_open decoder cancelled = stopped
  focus_step id is_open decoder (received (output_chunk output cursor)) =
      forward_output is_open cursor (decode decoder output)
  focus_step id is_open decoder (received (lagged n)) =
      send_or_break is_open (output_lagged n) (clear decoder)
  focus_step id is_open decoder output_closed = stopped
  focus_step id is_open decoder (refreshed pieces) =
      send_output_history is_open pieces (clear decoder)
  focus_step id is_open decoder (full_event i turns) =
      if eq_text i id
      then send_or_break is_open (conversation_full turns) decoder
      else quiet decoder
  focus_step id is_open decoder (update_event i turns) =
      if eq_text i id
      then send_or_break is_open (conversation_update turns) decoder
      else quiet decoder
  focus_step id is_open decoder (conversation_lagged snapshot) =
      if is_empty snapshot
      then quiet decoder
      else send_or_ignore is_open (conversation_full snapshot) decoder
  focus_step id is_open decoder conversation_closed = quiet decoder

  -- The messages of the rounds until the task ends, each event with the state of the channel.
  unfoldable pub focus_loop : Text → Bytes → List (Bool × FocusEvent) → List ServerMessage
  unfolding focus_step
  focus_loop id decoder [] = []
  focus_loop id decoder ((is_open, e) ∷ events) =
      let r = focus_step id is_open decoder e in
      elim r.decoder [ none ↦ r.messages | some d ↦ r.messages ++ focus_loop id d events ]

module _ (Turn : Type 0) (uuid : Turn → Option Text) where
  -- `position` of the turn with a uuid.
  unfoldable pub position : Text → List Turn → Option ℕ
  position since [] = none
  position since (t ∷ turns) =
      let rest = position since turns in
      if has_uuid since (uuid t) then some 0 else elim rest [ none ↦ none | some n ↦ some (suc n) ]

  -- `None` is nothing to send.
  abbrev pub update_unless_empty : List Turn → Option (ServerMessage Turn)
  update_unless_empty [] = none
  update_unless_empty (t ∷ turns) = some (conversation_update (t ∷ turns))

  abbrev pub turns_after : Option ℕ → List Turn → List Turn
  turns_after none all_turns = all_turns
  turns_after (some n) all_turns = drop (n + 1) all_turns

  unfoldable pub send_conversation_since : Option Text → List Turn → Option (ServerMessage Turn)
  unfolding position
  send_conversation_since since_uuid [] = none
  send_conversation_since (some since) (t ∷ turns) =
      update_unless_empty (turns_after (position since (t ∷ turns)) (t ∷ turns))
  send_conversation_since none (t ∷ turns) = some (conversation_full (t ∷ turns))
