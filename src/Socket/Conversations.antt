-- ===== src/Socket/Conversations.antt =====
-- What the task of packages/crab_city/src/ws/focus.rs tells a client of conversations.
use crabcity.Shared.{
  Bool, List, Text, [], ap, arith, eq_text, if◌then◌else◌, refl, some, true, ℕ, ◌++◌, ◌∷◌, ◌≡◌,
}
use crabcity.Socket.Decoder.{Decoded, Reader}
use crabcity.Socket.Focus.{
  FocusEvent, ServerMessage, cancelled, conversation_closed, conversation_full, conversation_lagged,
  conversation_update, focus_step, forward_output, full_event, lagged, output_chunk, output_closed,
  output_history, output_lagged, output_sent, received, refreshed, update_event,
}
use crabcity.Socket.Streams.{IsReader, bytewise, decode_lem}
use crabcity.Terminal.Emulator.{Bytes}

-- Neither the end of the task, nor a gap in the output, nor a refresh.
abbrev pub IsSmooth : {Turn : Type 0} → FocusEvent Turn → Type 0
IsSmooth cancelled = ⊥
IsSmooth (received (output_chunk output cursor)) = Unit
IsSmooth (received (lagged n)) = ⊥
IsSmooth output_closed = ⊥
IsSmooth (refreshed pieces) = ⊥
IsSmooth (full_event i turns) = Unit
IsSmooth (update_event i turns) = Unit
IsSmooth (conversation_lagged snapshot) = Unit
IsSmooth conversation_closed = Unit

abbrev pub while_open : {Turn : Type 0} → List (FocusEvent Turn) → List (Bool × FocusEvent Turn)
while_open [] = []
while_open (e ∷ events) = (true, e) ∷ while_open events

-- The messages with turns of a conversation.
abbrev pub conversation_of : {Turn : Type 0} → List (ServerMessage Turn) → List (ServerMessage Turn)
conversation_of [] = []
conversation_of (output_sent output cursor ∷ ms) = conversation_of ms
conversation_of (output_history pieces ∷ ms) = conversation_of ms
conversation_of (output_lagged n ∷ ms) = conversation_of ms
conversation_of (conversation_full turns ∷ ms) = conversation_full turns ∷ conversation_of ms
conversation_of (conversation_update turns ∷ ms) = conversation_update turns ∷ conversation_of ms

-- What an event says of the conversation of an instance.
abbrev pub told_of : {Turn : Type 0} → Text → FocusEvent Turn → List (ServerMessage Turn)
told_of id cancelled = []
told_of id (received item) = []
told_of id output_closed = []
told_of id (refreshed pieces) = []
told_of id (full_event i turns) = if eq_text i id then conversation_full turns ∷ [] else []
told_of id (update_event i turns) = if eq_text i id then conversation_update turns ∷ [] else []
told_of id (conversation_lagged []) = []
told_of id (conversation_lagged (t ∷ turns)) = conversation_full (t ∷ turns) ∷ []
told_of id conversation_closed = []

abbrev pub all_told_of : {Turn : Type 0} → Text → List (FocusEvent Turn) → List (ServerMessage Turn)
all_told_of id [] = []
all_told_of id (e ∷ events) = told_of id e ++ all_told_of id events

pub conversation_of-append :
    {Turn : Type 0} (ms ns : List (ServerMessage Turn))
    → conversation_of (ms ++ ns) ≡ conversation_of ms ++ conversation_of ns
conversation_of-append [] ns = refl
conversation_of-append (output_sent output cursor ∷ ms) ns = conversation_of-append ms ns
conversation_of-append (output_history pieces ∷ ms) ns = conversation_of-append ms ns
conversation_of-append (output_lagged n ∷ ms) ns = conversation_of-append ms ns
conversation_of-append (conversation_full turns ∷ ms) ns =
    ap (◌∷◌ (conversation_full turns)) (conversation_of-append ms ns)
conversation_of-append (conversation_update turns ∷ ms) ns =
    ap (◌∷◌ (conversation_update turns)) (conversation_of-append ms ns)

forward_output-conversation_of :
    (Turn : Type 0) (cursor : ℕ × ℕ) (d : Decoded)
    → conversation_of (forward_output Turn true cursor (some d)).messages ≡ []
forward_output-conversation_of Turn cursor d = go d.result d.buf
  where
    go :
        (result buf : Bytes)
        → conversation_of
            (forward_output Turn true cursor
              (some (record { result = result; buf = buf }))).messages
          ≡ []
    go [] buf = refl
    go (b ∷ result) buf = refl

pub focus_step-told_of :
    (Turn : Type 0) (id : Text) (q : Reader) (e : FocusEvent Turn)
    → IsReader q
    → IsSmooth e
    → conversation_of (focus_step Turn id true q.held e).messages ≡ told_of id e
unfolding focus_step
focus_step-told_of Turn id q cancelled h s = absurd s
focus_step-told_of Turn id q (received (output_chunk output cursor)) h s =
    rw (decode_lem q output h) (forward_output-conversation_of Turn cursor (bytewise q output))
focus_step-told_of Turn id q (received (lagged n)) h s = absurd s
focus_step-told_of Turn id q output_closed h s = absurd s
focus_step-told_of Turn id q (refreshed pieces) h s = absurd s
focus_step-told_of Turn id q (full_event i turns) h s = ground arith
focus_step-told_of Turn id q (update_event i turns) h s = ground arith
focus_step-told_of Turn id q (conversation_lagged []) h s = refl
focus_step-told_of Turn id q (conversation_lagged (t ∷ turns)) h s = refl
focus_step-told_of Turn id q conversation_closed h s = refl
