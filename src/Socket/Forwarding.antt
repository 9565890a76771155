-- ===== src/Socket/Forwarding.antt =====
-- What a client that looks at an instance has got from the task of
-- packages/crab_city/src/ws/focus.rs, compared with what the instance put out and said.
use crabcity.Shared.{
  All, List, Text, [], append-nil, append_assoc, arith, refl, some, sym, true, ℕ, ◌++◌, ◌∙◌, ◌∷◌,
  ◌≡◌,
}
use crabcity.Socket.Chunks.{sent-append}
use crabcity.Socket.Conversations.{
  IsSmooth, all_told_of, conversation_of, conversation_of-append, focus_step-told_of, while_open,
}
use crabcity.Socket.Decoder.{Decoded, Reader, at_start, new_decoder, reader_after, sent_by}
use crabcity.Socket.Focus.{
  FocusEvent, Round, ServerMessage, cancelled, conversation_closed, conversation_full,
  conversation_lagged, conversation_update, focus_loop, focus_step, forward_output, full_event,
  lagged, output_chunk, output_closed, output_history, output_lagged, output_sent, received,
  refreshed, update_event,
}
use crabcity.Socket.Streams.{
  IsReader, at_start-IsReader, bytewise, concat, decode_chunks, decode_chunks_lem, decode_lem,
  reader_after-IsReader,
}
use crabcity.Terminal.Emulator.{Bytes}

-- The output of the events, in chunks.
abbrev pub chunks_of : {Turn : Type 0} → List (FocusEvent Turn) → List Bytes
chunks_of [] = []
chunks_of (received (output_chunk output cursor) ∷ events) = output ∷ chunks_of events
chunks_of (received (lagged n) ∷ events) = chunks_of events
chunks_of (cancelled ∷ events) = chunks_of events
chunks_of (output_closed ∷ events) = chunks_of events
chunks_of (refreshed pieces ∷ events) = chunks_of events
chunks_of (full_event i turns ∷ events) = chunks_of events
chunks_of (update_event i turns ∷ events) = chunks_of events
chunks_of (conversation_lagged snapshot ∷ events) = chunks_of events
chunks_of (conversation_closed ∷ events) = chunks_of events

-- The output that messages bring, joined.
abbrev pub output_of : {Turn : Type 0} → List (ServerMessage Turn) → Bytes
output_of [] = []
output_of (output_sent output cursor ∷ messages) = output ++ output_of messages
output_of (output_history pieces ∷ messages) = output_of messages
output_of (output_lagged n ∷ messages) = output_of messages
output_of (conversation_full turns ∷ messages) = output_of messages
output_of (conversation_update turns ∷ messages) = output_of messages

output_of-append :
    {Turn : Type 0} (ms ns : List (ServerMessage Turn))
    → output_of (ms ++ ns) ≡ output_of ms ++ output_of ns
output_of-append [] ns = refl
output_of-append (output_sent output cursor ∷ ms) ns =
    simp (output_of-append ms ns, append_assoc) refl
output_of-append (output_history pieces ∷ ms) ns = output_of-append ms ns
output_of-append (output_lagged n ∷ ms) ns = output_of-append ms ns
output_of-append (conversation_full turns ∷ ms) ns = output_of-append ms ns
output_of-append (conversation_update turns ∷ ms) ns = output_of-append ms ns

-- The output of one event.
abbrev output_bytes : {Turn : Type 0} → FocusEvent Turn → Bytes
output_bytes e = concat (chunks_of (e ∷ []))

-- One round brings what the decoder that reads one byte at a time sends.
record IsForwarded {Turn : Type 0} (q : Reader) (output : Bytes) (r : Round Turn) : Type 0 where
  joined : output_of r.messages ≡ sent_by q output
  goes_on : r.decoder ≡ some (reader_after q output).held

forward_output-IsForwarded :
    (Turn : Type 0) (q : Reader) (output : Bytes) (cursor : ℕ × ℕ)
    → IsForwarded q (output ++ []) (forward_output Turn true cursor (some (bytewise q output)))
forward_output-IsForwarded Turn q output cursor =
    rw (append-nil output) (go (sent_by q output) refl)
  where
    go :
        (s : Bytes)
        → sent_by q output ≡ s
        → IsForwarded q output (forward_output Turn true cursor (some (bytewise q output)))
    go [] e = rw e (record { joined = sym e; goes_on = refl })
    go (b ∷ s) e = rw e (record { joined = append-nil (b ∷ s) ∙ sym e; goes_on = refl })

focus_step-IsForwarded :
    (Turn : Type 0) (id : Text) (q : Reader) (e : FocusEvent Turn)
    → IsReader q
    → IsSmooth e
    → IsForwarded q (output_bytes e) (focus_step Turn id true q.held e)
unfolding focus_step sent_by reader_after
focus_step-IsForwarded Turn id q cancelled h s = absurd s
focus_step-IsForwarded Turn id q (received (output_chunk output cursor)) h s =
    rw (decode_lem q output h) (forward_output-IsForwarded Turn q output cursor)
focus_step-IsForwarded Turn id q (received (lagged n)) h s = absurd s
focus_step-IsForwarded Turn id q output_closed h s = absurd s
focus_step-IsForwarded Turn id q (refreshed pieces) h s = absurd s
focus_step-IsForwarded Turn id q (full_event i turns) h s = record {
  joined = ground arith;
  goes_on = ground arith;
}
focus_step-IsForwarded Turn id q (update_event i turns) h s = record {
  joined = ground arith;
  goes_on = ground arith;
}
focus_step-IsForwarded Turn id q (conversation_lagged snapshot) h s = record {
  joined = ground arith;
  goes_on = ground arith;
}
focus_step-IsForwarded Turn id q conversation_closed h s = record { joined = refl; goes_on = refl }

chunks_of-cons :
    {Turn : Type 0} (e : FocusEvent Turn) (events : List (FocusEvent Turn))
    → concat (chunks_of (e ∷ events)) ≡ output_bytes e ++ concat (chunks_of events)
chunks_of-cons (received (output_chunk output cursor)) events = simp append-nil refl
chunks_of-cons (received (lagged n)) events = refl
chunks_of-cons cancelled events = refl
chunks_of-cons output_closed events = refl
chunks_of-cons (refreshed pieces) events = refl
chunks_of-cons (full_event i turns) events = refl
chunks_of-cons (update_event i turns) events = refl
chunks_of-cons (conversation_lagged snapshot) events = refl
chunks_of-cons conversation_closed events = refl

focus_loop-joined :
    (Turn : Type 0) (id : Text) (q : Reader) (events : List (FocusEvent Turn))
    → IsReader q
    → All IsSmooth events
    → output_of (focus_loop Turn id q.held (while_open events))
      ≡ sent_by q (concat (chunks_of events))
unfolding focus_loop sent_by
focus_loop-joined Turn id q [] h s = refl
focus_loop-joined Turn id q (e ∷ events) h (s, rest) =
    let r = focus_step Turn id true q.held e in
    let one = focus_step-IsForwarded Turn id q e h s in
    let q' = reader_after q (output_bytes e) in
    let onward =
      focus_loop-joined Turn id q' events (reader_after-IsReader q (output_bytes e) h) rest in
    rw
      (
        one.goes_on,
        focus_loop,
        output_of-append r.messages (focus_loop Turn id q'.held (while_open events)),
        one.joined,
        onward,
        chunks_of-cons e events,
        sent-append q (output_bytes e) (concat (chunks_of events)),
      )
      refl

focus_loop-told :
    (Turn : Type 0) (id : Text) (q : Reader) (events : List (FocusEvent Turn))
    → IsReader q
    → All IsSmooth events
    → conversation_of (focus_loop Turn id q.held (while_open events)) ≡ all_told_of id events
unfolding focus_loop
focus_loop-told Turn id q [] h s = refl
focus_loop-told Turn id q (e ∷ events) h (s, rest) =
    let r = focus_step Turn id true q.held e in
    let one = focus_step-IsForwarded Turn id q e h s in
    let q' = reader_after q (output_bytes e) in
    let onward =
      focus_loop-told Turn id q' events (reader_after-IsReader q (output_bytes e) h) rest in
    rw
      (
        one.goes_on,
        focus_loop,
        conversation_of-append r.messages (focus_loop Turn id q'.held (while_open events)),
        focus_step-told_of Turn id q e h s,
        onward,
      )
      refl

-- While the channel to the client is open and neither a gap in the output nor a refresh comes, the
-- output messages that the client gets join up to what the decoder makes of all the chunks of output,
-- and the messages on conversations are those that the events bring on this instance, in their order,
-- however output and conversation events alternate.
pub focus_loop-decode_chunks :
    (Turn : Type 0) (id : Text) (events : List (FocusEvent Turn))
    → All IsSmooth events
    → let messages = focus_loop Turn id new_decoder (while_open events) in
      (d : Decoded) × (decode_chunks new_decoder (chunks_of events) ≡ some d)
      × (output_of messages ≡ d.result)
      × (conversation_of messages ≡ all_told_of id events)
focus_loop-decode_chunks Turn id events smooth = (
  bytewise at_start (concat (chunks_of events)),
  decode_chunks_lem at_start (chunks_of events) at_start-IsReader,
  focus_loop-joined Turn id at_start events at_start-IsReader smooth,
  focus_loop-told Turn id at_start events at_start-IsReader smooth,
)
