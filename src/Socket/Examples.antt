-- ===== src/Socket/Examples.antt =====
-- The theorems on the decoder and the forwarding of packages/crab_city/src/ws/focus.rs at the bytes of
-- "a€b", of which the middle character is cut between chunks, and at a stray byte.
use crabcity.Shared.{
  List, Option, Text, [], codes, length, none, refl, some, text_dec, ◌<◌, ◌∷◌, ◌≡◌,
}
use crabcity.Socket.Clean.{decode_chunks-from_utf8}
use crabcity.Socket.Conversations.{all_told_of, conversation_of, while_open}
use crabcity.Socket.Decoder.{Decoded, decode, decode_loop, new_decoder}
use crabcity.Socket.Focus.{
  FocusEvent, ServerMessage, conversation_closed, drain, focus_loop, full_event, lagged,
  output_chunk, received, send_conversation_since, update_event,
}
use crabcity.Socket.Forwarding.{chunks_of, focus_loop-decode_chunks, output_of}
use crabcity.Socket.Streams.{concat, decode_chunks, decode_chunks-decode, decode_total}
use crabcity.Socket.Sync.{client_after, send_conversation_since_syncs}
use crabcity.Socket.Utf8.{from_utf8, lead, scan, valid_utf8}
use crabcity.Terminal.Emulator.{Bytes}

abbrev cut_chunks : List Bytes
cut_chunks = (97 ∷ 0xe2 ∷ []) ∷ (0x82 ∷ []) ∷ (0xac ∷ 98 ∷ []) ∷ []

decodes_cut :
    decode_chunks new_decoder cut_chunks
    ≡ some (record { result = 97 ∷ 0xe2 ∷ 0x82 ∷ 0xac ∷ 98 ∷ []; buf = [] })
unfolding decode_chunks decode decode_loop from_utf8 scan lead
decodes_cut = refl

decodes_stray :
    decode new_decoder (97 ∷ 0xe2 ∷ 98 ∷ [])
    ≡ some (record { result = 97 ∷ 0xef ∷ 0xbf ∷ 0xbd ∷ 98 ∷ []; buf = [] })
unfolding decode decode_loop from_utf8 scan lead
decodes_stray = refl

decode_total_example :
    (d : Decoded) × (decode (0xe2 ∷ []) (0x82 ∷ 0xff ∷ 0xe2 ∷ []) ≡ some d) × (length d.buf < 4)
decode_total_example = decode_total (0xe2 ∷ []) (0x82 ∷ 0xff ∷ 0xe2 ∷ [])

decode_chunks-decode_example :
    decode_chunks new_decoder cut_chunks ≡ decode new_decoder (concat cut_chunks)
decode_chunks-decode_example = decode_chunks-decode cut_chunks

abbrev stray_chunks : List Bytes
stray_chunks = (97 ∷ 0xe2 ∷ []) ∷ (98 ∷ 0xff ∷ []) ∷ []

decode_chunks-from_utf8_example :
    (d : Decoded) × (decode_chunks new_decoder stray_chunks ≡ some d)
    × (from_utf8 d.result ≡ valid_utf8)
decode_chunks-from_utf8_example = decode_chunks-from_utf8 stray_chunks

abbrev Uuid : Type 0
Uuid = Text

abbrev an_hour : List (FocusEvent Uuid)
an_hour =
    received (output_chunk (97 ∷ 0xe2 ∷ []) (0, 1))
    ∷ full_event (codes "i") (codes "u" ∷ [])
    ∷ received (output_chunk (0x82 ∷ 0xac ∷ []) (0, 2))
    ∷ update_event (codes "j") (codes "v" ∷ [])
    ∷ conversation_closed
    ∷ []

abbrev hour_messages : List (ServerMessage Uuid)
hour_messages = focus_loop Uuid (codes "i") new_decoder (while_open an_hour)

focus_loop-decode_chunks_example :
    (d : Decoded) × (decode_chunks new_decoder (chunks_of an_hour) ≡ some d)
    × (output_of hour_messages ≡ d.result)
    × (conversation_of hour_messages ≡ all_told_of (codes "i") an_hour)
focus_loop-decode_chunks_example =
    focus_loop-decode_chunks Uuid (codes "i") an_hour (tt, (tt, (tt, (tt, (tt, tt)))))

-- A receiver that has missed output is not drained to its end.
drain_stops :
    drain (output_chunk (97 ∷ []) (0, 1) ∷ lagged 3 ∷ output_chunk (98 ∷ []) (0, 2) ∷ [])
    ≡ output_chunk (98 ∷ []) (0, 2) ∷ []
unfolding drain
drain_stops = refl

abbrev uuid_of : Uuid → Option Text
uuid_of u = some u

send_conversation_since_syncs_example :
    (client_after (codes "a" ∷ codes "b" ∷ []) (
        send_conversation_since Uuid uuid_of
          (some (codes "b"))
          (codes "a" ∷ codes "b" ∷ codes "c" ∷ []))
      ≡ codes "a" ∷ codes "b" ∷ codes "c" ∷ [])
    × (client_after [] (send_conversation_since Uuid uuid_of (some (codes "b")) (codes "c" ∷ []))
        ≡ codes "c" ∷ [])
    × (client_after
          (codes "a" ∷ [])
          (send_conversation_since Uuid uuid_of none (codes "b" ∷ codes "c" ∷ []))
        ≡ codes "b" ∷ codes "c" ∷ [])
    × (client_after (codes "a" ∷ []) (send_conversation_since Uuid uuid_of none [])
        ≡ codes "a" ∷ [])
unfolding text_dec
send_conversation_since_syncs_example =
    send_conversation_since_syncs Uuid uuid_of (codes "b") (codes "a" ∷ []) (codes "b")
      (codes "c" ∷ []) (codes "c" ∷ []) (refl, tt) refl (refl, tt)
