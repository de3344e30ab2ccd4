-- ===== src/Streaming/Close.antt =====
-- The end of a stream in api/Streaming.cpp: `Terminate`, `SendClose` and `Close`.
use kovri.Common.{
  ℕ, zero, suc, ◌+◌, ◌%◌, ◌^◌, List, [], ◌∷◌, ◌++◌, Bool, true, false, if◌then◌else◌, ◌&&◌,
  htobe16buf, htobe32buf,
}
use kovri.Streaming.Packet.{Packet, packet_of}
use kovri.Streaming.State.{
  Stream, StreamStatus, new, open_, reset, closing, closed, Identities, cancel_ack_send,
  cancel_receive, cancel_resend, sent_aborted, post_send_packet, delete_stream, call,
}

abbrev pub zeros : ℕ → List ℕ
zeros zero = []
zeros (suc n) = 0 ∷ zeros n

unfoldable pub terminate : Stream → Stream
terminate s =
    let s' = call cancel_resend (call cancel_receive (call cancel_ack_send s)) in
    if s.send_handler then call sent_aborted (record s' { send_handler = false }) else s'

abbrev pub is_empty : List Packet → Bool
is_empty [] = true
is_empty (_ ∷ _) = false

module _ (ids : Identities) where
  -- Up to the signature: identifiers, number, last received, no NACKs, delay (not written: 0), the
  -- flags for close and signature, and the size of the options.
  unfoldable pub close_head : Stream → List ℕ
  close_head s =
      htobe32buf s.send_stream_id
      ++ (htobe32buf s.recv_stream_id
          ++ (htobe32buf s.sequence_number
              ++ (htobe32buf s.last_received
                  ++ (0 ∷ 0 ∷ (htobe16buf 10 ++ htobe16buf ids.local_signature_length)))))

  -- The signature is of the packet with zeros in its place.
  unfoldable pub close_packet : Stream → Packet
  unfolding close_head
  close_packet s =
      let signature = ids.sign (close_head s ++ zeros ids.local_signature_length) in
      packet_of (close_head s ++ signature)

  unfoldable pub send_close : Stream → Stream
  send_close s =
      call (post_send_packet (close_packet s))
        (record s { sequence_number = (s.sequence_number + 1) % 2 ^ 32 })

  unfoldable pub close_closing : Stream → Stream
  unfolding terminate send_close
  close_closing s =
      if is_empty s.sent_packets && s.send_buffer.eof
      then call delete_stream (terminate (send_close (record s { status = closed })))
      else s

  abbrev pub close_by : StreamStatus → Stream → Stream
  close_by new s = s
  close_by open_ s = close_closing (record s { status = closing })
  close_by reset s = call delete_stream (terminate (send_close s))
  close_by closing s = close_closing s
  close_by closed s = call delete_stream (terminate s)

  unfoldable pub close : Stream → Stream
  unfolding terminate send_close close_closing
  close s = close_by s.status s
