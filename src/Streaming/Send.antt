-- ===== src/Streaming/Send.antt =====
-- Sending in api/Streaming.cpp: `Send`, `AsyncSend`, `SendBuffer` and `SendPacket`.
pub mod Limits
use kovri.Common.{
  ℕ, zero, suc, ◌+◌, ◌-◌, ◌/◌, ◌%◌, ◌^◌, List, [], ◌∷◌, ◌++◌, Bool, true, false, if◌then◌else◌,
  ◌&&◌, ◌||◌, not, leb, ◌==◌, htobe16buf, htobe32buf, length, map,
}
use kovri.Streaming.Packet.{Packet, packet_of, get_bytes, insert_packet, streaming_mtu}
use kovri.Streaming.State.{
  Stream, SendBuffer, StreamStatus, new, open_, closing, Identities, send_packets, schedule_resend,
  cancel_ack_send, sent, send_in_progress, post_send_buffer, call, is_negative, read,
}
use kovri.Streaming.Close.{zeros, is_empty, send_close}

abbrev pub is_established : Stream → Bool
is_established s = not (s.send_stream_id == 0)

abbrev pub is_new : StreamStatus → Bool
is_new new = true
is_new _ = false

abbrev pub is_open : StreamStatus → Bool
is_open open_ = true
is_open _ = false

abbrev pub is_closing : StreamStatus → Bool
is_closing closing = true
is_closing _ = false

-- Identifiers, number, ack through, no NACKs, resend delay. Before anything is received the last
-- received number stands for "ack through", after that 0.
unfoldable pub data_head : Bool → Stream → List ℕ
data_head no_ack s =
    htobe32buf s.send_stream_id
    ++ (htobe32buf s.recv_stream_id
        ++ (htobe32buf s.sequence_number
            ++ (htobe32buf (if no_ack then s.last_received else 0)
                ++ (0 ∷ (s.rto / 1000 % 256) ∷ []))))

-- What `read` takes: the rest of a packet with so many bytes, in `size_t`.
abbrev pub room : List ℕ → ℕ
room head = (streaming_mtu + 2 ^ 64 - length head) % 2 ^ 64

-- `Send`: data is written behind what is there, and the end is forgotten; an empty buffer writes
-- nothing.
unfoldable pub send_data : List ℕ → Stream → Stream
send_data [] s = call post_send_buffer s
send_data (b ∷ bytes) s = call post_send_buffer (record s {
  send_buffer = record { content = s.send_buffer.content ++ (b ∷ bytes); eof = false };
})

unfoldable pub async_send : List ℕ → Stream → Stream
unfolding send_data
async_send bytes s =
    if s.send_handler
    then send_data bytes (call send_in_progress s)
    else send_data bytes (record s { send_handler = true })

module _ (ids : Identities) where
  -- The flags of the initial packet: synchronize, signature, from, maximal size; no ack.
  abbrev pub initial_flags : Bool → ℕ
  initial_flags no_ack = if no_ack then 1193 else 169

  -- The initial packet up to the signature.
  unfoldable pub initial_head : Bool → Stream → List ℕ
  unfolding data_head
  initial_head no_ack s =
      data_head no_ack s
      ++ (htobe16buf (initial_flags no_ack)
          ++ (htobe16buf (length ids.local_identity + ids.local_signature_length + 2)
              ++ (ids.local_identity ++ htobe16buf streaming_mtu)))

  -- The bytes of the initial packet with this payload; the signature is of zeros in its place.
  unfoldable pub initial_bytes : Bool → Stream → List ℕ → List ℕ
  unfolding initial_head
  initial_bytes no_ack s payload =
      let head = initial_head no_ack s in
      let signature = ids.sign (head ++ (zeros ids.local_signature_length ++ payload)) in
      head ++ (signature ++ payload)

  -- A packet that follows: no flags, no options.
  unfoldable pub follow_on_head : Bool → Stream → List ℕ
  unfolding data_head
  follow_on_head no_ack s = data_head no_ack s ++ (0 ∷ 0 ∷ 0 ∷ 0 ∷ [])

  abbrev next_number : SendBuffer → Stream → Stream
  next_number buffer s = record s {
    sequence_number = (s.sequence_number + 1) % 2 ^ 32;
    send_buffer = buffer;
  }

  -- One round of the loop: the packet, and the stream.
  unfoldable pub make_packet : Bool → Stream → Packet × Stream
  unfolding initial_bytes follow_on_head read
  make_packet no_ack s =
      let head = follow_on_head no_ack s in
      let (payload, buffer) = read (room head) s.send_buffer in
      let size = length (initial_head no_ack s) + ids.local_signature_length in
      let (first, buffer') = read ((streaming_mtu + 2 ^ 64 - size) % 2 ^ 64) s.send_buffer in
      if is_new s.status
      then (
        packet_of (initial_bytes no_ack s first),
        next_number buffer' (record s { status = open_ }),
      )
      else (packet_of (head ++ payload), next_number buffer s)

  -- The loop. At first there is room for a message, and then every round takes one: `num_msgs`
  -- itself bounds the rounds.
  unfoldable pub make_packets : Bool → ℕ → Stream → List Packet × Stream
  unfolding make_packet
  make_packets no_ack zero s = ([], s)
  make_packets no_ack (suc num_msgs) s =
      let (p, s') = make_packet no_ack s in
      let (ps, s'') = make_packets no_ack num_msgs s' in
      if is_new s.status || (is_established s && not s.send_buffer.eof)
      then (p ∷ ps, s'')
      else ([], s)

  unfoldable pub notify_sent : Stream → Stream
  notify_sent s =
      if s.send_buffer.eof && s.send_handler
      then call sent (record s { send_handler = false })
      else s

  unfoldable pub insert_all : ℕ → List Packet → List Packet → List Packet
  insert_all ts [] qs = qs
  insert_all ts (p ∷ ps) qs = insert_all ts ps (insert_packet (record p { send_time = ts }) qs)

  -- What is done with the packets, if there are any.
  unfoldable pub transmit : ℕ → List Packet → Stream → Stream
  unfolding insert_all send_close
  transmit ts packets s =
      let s1 = call cancel_ack_send (record s { is_ack_send_scheduled = false }) in
      let s2 = record s1 { sent_packets = insert_all ts packets s.sent_packets } in
      let s3 = call (send_packets (map (λ p. get_bytes p) packets)) s2 in
      let s4 = if is_closing s.status && s.send_buffer.eof then send_close ids s3 else s3 in
      if is_empty packets
      then s
      else if is_empty s.sent_packets
      then call (schedule_resend s.rto) s4
      else s4

  unfoldable pub send_buffer : ℕ → Stream → Stream
  unfolding make_packets notify_sent transmit
  send_buffer ts s =
      let (packets, s') =
        make_packets (is_negative s.last_received) (s.window_size - length s.sent_packets) s in
      if leb s.window_size (length s.sent_packets) then s else transmit ts packets (notify_sent s')

-- A packet of its own: `SendClose` posts such a call.
unfoldable pub send_packet : Packet → Stream → Stream
send_packet p s =
    let s1 =
      if s.is_ack_send_scheduled
      then call cancel_ack_send (record s { is_ack_send_scheduled = false })
      else s in
    let s2 = call (send_packets (get_bytes p ∷ [])) s1 in
    let s3 = record s2 { sent_packets = insert_packet p s.sent_packets } in
    if is_open s.status
    then if is_empty s.sent_packets then call (schedule_resend s.rto) s3 else s3
    else s2
