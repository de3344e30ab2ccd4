-- ===== src/Streaming/Receive.antt =====
-- Receiving in api/Streaming.cpp: `HandleNextPacket`, `ProcessPacket` and `ConcatenatePackets`.
pub mod Reading
pub mod Quiet
pub mod Plain
pub mod Next
use kovri.Common.{
  ℕ, zero, suc, ◌+◌, ◌-◌, ◌*◌, ◌/◌, ◌%◌, ◌^◌, List, [], ◌∷◌, ◌++◌, Bool, true, false, if◌then◌else◌,
  ◌&&◌, ◌||◌, not, ltb, leb, ◌==◌, min, length, take, drop, test_bit,
}
use kovri.Streaming.Packet.{
  Packet, get_length, get_seqn, get_flags, get_option_data, get_option_size, get_payload,
  get_receive_stream_id, is_syn, is_no_ack, insert_packet,
}
use kovri.Streaming.State.{
  Stream, Identities, reset, Action, cancel_receive, cancel_ack_send, schedule_ack_send, call,
  signed_ltb, is_negative,
}
use kovri.Streaming.Close.{close, zeros}
use kovri.Streaming.Send.{send_buffer, is_open}
use kovri.Streaming.Acks.{process_ack, send_quick_ack}

-- The bytes from the payload on, if there are any, wait to be read.
unfoldable pub queue_packet : Packet → Stream → Stream
queue_packet p s =
    let p' = record p { offset = get_payload p } in
    if ltb 0 (get_length p')
    then call cancel_receive (record s { receive_queue = s.receive_queue ++ (p' ∷ []) })
    else s

-- A write of zeros into the array, `n` of them at `at'`.
abbrev pub blank : ℕ → ℕ → List ℕ → List ℕ
blank at' n buf = take at' buf ++ (zeros n ++ drop (at' + n) buf)

module _ (ids : Identities) where
  -- Where the options go on after the delay and the identity, and the stream with that identity.
  unfoldable pub read_identity : Packet → Stream → ℕ × Stream
  read_identity p s =
      let start = get_option_data p + (if test_bit (get_flags p) 6 then 2 else 0) in
      let (identity, size) = ids.from_buffer (drop start p.buf) (get_option_size p) in
      if test_bit (get_flags p) 5
      then (start + size, record s { remote_identity = identity })
      else (start, s)

  -- The signature, behind the maximal size, of the packet with zeros in its place.
  unfoldable pub is_signed : ℕ → Packet → Stream → Bool
  is_signed start p s =
      let at' = start + (if test_bit (get_flags p) 7 then 2 else 0) in
      let n = ids.signature_length s.remote_identity in
      ids.verify s.remote_identity (take (get_length p) (drop p.offset (blank at' n p.buf)))
        (take n (drop at' p.buf))

  -- The options, and whether the stream ends: a wrong signature closes it at once.
  unfoldable pub process_options : Packet → Stream → Bool × Stream
  unfolding read_identity is_signed close
  process_options p s =
      let (start, s') = read_identity p s in
      if test_bit (get_flags p) 3 && not (is_signed start p s')
      then (true, close ids s')
      else (test_bit (get_flags p) 1, s')

  unfoldable pub process_packet : Packet → Stream → Stream
  unfolding process_options queue_packet
  process_packet p s =
      let (ends, s') = process_options p s in
      let s'' = record (queue_packet p s') { last_received = get_seqn p } in
      if ends || test_bit (get_flags p) 2 then close ids (record s'' { status = reset }) else s''

  -- The loop over the saved packets: those that are next are processed.
  unfoldable pub process_saved : List Packet → Stream → Stream
  unfolding process_packet
  process_saved [] s = s
  process_saved (p ∷ ps) s =
      let rest = process_saved ps (process_packet p (record s { saved_packets = ps })) in
      if get_seqn p == (s.last_received + 1) % 2 ^ 32 then rest else s

  abbrev pub schedule_ack : Stream → Stream
  schedule_ack s = call schedule_ack_send (record s { is_ack_send_scheduled = true })

  -- The next packet in order, or one that synchronizes.
  unfoldable pub handle_in_order : ℕ → Packet → Stream → Stream
  unfolding process_packet process_saved send_buffer
  handle_in_order ts p s =
      let s1 = process_packet p s in
      let s2 = process_saved s1.saved_packets s1 in
      if is_open s2.status
      then if s2.is_ack_send_scheduled then s2 else schedule_ack s2
      else if is_syn p
      then send_buffer ids ts s2
      else s2

  -- A packet that comes too early is saved. It is answered with the missing numbers, or, before
  -- anything was received, after a while.
  unfoldable pub handle_early : Packet → Stream → Stream
  unfolding send_quick_ack
  handle_early p s =
      let s1 = record s { saved_packets = insert_packet p s.saved_packets } in
      let s2 =
        if s1.is_ack_send_scheduled
        then call cancel_ack_send (record s1 { is_ack_send_scheduled = false })
        else s1 in
      if is_negative s.last_received then schedule_ack s1 else send_quick_ack s2

  -- What follows the acknowledgement.
  unfoldable pub handle_data : ℕ → Packet → Stream → Stream
  unfolding handle_in_order handle_early send_quick_ack
  handle_data ts p s =
      if (get_seqn p == 0) && not (is_syn p)
      then s
      else if is_syn p || (get_seqn p == (s.last_received + 1) % 2 ^ 32)
      then handle_in_order ts p s
      else if signed_ltb s.last_received (get_seqn p)
      then handle_early p s
      else send_quick_ack s

  unfoldable pub handle_next_packet : ℕ → Packet → Stream → Stream
  unfolding process_ack handle_data
  handle_next_packet ts p s =
      let s1 = record s {
        num_received_bytes = (s.num_received_bytes + get_length p) % 2 ^ 64;
        send_stream_id =
            if s.send_stream_id == 0 then get_receive_stream_id p else s.send_stream_id;
      } in
      handle_data ts p (if is_no_ack p then s1 else process_ack ids ts p s1)

-- The loop over the queue, with room for so many bytes. A packet that is not used up has filled the
-- buffer.
unfoldable pub concatenate : ℕ → List Packet → List ℕ × List Packet
concatenate room [] = ([], [])
concatenate room (p ∷ ps) =
    let l = min (get_length p) room in
    let p' = record p { offset = (p.offset + l) % 2 ^ 64 } in
    let bytes = take l (drop p.offset p.buf) in
    let (more, rest) = concatenate (room - l) ps in
    if room == 0
    then ([], p ∷ ps)
    else if get_length p' == 0
    then (bytes ++ more, rest)
    else (bytes, p' ∷ ps)

unfoldable pub concatenate_packets : ℕ → Stream → List ℕ × Stream
unfolding concatenate
concatenate_packets len s =
    let (bytes, queue) = concatenate len s.receive_queue in
    (bytes, record s { receive_queue = queue })
