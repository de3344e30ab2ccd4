-- ===== src/Streaming/Lifetime/Receiving.antt =====
-- `HandleNextPacket`, the timers and the reads of api/Streaming.cpp keep a stream as it has to be.
use kovri.Common.{
  ℕ, suc, ◌+◌, ◌^◌, ◌%◌, ◌≤◌, refl, List, [], ◌∷◌, false, if◌then◌else◌, arith, ltb, ◌==◌, ◌&&◌,
  ◌||◌, not, test_bit,
}
use kovri.Streaming.Packet.{
  Packet, get_seqn, get_payload, get_length, get_flags, insert_packet, is_syn, is_no_ack,
  get_receive_stream_id,
}
use kovri.Streaming.State.{
  Stream, StreamStatus, new, open_, reset, closing, closed, Identities, cancel_ack_send, call,
  is_negative, signed_ltb,
}
use kovri.Streaming.Close.{close}
use kovri.Streaming.Send.{is_open}
use kovri.Streaming.Acks.{process_ack}
use kovri.Streaming.Acks.Kept.{IsOrdered}
use kovri.Streaming.Receive.{
  queue_packet, read_identity, is_signed, process_options, process_packet, process_saved,
  handle_in_order, handle_early, handle_data, handle_next_packet,
}
use kovri.Streaming.Lifetime.{
  phase, After-then, Keeps, Keeps-then, Keeps-status, Keeps-same, Keeps-refl, Keeps-if,
  Keeps-if_pair, IsOrdered-weaken, insert_packet-IsOrdered, close-Keeps,
}
use kovri.Streaming.Lifetime.Sending.{send_quick_ack-Keeps, send_buffer-Keeps}
use kovri.Streaming.Lifetime.Acknowledging.{process_ack-Keeps}

phase_max : (t : StreamStatus) → phase t ≤ 4
phase_max new = omega arith
phase_max open_ = omega arith
phase_max reset = omega arith
phase_max closing = omega arith
phase_max closed = omega arith

abbrev Keeps-saved :
    (s : Stream) (ps : List Packet)
    → (IsOrdered 0 s.saved_packets → IsOrdered 0 ps)
    → Keeps s (record s { saved_packets = ps })
Keeps-saved s ps o = record {
  kept = λ h. record {
    later = omega arith;
    sound = record {
      window_low = h.window_low;
      window_high = h.window_high;
      attempts = h.attempts;
      sent_ordered = h.sent_ordered;
      saved_ordered = o h.saved_ordered;
    };
  };
}

queue_packet-Keeps : (p : Packet) (s : Stream) → Keeps s (queue_packet p s)
unfolding queue_packet
queue_packet-Keeps p s =
    let p' : Packet = record p { offset = get_payload p } in
    Keeps-if (ltb 0 (get_length p')) (Keeps-same refl refl) (Keeps-refl s)

module _ (ids : Identities) where
  -- A stream that is reset is closed.
  pub reset-Keeps : (s : Stream) → Keeps s (close ids (record s { status = reset }))
  reset-Keeps s =
      let s' : Stream = record s { status = reset } in
      Keeps-then {b = s'} (Keeps-status (phase_max s.status) refl) (close-Keeps ids s')

  read_identity-Keeps : (p : Packet) (s : Stream) → Keeps s (read_identity ids p s).1
  unfolding read_identity
  read_identity-Keeps p s =
      Keeps-if_pair (test_bit (get_flags p) 5) _ _ (λ _. Keeps-same refl refl) (Keeps-refl s)

  process_options-Keeps : (p : Packet) (s : Stream) → Keeps s (process_options ids p s).1
  unfolding process_options
  process_options-Keeps p s =
      let start = (read_identity ids p s).0 in
      let s' = (read_identity ids p s).1 in
      Keeps-if_pair (test_bit (get_flags p) 3 && not (is_signed ids start p s')) _ _
        (λ _. Keeps-then (read_identity-Keeps p s) (close-Keeps ids s')) (read_identity-Keeps p s)

  pub process_packet-Keeps : (p : Packet) (s : Stream) → Keeps s (process_packet ids p s)
  unfolding process_packet
  process_packet-Keeps p s =
      let options = process_options ids p s in
      let s'' : Stream = record (queue_packet p options.1) { last_received = get_seqn p } in
      let queued : Keeps s s'' =
        Keeps-then (process_options-Keeps p s)
          (Keeps-then (queue_packet-Keeps p options.1) (Keeps-same refl refl)) in
      Keeps-if (options.0 || test_bit (get_flags p) 2) (Keeps-then queued (reset-Keeps s'')) queued

  process_saved-Keeps :
      (ps : List Packet) (s : Stream) → IsOrdered 0 ps → Keeps s (process_saved ids ps s)
  unfolding process_saved
  process_saved-Keeps [] s o = Keeps-refl s
  process_saved-Keeps (p ∷ ps) s o =
      let o' = IsOrdered-weaken (suc (get_seqn p)) 0 ps (omega arith) o.1 in
      let s' : Stream = record s { saved_packets = ps } in
      let first = Keeps-then (Keeps-saved s ps (λ _. o')) (process_packet-Keeps p s') in
      let rest = process_saved-Keeps ps (process_packet ids p s') o' in
      Keeps-if (get_seqn p == (s.last_received + 1) % 2 ^ 32) (Keeps-then first rest) (Keeps-refl s)

  handle_in_order-Keeps : (ts : ℕ) (p : Packet) (s : Stream) → Keeps s (handle_in_order ids ts p s)
  unfolding handle_in_order
  handle_in_order-Keeps ts p s =
      let s1 = process_packet ids p s in
      let s2 = process_saved ids s1.saved_packets s1 in
      let processed : Keeps s s2 = record {
        kept = λ h.
            let k = (process_packet-Keeps p s).kept h in
            After-then k
              ((process_saved-Keeps s1.saved_packets s1 k.sound.saved_ordered).kept k.sound);
      } in
      Keeps-then processed (
        Keeps-if (is_open s2.status)
          (Keeps-if s2.is_ack_send_scheduled (Keeps-refl s2) (Keeps-same refl refl))
          (Keeps-if (is_syn p) (send_buffer-Keeps ids ts s2) (Keeps-refl s2)))

  handle_early-Keeps : (p : Packet) (s : Stream) → Keeps s (handle_early ids p s)
  unfolding handle_early
  handle_early-Keeps p s =
      let s1 : Stream = record s { saved_packets = insert_packet p s.saved_packets } in
      let s2 : Stream =
        if s1.is_ack_send_scheduled
        then call cancel_ack_send (record s1 { is_ack_send_scheduled = false })
        else s1 in
      Keeps-then
        (Keeps-saved s (insert_packet p s.saved_packets)
          (insert_packet-IsOrdered 0 p s.saved_packets (omega arith)))
        (Keeps-if (is_negative s.last_received) (Keeps-same {s = s1} refl refl) (
          Keeps-then {b = s2}
            (Keeps-if s.is_ack_send_scheduled (Keeps-same refl refl) (Keeps-refl s1))
            (send_quick_ack-Keeps s2)))

  handle_data-Keeps : (ts : ℕ) (p : Packet) (s : Stream) → Keeps s (handle_data ids ts p s)
  unfolding handle_data
  handle_data-Keeps ts p s = Keeps-if ((get_seqn p == 0) && not (is_syn p)) (Keeps-refl s) (
      Keeps-if (is_syn p || (get_seqn p == (s.last_received + 1) % 2 ^ 32))
        (handle_in_order-Keeps ts p s)
        (Keeps-if (signed_ltb s.last_received (get_seqn p)) (handle_early-Keeps p s)
          (send_quick_ack-Keeps s)))

  pub handle_next_packet-Keeps :
      (ts : ℕ) (p : Packet) (s : Stream) → Keeps s (handle_next_packet ids ts p s)
  unfolding handle_next_packet
  handle_next_packet-Keeps ts p s =
      let s1 : Stream = record s {
        num_received_bytes = (s.num_received_bytes + get_length p) % 2 ^ 64;
        send_stream_id =
            if s.send_stream_id == 0 then get_receive_stream_id p else s.send_stream_id;
      } in
      let s2 = if is_no_ack p then s1 else process_ack ids ts p s1 in
      Keeps-then {b = s1} (Keeps-same refl refl) (
        Keeps-then {b = s2} (Keeps-if (is_no_ack p) (Keeps-refl s1) (process_ack-Keeps ids ts p s1))
          (handle_data-Keeps ts p s2))
