-- ===== src/Streaming/Receive/Next.antt =====
-- The packet that is next in `HandleNextPacket` of api/Streaming.cpp.
use kovri.Common.{
  if_true, if_false, ℕ, suc, ◌+◌, ◌^◌, ◌%◌, ◌≤◌, ◌<◌, ◌≡◌, refl, ap, sym, subst, ◌∙◌, List, [], ◌∷◌,
  ◌++◌, Bool, true, false, if◌then◌else◌, arith, ltb, ◌==◌, ◌&&◌, ◌||◌, not, length, test_bit,
}
use kovri.Streaming.Packet.{
  Packet, get_seqn, get_flags, get_payload, get_length, get_receive_stream_id, is_syn, is_no_ack,
}
use kovri.Streaming.State.{Stream, Identities, call, cancel_receive}
use kovri.Streaming.Send.{send_buffer, is_open}
use kovri.Streaming.Acks.{process_ack}
use kovri.Streaming.Receive.{
  process_packet, queue_packet, process_saved, handle_in_order, handle_data, handle_next_packet,
  schedule_ack,
}
use kovri.Streaming.Receive.Quiet.{
  Quiet, Quiet-then, Quiet-same, Quiet-if, Quiet-refl, process_ack-Quiet, Inbox,
}
use kovri.Streaming.Receive.Plain.{Follows, Queues, queue_packet-Queues, process_packet_plain}

-- What a packet that is next does.
pub record Receives (n : ℕ) (payload : List ℕ) (r r' : Stream) : Type 0 where
  pub queues : Queues r.receive_queue payload r'.receive_queue
  pub last : r'.last_received ≡ n
  pub none_saved : r'.saved_packets ≡ []

Receives-if :
    {n : ℕ} {payload : List ℕ} {r x y : Stream} (b : Bool)
    → Receives n payload r x
    → Receives n payload r y
    → Receives n payload r (if b then x else y)
Receives-if true k l = k
Receives-if false k l = l

Receives-Quiet :
    {n : ℕ} {payload : List ℕ} {r r' x : Stream}
    → Quiet r r'
    → Receives n payload r' x
    → Receives n payload r x
Receives-Quiet {n} {payload} {x} q k = record {
  queues = subst (λ (i : Inbox). Queues i.0 payload x.receive_queue) (sym q.same) k.queues;
  last = k.last;
  none_saved = k.none_saved;
}

queue_packet-saved : (p : Packet) (r : Stream) → (queue_packet p r).saved_packets ≡ r.saved_packets
unfolding queue_packet
queue_packet-saved p r =
    elim (ltb 0 (get_length (record p { offset = get_payload p })))
      as (λ b.
        (if b
          then call cancel_receive (record r {
            receive_queue = r.receive_queue ++ (record p { offset = get_payload p } ∷ []);
          })
          else r).saved_packets
        ≡ r.saved_packets) [ true ↦ refl | false ↦ refl ]

module _ (ids : Identities) where
  processed :
      (p : Packet) (r : Stream)
      → get_flags p ≡ 0
      → r.saved_packets ≡ []
      → let s1 = process_packet ids p r in
        process_saved ids s1.saved_packets s1
        ≡ record (queue_packet p r) { last_received = get_seqn p }
  unfolding process_saved
  processed p r e none =
      let q : Stream = record (queue_packet p r) { last_received = get_seqn p } in
      ap (λ (s : Stream). process_saved ids s.saved_packets s) (process_packet_plain ids p r e)
      ∙ ap (λ (l : List Packet). process_saved ids l q) (queue_packet-saved p r ∙ none)

  handle_in_order-Receives :
      (ts : ℕ) (p : Packet) (n : ℕ) (payload : List ℕ) (r : Stream)
      → Follows p n payload
      → length payload ≤ 1708
      → r.saved_packets ≡ []
      → Receives n payload r (handle_in_order ids ts p r)
  unfolding handle_in_order
  handle_in_order-Receives ts p n payload r f h none =
      let s1 = process_packet ids p r in
      let s2 = process_saved ids s1.saved_packets s1 in
      let q : Stream = record (queue_packet p r) { last_received = get_seqn p } in
      let queued : Receives n payload r q = record {
        queues = queue_packet-Queues p n payload r f h;
        last = f.0;
        none_saved = queue_packet-saved p r ∙ none;
      } in
      let k = subst (Receives n payload r) (sym (processed p r f.1 none)) queued in
      let scheduled : Receives n payload r (schedule_ack ids s2) = record {
        queues = k.queues;
        last = k.last;
        none_saved = k.none_saved;
      } in
      Receives-if (is_open s2.status) (Receives-if s2.is_ack_send_scheduled k scheduled) (
        subst (Receives n payload r)
          (sym (if_false (send_buffer ids ts s2) s2 (ap (λ x. test_bit x 0) f.1))) k)

  handle_data-Receives :
      (ts : ℕ) (p : Packet) (n : ℕ) (payload : List ℕ) (r : Stream)
      → Follows p n payload
      → length payload ≤ 1708
      → n < 2 ^ 32
      → suc r.last_received ≡ n
      → r.saved_packets ≡ []
      → Receives n payload r (handle_data ids ts p r)
  unfolding handle_data
  handle_data-Receives ts p n payload r f h small next none =
      let not_ack : ((get_seqn p == 0) && not (is_syn p)) ≡ false = ground (arith, f.0, next) in
      let in_order : (is_syn p || (get_seqn p == (r.last_received + 1) % 2 ^ 32)) ≡ true =
        ground (arith, f.0, next, small) in
      subst (Receives n payload r)
        (sym (if_false _ _ not_ack ∙ if_true (handle_in_order ids ts p r) _ in_order))
        (handle_in_order-Receives ts p n payload r f h none)

  -- A packet that follows with the next number, while nothing is saved: its payload waits to be read
  -- behind what waits already, its number is the last received one, and nothing is saved.
  pub handle_next_packet-Receives :
      (ts : ℕ) (p : Packet) (n : ℕ) (payload : List ℕ) (r : Stream)
      → Follows p n payload
      → length payload ≤ 1708
      → n < 2 ^ 32
      → suc r.last_received ≡ n
      → r.saved_packets ≡ []
      → Receives n payload r (handle_next_packet ids ts p r)
  unfolding handle_next_packet
  handle_next_packet-Receives ts p n payload r f h small next none =
      let s1 : Stream = record r {
        num_received_bytes = (r.num_received_bytes + get_length p) % 2 ^ 64;
        send_stream_id =
            if r.send_stream_id == 0 then get_receive_stream_id p else r.send_stream_id;
      } in
      let s2 = if is_no_ack p then s1 else process_ack ids ts p s1 in
      let quiet : Quiet r s2 =
        Quiet-then {b = s1} (Quiet-same refl)
          (Quiet-if (is_no_ack p) (Quiet-refl s1) (process_ack-Quiet ids ts p s1)) in
      Receives-Quiet quiet (
        handle_data-Receives ts p n payload s2 f h small
          (ap (λ (i : Inbox). suc i.2) (sym quiet.same) ∙ next)
          (ap (λ (i : Inbox). i.1) (sym quiet.same) ∙ none))
