-- ===== src/Streaming/Transfer.antt =====
-- From `SendBuffer` of one stream to `HandleNextPacket` of another, in api/Streaming.cpp.
pub mod Complete
use kovri.Common.{
  if_true, if_false, ℕ, zero, suc, ◌+◌, ◌*◌, ◌/◌, ◌-◌, ◌^◌, ◌%◌, ◌≤◌, ◌<◌, ◌≡◌, refl, ap, sym,
  subst, ◌∙◌, List, [], ◌∷◌, ◌++◌, Bool, true, false, if◌then◌else◌, arith, ltb, leb, ◌==◌, ◌&&◌,
  ◌||◌, not, inl, inr, Bool-cases, length, length-append, take_all, take-append-drop, length-take,
  take, drop, htobe32buf, All, append_assoc, append-nil, All-append, test_bit,
}
use kovri.Streaming.Packet.{
  Packet, packet_of, get_seqn, get_flags, get_option, get_nack_count, get_option_size,
  get_option_data, get_payload, get_length, get_bytes, get_receive_stream_id, is_syn, is_no_ack,
}
use kovri.Streaming.State.{Stream, Identities, read, SendBuffer, signed_ltb, call, cancel_receive}
use kovri.Streaming.Send.{
  data_head, follow_on_head, make_packet, make_packets, send_buffer, is_new, is_open,
  is_established,
}
use kovri.Streaming.Acks.{process_ack}
use kovri.Streaming.Receive.{
  read_identity, is_signed, process_options, process_packet, queue_packet, process_saved,
  handle_in_order, handle_data, handle_next_packet, schedule_ack,
}
use kovri.Streaming.Receive.Reading.{IsQueued, waiting}
use kovri.Streaming.Receive.Quiet.{
  Quiet, Quiet-then, Quiet-same, Quiet-if, Quiet-refl, process_ack-Quiet, Inbox, inbox,
}
use kovri.Streaming.Receive.Plain.{Follows, Queues, follow_on_head-Follows}
use kovri.Streaming.Receive.Next.{Receives, handle_next_packet-Receives}

-- What a read of `n` bytes gives and leaves.
abbrev Takes : ℕ → SendBuffer → List ℕ × SendBuffer → Type 0
Takes n b (bytes, b') = (bytes ++ b'.content ≡ b.content) × (length bytes ≤ n)

Takes-if :
    (n : ℕ) (b : SendBuffer) (c : Bool) (x y : List ℕ × SendBuffer)
    → (c ≡ true → Takes n b x)
    → Takes n b y
    → Takes n b (if c then x else y)
Takes-if n b true x y k l = k refl
Takes-if n b false x y k l = l

pub read-Takes : (n : ℕ) (b : SendBuffer) → Takes n b (read n b)
unfolding read
read-Takes n b =
    Takes-if n b b.eof _ _ (λ _. (refl, omega arith))
      (Takes-if n b (ltb (length b.content) n) _ _
        (λ short. (append-nil b.content, ground (arith, short)))
        (take-append-drop n b.content, omega (arith, length-take n b.content)))

-- The packets arrive one behind the other.
unfoldable pub receive_all : Identities → ℕ → List Packet → Stream → Stream
receive_all ids ts [] r = r
receive_all ids ts (p ∷ ps) r = receive_all ids ts ps (handle_next_packet ids ts p r)

module _ (ids : Identities) where
  -- One packet and the stream after it.
  record Sends (s : Stream) (x : Packet × Stream) : Type 0 where
    payload : List ℕ
    follows : Follows x.0 s.sequence_number payload
    few : length payload ≤ 1708
    next : x.1.sequence_number ≡ suc s.sequence_number
    content : payload ++ x.1.send_buffer.content ≡ s.send_buffer.content
    not_new : is_new x.1.status ≡ false

  pub make_packet_follow_on :
      (no_ack : Bool) (s : Stream)
      → is_new s.status ≡ false
      → let (payload, buffer) = read 1708 s.send_buffer in
        make_packet ids no_ack s ≡ (
          packet_of (follow_on_head ids no_ack s ++ payload),
          record s { sequence_number = (s.sequence_number + 1) % 2 ^ 32; send_buffer = buffer },
        )
  unfolding make_packet follow_on_head data_head htobe32buf
  make_packet_follow_on no_ack s e = if_false _ _ e

  make_packet-Sends :
      (no_ack : Bool) (s : Stream)
      → is_new s.status ≡ false
      → suc s.sequence_number < 2 ^ 32
      → Sends s (make_packet ids no_ack s)
  make_packet-Sends no_ack s e h =
      let taken = read-Takes 1708 s.send_buffer in
      let payload = (read 1708 s.send_buffer).0 in
      subst (Sends s) (sym (make_packet_follow_on no_ack s e)) (record {
        payload = payload;
        follows = follow_on_head-Follows ids no_ack s payload (omega (arith, h));
        few = taken.1;
        next = omega (arith, h);
        content = taken.0;
        not_new = e;
      })

-- Between a sender and a receiver: nothing is lost, and they agree on the next number.
pub record Transfers (s r s' r' : Stream) : Type 0 where
  pub conserved :
      waiting r'.receive_queue ++ s'.send_buffer.content
      ≡ waiting r.receive_queue ++ s.send_buffer.content
  pub queued : All IsQueued r'.receive_queue
  pub in_step : suc r'.last_received ≡ s'.sequence_number
  pub none_saved : r'.saved_packets ≡ []

module _ (sender receiver : Identities) where
  Transfers-if :
      (ts : ℕ) (s r : Stream) (c : Bool) (x y : List Packet × Stream)
      → Transfers s r x.1 (receive_all receiver ts x.0 r)
      → Transfers s r y.1 (receive_all receiver ts y.0 r)
      → let z = if c then x else y in Transfers s r z.1 (receive_all receiver ts z.0 r)
  Transfers-if ts s r true x y k l = k
  Transfers-if ts s r false x y k l = l

  Transfers-step :
      (ts n : ℕ) (no_ack : Bool) (s r : Stream) (x : Packet × Stream)
      → Sends sender s x
      → suc s.sequence_number < 2 ^ 32
      → suc r.last_received ≡ s.sequence_number
      → r.saved_packets ≡ []
      → All IsQueued r.receive_queue
      → Transfers s r x.1 (handle_next_packet receiver ts x.0 r)
  Transfers-step ts n no_ack s r x sent small next none ok =
      let k =
        handle_next_packet-Receives receiver ts x.0 s.sequence_number sent.payload r sent.follows
          sent.few (omega (arith, small)) next none in
      let w = waiting r.receive_queue in
      record {
        conserved =
            ap (λ l. l ++ x.1.send_buffer.content) k.queues.0
            ∙ append_assoc w sent.payload x.1.send_buffer.content
            ∙ ap (λ l. w ++ l) sent.content;
        queued = k.queues.1 ok;
        in_step = ap suc k.last ∙ sym sent.next;
        none_saved = k.none_saved;
      }

  -- A stream that has sent its first packet makes packets of what it has to send, at most `n`. Another
  -- one, which has received all numbers before and saved nothing, gets them in their order. Then the
  -- bytes that wait for its reader, with those that the sender has yet to send, are the same as before,
  -- every packet that waits is within its array, and the next number is again the one of the sender.
  -- The numbers stay below 2 ^ 32.
  pub make_packets-receive_all :
      (ts n : ℕ) (no_ack : Bool) (s r : Stream)
      → is_new s.status ≡ false
      → s.sequence_number + n < 2 ^ 32
      → suc r.last_received ≡ s.sequence_number
      → r.saved_packets ≡ []
      → All IsQueued r.receive_queue
      → let (ps, s') = make_packets sender no_ack n s in
        Transfers s r s' (receive_all receiver ts ps r)
  unfolding make_packets receive_all
  make_packets-receive_all ts zero no_ack s r old small next none ok = record {
    conserved = refl;
    queued = ok;
    in_step = next;
    none_saved = none;
  }
  make_packets-receive_all ts (suc n) no_ack s r old small next none ok =
      let x = make_packet sender no_ack s in
      let sent = make_packet-Sends sender no_ack s old (omega (arith, small)) in
      let k = Transfers-step ts n no_ack s r x sent (omega (arith, small)) next none ok in
      let r1 = handle_next_packet receiver ts x.0 r in
      let rest =
        make_packets-receive_all ts n no_ack x.1 r1 sent.not_new (omega (arith, small, sent.next))
          k.in_step k.none_saved k.queued in
      let all : Transfers s r (make_packets sender no_ack n x.1).1
          (receive_all receiver ts (make_packets sender no_ack n x.1).0 r1) =
        record {
          conserved = rest.conserved ∙ k.conserved;
          queued = rest.queued;
          in_step = rest.in_step;
          none_saved = rest.none_saved;
        } in
      Transfers-if ts s r (is_new s.status || (is_established s && not s.send_buffer.eof)) _ _ all
        (record { conserved = refl; queued = ok; in_step = next; none_saved = none })
