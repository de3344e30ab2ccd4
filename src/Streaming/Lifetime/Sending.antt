-- ===== src/Streaming/Lifetime/Sending.antt =====
-- `SendBuffer`, `Send`, `AsyncSend`, `SendPacket` and `SendQuickAck` of api/Streaming.cpp keep a
-- stream as it has to be.
use kovri.Common.{
  ℕ, zero, suc, ◌-◌, ◌≡◌, refl, List, [], ◌∷◌, Bool, true, false, if◌then◌else◌, arith, leb, ◌&&◌,
  ◌||◌, not, length, map,
}
use kovri.Streaming.Packet.{Packet, get_bytes, insert_packet}
use kovri.Streaming.State.{
  Stream, StreamStatus, new, open_, reset, closing, closed, Identities, send_packets,
  schedule_resend, cancel_ack_send, call, is_negative,
}
use kovri.Streaming.Close.{is_empty, send_close}
use kovri.Streaming.Send.{
  make_packet, make_packets, notify_sent, insert_all, transmit, send_buffer, send_data, async_send,
  send_packet, is_new, is_open, is_closing, is_established,
}
use kovri.Streaming.Acks.{send_quick_ack, last_seen}
use kovri.Streaming.Acks.Kept.{IsOrdered}
use kovri.Streaming.Lifetime.{
  phase, Keeps, Keeps-then, Keeps-status, Keeps-same, Keeps-refl, Keeps-if, Keeps-if_pair,
  Keeps-call, insert_packet-IsOrdered, send_close-Keeps,
}

new_phase : (t : StreamStatus) → is_new t ≡ true → phase t ≡ 0
new_phase new e = refl
new_phase open_ e = ground (arith, e)
new_phase reset e = ground (arith, e)
new_phase closing e = ground (arith, e)
new_phase closed e = ground (arith, e)

abbrev Unsent : Type 0
Unsent = StreamStatus × ℕ × ℕ × List Packet

-- What stays when only the sent packets are changed.
abbrev unsent : Stream → Unsent
unsent s = (s.status, s.window_size, s.num_resend_attempts, s.saved_packets)

unsent-if :
    (f : Unsent) (b : Bool) (x y : Stream)
    → f ≡ unsent x
    → f ≡ unsent y
    → f ≡ unsent (if b then x else y)
unsent-if f true x y e e' = e
unsent-if f false x y e e' = e'

pub Keeps-sent :
    (s s' : Stream)
    → unsent s ≡ unsent s'
    → (IsOrdered 0 s.sent_packets → IsOrdered 0 s'.sent_packets)
    → Keeps s s'
Keeps-sent s s' e o =
    let between : Stream = record s { sent_packets = s'.sent_packets } in
    let inserted : Keeps s between = record {
      kept = λ h. record {
        later = omega arith;
        sound = record {
          window_low = h.window_low;
          window_high = h.window_high;
          attempts = h.attempts;
          sent_ordered = o h.sent_ordered;
          saved_ordered = h.saved_ordered;
        };
      };
    } in
    Keeps-then inserted
      (Keeps-same (λ j. (e j).0) (λ j. ((e j).1, (e j).2, s'.sent_packets, (e j).3)))

-- A packet of its own.
pub send_packet-Keeps : (p : Packet) (s : Stream) → Keeps s (send_packet p s)
unfolding send_packet
send_packet-Keeps p s =
    let s1 : Stream =
      if s.is_ack_send_scheduled
      then call cancel_ack_send (record s { is_ack_send_scheduled = false })
      else s in
    let s2 = call (send_packets (get_bytes p ∷ [])) s1 in
    let s3 : Stream = record s2 { sent_packets = insert_packet p s.sent_packets } in
    let k2 =
      Keeps-call (send_packets (get_bytes p ∷ [])) s s1
        (Keeps-if s.is_ack_send_scheduled (Keeps-same refl refl) (Keeps-refl s)) in
    let k3 =
      Keeps-sent s s3
        (unsent-if (unsent s) s.is_ack_send_scheduled
          (call cancel_ack_send (record s { is_ack_send_scheduled = false })) s refl refl)
        (insert_packet-IsOrdered 0 p s.sent_packets (omega arith)) in
    Keeps-if (is_open s.status)
      (Keeps-if (is_empty s.sent_packets) (Keeps-call (schedule_resend s.rto) s s3 k3) k3) k2

pub send_data-Keeps : (bytes : List ℕ) (s : Stream) → Keeps s (send_data bytes s)
unfolding send_data
send_data-Keeps [] s = Keeps-same refl refl
send_data-Keeps (b ∷ bytes) s = Keeps-same refl refl

pub async_send-Keeps : (bytes : List ℕ) (s : Stream) → Keeps s (async_send bytes s)
unfolding async_send
async_send-Keeps bytes s =
    Keeps-if s.send_handler (Keeps-then (Keeps-same refl refl) (send_data-Keeps bytes _))
      (Keeps-then (Keeps-same refl refl) (send_data-Keeps bytes _))

pub send_quick_ack-Keeps : (s : Stream) → Keeps s (send_quick_ack s)
unfolding send_quick_ack
send_quick_ack-Keeps s = Keeps-if (is_negative (last_seen s)) (Keeps-refl s) (Keeps-same refl refl)

module _ (ids : Identities) where
  insert_all-IsOrdered :
      (ts : ℕ) (ps qs : List Packet) → IsOrdered 0 qs → IsOrdered 0 (insert_all ids ts ps qs)
  unfolding insert_all
  insert_all-IsOrdered ts [] qs o = o
  insert_all-IsOrdered ts (p ∷ ps) qs o =
      let q : Packet = record p { send_time = ts } in
      insert_all-IsOrdered ts ps (insert_packet q qs)
        (insert_packet-IsOrdered 0 q qs (omega arith) o)

  make_packet-Keeps : (no_ack : Bool) (s : Stream) → Keeps s (make_packet ids no_ack s).1
  unfolding make_packet
  make_packet-Keeps no_ack s =
      Keeps-if_pair (is_new s.status) _ _
        (λ e. Keeps-status (omega (arith, new_phase s.status e)) refl) (Keeps-same refl refl)

  make_packets-Keeps :
      (no_ack : Bool) (n : ℕ) (s : Stream) → Keeps s (make_packets ids no_ack n s).1
  unfolding make_packets
  make_packets-Keeps no_ack zero s = Keeps-refl s
  make_packets-Keeps no_ack (suc n) s =
      let s' = (make_packet ids no_ack s).1 in
      Keeps-if_pair (is_new s.status || (is_established s && not s.send_buffer.eof)) _ _
        (λ _. Keeps-then (make_packet-Keeps no_ack s) (make_packets-Keeps no_ack n s'))
        (Keeps-refl s)

  notify_sent-Keeps : (s : Stream) → Keeps s (notify_sent ids s)
  unfolding notify_sent
  notify_sent-Keeps s =
      Keeps-if (s.send_buffer.eof && s.send_handler) (Keeps-same refl refl) (Keeps-refl s)

  transmit-Keeps : (ts : ℕ) (ps : List Packet) (s : Stream) → Keeps s (transmit ids ts ps s)
  unfolding transmit
  transmit-Keeps ts ps s =
      let s3 : Stream =
        call (send_packets (map (λ p. get_bytes p) ps))
          (record (call cancel_ack_send (record s { is_ack_send_scheduled = false })) {
            sent_packets = insert_all ids ts ps s.sent_packets;
          }) in
      let last = is_closing s.status && s.send_buffer.eof in
      let s4 = if last then send_close ids s3 else s3 in
      let k3 = Keeps-sent s s3 refl (insert_all-IsOrdered ts ps s.sent_packets) in
      let k4 = Keeps-then k3 (Keeps-if last (send_close-Keeps ids s3) (Keeps-refl s3)) in
      Keeps-if (is_empty ps) (Keeps-refl s)
        (Keeps-if (is_empty s.sent_packets) (Keeps-call (schedule_resend s.rto) s s4 k4) k4)

  pub send_buffer-Keeps : (ts : ℕ) (s : Stream) → Keeps s (send_buffer ids ts s)
  unfolding send_buffer
  send_buffer-Keeps ts s =
      let made =
        make_packets ids (is_negative s.last_received) (s.window_size - length s.sent_packets) s in
      Keeps-if (leb s.window_size (length s.sent_packets)) (Keeps-refl s) (
        Keeps-then
          (make_packets-Keeps (is_negative s.last_received) (s.window_size - length s.sent_packets)
            s)
          (Keeps-then (notify_sent-Keeps made.1)
            (transmit-Keeps ts made.0 (notify_sent ids made.1))))
