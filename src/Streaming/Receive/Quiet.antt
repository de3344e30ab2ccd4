-- ===== src/Streaming/Receive/Quiet.antt =====
-- What sending, acknowledgements and closing in api/Streaming.cpp leave alone: the packets to read,
-- the saved packets and the last received number.
use kovri.Common.{
  ℕ, zero, suc, ◌+◌, ◌*◌, ◌/◌, ◌-◌, ◌^◌, ◌%◌, ◌≡◌, refl, ◌∙◌, List, [], ◌∷◌, Bool, true, false,
  if◌then◌else◌, ltb, leb, ◌&&◌, ◌||◌, not, length, map,
}
use kovri.Streaming.Packet.{Packet, get_seqn, get_bytes, get_ack_through, get_nacks}
use kovri.Streaming.State.{
  Stream, StreamStatus, new, open_, reset, closing, closed, Identities, send_packets,
  cancel_ack_send, cancel_resend, call, is_negative,
}
use kovri.Streaming.Close.{is_empty, terminate, send_close, close_closing, close_by, close}
use kovri.Streaming.Send.{
  make_packet, make_packets, notify_sent, insert_all, transmit, send_buffer, is_new, is_closing,
  is_established,
}
use kovri.Streaming.Acks.{
  is_nacked, new_rtt, grow_window, acknowledge, acknowledge_all, process_ack,
}

abbrev pub Inbox : Type 0
Inbox = List Packet × List Packet × ℕ

abbrev pub inbox : Stream → Inbox
inbox s = (s.receive_queue, s.saved_packets, s.last_received)

pub record Quiet (s s' : Stream) : Type 0 where
  pub same : inbox s ≡ inbox s'

abbrev pub Quiet-same : {s s' : Stream} → inbox s ≡ inbox s' → Quiet s s'
Quiet-same e = record { same = e }

abbrev pub Quiet-refl : (s : Stream) → Quiet s s
Quiet-refl s = record { same = refl }

abbrev pub Quiet-then : {a b c : Stream} → Quiet a b → Quiet b c → Quiet a c
Quiet-then k l = record { same = k.same ∙ l.same }

pub Quiet-if : {s x y : Stream} (b : Bool) → Quiet s x → Quiet s y → Quiet s (if b then x else y)
Quiet-if true k l = k
Quiet-if false k l = l

Quiet-if_pair :
    {A : Type 0} {s : Stream} (b : Bool) (x y : A × Stream)
    → Quiet s x.1
    → Quiet s y.1
    → Quiet s (if b then x else y).1
Quiet-if_pair true x y k l = k
Quiet-if_pair false x y k l = l

Quiet-if_triple :
    {A B : Type 0} {s : Stream} (b : Bool) (x y : A × Stream × B)
    → Quiet s x.1
    → Quiet s y.1
    → Quiet s (if b then x else y).1
Quiet-if_triple true x y k l = k
Quiet-if_triple false x y k l = l

terminate-Quiet : (s : Stream) → Quiet s (terminate s)
unfolding terminate
terminate-Quiet s = Quiet-if s.send_handler (Quiet-same refl) (Quiet-same refl)

grow_window-Quiet : (ts : ℕ) (s : Stream) → Quiet s (grow_window ts s)
unfolding grow_window
grow_window-Quiet ts s = Quiet-if (ltb s.window_size 6) (Quiet-same refl) (
    Quiet-if (ltb ((s.last_window_size_increase_time + s.rtt) % 2 ^ 64) ts) (Quiet-same refl)
      (Quiet-refl s))

acknowledge-Quiet : (ts : ℕ) (p : Packet) (s : Stream) → Quiet s (acknowledge ts p s)
unfolding acknowledge
acknowledge-Quiet ts p s =
    let rtt' = new_rtt s.rtt (get_seqn p) ((ts + 2 ^ 64 - p.send_time) % 2 ^ 64) in
    let s' : Stream = record s { rtt = rtt'; rto = rtt' * 3 / 2 } in
    Quiet-then {b = s'} (Quiet-same refl) (grow_window-Quiet ts s')

acknowledge_all-Quiet :
    (ts through : ℕ) (nacks : List ℕ) (ps : List Packet) (s : Stream)
    → Quiet s (acknowledge_all ts through nacks ps s).1
unfolding acknowledge_all
acknowledge_all-Quiet ts through nacks [] s = Quiet-refl s
acknowledge_all-Quiet ts through nacks (p ∷ ps) s =
    let nacked = is_nacked (get_seqn p) nacks in
    let s' = if nacked then s else acknowledge ts p s in
    Quiet-if_triple (leb (get_seqn p) through) _ _
      (Quiet-then (Quiet-if nacked (Quiet-refl s) (acknowledge-Quiet ts p s))
        (acknowledge_all-Quiet ts through nacks ps s'))
      (Quiet-refl s)

module _ (ids : Identities) where
  end-Quiet : (s : Stream) → Quiet s (terminate (send_close ids s))
  unfolding send_close
  end-Quiet s =
      Quiet-then {b = send_close ids s} (Quiet-same refl) (terminate-Quiet (send_close ids s))

  close_closing-Quiet : (s : Stream) → Quiet s (close_closing ids s)
  unfolding close_closing
  close_closing-Quiet s =
      let ended : Stream = record s { status = closed } in
      Quiet-if (is_empty s.sent_packets && s.send_buffer.eof)
        (Quiet-then {b = terminate (send_close ids ended)}
          (Quiet-then {b = ended} (Quiet-same refl) (end-Quiet ended)) (Quiet-same refl))
        (Quiet-refl s)

  close_by-Quiet : (t : StreamStatus) (s : Stream) → Quiet s (close_by ids t s)
  close_by-Quiet new s = Quiet-refl s
  close_by-Quiet open_ s =
      let s' : Stream = record s { status = closing } in
      Quiet-then {b = s'} (Quiet-same refl) (close_closing-Quiet s')
  close_by-Quiet reset s =
      Quiet-then {b = terminate (send_close ids s)} (end-Quiet s) (Quiet-same refl)
  close_by-Quiet closing s = close_closing-Quiet s
  close_by-Quiet closed s = Quiet-then {b = terminate s} (terminate-Quiet s) (Quiet-same refl)

  close-Quiet : (s : Stream) → Quiet s (close ids s)
  unfolding close
  close-Quiet s = close_by-Quiet s.status s

  make_packets-Quiet :
      (no_ack : Bool) (n : ℕ) (s : Stream) → Quiet s (make_packets ids no_ack n s).1
  unfolding make_packets make_packet
  make_packets-Quiet no_ack zero s = Quiet-refl s
  make_packets-Quiet no_ack (suc n) s =
      let s' = (make_packet ids no_ack s).1 in
      let made : Quiet s s' =
        Quiet-if_pair (is_new s.status) _ _ (Quiet-same refl) (Quiet-same refl) in
      Quiet-if_pair (is_new s.status || (is_established s && not s.send_buffer.eof)) _ _
        (Quiet-then made (make_packets-Quiet no_ack n s')) (Quiet-refl s)

  notify_sent-Quiet : (s : Stream) → Quiet s (notify_sent ids s)
  unfolding notify_sent
  notify_sent-Quiet s =
      Quiet-if (s.send_buffer.eof && s.send_handler) (Quiet-same refl) (Quiet-refl s)

  transmit-Quiet : (ts : ℕ) (ps : List Packet) (s : Stream) → Quiet s (transmit ids ts ps s)
  unfolding transmit send_close
  transmit-Quiet ts ps s =
      let s3 : Stream =
        call (send_packets (map (λ p. get_bytes p) ps))
          (record (call cancel_ack_send (record s { is_ack_send_scheduled = false })) {
            sent_packets = insert_all ids ts ps s.sent_packets;
          }) in
      let last = is_closing s.status && s.send_buffer.eof in
      let s4 = if last then send_close ids s3 else s3 in
      let q4 : Quiet s s4 = Quiet-if last (Quiet-same refl) (Quiet-same refl) in
      Quiet-if (is_empty ps) (Quiet-refl s)
        (Quiet-if (is_empty s.sent_packets) (Quiet-then {b = s4} q4 (Quiet-same refl)) q4)

  send_buffer-Quiet : (ts : ℕ) (s : Stream) → Quiet s (send_buffer ids ts s)
  unfolding send_buffer
  send_buffer-Quiet ts s =
      let no_ack = is_negative s.last_received in
      let free = s.window_size - length s.sent_packets in
      let made = make_packets ids no_ack free s in
      Quiet-if (leb s.window_size (length s.sent_packets)) (Quiet-refl s) (
        Quiet-then (make_packets-Quiet no_ack free s) (
          Quiet-then (notify_sent-Quiet made.1)
            (transmit-Quiet ts made.0 (notify_sent ids made.1))))

  pub process_ack-Quiet : (ts : ℕ) (p : Packet) (s : Stream) → Quiet s (process_ack ids ts p s)
  unfolding process_ack
  process_ack-Quiet ts p s =
      let found = acknowledge_all ts (get_ack_through p) (get_nacks p) s.sent_packets s in
      let s1 : Stream = record found.1 { sent_packets = found.0 } in
      let s2 = if is_empty found.0 then call cancel_resend s1 else s1 in
      let s2' : Stream = record s2 { num_resend_attempts = 0 } in
      let s3 = if found.2 then send_buffer ids ts s2' else s2 in
      let q1 : Quiet s s1 =
        Quiet-then (acknowledge_all-Quiet ts (get_ack_through p) (get_nacks p) s.sent_packets s)
          (Quiet-same refl) in
      let q2 = Quiet-then q1 (
        Quiet-if (is_empty found.0) (Quiet-same {s = s1} {s' = call cancel_resend s1} refl)
          (Quiet-refl s1)) in
      let q3 = Quiet-then q2 (
        Quiet-if found.2 (Quiet-then {b = s2'} (Quiet-same refl) (send_buffer-Quiet ts s2'))
          (Quiet-refl s2)) in
      Quiet-then q3 (Quiet-if (is_closing s3.status) (close-Quiet s3) (Quiet-refl s3))
