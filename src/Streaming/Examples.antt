-- ===== src/Streaming/Examples.antt =====
-- Streams of api/Streaming.cpp, as test data, and the theorems on them.
use mathlib.Core.Option.{some-injective, none-ne-some}
use kovri.Common.{
  ℕ, zero, suc, ◌≤◌, ◌≡◌, ◌≢◌, refl, ap, [], ◌∷◌, true, false, arith, take, drop, All,
}
use kovri.Streaming.Packet.{Packet, packet_of, get_seqn, get_ack_through, get_nacks}
use kovri.Streaming.State.{Stream, Identities, open_, reset, init}
use kovri.Streaming.Close.{close}
use kovri.Streaming.Send.{make_packets, send_data, send_buffer}
use kovri.Streaming.Acks.{acknowledge_all, quick_ack_bytes, last_saved}
use kovri.Streaming.Acks.Kept.{IsOrdered, unacknowledged, acknowledge_all-kept}
use kovri.Streaming.Acks.Nacks.{has_seqn}
use kovri.Streaming.Acks.QuickAck.{
  IsReceiving, is_received, not_received, acknowledge_all-quick_ack_bytes,
}
use kovri.Streaming.Acks.Loss.{quick_ack_loses}
use kovri.Streaming.Receive.{concatenate_packets}
use kovri.Streaming.Receive.Reading.{IsQueued, waiting, concatenate_packets-waiting}
use kovri.Streaming.Send.Limits.{IsLimited, send_buffer-IsLimited}
use kovri.Streaming.Timers.{collect_due}
use kovri.Streaming.Timers.GivesUp.{expire, is_due, IsDue, expire-reset}
use kovri.Streaming.Lease.{Lease, LeaseChoice, Remote, update_current_remote_lease}
use kovri.Streaming.Lease.Another.{
  IsOneOf, HasDistinctTunnels, update_current_remote_lease-IsAnother,
}
use kovri.Streaming.Lifetime.{phase, IsSound}
use kovri.Streaming.Lifetime.Steps.{stop, step, sends, flushes, closes, reached-IsSound}
use kovri.Streaming.Transfer.{receive_all}
use kovri.Streaming.Transfer.Complete.{concatenate_packets-receive_all}

abbrev identities : Identities
identities = record {
  local_identity = 1 ∷ 2 ∷ 3 ∷ [];
  local_signature_length = 2;
  sign = λ _. 7 ∷ 8 ∷ [];
  from_buffer = λ buf _. (take 3 buf, 3);
  signature_length = λ _. 2;
  verify = λ _ _ _. true;
}

-- A packet with the number `256 * a + b`.
abbrev numbered : ℕ → ℕ → Packet
numbered a b =
    packet_of
      (0 ∷ 0 ∷ 0 ∷ 9 ∷ 0 ∷ 0 ∷ 0 ∷ 5 ∷ 0 ∷ 0 ∷ a ∷ b ∷ 0 ∷ 0 ∷ 0 ∷ 0 ∷ 0 ∷ 9 ∷ 0 ∷ 0 ∷ 0 ∷ 0 ∷ [])

abbrev sender : Stream
sender = record (init 5 []) {
  send_stream_id = 9;
  sequence_number = 1;
  status = open_;
  send_buffer = record { content = 1 ∷ 2 ∷ 3 ∷ []; eof = false };
  sent_packets = numbered 0 1 ∷ numbered 0 2 ∷ numbered 0 3 ∷ [];
}

abbrev receiver : Stream
receiver = record (init 9 []) { send_stream_id = 5; last_received = 0; status = open_ }

-- It has 1 and 3.
abbrev gapped : Stream
gapped = record receiver { last_received = 1; saved_packets = numbered 0 3 ∷ [] }

gapped-IsReceiving : IsReceiving gapped
unfolding get_seqn last_saved
gapped-IsReceiving = record {
  non_negative = omega arith;
  saved_ordered = (omega arith, tt);
  short = (omega arith, omega arith);
}

sent-IsOrdered : IsOrdered 0 sender.sent_packets
unfolding get_seqn
sent-IsOrdered = (omega arith, (omega arith, (omega arith, tt)))

concatenate_packets-receive_all_example :
    (concatenate_packets 100
      (receive_all identities 1000 (make_packets identities false 1 sender).0 receiver)).0
    ≡ 1 ∷ 2 ∷ 3 ∷ []
concatenate_packets-receive_all_example =
    concatenate_packets-receive_all identities identities 1000 1 100 false sender receiver refl refl
      refl (omega arith) (omega arith) (omega arith) (omega arith) refl refl

-- Two bytes are read, and three are left.
abbrev partly_read : Packet
partly_read = record { buf = 9 ∷ 9 ∷ 1 ∷ 2 ∷ 3 ∷ []; len = 5; offset = 2; send_time = 0 }

abbrev reading : Stream
reading = record receiver { receive_queue = partly_read ∷ partly_read ∷ [] }

partly_read-IsQueued : IsQueued partly_read
partly_read-IsQueued = record { ordered = omega arith; within = omega arith; bounded = omega arith }

concatenate_packets-waiting_example :
    let (bytes, s') = concatenate_packets 4 reading in
    (bytes ≡ take 4 (waiting reading.receive_queue))
    × (waiting s'.receive_queue ≡ drop 4 (waiting reading.receive_queue))
    × All IsQueued s'.receive_queue
concatenate_packets-waiting_example =
    concatenate_packets-waiting 4 reading (partly_read-IsQueued, (partly_read-IsQueued, tt))

acknowledge_all-kept_example :
    (acknowledge_all 1000 2 (1 ∷ []) sender.sent_packets sender).0
    ≡ unacknowledged 2 (1 ∷ []) sender.sent_packets
acknowledge_all-kept_example =
    acknowledge_all-kept 1000 2 (1 ∷ []) 0 sender.sent_packets sender sent-IsOrdered

acknowledge_all-quick_ack_bytes_example :
    let q = packet_of (quick_ack_bytes gapped) in
    (acknowledge_all 1000 (get_ack_through q) (get_nacks q) sender.sent_packets sender).0
    ≡ not_received gapped sender.sent_packets
acknowledge_all-quick_ack_bytes_example =
    acknowledge_all-quick_ack_bytes 1000 0 sender.sent_packets sender gapped sent-IsOrdered
      gapped-IsReceiving

-- The first saved packet has the number 300.
abbrev far : Stream
far = record receiver { saved_packets = numbered 1 44 ∷ [] }

quick_ack_loses_example :
    let q = packet_of (quick_ack_bytes far) in
    (is_received 1 far ≡ false)
    × (has_seqn 1
          (acknowledge_all 1000 (get_ack_through q) (get_nacks q) sender.sent_packets sender).0
        ≡ false)
unfolding get_seqn last_saved
quick_ack_loses_example =
    quick_ack_loses 1000 0 sender.sent_packets sender far (numbered 1 44) [] sent-IsOrdered refl
      (omega arith) tt (omega arith)

abbrev begun : Stream
begun = send_buffer identities 1000 (send_data (1 ∷ []) (init 5 []))

reached-IsSound_example :
    IsSound (close identities begun) × (phase begun.status ≤ phase (close identities begun).status)
reached-IsSound_example =
    reached-IsSound identities 5 [] begun (close identities begun)
      (step (sends (1 ∷ [])) (step (flushes 1000) (stop begun)))
      (step closes (stop (close identities begun)))

abbrev unanswered : Stream
unanswered = record sender { num_resend_attempts = 5 }

unanswered-IsDue : IsDue identities (10000 ∷ []) unanswered
unfolding IsDue is_due collect_due
unanswered-IsDue = (refl, tt)

expire-reset_example : (expire identities (10000 ∷ 30000 ∷ []) unanswered).status ≡ reset
expire-reset_example =
    expire-reset identities (10000 ∷ []) 30000 unanswered (omega arith) unanswered-IsDue

abbrev lease : ℕ → Lease
lease n = record { tunnel_gateway = 4 ∷ n ∷ []; tunnel_id = n; end_date = 600000 }

abbrev two_leases : Remote
two_leases = record { found = false; leases = λ _. lease 1 ∷ lease 2 ∷ []; draw = λ _. 0 }

two_leases-HasDistinctTunnels : HasDistinctTunnels (lease 1 ∷ lease 2 ∷ [])
two_leases-HasDistinctTunnels zero zero l m e e' h = refl
two_leases-HasDistinctTunnels zero (suc zero) l m e e' h = absurd (
    omega (
      arith,
      ap (λ (k : Lease). k.tunnel_id) (some-injective (lease 1) l e),
      ap (λ (k : Lease). k.tunnel_id) (some-injective (lease 2) m e'),
      h,
    ))
two_leases-HasDistinctTunnels (suc zero) zero l m e e' h = absurd (
    omega (
      arith,
      ap (λ (k : Lease). k.tunnel_id) (some-injective (lease 2) l e),
      ap (λ (k : Lease). k.tunnel_id) (some-injective (lease 1) m e'),
      h,
    ))
two_leases-HasDistinctTunnels (suc zero) (suc zero) l m e e' h = refl
two_leases-HasDistinctTunnels i (suc (suc j)) l m e e' h = absurd (none-ne-some m e')
two_leases-HasDistinctTunnels (suc (suc i)) j l m e e' h = absurd (none-ne-some l e)

abbrev current_choice : LeaseChoice
current_choice = record { has_lease_set = true; current = lease 1 }

update_current_remote_lease-IsAnother_example :
    let l = (update_current_remote_lease two_leases true current_choice).current in
    IsOneOf l (lease 1 ∷ lease 2 ∷ []) × (l.tunnel_id ≢ 1)
update_current_remote_lease-IsAnother_example =
    update_current_remote_lease-IsAnother two_leases true current_choice refl (λ n. omega arith)
      (omega arith) (omega arith) two_leases-HasDistinctTunnels

-- A window of six, of which three are free.
abbrev limited : Stream
limited = record sender { window_size = 6 }

limited-IsLimited : IsLimited limited
limited-IsLimited = record {
  few = omega arith;
  small = (omega arith, (omega arith, (omega arith, tt)));
}

send_buffer-IsLimited_example : IsLimited (send_buffer identities 1000 limited)
send_buffer-IsLimited_example =
    send_buffer-IsLimited identities (λ _. refl) (omega arith) 1000 limited limited-IsLimited
