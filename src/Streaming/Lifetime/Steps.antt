-- ===== src/Streaming/Lifetime/Steps.antt =====
-- The operations on a stream of api/Streaming.cpp that its destination, its timers and its user make,
-- and the runs of them.
use kovri.Common.{ℕ, ◌≤◌, refl, List, Bool, arith}
use kovri.Streaming.Packet.{Packet}
use kovri.Streaming.State.{Stream, Identities, init}
use kovri.Streaming.Close.{close, terminate}
use kovri.Streaming.Send.{send_data, async_send, send_buffer, send_packet}
use kovri.Streaming.Receive.{handle_next_packet, concatenate_packets}
use kovri.Streaming.Timers.{handle_resend_timer, handle_ack_send_timer, handle_receive_timer}
use kovri.Streaming.Lifetime.{
  phase, IsSound, After, After-then, Keeps, Keeps-same, close-Keeps, terminate-Keeps,
}
use kovri.Streaming.Lifetime.Sending.{
  send_data-Keeps, async_send-Keeps, send_buffer-Keeps, send_packet-Keeps,
}
use kovri.Streaming.Lifetime.Receiving.{handle_next_packet-Keeps}
use kovri.Streaming.Lifetime.Timing.{handle_resend_timer-Keeps, handle_ack_send_timer-Keeps}

-- Times and packets are whatever comes; a posted call runs at any time later.
pub data Step (ids : Identities) (s : Stream) : Stream → Type 0 where
  receives : (ts : ℕ) (p : Packet) → Step ids s (handle_next_packet ids ts p s)
  sends : (bytes : List ℕ) → Step ids s (send_data bytes s)
  sends_async : (bytes : List ℕ) → Step ids s (async_send bytes s)
  flushes : (ts : ℕ) → Step ids s (send_buffer ids ts s)
  sends_packet : (p : Packet) → Step ids s (send_packet p s)
  resends : (aborted : Bool) (ts : ℕ) → Step ids s (handle_resend_timer ids aborted ts s)
  sends_ack : Step ids s (handle_ack_send_timer ids s)
  reads : (len : ℕ) → Step ids s (concatenate_packets len s).1
  reads_timed : (aborted : Bool) (len : ℕ) → Step ids s (handle_receive_timer aborted len s).1
  closes : Step ids s (close ids s)
  terminates : Step ids s (terminate s)

-- Any number of operations.
pub data Run (ids : Identities) : Stream → Stream → Type 0 where
  stop : (s : Stream) → Run ids s s
  step : {s s' s'' : Stream} → Step ids s s' → Run ids s' s'' → Run ids s s''

Step-Keeps : (ids : Identities) (s s' : Stream) → Step ids s s' → Keeps s s'
unfolding concatenate_packets handle_receive_timer
Step-Keeps ids s s' (receives ts p) = handle_next_packet-Keeps ids ts p s
Step-Keeps ids s s' (sends bytes) = send_data-Keeps bytes s
Step-Keeps ids s s' (sends_async bytes) = async_send-Keeps bytes s
Step-Keeps ids s s' (flushes ts) = send_buffer-Keeps ids ts s
Step-Keeps ids s s' (sends_packet p) = send_packet-Keeps p s
Step-Keeps ids s s' (resends aborted ts) = handle_resend_timer-Keeps ids aborted ts s
Step-Keeps ids s s' sends_ack = handle_ack_send_timer-Keeps ids s
Step-Keeps ids s s' (reads len) = Keeps-same refl refl
Step-Keeps ids s s' (reads_timed aborted len) = Keeps-same refl refl
Step-Keeps ids s s' closes = close-Keeps ids s
Step-Keeps ids s s' terminates = terminate-Keeps s

Run-After : (ids : Identities) (s s' : Stream) → Run ids s s' → IsSound s → After s s'
Run-After ids s s' (stop t) h = record { later = omega arith; sound = h }
Run-After ids s s'' (step {s' = s'} first rest) h =
    let k = (Step-Keeps ids s s' first).kept h in After-then k (Run-After ids s' s'' rest k.sound)

init-IsSound : (id : ℕ) (remote : List ℕ) → IsSound (init id remote)
init-IsSound id remote = record {
  window_low = omega arith;
  window_high = omega arith;
  attempts = omega arith;
  sent_ordered = tt;
  saved_ordered = tt;
}

-- Whatever operations run on a new stream, its window stays between 1 and 128, it has not been sent
-- again in vain more than 6 times in a row, the packets that it sent, and those that it saved, are in
-- the order of their numbers without a number twice; and of the statuses new, open, closing, closed
-- and reset it never goes back to an earlier one.
pub reached-IsSound :
    (ids : Identities) (id : ℕ) (remote : List ℕ) (s s' : Stream)
    → Run ids (init id remote) s
    → Run ids s s'
    → IsSound s' × (phase s.status ≤ phase s'.status)
reached-IsSound ids id remote s s' before after =
    let h = (Run-After ids (init id remote) s before (init-IsSound id remote)).sound in
    let k = Run-After ids s s' after h in (k.sound, k.later)
