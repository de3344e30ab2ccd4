-- ===== src/Streaming/Timers.antt =====
-- Timers in api/Streaming.cpp: resending, the delayed acknowledgement, and the wait of a reader.
pub mod GivesUp
use kovri.Common.{
  ℕ, ◌+◌, ◌*◌, ◌/◌, ◌%◌, ◌^◌, List, [], ◌∷◌, Bool, true, false, if◌then◌else◌, ◌||◌, not, ltb, leb,
  ◌==◌, map, length,
}
use kovri.Streaming.Packet.{
  Packet, get_bytes, min_window_size, max_num_resend_attempts, initial_rto,
}
use kovri.Streaming.State.{
  Stream, StreamStatus, reset, Identities, schedule_resend, send_packets, update_lease,
  next_outbound_tunnel, call, is_negative,
}
use kovri.Streaming.Close.{is_empty, close}
use kovri.Streaming.Send.{is_open}
use kovri.Streaming.Acks.{send_quick_ack}
use kovri.Streaming.Receive.{concatenate_packets}

-- The sent packets that are due at `ts`, and all of them with the time of the due ones set.
unfoldable pub collect_due : ℕ → ℕ → List Packet → List Packet × List Packet
collect_due ts rto [] = ([], [])
collect_due ts rto (p ∷ ps) =
    let (due, all) = collect_due ts rto ps in
    let p' = record p { send_time = ts } in
    if leb ((p.send_time + rto) % 2 ^ 64) ts then (p' ∷ due, p' ∷ all) else (due, p ∷ all)

abbrev pub halved : ℕ → ℕ
halved window = if ltb (window / 2) min_window_size then min_window_size else window / 2

-- The `switch` on the number of attempts; the case 2 falls through to 4.
unfoldable pub back_off : ℕ → Stream → Stream
back_off attempts s =
    if attempts == 1
    then (record s { window_size = halved s.window_size })
    else if attempts == 2
    then call update_lease (record s { rto = initial_rto })
    else if attempts == 3
    then call next_outbound_tunnel s
    else if attempts == 4
    then call update_lease s
    else s

unfoldable pub resend : ℕ → Stream → Stream
unfolding collect_due back_off
resend ts s =
    let (due, all) = collect_due ts s.rto s.sent_packets in
    let attempts = s.num_resend_attempts + 1 in
    let s1 = record s {
      sent_packets = all;
      num_resend_attempts = attempts;
      rto = s.rto * 2 % 2 ^ 32;
    } in
    if is_empty due
    then s
    else call (send_packets (map (λ p. get_bytes p) due)) (back_off attempts s1)

module _ (ids : Identities) where
  unfoldable pub handle_resend_timer : Bool → ℕ → Stream → Stream
  unfolding resend close
  handle_resend_timer aborted ts s =
      let s' = resend ts s in
      if aborted
      then s
      else if leb max_num_resend_attempts s.num_resend_attempts
      then close ids (record s { status = reset })
      else call (schedule_resend s'.rto) s'

  -- Whether the timer was aborted is not tested.
  unfoldable pub handle_ack_send_timer : Stream → Stream
  unfolding close send_quick_ack
  handle_ack_send_timer s =
      let s' = if is_open s.status then send_quick_ack s else s in
      if not s.is_ack_send_scheduled
      then s
      else if is_negative s.last_received
      then close ids (record s { status = reset })
      else record s' { is_ack_send_scheduled = false }

-- What a reader is told.
pub data Received : Type 0 where
  received : List ℕ → Received
  connection_reset operation_aborted timed_out : Received

abbrev is_reset : StreamStatus → Bool
is_reset reset = true
is_reset _ = false

unfoldable pub handle_receive_timer : Bool → ℕ → Stream → Received × Stream
unfolding concatenate_packets
handle_receive_timer aborted len s =
    let (bytes, s') = concatenate_packets len s in
    let answer =
      if aborted
      then if is_reset s.status then connection_reset else operation_aborted
      else timed_out in
    (if length bytes == 0 then answer else received bytes, s')

-- `AsyncReceive`: at once, if something waits or the stream was reset; otherwise the reader waits for
-- the timer, which the second part says.
unfoldable pub async_receive : ℕ → Stream → Received × Stream × Bool
unfolding handle_receive_timer
async_receive len s =
    let (answer, s') = handle_receive_timer true len s in
    if not (is_empty s.receive_queue) || is_reset s.status
    then (answer, s', false)
    else (timed_out, s, true)
