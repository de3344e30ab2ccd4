-- ===== src/Streaming/Acks.antt =====
-- Acknowledgements in api/Streaming.cpp: `ProcessAck` and `SendQuickAck`.
pub mod Kept
pub mod Nacks
pub mod QuickAck
pub mod Loss
use kovri.Common.{
  ℕ, zero, suc, ◌+◌, ◌-◌, ◌*◌, ◌/◌, ◌%◌, ◌^◌, List, [], ◌∷◌, ◌++◌, Bool, true, false, if◌then◌else◌,
  ◌&&◌, ◌||◌, not, ltb, leb, ◌==◌, htobe32buf, length,
}
use kovri.Streaming.Packet.{
  Packet, get_seqn, get_ack_through, get_nacks, window_size_threshold, max_window_size,
}
use kovri.Streaming.State.{
  Stream, Identities, Action, cancel_resend, send_packets, call, signed_ltb, is_negative,
}
use kovri.Streaming.Close.{is_empty, close}
use kovri.Streaming.Send.{send_buffer, is_closing}

pub is_nacked : ℕ → List ℕ → Bool
is_nacked seqn [] = false
is_nacked seqn (n ∷ nacks) = (seqn == n) || is_nacked seqn nacks

-- `(m_RTT * seqn + rtt) / (seqn + 1)`: a product and a sum of 32 bits, the rest of 64, stored in 32.
unfoldable pub new_rtt : ℕ → ℕ → ℕ → ℕ
new_rtt old seqn rtt = (old * seqn % 2 ^ 32 + rtt) % 2 ^ 64 / ((seqn + 1) % 2 ^ 32) % 2 ^ 32

abbrev pub grown : ℕ → ℕ
grown window = if ltb max_window_size (window + 1) then max_window_size else window + 1

-- The window grows at once below the threshold, and then once in a round trip.
unfoldable pub grow_window : ℕ → Stream → Stream
grow_window ts s =
    if ltb s.window_size window_size_threshold
    then (record s { window_size = s.window_size + 1 })
    else if ltb ((s.last_window_size_increase_time + s.rtt) % 2 ^ 64) ts
    then (record s { window_size = grown s.window_size; last_window_size_increase_time = ts })
    else s

-- A sent packet is acknowledged at time `ts`.
unfoldable pub acknowledge : ℕ → Packet → Stream → Stream
unfolding new_rtt grow_window
acknowledge ts p s =
    let rtt' = new_rtt s.rtt (get_seqn p) ((ts + 2 ^ 64 - p.send_time) % 2 ^ 64) in
    grow_window ts (record s { rtt = rtt'; rto = rtt' * 3 / 2 })

-- The loop over the sent packets: those that stay, the stream, and whether one was acknowledged.
unfoldable pub acknowledge_all : ℕ → ℕ → List ℕ → List Packet → Stream → List Packet × Stream × Bool
unfolding is_nacked
acknowledge_all ts through nacks [] s = ([], s, false)
acknowledge_all ts through nacks (p ∷ ps) s =
    let nacked = is_nacked (get_seqn p) nacks in
    let (rest, s', more) =
      acknowledge_all ts through nacks ps (if nacked then s else acknowledge ts p s) in
    if leb (get_seqn p) through
    then (if nacked then p ∷ rest else rest, s', not nacked || more)
    else (p ∷ ps, s, false)

-- The numbers from the first on.
pub range : ℕ → ℕ → List ℕ
range first zero = []
range first (suc n) = first ∷ range (first + 1) n

-- The NACKs for the gaps before the saved packets, from `next` on, when there are `num` already, and
-- the number to acknowledge through. With 256 or more NACKs it is changed to the first that is
-- missing there.
unfoldable pub fill_nacks : ℕ → ℕ → ℕ → List Packet → List ℕ × ℕ
unfolding range
fill_nacks through num next [] = ([], through)
fill_nacks through num next (p ∷ ps) =
    let seqn = get_seqn p in
    let gap = if ltb next seqn then seqn - next else 0 in
    let (nacks, through') = fill_nacks through (num + gap) ((seqn + 1) % 2 ^ 32) ps in
    if leb 256 ((num + (seqn + 2 ^ 32 - next)) % 2 ^ 32)
    then ([], next)
    else (range next gap ++ nacks, through')

pub nack_bytes : List ℕ → List ℕ
nack_bytes [] = []
nack_bytes (n ∷ nacks) = htobe32buf n ++ nack_bytes nacks

-- The number of the last saved packet.
unfoldable pub last_saved : List Packet → ℕ → ℕ
last_saved [] last = last
last_saved (p ∷ ps) last = last_saved ps (get_seqn p)

-- What the packet acknowledges through at first: the later of the last received and the last saved.
unfoldable pub last_seen : Stream → ℕ
unfolding last_saved
last_seen s =
    let saved = last_saved s.saved_packets s.last_received in
    if signed_ltb s.last_received saved then saved else s.last_received

-- A plain acknowledgement: number 0, the NACKs with their count, delay (not written: 0), no flags, no
-- options.
unfoldable pub quick_ack_bytes : Stream → List ℕ
unfolding last_seen fill_nacks nack_bytes
quick_ack_bytes s =
    let last = last_seen s in
    let (nacks, through) =
      if signed_ltb s.last_received last
      then fill_nacks last 0 ((s.last_received + 1) % 2 ^ 32) s.saved_packets
      else ([], last) in
    htobe32buf s.send_stream_id
    ++ (htobe32buf s.recv_stream_id
        ++ (htobe32buf 0
            ++ (htobe32buf through
                ++ ((length nacks % 256) ∷ (nack_bytes nacks ++ (0 ∷ 0 ∷ 0 ∷ 0 ∷ 0 ∷ []))))))

unfoldable pub send_quick_ack : Stream → Stream
unfolding quick_ack_bytes
send_quick_ack s =
    if is_negative (last_seen s) then s else call (send_packets (quick_ack_bytes s ∷ [])) s

module _ (ids : Identities) where
  unfoldable pub process_ack : ℕ → Packet → Stream → Stream
  unfolding acknowledge_all send_buffer close
  process_ack ts p s =
      let (sent, s', acknowledged) =
        acknowledge_all ts (get_ack_through p) (get_nacks p) s.sent_packets s in
      let s1 = record s' { sent_packets = sent } in
      let s2 = if is_empty sent then call cancel_resend s1 else s1 in
      let s3 =
        if acknowledged then send_buffer ids ts (record s2 { num_resend_attempts = 0 }) else s2 in
      if is_closing s3.status then close ids s3 else s3
