-- ===== src/Streaming/Lifetime/Timing.antt =====
-- The timers of api/Streaming.cpp keep a stream as it has to be.
use kovri.Common.{
  ℕ, suc, ◌+◌, ◌*◌, ◌^◌, ◌%◌, ◌≤◌, refl, List, [], ◌∷◌, Bool, true, false, if◌then◌else◌, arith,
  leb, ◌==◌, not, inl, inr, Bool-cases, map,
}
use kovri.Streaming.Packet.{Packet, get_seqn, get_bytes}
use kovri.Streaming.State.{Stream, Identities, send_packets, schedule_resend, is_negative}
use kovri.Streaming.Close.{is_empty}
use kovri.Streaming.Send.{is_open}
use kovri.Streaming.Acks.{send_quick_ack}
use kovri.Streaming.Acks.Kept.{IsOrdered}
use kovri.Streaming.Timers.{
  collect_due, halved, back_off, resend, handle_resend_timer, handle_ack_send_timer,
}
use kovri.Streaming.Lifetime.{Keeps, Keeps-then, Keeps-same, Keeps-refl, Keeps-if, Keeps-call}
use kovri.Streaming.Lifetime.Sending.{Keeps-sent, send_quick_ack-Keeps}
use kovri.Streaming.Lifetime.Acknowledging.{Keeps-attempts, Keeps-window}
use kovri.Streaming.Lifetime.Receiving.{reset-Keeps}

IsOrdered-if :
    (lo : ℕ) (b : Bool) (x y : List Packet × List Packet)
    → IsOrdered lo x.1
    → IsOrdered lo y.1
    → IsOrdered lo (if b then x else y).1
IsOrdered-if lo true x y o o' = o
IsOrdered-if lo false x y o o' = o'

collect_due-IsOrdered :
    (ts rto lo : ℕ) (ps : List Packet) → IsOrdered lo ps → IsOrdered lo (collect_due ts rto ps).1
unfolding collect_due get_seqn
collect_due-IsOrdered ts rto lo [] o = tt
collect_due-IsOrdered ts rto lo (p ∷ ps) o =
    let all = (collect_due ts rto ps).1 in
    let p' : Packet = record p { send_time = ts } in
    let rest = collect_due-IsOrdered ts rto (suc (get_seqn p)) ps o.1 in
    IsOrdered-if lo (leb ((p.send_time + rto) % 2 ^ 64) ts)
      (p' ∷ (collect_due ts rto ps).0, p' ∷ all) ((collect_due ts rto ps).0, p ∷ all) (o.0, rest)
      (o.0, rest)

back_off-Keeps : (attempts : ℕ) (s : Stream) → Keeps s (back_off attempts s)
unfolding back_off
back_off-Keeps attempts s =
    Keeps-if (attempts == 1)
      (Keeps-window s (record s { window_size = halved s.window_size }) refl
        (λ l h. (ground (arith, l), ground (arith, h))) refl refl refl)
      (Keeps-if (attempts == 2) (Keeps-same refl refl) (
        Keeps-if (attempts == 3) (Keeps-same refl refl)
          (Keeps-if (attempts == 4) (Keeps-same refl refl) (Keeps-refl s))))

resend-Keeps : (ts : ℕ) (s : Stream) → s.num_resend_attempts ≤ 5 → Keeps s (resend ts s)
unfolding resend
resend-Keeps ts s few =
    let found = collect_due ts s.rto s.sent_packets in
    let attempts = s.num_resend_attempts + 1 in
    let moved : Stream = record s { sent_packets = found.1; rto = s.rto * 2 % 2 ^ 32 } in
    let s1 : Stream = record moved { num_resend_attempts = attempts } in
    let k1 : Keeps s s1 =
      Keeps-then (Keeps-sent s moved refl (collect_due-IsOrdered ts s.rto 0 s.sent_packets))
        (Keeps-attempts moved attempts (omega (arith, few))) in
    Keeps-if (is_empty found.0) (Keeps-refl s) (
      Keeps-call (send_packets (map (λ p. get_bytes p) found.0)) s (back_off attempts s1)
        (Keeps-then k1 (back_off-Keeps attempts s1)))

module _ (ids : Identities) where
  pub handle_resend_timer-Keeps :
      (aborted : Bool) (ts : ℕ) (s : Stream) → Keeps s (handle_resend_timer ids aborted ts s)
  unfolding handle_resend_timer
  handle_resend_timer-Keeps aborted ts s = elim (Bool-cases (leb 6 s.num_resend_attempts)) [
    | inl spent ↦ rw spent (Keeps-if aborted (Keeps-refl s) (reset-Keeps ids s))
    | inr few ↦ rw few (
        Keeps-if aborted (Keeps-refl s) (
          Keeps-call (schedule_resend (resend ts s).rto) s (resend ts s)
            (resend-Keeps ts s (ground (arith, few)))))
  ]

  pub handle_ack_send_timer-Keeps : (s : Stream) → Keeps s (handle_ack_send_timer ids s)
  unfolding handle_ack_send_timer
  handle_ack_send_timer-Keeps s =
      let s' = if is_open s.status then send_quick_ack s else s in
      Keeps-if (not s.is_ack_send_scheduled) (Keeps-refl s) (
        Keeps-if (is_negative s.last_received) (reset-Keeps ids s) (
          Keeps-then {b = s'} (Keeps-if (is_open s.status) (send_quick_ack-Keeps s) (Keeps-refl s))
            (Keeps-same refl refl)))
