-- ===== src/Streaming/Acks/Loss.antt =====
-- The acknowledgement that `SendQuickAck` of api/Streaming.cpp sends when there are too many gaps.
use kovri.Common.{
  ℕ, suc, ◌+◌, ◌-◌, ◌%◌, ◌^◌, ◌<◌, ◌≡◌, refl, ap, sym, subst, ◌∙◌, List, [], ◌∷◌, true, false,
  arith, leb,
}
use kovri.Streaming.Packet.{Packet, packet_of, get_seqn, get_ack_through, get_nacks}
use kovri.Streaming.State.{Stream, signed_ltb}
use kovri.Streaming.Acks.{
  is_nacked, fill_nacks, last_saved, last_seen, quick_ack_bytes, acknowledge_all,
}
use kovri.Streaming.Acks.Kept.{IsOrdered, unacknowledged, acknowledge_all-kept}
use kovri.Streaming.Acks.Nacks.{has_seqn, has_seqn-above, last_saved-le}
use kovri.Streaming.Acks.QuickAck.{ack_packet, Acknowledges, ack_packet-Acknowledges, is_received}

-- A gap of 256 numbers or more before the first saved packet.
gap_shape :
    (r : Stream) (p : Packet) (saved : List Packet)
    → r.saved_packets ≡ p ∷ saved
    → r.last_received + 256 < get_seqn p
    → IsOrdered (suc (get_seqn p)) saved
    → last_saved saved (get_seqn p) < 2 ^ 31
    → quick_ack_bytes r ≡ ack_packet r (suc r.last_received) []
unfolding quick_ack_bytes last_seen last_saved fill_nacks
gap_shape r p saved e gap o small =
    let end = last_saved-le (get_seqn p) saved o in
    let above : signed_ltb r.last_received (last_saved saved (get_seqn p)) ≡ true =
      ground (arith, end, gap, small) in
    let next : (r.last_received + 1) % 2 ^ 32 ≡ suc r.last_received =
      omega (arith, end, gap, small) in
    let many : leb 256 ((0 + (get_seqn p + 2 ^ 32 - suc r.last_received)) % 2 ^ 32) ≡ true =
      ground (arith, end, gap, small) in
    rw (e, above, above, next, many)

has_seqn-unacknowledged :
    (n lo : ℕ) (ps : List Packet) → IsOrdered lo ps → has_seqn n (unacknowledged n [] ps) ≡ false
unfolding is_nacked
has_seqn-unacknowledged n lo [] o = refl
has_seqn-unacknowledged n lo (p ∷ ps) o =
    let after : n < suc (get_seqn p) → has_seqn n ps ≡ false =
      λ h. has_seqn-above n (suc (get_seqn p)) ps o.1 h in
    ground (arith, has_seqn-unacknowledged n (suc (get_seqn p)) ps o.1, after)

is_received-after :
    (r : Stream) (p : Packet) (saved : List Packet)
    → r.saved_packets ≡ p ∷ saved
    → suc r.last_received < get_seqn p
    → IsOrdered (suc (get_seqn p)) saved
    → is_received (suc r.last_received) r ≡ false
is_received-after r p saved e gap o =
    let next = suc r.last_received in
    let rest = has_seqn-above next (suc (get_seqn p)) saved o (omega (arith, gap)) in
    let none : has_seqn next r.saved_packets ≡ false =
      ap (has_seqn next) e ∙ ground (arith, rest, gap) in
    ground (arith, none)

-- If the first saved packet is more than 256 numbers above the last received one, the packet that is
-- sent acknowledges the number behind the last received one, which was not received, and a sender
-- with packets in order forgets its packet of that number.
pub quick_ack_loses :
    (ts lo : ℕ) (ps : List Packet) (s r : Stream) (p : Packet) (saved : List Packet)
    → IsOrdered lo ps
    → r.saved_packets ≡ p ∷ saved
    → r.last_received + 256 < get_seqn p
    → IsOrdered (suc (get_seqn p)) saved
    → last_saved saved (get_seqn p) < 2 ^ 31
    → let q = packet_of (quick_ack_bytes r) in
      (is_received (suc r.last_received) r ≡ false)
      × (has_seqn
            (suc r.last_received)
            (acknowledge_all ts (get_ack_through q) (get_nacks q) ps s).0
          ≡ false)
quick_ack_loses ts lo ps s r p saved o e gap so small =
    let end = last_saved-le (get_seqn p) saved so in
    let bytes = gap_shape r p saved e gap so small in
    let (through, nacks, _) =
      subst (λ (b : List ℕ). Acknowledges (packet_of b) (suc r.last_received) []) (sym bytes)
        (ack_packet-Acknowledges r (suc r.last_received) [] (omega (arith, end, gap, small))
          (omega arith) tt) in
    let q = packet_of (quick_ack_bytes r) in
    (
      is_received-after r p saved e (omega (arith, gap)) so,
      ap (has_seqn (suc r.last_received)) (
            acknowledge_all-kept ts (get_ack_through q) (get_nacks q) lo ps s o
            ∙ (λ j. unacknowledged (through j) (nacks j) ps))
          ∙ has_seqn-unacknowledged (suc r.last_received) lo ps o,
    )
