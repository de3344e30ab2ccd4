-- ===== src/Streaming/Acks/Kept.antt =====
-- The sent packets that `ProcessAck` of api/Streaming.cpp keeps.
use kovri.Common.{ℕ, suc, ◌≤◌, ◌<◌, ◌≡◌, refl, List, [], ◌∷◌, arith, leb, if◌then◌else◌, ◌&&◌, not}
use kovri.Streaming.Packet.{Packet, get_seqn}
use kovri.Streaming.State.{Stream}
use kovri.Streaming.Acks.{acknowledge_all, acknowledge, is_nacked}

-- Packets in the order of their numbers, from `lo` on.
abbrev pub IsOrdered : ℕ → List Packet → Type 0
IsOrdered lo [] = Unit
IsOrdered lo (p ∷ ps) = (lo ≤ get_seqn p) × IsOrdered (suc (get_seqn p)) ps

-- What the sender should keep: the packets that are not acknowledged yet, or are missing.
abbrev pub unacknowledged : ℕ → List ℕ → List Packet → List Packet
unacknowledged through nacks [] = []
unacknowledged through nacks (p ∷ ps) =
    let rest = unacknowledged through nacks ps in
    if leb (get_seqn p) through && not (is_nacked (get_seqn p) nacks) then rest else p ∷ rest

above_through :
    (through : ℕ) (nacks : List ℕ) (lo : ℕ) (ps : List Packet)
    → through < lo
    → IsOrdered lo ps
    → unacknowledged through nacks ps ≡ ps
above_through through nacks lo [] h o = refl
above_through through nacks lo (p ∷ ps) h o =
    let rest = above_through through nacks (suc (get_seqn p)) ps (omega (arith, o.0, h)) o.1 in
    ground (arith, rest, o.0)

-- Of sent packets in order, `ProcessAck` keeps those above the number that is acknowledged through,
-- and those that are named as missing, and no other.
pub acknowledge_all-kept :
    (ts through : ℕ) (nacks : List ℕ) (lo : ℕ) (ps : List Packet) (s : Stream)
    → IsOrdered lo ps
    → (acknowledge_all ts through nacks ps s).0 ≡ unacknowledged through nacks ps
unfolding acknowledge_all
acknowledge_all-kept ts through nacks lo [] s o = refl
acknowledge_all-kept ts through nacks lo (p ∷ ps) s o =
    let nacked = is_nacked (get_seqn p) nacks in
    let rest =
      acknowledge_all-kept ts through nacks (suc (get_seqn p)) ps
        (if nacked then s else acknowledge ts p s) o.1 in
    let above : through < get_seqn p → unacknowledged through nacks ps ≡ ps =
      λ h. above_through through nacks (suc (get_seqn p)) ps (omega (arith, h)) o.1 in
    ground (arith, rest, above)
