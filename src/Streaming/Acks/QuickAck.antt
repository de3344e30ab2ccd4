-- ===== src/Streaming/Acks/QuickAck.antt =====
-- The packet of `SendQuickAck` of api/Streaming.cpp, as the other side reads it.
use kovri.Common.{
  ℕ, zero, suc, ◌+◌, ◌*◌, ◌%◌, ◌^◌, ◌≤◌, ◌<◌, ◌≡◌, refl, ap, sym, subst, ◌∙◌, List, [], ◌∷◌, ◌++◌,
  Bool, true, false, arith, leb, if◌then◌else◌, ◌||◌, not, length, All, htobe32buf, drop, drop-drop,
  append_assoc,
}
use kovri.Streaming.Packet.{
  Packet, packet_of, byte_at, be32_at, get_seqn, get_ack_through, get_nacks, get_nack_count,
  nacks_from,
}
use kovri.Streaming.State.{Stream, signed_ltb}
use kovri.Streaming.Acks.{
  is_nacked, fill_nacks, last_saved, last_seen, nack_bytes, quick_ack_bytes, acknowledge_all,
}
use kovri.Streaming.Acks.Kept.{IsOrdered, unacknowledged, acknowledge_all-kept}
use kovri.Streaming.Acks.Nacks.{has_seqn, IsShort, fill_nacks-Lists, last_saved-le}

byte_at-drop : (i k : ℕ) (buf : List ℕ) → byte_at (drop i buf) k ≡ byte_at buf (i + k)
byte_at-drop zero k buf = ap (byte_at buf) (omega arith)
byte_at-drop (suc i) k [] = refl
byte_at-drop (suc i) k (b ∷ buf) =
    let next : suc (i + k) ≡ suc i + k = omega arith in
    byte_at-drop i k buf ∙ ap (byte_at (b ∷ buf)) next

be32_at-drop : (i : ℕ) (buf : List ℕ) → be32_at buf i ≡ be32_at (drop i buf) 0
be32_at-drop i buf = omega (
  arith,
  byte_at-drop i 0 buf,
  byte_at-drop i 1 buf,
  byte_at-drop i 2 buf,
  byte_at-drop i 3 buf,
  ap (byte_at buf) (add-zero i),
)
  where
    add-zero : (j : ℕ) → j + 0 ≡ j
    add-zero j = omega arith

be32_at-htobe32buf : (n : ℕ) (r : List ℕ) → n < 2 ^ 32 → be32_at (htobe32buf n ++ r) 0 ≡ n
unfolding htobe32buf
be32_at-htobe32buf n r h = omega arith

drop-htobe32buf : (n : ℕ) (r : List ℕ) → drop 4 (htobe32buf n ++ r) ≡ r
unfolding htobe32buf
drop-htobe32buf n r = refl

nacks_from-nack_bytes :
    (nacks : List ℕ) (i : ℕ) (buf r : List ℕ)
    → All (λ n. n < 2 ^ 32) nacks
    → drop (17 + 4 * i) buf ≡ nack_bytes nacks ++ r
    → nacks_from (length nacks) i buf ≡ nacks
unfolding nacks_from nack_bytes
nacks_from-nack_bytes [] i buf r h e = refl
nacks_from-nack_bytes (n ∷ nacks) i buf r h e =
    let shape = e ∙ append_assoc (htobe32buf n) (nack_bytes nacks) r in
    let first : be32_at buf (17 + 4 * i) ≡ n =
      be32_at-drop (17 + 4 * i) buf
      ∙ ap (λ (l : List ℕ). be32_at l 0) shape
      ∙ be32_at-htobe32buf n (nack_bytes nacks ++ r) h.0 in
    let at' : 17 + 4 * (i + 1) ≡ 17 + 4 * i + 4 = omega arith in
    let rest : drop (17 + 4 * (i + 1)) buf ≡ nack_bytes nacks ++ r =
      ap (λ (k : ℕ). drop k buf) at'
      ∙ sym (drop-drop 4 (17 + 4 * i) buf)
      ∙ ap (drop 4) shape
      ∙ drop-htobe32buf n (nack_bytes nacks ++ r) in
    λ j. first j ∷ nacks_from-nack_bytes nacks (i + 1) buf r h.1 rest j

-- The numbers in such a packet, by what it acknowledges.
abbrev pub ack_packet : Stream → ℕ → List ℕ → List ℕ
ack_packet s through nacks =
    htobe32buf s.send_stream_id
    ++ (htobe32buf s.recv_stream_id
        ++ (htobe32buf 0
            ++ (htobe32buf through
                ++ ((length nacks % 256) ∷ (nack_bytes nacks ++ (0 ∷ 0 ∷ 0 ∷ 0 ∷ 0 ∷ []))))))

abbrev pub Acknowledges : Packet → ℕ → List ℕ → Type 0
Acknowledges q through nacks =
    (get_ack_through q ≡ through) × (get_nacks q ≡ nacks) × (get_seqn q ≡ 0)

pub ack_packet-Acknowledges :
    (s : Stream) (through : ℕ) (nacks : List ℕ)
    → through < 2 ^ 32
    → length nacks < 256
    → All (λ n. n < 2 ^ 32) nacks
    → Acknowledges (packet_of (ack_packet s through nacks)) through nacks
unfolding get_ack_through get_nacks get_nack_count get_seqn htobe32buf
ack_packet-Acknowledges s through nacks t l h =
    let buf = ack_packet s through nacks in
    let count : length nacks % 256 ≡ length nacks = omega (arith, l) in
    (
      omega (arith, t),
      ap (λ (n : ℕ). nacks_from n 0 buf) count
          ∙ nacks_from-nack_bytes nacks 0 buf (0 ∷ 0 ∷ 0 ∷ 0 ∷ 0 ∷ []) h refl,
      omega arith,
    )

-- A receiver in order: the last number is not negative, saved packets are above it, and fewer than
-- 256 numbers reach to the last of them.
pub record IsReceiving (s : Stream) : Type 0 where
  pub non_negative : s.last_received < 2 ^ 31
  pub saved_ordered : IsOrdered (suc s.last_received) s.saved_packets
  pub short : IsShort 0 s.last_received s.saved_packets

-- What the receiver has.
abbrev pub is_received : ℕ → Stream → Bool
is_received n s = leb n s.last_received || has_seqn n s.saved_packets

abbrev last_number : Stream → ℕ
last_number s = last_saved s.saved_packets s.last_received

last_seen_lem : (s : Stream) → IsReceiving s → last_seen s ≡ last_number s
unfolding last_seen
last_seen_lem s r = ground (
  arith,
  r.non_negative,
  r.short.1,
  last_saved-le s.last_received s.saved_packets r.saved_ordered,
)

-- Without saved packets nothing is listed, with the same result.
listed :
    (last : ℕ) (saved : List Packet)
    → last < 2 ^ 31
    → IsOrdered (suc last) saved
    → last_saved saved last < 2 ^ 31
    → (if signed_ltb last (last_saved saved last)
        then fill_nacks (last_saved saved last) 0 ((last + 1) % 2 ^ 32) saved
        else ([], last_saved saved last))
      ≡ fill_nacks (last_saved saved last) 0 (suc last) saved
unfolding last_saved fill_nacks
listed last [] h o k = ground arith
listed last (p ∷ ps) h o k =
    let above : signed_ltb last (last_saved ps (get_seqn p)) ≡ true =
      ground (arith, last_saved-le (get_seqn p) ps o.1, o.0, h, k) in
    let next : (last + 1) % 2 ^ 32 ≡ suc last = omega (arith, h) in rw (above, next)

quick_ack_shape :
    (s : Stream)
    → IsReceiving s
    → let found = fill_nacks (last_number s) 0 (suc s.last_received) s.saved_packets in
      quick_ack_bytes s ≡ ack_packet s found.1 found.0
unfolding quick_ack_bytes
quick_ack_shape s r = rw (
  last_seen_lem s r,
  listed s.last_received s.saved_packets r.non_negative r.saved_ordered r.short.1,
)

-- The other side reads from the packet of a receiver in order: it acknowledges through the last
-- number that is there, and up to that number it names as missing exactly those that are not
-- received.
pub quick_ack_bytes_lem :
    (s : Stream)
    → IsReceiving s
    → let q = packet_of (quick_ack_bytes s) in
      (get_ack_through q ≡ last_saved s.saved_packets s.last_received)
      × ((n : ℕ)
          → n ≤ last_saved s.saved_packets s.last_received
          → is_nacked n (get_nacks q) ≡ not (is_received n s))
quick_ack_bytes_lem s r =
    let found = fill_nacks (last_number s) 0 (suc s.last_received) s.saved_packets in
    let (lists, same, few, bytes) =
      fill_nacks-Lists (last_number s) 0 s.last_received s.saved_packets r.saved_ordered r.short in
    let (through, nacks, _) =
      subst (λ (b : List ℕ). Acknowledges (packet_of b) found.1 found.0) (sym (quick_ack_shape s r))
        (ack_packet-Acknowledges s found.1 found.0 (omega (arith, same, r.short.1))
          (omega (arith, few)) bytes) in
    (through ∙ same, λ n h. ap (is_nacked n) nacks ∙ ground (arith, lists n, h))

has_seqn-beyond :
    (n last : ℕ) (ps : List Packet)
    → IsOrdered (suc last) ps
    → last_saved ps last < n
    → has_seqn n ps ≡ false
unfolding last_saved
has_seqn-beyond n last [] o h = refl
has_seqn-beyond n last (p ∷ ps) o h =
    let end = last_saved-le (get_seqn p) ps o.1 in
    ground (arith, end, h, has_seqn-beyond n (get_seqn p) ps o.1 h)

-- Of packets, those that a receiver does not have.
abbrev pub not_received : Stream → List Packet → List Packet
not_received r [] = []
not_received r (p ∷ ps) =
    let rest = not_received r ps in if is_received (get_seqn p) r then rest else p ∷ rest

unacknowledged-not_received :
    (through : ℕ) (nacks : List ℕ) (r : Stream) (ps : List Packet)
    → IsReceiving r
    → through ≡ last_number r
    → ((n : ℕ) → n ≤ last_number r → is_nacked n nacks ≡ not (is_received n r))
    → unacknowledged through nacks ps ≡ not_received r ps
unacknowledged-not_received through nacks r [] v t h = refl
unacknowledged-not_received through nacks r (p ∷ ps) v t h =
    let n = get_seqn p in
    let rest = unacknowledged-not_received through nacks r ps v t h in
    let end = last_saved-le r.last_received r.saved_packets v.saved_ordered in
    let beyond : last_number r < n → has_seqn n r.saved_packets ≡ false =
      has_seqn-beyond n r.last_received r.saved_packets v.saved_ordered in
    let named : n ≤ last_number r → is_nacked n nacks ≡ not (is_received n r) = h n in
    ground (arith, rest, end, beyond, named, t)

-- Both sides agree: after the packet of a receiver in order, of sent packets in order the sender
-- keeps exactly those that the receiver does not have.
pub acknowledge_all-quick_ack_bytes :
    (ts lo : ℕ) (ps : List Packet) (s r : Stream)
    → IsOrdered lo ps
    → IsReceiving r
    → let q = packet_of (quick_ack_bytes r) in
      (acknowledge_all ts (get_ack_through q) (get_nacks q) ps s).0 ≡ not_received r ps
acknowledge_all-quick_ack_bytes ts lo ps s r o v =
    let q = packet_of (quick_ack_bytes r) in
    let (through, named) = quick_ack_bytes_lem r v in
    acknowledge_all-kept ts (get_ack_through q) (get_nacks q) lo ps s o
    ∙ unacknowledged-not_received (get_ack_through q) (get_nacks q) r ps v through named
