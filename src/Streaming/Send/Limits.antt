-- ===== src/Streaming/Send/Limits.antt =====
-- The limits that `SendBuffer` of api/Streaming.cpp keeps: the window, and the size of a packet.
use kovri.Common.{
  ℕ, zero, suc, ◌+◌, ◌-◌, ◌^◌, ◌%◌, ◌≤◌, ◌≡◌, refl, ap, sym, subst, ◌∙◌, List, [], ◌∷◌, ◌++◌, Bool,
  true, false, if◌then◌else◌, arith, ltb, leb, ◌==◌, ◌&&◌, ◌||◌, not, All, length, length-append,
  map, htobe16buf, htobe32buf,
}
use kovri.Streaming.Packet.{Packet, get_seqn, get_bytes, insert_packet}
use kovri.Streaming.State.{
  Stream, Identities, read, send_packets, cancel_ack_send, call, is_negative,
}
use kovri.Streaming.Close.{is_empty, send_close, zeros}
use kovri.Streaming.Send.{
  data_head, initial_head, initial_bytes, follow_on_head, make_packet, make_packets, notify_sent,
  insert_all, transmit, send_buffer, is_new, is_closing, is_established,
}
use kovri.Streaming.Transfer.{read-Takes}

-- A packet within the size that a stream sends.
abbrev pub IsSmall : Packet → Type 0
IsSmall p = p.len ≤ 1730

-- No more packets than the window are sent and not acknowledged, and all are small.
pub record IsLimited (s : Stream) : Type 0 where
  pub few : length s.sent_packets ≤ s.window_size
  pub small : All IsSmall s.sent_packets

insert_packet-IsSmall :
    (p : Packet) (qs : List Packet)
    → IsSmall p
    → All IsSmall qs
    → (length (insert_packet p qs) ≤ suc (length qs)) × All IsSmall (insert_packet p qs)
unfolding insert_packet
insert_packet-IsSmall p [] h k = (omega arith, (h, tt))
insert_packet-IsSmall p (q ∷ qs) h k =
    let (short, small) = insert_packet-IsSmall p qs h k.1 in
    elim (ltb (get_seqn p) (get_seqn q))
      as (λ b.
        let r =
          if b
          then p ∷ q ∷ qs
          else if get_seqn p == get_seqn q
          then q ∷ qs
          else q ∷ insert_packet p qs in
        (length r ≤ suc (length (q ∷ qs))) × All IsSmall r) [
          | true ↦ (omega arith, (h, k))
          | false ↦
              elim (get_seqn p == get_seqn q)
                as (λ b.
                  let r = if b then q ∷ qs else q ∷ insert_packet p qs in
                  (length r ≤ suc (length (q ∷ qs))) × All IsSmall r) [
                    | true ↦ (omega arith, k)
                    | false ↦ (omega (arith, short), (k.0, small))
                  ]
        ]

record Unsent (s s' : Stream) : Type 0 where
  window : s'.window_size ≡ s.window_size
  packets : s'.sent_packets ≡ s.sent_packets

Unsent-if : {s x y : Stream} (b : Bool) → Unsent s x → Unsent s y → Unsent s (if b then x else y)
Unsent-if true k l = k
Unsent-if false k l = l

IsLimited-if :
    {x y : Stream} (b : Bool) → IsLimited x → IsLimited y → IsLimited (if b then x else y)
IsLimited-if true k l = k
IsLimited-if false k l = l

Unsent-then : {a b c : Stream} → Unsent a b → Unsent b c → Unsent a c
Unsent-then k l = record {
  window = omega (arith, k.window, l.window);
  packets = l.packets ∙ k.packets;
}

module _ (ids : Identities) where
  insert_all-IsSmall :
      (ts : ℕ) (ps qs : List Packet)
      → All IsSmall ps
      → All IsSmall qs
      → (length (insert_all ids ts ps qs) ≤ length ps + length qs)
        × All IsSmall (insert_all ids ts ps qs)
  unfolding insert_all
  insert_all-IsSmall ts [] qs h k = (omega arith, k)
  insert_all-IsSmall ts (p ∷ ps) qs h k =
      let q : Packet = record p { send_time = ts } in
      let (one, small) = insert_packet-IsSmall q qs h.0 k in
      let (all, rest) = insert_all-IsSmall ts ps (insert_packet q qs) h.1 small in
      (omega (arith, one, all), rest)

  -- What the loop makes with `n` rounds at most.
  record Makes (n : ℕ) (s : Stream) (x : List Packet × Stream) : Type 0 where
    count : length x.0 ≤ n
    small : All IsSmall x.0
    unsent : Unsent s x.1

  Makes-if :
      {n : ℕ} {s : Stream} (b : Bool) (x y : List Packet × Stream)
      → Makes n s x
      → Makes n s y
      → Makes n s (if b then x else y)
  Makes-if true x y k l = k
  Makes-if false x y k l = l

  record MakesOne (s : Stream) (x : Packet × Stream) : Type 0 where
    small : IsSmall x.0
    unsent : Unsent s x.1

  MakesOne-if :
      {s : Stream} (b : Bool) (x y : Packet × Stream)
      → MakesOne s x
      → MakesOne s y
      → MakesOne s (if b then x else y)
  MakesOne-if true x y k l = k
  MakesOne-if false x y k l = l

  module _ (signs : (bytes : List ℕ) → length (ids.sign bytes) ≡ ids.local_signature_length)
      (fits : length ids.local_identity + ids.local_signature_length ≤ 1706) where
    length-initial_head :
        (no_ack : Bool) (s : Stream)
        → length (initial_head ids no_ack s) ≡ 24 + length ids.local_identity
    unfolding initial_head data_head htobe16buf htobe32buf
    length-initial_head no_ack s = omega (arith, length-append ids.local_identity (htobe16buf 1730))

    initial_bytes-small :
        (no_ack : Bool) (s : Stream) (payload : List ℕ)
        → length payload
          ≤ (1730 + 2 ^ 64 - (length (initial_head ids no_ack s) + ids.local_signature_length))
            % 2 ^ 64
        → length (initial_bytes ids no_ack s payload) ≤ 1730
    unfolding initial_bytes
    initial_bytes-small no_ack s payload h =
        let head = initial_head ids no_ack s in
        let signature = ids.sign (head ++ (zeros ids.local_signature_length ++ payload)) in
        omega (
          arith,
          fits,
          h,
          length-initial_head no_ack s,
          signs (head ++ (zeros ids.local_signature_length ++ payload)),
          length-append head (signature ++ payload),
          length-append signature payload,
        )

    make_packet-MakesOne : (no_ack : Bool) (s : Stream) → MakesOne s (make_packet ids no_ack s)
    unfolding make_packet follow_on_head data_head htobe32buf
    make_packet-MakesOne no_ack s =
        let size = length (initial_head ids no_ack s) + ids.local_signature_length in
        let free = (1730 + 2 ^ 64 - size) % 2 ^ 64 in
        let first = (read free s.send_buffer).0 in
        let taken = read-Takes 1708 s.send_buffer in
        MakesOne-if (is_new s.status) _ _
          (record {
            small = initial_bytes-small no_ack s first (read-Takes free s.send_buffer).1;
            unsent = record { window = refl; packets = refl };
          })
          (record {
            small = omega (arith, taken.1);
            unsent = record { window = refl; packets = refl };
          })

    make_packets-Makes :
        (no_ack : Bool) (n : ℕ) (s : Stream) → Makes n s (make_packets ids no_ack n s)
    unfolding make_packets
    make_packets-Makes no_ack zero s = record {
      count = omega arith;
      small = tt;
      unsent = record { window = refl; packets = refl };
    }
    make_packets-Makes no_ack (suc n) s =
        let one = make_packet-MakesOne no_ack s in
        let rest = make_packets-Makes no_ack n (make_packet ids no_ack s).1 in
        Makes-if (is_new s.status || (is_established s && not s.send_buffer.eof)) _ _
          (record {
            count = omega (arith, rest.count);
            small = (one.small, rest.small);
            unsent = Unsent-then one.unsent rest.unsent;
          })
          (record {
            count = omega arith;
            small = tt;
            unsent = record { window = refl; packets = refl };
          })

    transmit-IsLimited :
        (ts : ℕ) (ps : List Packet) (s : Stream)
        → length ps + length s.sent_packets ≤ s.window_size
        → All IsSmall ps
        → All IsSmall s.sent_packets
        → IsLimited (transmit ids ts ps s)
    unfolding transmit send_close
    transmit-IsLimited ts ps s few new old =
        let s3 : Stream =
          call (send_packets (map (λ p. get_bytes p) ps))
            (record (call cancel_ack_send (record s { is_ack_send_scheduled = false })) {
              sent_packets = insert_all ids ts ps s.sent_packets;
            }) in
        let last = is_closing s.status && s.send_buffer.eof in
        let s4 = if last then send_close ids s3 else s3 in
        let (count, all) = insert_all-IsSmall ts ps s.sent_packets new old in
        let k3 : IsLimited s3 = record { few = omega (arith, few, count); small = all } in
        let k4 : IsLimited s4 = IsLimited-if last (record { few = k3.few; small = k3.small }) k3 in
        IsLimited-if (is_empty ps) (record { few = omega (arith, few); small = old })
          (IsLimited-if (is_empty s.sent_packets) (record { few = k4.few; small = k4.small }) k4)

    notify_sent-Unsent : (s : Stream) → Unsent s (notify_sent ids s)
    unfolding notify_sent
    notify_sent-Unsent s =
        Unsent-if (s.send_buffer.eof && s.send_handler) (record { window = refl; packets = refl })
          (record { window = refl; packets = refl })

    -- A signature has the length that the identity says, and both the identity and a signature fit into
    -- the first packet, which leaves 1706 bytes for them. Then sending from the buffer keeps the packets
    -- that are sent and not acknowledged within the window, and each of them within 1730 bytes.
    pub send_buffer-IsLimited :
        (ts : ℕ) (s : Stream) → IsLimited s → IsLimited (send_buffer ids ts s)
    unfolding send_buffer
    send_buffer-IsLimited ts s h =
        let no_ack = is_negative s.last_received in
        let free = s.window_size - length s.sent_packets in
        let made = make_packets ids no_ack free s in
        let k = make_packets-Makes no_ack free s in
        let u = Unsent-then k.unsent (notify_sent-Unsent made.1) in
        let same : length (notify_sent ids made.1).sent_packets ≡ length s.sent_packets =
          ap (λ (l : List Packet). length l) u.packets in
        IsLimited-if (leb s.window_size (length s.sent_packets)) h (
          transmit-IsLimited ts made.0 (notify_sent ids made.1)
            (omega (arith, h.few, k.count, same, u.window)) k.small
            (subst (All IsSmall) (sym u.packets) h.small))
