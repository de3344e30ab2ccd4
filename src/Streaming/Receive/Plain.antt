-- ===== src/Streaming/Receive/Plain.antt =====
-- A packet of `SendBuffer` of api/Streaming.cpp that follows, as `ProcessPacket` reads it.
use kovri.Common.{
  if_false, ℕ, ◌+◌, ◌^◌, ◌≤◌, ◌<◌, ◌≡◌, refl, ap, sym, ◌∙◌, List, [], ◌∷◌, ◌++◌, Bool, true, false,
  if◌then◌else◌, arith, ltb, ◌&&◌, ◌||◌, not, length, take_all, take, drop, htobe32buf, All,
  append_assoc, append-nil, All-append, test_bit,
}
use kovri.Streaming.Packet.{
  Packet, packet_of, get_seqn, get_flags, get_option, get_nack_count, get_option_size,
  get_option_data, get_payload, get_length, get_bytes,
}
use kovri.Streaming.State.{Stream, Identities, call, cancel_receive}
use kovri.Streaming.Send.{data_head, follow_on_head}
use kovri.Streaming.Receive.{
  read_identity, is_signed, process_options, process_packet, queue_packet,
}
use kovri.Streaming.Receive.Reading.{IsQueued, waiting}

-- What the other side reads from a packet that follows.
abbrev pub Follows : Packet → ℕ → List ℕ → Type 0
Follows p n payload =
    (get_seqn p ≡ n)
    × (get_flags p ≡ 0)
    × (get_payload p ≡ 22)
    × (drop 22 p.buf ≡ payload)
    × (p.len ≡ 22 + length payload)
    × (length p.buf ≡ 22 + length payload)

waiting-append : (qs ps : List Packet) → waiting (qs ++ ps) ≡ waiting qs ++ waiting ps
waiting-append [] ps = refl
waiting-append (q ∷ qs) ps =
    ap (λ l. get_bytes q ++ l) (waiting-append qs ps)
    ∙ sym (append_assoc (get_bytes q) (waiting qs) (waiting ps))

-- The payload of a packet waits behind what waits already.
abbrev pub Queues : List Packet → List ℕ → List Packet → Type 0
Queues before payload after =
    (waiting after ≡ waiting before ++ payload) × (All IsQueued before → All IsQueued after)

packet-IsQueued :
    (p : Packet) (n : ℕ) (payload : List ℕ)
    → Follows p n payload
    → length payload ≤ 1708
    → let p' : Packet = record p { offset = get_payload p } in
      (get_length p' ≡ length payload) × (get_bytes p' ≡ payload) × IsQueued p'
packet-IsQueued p n payload (_, _, start, bytes, len, size) h =
    let p' : Packet = record p { offset = get_payload p } in
    let room : get_length p' ≡ length payload = omega (arith, start, len, h) in
    (
      room,
      (λ j. take (room j) (drop (start j) p.buf))
          ∙ ap (take (length payload)) bytes
          ∙ take_all payload (length payload) refl,
      record {
        ordered = omega (arith, start, len);
        within = omega (arith, len, size);
        bounded = omega (arith, len, h);
      },
    )

Queues-if :
    (b : Bool) (x y : Stream) (before : List Packet) (payload : List ℕ)
    → (b ≡ true → Queues before payload x.receive_queue)
    → (b ≡ false → Queues before payload y.receive_queue)
    → Queues before payload (if b then x else y).receive_queue
Queues-if true x y before payload k l = k refl
Queues-if false x y before payload k l = l refl

length_zero : (l : List ℕ) → length l ≡ 0 → l ≡ []
length_zero [] e = refl
length_zero (x ∷ l) e = absurd (omega (arith, e))

pub queue_packet-Queues :
    (p : Packet) (n : ℕ) (payload : List ℕ) (r : Stream)
    → Follows p n payload
    → length payload ≤ 1708
    → Queues r.receive_queue payload (queue_packet p r).receive_queue
unfolding queue_packet
queue_packet-Queues p n payload r f h =
    let p' : Packet = record p { offset = get_payload p } in
    let (room, bytes, ok) = packet-IsQueued p n payload f h in
    let one : waiting (p' ∷ []) ≡ payload = append-nil (get_bytes p') ∙ bytes in
    let q = r.receive_queue in
    Queues-if (ltb 0 (get_length p'))
      (call cancel_receive (record r { receive_queue = q ++ (p' ∷ []) })) r q payload
      (λ _. (
        waiting-append q (p' ∷ []) ∙ ap (λ l. waiting q ++ l) one,
        λ all. All-append IsQueued q (p' ∷ []) all (ok, tt),
      ))
      (λ none. (
        sym (append-nil (waiting q))
            ∙ ap (λ l. waiting q ++ l) (sym (length_zero payload (ground (arith, none, room)))),
        λ all. all,
      ))

module _ (ids : Identities) where
  pub follow_on_head-Follows :
      (no_ack : Bool) (s : Stream) (payload : List ℕ)
      → s.sequence_number < 2 ^ 32
      → Follows (packet_of (follow_on_head ids no_ack s ++ payload)) s.sequence_number payload
  unfolding follow_on_head data_head htobe32buf get_seqn get_flags get_option get_nack_count
      get_payload get_option_data get_option_size
  follow_on_head-Follows no_ack s payload h =
      (omega (arith, h), refl, refl, refl, omega arith, omega arith)

  read_identity_plain : (p : Packet) (r : Stream) → get_flags p ≡ 0 → (read_identity ids p r).1 ≡ r
  unfolding read_identity
  read_identity_plain p r e = ap (λ (x : ℕ × Stream). x.1) (if_false _ _ (ap (λ f. test_bit f 5) e))

  process_options_plain :
      (p : Packet) (r : Stream) → get_flags p ≡ 0 → process_options ids p r ≡ (false, r)
  unfolding process_options
  process_options_plain p r e =
      if_false _ _ (
        ap
          (λ f.
            test_bit f 3
            && not (is_signed ids (read_identity ids p r).0 p (read_identity ids p r).1))
          e)
      ∙ (λ j. (test_bit (e j) 1, read_identity_plain p r e j))

  pub process_packet_plain :
      (p : Packet) (r : Stream)
      → get_flags p ≡ 0
      → process_packet ids p r ≡ record (queue_packet p r) { last_received = get_seqn p }
  unfolding process_packet
  process_packet_plain p r e =
      let plain = process_options_plain p r e in
      if_false _ _ (λ j. (plain j).0 || test_bit (e j) 2)
      ∙ ap (λ (o : Bool × Stream). record (queue_packet p o.1) { last_received = get_seqn p }) plain
