-- ===== src/Tunnel/RoundTrip/Steps.antt =====
-- Single tunnel messages from a gateway at an endpoint: what core/tunnel/TunnelEndpoint.cpp does
-- with a tunnel message that holds one fragment.
use kovri.Common.{
  ℕ, ◌+◌, ◌-◌, ◌^◌, ◌≤◌, ◌<◌, ◌≡◌, ◌≢◌, refl, ap, ◌∙◌, List, [], ◌∷◌, ◌++◌, none, some, Bool, false,
  length, take, drop, arith, length-append, length-drop, length-take, ◌==◌, lookup, insert,
  lookup-insert, be32, take-append_le,
}
use kovri.Tunnel.Block.{I2npMessage, TunnelMessageBlock}
use kovri.Tunnel.Crypto.{Crypto}
use kovri.Tunnel.Gateway.{follow_on_fragment, first_fragment, header_msg_id}
use kovri.Tunnel.Gateway.Sizes.{length-follow_on_fragment, length-frame}
use kovri.Tunnel.Endpoint.{
  TunnelEndpoint, TunnelMessageBlockEx, handle_first_fragment, handle_out_of_sequence_fragment,
  handle_follow_on_fragment,
}
use kovri.Tunnel.Endpoint.Header.{Header, read_header}
use kovri.Tunnel.Endpoint.Receive.{
  Received, capacity_of, handle_fragment, handle_fragments, handle_decrypted_tunnel_data_msg,
}
use kovri.Tunnel.Endpoint.Delivery.{Waits, one_fragment}
use kovri.Tunnel.Frame.{Carries, handle_frame}
use kovri.Tunnel.Layout.{
  IsAddressed, first_header, follow_on_header, read_header-first, read_header-follow_on,
}

-- A buffer in which a tunnel message is received: the header and at most a thousand bytes in front,
-- room for the IV behind, and `maxLen` within its size.
pub record IsReceived (msg : Received) : Type 0 where
  pub front_small : length msg.front ≤ 1000
  pub back_room : 16 ≤ length msg.back
  pub within : msg.max_len ≤ capacity_of msg
  pub bounded : msg.max_len ≤ 32768

abbrev pub counted : TunnelEndpoint → TunnelEndpoint
counted ep = record ep { num_received_bytes = ep.num_received_bytes + 1028 }

abbrev pub data_of : Received → List ℕ → I2npMessage
data_of msg bytes = record {
  offset = capacity_of msg - (length bytes + length msg.back);
  bytes = bytes;
  max_len = msg.max_len;
  capacity = capacity_of msg;
}

-- The block that the endpoint makes of a header and a message.
abbrev pub block_of : Header → I2npMessage → TunnelMessageBlockEx
block_of h m = record {
  delivery_type = h.delivery_type;
  hash = h.hash;
  tunnel_id = h.tunnel_id;
  data' = m;
  next_fragment_num = h.fragment_num;
}

-- Tunnel messages received around payloads, in the same order.
abbrev pub Carried : Crypto → List (List ℕ) → List Received → Type 0
Carried c [] [] = Unit {0}
Carried c [] (m ∷ ms) = ⊥
Carried c (p ∷ ps) [] = ⊥
Carried c (p ∷ ps) (m ∷ ms) = (Carries c p m × IsReceived m) × Carried c ps ms

module _ (c : Crypto) (our_hash : List ℕ) where
  -- One tunnel message with one fragment.
  pub receive :
      (payload bytes : List ℕ) (h : Header) (msg : Received) (ep : TunnelEndpoint)
      → Carries c payload msg
      → 0 < length payload
      → ((r : List ℕ) → read_header (payload ++ r) ≡ some (h, bytes ++ r))
      → length bytes ≡ h.size
      → handle_decrypted_tunnel_data_msg c our_hash msg ep
        ≡ handle_fragment our_hash h (data_of msg bytes) (counted ep)
  receive payload bytes h msg ep k p r s =
      let iv = c.generate_block k.gateway.draws 16 in
      let tail = iv ++ drop 16 msg.back in
      let size : length msg.back ≡ length tail = omega (
        arith,
        k.room,
        length-append iv (drop 16 msg.back),
        length-drop 16 msg.back,
        c.length-generate_block k.gateway.draws 16,
      ) in
      handle_frame c our_hash payload msg ep k
      ∙ ap
          (λ (n : ℕ).
            handle_fragments our_hash (length (payload ++ tail)) n msg.max_len (capacity_of msg)
              (payload ++ tail) (counted ep))
          size
      ∙ one_fragment our_hash (length (payload ++ tail)) msg.max_len (capacity_of msg)
          (payload ++ tail) bytes tail h (counted ep) (omega (arith, length-append payload tail))
          (omega (arith, length-append payload tail)) (r tail) s
      ∙ ap
          (λ (n : ℕ).
            handle_fragment our_hash h (record (data_of msg bytes) { offset = n }) (counted ep))
          (omega (arith, size, length-append bytes tail))

  -- A follow-on fragment of a known identifier goes to `HandleFollowOnFragment`.
  handle_follow_on :
      (msg_id : List ℕ) (num : ℕ) (last : Bool) (size : ℕ) (m : I2npMessage) (ep : TunnelEndpoint)
      → be32 msg_id ≢ 0
      → handle_fragment our_hash (follow_on_header msg_id num last size) m ep
        ≡ handle_follow_on_fragment our_hash
            (be32 msg_id)
            last
            (block_of (follow_on_header msg_id num last size) m)
            ep
  unfolding handle_fragment
  handle_follow_on msg_id num last size m ep h =
      let known : (be32 msg_id == 0) ≡ false = ground arith in rw known

  pub receive_follow_on :
      (msg_id : List ℕ) (num : ℕ) (last : Bool) (bs : List ℕ) (msg : Received) (ep : TunnelEndpoint)
      → length msg_id ≡ 4
      → be32 msg_id ≢ 0
      → num < 64
      → length bs < 2 ^ 16
      → Carries c (follow_on_fragment msg_id num last bs) msg
      → handle_decrypted_tunnel_data_msg c our_hash msg ep
        ≡ handle_follow_on_fragment our_hash
            (be32 msg_id)
            last
            (block_of (follow_on_header msg_id num last (length bs)) (data_of msg bs))
            (counted ep)
  receive_follow_on msg_id num last bs msg ep i z n h k =
      receive (follow_on_fragment msg_id num last bs) bs
        (follow_on_header msg_id num last (length bs)) msg ep k
        (omega (arith, length-follow_on_fragment msg_id num last bs i))
        (λ r. read_header-follow_on msg_id num last bs r i n h) refl
      ∙ handle_follow_on msg_id num last (length bs) (data_of msg bs) (counted ep) z

  pub counted-Waits :
      (id : ℕ) (m : TunnelMessageBlockEx) (ep : TunnelEndpoint)
      → Waits id m ep
      → Waits id m (counted ep)
  counted-Waits id m ep w = record { waiting = w.waiting; unsaved = w.unsaved; buffer = w.buffer }

  pub length-body :
      (payload : List ℕ) (msg : Received) → Carries c payload msg → length msg.body ≡ 1028
  length-body payload msg k = rw k.body_eq (length-frame c k.gateway payload k.ready.random k.small)

  -- A first fragment opens an incomplete message.
  pub first_opens :
      (b : TunnelMessageBlock) (size : ℕ) (msg : Received) (ep : TunnelEndpoint)
      → IsAddressed b
      → 5 ≤ length b.message
      → size < length b.message
      → size < 1003
      → be32 (header_msg_id b.message) ≢ 0
      → lookup (be32 (header_msg_id b.message)) ep.incomplete_messages ≡ none
      → lookup (be32 (header_msg_id b.message)) ep.out_of_sequence_fragments ≡ none
      → Carries c (first_fragment b size) msg
      → IsReceived msg
      → let m = record (block_of (first_header b size) (data_of msg (take size b.message))) {
        next_fragment_num = 1;
      } in
        (ep' : TunnelEndpoint) × (handle_decrypted_tunnel_data_msg c our_hash msg ep ≡ some ep')
        × Waits (be32 (header_msg_id b.message)) m ep'
        × (ep'.effects ≡ ep.effects)
        × (ep'.is_inbound ≡ ep.is_inbound)
  unfolding handle_fragment handle_first_fragment handle_out_of_sequence_fragment
  first_opens b size msg ep a five less small z o u k r =
      let bytes = take size b.message in
      let id = be32 (header_msg_id b.message) in
      let size_eq : length bytes ≡ size = omega (arith, length-take size b.message) in
      let read : (r : List ℕ)
          → read_header (first_fragment b size ++ r) ≡ some (first_header b size, bytes ++ r) =
        λ r.
          read_header-first b size r a five (omega arith)
          ∙ ap (λ (l : List ℕ). some (first_header b size, l ++ r))
              (take-append_le size b.message b.slack (omega arith)) in
      let got =
        receive (first_fragment b size) bytes (first_header b size) msg ep k
          (unfold first_fragment in omega arith) read size_eq in
      let m = record (block_of (first_header b size) (data_of msg bytes)) {
        next_fragment_num = 1;
      } in
      let known : (id == 0) ≡ false = ground arith in
      let ep' = record (counted ep) { incomplete_messages = insert id m ep.incomplete_messages } in
      (
        ep',
        rw (got, known) (ground (arith, o, u)),
        record {
          waiting = rw lookup-insert (ground arith);
          unsaved = u;
          buffer = record {
            front = omega (arith, length-body (first_fragment b size) msg k, size_eq);
            within = r.within;
            bounded = r.bounded;
          };
        },
        refl,
        refl,
      )
