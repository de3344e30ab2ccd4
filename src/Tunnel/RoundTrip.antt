-- ===== src/Tunnel/RoundTrip.antt =====
-- From core/tunnel/TunnelGateway.cpp to core/tunnel/TunnelEndpoint.cpp: what a gateway packs, an
-- endpoint delivers. The encryption on the way is left out: the endpoint gets the same 1028 bytes.
pub mod Steps
use kovri.Common.{
  ℕ, zero, suc, ◌+◌, ◌-◌, ◌*◌, ◌%◌, ◌^◌, ◌≤◌, ◌<◌, ◌≡◌, ◌≢◌, refl, ap, ◌∙◌, sym, List, [], ◌∷◌,
  ◌++◌, Option, none, some, Bool, true, false, length, take, drop, arith, length-append,
  length-drop, length-take, Bool-cases, ltb→lt, inl, inr, ltb, leb, ◌==◌, if◌then◌else◌, ◌>>=◌,
  lookup, insert, lookup-insert, be32, append_assoc, append-nil, map, All, take-append-drop,
  take-append_le,
}
use kovri.Tunnel.Block.{I2npMessage, end_of, TunnelMessageBlock, local, unknown, TunnelDeliveryType}
use kovri.Tunnel.Crypto.{Crypto}
use kovri.Tunnel.Gateway.{
  TunnelGatewayBuffer, follow_on_fragment, whole_fragment, first_fragment, header_msg_id, di_length,
  full_length, complete_current, put_i2np_msg,
}
use kovri.Tunnel.Gateway.Sizes.{
  IsBlock, length-header_msg_id, length-address, length-follow_on_fragment, length-frame,
}
use kovri.Tunnel.Gateway.Sent.{
  IsReady, IsFrame, Frames, Sends, chunks, payloads, first_size, put_i2np_msg-Sends,
}
use kovri.Tunnel.Endpoint.{
  TunnelEndpoint, TunnelMessageBlockEx, delivery, handle_next_message, handle_first_fragment,
  handle_out_of_sequence_fragment, handle_follow_on_fragment,
}
use kovri.Tunnel.Endpoint.Header.{Header, read_header}
use kovri.Tunnel.Endpoint.Receive.{
  Received, capacity_of, handle_fragment, handle_fragments, handle_decrypted_tunnel_data_msg,
  handle_all,
}
use kovri.Tunnel.Endpoint.Concatenate.{IsBuffer}
use kovri.Tunnel.Endpoint.Delivery.{Waits, Grows, one_fragment, last_fragment, inner_fragment}
use kovri.Tunnel.Frame.{Carries, handle_frame}
use kovri.Tunnel.Layout.{
  IsAddressed, whole_header, first_header, follow_on_header, seen_hash, seen_tunnel_id,
  read_header-whole, read_header-first, read_header-follow_on,
}
use Steps.{
  IsReceived, Carried, counted, data_of, block_of, receive, receive_follow_on, counted-Waits,
  length-body, first_opens,
}

module _ (c : Crypto) (our_hash : List ℕ) where
  -- What is promised of the endpoint after a run: these effects more, and nothing incomplete under
  -- the identifier.
  abbrev pub Delivers :
      ℕ → List Received → TunnelEndpoint → List ℕ → ℕ → List ℕ → TunnelDeliveryType → Type 0
  Delivers id msgs ep hash tunnel_id bytes t =
      (ep' : TunnelEndpoint) × (handle_all c our_hash msgs ep ≡ some ep')
      × (ep'.effects ≡ ep.effects ++ delivery our_hash ep.is_inbound hash tunnel_id bytes t)
      × (lookup id ep'.incomplete_messages ≡ none)

  Carried-nil : (msgs : List Received) → Carried c [] msgs → msgs ≡ []
  Carried-nil [] k = refl
  Carried-nil (m ∷ ms) k = absurd k

  chunks_delivered :
      (fuel : ℕ) (msg_id : List ℕ) (num : ℕ) (rest : List ℕ) (msgs : List Received)
      (m : TunnelMessageBlockEx) (ep : TunnelEndpoint)
      → length rest ≤ fuel
      → 0 < length rest
      → num < 64
      → length rest ≤ (64 - num) * 996
      → length msg_id ≡ 4
      → be32 msg_id ≢ 0
      → m.next_fragment_num ≡ num
      → end_of m.data' + length rest < 32768
      → Waits (be32 msg_id) m ep
      → Carried c (chunks fuel msg_id num rest) msgs
      → Delivers (be32 msg_id) msgs ep m.hash m.tunnel_id (m.data'.bytes ++ rest) m.delivery_type
  unfolding chunks handle_all
  chunks_delivered zero msg_id num rest msgs m ep f p n l i z e b w k = absurd (omega arith)
  chunks_delivered (suc fuel) msg_id num [] msgs m ep f p n l i z e b w k = absurd (omega arith)
  chunks_delivered (suc fuel) msg_id num (x ∷ xs) [] m ep f p n l i z e b w k = ground arith
  chunks_delivered (suc fuel) msg_id num (x ∷ xs) (msg ∷ msgs) m ep f p n l i z e b w k =
      let rest : List ℕ = x ∷ xs in
      elim (Bool-cases (ltb 996 (length rest))) [
        | inl more ↦
            let k' = rw more at k in
            let part = take 996 rest in
            let size : length part ≡ 996 = omega (arith, length-take 996 rest, ltb→lt _ _ more) in
            let left = length-drop 996 rest in
            let block =
              block_of (follow_on_header msg_id num false (length part)) (data_of msg part) in
            let (ep1, m1, eq, w1, gr, eff, inb) =
              inner_fragment our_hash (be32 msg_id) m block (counted ep)
                (counted-Waits c our_hash _ m ep w) (sym e)
                (omega (arith, size, ltb→lt _ _ more)) in
            let got =
              receive_follow_on c our_hash msg_id num false part msg ep i z n (omega (arith, size))
                k'.0.0 in
            let (ep', all, effs, gone) =
              chunks_delivered fuel msg_id (num + 1) (drop 996 rest) msgs m1 ep1
                (omega (arith, left)) (omega (arith, left, ltb→lt _ _ more))
                (omega (arith, ltb→lt _ _ more)) (omega (arith, left)) i z
                (omega (arith, gr.num_eq)) (omega (arith, gr.end_le, size, left, ltb→lt _ _ more))
                w1 k'.1 in
            let joined : m1.data'.bytes ++ drop 996 rest ≡ m.data'.bytes ++ rest = rw (
              gr.bytes_eq,
              append_assoc m.data'.bytes part (drop 996 rest),
              take-append-drop 996 rest,
            ) in
            (
              ep',
              rw (got, eq, all),
              effs ∙ rw (eff, inb, gr.hash_eq, gr.tunnel_eq, gr.type_eq, joined),
              gone,
            )
        | inr last ↦
            let k' = rw last at k in
            let block =
              block_of (follow_on_header msg_id num true (length rest)) (data_of msg rest) in
            let (ep', eq, eff, gone) =
              last_fragment our_hash (be32 msg_id) m block (counted ep)
                (counted-Waits c our_hash _ m ep w) (sym e) b in
            let got =
              receive_follow_on c our_hash msg_id num true rest msg ep i z n (omega arith) k'.0.0 in
            (ep', rw (got, eq, Carried-nil msgs k'.1), eff, gone)
      ]

  -- The whole message in one fragment.
  whole_delivered :
      (b : TunnelMessageBlock) (id : ℕ) (msgs : List Received) (ep : TunnelEndpoint)
      → IsAddressed b
      → length b.message < 2 ^ 16
      → lookup id ep.incomplete_messages ≡ none
      → Carried c (whole_fragment b ∷ []) msgs
      → Delivers id msgs ep
          (seen_hash b b.delivery_type)
          (seen_tunnel_id b b.delivery_type)
          b.message
          b.delivery_type
  unfolding handle_all handle_fragment handle_next_message
  whole_delivered b id [] ep a h o k = absurd k
  whole_delivered b id (msg ∷ msgs) ep a h o k =
      let m = data_of msg b.message in
      let got =
        receive c our_hash (whole_fragment b) b.message (whole_header b) msg ep k.0.0
          (unfold whole_fragment in omega arith) (λ r. read_header-whole b r a h) refl in
      let ep' = handle_next_message our_hash (block_of (whole_header b) m) (counted ep) in
      (ep', rw (got, Carried-nil msgs k.1), refl, o)

  Frames-Carried :
      (ps ms : List (List ℕ)) (msgs : List Received)
      → Frames c ps ms
      → map (λ m. m.body) msgs ≡ ms
      → All IsReceived msgs
      → Carried c ps msgs
  Frames-Carried [] [] [] f e r = tt
  Frames-Carried [] [] (msg ∷ msgs) f e r = cc
  Frames-Carried [] (m ∷ ms) msgs f e r = absurd f
  Frames-Carried (p ∷ ps) [] msgs f e r = absurd f
  Frames-Carried (p ∷ ps) (m ∷ ms) [] f e r = cc
  Frames-Carried (p ∷ ps) (m ∷ ms) (msg ∷ msgs) f e r =
      let head_eq : msg.body ≡ m = cc in
      (
        (
          record {
            gateway = f.0.gateway;
            ready = f.0.ready;
            small = f.0.small;
            body_eq = head_eq ∙ f.0.message_eq;
            room = r.0.back_room;
          },
          r.0,
        ),
        Frames-Carried ps ms msgs f.1 (cc) r.1,
      )

  -- A first fragment and those that follow it.
  fragments_delivered :
      (b : TunnelMessageBlock) (msgs : List Received) (ep : TunnelEndpoint)
      → IsBlock b
      → IsAddressed b
      → length b.message ≤ 30000
      → first_size b < length b.message
      → be32 (header_msg_id b.message) ≢ 0
      → lookup (be32 (header_msg_id b.message)) ep.incomplete_messages ≡ none
      → lookup (be32 (header_msg_id b.message)) ep.out_of_sequence_fragments ≡ none
      → Carried c
          (first_fragment b (first_size b)
            ∷ chunks (length b.message) (header_msg_id b.message) 1 (drop (first_size b) b.message))
          msgs
      → Delivers
          (be32 (header_msg_id b.message))
          msgs
          ep
          (seen_hash b b.delivery_type)
          (seen_tunnel_id b b.delivery_type)
          b.message
          b.delivery_type
  unfolding handle_all
  fragments_delivered b [] ep ok a h s z o u k = absurd k
  fragments_delivered b (msg ∷ msgs) ep ok a h s z o u k =
      let size = first_size b in
      let rest = drop size b.message in
      let left = length-drop size b.message in
      let (ep1, eq, w, eff, inb) =
        first_opens c our_hash b size msg ep a (omega arith) s (omega arith) z o u k.0.0 k.0.1 in
      let (ep', all, effs, gone) =
        chunks_delivered (length b.message) (header_msg_id b.message) 1 rest msgs _ ep1
          (omega (arith, left)) (omega (arith, left)) (omega arith) (omega (arith, left))
          (length-header_msg_id b.message (omega arith)) z refl
          (omega (
            arith,
            left,
            k.0.1.front_small,
            length-body c our_hash _ msg k.0.0,
            length-take size b.message,
          ))
          w k.1 in
      (ep', rw (eq, all), effs ∙ rw (eff, inb, take-append-drop size b.message), gone)

  -- A block of at most 30000 bytes, whose message has an identifier that is not 0, is put on a gateway
  -- without a message under construction. It arrives, in one piece or in several: an endpoint with
  -- nothing under the identifier that gets the tunnel messages in order delivers it once, by its type,
  -- with its own hash, tunnel and bytes, and holds nothing incomplete under the identifier.
  pub endpoint-gateway :
      (b : TunnelMessageBlock) (g : TunnelGatewayBuffer) (msgs : List Received)
      (ep : TunnelEndpoint)
      → IsBlock b
      → IsAddressed b
      → length b.message ≤ 30000
      → be32 (header_msg_id b.message) ≢ 0
      → lookup (be32 (header_msg_id b.message)) ep.incomplete_messages ≡ none
      → lookup (be32 (header_msg_id b.message)) ep.out_of_sequence_fragments ≡ none
      → IsReady g
      → g.current_tunnel_data_msg ≡ none
      → g.tunnel_data_msgs ≡ []
      → All IsReceived msgs
      → map (λ m. m.body) msgs ≡ (complete_current c (put_i2np_msg c b g)).tunnel_data_msgs
      → Delivers
          (be32 (header_msg_id b.message))
          msgs
          ep
          (seen_hash b b.delivery_type)
          (seen_tunnel_id b b.delivery_type)
          b.message
          b.delivery_type
  unfolding payloads
  endpoint-gateway b g msgs ep ok a h z o u ready new empty received bodies =
      let s = put_i2np_msg-Sends c b g ok new ready in
      let k =
        Frames-Carried (payloads b) s.messages msgs s.framed
          (bodies ∙ s.messages_eq ∙ ap (λ l. l ++ s.messages) empty) received in
      elim (Bool-cases (leb (full_length b) 1003)) [
        | inl fits ↦ whole_delivered b _ msgs ep a (omega arith) o (rw fits at k)
        | inr more ↦
            fragments_delivered b msgs ep ok a h
              (ground (arith, length-address b b.delivery_type ok.hash_length)) z o u (rw more at k)
      ]
