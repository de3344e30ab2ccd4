-- ===== src/Tunnel/Frame.antt =====
-- The layout of a tunnel message, from the gateway's `CompleteCurrentTunnelDataMessage` to the
-- endpoint's `HandleDecryptedTunnelDataMsg`: the endpoint finds the payload again.
use kovri.Common.{
  ℕ, ◌+◌, ◌-◌, ◌≤◌, ◌≡◌, ◌≢◌, refl, List, [], ◌∷◌, ◌++◌, some, true, length, take, drop, arith, All,
  All-take, All-drop, length-take, htobe32buf, drop-append, take-append, leb,
}
use kovri.Tunnel.Crypto.{Crypto}
use kovri.Tunnel.Gateway.{TunnelGatewayBuffer, padding, frame}
use kovri.Tunnel.Gateway.Sent.{IsReady}
use kovri.Tunnel.Endpoint.{TunnelEndpoint, same_bytes}
use kovri.Tunnel.Endpoint.Receive.{
  Received, capacity_of, handle_fragments, after_zero, process_decrypted,
  handle_decrypted_tunnel_data_msg,
}

pub same_bytes_refl : (xs : List ℕ) → same_bytes xs xs ≡ true
unfolding same_bytes
same_bytes_refl [] = refl
same_bytes_refl (x ∷ xs) = ground (arith, same_bytes_refl xs)

after_zero-append :
    (pad payload : List ℕ) → All (λ b. b ≢ 0) pad → after_zero (pad ++ (0 ∷ payload)) ≡ some payload
unfolding after_zero
after_zero-append [] payload h = refl
after_zero-append (b ∷ pad) payload h = ground (arith, after_zero-append pad payload h.1)

padding-non_zero :
    (c : Crypto) (g : TunnelGatewayBuffer) (size : ℕ)
    → IsReady g
    → All (λ b. b ≢ 0) (padding c g size)
unfolding padding
padding-non_zero c g size v =
    let offset = c.generate_word32 (g.draws + 1) 0 (1003 - size) in
    let P : ℕ → Type 0 = λ b. b ≢ 0 in
    ground (
      arith,
      All-take P size (drop offset g.non_zero_random_buffer)
          (All-drop P offset g.non_zero_random_buffer v.non_zero),
    )

-- A received message whose 1028 bytes are a frame around `payload`, in a buffer with room for the
-- copy of the IV.
pub record Carries (c : Crypto) (payload : List ℕ) (msg : Received) : Type 0 where
  pub gateway : TunnelGatewayBuffer
  pub ready : IsReady gateway
  pub small : length payload ≤ 1003
  pub body_eq : msg.body ≡ frame c gateway payload
  pub room : 16 ≤ length msg.back

module _ (c : Crypto) (our_hash : List ℕ) where
  -- The parts of a frame behind the IV.
  body_parts :
      (g : TunnelGatewayBuffer) (payload : List ℕ)
      → let iv = c.generate_block g.draws 16 in
        let sum = take 4 (c.sha256 (payload ++ iv)) in
        (take 16 (drop 4 (frame c g payload)) ≡ iv)
        × (drop 20 (frame c g payload)
            ≡ sum ++ (padding c g (1003 - length payload) ++ (0 ∷ payload)))
  unfolding frame htobe32buf
  body_parts g payload =
      let iv = c.generate_block g.draws 16 in
      let sum = take 4 (c.sha256 (payload ++ iv)) in
      let tail = sum ++ (padding c g (1003 - length payload) ++ (0 ∷ payload)) in
      (
        take-append 16 iv tail (c.length-generate_block g.draws 16),
        drop-append 16 iv tail (c.length-generate_block g.draws 16),
      )

  pub handle_frame :
      (payload : List ℕ) (msg : Received) (ep : TunnelEndpoint) (k : Carries c payload msg)
      → let tail = c.generate_block k.gateway.draws 16 ++ drop 16 msg.back in
        handle_decrypted_tunnel_data_msg c our_hash msg ep
        ≡ handle_fragments our_hash
            (length (payload ++ tail))
            (length msg.back)
            msg.max_len
            (capacity_of msg)
            (payload ++ tail)
            (record ep { num_received_bytes = ep.num_received_bytes + 1028 })
  unfolding handle_decrypted_tunnel_data_msg
  handle_frame payload msg ep k =
      let g = k.gateway in
      let iv = c.generate_block g.draws 16 in
      let sum = take 4 (c.sha256 (payload ++ iv)) in
      let pad = padding c g (1003 - length payload) in
      let parts = body_parts g payload in
      let iv_eq : take 16 (drop 4 msg.body) ≡ iv = rw k.body_eq parts.0 in
      let behind : drop 20 msg.body ≡ sum ++ (pad ++ (0 ∷ payload)) = rw k.body_eq parts.1 in
      let four : length sum ≡ 4 =
        omega (arith, length-take 4 (c.sha256 (payload ++ iv)), c.length-sha256 (payload ++ iv)) in
      let fragments : after_zero (drop 4 (sum ++ (pad ++ (0 ∷ payload)))) ≡ some payload =
        rw (drop-append 4 sum (pad ++ (0 ∷ payload)) four)
          (after_zero-append pad payload (padding-non_zero c g (1003 - length payload) k.ready)) in
      let room : leb 16 (length msg.back) ≡ true = ground (arith, k.room) in
      rw (behind, fragments, iv_eq)
        (unfold process_decrypted in
          rw (room, take-append 4 sum (pad ++ (0 ∷ payload)) four, same_bytes_refl sum))
