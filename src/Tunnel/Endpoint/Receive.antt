-- ===== src/Tunnel/Endpoint/Receive.antt =====
-- `HandleDecryptedTunnelDataMsg`: a tunnel message, from its checksum to its fragments.
use kovri.Common.{
  ℕ, zero, suc, ◌+◌, ◌-◌, List, [], ◌∷◌, ◌++◌, Option, none, some, Bool, length, take, drop, ltb,
  leb, ◌==◌, if◌then◌else◌, ◌&&◌, not, ◌>>=◌, ◌>>◌, guard, read_bytes,
}
use kovri.Tunnel.Block.{
  I2npMessage, i2np_max_short_message_size, tunnel_gateway_header_size, tunnel_data_msg_size,
}
use kovri.Tunnel.Crypto.{Crypto}
use kovri.Tunnel.Endpoint.{
  TunnelEndpoint, TunnelMessageBlockEx, same_bytes, handle_next_message, handle_first_fragment,
  handle_follow_on_fragment,
}
use kovri.Tunnel.Endpoint.Header.{Header, read_header}

-- The buffer of a received tunnel message: what stands before `GetPayload()`, the tunnel message
-- of 1028 bytes, and what stands behind it.
pub record Received : Type 0 where
  pub front : List ℕ
  pub body : List ℕ
  pub back : List ℕ
  pub max_len : ℕ

abbrev pub capacity_of : Received → ℕ
capacity_of msg = length msg.front + length msg.body + length msg.back

-- A fragment before the last is copied to a short message, behind the room for the header of a
-- tunnel gateway; the last one keeps the buffer.
abbrev pub fragment_data : Bool → ℕ → ℕ → ℕ → List ℕ → I2npMessage
fragment_data last_in_frame max_len capacity offset bytes =
    if last_in_frame
    then (record { offset = offset; bytes = bytes; max_len = max_len; capacity = capacity })
    else (record {
      offset = 2 + tunnel_gateway_header_size;
      bytes = bytes;
      max_len = max_len;
      capacity = i2np_max_short_message_size + 16;
    })

module _ (our_hash : List ℕ) where
  -- What is done with a fragment once its header and bytes are read.
  unfoldable pub handle_fragment : Header → I2npMessage → TunnelEndpoint → Option TunnelEndpoint
  handle_fragment h m ep =
      let block : TunnelMessageBlockEx = record {
        delivery_type = h.delivery_type;
        hash = h.hash;
        tunnel_id = h.tunnel_id;
        data' = m;
        next_fragment_num = h.fragment_num;
      } in
      if not h.is_follow_on_fragment && h.is_last_fragment
      then some (handle_next_message our_hash block ep)
      else if h.msg_id == 0
      then some ep
      else if h.is_follow_on_fragment
      then handle_follow_on_fragment our_hash h.msg_id h.is_last_fragment block ep
      else handle_first_fragment our_hash h.msg_id block ep

  -- The loop over the fragments. `bs` runs to the end of the buffer, whose last `slack` bytes are
  -- no part of the tunnel message. A round reads at least three bytes, so the length of `bs` is
  -- enough fuel.
  unfoldable pub handle_fragments : ℕ → ℕ → ℕ → ℕ → List ℕ → TunnelEndpoint → Option TunnelEndpoint
  handle_fragments zero slack max_len capacity bs ep = some ep
  handle_fragments (suc fuel) slack max_len capacity bs ep =
      let round = (do
        (h, bs1) ← read_header bs
        (bytes, bs2) ← read_bytes h.size bs1
        ep' ←
            handle_fragment h
              (fragment_data (leb (length bs2) slack) max_len capacity (capacity - length bs1)
                bytes)
              ep
        handle_fragments fuel slack max_len capacity bs2 ep') in
      if ltb slack (length bs) then round else some ep

-- `memchr` for the first zero: what follows it, if it stands before the end.
unfoldable pub after_zero : List ℕ → Option (List ℕ)
after_zero [] = none
after_zero (b ∷ bs) = if b == 0 then some bs else after_zero bs

module _ (c : Crypto) (our_hash : List ℕ) where
  -- The checksum is that of the fragments and of the IV, which is copied behind them.
  abbrev pub is_sound : List ℕ → List ℕ → List ℕ → Bool
  is_sound iv checksum fragments =
      same_bytes (take 4 (c.sha256 (fragments ++ iv))) (take 4 checksum)

  -- `fragments` is what follows the zero, if there is one.
  unfoldable pub process_decrypted :
      List ℕ → List ℕ → Option (List ℕ) → Received → TunnelEndpoint → Option TunnelEndpoint
  process_decrypted iv decrypted none msg ep = some ep
  process_decrypted iv decrypted (some fragments) msg ep =
      let bs = fragments ++ (iv ++ drop 16 msg.back) in
      guard (leb 16 (length msg.back))
      >> (if is_sound iv decrypted fragments
          then handle_fragments our_hash (length bs) (length msg.back) msg.max_len (capacity_of msg)
              bs ep
          else some ep)

  -- Behind the identifier of the tunnel stand the IV and the decrypted part, which begins with the
  -- checksum.
  unfoldable pub handle_decrypted_tunnel_data_msg :
      Received → TunnelEndpoint → Option TunnelEndpoint
  handle_decrypted_tunnel_data_msg msg ep =
      let decrypted = drop 20 msg.body in
      process_decrypted (take 16 (drop 4 msg.body)) decrypted (after_zero (drop 4 decrypted)) msg
        (record ep { num_received_bytes = ep.num_received_bytes + tunnel_data_msg_size })

  unfoldable pub handle_all : List Received → TunnelEndpoint → Option TunnelEndpoint
  handle_all [] ep = some ep
  handle_all (msg ∷ msgs) ep = handle_decrypted_tunnel_data_msg msg ep >>= handle_all msgs
