-- ===== src/Tunnel/Gateway.antt =====
-- core/tunnel/TunnelGateway.cpp. The message under construction is the list of its payload bytes;
-- the room that the source reserves before them is where `frame` puts header and padding.
pub mod Sizes
pub mod Bounds
pub mod Sent
pub mod Lost
use Prim.Native.Nat.{bit_or}
use kovri.Common.{
  ℕ, zero, suc, ◌+◌, ◌-◌, ◌*◌, ◌/◌, ◌%◌, List, [], ◌∷◌, ◌++◌, Option, none, some, Bool, true, false,
  length, take, drop, ltb, leb, ◌==◌, if◌then◌else◌, ◌||◌, map, htobe16buf, htobe32buf,
}
use kovri.Tunnel.Block.{
  TunnelDeliveryType, local, tunnel, router, unknown, delivery_code, TunnelMessageBlock,
  tunnel_data_max_payload_size, tunnel_data_msg_size,
}
use kovri.Tunnel.Crypto.{Crypto}

pub record TunnelGatewayBuffer : Type 0 where
  pub tunnel_id : ℕ
  pub tunnel_data_msgs : List (List ℕ)
  pub current_tunnel_data_msg : Option (List ℕ)
  pub remaining_size : ℕ
  pub non_zero_random_buffer : List ℕ
  pub draws : ℕ

abbrev pub is_null : Option (List ℕ) → Bool
is_null none = true
is_null (some _) = false

-- `if (!b) b = 1`
abbrev pub non_zero : ℕ → ℕ
non_zero b = if b == 0 then 1 else b

-- The delivery instructions without size: flag, tunnel, hash.
unfoldable pub address : TunnelMessageBlock → TunnelDeliveryType → List ℕ
address b local = []
address b tunnel = htobe32buf b.tunnel_id ++ take 32 b.hash
address b router = take 32 b.hash
address b unknown = take 32 b.hash

-- `block.deliveryType << 5`, stored in a byte.
abbrev pub di_flag : TunnelMessageBlock → ℕ
di_flag b = delivery_code b.delivery_type * 32 % 256

-- The four bytes of the message's own identifier, as they stand in its header.
abbrev pub header_msg_id : List ℕ → List ℕ
header_msg_id message = take 4 (drop 1 message)

pub create_current : TunnelGatewayBuffer → TunnelGatewayBuffer
create_current g = record g {
  current_tunnel_data_msg = some [];
  remaining_size = tunnel_data_max_payload_size;
}

-- `len +=` and `memcpy` at the end of the message under construction.
pub append_to : Option (List ℕ) → List ℕ → TunnelGatewayBuffer → TunnelGatewayBuffer
append_to none bs g = g
append_to (some payload) bs g = record g { current_tunnel_data_msg = some (payload ++ bs) }

pub append : List ℕ → TunnelGatewayBuffer → TunnelGatewayBuffer
unfolding append_to
append bs g = append_to g.current_tunnel_data_msg bs g

pub shrink : ℕ → TunnelGatewayBuffer → TunnelGatewayBuffer
shrink n g = record g { remaining_size = g.remaining_size - n }

abbrev pub di_length : TunnelMessageBlock → ℕ
di_length b = 1 + length (address b b.delivery_type)

-- Instructions, size and message.
abbrev pub full_length : TunnelMessageBlock → ℕ
full_length b = di_length b + length b.message + 2

-- The fragment of a message that fits: flag, address, size, message.
unfoldable pub whole_fragment : TunnelMessageBlock → List ℕ
whole_fragment b =
    di_flag b ∷ (address b b.delivery_type ++ (htobe16buf (length b.message) ++ b.message))

-- The first fragment of others: flag, address, identifier, size, the first `size` bytes.
unfoldable pub first_fragment : TunnelMessageBlock → ℕ → List ℕ
first_fragment b size =
    bit_or (di_flag b) 0x08
    ∷ (address b b.delivery_type
        ++ (header_msg_id b.message ++ (htobe16buf size ++ take size (b.message ++ b.slack))))

-- One follow-on fragment: flag, identifier, size, bytes.
unfoldable pub follow_on_fragment : List ℕ → ℕ → Bool → List ℕ → List ℕ
follow_on_fragment msg_id num last bs =
    bit_or (bit_or 0x80 (num * 2) % 256) (if last then 1 else 0)
    ∷ (msg_id ++ (htobe16buf (length bs) ++ bs))

unfoldable pub init : Crypto → ℕ → TunnelGatewayBuffer
init c tunnel_id = record {
  tunnel_id = tunnel_id;
  tunnel_data_msgs = [];
  current_tunnel_data_msg = none;
  remaining_size = 0;
  non_zero_random_buffer = map non_zero (c.generate_block 0 tunnel_data_max_payload_size);
  draws = 1;
}

module _ (c : Crypto) where
  -- The padding before the zero byte: a slice of the non-zero random bytes.
  unfoldable pub padding : TunnelGatewayBuffer → ℕ → List ℕ
  padding g size =
      let offset = c.generate_word32 (g.draws + 1) 0 (tunnel_data_max_payload_size - size) in
      if ltb 0 size then take size (drop offset g.non_zero_random_buffer) else []

  -- Identifier, IV, checksum of payload and IV, padding, zero, payload.
  unfoldable pub frame : TunnelGatewayBuffer → List ℕ → List ℕ
  frame g payload =
      let iv = c.generate_block g.draws 16 in
      htobe32buf g.tunnel_id
      ++ (iv
          ++ (take 4 (c.sha256 (payload ++ iv))
              ++ (padding g (tunnel_data_max_payload_size - length payload) ++ (0 ∷ payload))))

  pub complete : Option (List ℕ) → TunnelGatewayBuffer → TunnelGatewayBuffer
  complete none g = g
  complete (some payload) g = record g {
    tunnel_data_msgs = g.tunnel_data_msgs ++ (frame g payload ∷ []);
    current_tunnel_data_msg = none;
    draws = g.draws + 2;
  }

  pub complete_current : TunnelGatewayBuffer → TunnelGatewayBuffer
  unfolding complete
  complete_current g = complete g.current_tunnel_data_msg g

  -- `if (!m_RemainingSize) CompleteCurrentTunnelDataMessage()`
  pub complete_if_full : TunnelGatewayBuffer → TunnelGatewayBuffer
  complete_if_full g = if g.remaining_size == 0 then complete_current g else g

  -- The loop over the follow-on fragments, on what is left of the message. A round takes at least
  -- one byte, so the length of the message is enough fuel.
  pub follow_on : ℕ → List ℕ → ℕ → List ℕ → TunnelGatewayBuffer → TunnelGatewayBuffer
  follow_on zero msg_id num rest g = g
  follow_on (suc fuel) msg_id num [] g = g
  follow_on (suc fuel) msg_id num (b ∷ bs) g =
      let rest = b ∷ bs in
      let g1 = create_current g in
      let size = tunnel_data_max_payload_size - 7 in
      let next =
        follow_on fuel msg_id (num + 1) (drop size rest)
          (complete_current (append (follow_on_fragment msg_id num false (take size rest)) g1)) in
      let last =
        complete_if_full
          (shrink (length rest + 7) (append (follow_on_fragment msg_id num true rest) g1)) in
      if ltb size (length rest) then next else last

  -- The message fits: first and last fragment.
  pub put_whole : TunnelMessageBlock → TunnelGatewayBuffer → TunnelGatewayBuffer
  put_whole b g =
      let size = di_length b + 2 + length b.message in
      complete_if_full (shrink size (append (whole_fragment b) g))

  -- The first fragment fills the message under construction, and the others follow.
  pub put_fragments : TunnelMessageBlock → TunnelGatewayBuffer → TunnelGatewayBuffer
  put_fragments b g =
      let size = g.remaining_size - di_length b - 6 in
      follow_on (length b.message) (header_msg_id b.message) 1 (drop size b.message)
        (complete_current (append (first_fragment b size) g))

  -- Whether the message under construction is completed before a message that does not fit it.
  pub starts_over : TunnelGatewayBuffer → ℕ → Bool
  starts_over g full_msg_len =
      let non_fit =
        (full_msg_len + full_msg_len / tunnel_data_max_payload_size * 7)
        % tunnel_data_max_payload_size in
      (non_fit == 0) || ltb g.remaining_size non_fit

  -- `if (!m_CurrentTunnelDataMsg) CreateCurrentTunnelDataMessage()`
  pub started : TunnelGatewayBuffer → TunnelGatewayBuffer
  started g = if is_null g.current_tunnel_data_msg then create_current g else g

  -- The same, and for a message that was already there the test of `starts_over`.
  pub restarted : ℕ → TunnelGatewayBuffer → TunnelGatewayBuffer
  restarted full_msg_len g =
      if is_null g.current_tunnel_data_msg
      then create_current g
      else if starts_over g full_msg_len
      then create_current (complete_current g)
      else g

  -- The call for the same block on a new message has room for the instructions: `fuel` 2 is enough.
  pub put : ℕ → TunnelMessageBlock → TunnelGatewayBuffer → TunnelGatewayBuffer
  put zero b g = g
  put (suc fuel) b g =
      let g2 = restarted (full_length b) g in
      let again = put fuel b (complete_current g2) in
      if leb (full_length b) (started g).remaining_size
      then put_whole b (started g)
      else if leb (di_length b + 6) g2.remaining_size
      then put_fragments b g2
      else again

  pub put_i2np_msg : TunnelMessageBlock → TunnelGatewayBuffer → TunnelGatewayBuffer
  put_i2np_msg = put 2

-- The gateway of a tunnel. `sent` is what went to the next hop; the encryption of the tunnel
-- (`EncryptTunnelMsg`) and the I2NP header are applied to it on the way out.
pub record TunnelGateway : Type 0 where
  pub buffer : TunnelGatewayBuffer
  pub num_sent_bytes : ℕ
  pub sent : List (List ℕ)

module _ (c : Crypto) where
  abbrev pub clear_tunnel_data_msgs : TunnelGatewayBuffer → TunnelGatewayBuffer
  clear_tunnel_data_msgs g = record g { tunnel_data_msgs = [] }

  pub send_buffer : TunnelGateway → TunnelGateway
  send_buffer g =
      let b = complete_current c g.buffer in
      record {
        buffer = clear_tunnel_data_msgs b;
        num_sent_bytes = g.num_sent_bytes + length b.tunnel_data_msgs * tunnel_data_msg_size;
        sent = g.sent ++ b.tunnel_data_msgs;
      }

  -- `block.data` is a pointer, and a null one is skipped.
  pub put_tunnel_data_msg : Option TunnelMessageBlock → TunnelGateway → TunnelGateway
  put_tunnel_data_msg none g = g
  put_tunnel_data_msg (some b) g = record g { buffer = put_i2np_msg c b g.buffer }

  pub send_tunnel_data_msg : Option TunnelMessageBlock → TunnelGateway → TunnelGateway
  send_tunnel_data_msg none g = g
  send_tunnel_data_msg (some b) g = send_buffer (put_tunnel_data_msg (some b) g)
