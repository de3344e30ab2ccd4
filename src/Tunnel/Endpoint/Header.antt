-- ===== src/Tunnel/Endpoint/Header.antt =====
-- The delivery instructions at the head of a fragment, as `HandleDecryptedTunnelDataMsg` reads them.
use kovri.Common.{
  ℕ, ◌/◌, ◌%◌, List, [], Option, some, Bool, true, false, ◌==◌, if◌then◌else◌, not, ◌>>=◌, test_bit,
  read_bytes, bufbe8toh, bufbe16toh, bufbe32toh,
}
use kovri.Tunnel.Block.{TunnelDeliveryType, local, tunnel, router, unknown}

-- The header of a fragment, read from its flag on.
pub record Header : Type 0 where
  pub is_follow_on_fragment : Bool
  pub is_last_fragment : Bool
  pub msg_id : ℕ
  pub fragment_num : ℕ
  pub delivery_type : TunnelDeliveryType
  pub tunnel_id : ℕ
  pub hash : List ℕ
  pub size : ℕ

-- `(flag >> 5) & 0x03`
abbrev pub flag_delivery_type : ℕ → TunnelDeliveryType
flag_delivery_type flag =
    let t = flag / 32 % 4 in
    if t == 0 then local else if t == 1 then tunnel else if t == 2 then router else unknown

-- Tunnel identifier and hash, as far as the delivery type has them.
unfoldable pub read_address : TunnelDeliveryType → List ℕ → Option (ℕ × List ℕ × List ℕ)
read_address local bs = some (0, [], bs)
read_address tunnel bs = do
  (tunnel_id, bs') ← bufbe32toh bs
  (hash, rest) ← read_bytes 32 bs'
  some (tunnel_id, hash, rest)
read_address router bs = do (hash, rest) ← read_bytes 32 bs; some (0, hash, rest)
read_address unknown bs = some (0, [], bs)

unfoldable pub read_first : ℕ → List ℕ → Option (Header × List ℕ)
unfolding read_address
read_first flag bs = do
  let type' = flag_delivery_type flag
  (tunnel_id, hash, bs1) ← read_address type' bs
  (msg_id, bs2) ← if test_bit flag 3 then bufbe32toh bs1 else some (0, bs1)
  (size, rest) ← bufbe16toh bs2
  some (
    record {
      is_follow_on_fragment = false;
      is_last_fragment = not (test_bit flag 3);
      msg_id = msg_id;
      fragment_num = 0;
      delivery_type = type';
      tunnel_id = tunnel_id;
      hash = hash;
      size = size;
    },
    rest,
  )

-- A follow-on fragment has no address; the block keeps the default values.
unfoldable pub read_follow_on : ℕ → List ℕ → Option (Header × List ℕ)
read_follow_on flag bs = do
  (msg_id, bs1) ← bufbe32toh bs
  (size, rest) ← bufbe16toh bs1
  some (
    record {
      is_follow_on_fragment = true;
      is_last_fragment = test_bit flag 0;
      msg_id = msg_id;
      fragment_num = flag / 2 % 64;
      delivery_type = local;
      tunnel_id = 0;
      hash = [];
      size = size;
    },
    rest,
  )

unfoldable pub read_header : List ℕ → Option (Header × List ℕ)
unfolding read_first read_follow_on
read_header bs = do
  (flag, rest) ← bufbe8toh bs
  if test_bit flag 7 then read_follow_on flag rest else read_first flag rest
