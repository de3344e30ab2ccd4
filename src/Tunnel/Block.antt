-- ===== src/Tunnel/Block.antt =====
-- core/tunnel/TunnelBase.h, and the message buffers of core/I2NPProtocol.h.
use kovri.Common.{ℕ, ◌+◌, List, length}

abbrev pub tunnel_data_msg_size : ℕ
tunnel_data_msg_size = 1028

abbrev pub tunnel_data_encrypted_size : ℕ
tunnel_data_encrypted_size = 1008

abbrev pub tunnel_data_max_payload_size : ℕ
tunnel_data_max_payload_size = 1003

abbrev pub i2np_header_size : ℕ
i2np_header_size = 16

abbrev pub i2np_max_message_size : ℕ
i2np_max_message_size = 32768

abbrev pub i2np_max_short_message_size : ℕ
i2np_max_short_message_size = 4096

abbrev pub tunnel_gateway_header_size : ℕ
tunnel_gateway_header_size = 6

-- `unknown` is the fourth value that two bits can have, which the enumeration does not name.
pub data TunnelDeliveryType : Type 0 where
  local tunnel router unknown : TunnelDeliveryType

abbrev pub delivery_code : TunnelDeliveryType → ℕ
delivery_code local = 0
delivery_code tunnel = 1
delivery_code router = 2
delivery_code unknown = 3

-- `bytes` are those from `offset` up to `len`; the source's `len` is `end_of`. `capacity` is the
-- size of the array behind `buf`, `max_len` the field `maxLen` that the code compares with.
pub record I2npMessage : Type 0 where
  pub offset : ℕ
  pub bytes : List ℕ
  pub max_len : ℕ
  pub capacity : ℕ

abbrev pub end_of : I2npMessage → ℕ
end_of m = m.offset + length m.bytes

-- A block to send. Of its I2NP message the gateway reads the bytes, and `slack`, what the buffer
-- holds behind them, where it copies more than the message has.
pub record TunnelMessageBlock : Type 0 where
  pub delivery_type : TunnelDeliveryType
  pub hash : List ℕ
  pub tunnel_id : ℕ
  pub message : List ℕ
  pub slack : List ℕ
