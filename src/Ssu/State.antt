-- ===== src/Ssu/State.antt =====
-- The state of core/transport/SSUData.h, and what it asks of its session and of its timers.
use kovri.Common.{ℕ, List, Option, Bool, Dict}
use kovri.Tunnel.Block.{I2npMessage}

abbrev pub ssu_v4_max_packet_size : ℕ
ssu_v4_max_packet_size = 1456

abbrev pub ssu_v6_max_packet_size : ℕ
ssu_v6_max_packet_size = 1424

abbrev pub ssu_header_size_min : ℕ
ssu_header_size_min = 37

abbrev pub resend_interval : ℕ
resend_interval = 3

abbrev pub max_num_resends : ℕ
max_num_resends = 5

abbrev pub max_num_received_messages : ℕ
max_num_received_messages = 1000

abbrev pub incomplete_messages_cleanup_timeout : ℕ
incomplete_messages_cleanup_timeout = 30

-- `bytes` are the first `len` of the array; of a fragment to send, the payload of its packet, less
-- the padding to a multiple of 16.
pub record Fragment : Type 0 where
  pub fragment_num : ℕ
  pub is_last : Bool
  pub bytes : List ℕ

-- `saved_fragments` is the set in the order of the numbers.
pub record IncompleteMessage : Type 0 where
  pub msg : I2npMessage
  pub next_fragment_num : ℕ
  pub last_fragment_insert_time : ℕ
  pub saved_fragments : List Fragment

-- A null pointer stands for a fragment that is acknowledged.
pub record SentMessage : Type 0 where
  pub fragments : List (Option Fragment)
  pub next_resend_time : ℕ
  pub num_resends : ℕ

-- Calls of the session, of the message handler and of the timers, in their order. A packet is given
-- by its plain payload behind the SSU header; the session encrypts and sends it.
pub data Action : Type 0 where
  send_packet : List ℕ → Action
  put_next_message : List ℕ → Action
  established : Action
  schedule_resend cancel_resend schedule_decay cancel_decay schedule_cleanup cancel_cleanup flush :
      Action

pub record SsuData : Type 0 where
  pub incomplete_messages : Dict IncompleteMessage
  pub sent_messages : Dict SentMessage
  pub received_messages : List ℕ
  pub max_packet_size : ℕ
  pub packet_size : ℕ
  pub is_established : Bool
  pub is_v6 : Bool
  pub actions : List Action
