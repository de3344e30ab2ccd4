-- ===== src/Streaming/State.antt =====
-- The state of a stream of api/Streaming.h, and what it asks of its destination and its timers.
use kovri.Common.{
  ℕ, ◌+◌, ◌-◌, ◌%◌, ◌^◌, List, [], ◌∷◌, ◌++◌, Bool, true, false, ltb, if◌then◌else◌, length, take,
  drop,
}
use kovri.Streaming.Packet.{Packet, min_window_size, initial_rtt, initial_rto}

pub data StreamStatus : Type 0 where
  new open_ reset closing closed : StreamStatus

-- A `std::stringstream`: what is left to read, and whether a read met the end.
pub record SendBuffer : Type 0 where
  pub content : List ℕ
  pub eof : Bool

-- Calls, in their order. `send_packets` hands packets to the outbound tunnel, `post_send_packet`
-- queues a call of `SendPacket`; the others set and cancel timers, call the handler of `AsyncSend`,
-- ask the destination to forget the stream, and choose another lease or tunnel.
pub data Action : Type 0 where
  send_packets : List (List ℕ) → Action
  post_send_packet : Packet → Action
  schedule_resend : ℕ → Action
  cancel_resend schedule_ack_send cancel_ack_send cancel_receive : Action
  sent sent_aborted send_in_progress post_send_buffer : Action
  delete_stream update_lease next_outbound_tunnel : Action

-- `last_received` is the pattern of an `int32_t`, at first -1.
pub record Stream : Type 0 where
  pub send_stream_id : ℕ
  pub recv_stream_id : ℕ
  pub sequence_number : ℕ
  pub last_received : ℕ
  pub status : StreamStatus
  pub is_ack_send_scheduled : Bool
  pub remote_identity : List ℕ
  pub receive_queue : List Packet
  pub saved_packets : List Packet
  pub sent_packets : List Packet
  pub num_received_bytes : ℕ
  pub send_buffer : SendBuffer
  pub window_size : ℕ
  pub rtt : ℕ
  pub rto : ℕ
  pub last_window_size_increase_time : ℕ
  pub num_resend_attempts : ℕ
  pub send_handler : Bool
  pub actions : List Action

-- Identities and signatures: the local identity with its signing, and for a remote one how it is
-- read from a buffer (with the number of its bytes), its signature length and its verification.
pub record Identities : Type 0 where
  pub local_identity : List ℕ
  pub local_signature_length : ℕ
  pub sign : List ℕ → List ℕ
  pub from_buffer : List ℕ → ℕ → List ℕ × ℕ
  pub signature_length : List ℕ → ℕ
  pub verify : List ℕ → List ℕ → List ℕ → Bool

-- Both constructors, with the random identifier; an outgoing stream also knows the remote identity.
abbrev pub init : ℕ → List ℕ → Stream
init recv_id remote = record {
  send_stream_id = 0;
  recv_stream_id = recv_id;
  sequence_number = 0;
  last_received = 2 ^ 32 - 1;
  status = new;
  is_ack_send_scheduled = false;
  remote_identity = remote;
  receive_queue = [];
  saved_packets = [];
  sent_packets = [];
  num_received_bytes = 0;
  send_buffer = record { content = []; eof = false };
  window_size = min_window_size;
  rtt = initial_rtt;
  rto = initial_rto;
  last_window_size_increase_time = 0;
  num_resend_attempts = 0;
  send_handler = false;
  actions = [];
}

abbrev pub call : Action → Stream → Stream
call a s = record s { actions = s.actions ++ (a ∷ []) }

-- The order of the numbers that patterns of 32 bits stand for.
abbrev pub signed_ltb : ℕ → ℕ → Bool
signed_ltb a b = ltb ((a + 2 ^ 31) % 2 ^ 32) ((b + 2 ^ 31) % 2 ^ 32)

abbrev pub is_negative : ℕ → Bool
is_negative a = signed_ltb a 0

-- `read`: after the end nothing is read; a read that asks for more than there is meets the end.
unfoldable pub read : ℕ → SendBuffer → List ℕ × SendBuffer
read n b =
    if b.eof
    then ([], b)
    else if ltb (length b.content) n
    then (b.content, record { content = []; eof = true })
    else (take n b.content, record b { content = drop n b.content })
