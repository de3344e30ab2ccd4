-- ===== src/Streaming/Packet.antt =====
-- The packets of api/Streaming.h: an array of bytes and what is read from it.
use kovri.Common.{
  ℕ, zero, suc, ◌+◌, ◌-◌, ◌*◌, ◌%◌, ◌^◌, List, [], ◌∷◌, Option, none, some, Bool, ltb, ◌==◌,
  if◌then◌else◌, get_elem?, take, drop, test_bit, length,
}

abbrev pub streaming_mtu : ℕ
streaming_mtu = 1730

abbrev pub max_packet_size : ℕ
max_packet_size = 4096

abbrev pub ack_send_timeout : ℕ
ack_send_timeout = 200

abbrev pub max_num_resend_attempts : ℕ
max_num_resend_attempts = 6

abbrev pub window_size_threshold : ℕ
window_size_threshold = 6

abbrev pub min_window_size : ℕ
min_window_size = 1

abbrev pub max_window_size : ℕ
max_window_size = 128

abbrev pub initial_rtt : ℕ
initial_rtt = 8000

abbrev pub initial_rto : ℕ
initial_rto = 9000

-- `buf` is the array of a received packet; of a packet to send, the bytes that are written, `len` of
-- them.
pub record Packet : Type 0 where
  pub buf : List ℕ
  pub len : ℕ
  pub offset : ℕ
  pub send_time : ℕ

-- A packet with these bytes, and the offset and time of the constructor.
abbrev pub packet_of : List ℕ → Packet
packet_of bytes = record { buf = bytes; len = length bytes; offset = 0; send_time = 0 }

abbrev byte_or_zero : Option ℕ → ℕ
byte_or_zero none = 0
byte_or_zero (some b) = b

abbrev pub byte_at : List ℕ → ℕ → ℕ
byte_at buf i = byte_or_zero (get_elem? buf i)

abbrev pub be16_at : List ℕ → ℕ → ℕ
be16_at buf i = byte_at buf i * 2 ^ 8 + byte_at buf (i + 1)

abbrev pub be32_at : List ℕ → ℕ → ℕ
be32_at buf i =
    byte_at buf i * 2 ^ 24
    + byte_at buf (i + 1) * 2 ^ 16
    + byte_at buf (i + 2) * 2 ^ 8
    + byte_at buf (i + 3)

-- `len - offset`, in `size_t`.
abbrev pub get_length : Packet → ℕ
get_length p = (p.len + 2 ^ 64 - p.offset) % 2 ^ 64

-- The bytes from the offset on, up to the end of the packet.
abbrev pub get_bytes : Packet → List ℕ
get_bytes p = take (get_length p) (drop p.offset p.buf)

unfoldable pub get_send_stream_id : Packet → ℕ
get_send_stream_id p = be32_at p.buf 0

unfoldable pub get_receive_stream_id : Packet → ℕ
get_receive_stream_id p = be32_at p.buf 4

unfoldable pub get_seqn : Packet → ℕ
get_seqn p = be32_at p.buf 8

unfoldable pub get_ack_through : Packet → ℕ
get_ack_through p = be32_at p.buf 12

unfoldable pub get_nack_count : Packet → ℕ
get_nack_count p = byte_at p.buf 16

-- The identifiers that a loop over `GetNACK(i)` reads, from the one numbered `i` on.
unfoldable pub nacks_from : ℕ → ℕ → List ℕ → List ℕ
nacks_from zero i buf = []
nacks_from (suc n) i buf = be32_at buf (17 + 4 * i) ∷ nacks_from n (i + 1) buf

unfoldable pub get_nacks : Packet → List ℕ
unfolding get_nack_count nacks_from
get_nacks p = nacks_from (get_nack_count p) 0 p.buf

-- Where the options begin: their size, two bytes, comes first.
unfoldable pub get_option : Packet → ℕ
unfolding get_nack_count
get_option p = 17 + get_nack_count p * 4 + 3

unfoldable pub get_flags : Packet → ℕ
unfolding get_option
get_flags p = be16_at p.buf (get_option p - 2)

unfoldable pub get_option_size : Packet → ℕ
unfolding get_option
get_option_size p = be16_at p.buf (get_option p)

unfoldable pub get_option_data : Packet → ℕ
unfolding get_option
get_option_data p = get_option p + 2

unfoldable pub get_payload : Packet → ℕ
unfolding get_option_data get_option_size
get_payload p = get_option_data p + get_option_size p

abbrev pub is_syn : Packet → Bool
is_syn p = test_bit (get_flags p) 0

abbrev pub is_no_ack : Packet → Bool
is_no_ack p = test_bit (get_flags p) 10

-- A set in the order of the sequence numbers; a packet with a number that is there is not inserted.
unfoldable pub insert_packet : Packet → List Packet → List Packet
insert_packet p [] = p ∷ []
insert_packet p (q ∷ qs) =
    if ltb (get_seqn p) (get_seqn q)
    then p ∷ q ∷ qs
    else if get_seqn p == get_seqn q
    then q ∷ qs
    else q ∷ insert_packet p qs
