-- ===== src/Ssu/Send.antt =====
-- Packets that core/transport/SSUData.cpp writes: `Send`, `SendMsgAck` and `SendFragmentAck`.
pub mod Fits
use kovri.Common.{
  ℕ, zero, suc, ◌+◌, ◌*◌, ◌/◌, ◌%◌, ◌^◌, ◌-◌, List, [], ◌∷◌, ◌++◌, Option, none, some, Bool, true,
  ltb, leb, if◌then◌else◌, length, take, drop, map, ◌&&◌, ◌>>◌, guard, lookup, insert, htobe32buf,
}
use kovri.Ssu.State.{
  SsuData, SentMessage, Fragment, Action, send_packet, schedule_resend, resend_interval,
  ssu_header_size_min,
}
use kovri.Ssu.Acks.{is_empty}
use kovri.Ssu.Header.{to_ssu, ssu_msg_id}

-- A packet with one explicit acknowledgement and no fragments.
unfoldable pub msg_ack_payload : ℕ → List ℕ
msg_ack_payload msg_id = 0x80 ∷ 1 ∷ (htobe32buf msg_id ++ (0 ∷ []))

-- The bytes 0x80, one for every seven fragments before, and the bit of the fragment.
unfoldable pub fragment_bitfields : ℕ → ℕ → List ℕ
fragment_bitfields zero bit = 2 ^ bit ∷ []
fragment_bitfields (suc bytes) bit = 0x80 ∷ fragment_bitfields bytes bit

unfoldable pub fragment_ack_payload : ℕ → ℕ → List ℕ
fragment_ack_payload msg_id num =
    0x40 ∷ 1 ∷ (htobe32buf msg_id ++ (fragment_bitfields (num / 7) (num % 7) ++ (0 ∷ [])))

unfoldable pub send_msg_ack : ℕ → SsuData → SsuData
send_msg_ack msg_id s = record s {
  actions = s.actions ++ (send_packet (msg_ack_payload msg_id) ∷ []);
}

-- No acknowledgement for a number above 64.
unfoldable pub send_fragment_ack : ℕ → ℕ → SsuData → SsuData
send_fragment_ack msg_id num s =
    if ltb 64 num
    then s
    else (record s { actions = s.actions ++ (send_packet (fragment_ack_payload msg_id num) ∷ []) })

-- `fragmentNum << 17`, the last mark in bit 16, the size: three bytes.
unfoldable pub fragment_info : ℕ → Bool → ℕ → List ℕ
fragment_info num last size =
    let info = num * 2 ^ 17 + (if last then 2 ^ 16 else 0) + size in
    (info / 2 ^ 16 % 256) ∷ (info / 2 ^ 8 % 256) ∷ (info % 256) ∷ []

-- A packet that wants a reply and has one fragment.
unfoldable pub data_payload : ℕ → ℕ → Bool → List ℕ → List ℕ
data_payload msg_id num last bytes =
    0x04 ∷ 1 ∷ (htobe32buf msg_id ++ (fragment_info num last (length bytes) ++ bytes))

-- The loop over the bytes that are left. With a payload size of at least 1 a round takes a byte, so
-- the number of bytes is enough fuel.
unfoldable pub cut : ℕ → ℕ → ℕ → ℕ → List ℕ → List Fragment
cut zero payload_size msg_id num rest = []
cut (suc fuel) payload_size msg_id num [] = []
cut (suc fuel) payload_size msg_id num (b ∷ bs) =
    let rest = b ∷ bs in
    let last = leb (length rest) payload_size in
    let bytes = if last then rest else take payload_size rest in
    let fragment : Fragment = record {
      fragment_num = num;
      is_last = last;
      bytes = data_payload msg_id num last bytes;
    } in
    let more = cut fuel payload_size msg_id (num + 1) (drop payload_size rest) in
    if last then fragment ∷ [] else fragment ∷ more

-- `m_PacketSize - SSU_HEADER_SIZE_MIN - 9`, in `size_t`.
abbrev pub payload_size_of : SsuData → ℕ
payload_size_of s = (s.packet_size + 2 ^ 64 - ssu_header_size_min - 9) % 2 ^ 64

abbrev pub packets : List Fragment → List Action
packets = map (λ f. send_packet f.bytes)

-- The array of a fragment has room for 1474 bytes, the SSU header of 37 included.
unfoldable pub all_fit : List Fragment → Bool
all_fit [] = true
all_fit (f ∷ fs) = leb (ssu_header_size_min + length f.bytes) 1474 && all_fit fs

abbrev pub sent_message : ℕ → List Fragment → SentMessage
sent_message now fragments = record {
  fragments = map some fragments;
  next_resend_time = (now + resend_interval) % 2 ^ 32;
  num_resends = 0;
}

-- `none` is a write past the array of a fragment. `message` goes up to the end of its buffer.
unfoldable pub send : ℕ → List ℕ → SsuData → Option SsuData
unfolding to_ssu ssu_msg_id cut all_fit
send now message s =
    let msg_id = ssu_msg_id message in
    let ssu = to_ssu message in
    let fragments = cut (length ssu) (payload_size_of s) msg_id 0 ssu in
    let timer = if is_empty s.sent_messages then schedule_resend ∷ [] else [] in
    elim (lookup msg_id s.sent_messages) [
      | some _ ↦ some s
      | none ↦
          guard (all_fit fragments)
          >> some (record s {
            sent_messages = insert msg_id (sent_message now fragments) s.sent_messages;
            actions = s.actions ++ (timer ++ packets fragments);
          })
    ]
