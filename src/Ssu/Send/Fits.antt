-- ===== src/Ssu/Send/Fits.antt =====
-- When the fragments of `Send` in core/transport/SSUData.cpp fit their arrays.
use kovri.Common.{
  ℕ, zero, suc, ◌+◌, ◌^◌, ◌<◌, ◌≤◌, ◌≡◌, refl, List, [], ◌∷◌, ◌++◌, none, some, Bool, true, false,
  arith, length, take, drop, length-take, lookup, if◌then◌else◌, htobe32buf, insert,
}
use kovri.Ssu.State.{SsuData, Fragment, Action, schedule_resend}
use kovri.Ssu.Header.{to_ssu, ssu_msg_id}
use kovri.Ssu.Send.{
  send, cut, all_fit, data_payload, fragment_info, payload_size_of, packets, sent_message,
}
use kovri.Ssu.Acks.{is_empty}
use kovri.Ssu.Session.{adjust_packet_size}

length-data_payload :
    (msg_id num : ℕ) (last : Bool) (bytes : List ℕ)
    → length (data_payload msg_id num last bytes) ≡ 9 + length bytes
unfolding data_payload fragment_info htobe32buf
length-data_payload msg_id num last bytes = omega arith

pub all_fit-cut :
    (fuel size msg_id num : ℕ) (rest : List ℕ)
    → size ≤ 1428
    → all_fit (cut fuel size msg_id num rest) ≡ true
unfolding all_fit cut
all_fit-cut zero size msg_id num rest h = refl
all_fit-cut (suc fuel) size msg_id num [] h = refl
all_fit-cut (suc fuel) size msg_id num (b ∷ bs) h =
    let rest = b ∷ bs in
    ground (
      arith,
      length-data_payload msg_id num true rest,
      length-data_payload msg_id num false (take size rest),
      length-take size rest,
      all_fit-cut fuel size msg_id (num + 1) (drop size rest) h,
    )

abbrev pub fragments_of : List ℕ → SsuData → List Fragment
fragments_of message s =
    cut (length (to_ssu message)) (payload_size_of s) (ssu_msg_id message) 0 (to_ssu message)

-- The actions, and the state, after a new message.
abbrev pub actions_of : List ℕ → SsuData → List Action
actions_of message s =
    (if is_empty s.sent_messages then schedule_resend ∷ [] else [])
    ++ packets (fragments_of message s)

abbrev pub after_send : ℕ → List ℕ → SsuData → SsuData
after_send now message s = record s {
  sent_messages =
      insert (ssu_msg_id message) (sent_message now (fragments_of message s)) s.sent_messages;
  actions = s.actions ++ actions_of message s;
}

pub send-new :
    (now : ℕ) (message : List ℕ) (s : SsuData)
    → 46 < s.packet_size
    → s.packet_size ≤ 1474
    → lookup (ssu_msg_id message) s.sent_messages ≡ none
    → send now message s ≡ some (after_send now message s)
unfolding send
send-new now message s low high e =
    let size : payload_size_of s ≤ 1428 = omega arith in
    let fit =
      all_fit-cut (length (to_ssu message)) (payload_size_of s) (ssu_msg_id message) 0
        (to_ssu message) size in
    rw (send, e, fit)

one_too_long :
    (size msg_id : ℕ) (rest : List ℕ)
    → 1428 < length rest
    → length rest ≤ size
    → all_fit (cut (length rest) size msg_id 0 rest) ≡ false
unfolding all_fit cut
one_too_long size msg_id [] h k = absurd (omega arith)
one_too_long size msg_id (b ∷ bs) h k = ground (arith, length-data_payload msg_id 0 true (b ∷ bs))

-- An MTU of the remote router between 29 and 75 makes a v4 session write past the array of a
-- fragment for a new message whose short form has more than 1428 and less than 65536 bytes.
pub send_overflow :
    (now mtu : ℕ) (message : List ℕ) (s : SsuData)
    → 28 < mtu
    → mtu < 76
    → s.is_v6 ≡ false
    → lookup (ssu_msg_id message) s.sent_messages ≡ none
    → 1428 < length (to_ssu message)
    → length (to_ssu message) < 2 ^ 16
    → send now message (adjust_packet_size (some mtu) s) ≡ none
unfolding send adjust_packet_size
send_overflow now mtu message s low high v4 e long bounded =
    let t = adjust_packet_size (some mtu) s in
    let small : t.packet_size < 46 = ground (arith, v4) in
    let same : t.sent_messages ≡ s.sent_messages = ground arith in
    let size : length (to_ssu message) ≤ payload_size_of t = omega (arith, small) in
    let over = one_too_long (payload_size_of t) (ssu_msg_id message) (to_ssu message) long size in
    let new : lookup (ssu_msg_id message) t.sent_messages ≡ none = rw (same) e in
    rw (send, new, over)
