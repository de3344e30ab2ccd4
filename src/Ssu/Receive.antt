-- ===== src/Ssu/Receive.antt =====
-- Packets that core/transport/SSUData.cpp reads: `ProcessMessage`, `ProcessFragments` and
-- `AttachNextFragment`. A step answers `none` where the source leaves a buffer, or reads a short
-- header that no fragment wrote.
pub mod Lost
use kovri.Common.{
  ℕ, zero, suc, ◌+◌, ◌*◌, ◌/◌, ◌%◌, ◌^◌, List, [], ◌∷◌, ◌++◌, Option, none, some, Bool, true, false,
  ltb, leb, ◌==◌, if◌then◌else◌, ◌||◌, ◌>>=◌, ◌>>◌, guard, length, drop, lookup, insert, erase,
  test_bit, bufbe8toh, bufbe32toh, read_bytes,
}
use kovri.Tunnel.Endpoint.{concatenate}
use kovri.Ssu.State.{
  SsuData, IncompleteMessage, Fragment, Action, put_next_message, established, schedule_decay,
  max_num_received_messages, ssu_v4_max_packet_size,
}
use kovri.Ssu.Acks.{process_acks}
use kovri.Ssu.Header.{from_ssu, head_or_zero}
use kovri.Ssu.Send.{send_msg_ack, send_fragment_ack}

-- A short message that ends where its short header begins; the eleven bytes of the header before
-- that are not written yet.
abbrev pub new_incomplete_message : IncompleteMessage
new_incomplete_message = record {
  msg = record {
    offset = 2;
    bytes = 0 ∷ 0 ∷ 0 ∷ 0 ∷ 0 ∷ 0 ∷ 0 ∷ 0 ∷ 0 ∷ 0 ∷ 0 ∷ [];
    max_len = 4096;
    capacity = 4112;
  };
  next_fragment_num = 0;
  last_fragment_insert_time = 0;
  saved_fragments = [];
}

unfoldable pub attach_next_fragment : List ℕ → IncompleteMessage → Option IncompleteMessage
attach_next_fragment fragment m = do
  whole ← concatenate m.msg fragment
  some (record m { msg = whole; next_fragment_num = m.next_fragment_num + 1 })

-- The set of saved fragments, by their numbers.
unfoldable pub is_saved : ℕ → List Fragment → Bool
is_saved num [] = false
is_saved num (f ∷ fs) = (f.fragment_num == num) || is_saved num fs

unfoldable pub save : Fragment → List Fragment → List Fragment
save f [] = f ∷ []
save f (g ∷ gs) = if ltb f.fragment_num g.fragment_num then f ∷ g ∷ gs else g ∷ save f gs

-- The loop over the saved fragments, from the one with the lowest number.
unfoldable pub try_saved :
    List Fragment → Bool → IncompleteMessage → Option (Bool × IncompleteMessage)
unfolding attach_next_fragment
try_saved [] last m = some (last, record m { saved_fragments = [] })
try_saved (f ∷ fs) last m =
    if f.fragment_num == m.next_fragment_num
    then attach_next_fragment f.bytes m >>= (λ m'. try_saved fs f.is_last m')
    else some (last, record m { saved_fragments = f ∷ fs })

abbrev has_none : List Fragment → Bool
has_none [] = true
has_none (_ ∷ _) = false

unfoldable pub save_fragment : ℕ → Fragment → IncompleteMessage → IncompleteMessage
unfolding is_saved save
save_fragment now f m =
    if is_saved f.fragment_num m.saved_fragments
    then m
    else (record m { saved_fragments = save f m.saved_fragments; last_fragment_insert_time = now })

-- A fragment of a message: whether the message is complete, and the message.
unfoldable pub receive_fragment :
    ℕ → ℕ → Bool → List ℕ → IncompleteMessage → Option (Bool × IncompleteMessage)
unfolding attach_next_fragment try_saved save_fragment
receive_fragment now num last bytes m =
    let saved : Fragment = record { fragment_num = num; is_last = last; bytes = bytes } in
    if num == m.next_fragment_num
    then attach_next_fragment bytes m >>= (λ m'.
      if last || has_none m'.saved_fragments
      then some (last, m')
      else try_saved m'.saved_fragments last m')
    else if ltb num m.next_fragment_num
    then some (false, m)
    else some (false, save_fragment now saved m)

unfoldable pub contains : ℕ → List ℕ → Bool
contains id [] = false
contains id (x ∷ xs) = (x == id) || contains id xs

unfoldable pub add_received : ℕ → List ℕ → List ℕ
unfolding contains
add_received id ids = if contains id ids then ids else id ∷ ids

-- An established session gets each identifier once, as long as it remembers it. A timer is
-- scheduled that forgets them; above 1000 they are forgotten at once.
unfoldable pub deliver_established : ℕ → List ℕ → SsuData → SsuData
unfolding contains add_received
deliver_established msg_id message s =
    let full = ltb max_num_received_messages (length s.received_messages) in
    if contains msg_id s.received_messages then s else (record s {
      received_messages = add_received msg_id (if full then [] else s.received_messages);
      actions =
          s.actions
          ++ ((if full then [] else schedule_decay ∷ []) ++ (put_next_message message ∷ []));
    })

-- Before that, a delivery status (type 10) establishes it, and a database store (type 1) passes.
unfoldable pub deliver_unestablished : ℕ → List ℕ → SsuData → SsuData
unfolding add_received
deliver_unestablished msg_id message s =
    if head_or_zero message == 10
    then (record s { is_established = true; actions = s.actions ++ (established ∷ []) })
    else if head_or_zero message == 1
    then (record s {
      received_messages = add_received msg_id s.received_messages;
      actions = s.actions ++ (put_next_message message ∷ []);
    })
    else s

-- All fragments are there. The short header begins behind eleven bytes.
unfoldable pub complete_message : ℕ → IncompleteMessage → SsuData → SsuData
unfolding deliver_established deliver_unestablished from_ssu send_msg_ack
complete_message msg_id m s =
    let message = from_ssu msg_id (drop 11 m.msg.bytes) in
    let s' =
      send_msg_ack msg_id (record s { incomplete_messages = erase msg_id s.incomplete_messages }) in
    if s.is_established
    then deliver_established msg_id message s'
    else deliver_unestablished msg_id message s'

abbrev pub or_new : Option IncompleteMessage → IncompleteMessage
or_new none = new_incomplete_message
or_new (some m) = m

-- The message is complete, or waits for other fragments.
unfoldable pub after_fragment : ℕ → ℕ → SsuData → Bool × IncompleteMessage → Option SsuData
after_fragment msg_id num s (true, m) =
    guard (leb 16 (length m.msg.bytes)) >> some (complete_message msg_id m s)
after_fragment msg_id num s (false, m) = some (
    send_fragment_ack msg_id num
      (record s { incomplete_messages = insert msg_id m s.incomplete_messages }))

unfoldable pub process_fragment : ℕ → ℕ → ℕ → Bool → List ℕ → SsuData → Option SsuData
unfolding receive_fragment after_fragment
process_fragment now msg_id num last bytes s =
    receive_fragment now num last bytes (or_new (lookup msg_id s.incomplete_messages))
    >>= (λ r. after_fragment msg_id num s r)

-- The three bytes of the fragment info: size in 13 bits, last mark in bit 16, number above.
unfoldable pub read_info : List ℕ → Option ((ℕ × Bool × ℕ) × List ℕ)
read_info (a ∷ b ∷ c ∷ r) =
    let info = a * 2 ^ 16 + b * 2 ^ 8 + c in
    some ((info / 2 ^ 17, test_bit info 16, info % 2 ^ 13), r)
read_info _ = none

-- A fragment of 1456 bytes or more ends the loop.
unfoldable pub process_fragments : ℕ → ℕ → SsuData → List ℕ → Option SsuData
unfolding read_info process_fragment
process_fragments now zero s bs = some s
process_fragments now (suc n) s bs = do
  (msg_id, bs1) ← bufbe32toh bs
  ((num, last, size), bs2) ← read_info bs1
  (if leb ssu_v4_max_packet_size size
      then some s
      else (read_bytes size bs2 >>= (λ (bytes, rest).
          process_fragment now msg_id num last bytes s
          >>= (λ s'. process_fragments now n s' rest))))

-- The extended data is skipped.
unfoldable pub skip_extended_data : ℕ → List ℕ → Option (List ℕ)
skip_extended_data flag bs =
    if test_bit flag 1
    then (bufbe8toh bs >>= (λ (size, r). read_bytes size r >>= (λ (_, rest). some rest)))
    else some bs

unfoldable pub process_message : ℕ → SsuData → List ℕ → Option SsuData
unfolding process_acks skip_extended_data process_fragments
process_message now s buf = do
  (flag, bs) ← bufbe8toh buf
  (s1, bs1) ← if test_bit flag 6 || test_bit flag 7 then process_acks flag s bs else some (s, bs)
  bs2 ← skip_extended_data flag bs1
  (num_fragments, bs3) ← bufbe8toh bs2
  process_fragments now num_fragments s1 bs3
