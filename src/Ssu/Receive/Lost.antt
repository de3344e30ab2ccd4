-- ===== src/Ssu/Receive/Lost.antt =====
-- Messages under way that core/transport/SSUData.cpp drops too early.
use kovri.Common.{
  ℕ, ◌<◌, ◌≡◌, List, none, some, false, arith, length, lookup, insert, lookup-insert, IsSorted,
  insert-IsSorted,
}
use kovri.Tunnel.Endpoint.Concatenate.{IsBuffer, concatenate_lem}
use kovri.Ssu.State.{SsuData, IncompleteMessage}
use kovri.Ssu.Send.{send_fragment_ack}
use kovri.Ssu.Resend.{handle_incomplete_messages_cleanup_timer}
use kovri.Ssu.Resend.Timers.{lookup-handle_incomplete_messages_cleanup_timer}
use kovri.Ssu.Receive.{
  new_incomplete_message, attach_next_fragment, receive_fragment, after_fragment, process_fragment,
}

-- At a time above 30, a session without a message of that identifier gets the first
-- fragment of it, which is not the last and has less than 1456 bytes. Then it has the message, and
-- its cleanup in the same second drops it.
pub cleanup_drops_fresh :
    (now msg_id : ℕ) (bytes : List ℕ) (s : SsuData)
    → 30 < now
    → IsSorted s.incomplete_messages
    → lookup msg_id s.incomplete_messages ≡ none
    → length bytes < 1456
    → (s' : SsuData) × (m : IncompleteMessage) × (process_fragment now msg_id 0 false bytes s
        ≡ some s')
      × (lookup msg_id s'.incomplete_messages ≡ some m)
      × (lookup msg_id (handle_incomplete_messages_cleanup_timer false now s').incomplete_messages
          ≡ none)
unfolding process_fragment receive_fragment attach_next_fragment after_fragment send_fragment_ack
cleanup_drops_fresh now msg_id bytes s t sorted e h =
    let buffer : IsBuffer new_incomplete_message.msg = record {
      front = omega arith;
      within = omega arith;
      bounded = omega arith;
    } in
    let (whole, attached, _, _, _) =
      concatenate_lem new_incomplete_message.msg bytes buffer (omega arith) in
    let m : IncompleteMessage = record new_incomplete_message {
      msg = whole;
      next_fragment_num = 1;
    } in
    let waiting = record s { incomplete_messages = insert msg_id m s.incomplete_messages } in
    let s' = send_fragment_ack msg_id 0 waiting in
    let there : lookup msg_id s'.incomplete_messages ≡ some m =
      ground (arith, lookup-insert msg_id msg_id m s.incomplete_messages) in
    (
      s',
      m,
      ground (arith, e, attached),
      there,
      ground (
        arith,
        there,
        t,
        lookup-handle_incomplete_messages_cleanup_timer now msg_id s'
            (insert-IsSorted msg_id m s.incomplete_messages sorted),
      ),
    )
