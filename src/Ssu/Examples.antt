-- ===== src/Ssu/Examples.antt =====
-- Sessions of core/transport/SSUData.cpp, as test data, and the theorems on them.
use kovri.Common.{
  zero, suc, ◌++◌, htobe32buf, ℕ, ◌+◌, ◌≡◌, ◌≢◌, refl, [], ◌∷◌, Option, none, some, true, false,
  arith, lookup, List,
}
use kovri.Ssu.Header.{to_ssu, from_ssu, ssu_msg_id}
use kovri.Ssu.Send.Fits.{send_overflow}
use kovri.Ssu.Session.{adjust_packet_size}
use kovri.Ssu.RoundTrip.{process_packets-send, process_packets, sent_packets, Delivers}
use kovri.Ssu.State.{Action, SsuData, SentMessage, IncompleteMessage, Fragment}
use kovri.Ssu.Send.{msg_ack_payload, fragment_ack_payload, send, cut}
use kovri.Ssu.Receive.{contains, process_message, process_fragment, new_incomplete_message}
use kovri.Ssu.Resend.{handle_incomplete_messages_cleanup_timer}
use kovri.Ssu.Resend.Timers.{resend_at, resend_at-budget, count_packets, budget}
use kovri.Ssu.Acks.RoundTrip.{
  process_message-msg_ack, process_message-fragment_ack, without_fragment,
}
use kovri.Ssu.Receive.Lost.{cleanup_drops_fresh}

abbrev fill : ℕ → ℕ → List ℕ
fill zero b = []
fill (suc n) b = b ∷ fill n b

abbrev one_fragment : ℕ → Option Fragment
one_fragment n = some (record { fragment_num = n; is_last = false; bytes = 4 ∷ 1 ∷ n ∷ [] })

-- Nine fragments, the second acknowledged.
abbrev nine_fragments : SentMessage
nine_fragments = record {
  fragments =
      one_fragment 0
      ∷ none
      ∷ one_fragment 2
      ∷ one_fragment 3
      ∷ one_fragment 4
      ∷ one_fragment 5
      ∷ one_fragment 6
      ∷ one_fragment 7
      ∷ one_fragment 8
      ∷ [];
  next_resend_time = 100;
  num_resends = 1;
}

abbrev spent_message : SentMessage
spent_message = record { fragments = one_fragment 0 ∷ []; next_resend_time = 90; num_resends = 5 }

abbrev old_message : IncompleteMessage
old_message = record new_incomplete_message { last_fragment_insert_time = 60 }

abbrev session : SsuData
session = record {
  incomplete_messages = (3, old_message) ∷ [];
  sent_messages = (5, nine_fragments) ∷ (8, spent_message) ∷ [];
  received_messages = [];
  max_packet_size = 1456;
  packet_size = 1456;
  is_established = true;
  is_v6 = false;
  actions = [];
}

process_message-msg_ack_example :
    (s' : SsuData) × (process_message 0 session (msg_ack_payload 5) ≡ some s')
    × (lookup 5 s'.sent_messages ≡ none)
    × ((j : ℕ) → j ≢ 5 → lookup j s'.sent_messages ≡ lookup j session.sent_messages)
process_message-msg_ack_example = process_message-msg_ack 0 5 session (omega arith)

-- The fragment 8 was received, and the fragment 1 is taken as acknowledged.
process_message-fragment_ack_example :
    process_message 0 session (fragment_ack_payload 5 8)
    ≡ some (without_fragment 5 1 nine_fragments session)
unfolding lookup
process_message-fragment_ack_example =
    process_message-fragment_ack 0 5 8 nine_fragments session (omega arith) (omega arith) refl

resend_at-budget_example :
    count_packets (resend_at (100 ∷ 110 ∷ []) session).actions
      + budget (resend_at (100 ∷ 110 ∷ []) session).sent_messages
    ≡ count_packets session.actions + budget session.sent_messages
resend_at-budget_example = resend_at-budget (100 ∷ 110 ∷ []) session

cleanup_drops_fresh_example :
    (s' : SsuData) × (m : IncompleteMessage) × (process_fragment 91 4 0 false (1 ∷ 2 ∷ []) session
      ≡ some s')
    × (lookup 4 s'.incomplete_messages ≡ some m)
    × (lookup 4 (handle_incomplete_messages_cleanup_timer false 91 s').incomplete_messages ≡ none)
unfolding lookup
cleanup_drops_fresh_example =
    cleanup_drops_fresh 91 4 (1 ∷ 2 ∷ []) session (omega arith) tt refl (omega arith)

-- A message with the identifier 7 and three bytes, on sessions without any; the payload of a packet
-- has room for two bytes.
abbrev small_message : List ℕ
small_message = 20 ∷ 0 ∷ 0 ∷ 0 ∷ 7 ∷ 0 ∷ 0 ∷ 1 ∷ 100 ∷ 0 ∷ 0 ∷ 0 ∷ 0 ∷ 0 ∷ 3 ∷ 9 ∷ 1 ∷ 2 ∷ 3 ∷ []

abbrev idle : SsuData
idle = record session { incomplete_messages = []; sent_messages = []; packet_size = 48 }

process_packets-send_example :
    (s' r' : SsuData) × (acts : List Action) × (send 10 small_message idle ≡ some s')
    × (s'.actions ≡ idle.actions ++ acts)
    × (process_packets 11 (sent_packets acts) idle ≡ some r')
    × Delivers
        (ssu_msg_id small_message)
        (from_ssu (ssu_msg_id small_message) (to_ssu small_message))
        r'
unfolding lookup ssu_msg_id to_ssu htobe32buf cut contains
process_packets-send_example =
    process_packets-send 10 11 small_message idle idle (omega arith) (omega arith) refl
      (omega arith) (omega arith) (omega arith) refl refl refl (omega arith)

-- 1500 bytes behind the header.
abbrev long_message : List ℕ
long_message = 20 ∷ 0 ∷ 0 ∷ 0 ∷ 7 ∷ 0 ∷ 0 ∷ 1 ∷ 100 ∷ 0 ∷ 0 ∷ 0 ∷ 0 ∷ 5 ∷ 220 ∷ 9 ∷ fill 1500 1

send_overflow_example : send 10 long_message (adjust_packet_size (some 60) idle) ≡ none
unfolding lookup ssu_msg_id to_ssu htobe32buf
send_overflow_example =
    send_overflow 10 60 long_message idle (omega arith) (omega arith) refl refl (omega arith)
      (omega arith)
