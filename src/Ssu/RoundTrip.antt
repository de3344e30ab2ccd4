-- ===== src/Ssu/RoundTrip.antt =====
-- A message from `Send` to `ProcessMessage` in core/transport/SSUData.cpp.
pub mod Fragments
pub mod Steps
use kovri.Common.{
  ℕ, zero, suc, ◌+◌, ◌-◌, ◌*◌, ◌%◌, ◌^◌, ◌<◌, ◌≤◌, ◌≡◌, refl, ap, sym, subst, ◌∙◌, List, [], ◌∷◌,
  ◌++◌, Option, none, some, Bool, true, false, arith, length, drop, append_assoc, map, lookup,
  lookup-erase, ◌>>=◌, if◌then◌else◌, htobe32buf, ltb,
}
use kovri.Tunnel.Endpoint.Concatenate.{IsBuffer}
use kovri.Ssu.State.{
  SsuData, IncompleteMessage, Fragment, Action, send_packet, put_next_message, schedule_decay,
  schedule_resend,
}
use kovri.Ssu.Acks.{is_empty}
use kovri.Ssu.Header.{to_ssu, from_ssu, ssu_msg_id}
use kovri.Ssu.Send.{send, send_msg_ack, msg_ack_payload, payload_size_of, packets}
use kovri.Ssu.Send.Fits.{send-new, after_send, actions_of, fragments_of}
use kovri.Ssu.Receive.{
  complete_message, deliver_established, contains, add_received, process_message, or_new,
  new_incomplete_message,
}
use Steps.{process_all, cut-Completes, IsWaiting, Completes}

length-to_ssu : (message : List ℕ) → 5 ≤ length (to_ssu message)
unfolding to_ssu htobe32buf
length-to_ssu message = omega arith

-- The packets among actions.
abbrev pub sent_packets : List Action → List (List ℕ)
sent_packets [] = []
sent_packets (send_packet p ∷ acts) = p ∷ sent_packets acts
sent_packets (_ ∷ acts) = sent_packets acts

-- A receiver that gets packets in their order.
abbrev pub process_packets : ℕ → List (List ℕ) → SsuData → Option SsuData
process_packets now [] r = some r
process_packets now (p ∷ ps) r = process_message now r p >>= (λ r'. process_packets now ps r')

process_packets-packets :
    (now : ℕ) (fragments : List Fragment) (r : SsuData)
    → process_packets now (sent_packets (packets fragments)) r ≡ process_all now fragments r
process_packets-packets now [] r = refl
process_packets-packets now (f ∷ fs) r =
    λ i. process_message now r f.bytes >>= (λ r'. process_packets-packets now fs r' i)

process_packets-actions_of :
    (now : ℕ) (message : List ℕ) (s r : SsuData) (empty : Bool)
    → process_packets now
        (sent_packets
          ((if empty then schedule_resend ∷ [] else []) ++ packets (fragments_of message s)))
        r
      ≡ process_all now (fragments_of message s) r
process_packets-actions_of now message s r true =
    process_packets-packets now (fragments_of message s) r
process_packets-actions_of now message s r false =
    process_packets-packets now (fragments_of message s) r

-- The message of these bytes is handed on, last of all, remembered, and waited for no more.
abbrev pub Delivers : ℕ → List ℕ → SsuData → Type 0
Delivers msg_id message r =
    (before : List Action) × (r.actions ≡ before ++ (put_next_message message ∷ []))
    × (lookup msg_id r.incomplete_messages ≡ none)
    × (contains msg_id r.received_messages ≡ true)

complete_message-Delivers :
    (msg_id : ℕ) (m : IncompleteMessage) (r : SsuData)
    → r.is_established ≡ true
    → contains msg_id r.received_messages ≡ false
    → length r.received_messages ≤ 1000
    → Delivers msg_id (from_ssu msg_id (drop 11 m.msg.bytes)) (complete_message msg_id m r)
unfolding complete_message deliver_established send_msg_ack contains add_received
complete_message-Delivers msg_id m r est new few =
    let acked = r.actions ++ (send_packet (msg_ack_payload msg_id) ∷ []) in
    (
      acked ++ (schedule_decay ∷ []),
      ground (
        arith,
        est,
        new,
        few,
        append_assoc acked (schedule_decay ∷ [])
            (put_next_message (from_ssu msg_id (drop 11 m.msg.bytes)) ∷ []),
      ),
      ground (arith, est, new, lookup-erase msg_id msg_id r.incomplete_messages),
      ground (arith, est, new, few),
    )

-- A session whose packet size is above 46 and at most 1474 sends a message with a new 32-bit
-- identifier. Its short form has less than 32755 bytes, in at most 128 fragments. An established
-- session has nothing of that identifier, does not remember it, and remembers at most 1000 others.
-- Then the packets that the first session sends, in their order, are read by the second without a
-- fault. It hands on the message made of the short form, as its last action, and remembers it.
pub process_packets-send :
    (now later : ℕ) (message : List ℕ) (s r : SsuData)
    → 46 < s.packet_size
    → s.packet_size ≤ 1474
    → lookup (ssu_msg_id message) s.sent_messages ≡ none
    → ssu_msg_id message < 2 ^ 32
    → length (to_ssu message) < 32755
    → length (fragments_of message s) ≤ 128
    → r.is_established ≡ true
    → lookup (ssu_msg_id message) r.incomplete_messages ≡ none
    → contains (ssu_msg_id message) r.received_messages ≡ false
    → length r.received_messages ≤ 1000
    → (s' r' : SsuData) × (acts : List Action) × (send now message s ≡ some s')
      × (s'.actions ≡ s.actions ++ acts)
      × (process_packets later (sent_packets acts) r ≡ some r')
      × Delivers (ssu_msg_id message) (from_ssu (ssu_msg_id message) (to_ssu message)) r'
process_packets-send now later message s r low high new small short few est fresh unknown room =
    let id = ssu_msg_id message in
    let ssu = to_ssu message in
    let some_bytes = length-to_ssu message in
    let buffer : IsBuffer new_incomplete_message.msg = record {
      front = omega arith;
      within = omega arith;
      bounded = omega arith;
    } in
    let waiting : IsWaiting new_incomplete_message 0 (length ssu) = record {
      next = refl;
      unsaved = refl;
      buffer = buffer;
      fits = omega (arith, short);
    } in
    let (r0, m, run, joined, same_est, same_rec) =
      cut-Completes later (length ssu) (payload_size_of s) id 0 ssu r new_incomplete_message
        (omega (arith, some_bytes)) (omega arith) (omega (arith, low, high))
        (omega (arith, low, high)) small (omega (arith, few)) (ap or_new fresh) waiting
        (omega (arith, some_bytes)) in
    let delivered =
      complete_message-Delivers id m r0 (same_est ∙ est) (ap (contains id) same_rec ∙ unknown)
        (omega (arith, ap length same_rec, room)) in
    (
      after_send now message s,
      complete_message id m r0,
      actions_of message s,
      send-new now message s low high new,
      refl,
      process_packets-actions_of later message s r (is_empty s.sent_messages) ∙ run,
      subst (λ (bs : List ℕ). Delivers id (from_ssu id (drop 11 bs)) (complete_message id m r0))
          joined delivered,
    )
