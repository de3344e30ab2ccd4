-- ===== src/Ssu/Acks/RoundTrip.antt =====
-- Acknowledgements of core/transport/SSUData.cpp, as it reads its own.
use kovri.Common.{
  ℕ, zero, suc, ◌/◌, ◌%◌, ◌^◌, ◌<◌, ◌≤◌, ◌≡◌, ◌≢◌, refl, List, [], ◌∷◌, ◌++◌, Option, none, some,
  inl, inr, Option-cases, lookup, insert, erase, lookup-erase, arith, bufbe8toh,
  bufbe32toh-htobe32buf,
}
use kovri.Ssu.State.{SsuData, SentMessage, Fragment}
use kovri.Ssu.Acks.{
  process_sent_message_ack, reset_fragment, process_bits, process_bitfield, process_bitfields,
  process_message_bitfields, process_ack_list, process_bitfield_list, process_explicit_acks,
  process_ack_bitfields, process_acks,
}
use kovri.Ssu.Send.{msg_ack_payload, fragment_bitfields, fragment_ack_payload}
use kovri.Ssu.Receive.{process_fragments, skip_extended_data, process_message}

lookup-process_sent_message_ack :
    (msg_id j : ℕ) (s : SsuData)
    → lookup j (process_sent_message_ack msg_id s).sent_messages
      ≡ lookup j (erase msg_id s.sent_messages)
unfolding process_sent_message_ack
lookup-process_sent_message_ack msg_id j s = elim (Option-cases (lookup msg_id s.sent_messages)) [
  | inl e ↦ ground (arith, e, lookup-erase msg_id j s.sent_messages)
  | inr (m, e) ↦ ground (arith, e)
]

process_message-msg_ack_payload :
    (now msg_id : ℕ) (s : SsuData)
    → msg_id < 2 ^ 32
    → process_message now s (msg_ack_payload msg_id) ≡ some (process_sent_message_ack msg_id s)
unfolding process_message process_acks process_explicit_acks process_ack_list msg_ack_payload
    process_fragments skip_extended_data bufbe8toh
process_message-msg_ack_payload now msg_id s h = rw (bufbe32toh-htobe32buf msg_id (0 ∷ []) h)

single_bit :
    (bit : ℕ) (fs : List (Option Fragment)) (r : List ℕ)
    → bit < 7
    → process_bitfields 0 fs (2 ^ bit ∷ r) ≡ some (reset_fragment bit fs, r)
unfolding process_bitfields process_bitfield process_bits
single_bit zero fs r h = refl
single_bit (suc zero) fs r h = refl
single_bit (suc (suc zero)) fs r h = refl
single_bit (suc (suc (suc zero))) fs r h = refl
single_bit (suc (suc (suc (suc zero)))) fs r h = refl
single_bit (suc (suc (suc (suc (suc zero))))) fs r h = refl
single_bit (suc (suc (suc (suc (suc (suc zero)))))) fs r h = refl
single_bit (suc (suc (suc (suc (suc (suc (suc bit))))))) fs r h = absurd (omega arith)

process_bitfields-fragment_bitfields :
    (bytes bit : ℕ) (fs : List (Option Fragment)) (r : List ℕ)
    → bit < 7
    → process_bitfields 0 fs (fragment_bitfields bytes bit ++ r) ≡ some (reset_fragment bit fs, r)
unfolding process_bitfields process_bitfield fragment_bitfields
process_bitfields-fragment_bitfields zero bit fs r h = single_bit bit fs r h
process_bitfields-fragment_bitfields (suc bytes) bit fs r h =
    process_bitfields-fragment_bitfields bytes bit fs r h

-- Whatever else was sent: a packet that acknowledges a message is read without a fault, after it
-- the message is not waited for, and any other message is waited for as before.
pub process_message-msg_ack :
    (now msg_id : ℕ) (s : SsuData)
    → msg_id < 2 ^ 32
    → (s' : SsuData) × (process_message now s (msg_ack_payload msg_id) ≡ some s')
      × (lookup msg_id s'.sent_messages ≡ none)
      × ((j : ℕ) → j ≢ msg_id → lookup j s'.sent_messages ≡ lookup j s.sent_messages)
process_message-msg_ack now msg_id s h = (
  process_sent_message_ack msg_id s,
  process_message-msg_ack_payload now msg_id s h,
  ground (
    arith,
    lookup-process_sent_message_ack msg_id msg_id s,
    lookup-erase msg_id msg_id s.sent_messages,
  ),
  λ j n.
      ground (
        arith,
        n,
        lookup-process_sent_message_ack msg_id j s,
        lookup-erase msg_id j s.sent_messages,
      ),
)

-- The state after the acknowledgement of one fragment.
abbrev pub without_fragment : ℕ → ℕ → SentMessage → SsuData → SsuData
without_fragment msg_id num m s = record s {
  sent_messages =
      insert msg_id (record m { fragments = reset_fragment num m.fragments }) s.sent_messages;
}

process_message_bitfields-fragment_bitfields :
    (msg_id num : ℕ) (m : SentMessage) (s : SsuData) (r : List ℕ)
    → lookup msg_id s.sent_messages ≡ some m
    → process_message_bitfields msg_id s (fragment_bitfields (num / 7) (num % 7) ++ r)
      ≡ some (without_fragment msg_id (num % 7) m s, r)
unfolding process_message_bitfields
process_message_bitfields-fragment_bitfields msg_id num m s r e = rw (
  process_message_bitfields,
  e,
  process_bitfields-fragment_bitfields (num / 7) (num % 7) m.fragments r (omega arith),
)

-- For a message that is waited for, the packet that acknowledges its fragment `num`, at most 64,
-- is read as the acknowledgement of the fragment `num % 7`: the bytes in front do not count.
pub process_message-fragment_ack :
    (now msg_id num : ℕ) (m : SentMessage) (s : SsuData)
    → msg_id < 2 ^ 32
    → num ≤ 64
    → lookup msg_id s.sent_messages ≡ some m
    → process_message now s (fragment_ack_payload msg_id num)
      ≡ some (without_fragment msg_id (num % 7) m s)
unfolding process_message process_acks process_ack_bitfields process_bitfield_list
    fragment_ack_payload process_fragments skip_extended_data bufbe8toh
process_message-fragment_ack now msg_id num m s h n e = rw (
  bufbe32toh-htobe32buf msg_id (fragment_bitfields (num / 7) (num % 7) ++ (0 ∷ [])) h,
  process_message_bitfields-fragment_bitfields msg_id num m s (0 ∷ []) e,
)
