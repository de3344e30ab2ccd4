-- ===== src/Ssu/Acks.antt =====
-- Acknowledgements in core/transport/SSUData.cpp: `ProcessSentMessageAck` and `ProcessAcks`.
pub mod RoundTrip
use kovri.Common.{
  ℕ, zero, suc, ◌+◌, ◌%◌, ◌/◌, ◌^◌, List, [], ◌∷◌, ◌++◌, Option, none, some, Bool, true, false,
  if◌then◌else◌, ◌>>=◌, Dict, lookup, insert, erase, test_bit, bufbe8toh, bufbe32toh, ◌==◌, length,
}
use kovri.Ssu.State.{SsuData, SentMessage, Fragment, Action, cancel_resend}

abbrev pub is_empty {ℓ} : {V : Type ℓ} → Dict V → Bool
is_empty [] = true
is_empty (_ ∷ _) = false

-- The whole message is acknowledged; with none left the timer is cancelled.
unfoldable pub process_sent_message_ack : ℕ → SsuData → SsuData
process_sent_message_ack msg_id s = elim (lookup msg_id s.sent_messages) [
  | none ↦ s
  | some _ ↦
      let left = erase msg_id s.sent_messages in
      record s {
        sent_messages = left;
        actions = if is_empty left then s.actions ++ (cancel_resend ∷ []) else s.actions;
      }
]

-- `fragments[fragment].reset(nullptr)`, if there is such a fragment.
unfoldable pub reset_fragment : ℕ → List (Option Fragment) → List (Option Fragment)
reset_fragment i [] = []
reset_fragment zero (f ∷ fs) = none ∷ fs
reset_fragment (suc i) (f ∷ fs) = f ∷ reset_fragment i fs

-- The seven bits of a bitfield, from the lowest, for the fragments from `fragment` on.
unfoldable pub process_bits : ℕ → ℕ → ℕ → List (Option Fragment) → List (Option Fragment)
process_bits zero bitfield fragment fs = fs
process_bits (suc left) bitfield fragment fs =
    process_bits left (bitfield / 2) (fragment + 1)
      (if bitfield % 2 == 1 then reset_fragment fragment fs else fs)

-- One bitfield of a message. For a message that is not there, and for an empty bitfield, the
-- number of the fragment does not advance.
unfoldable pub process_bitfield : ℕ → ℕ → List (Option Fragment) → List (Option Fragment) × ℕ
unfolding process_bits reset_fragment
process_bitfield bitfield fragment fs =
    if bitfield % 128 == 0
    then (fs, fragment)
    else (process_bits 7 (bitfield % 128) fragment fs, fragment + 7)

-- The `do … while (isNonLast)` loop, on the fragments of the message. The top bit marks a bitfield
-- that is not the last. A round reads a byte, so the bytes themselves bound it; `none` is a read
-- past them.
unfoldable pub process_bitfields :
    ℕ → List (Option Fragment) → List ℕ → Option (List (Option Fragment) × List ℕ)
process_bitfields fragment fs [] = none
process_bitfields fragment fs (b ∷ bs) =
    let (fs', fragment') = process_bitfield b fragment fs in
    let rest = process_bitfields fragment' fs' bs in if test_bit b 7 then rest else some (fs', bs)

-- For a message that is not in the table the bitfields are skipped.
unfoldable pub process_message_bitfields : ℕ → SsuData → List ℕ → Option (SsuData × List ℕ)
process_message_bitfields msg_id s bs = elim (lookup msg_id s.sent_messages) [
  | none ↦ process_bitfields 0 [] bs >>= (λ (_, rest). some (s, rest))
  | some m ↦ process_bitfields 0 m.fragments bs >>= (λ (fs, rest). some (
    record s { sent_messages = insert msg_id (record m { fragments = fs }) s.sent_messages },
    rest,
  ))
]

unfoldable pub process_ack_list : ℕ → SsuData → List ℕ → Option (SsuData × List ℕ)
process_ack_list zero s bs = some (s, bs)
process_ack_list (suc n) s bs = do
  (msg_id, rest) ← bufbe32toh bs
  process_ack_list n (process_sent_message_ack msg_id s) rest

unfoldable pub process_bitfield_list : ℕ → SsuData → List ℕ → Option (SsuData × List ℕ)
process_bitfield_list zero s bs = some (s, bs)
process_bitfield_list (suc n) s bs = do
  (msg_id, bs1) ← bufbe32toh bs
  (s', rest) ← process_message_bitfields msg_id s bs1
  process_bitfield_list n s' rest

unfoldable pub process_explicit_acks : SsuData → List ℕ → Option (SsuData × List ℕ)
unfolding process_ack_list
process_explicit_acks s bs = do (num_acks, rest) ← bufbe8toh bs; process_ack_list num_acks s rest

unfoldable pub process_ack_bitfields : SsuData → List ℕ → Option (SsuData × List ℕ)
unfolding process_bitfield_list
process_ack_bitfields s bs = do
  (num_bitfields, rest) ← bufbe8toh bs
  process_bitfield_list num_bitfields s rest

-- `flag` bit 7: explicit acknowledgements; bit 6: bitfields.
unfoldable pub process_acks : ℕ → SsuData → List ℕ → Option (SsuData × List ℕ)
process_acks flag s bs = do
  (s1, bs1) ← if test_bit flag 7 then process_explicit_acks s bs else some (s, bs)
  if test_bit flag 6 then process_ack_bitfields s1 bs1 else some (s1, bs1)
