-- ===== src/Ssu/Resend.antt =====
-- Timers in core/transport/SSUData.cpp: resending, the decay of the received identifiers, and the
-- cleanup of incomplete messages. A timer that was aborted does nothing.
pub mod Timers
use kovri.Common.{
  ℕ, zero, suc, ◌+◌, ◌*◌, ◌%◌, ◌^◌, List, [], ◌∷◌, ◌++◌, Option, none, some, Bool, true, false, ltb,
  leb, if◌then◌else◌, Dict, not, ◌&&◌,
}
use kovri.Ssu.State.{
  SsuData, SentMessage, IncompleteMessage, Fragment, Action, send_packet, schedule_resend,
  schedule_cleanup, resend_interval, max_num_resends, incomplete_messages_cleanup_timeout,
}

unfoldable pub resend_fragments : List (Option Fragment) → List Action
resend_fragments [] = []
resend_fragments (none ∷ fs) = resend_fragments fs
resend_fragments (some f ∷ fs) = send_packet f.bytes ∷ resend_fragments fs

-- One message at time `ts`: what becomes of it, and what is sent.
unfoldable pub resend_message : ℕ → SentMessage → Option SentMessage × List Action
unfolding resend_fragments
resend_message ts m =
    if leb m.next_resend_time ts
    then (if ltb m.num_resends max_num_resends
        then (
          some (record m {
            num_resends = m.num_resends + 1;
            next_resend_time =
                (m.next_resend_time + (m.num_resends + 1) * resend_interval) % 2 ^ 32;
          }),
          resend_fragments m.fragments,
        )
        else (none, []))
    else (some m, [])

abbrev keep_message : ℕ → Option SentMessage → Dict SentMessage → Dict SentMessage
keep_message id none rest = rest
keep_message id (some m) rest = (id, m) ∷ rest

unfoldable pub resend_messages : ℕ → Dict SentMessage → Dict SentMessage × List Action
resend_messages ts [] = ([], [])
resend_messages ts ((id, m) ∷ sent) =
    let (kept, now) = resend_message ts m in
    let (rest, later) = resend_messages ts sent in (keep_message id kept rest, now ++ later)

unfoldable pub handle_resend_timer : Bool → ℕ → SsuData → SsuData
handle_resend_timer aborted ts s =
    let (kept, sends) = resend_messages ts s.sent_messages in
    if aborted then s else (record s {
      sent_messages = kept;
      actions = s.actions ++ (sends ++ (schedule_resend ∷ []));
    })

unfoldable pub handle_decay_timer : Bool → SsuData → SsuData
handle_decay_timer aborted s = if aborted then s else (record s { received_messages = [] })

-- `ts > lastFragmentInsertTime + 30`, in 32 bits.
abbrev pub is_stale : ℕ → IncompleteMessage → Bool
is_stale ts m =
    ltb ((m.last_fragment_insert_time + incomplete_messages_cleanup_timeout) % 2 ^ 32) ts

unfoldable pub drop_stale : ℕ → Dict IncompleteMessage → Dict IncompleteMessage
drop_stale ts [] = []
drop_stale ts ((id, m) ∷ ms) =
    if is_stale ts m then drop_stale ts ms else (id, m) ∷ drop_stale ts ms

unfoldable pub handle_incomplete_messages_cleanup_timer : Bool → ℕ → SsuData → SsuData
handle_incomplete_messages_cleanup_timer aborted ts s = if aborted then s else (record s {
  incomplete_messages = drop_stale ts s.incomplete_messages;
  actions = s.actions ++ (schedule_cleanup ∷ []);
})
