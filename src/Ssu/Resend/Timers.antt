-- ===== src/Ssu/Resend/Timers.antt =====
-- What the timers of core/transport/SSUData.cpp keep, drop and send.
use kovri.Common.{
  ℕ, zero, suc, ◌+◌, ◌-◌, ◌*◌, ◌%◌, ◌^◌, ◌<◌, ◌≤◌, ◌≡◌, refl, ◌∙◌, List, [], ◌∷◌, ◌++◌, Option,
  none, some, false, inl, inr, Option-cases, ltb, leb, Dict, lookup, IsAbove, IsSorted,
  lookup-IsAbove, IsAbove-IsSorted, IsAbove-lower, arith, length, ◌>>=◌, if◌then◌else◌,
}
use kovri.Ssu.State.{
  SsuData, SentMessage, IncompleteMessage, Fragment, Action, send_packet, max_num_resends,
}
use kovri.Ssu.Resend.{
  resend_fragments, resend_message, resend_messages, handle_resend_timer, is_stale, drop_stale,
  handle_incomplete_messages_cleanup_timer, keep_message,
}

lookup-drop_stale :
    (ts id : ℕ) (ms : Dict IncompleteMessage)
    → IsSorted ms
    → lookup id (drop_stale ts ms)
      ≡ (lookup id ms >>= (λ m. if is_stale ts m then none else some m))
unfolding lookup drop_stale
lookup-drop_stale ts id [] s = refl
lookup-drop_stale ts id ((j, m) ∷ ms) s =
    let none_below : id ≤ j → lookup id ms ≡ none = lookup-IsAbove j id ms s in
    ground (arith, none_below, lookup-drop_stale ts id ms (IsAbove-IsSorted j ms s))

IsAbove-resend_messages :
    (ts k : ℕ) (ms : Dict SentMessage) → IsAbove k ms → IsAbove k (resend_messages ts ms).0
unfolding resend_messages
IsAbove-resend_messages ts k [] s = tt
IsAbove-resend_messages ts k ((j, m) ∷ ms) s =
    let kept = IsAbove-resend_messages ts j ms s.1 in
    elim (Option-cases (resend_message ts m).0) [
      | inl e ↦ rw (e) (IsAbove-lower k j (resend_messages ts ms).0 s.0 kept)
      | inr (m', e) ↦ rw (e) (s.0, kept)
    ]

lookup-resend_messages :
    (ts id : ℕ) (ms : Dict SentMessage)
    → IsSorted ms
    → lookup id (resend_messages ts ms).0 ≡ (lookup id ms >>= (λ m. (resend_message ts m).0))
unfolding lookup resend_messages
lookup-resend_messages ts id [] s = refl
lookup-resend_messages ts id ((j, m) ∷ ms) s =
    let none_below : id ≤ j → lookup id ms ≡ none = lookup-IsAbove j id ms s in
    let tail = lookup-resend_messages ts id ms (IsAbove-IsSorted j ms s) in
    elim (Option-cases (resend_message ts m).0) [
      | inl e ↦ ground (arith, none_below, tail, e)
      | inr (m', e) ↦ ground (arith, none_below, tail, e)
    ]

-- The packets among actions.
abbrev pub count_packets : List Action → ℕ
count_packets [] = 0
count_packets (send_packet p ∷ xs) = suc (count_packets xs)
count_packets (_ ∷ xs) = count_packets xs

-- The packets that may still be resent: the fragments that are not acknowledged, once for each
-- resend that is left.
abbrev pub budget_of : SentMessage → ℕ
budget_of m = (max_num_resends - m.num_resends) * length (resend_fragments m.fragments)

abbrev pub budget : Dict SentMessage → ℕ
budget [] = 0
budget ((_, m) ∷ ms) = budget_of m + budget ms

count_packets-append :
    (xs ys : List Action) → count_packets (xs ++ ys) ≡ count_packets xs + count_packets ys
count_packets-append [] ys = omega arith
count_packets-append (Action.send_packet p ∷ xs) ys = omega (arith, count_packets-append xs ys)
count_packets-append (Action.put_next_message p ∷ xs) ys = count_packets-append xs ys
count_packets-append (Action.established ∷ xs) ys = count_packets-append xs ys
count_packets-append (Action.schedule_resend ∷ xs) ys = count_packets-append xs ys
count_packets-append (Action.cancel_resend ∷ xs) ys = count_packets-append xs ys
count_packets-append (Action.schedule_decay ∷ xs) ys = count_packets-append xs ys
count_packets-append (Action.schedule_cleanup ∷ xs) ys = count_packets-append xs ys
count_packets-append (Action.cancel_decay ∷ xs) ys = count_packets-append xs ys
count_packets-append (Action.cancel_cleanup ∷ xs) ys = count_packets-append xs ys
count_packets-append (Action.flush ∷ xs) ys = count_packets-append xs ys

count_packets-resend_fragments :
    (fs : List (Option Fragment))
    → count_packets (resend_fragments fs) ≡ length (resend_fragments fs)
unfolding resend_fragments
count_packets-resend_fragments [] = refl
count_packets-resend_fragments (none ∷ fs) = count_packets-resend_fragments fs
count_packets-resend_fragments (some f ∷ fs) = omega (arith, count_packets-resend_fragments fs)

-- One resend that is left, and what is left after it.
budget_suc : (n f : ℕ) → n < 5 → (5 - n) * f ≡ f + (5 - (n + 1)) * f
budget_suc zero f h = omega arith
budget_suc (suc zero) f h = omega arith
budget_suc (suc (suc zero)) f h = omega arith
budget_suc (suc (suc (suc zero))) f h = omega arith
budget_suc (suc (suc (suc (suc zero)))) f h = omega arith
budget_suc (suc (suc (suc (suc (suc n))))) f h = absurd (omega arith)

spent_no_more : (n f : ℕ) → 5 ≤ n → (5 - n) * f ≡ 0
spent_no_more n f h = let none_left : 5 - n ≡ 0 = omega arith in rw (none_left) (omega arith)

budget_of_kept : Option SentMessage → ℕ
budget_of_kept none = 0
budget_of_kept (some m) = budget_of m

resend_message-budget :
    (ts : ℕ) (m : SentMessage)
    → count_packets (resend_message ts m).1 + budget_of_kept (resend_message ts m).0 ≡ budget_of m
unfolding resend_message budget_of_kept
resend_message-budget ts m =
    let f = length (resend_fragments m.fragments) in
    ground (
      arith,
      count_packets-resend_fragments m.fragments,
      budget_suc m.num_resends f,
      spent_no_more m.num_resends f,
    )

budget-keep_message :
    (id : ℕ) (o : Option SentMessage) (ms : Dict SentMessage)
    → budget (keep_message id o ms) ≡ budget_of_kept o + budget ms
unfolding budget_of_kept
budget-keep_message id none ms = omega arith
budget-keep_message id (some m) ms = refl

resend_messages-budget :
    (ts : ℕ) (ms : Dict SentMessage)
    → count_packets (resend_messages ts ms).1 + budget (resend_messages ts ms).0 ≡ budget ms
unfolding resend_messages
resend_messages-budget ts [] = omega arith
resend_messages-budget ts ((id, m) ∷ ms) =
    let (kept, now) = resend_message ts m in
    let (rest, later) = resend_messages ts ms in
    omega (
      arith,
      count_packets-append now later,
      budget-keep_message id kept rest,
      resend_message-budget ts m,
      resend_messages-budget ts ms,
    )

handle_resend_timer-budget :
    (ts : ℕ) (s : SsuData)
    → count_packets (handle_resend_timer false ts s).actions
        + budget (handle_resend_timer false ts s).sent_messages
      ≡ count_packets s.actions + budget s.sent_messages
unfolding handle_resend_timer
handle_resend_timer-budget ts s =
    let (kept, sends) = resend_messages ts s.sent_messages in
    omega (
      arith,
      count_packets-append s.actions (sends ++ (Action.schedule_resend ∷ [])),
      count_packets-append sends (Action.schedule_resend ∷ []),
      resend_messages-budget ts s.sent_messages,
    )

-- The resend timer at each of the times, in their order.
abbrev pub resend_at : List ℕ → SsuData → SsuData
resend_at [] s = s
resend_at (ts ∷ times) s = resend_at times (handle_resend_timer false ts s)

-- However often the resend timer runs, the packets it sends and the resends that are left, five at
-- most for each fragment that is not acknowledged, make the same sum as before.
pub resend_at-budget :
    (times : List ℕ) (s : SsuData)
    → count_packets (resend_at times s).actions + budget (resend_at times s).sent_messages
      ≡ count_packets s.actions + budget s.sent_messages
resend_at-budget [] s = refl
resend_at-budget (ts ∷ times) s =
    resend_at-budget times (handle_resend_timer false ts s) ∙ handle_resend_timer-budget ts s

-- A run of the resend timer leaves of each message what its own time and count say: nothing of one
-- that is due and was resent five times, one that is due with a resend more and a later time, and
-- any other as it was.
pub lookup-handle_resend_timer :
    (ts id : ℕ) (s : SsuData)
    → IsSorted s.sent_messages
    → lookup id (handle_resend_timer false ts s).sent_messages ≡ (
        lookup id s.sent_messages >>= (λ m.
          if ltb ts m.next_resend_time
          then some m
          else if leb max_num_resends m.num_resends
          then none
          else some (record m {
            num_resends = m.num_resends + 1;
            next_resend_time = (m.next_resend_time + (m.num_resends + 1) * 3) % 2 ^ 32;
          })))
unfolding handle_resend_timer resend_message
lookup-handle_resend_timer ts id s h = elim (Option-cases (lookup id s.sent_messages)) [
  | inl e ↦ ground (arith, e, lookup-resend_messages ts id s.sent_messages h)
  | inr (m, e) ↦ ground (arith, e, lookup-resend_messages ts id s.sent_messages h)
]

-- The cleanup keeps, as it was, each message whose last saved fragment, in 32 bits, is at
-- most 30 seconds old, and no other.
pub lookup-handle_incomplete_messages_cleanup_timer :
    (ts id : ℕ) (s : SsuData)
    → IsSorted s.incomplete_messages
    → lookup id (handle_incomplete_messages_cleanup_timer false ts s).incomplete_messages ≡ (
        lookup id s.incomplete_messages
        >>= (λ m. if leb ts ((m.last_fragment_insert_time + 30) % 2 ^ 32) then some m else none))
unfolding handle_incomplete_messages_cleanup_timer
lookup-handle_incomplete_messages_cleanup_timer ts id s h =
    elim (Option-cases (lookup id s.incomplete_messages)) [
      | inl e ↦ ground (arith, e, lookup-drop_stale ts id s.incomplete_messages h)
      | inr (m, e) ↦ ground (arith, e, lookup-drop_stale ts id s.incomplete_messages h)
    ]
