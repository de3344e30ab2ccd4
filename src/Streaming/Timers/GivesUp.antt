-- ===== src/Streaming/Timers/GivesUp.antt =====
-- The resend timer of api/Streaming.cpp gives up.
use kovri.Common.{
  if_true, if_false, ℕ, ◌+◌, ◌*◌, ◌%◌, ◌^◌, ◌≤◌, ◌≡◌, refl, ap, ◌∙◌, List, [], ◌∷◌, ◌++◌, Bool,
  true, false, if◌then◌else◌, arith, leb, ◌==◌, length,
}
use kovri.Streaming.State.{Stream, reset, Identities, schedule_resend, call}
use kovri.Streaming.Close.{is_empty, terminate, send_close, close}
use kovri.Streaming.Timers.{collect_due, back_off, resend, handle_resend_timer, halved}

-- Something was not acknowledged in time.
unfoldable pub is_due : ℕ → Stream → Bool
is_due ts s = if is_empty (collect_due ts s.rto s.sent_packets).0 then false else true

-- The timer expires at these times.
unfoldable pub expire : Identities → List ℕ → Stream → Stream
expire ids [] s = s
expire ids (t ∷ ts) s = expire ids ts (handle_resend_timer ids false t s)

-- Each time something is due.
unfoldable pub IsDue : Identities → List ℕ → Stream → Type 0
IsDue ids [] s = Unit
IsDue ids (t ∷ ts) s = (is_due t s ≡ true) × IsDue ids ts (handle_resend_timer ids false t s)

terminate-status : (s : Stream) → (terminate s).status ≡ s.status
unfolding terminate
terminate-status s = same s.send_handler _ _ refl refl
  where
    same :
        (b : Bool) (x y : Stream)
        → x.status ≡ s.status
        → y.status ≡ s.status
        → (if b then x else y).status ≡ s.status
    same true x y e e' = e
    same false x y e e' = e'

attempts-if :
    {n : ℕ} (b : Bool) (x y : Stream)
    → x.num_resend_attempts ≡ n
    → y.num_resend_attempts ≡ n
    → (if b then x else y).num_resend_attempts ≡ n
attempts-if true x y e e' = e
attempts-if false x y e e' = e'

back_off-attempts :
    (k : ℕ) (s : Stream) → (back_off k s).num_resend_attempts ≡ s.num_resend_attempts
unfolding back_off
back_off-attempts k s =
    attempts-if (k == 1) (record s { window_size = halved s.window_size }) _ refl
      (attempts-if (k == 2) _ _ refl
        (attempts-if (k == 3) _ _ refl (attempts-if (k == 4) _ _ refl refl)))

resend-attempts :
    (ts : ℕ) (s : Stream)
    → is_due ts s ≡ true
    → (resend ts s).num_resend_attempts ≡ s.num_resend_attempts + 1
unfolding resend is_due
resend-attempts ts s due =
    let found = collect_due ts s.rto s.sent_packets in
    let attempts = s.num_resend_attempts + 1 in
    let s1 : Stream = record s {
      sent_packets = found.1;
      num_resend_attempts = attempts;
      rto = s.rto * 2 % 2 ^ 32;
    } in
    let some_due : is_empty found.0 ≡ false = ground (arith, due) in
    ap (λ (t : Stream). t.num_resend_attempts) (if_false s _ some_due)
    ∙ back_off-attempts attempts s1

module _ (ids : Identities) where
  resends :
      (ts : ℕ) (s : Stream)
      → s.num_resend_attempts ≤ 5
      → is_due ts s ≡ true
      → (handle_resend_timer ids false ts s).num_resend_attempts ≡ s.num_resend_attempts + 1
  unfolding handle_resend_timer
  resends ts s few due =
      let more : leb 6 s.num_resend_attempts ≡ false = ground (arith, few) in
      ap (λ (t : Stream). t.num_resend_attempts)
        (if_false _ (call (schedule_resend (resend ts s).rto) (resend ts s)) more)
      ∙ resend-attempts ts s due

  gives_up :
      (ts : ℕ) (s : Stream)
      → s.num_resend_attempts ≡ 6
      → (handle_resend_timer ids false ts s).status ≡ reset
  unfolding handle_resend_timer close
  gives_up ts s e =
      let spent : leb 6 s.num_resend_attempts ≡ true = ground (arith, e) in
      let s' : Stream = record s { status = reset } in
      ap (λ (t : Stream). t.status) (if_true (close ids s') _ spent)
      ∙ terminate-status (send_close ids s')

  -- If the timer expires, and each time something was not acknowledged in time, then after 6 attempts
  -- in all, those before included, the next time resets the stream.
  pub expire-reset :
      (times : List ℕ) (last : ℕ) (s : Stream)
      → s.num_resend_attempts + length times ≡ 6
      → IsDue ids times s
      → (expire ids (times ++ (last ∷ [])) s).status ≡ reset
  unfolding expire IsDue
  expire-reset [] last s e due = gives_up last s (omega (arith, e))
  expire-reset (t ∷ times) last s e due =
      let once = resends t s (omega (arith, e)) due.0 in
      expire-reset times last (handle_resend_timer ids false t s) (omega (arith, e, once)) due.1
