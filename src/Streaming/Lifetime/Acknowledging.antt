-- ===== src/Streaming/Lifetime/Acknowledging.antt =====
-- `ProcessAck` of api/Streaming.cpp keeps a stream as it has to be.
use kovri.Common.{
  ℕ, suc, ◌+◌, ◌*◌, ◌/◌, ◌-◌, ◌^◌, ◌%◌, ◌≤◌, ◌≡◌, refl, sym, subst, List, [], ◌∷◌, Bool, true,
  false, if◌then◌else◌, arith, ltb, leb, ◌&&◌, not, inl, inr, Bool-cases,
}
use kovri.Streaming.Packet.{Packet, get_seqn, get_ack_through, get_nacks}
use kovri.Streaming.State.{Stream, Identities, cancel_resend, call}
use kovri.Streaming.Close.{is_empty}
use kovri.Streaming.Send.{send_buffer, is_closing}
use kovri.Streaming.Acks.{
  is_nacked, new_rtt, grow_window, grown, acknowledge, acknowledge_all, process_ack,
}
use kovri.Streaming.Acks.Kept.{IsOrdered, unacknowledged, acknowledge_all-kept}
use kovri.Streaming.Lifetime.{
  Keeps, Keeps-then, Keeps-same, Keeps-refl, Keeps-if, Keeps-call, IsOrdered-weaken, close-Keeps,
}
use kovri.Streaming.Lifetime.Sending.{send_buffer-Keeps}

unacknowledged-IsOrdered :
    (through : ℕ) (nacks : List ℕ) (lo : ℕ) (ps : List Packet)
    → IsOrdered lo ps
    → IsOrdered lo (unacknowledged through nacks ps)
unacknowledged-IsOrdered through nacks lo [] o = tt
unacknowledged-IsOrdered through nacks lo (p ∷ ps) o =
    let seqn = get_seqn p in
    let rest = unacknowledged-IsOrdered through nacks (suc seqn) ps o.1 in
    elim (leb seqn through && not (is_nacked seqn nacks))
      as (λ b.
        IsOrdered lo
          (if b then unacknowledged through nacks ps else p ∷ unacknowledged through nacks ps)) [
            | true ↦
                IsOrdered-weaken (suc seqn) lo (unacknowledged through nacks ps)
                  (omega (arith, o.0)) rest
            | false ↦ (o.0, rest)
          ]

-- The window alone is changed, and stays between its bounds.
pub Keeps-window :
    (s s' : Stream)
    → s.status ≡ s'.status
    → (1 ≤ s.window_size → s.window_size ≤ 128 → (1 ≤ s'.window_size) × (s'.window_size ≤ 128))
    → s.num_resend_attempts ≡ s'.num_resend_attempts
    → s.sent_packets ≡ s'.sent_packets
    → s.saved_packets ≡ s'.saved_packets
    → Keeps s s'
Keeps-window s s' t w a o o' =
    let between : Stream = record s { window_size = s'.window_size } in
    let changed : Keeps s between = record {
      kept = λ h. record {
        later = omega arith;
        sound = record {
          window_low = (w h.window_low h.window_high).0;
          window_high = (w h.window_low h.window_high).1;
          attempts = h.attempts;
          sent_ordered = h.sent_ordered;
          saved_ordered = h.saved_ordered;
        };
      };
    } in
    Keeps-then changed (Keeps-same t (λ j. (s'.window_size, a j, o j, o' j)))

grow_window-Keeps : (ts : ℕ) (s : Stream) → Keeps s (grow_window ts s)
unfolding grow_window
grow_window-Keeps ts s = elim (Bool-cases (ltb s.window_size 6)) [
  | inl low ↦ rw low (
      Keeps-window s (record s { window_size = s.window_size + 1 }) refl
        (λ l h. (omega (arith, l), ground (arith, low))) refl refl refl)
  | inr not_low ↦ rw not_low (
      Keeps-if (ltb ((s.last_window_size_increase_time + s.rtt) % 2 ^ 64) ts)
        (Keeps-window s
          (record s { window_size = grown s.window_size; last_window_size_increase_time = ts }) refl
          (λ l h. (ground (arith, l), ground (arith, h))) refl refl refl)
        (Keeps-refl s))
]

acknowledge-Keeps : (ts : ℕ) (p : Packet) (s : Stream) → Keeps s (acknowledge ts p s)
unfolding acknowledge
acknowledge-Keeps ts p s =
    let rtt' = new_rtt s.rtt (get_seqn p) ((ts + 2 ^ 64 - p.send_time) % 2 ^ 64) in
    let s' : Stream = record s { rtt = rtt'; rto = rtt' * 3 / 2 } in
    Keeps-then {b = s'} (Keeps-same refl refl) (grow_window-Keeps ts s')

Keeps-if_triple :
    {A B : Type 0} {s : Stream} (b : Bool) (x y : A × Stream × B)
    → Keeps s x.1
    → Keeps s y.1
    → Keeps s (if b then x else y).1
Keeps-if_triple true x y k l = k
Keeps-if_triple false x y k l = l

acknowledge_all-Keeps :
    (ts through : ℕ) (nacks : List ℕ) (ps : List Packet) (s : Stream)
    → Keeps s (acknowledge_all ts through nacks ps s).1
unfolding acknowledge_all
acknowledge_all-Keeps ts through nacks [] s = Keeps-refl s
acknowledge_all-Keeps ts through nacks (p ∷ ps) s =
    let nacked = is_nacked (get_seqn p) nacks in
    let s' = if nacked then s else acknowledge ts p s in
    let rest = acknowledge_all-Keeps ts through nacks ps s' in
    let first = Keeps-if nacked (Keeps-refl s) (acknowledge-Keeps ts p s) in
    Keeps-if_triple (leb (get_seqn p) through) _ _ (Keeps-then first rest) (Keeps-refl s)

abbrev pub Keeps-attempts :
    (s : Stream) (n : ℕ) → n ≤ 6 → Keeps s (record s { num_resend_attempts = n })
Keeps-attempts s n b = record {
  kept = λ h. record {
    later = omega arith;
    sound = record {
      window_low = h.window_low;
      window_high = h.window_high;
      attempts = b;
      sent_ordered = h.sent_ordered;
      saved_ordered = h.saved_ordered;
    };
  };
}

module _ (ids : Identities) where
  acknowledged-Keeps :
      (ts through : ℕ) (nacks : List ℕ) (s : Stream)
      → let found = acknowledge_all ts through nacks s.sent_packets s in
        Keeps s (record found.1 { sent_packets = found.0 })
  acknowledged-Keeps ts through nacks s =
      let sent = s.sent_packets in
      record {
        kept = λ h.
            let k = (acknowledge_all-Keeps ts through nacks sent s).kept h in
            record {
              later = k.later;
              sound = record {
                window_low = k.sound.window_low;
                window_high = k.sound.window_high;
                attempts = k.sound.attempts;
                sent_ordered =
                    subst (IsOrdered 0)
                      (sym (acknowledge_all-kept ts through nacks 0 sent s h.sent_ordered))
                      (unacknowledged-IsOrdered through nacks 0 sent h.sent_ordered);
                saved_ordered = k.sound.saved_ordered;
              };
            };
      }

  pub process_ack-Keeps : (ts : ℕ) (p : Packet) (s : Stream) → Keeps s (process_ack ids ts p s)
  unfolding process_ack
  process_ack-Keeps ts p s =
      let found = acknowledge_all ts (get_ack_through p) (get_nacks p) s.sent_packets s in
      let s1 : Stream = record found.1 { sent_packets = found.0 } in
      let s2 = if is_empty found.0 then call cancel_resend s1 else s1 in
      let s2' : Stream = record s2 { num_resend_attempts = 0 } in
      let s3 = if found.2 then send_buffer ids ts s2' else s2 in
      let k2 = Keeps-then (acknowledged-Keeps ts (get_ack_through p) (get_nacks p) s) (
        Keeps-if (is_empty found.0) (Keeps-call cancel_resend s1 s1 (Keeps-refl s1))
          (Keeps-refl s1)) in
      let k3 = Keeps-then k2 (
        Keeps-if found.2
          (Keeps-then (Keeps-attempts s2 0 (omega arith)) (send_buffer-Keeps ids ts s2'))
          (Keeps-refl s2)) in
      Keeps-then k3 (Keeps-if (is_closing s3.status) (close-Keeps ids s3) (Keeps-refl s3))
