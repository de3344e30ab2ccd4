-- ===== src/Streaming/Lifetime.antt =====
-- What every operation on a stream of api/Streaming.cpp keeps, and how its status goes on.
pub mod Sending
pub mod Acknowledging
pub mod Receiving
pub mod Timing
pub mod Steps
use kovri.Common.{
  ℕ, zero, suc, ◌≤◌, ◌≡◌, refl, ap, sym, subst, List, [], ◌∷◌, Bool, true, false, if◌then◌else◌,
  arith, ltb, ◌&&◌, ◌==◌, inl, inr, Bool-cases,
}
use kovri.Streaming.Packet.{Packet, get_seqn, insert_packet}
use kovri.Streaming.State.{
  Stream, StreamStatus, new, open_, reset, closing, closed, Identities, Action, delete_stream, call,
}
use kovri.Streaming.Close.{terminate, send_close, close_closing, close_by, close, is_empty}
use kovri.Streaming.Acks.Kept.{IsOrdered}

-- The order in which a stream takes its statuses.
abbrev pub phase : StreamStatus → ℕ
phase new = 0
phase open_ = 1
phase closing = 2
phase closed = 3
phase reset = 4

-- The window is between its bounds, there were no more attempts than are made, and both sets are in
-- the order of their numbers, without a number twice.
pub record IsSound (s : Stream) : Type 0 where
  pub window_low : 1 ≤ s.window_size
  pub window_high : s.window_size ≤ 128
  pub attempts : s.num_resend_attempts ≤ 6
  pub sent_ordered : IsOrdered 0 s.sent_packets
  pub saved_ordered : IsOrdered 0 s.saved_packets

pub record After (s s' : Stream) : Type 0 where
  pub later : phase s.status ≤ phase s'.status
  pub sound : IsSound s'

pub record Keeps (s s' : Stream) : Type 0 where
  pub kept : IsSound s → After s s'

abbrev pub After-then : {a b c : Stream} → After a b → After b c → After a c
After-then k l = record { later = omega (arith, k.later, l.later); sound = l.sound }

abbrev pub Keeps-then : {a b c : Stream} → Keeps a b → Keeps b c → Keeps a c
Keeps-then k l = record { kept = λ h. After-then (k.kept h) (l.kept (k.kept h).sound) }

abbrev pub View : Type 0
View = ℕ × ℕ × List Packet × List Packet

abbrev pub view : Stream → View
view s = (s.window_size, s.num_resend_attempts, s.sent_packets, s.saved_packets)

pub IsSound-view : {s s' : Stream} → view s ≡ view s' → IsSound s → IsSound s'
IsSound-view e h = record {
  window_low = subst (λ (v : View). 1 ≤ v.0) e h.window_low;
  window_high = subst (λ (v : View). v.0 ≤ 128) e h.window_high;
  attempts = subst (λ (v : View). v.1 ≤ 6) e h.attempts;
  sent_ordered = subst (λ (v : View). IsOrdered 0 v.2) e h.sent_ordered;
  saved_ordered = subst (λ (v : View). IsOrdered 0 v.3) e h.saved_ordered;
}

pub Keeps-status :
    {s s' : Stream} → phase s.status ≤ phase s'.status → view s ≡ view s' → Keeps s s'
Keeps-status l e = record { kept = λ h. record { later = l; sound = IsSound-view e h } }

-- Nothing that matters is changed.
pub Keeps-same : {s s' : Stream} → s.status ≡ s'.status → view s ≡ view s' → Keeps s s'
Keeps-same {s} t e =
    Keeps-status (subst (λ (u : StreamStatus). phase s.status ≤ phase u) t (omega arith)) e

pub Keeps-refl : (s : Stream) → Keeps s s
Keeps-refl s = Keeps-same refl refl

pub Keeps-if : {s x y : Stream} (b : Bool) → Keeps s x → Keeps s y → Keeps s (if b then x else y)
Keeps-if true k l = k
Keeps-if false k l = l

-- The same for the second part of a pair, with the condition.
pub Keeps-if_pair :
    {A : Type 0} {s : Stream} (b : Bool) (x y : A × Stream)
    → (b ≡ true → Keeps s x.1)
    → Keeps s y.1
    → Keeps s (if b then x else y).1
Keeps-if_pair true x y k l = k refl
Keeps-if_pair false x y k l = l

-- A call is only noted.
pub Keeps-call : (a : Action) (s s' : Stream) → Keeps s s' → Keeps s (call a s')
Keeps-call a s s' k = Keeps-then k (Keeps-same refl refl)

pub IsOrdered-weaken :
    (lo lo' : ℕ) (ps : List Packet) → lo' ≤ lo → IsOrdered lo ps → IsOrdered lo' ps
IsOrdered-weaken lo lo' [] h o = tt
IsOrdered-weaken lo lo' (p ∷ ps) h o = (omega (arith, h, o.0), o.1)

-- An insertion keeps the order.
pub insert_packet-IsOrdered :
    (lo : ℕ) (p : Packet) (qs : List Packet)
    → lo ≤ get_seqn p
    → IsOrdered lo qs
    → IsOrdered lo (insert_packet p qs)
unfolding insert_packet
insert_packet-IsOrdered lo p [] h o = (h, tt)
insert_packet-IsOrdered lo p (q ∷ qs) h o =
    let rest : suc (get_seqn q) ≤ get_seqn p → IsOrdered (suc (get_seqn q)) (insert_packet p qs) =
      λ above. insert_packet-IsOrdered (suc (get_seqn q)) p qs above o.1 in
    elim (Bool-cases (ltb (get_seqn p) (get_seqn q))) [
      | inl below ↦ rw below (h, (ground (arith, below), o.1))
      | inr not_below ↦ elim (Bool-cases (get_seqn p == get_seqn q)) [
        | inl same ↦ rw (not_below, same) o
        | inr different ↦
            rw (not_below, different) (o.0, rest (ground (arith, not_below, different)))
      ]
    ]

pub terminate-Keeps : (s : Stream) → Keeps s (terminate s)
unfolding terminate
terminate-Keeps s = Keeps-if s.send_handler (Keeps-same refl refl) (Keeps-same refl refl)

module _ (ids : Identities) where
  pub send_close-Keeps : (s : Stream) → Keeps s (send_close ids s)
  unfolding send_close
  send_close-Keeps s = Keeps-same refl refl

  end-Keeps : (s : Stream) → Keeps s (terminate (send_close ids s))
  end-Keeps s = Keeps-then (send_close-Keeps s) (terminate-Keeps (send_close ids s))

  close_closing-Keeps : (s : Stream) → phase s.status ≤ 3 → Keeps s (close_closing ids s)
  unfolding close_closing
  close_closing-Keeps s h =
      let ended : Stream = record s { status = closed } in
      Keeps-if (is_empty s.sent_packets && s.send_buffer.eof)
        (Keeps-call delete_stream s (terminate (send_close ids ended))
          (Keeps-then (Keeps-status {s = s} {s' = ended} h refl) (end-Keeps ended)))
        (Keeps-refl s)

  close_by-Keeps :
      (t : StreamStatus) (s : Stream) → phase s.status ≤ phase t → Keeps s (close_by ids t s)
  close_by-Keeps new s h = Keeps-refl s
  close_by-Keeps open_ s h =
      let s' : Stream = record s { status = closing } in
      Keeps-then (Keeps-status {s = s} {s' = s'} (omega (arith, h)) refl)
        (close_closing-Keeps s' (omega arith))
  close_by-Keeps reset s h = Keeps-call delete_stream s (terminate (send_close ids s)) (end-Keeps s)
  close_by-Keeps closing s h = close_closing-Keeps s (omega (arith, h))
  close_by-Keeps closed s h = Keeps-call delete_stream s (terminate s) (terminate-Keeps s)

  pub close-Keeps : (s : Stream) → Keeps s (close ids s)
  unfolding close
  close-Keeps s = close_by-Keeps s.status s (omega arith)
