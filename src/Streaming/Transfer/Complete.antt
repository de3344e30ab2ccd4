-- ===== src/Streaming/Transfer/Complete.antt =====
-- All that one stream of api/Streaming.cpp has to send, as the reader of the other one gets it.
use kovri.Common.{
  if_true, if_false, ℕ, zero, suc, ◌+◌, ◌*◌, ◌^◌, ◌%◌, ◌≤◌, ◌<◌, ◌≡◌, refl, ap, sym, subst, ◌∙◌,
  List, [], ◌∷◌, ◌++◌, Bool, true, false, arith, ltb, ◌&&◌, ◌||◌, not, inl, inr, Bool-cases, length,
  length-drop, take, drop, All, append-nil,
}
use kovri.Streaming.Packet.{Packet}
use kovri.Streaming.State.{Stream, Identities, read, SendBuffer}
use kovri.Streaming.Send.{make_packets, is_new, is_established}
use kovri.Streaming.Receive.{concatenate_packets}
use kovri.Streaming.Receive.Reading.{IsQueued, waiting, concatenate_packets-waiting}
use kovri.Streaming.Transfer.{make_packet_follow_on, receive_all, make_packets-receive_all}

module _ (ids : Identities) where
  abbrev left : Bool → ℕ → Stream → List ℕ
  left no_ack n s = (make_packets ids no_ack n s).1.send_buffer.content

  -- After the end nothing is sent.
  make_packets_ended :
      (no_ack : Bool) (n : ℕ) (s : Stream)
      → is_new s.status ≡ false
      → s.send_buffer.eof ≡ true
      → left no_ack n s ≡ s.send_buffer.content
  unfolding make_packets
  make_packets_ended no_ack zero s old e = refl
  make_packets_ended no_ack (suc n) s old e =
      let over : (is_new s.status || (is_established s && not s.send_buffer.eof)) ≡ false =
        ground (arith, old, e) in
      ap (λ (x : List Packet × Stream). x.1.send_buffer.content) (if_false _ _ over)

  abbrev after : Stream → SendBuffer → Stream
  after s b = record s { sequence_number = (s.sequence_number + 1) % 2 ^ 32; send_buffer = b }

  make_packets_continued :
      (no_ack : Bool) (n : ℕ) (s : Stream)
      → is_new s.status ≡ false
      → is_established s ≡ true
      → s.send_buffer.eof ≡ false
      → left no_ack (suc n) s ≡ left no_ack n (after s (read 1708 s.send_buffer).1)
  unfolding make_packets
  make_packets_continued no_ack n s old est e =
      let goes_on : (is_new s.status || (is_established s && not s.send_buffer.eof)) ≡ true =
        ground (arith, old, est, e) in
      ap (λ (x : List Packet × Stream). x.1.send_buffer.content) (if_true _ _ goes_on)
      ∙ ap (λ (x : Packet × Stream). left no_ack n x.1) (make_packet_follow_on ids no_ack s old)

  read_short :
      (b : SendBuffer)
      → b.eof ≡ false
      → length b.content < 1708
      → (read 1708 b).1 ≡ record { content = []; eof = true }
  unfolding read
  read_short b e h =
      let short : ltb (length b.content) 1708 ≡ true = ground (arith, h) in
      ap (λ (x : List ℕ × SendBuffer). x.1) (if_false _ _ e ∙ if_true _ _ short)

  read_long :
      (b : SendBuffer)
      → b.eof ≡ false
      → 1708 ≤ length b.content
      → (read 1708 b).1 ≡ record b { content = drop 1708 b.content }
  unfolding read
  read_long b e h =
      let long : ltb (length b.content) 1708 ≡ false = ground (arith, h) in
      ap (λ (x : List ℕ × SendBuffer). x.1) (if_false _ _ e ∙ if_false _ _ long)

  -- With a round for every 1708 bytes, and one more, nothing is left.
  make_packets_drains :
      (no_ack : Bool) (n : ℕ) (s : Stream)
      → is_new s.status ≡ false
      → is_established s ≡ true
      → s.send_buffer.eof ≡ false
      → length s.send_buffer.content < 1708 * n
      → left no_ack n s ≡ []
  make_packets_drains no_ack zero s old est e h = absurd (omega (arith, h))
  make_packets_drains no_ack (suc n) s old est e h =
      let b = s.send_buffer in
      let more = make_packets_continued no_ack n s old est e in
      elim (Bool-cases (ltb (length b.content) 1708)) [
        | inl short ↦
            more
            ∙ ap (λ (c : SendBuffer). left no_ack n (after s c))
                (read_short b e (ground (arith, short)))
            ∙ make_packets_ended no_ack n (after s (record { content = []; eof = true })) old refl
        | inr long ↦
            more
            ∙ ap (λ (c : SendBuffer). left no_ack n (after s c))
                (read_long b e (ground (arith, long)))
            ∙ make_packets_drains no_ack n (after s (record b { content = drop 1708 b.content }))
                old est e (omega (arith, h, length-drop 1708 b.content, le_of long))
      ]
    where
      le_of : {m : ℕ} → ltb m 1708 ≡ false → 1708 ≤ m
      le_of e = ground (arith, e)

module _ (sender receiver : Identities) where
  -- An established stream that has sent its first packet has bytes to send, and makes packets of them,
  -- at most `n`, which is more than one for every 1708 bytes. Another one that waits for their first
  -- number, and has nothing saved and nothing to read, gets them in their order. A read of it with room
  -- for all then gives exactly these bytes. The numbers stay below 2 ^ 32.
  pub concatenate_packets-receive_all :
      (ts n len : ℕ) (no_ack : Bool) (s r : Stream)
      → is_new s.status ≡ false
      → is_established s ≡ true
      → s.send_buffer.eof ≡ false
      → length s.send_buffer.content < 1708 * n
      → length s.send_buffer.content ≤ len
      → s.sequence_number + n < 2 ^ 32
      → suc r.last_received ≡ s.sequence_number
      → r.saved_packets ≡ []
      → r.receive_queue ≡ []
      → (concatenate_packets len (receive_all receiver ts (make_packets sender no_ack n s).0 r)).0
        ≡ s.send_buffer.content
  concatenate_packets-receive_all ts n len no_ack s r old est e many fits small next none empty =
      let ok = subst (All IsQueued) (sym empty) tt in
      let r' = receive_all receiver ts (make_packets sender no_ack n s).0 r in
      let k = make_packets-receive_all sender receiver ts n no_ack s r old small next none ok in
      let waits : waiting r'.receive_queue ≡ s.send_buffer.content =
        sym (append-nil (waiting r'.receive_queue))
        ∙ ap (λ l. waiting r'.receive_queue ++ l)
            (sym (make_packets_drains sender no_ack n s old est e many))
        ∙ k.conserved
        ∙ ap (λ (q : List Packet). waiting q ++ s.send_buffer.content) empty in
      (concatenate_packets-waiting len r' k.queued).0
      ∙ ap (take len) waits
      ∙ take_le len s.send_buffer.content fits
    where
      take_le : (m : ℕ) (l : List ℕ) → length l ≤ m → take m l ≡ l
      take_le zero [] h = refl
      take_le zero (x ∷ l) h = absurd (omega (arith, h))
      take_le (suc m) [] h = refl
      take_le (suc m) (x ∷ l) h = ap (λ t. x ∷ t) (take_le m l (omega (arith, h)))
