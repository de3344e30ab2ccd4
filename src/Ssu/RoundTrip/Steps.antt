-- ===== src/Ssu/RoundTrip/Steps.antt =====
-- The fragments of a message in their order, on the receiving side of core/transport/SSUData.cpp.
use kovri.Common.{
  ℕ, zero, suc, ◌+◌, ◌^◌, ◌<◌, ◌≤◌, ◌≡◌, refl, ap, sym, subst, ◌∙◌, List, [], ◌∷◌, ◌++◌, Option,
  some, Bool, true, false, arith, length, take, drop, length-take, length-drop, length-append,
  take-append-drop, append_assoc, lookup, insert, lookup-insert, ◌>>=◌, leb, Bool-cases, leb→le,
  inl, inr,
}
use kovri.Tunnel.Block.{I2npMessage, end_of}
use kovri.Tunnel.Endpoint.{concatenate}
use kovri.Tunnel.Endpoint.Concatenate.{IsBuffer, concatenate_lem}
use kovri.Ssu.State.{SsuData, IncompleteMessage, Fragment}
use kovri.Ssu.Send.{send_fragment_ack, cut, data_payload}
use kovri.Ssu.Receive.{
  attach_next_fragment, receive_fragment, after_fragment, process_fragment, complete_message,
  process_message, or_new,
}
use kovri.Ssu.RoundTrip.Fragments.{process_message-data_payload}

-- A message that waits for the fragment `num`, with nothing saved and room for `room` bytes more.
pub record IsWaiting (m : IncompleteMessage) (num room : ℕ) : Type 0 where
  pub next : m.next_fragment_num ≡ num
  pub unsaved : m.saved_fragments ≡ []
  pub buffer : IsBuffer m.msg
  pub fits : end_of m.msg + room < 32768

abbrev pub appended : IncompleteMessage → I2npMessage → IncompleteMessage
appended m whole = record m { msg = whole; next_fragment_num = m.next_fragment_num + 1 }

receive_fragment-next :
    (now num : ℕ) (last : Bool) (bytes : List ℕ) (m : IncompleteMessage) (whole : I2npMessage)
    → m.next_fragment_num ≡ num
    → m.saved_fragments ≡ []
    → concatenate m.msg bytes ≡ some whole
    → receive_fragment now num last bytes m ≡ some (last, appended m whole)
unfolding receive_fragment attach_next_fragment
receive_fragment-next now num true bytes m whole n u e = ground (arith, n, u, e)
receive_fragment-next now num false bytes m whole n u e = ground (arith, n, u, e)

process_message-next :
    (now msg_id num : ℕ) (last : Bool) (bytes : List ℕ) (s : SsuData) (m : IncompleteMessage)
    (whole : I2npMessage)
    → msg_id < 2 ^ 32
    → num < 128
    → length bytes < 1456
    → or_new (lookup msg_id s.incomplete_messages) ≡ m
    → m.next_fragment_num ≡ num
    → m.saved_fragments ≡ []
    → concatenate m.msg bytes ≡ some whole
    → process_message now s (data_payload msg_id num last bytes)
      ≡ (after_fragment msg_id num s (last, appended m whole) >>= (λ s'. some s'))
unfolding process_fragment
process_message-next now msg_id num last bytes s m whole i n h o e u c = rw (
  process_message-data_payload now msg_id num last bytes s i n h,
  o,
  receive_fragment-next now num last bytes m whole e u c,
)

-- The packets, in the order they come.
abbrev pub process_all : ℕ → List Fragment → SsuData → Option SsuData
process_all now [] s = some s
process_all now (f ∷ fs) s = process_message now s f.bytes >>= (λ s'. process_all now fs s')

abbrev pub saved_state : ℕ → ℕ → IncompleteMessage → SsuData → SsuData
saved_state msg_id num m s =
    send_fragment_ack msg_id num
      (record s { incomplete_messages = insert msg_id m s.incomplete_messages })

lookup-saved_state :
    (msg_id num : ℕ) (m : IncompleteMessage) (s : SsuData)
    → lookup msg_id (saved_state msg_id num m s).incomplete_messages ≡ some m
unfolding send_fragment_ack
lookup-saved_state msg_id num m s =
    ground (arith, lookup-insert msg_id msg_id m s.incomplete_messages)

saved_state-same :
    (msg_id num : ℕ) (m : IncompleteMessage) (s : SsuData)
    → ((saved_state msg_id num m s).is_established ≡ s.is_established)
      × ((saved_state msg_id num m s).received_messages ≡ s.received_messages)
unfolding send_fragment_ack
saved_state-same msg_id num m s = (ground arith, ground arith)

-- What the receiver has done with the fragments of `rest`: it completes the message with them.
abbrev pub Completes : ℕ → ℕ → List Fragment → List ℕ → SsuData → IncompleteMessage → Type 0
Completes now msg_id fragments rest s m =
    (s0 : SsuData) × (m' : IncompleteMessage) × (process_all now fragments s
      ≡ some (complete_message msg_id m' s0))
    × (m'.msg.bytes ≡ m.msg.bytes ++ rest)
    × (s0.is_established ≡ s.is_established)
    × (s0.received_messages ≡ s.received_messages)

abbrev fragment_of : ℕ → ℕ → Bool → List ℕ → Fragment
fragment_of msg_id num last bytes = record {
  fragment_num = num;
  is_last = last;
  bytes = data_payload msg_id num last bytes;
}

cut_last :
    (fuel size msg_id num b : ℕ) (bs : List ℕ)
    → length (b ∷ bs) ≤ size
    → cut (suc fuel) size msg_id num (b ∷ bs) ≡ fragment_of msg_id num true (b ∷ bs) ∷ []
unfolding cut
cut_last fuel size msg_id num b bs h = ground arith

cut_more :
    (fuel size msg_id num b : ℕ) (bs : List ℕ)
    → size < length (b ∷ bs)
    → cut (suc fuel) size msg_id num (b ∷ bs)
      ≡ fragment_of msg_id num false (take size (b ∷ bs))
        ∷ cut fuel size msg_id (num + 1) (drop size (b ∷ bs))
unfolding cut
cut_more fuel size msg_id num b bs h = ground arith

last-Completes :
    (now msg_id num : ℕ) (bytes : List ℕ) (s : SsuData) (m : IncompleteMessage)
    → length bytes < 1456
    → msg_id < 2 ^ 32
    → num < 128
    → or_new (lookup msg_id s.incomplete_messages) ≡ m
    → IsWaiting m num (length bytes)
    → 16 ≤ length m.msg.bytes + length bytes
    → Completes now msg_id (fragment_of msg_id num true bytes ∷ []) bytes s m
unfolding after_fragment
last-Completes now msg_id num bytes s m h i n o w l =
    let (whole, c, joined, _, _) = concatenate_lem m.msg bytes w.buffer w.fits in
    let long : leb 16 (length whole.bytes) ≡ true =
      rw (joined) (ground (arith, length-append m.msg.bytes bytes, l)) in
    (
      s,
      appended m whole,
      rw (
        process_message-next now msg_id num true bytes s m whole i n h o w.next w.unsaved c,
        long,
      ),
      joined,
      refl,
      refl,
    )

-- One more fragment in front of those that complete the message.
more-Completes :
    (now msg_id num : ℕ) (bytes rest : List ℕ) (fragments : List Fragment) (s : SsuData)
    (m : IncompleteMessage) (whole : I2npMessage)
    → length bytes < 1456
    → msg_id < 2 ^ 32
    → num < 128
    → or_new (lookup msg_id s.incomplete_messages) ≡ m
    → m.next_fragment_num ≡ num
    → m.saved_fragments ≡ []
    → concatenate m.msg bytes ≡ some whole
    → whole.bytes ≡ m.msg.bytes ++ bytes
    → Completes now msg_id fragments rest
        (saved_state msg_id num (appended m whole) s)
        (appended m whole)
    → Completes now msg_id (fragment_of msg_id num false bytes ∷ fragments) (bytes ++ rest) s m
unfolding after_fragment
more-Completes now msg_id num bytes rest fragments s m whole h i n o e u c joined
      (s0, m', run, bytes_eq, est, rec) =
    let (same_est, same_rec) = saved_state-same msg_id num (appended m whole) s in
    (
      s0,
      m',
      rw (process_message-next now msg_id num false bytes s m whole i n h o e u c, run),
      bytes_eq ∙ ap (λ (l : List ℕ). l ++ rest) joined ∙ append_assoc m.msg.bytes bytes rest,
      est ∙ same_est,
      rec ∙ same_rec,
    )

pub cut-Completes :
    (now fuel size msg_id num : ℕ) (rest : List ℕ) (s : SsuData) (m : IncompleteMessage)
    → 1 ≤ length rest
    → length rest ≤ fuel
    → 1 ≤ size
    → size < 1456
    → msg_id < 2 ^ 32
    → num + length (cut fuel size msg_id num rest) ≤ 128
    → or_new (lookup msg_id s.incomplete_messages) ≡ m
    → IsWaiting m num (length rest)
    → 16 ≤ length m.msg.bytes + length rest
    → Completes now msg_id (cut fuel size msg_id num rest) rest s m
cut-Completes now fuel size msg_id num [] s m z f p q i k e w l = absurd (omega arith)
cut-Completes now zero size msg_id num (b ∷ bs) s m z f p q i k e w l = absurd (omega arith)
cut-Completes now (suc fuel) size msg_id num (b ∷ bs) s m z f p q i k o w l =
    let rest = b ∷ bs in
    elim (Bool-cases (leb (length rest) size)) [
      | inl h ↦
          let one = cut_last fuel size msg_id num b bs (leb→le (length rest) size h) in
          let number : num < 128 = omega (arith, ap length one) in
          subst (λ fs. Completes now msg_id fs rest s m) (sym one)
            (last-Completes now msg_id num rest s m (omega (arith, leb→le (length rest) size h)) i
              number o w l)
      | inr h ↦
          let longer : size < length rest = ground (arith, h) in
          let bytes = take size rest in
          let left = drop size rest in
          let bytes_length : length bytes ≡ size = omega (arith, length-take size rest, longer) in
          let left_length = length-drop size rest in
          let more = cut_more fuel size msg_id num b bs longer in
          let count = ap length more in
          let (whole, c, joined, buffer, end) =
            concatenate_lem m.msg bytes w.buffer (omega (arith, bytes_length, longer, w.fits)) in
          let m1 = appended m whole in
          let s1 = saved_state msg_id num m1 s in
          let waiting : IsWaiting m1 (num + 1) (length left) = record {
            next = omega (arith, w.next);
            unsaved = w.unsaved;
            buffer = buffer;
            fits = omega (arith, left_length, bytes_length, longer, end, w.fits);
          } in
          let whole_length = ap length joined ∙ length-append m.msg.bytes bytes in
          let later =
            cut-Completes now fuel size msg_id (num + 1) left s1 m1
              (omega (arith, left_length, longer)) (omega (arith, left_length, f, p, longer)) p q i
              (omega (arith, count, k)) (ap or_new (lookup-saved_state msg_id num m1 s)) waiting
              (omega (arith, whole_length, left_length, bytes_length, longer, l)) in
          subst (λ fs. Completes now msg_id fs rest s m) (sym more)
            (subst
              (λ (bs' : List ℕ).
                Completes now msg_id
                  (fragment_of msg_id num false bytes ∷ cut fuel size msg_id (num + 1) left) bs' s
                  m)
              (take-append-drop size rest)
              (more-Completes now msg_id num bytes left (cut fuel size msg_id (num + 1) left) s m
                whole (omega (arith, bytes_length, q)) i (omega (arith, count, k)) o w.next
                w.unsaved c joined later))
    ]
