-- ===== src/Streaming/Receive/Reading.antt =====
-- Reading from a stream of api/Streaming.cpp, as reading from one sequence of bytes.
use kovri.Common.{
  ℕ, zero, suc, ◌+◌, ◌-◌, ◌%◌, ◌^◌, ◌≤◌, ◌<◌, ◌≡◌, refl, ap, sym, subst, ◌∙◌, List, [], ◌∷◌, ◌++◌,
  true, false, inl, inr, Bool-cases, arith, All, min, length, take, drop, leb, leb→le, length-take,
  length-drop, take-append_le, take-append_ge, drop-append_le, drop-append_ge, take-take_le,
  drop-take, drop-drop, ◌==◌,
}
use kovri.Streaming.Packet.{Packet, get_length, get_bytes}
use kovri.Streaming.State.{Stream}
use kovri.Streaming.Receive.{concatenate, concatenate_packets}

-- A packet whose offset and end lie within its array.
pub record IsQueued (p : Packet) : Type 0 where
  pub ordered : p.offset ≤ p.len
  pub within : p.len ≤ length p.buf
  pub bounded : p.len < 2 ^ 32

-- What waits to be read.
abbrev pub waiting : List Packet → List ℕ
waiting [] = []
waiting (p ∷ ps) = get_bytes p ++ waiting ps

get_length_lem : (p : Packet) → IsQueued p → get_length p ≡ p.len - p.offset
get_length_lem p q = omega arith

length-get_bytes : (p : Packet) → IsQueued p → length (get_bytes p) ≡ get_length p
length-get_bytes p q = omega (
  arith,
  length-take (get_length p) (drop p.offset p.buf),
  length-drop p.offset p.buf,
  get_length_lem p q,
)

-- What a read of `room` bytes leaves and gives.
abbrev Reads : ℕ → List Packet → List ℕ × List Packet → Type 0
Reads room q (bytes, rest) =
    (bytes ≡ take room (waiting q)) × (waiting rest ≡ drop room (waiting q)) × All IsQueued rest

whole_packet :
    (room : ℕ) (p : Packet) (ps : List Packet) (more : List ℕ) (rest : List Packet)
    → IsQueued p
    → get_length p ≤ room
    → Reads (room - get_length p) ps (more, rest)
    → Reads room (p ∷ ps) (get_bytes p ++ more, rest)
whole_packet room p ps more rest q h (bytes_eq, rest_eq, ok) =
    let n = length-get_bytes p q in
    let fits : length (get_bytes p) ≤ room = omega (arith, n, h) in
    let left : room - get_length p ≡ room - length (get_bytes p) = omega (arith, n) in
    (
      ap (λ l. get_bytes p ++ l) (bytes_eq ∙ ap (λ (k : ℕ). take k (waiting ps)) left)
          ∙ sym (take-append_ge room (get_bytes p) (waiting ps) fits),
      rest_eq
          ∙ ap (λ (k : ℕ). drop k (waiting ps)) left
          ∙ sym (drop-append_ge room (get_bytes p) (waiting ps) fits),
      ok,
    )

abbrev moved : ℕ → Packet → Packet
moved n p = record p { offset = (p.offset + n) % 2 ^ 64 }

part_packet :
    (room : ℕ) (p : Packet) (ps : List Packet)
    → IsQueued p
    → room < get_length p
    → All IsQueued ps
    → Reads room (p ∷ ps) (take room (drop p.offset p.buf), moved room p ∷ ps)
part_packet room p ps q h ok =
    let size = length-get_bytes p q in
    let fits : room ≤ length (get_bytes p) = omega (arith, size, h) in
    let n = get_length_lem p q in
    let at' : p.offset + room ≡ (p.offset + room) % 2 ^ 64 = omega (arith, n, h, q.bounded) in
    let left : get_length p - room ≡ get_length (moved room p) =
      omega (arith, n, h, q.bounded, q.ordered) in
    let cut : drop room (get_bytes p) ≡ get_bytes (moved room p) =
      drop-take room (get_length p) (drop p.offset p.buf)
      ∙ ap (λ l. take (get_length p - room) l) (drop-drop room p.offset p.buf)
      ∙ (λ i. take (left i) (drop (at' i) p.buf)) in
    (
      sym (
          take-append_le room (get_bytes p) (waiting ps) fits
          ∙ take-take_le room (get_length p) (drop p.offset p.buf) (omega (arith, h))),
      sym (drop-append_le room (get_bytes p) (waiting ps) fits ∙ ap (λ l. l ++ waiting ps) cut),
      (
        record {
          ordered = omega (arith, n, h, q.bounded, q.ordered);
          within = q.within;
          bounded = q.bounded;
        },
        ok,
      ),
    )

not_zero : (n : ℕ) → 0 < n → (n == 0) ≡ false
not_zero n h = ground arith

is_zero : (n : ℕ) → n ≡ 0 → (n == 0) ≡ true
is_zero n h = ground arith

concatenate_whole :
    (room : ℕ) (p : Packet) (ps : List Packet)
    → IsQueued p
    → 0 < room
    → get_length p ≤ room
    → concatenate room (p ∷ ps) ≡ (
      get_bytes p ++ (concatenate (room - get_length p) ps).0,
      (concatenate (room - get_length p) ps).1,
    )
unfolding concatenate
concatenate_whole room p ps q some_room h =
    let smaller : min (get_length p) room ≡ get_length p = omega (arith, h) in
    let used : get_length (moved (get_length p) p) ≡ 0 =
      omega (arith, get_length_lem p q, q.bounded, q.ordered) in
    rw (smaller, not_zero room some_room, is_zero (get_length (moved (get_length p) p)) used)

concatenate_part :
    (room : ℕ) (p : Packet) (ps : List Packet)
    → IsQueued p
    → 0 < room
    → room < get_length p
    → concatenate room (p ∷ ps) ≡ (take room (drop p.offset p.buf), moved room p ∷ ps)
unfolding concatenate
concatenate_part room p ps q some_room h =
    let smaller : min (get_length p) room ≡ room = omega (arith, h) in
    let unused : 0 < get_length (moved room p) =
      omega (arith, get_length_lem p q, q.bounded, q.ordered, h) in
    rw (smaller, not_zero room some_room, not_zero (get_length (moved room p)) unused)

concatenate-Reads :
    (room : ℕ) (q : List Packet) → All IsQueued q → Reads room q (concatenate room q)
unfolding concatenate
concatenate-Reads zero [] ok = (refl, refl, tt)
concatenate-Reads (suc room) [] ok = (refl, refl, tt)
concatenate-Reads zero (p ∷ ps) ok = (refl, refl, ok)
concatenate-Reads (suc room) (p ∷ ps) ok = elim (Bool-cases (leb (get_length p) (suc room))) [
  | inl h ↦
      let fits = leb→le (get_length p) (suc room) h in
      subst (Reads (suc room) (p ∷ ps))
        (sym (concatenate_whole (suc room) p ps ok.0 (omega arith) fits))
        (whole_packet (suc room) p ps _ _ ok.0 fits
          (concatenate-Reads (suc room - get_length p) ps ok.1))
  | inr h ↦
      let longer : suc room < get_length p = ground (arith, h) in
      subst (Reads (suc room) (p ∷ ps))
        (sym (concatenate_part (suc room) p ps ok.0 (omega arith) longer))
        (part_packet (suc room) p ps ok.0 longer ok.1)
]

-- Every packet of the receive queue lies within its array. Then a read of at most `len` bytes gives
-- the first `len` of the bytes that wait, or all of them, and leaves the others, in packets that lie
-- within their arrays.
pub concatenate_packets-waiting :
    (len : ℕ) (s : Stream)
    → All IsQueued s.receive_queue
    → let (bytes, s') = concatenate_packets len s in
      (bytes ≡ take len (waiting s.receive_queue))
      × (waiting s'.receive_queue ≡ drop len (waiting s.receive_queue))
      × All IsQueued s'.receive_queue
unfolding concatenate_packets
concatenate_packets-waiting len s ok = concatenate-Reads len s.receive_queue ok
