-- ===== src/Garlic/Receive/Cloves.antt =====
-- How the cloves of a garlic payload are read, apart from how they are made.
use kovri.Common.{
  lt→ltb, le→ltb_false, ℕ, suc, ◌+◌, ◌^◌, ◌≤◌, ◌<◌, ◌≡◌, refl, sym, ap, ◌∙◌, List, [], ◌∷◌, ◌++◌,
  map, Option, some, Bool, true, false, arith, length, take, drop, htobe32buf, bufbe8toh,
  bufbe16toh, read_bytes-append, bufbe32toh-htobe32buf, drop-drop, drop-append, drop-append_le,
  take-append, length-append, length-drop, append_assoc,
}
use kovri.Ssu.Header.{be16}
use kovri.I2np.{get_i2np_message_length}
use kovri.Garlic.Receive.{
  Event, handle_i2np_message, send_tunnel_data_msg, create_i2np_message, message_length_at,
  deliver_clove, handle_clove, handle_cloves,
}

-- Where a clove is to go, with the message in it.
pub data Clove : Type 0 where
  to_local : List ℕ → Clove
  to_destination : List ℕ → List ℕ → Clove
  to_tunnel : List ℕ → ℕ → List ℕ → Clove

abbrev pub message_of : Clove → List ℕ
message_of (to_local msg) = msg
message_of (to_destination hash msg) = msg
message_of (to_tunnel hash tunnel_id msg) = msg

abbrev pub instructions : Clove → List ℕ
instructions (to_local msg) = 0 ∷ []
instructions (to_destination hash msg) = 32 ∷ hash
instructions (to_tunnel hash tunnel_id msg) = 96 ∷ (hash ++ htobe32buf tunnel_id)

-- The header of a message gives its length, which fits into a buffer.
abbrev pub IsMessage : List ℕ → Type 0
IsMessage msg =
    (16 ≤ length msg) × (get_i2np_message_length msg ≡ length msg) × (2 + length msg < 32768)

abbrev pub IsClove : Clove → Type 0
IsClove (to_local msg) = IsMessage msg
IsClove (to_destination hash msg) = (length hash ≡ 32) × IsMessage msg
IsClove (to_tunnel hash tunnel_id msg) = (length hash ≡ 32) × (tunnel_id < 2 ^ 32) × IsMessage msg

-- What a handler reads of what it is given: the message, by the length in its header.
abbrev pub trimmed : Event → Event
trimmed (handle_i2np_message bs len) =
    handle_i2np_message (take (get_i2np_message_length bs) bs) len
trimmed (send_tunnel_data_msg hash tunnel_id msg) = send_tunnel_data_msg hash tunnel_id msg

-- What a clove makes its receiver do.
abbrev pub delivered : Bool → ℕ → Clove → List Event
delivered has_tunnel len (to_local msg) = handle_i2np_message msg len ∷ []
delivered has_tunnel len (to_destination hash msg) = handle_i2np_message msg len ∷ []
delivered true len (to_tunnel hash tunnel_id msg) = send_tunnel_data_msg hash tunnel_id msg ∷ []
delivered false len (to_tunnel hash tunnel_id msg) = []

bufbe16toh-append :
    (xs ys : List ℕ) → 2 ≤ length xs → bufbe16toh (xs ++ ys) ≡ some (be16 xs, drop 2 xs ++ ys)
unfolding bufbe16toh
bufbe16toh-append [] ys h = absurd (omega arith)
bufbe16toh-append (a ∷ []) ys h = absurd (omega arith)
bufbe16toh-append (a ∷ b ∷ xs) ys h = refl

be16-append : (xs ys : List ℕ) → 2 ≤ length xs → be16 (xs ++ ys) ≡ be16 xs
be16-append [] ys h = absurd (omega arith)
be16-append (a ∷ []) ys h = absurd (omega arith)
be16-append (a ∷ b ∷ xs) ys h = refl

pub message_length_at-append :
    (msg ys : List ℕ) → IsMessage msg → message_length_at (msg ++ ys) ≡ some (length msg)
unfolding message_length_at
message_length_at-append msg ys h =
    let long : 2 ≤ length (drop 13 msg) = omega (arith, length-drop 13 msg, h.0) in
    rw (drop-append_le 13 msg ys (omega (arith, h.0)), bufbe16toh-append (drop 13 msg) ys long, h.1)

-- The message is what the handler reads.
pub trimmed_lem :
    (msg ys : List ℕ) (len : ℕ)
    → IsMessage msg
    → trimmed (handle_i2np_message (msg ++ ys) len) ≡ handle_i2np_message msg len
trimmed_lem msg ys len h =
    let long : 2 ≤ length (drop 13 msg) = omega (arith, length-drop 13 msg, h.0) in
    let same : get_i2np_message_length (msg ++ ys) ≡ length msg =
      ap (λ bs. be16 bs + 16) (drop-append_le 13 msg ys (omega (arith, h.0)))
      ∙ ap (λ k. k + 16) (be16-append (drop 13 msg) ys long)
      ∙ h.1 in
    ap (λ k. handle_i2np_message (take k (msg ++ ys)) len) same
    ∙ ap (λ bs. handle_i2np_message bs len) (take-append (length msg) msg ys refl)

drop-further : (pos k : ℕ) (buf xs : List ℕ) → drop pos buf ≡ xs → drop (pos + k) buf ≡ drop k xs
drop-further pos k buf xs p = sym (drop-drop k pos buf) ∙ ap (λ bs. drop k bs) p

create_i2np_message_lem :
    (msg ys : List ℕ) → IsMessage msg → create_i2np_message (msg ++ ys) (length msg) ≡ some msg
unfolding create_i2np_message
create_i2np_message_lem msg ys h =
    rw (lt→ltb (2 + length msg) 32768 h.2, read_bytes-append (length msg) msg ys refl) refl

abbrev ending : List Event → ℕ → Option (List Event × ℕ)
ending events pos = some (events, pos)

up_to : {events : List Event} {a b : ℕ} → a ≡ b → ending events a ≡ ending events b
up_to {events = events} p = ap (ending events) p

-- Reading one clove, wherever it stands.
pub handle_clove_lem :
    (has_tunnel : Bool) (len pos : ℕ) (buf end rest : List ℕ) (cl : Clove)
    → drop pos buf ≡ instructions cl ++ (message_of cl ++ (end ++ rest))
    → length end ≡ 15
    → IsClove cl
    → (events : List Event) × (handle_clove has_tunnel len buf pos
        ≡ some (events, pos + length (instructions cl) + length (message_of cl) + 15))
      × (map trimmed events ≡ delivered has_tunnel len cl)
unfolding handle_clove deliver_clove bufbe8toh htobe32buf
handle_clove_lem has_tunnel len pos buf end rest (to_local msg) p l h =
    let behind : drop (pos + 1) buf ≡ msg ++ (end ++ rest) = drop-further pos 1 buf _ p in
    (
      handle_i2np_message (msg ++ (end ++ rest)) len ∷ [],
      rw (p, behind, message_length_at-append msg (end ++ rest) h) (up_to (omega arith)),
      ap (λ ev. ev ∷ []) (trimmed_lem msg (end ++ rest) len h),
    )
handle_clove_lem has_tunnel len pos buf end rest (to_destination hash msg) p l h =
    let behind : drop (pos + 1 + 32) buf ≡ msg ++ (end ++ rest) =
      drop-further (pos + 1) 32 buf _ (drop-further pos 1 buf _ p)
      ∙ drop-append 32 hash (msg ++ (end ++ rest)) h.0 in
    (
      handle_i2np_message (msg ++ (end ++ rest)) len ∷ [],
      rw (p, behind, message_length_at-append msg (end ++ rest) h.1) (up_to (omega (arith, h.0))),
      ap (λ ev. ev ∷ []) (trimmed_lem msg (end ++ rest) len h.1),
    )
handle_clove_lem has_tunnel len pos buf end rest (to_tunnel hash tunnel_id msg) p l h =
    let ys = msg ++ (end ++ rest) in
    let first : drop (pos + 1) buf ≡ hash ++ (htobe32buf tunnel_id ++ ys) =
      drop-further pos 1 buf _ p ∙ append_assoc hash (htobe32buf tunnel_id) ys in
    let behind : drop (pos + 1 + 36) buf ≡ ys =
      drop-further (pos + 1) 36 buf _ first
      ∙ sym (drop-drop 4 32 (hash ++ (htobe32buf tunnel_id ++ ys)))
      ∙ ap (drop 4) (drop-append 32 hash (htobe32buf tunnel_id ++ ys) h.0) in
    elim has_tunnel
      as (λ t.
        (events : List Event) × (handle_clove t len buf pos
          ≡ some (
            events,
            pos + length (instructions (to_tunnel hash tunnel_id msg)) + length msg + 15,
          ))
        × (map trimmed events ≡ delivered t len (to_tunnel hash tunnel_id msg))) [
          | true ↦ (
            send_tunnel_data_msg hash tunnel_id msg ∷ [],
            rw
                (
                  p,
                  first,
                  read_bytes-append 32 hash (htobe32buf tunnel_id ++ ys) h.0,
                  bufbe32toh-htobe32buf tunnel_id ys h.1,
                  message_length_at-append msg (end ++ rest) h.2,
                  create_i2np_message_lem msg (end ++ rest) h.2,
                  behind,
                  message_length_at-append msg (end ++ rest) h.2,
                )
                (up_to (omega (arith, h.0, length-append hash (htobe32buf tunnel_id)))),
            refl,
          )
          | false ↦ (
            [],
            rw
                (
                  p,
                  first,
                  read_bytes-append 32 hash (htobe32buf tunnel_id ++ ys) h.0,
                  bufbe32toh-htobe32buf tunnel_id ys h.1,
                  behind,
                  message_length_at-append msg (end ++ rest) h.2,
                )
                (up_to (omega (arith, h.0, length-append hash (htobe32buf tunnel_id)))),
            refl,
          )
        ]

-- Cloves with what ends them.
abbrev pub cloves_bytes : List (Clove × List ℕ) → List ℕ
cloves_bytes [] = []
cloves_bytes ((cl, end) ∷ cs) = instructions cl ++ (message_of cl ++ (end ++ cloves_bytes cs))

abbrev pub AreCloves : List (Clove × List ℕ) → Type 0
AreCloves [] = Unit
AreCloves ((cl, end) ∷ cs) = IsClove cl × (length end ≡ 15) × AreCloves cs

abbrev pub all_delivered : Bool → ℕ → List (Clove × List ℕ) → List Event
all_delivered has_tunnel len [] = []
all_delivered has_tunnel len ((cl, end) ∷ cs) =
    delivered has_tunnel len cl ++ all_delivered has_tunnel len cs

pub length-cloves_bytes :
    (cl : Clove) (end : List ℕ) (cs : List (Clove × List ℕ))
    → length end ≡ 15
    → length (cloves_bytes ((cl, end) ∷ cs))
      ≡ length (instructions cl) + length (message_of cl) + 15 + length (cloves_bytes cs)
length-cloves_bytes cl end cs l =
    let bs = cloves_bytes cs in
    omega (
      arith,
      l,
      length-append end bs,
      length-append (message_of cl) (end ++ bs),
      length-append (instructions cl) (message_of cl ++ (end ++ bs)),
    )

drop_clove :
    (pos : ℕ) (buf is msg end rest : List ℕ)
    → drop pos buf ≡ is ++ (msg ++ (end ++ rest))
    → length end ≡ 15
    → drop (pos + length is + length msg + 15) buf ≡ rest
drop_clove pos buf is msg end rest p l =
    let p1 =
      drop-further pos (length is) buf _ p
      ∙ drop-append (length is) is (msg ++ (end ++ rest)) refl in
    let p2 =
      drop-further (pos + length is) (length msg) buf _ p1
      ∙ drop-append (length msg) msg (end ++ rest) refl in
    drop-further (pos + length is + length msg) 15 buf _ p2 ∙ drop-append 15 end rest l

map-append {ℓ} : {A : Type ℓ} (f : A → A) (xs ys : List A) → map f (xs ++ ys) ≡ map f xs ++ map f ys
map-append f [] ys = refl
map-append f (x ∷ xs) ys = ap (λ l. f x ∷ l) (map-append f xs ys)

handle_cloves-suc :
    (has_tunnel : Bool) (len : ℕ) (buf : List ℕ) (n pos pos' : ℕ) (events more : List Event)
    → handle_clove has_tunnel len buf pos ≡ some (events, pos')
    → pos' ≤ len
    → handle_cloves has_tunnel len buf n pos' ≡ some more
    → handle_cloves has_tunnel len buf (suc n) pos ≡ some (events ++ more)
unfolding handle_cloves
handle_cloves-suc has_tunnel len buf n pos pos' events more p h q =
    rw (handle_cloves, p, le→ltb_false len pos' h, q) refl

-- Reading them all, as far as the payload reaches.
pub handle_cloves_lem :
    (has_tunnel : Bool) (len : ℕ) (buf rest : List ℕ) (cs : List (Clove × List ℕ)) (pos : ℕ)
    → drop pos buf ≡ cloves_bytes cs ++ rest
    → pos + length (cloves_bytes cs) ≤ len
    → AreCloves cs
    → (events : List Event) × (handle_cloves has_tunnel len buf (length cs) pos ≡ some events)
      × (map trimmed events ≡ all_delivered has_tunnel len cs)
unfolding handle_cloves
handle_cloves_lem has_tunnel len buf rest [] pos p fits h = ([], refl, refl)
handle_cloves_lem has_tunnel len buf rest ((cl, end) ∷ cs) pos p fits h =
    let is = instructions cl in
    let msg = message_of cl in
    let bs = cloves_bytes cs in
    let pos' = pos + length is + length msg + 15 in
    let stands : drop pos buf ≡ is ++ (msg ++ (end ++ (bs ++ rest))) =
      p
      ∙ append_assoc is (msg ++ (end ++ bs)) rest
      ∙ ap (λ l. is ++ l)
          (append_assoc msg (end ++ bs) rest ∙ ap (λ l. msg ++ l) (append_assoc end bs rest)) in
    let (first, q, first_delivered) =
      handle_clove_lem has_tunnel len pos buf end (bs ++ rest) cl stands h.1 h.0 in
    let within : pos' + length bs ≤ len = omega (arith, fits, length-cloves_bytes cl end cs h.1) in
    let (more, r, more_delivered) =
      handle_cloves_lem has_tunnel len buf rest cs pos'
        (drop_clove pos buf is msg end (bs ++ rest) stands h.1) within h.2 in
    (
      first ++ more,
      handle_cloves-suc has_tunnel len buf (length cs) pos pos' first more q (omega (arith, within))
          r,
      map-append trimmed first more ∙ rw (first_delivered, more_delivered) refl,
    )
