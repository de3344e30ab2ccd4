-- ===== src/Tunnel/Gateway/Sizes.antt =====
-- Sizes at the gateway (core/tunnel/TunnelGateway.cpp): the invariant, and the steps that keep it.
use kovri.Common.{
  ℕ, ◌+◌, ◌-◌, ◌≤◌, ◌≡◌, refl, List, [], ◌∷◌, ◌++◌, Option, none, some, Bool, length, take, drop,
  arith, All, All-append, length-append, length-take, length-drop, htobe16buf, htobe32buf, map,
}
use kovri.Tunnel.Block.{TunnelDeliveryType, local, tunnel, router, unknown, TunnelMessageBlock}
use kovri.Tunnel.Crypto.{Crypto}
use kovri.Tunnel.Gateway.{
  TunnelGatewayBuffer, address, header_msg_id, create_current, append_to, append, complete, shrink,
  follow_on_fragment, whole_fragment, first_fragment, di_length, padding, frame, complete_current,
  complete_if_full, init, non_zero,
}

-- A block that the router builds: a hash of 32 bytes, an I2NP message with its header, in a buffer
-- that is longer than one tunnel message.
pub record IsBlock (b : TunnelMessageBlock) : Type 0 where
  pub hash_length : length b.hash ≡ 32
  pub header : 16 ≤ length b.message
  pub room : 1003 ≤ length b.message + length b.slack

-- The message under construction and the remaining size add up to a full payload.
abbrev pub Fills : Option (List ℕ) → ℕ → Type 0
Fills none remaining = Unit {0}
Fills (some payload) remaining = length payload + remaining ≡ 1003

pub record IsValid (g : TunnelGatewayBuffer) : Type 0 where
  pub filled : Fills g.current_tunnel_data_msg g.remaining_size
  pub sized : All (λ m. length m ≡ 1028) g.tunnel_data_msgs
  pub random : length g.non_zero_random_buffer ≡ 1003

length-map : (f : ℕ → ℕ) (xs : List ℕ) → length (map f xs) ≡ length xs
length-map f [] = refl
length-map f (x ∷ xs) = omega (arith, length-map f xs)

pub init-IsValid : (c : Crypto) (tunnel_id : ℕ) → IsValid (init c tunnel_id)
unfolding init
init-IsValid c tunnel_id = record {
  filled = tt;
  sized = tt;
  random =
      omega (arith, length-map non_zero (c.generate_block 0 1003), c.length-generate_block 0 1003);
}

pub length-address :
    (b : TunnelMessageBlock) (t : TunnelDeliveryType)
    → length b.hash ≡ 32
    → length (address b t) ≤ 36
unfolding address htobe32buf
length-address b local h = omega arith
length-address b tunnel h = omega (arith, length-take 32 b.hash)
length-address b router h = omega (arith, length-take 32 b.hash)
length-address b unknown h = omega (arith, length-take 32 b.hash)

pub length-header_msg_id :
    (message : List ℕ) → 5 ≤ length message → length (header_msg_id message) ≡ 4
length-header_msg_id message h =
    omega (arith, length-take 4 (drop 1 message), length-drop 1 message)

pub length-follow_on_fragment :
    (msg_id : List ℕ) (num : ℕ) (last : Bool) (bs : List ℕ)
    → length msg_id ≡ 4
    → length (follow_on_fragment msg_id num last bs) ≡ 7 + length bs
unfolding follow_on_fragment htobe16buf
length-follow_on_fragment msg_id num last bs h =
    omega (arith, length-append msg_id (htobe16buf (length bs) ++ bs))

pub length-whole_fragment :
    (b : TunnelMessageBlock) → length (whole_fragment b) ≡ di_length b + 2 + length b.message
unfolding whole_fragment htobe16buf
length-whole_fragment b =
    omega (
      arith,
      length-append (address b b.delivery_type) (htobe16buf (length b.message) ++ b.message),
    )

pub length-first_fragment :
    (b : TunnelMessageBlock) (size : ℕ)
    → IsBlock b
    → size ≤ 1003
    → length (first_fragment b size) ≡ di_length b + 6 + size
unfolding first_fragment htobe16buf
length-first_fragment b size ok h =
    let part = take size (b.message ++ b.slack) in
    let msg_id = header_msg_id b.message in
    omega (
      arith,
      length-header_msg_id b.message (omega arith),
      length-append (address b b.delivery_type) (msg_id ++ (htobe16buf size ++ part)),
      length-append msg_id (htobe16buf size ++ part),
      length-take size (b.message ++ b.slack),
      length-append b.message b.slack,
    )

-- The weaker state in the middle of an operation, when the remaining size is not up to date.
abbrev pub Fits : ℕ → Option (List ℕ) → Type 0
Fits extra none = Unit {0}
Fits extra (some payload) = length payload + extra ≤ 1003

-- `extra` bytes fit behind the message under construction.
pub record HasRoom (extra : ℕ) (g : TunnelGatewayBuffer) : Type 0 where
  pub fits : Fits extra g.current_tunnel_data_msg
  pub sized : All (λ m. length m ≡ 1028) g.tunnel_data_msgs
  pub random : length g.non_zero_random_buffer ≡ 1003

pub IsValid-HasRoom :
    (extra : ℕ) (g : TunnelGatewayBuffer) → extra ≤ g.remaining_size → IsValid g → HasRoom extra g
IsValid-HasRoom extra g h v = ground arith

append_to-Fits :
    (current : Option (List ℕ)) (bs : List ℕ) (extra : ℕ) (g : TunnelGatewayBuffer)
    → g.current_tunnel_data_msg ≡ current
    → Fits (length bs + extra) current
    → Fits extra (append_to current bs g).current_tunnel_data_msg
unfolding append_to
append_to-Fits none bs extra g e h = rw e tt
append_to-Fits (some payload) bs extra g e h = omega (arith, length-append payload bs)

append_to-Fills :
    (current : Option (List ℕ)) (bs : List ℕ) (n r : ℕ) (g : TunnelGatewayBuffer)
    → g.current_tunnel_data_msg ≡ current
    → length bs + n ≡ r
    → Fills current r
    → Fills (append_to current bs g).current_tunnel_data_msg n
unfolding append_to
append_to-Fills none bs n r g e h f = rw e tt
append_to-Fills (some payload) bs n r g e h f = omega (arith, length-append payload bs)

append_to-rest :
    (current : Option (List ℕ)) (bs : List ℕ) (g : TunnelGatewayBuffer)
    → ((append_to current bs g).tunnel_data_msgs ≡ g.tunnel_data_msgs)
      × ((append_to current bs g).non_zero_random_buffer ≡ g.non_zero_random_buffer)
      × ((append_to current bs g).remaining_size ≡ g.remaining_size)
unfolding append_to
append_to-rest none bs g = (refl, refl, refl)
append_to-rest (some payload) bs g = (refl, refl, refl)

append-HasRoom :
    (bs : List ℕ) (g : TunnelGatewayBuffer) → HasRoom (length bs + 0) g → HasRoom 0 (append bs g)
unfolding append
append-HasRoom bs g v =
    let rest = append_to-rest g.current_tunnel_data_msg bs g in
    record {
      fits = append_to-Fits g.current_tunnel_data_msg bs 0 g refl v.fits;
      sized = rw rest.0 v.sized;
      random = rw rest.1 v.random;
    }

pub create_current-IsValid : (g : TunnelGatewayBuffer) → IsValid g → IsValid (create_current g)
unfolding create_current
create_current-IsValid g v = record { filled = omega arith; sized = v.sized; random = v.random }

module _ (c : Crypto) where
  length-padding :
      (g : TunnelGatewayBuffer) (size : ℕ)
      → length g.non_zero_random_buffer ≡ 1003
      → size ≤ 1003
      → length (padding c g size) ≡ size
  unfolding padding
  length-padding g size v h =
      let offset = c.generate_word32 (g.draws + 1) 0 (1003 - size) in
      ground (
        arith,
        length-take size (drop offset g.non_zero_random_buffer),
        length-drop offset g.non_zero_random_buffer,
        c.generate_word32_bounds (g.draws + 1) 0 (1003 - size),
      )

  pub length-frame :
      (g : TunnelGatewayBuffer) (payload : List ℕ)
      → length g.non_zero_random_buffer ≡ 1003
      → length payload ≤ 1003
      → length (frame c g payload) ≡ 1028
  unfolding frame htobe32buf
  length-frame g payload v h =
      let iv = c.generate_block g.draws 16 in
      let pad = padding c g (1003 - length payload) in
      let sum = take 4 (c.sha256 (payload ++ iv)) in
      omega (
        arith,
        length-append iv (sum ++ (pad ++ (0 ∷ payload))),
        length-append sum (pad ++ (0 ∷ payload)),
        length-append pad (0 ∷ payload),
        length-take 4 (c.sha256 (payload ++ iv)),
        c.length-sha256 (payload ++ iv),
        c.length-generate_block g.draws 16,
        length-padding g (1003 - length payload) v (omega arith),
      )

  complete-IsValid :
      (current : Option (List ℕ)) (g : TunnelGatewayBuffer)
      → g.current_tunnel_data_msg ≡ current
      → Fits 0 current
      → All (λ m. length m ≡ 1028) g.tunnel_data_msgs
      → length g.non_zero_random_buffer ≡ 1003
      → IsValid (complete c current g)
  unfolding complete
  complete-IsValid none g e h s r = record { filled = rw e tt; sized = s; random = r }
  complete-IsValid (some payload) g e h s r = record {
    filled = tt;
    sized =
        All-append (λ m. length m ≡ 1028) g.tunnel_data_msgs (frame c g payload ∷ []) s
          (length-frame g payload r (omega arith), tt);
    random = r;
  }

  pub complete_current-IsValid :
      (g : TunnelGatewayBuffer) → HasRoom 0 g → IsValid (complete_current c g)
  unfolding complete_current
  complete_current-IsValid g v =
      complete-IsValid g.current_tunnel_data_msg g refl v.fits v.sized v.random

  pub complete_if_full-IsValid :
      (g : TunnelGatewayBuffer) → IsValid g → IsValid (complete_if_full c g)
  unfolding complete_if_full
  complete_if_full-IsValid g v =
      ground (arith, complete_current-IsValid g (IsValid-HasRoom 0 g (omega arith) v))

  -- Bytes that fit are appended, and the remaining size falls by their number.
  pub append-shrink-IsValid :
      (bs : List ℕ) (n : ℕ) (g : TunnelGatewayBuffer)
      → length bs ≡ n
      → n ≤ g.remaining_size
      → IsValid g
      → IsValid (shrink n (append bs g))
  unfolding append shrink
  append-shrink-IsValid bs n g e h v =
      let rest = append_to-rest g.current_tunnel_data_msg bs g in
      record {
        filled = rw rest.2 (
            append_to-Fills g.current_tunnel_data_msg bs _ g.remaining_size g refl (omega arith)
              v.filled);
        sized = rw rest.0 v.sized;
        random = rw rest.1 v.random;
      }

  pub append-complete-IsValid :
      (bs : List ℕ) (g : TunnelGatewayBuffer)
      → length bs ≤ g.remaining_size
      → IsValid g
      → IsValid (complete_current c (append bs g))
  append-complete-IsValid bs g h v =
      complete_current-IsValid (append bs g)
        (append-HasRoom bs g (IsValid-HasRoom _ g (omega arith) v))
