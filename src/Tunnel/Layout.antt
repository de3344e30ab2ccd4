-- ===== src/Tunnel/Layout.antt =====
-- The fragments that core/tunnel/TunnelGateway.cpp writes, as core/tunnel/TunnelEndpoint.cpp reads
-- them.
use Prim.Native.Nat.{bit_or}
use kovri.Common.{
  ℕ, ◌+◌, ◌*◌, ◌/◌, ◌%◌, ◌^◌, ◌≤◌, ◌<◌, ◌≡◌, ◌≢◌, refl, ap, ◌∙◌, List, [], ◌++◌, some, Bool, true,
  false, length, take, drop, arith, length-take, length-drop, take_all, append_assoc, htobe16buf,
  htobe32buf, if◌then◌else◌, test_bit, bufbe8toh, be32, bufbe32toh-append, read_bytes-append,
  bufbe16toh-htobe16buf, bufbe32toh-htobe32buf, agree_upto, eq_of_table,
}
use kovri.Tunnel.Block.{
  TunnelDeliveryType, local, tunnel, router, unknown, TunnelMessageBlock, delivery_code,
}
use kovri.Tunnel.Gateway.{
  address, whole_fragment, first_fragment, follow_on_fragment, header_msg_id,
}
use kovri.Tunnel.Endpoint.Header.{
  Header, read_address, read_first, read_follow_on, read_header, flag_delivery_type,
}

-- What the endpoint knows of the address of a block: a hash and a tunnel where the type has them.
abbrev pub seen_tunnel_id : TunnelMessageBlock → TunnelDeliveryType → ℕ
seen_tunnel_id b tunnel = b.tunnel_id
seen_tunnel_id b _ = 0

abbrev pub seen_hash : TunnelMessageBlock → TunnelDeliveryType → List ℕ
seen_hash b local = []
seen_hash b tunnel = b.hash
seen_hash b router = b.hash
seen_hash b unknown = []

-- A block that can be addressed: one of the three delivery types, a 32-byte hash, a 32-bit tunnel.
pub record IsAddressed (b : TunnelMessageBlock) : Type 0 where
  pub known : b.delivery_type ≢ unknown
  pub hash_length : length b.hash ≡ 32
  pub tunnel_small : b.tunnel_id < 2 ^ 32

pub read_address-address :
    (b : TunnelMessageBlock) (t : TunnelDeliveryType) (r : List ℕ)
    → t ≢ unknown
    → length b.hash ≡ 32
    → b.tunnel_id < 2 ^ 32
    → read_address t (address b t ++ r) ≡ some (seen_tunnel_id b t, seen_hash b t, r)
unfolding read_address address
read_address-address b local r k h s = refl
read_address-address b tunnel r k h s = rw (
  take_all b.hash 32 h,
  append_assoc (htobe32buf b.tunnel_id) b.hash r,
  bufbe32toh-htobe32buf b.tunnel_id (b.hash ++ r) s,
  read_bytes-append 32 b.hash r h,
)
read_address-address b router r k h s = rw (take_all b.hash 32 h, read_bytes-append 32 b.hash r h)
read_address-address b unknown r k h s = absurd (k refl)

-- The header that the endpoint reads from a fragment that holds a whole message.
abbrev pub whole_header : TunnelMessageBlock → Header
whole_header b = record {
  is_follow_on_fragment = false;
  is_last_fragment = true;
  msg_id = 0;
  fragment_num = 0;
  delivery_type = b.delivery_type;
  tunnel_id = seen_tunnel_id b b.delivery_type;
  hash = seen_hash b b.delivery_type;
  size = length b.message;
}

abbrev pub first_header : TunnelMessageBlock → ℕ → Header
first_header b size = record (whole_header b) {
  is_last_fragment = false;
  msg_id = be32 (header_msg_id b.message);
  size = size;
}

abbrev pub follow_on_header : List ℕ → ℕ → Bool → ℕ → Header
follow_on_header msg_id num last size = record {
  is_follow_on_fragment = true;
  is_last_fragment = last;
  msg_id = be32 msg_id;
  fragment_num = num;
  delivery_type = local;
  tunnel_id = 0;
  hash = [];
  size = size;
}

-- What the two flags of a first fragment say of type and fragmentation.
abbrev FlagSays : ℕ → Bool → TunnelDeliveryType → Type 0
FlagSays flag fragmented t =
    (test_bit flag 7 ≡ false) × (test_bit flag 3 ≡ fragmented) × (flag_delivery_type flag ≡ t)

whole_flag : (t : TunnelDeliveryType) → FlagSays (delivery_code t * 32 % 256) false t
whole_flag local = (refl, refl, refl)
whole_flag tunnel = (refl, refl, refl)
whole_flag router = (refl, refl, refl)
whole_flag unknown = (refl, refl, refl)

first_flag : (t : TunnelDeliveryType) → FlagSays (bit_or (delivery_code t * 32 % 256) 0x08) true t
first_flag local = (refl, refl, refl)
first_flag tunnel = (refl, refl, refl)
first_flag router = (refl, refl, refl)
first_flag unknown = (refl, refl, refl)

append_regroup : (xs ys zs r : List ℕ) → (xs ++ (ys ++ zs)) ++ r ≡ xs ++ (ys ++ (zs ++ r))
append_regroup xs ys zs r = append_assoc xs (ys ++ zs) r ∙ ap (λ l. xs ++ l) (append_assoc ys zs r)

pub read_header-whole :
    (b : TunnelMessageBlock) (r : List ℕ)
    → IsAddressed b
    → length b.message < 2 ^ 16
    → read_header (whole_fragment b ++ r) ≡ some (whole_header b, b.message ++ r)
unfolding read_header whole_fragment read_first bufbe8toh
read_header-whole b r a h =
    let t = b.delivery_type in
    let (plain, whole, type_eq) = whole_flag t in
    rw (
      append_regroup (address b t) (htobe16buf (length b.message)) b.message r,
      plain,
      whole,
      type_eq,
      read_address-address b t (htobe16buf (length b.message) ++ (b.message ++ r)) a.known
          a.hash_length a.tunnel_small,
      bufbe16toh-htobe16buf (length b.message) (b.message ++ r) h,
    )

-- Of an addressed block with at least five bytes and a size below 65536, the endpoint reads from a
-- first fragment that the gateway wrote the header with its type, hash, tunnel, identifier and
-- size, and is left with the bytes of the fragment and what follows it.
pub read_header-first :
    (b : TunnelMessageBlock) (size : ℕ) (r : List ℕ)
    → IsAddressed b
    → 5 ≤ length b.message
    → size < 2 ^ 16
    → read_header (first_fragment b size ++ r)
      ≡ some (first_header b size, take size (b.message ++ b.slack) ++ r)
unfolding read_header first_fragment read_first bufbe8toh
read_header-first b size r a m h =
    let t = b.delivery_type in
    let (plain, part, type_eq) = first_flag t in
    let id = header_msg_id b.message in
    let bytes = take size (b.message ++ b.slack) in
    let id_length : length id ≡ 4 =
      omega (arith, length-take 4 (drop 1 b.message), length-drop 1 b.message) in
    rw (
      append_regroup (address b t) id (htobe16buf size ++ bytes) r,
      append_assoc (htobe16buf size) bytes r,
      plain,
      part,
      type_eq,
      read_address-address b t (id ++ (htobe16buf size ++ (bytes ++ r))) a.known a.hash_length
          a.tunnel_small,
      bufbe32toh-append id (htobe16buf size ++ (bytes ++ r)) id_length,
      bufbe16toh-htobe16buf size (bytes ++ r) h,
    )

follow_on_flag :
    (num : ℕ) (last : Bool)
    → num < 64
    → bit_or (bit_or 0x80 (num * 2) % 256) (if last then 1 else 0)
      ≡ 128 + num * 2 + (if last then 1 else 0)
unfolding agree_upto
follow_on_flag num true h =
    eq_of_table (λ n. bit_or (bit_or 0x80 (n * 2) % 256) 1) (λ n. 128 + n * 2 + 1) 64 num refl h
follow_on_flag num false h =
    eq_of_table (λ n. bit_or (bit_or 0x80 (n * 2) % 256) 0) (λ n. 128 + n * 2 + 0) 64 num refl h

-- What the flag of a follow-on fragment says.
follow_on_flag_says :
    (num : ℕ) (last : Bool) (flag : ℕ)
    → num < 64
    → flag ≡ 128 + num * 2 + (if last then 1 else 0)
    → (test_bit flag 7 ≡ true) × (test_bit flag 0 ≡ last) × (flag / 2 % 64 ≡ num)
follow_on_flag_says num true flag n e = (ground arith, ground arith, omega arith)
follow_on_flag_says num false flag n e = (ground arith, ground arith, omega arith)

-- With an identifier of four bytes, a number below 64 and less than 65536 bytes, the endpoint reads
-- from a follow-on fragment that the gateway wrote its identifier, number, last mark and size, and
-- is left with the bytes of the fragment and what follows it.
pub read_header-follow_on :
    (msg_id : List ℕ) (num : ℕ) (last : Bool) (bs r : List ℕ)
    → length msg_id ≡ 4
    → num < 64
    → length bs < 2 ^ 16
    → read_header (follow_on_fragment msg_id num last bs ++ r)
      ≡ some (follow_on_header msg_id num last (length bs), bs ++ r)
unfolding read_header follow_on_fragment read_follow_on bufbe8toh
read_header-follow_on msg_id num last bs r i n h =
    let flag = bit_or (bit_or 0x80 (num * 2) % 256) (if last then 1 else 0) in
    let (more, last_eq, num_eq) = follow_on_flag_says num last flag n (follow_on_flag num last n) in
    rw (
      append_regroup msg_id (htobe16buf (length bs)) bs r,
      more,
      last_eq,
      num_eq,
      bufbe32toh-append msg_id (htobe16buf (length bs) ++ (bs ++ r)) i,
      bufbe16toh-htobe16buf (length bs) (bs ++ r) h,
    )
