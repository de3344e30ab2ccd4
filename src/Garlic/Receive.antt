-- ===== src/Garlic/Receive.antt =====
-- `HandleGarlicMessage`, `HandleAESBlock` and `HandleGarlicPayload` of core/Garlic.cpp. A buffer is
-- the list of its bytes up to the end of the array; `none` is a read past that. The messages that
-- the cloves hold are passed on in a list, as the handlers of other components get them.
pub mod Cloves
pub mod Block
use kovri.Common.{
  ℕ, zero, suc, ◌+◌, ◌-◌, ◌*◌, ◌/◌, ◌%◌, ◌^◌, List, [], ◌∷◌, ◌++◌, Option, none, some, Bool, true,
  false, if◌then◌else◌, ltb, leb, ◌==◌, ◌&&◌, length, guard, ◌>>◌, ◌>>=◌, read_bytes, bufbe8toh,
  bufbe16toh, bufbe32toh, take, drop,
}
use kovri.Tunnel.Crypto.{Crypto}
use kovri.Tunnel.Endpoint.{same_bytes}
use kovri.Garlic.{
  Surroundings, Ciphers, incoming_tags_expiration_timeout, garlic_delivery_type_destination,
  garlic_delivery_type_router, garlic_delivery_type_tunnel,
}
use kovri.Garlic.Session.{seconds}
use kovri.Garlic.Destination.{IncomingTag, GarlicDestination, find_key, set_key, erase_key}

-- `HandleI2NPMessage` gets a pointer (what stands from it on) and a length; `SendTunnelDataMsg` the
-- gateway and a message.
pub data Event : Type 0 where
  handle_i2np_message : List ℕ → ℕ → Event
  send_tunnel_data_msg : List ℕ → ℕ → List ℕ → Event

-- `CreateI2NPMessage` from bytes: a copy, unless it is too long for the buffer. Then the message
-- has a header of padding_zeros.
unfoldable pub create_i2np_message : List ℕ → ℕ → Option (List ℕ)
create_i2np_message bs len =
    if ltb (2 + len) 32768
    then (read_bytes len bs >>= λ r. some r.0)
    else some (0 ∷ 0 ∷ 0 ∷ 0 ∷ 0 ∷ 0 ∷ 0 ∷ 0 ∷ 0 ∷ 0 ∷ 0 ∷ 0 ∷ 0 ∷ 0 ∷ 0 ∷ 0 ∷ [])

-- `GetI2NPMessageLength` at a position of the buffer.
unfoldable pub message_length_at : List ℕ → Option ℕ
message_length_at bs = bufbe16toh (drop 13 bs) >>= λ r. some (r.0 + 16)

-- The message of a clove, by the type of its delivery, and the position behind the instructions.
-- `has_tunnel` says whether the pool of the tunnel it came from has an outbound tunnel.
unfoldable pub deliver_clove : Bool → ℕ → List ℕ → ℕ → ℕ → Option (List Event × ℕ)
unfolding create_i2np_message message_length_at
deliver_clove has_tunnel len buf kind pos =
    let to_tunnel : Option (List Event × ℕ) = (do
      (gw_hash, b1) ← read_bytes 32 (drop pos buf)
      (gw_tunnel, b2) ← bufbe32toh b1
      (if has_tunnel
          then (do
            n ← message_length_at b2
            msg ← create_i2np_message b2 n
            some (send_tunnel_data_msg gw_hash gw_tunnel msg ∷ [], pos + 36))
          else some ([], pos + 36))) in
    if kind == 0
    then some (handle_i2np_message (drop pos buf) len ∷ [], pos)
    else if kind == garlic_delivery_type_destination
    then some (handle_i2np_message (drop (pos + 32) buf) len ∷ [], pos + 32)
    else if kind == garlic_delivery_type_tunnel
    then to_tunnel
    else if kind == garlic_delivery_type_router
    then some ([], pos + 32)
    else some ([], pos)

-- One clove: what it makes, and the position behind it.
unfoldable pub handle_clove : Bool → ℕ → List ℕ → ℕ → Option (List Event × ℕ)
unfolding deliver_clove message_length_at
handle_clove has_tunnel len buf pos = do
  (flag, b) ← bufbe8toh (drop pos buf)
  let pos1 = if leb 128 flag then pos + 1 + 32 else pos + 1
  (events, pos2) ← deliver_clove has_tunnel len buf (flag / 32 % 4) pos1
  n ← message_length_at (drop pos2 buf)
  some (events, pos2 + n + 4 + 8 + 3)

unfoldable pub handle_cloves : Bool → ℕ → List ℕ → ℕ → ℕ → Option (List Event)
unfolding handle_clove
handle_cloves has_tunnel len buf zero pos = some []
handle_cloves has_tunnel len buf (suc n) pos =
    elim (handle_clove has_tunnel len buf pos) as (λ _. Option (List Event)) [
      | none ↦ none
      | some (events, pos') ↦
          let rest = handle_cloves has_tunnel len buf n pos' in
          if ltb len pos' then some events else rest >>= λ more. some (events ++ more)
    ]

unfoldable pub handle_garlic_payload : Bool → List ℕ → ℕ → Option (List Event)
unfolding handle_cloves
handle_garlic_payload has_tunnel buf len =
    bufbe8toh buf >>= λ r. handle_cloves has_tunnel len buf r.0 1

-- `count` tags, one behind the other.
unfoldable pub add_tags : ℕ → List ℕ → ℕ → List ℕ → List IncomingTag → Option (List IncomingTag)
unfolding set_key
add_tags ts key zero buf tags = some tags
add_tags ts key (suc count) buf tags =
    elim (read_bytes 32 buf) as (λ _. Option (List IncomingTag)) [
      | none ↦ none
      | some (tag, rest) ↦ add_tags ts key count rest (set_key tag ts key tags)
    ]

module _ (c : Crypto) (e : Ciphers) (has_tunnel : Bool) where
  -- What follows the tags: size and hash of the payload, the flag (with a new key), the payload.
  unfoldable pub handle_block_payload : List ℕ → ℕ → Option (List Event)
  unfolding handle_garlic_payload
  handle_block_payload buf len = do
    (payload_size, b1) ← bufbe32toh buf
    (if ltb len payload_size then some [] else (do
      (payload_hash, b2) ← read_bytes 32 b1
      (flag, b3) ← bufbe8toh b2
      (new_key, b4) ← (if flag == 0 then some ([], b3) else read_bytes 32 b3)
      (payload, b5) ← read_bytes payload_size b4
      (if same_bytes payload_hash (c.sha256 payload)
          then handle_garlic_payload has_tunnel b4 payload_size
          else some [])))

  -- The lengths are of 64 bits.
  unfoldable pub handle_aes_block :
      ℕ → List ℕ → List ℕ → ℕ → GarlicDestination → Option (List Event × GarlicDestination)
  unfolding add_tags handle_block_payload
  handle_aes_block now key buf len d = do
    (tag_count, b1) ← bufbe16toh buf
    let len1 = (len + 2 ^ 64 - 2) % 2 ^ 64
    (if ltb len1 (tag_count * 32) then some ([], d) else (do
      tags ← add_tags (seconds now) key tag_count b1 d.tags
      events ← handle_block_payload (drop (tag_count * 32) b1) (len1 - tag_count * 32)
      some (events, record d { tags = tags })))

  unfoldable pub fresh_incoming : ℕ → List IncomingTag → List IncomingTag
  fresh_incoming ts [] = []
  fresh_incoming ts (t ∷ tags) =
      if ltb ((t.creation_time + incoming_tags_expiration_timeout) % 2 ^ 32) ts
      then fresh_incoming ts tags
      else t ∷ fresh_incoming ts tags

  -- Not at the first call, which only sets the time.
  unfoldable pub cleanup_tags : ℕ → GarlicDestination → GarlicDestination
  unfolding fresh_incoming
  cleanup_tags now d =
      let ts = seconds now in
      let kept = if d.last_tags_cleanup_time == 0 then d.tags else fresh_incoming ts d.tags in
      if ltb ((d.last_tags_cleanup_time + incoming_tags_expiration_timeout) % 2 ^ 32) ts
      then (record d { tags = kept; last_tags_cleanup_time = ts })
      else d

  -- Decryption in place of `n` bytes, and the bytes behind them.
  abbrev pub decrypt_in_place : List ℕ → List ℕ → ℕ → List ℕ → Option (List ℕ)
  decrypt_in_place key iv n bs = read_bytes n bs >>= λ r. some (e.cbc_decrypt key iv r.0 ++ r.1)

  -- With a tag that is known.
  unfoldable pub handle_tagged :
      ℕ → List ℕ → List ℕ → ℕ → List ℕ → GarlicDestination → Option (List Event × GarlicDestination)
  unfolding handle_aes_block
  handle_tagged now tag key length buf d =
      if leb 32 length
      then (do
        plain ← decrypt_in_place key (take 16 (c.sha256 tag)) (length - 32) (drop 32 buf)
        handle_aes_block now key plain (length - 32) d)
      else some ([], d)

  -- Without: the key is in the ElGamal block.
  unfoldable pub handle_untagged :
      ℕ → ℕ → List ℕ → GarlicDestination → Option (List Event × GarlicDestination)
  unfolding handle_aes_block
  handle_untagged now length buf d =
      let head = read_bytes 514 buf in
      let opened = head >>= λ r. e.el_gamal_decrypt d.private_key r.0 in
      if leb 514 length
      then elim head as (λ _. Option (List Event × GarlicDestination)) [
        | none ↦ none
        | some (enc, rest) ↦ elim opened as (λ _. Option (List Event × GarlicDestination)) [
          | none ↦ some ([], d)
          | some block ↦
              decrypt_in_place (take 32 block) (take 16 (c.sha256 (take 32 (drop 32 block))))
                (length - 514) rest
              >>= λ plain. handle_aes_block now (take 32 block) plain (length - 514) d
        ]
      ]
      else some ([], d)

  -- `buf` is the buffer from `GetPayload()` on, `msg_length` what `GetLength()` gives.
  unfoldable pub handle_garlic_message :
      ℕ → ℕ → List ℕ → GarlicDestination → Option (List Event × GarlicDestination)
  unfolding find_key erase_key cleanup_tags handle_tagged handle_untagged
  handle_garlic_message now msg_length payload d = do
    (length, buf) ← bufbe32toh payload
    (if ltb msg_length length then some ([], d) else (do
      (tag, behind) ← read_bytes 32 buf
      (events, d') ← elim (find_key tag d.tags) as (λ _. Option (List Event × GarlicDestination)) [
        | none ↦ handle_untagged now length buf d
        | some key ↦ handle_tagged now tag key length buf d >>= λ r.
            some (r.0, record r.1 { tags = erase_key tag r.1.tags })
      ]
      some (events, cleanup_tags now d')))
