-- ===== src/Garlic/Receive/Block.antt =====
-- How a decrypted block is read: the tags in it, then the payload behind its size and hash.
use kovri.Common.{
  ℕ, zero, suc, ◌+◌, ◌-◌, ◌*◌, ◌%◌, ◌^◌, ◌≤◌, ◌<◌, ◌≡◌, refl, ap, ◌∙◌, List, [], ◌∷◌, ◌++◌, map,
  some, Bool, true, arith, length, All, htobe16buf, htobe32buf, bufbe8toh, read_bytes-append,
  bufbe32toh-htobe32buf, bufbe16toh-htobe16buf, drop-append, length-append, append_assoc,
  le→ltb_false, ==_iff,
}
use kovri.Tunnel.Crypto.{Crypto}
use kovri.Tunnel.Endpoint.{same_bytes}
use kovri.Garlic.{SessionTag, Ciphers}
use kovri.Garlic.Session.{seconds}
use kovri.Garlic.Payload.{tag_bytes, padding_zeros, padding_size}
use kovri.Garlic.Wrap.{aes_block}
use kovri.Garlic.Destination.{IncomingTag, GarlicDestination, set_key}
use kovri.Garlic.Receive.{
  Event, handle_garlic_payload, add_tags, handle_block_payload, handle_aes_block,
}
use kovri.Garlic.Receive.Cloves.{
  Clove, cloves_bytes, AreCloves, all_delivered, trimmed, handle_cloves_lem,
}

pub same_bytes_refl : (bs : List ℕ) → same_bytes bs bs ≡ true
unfolding same_bytes
same_bytes_refl [] = refl
same_bytes_refl (b ∷ bs) = rw ((==_iff b b).1 refl, same_bytes_refl bs) refl

-- The tags under the key, one after the other.
abbrev pub set_keys : ℕ → List ℕ → List SessionTag → List IncomingTag → List IncomingTag
set_keys ts key [] tags = tags
set_keys ts key (t ∷ new_tags) tags = set_keys ts key new_tags (set_key t.tag ts key tags)

abbrev pub AreTags : List SessionTag → Type 0
AreTags = All (λ t. length t.tag ≡ 32)

pub length-tag_bytes :
    (tags : List SessionTag) → AreTags tags → length (tag_bytes tags) ≡ length tags * 32
unfolding tag_bytes
length-tag_bytes [] h = refl
length-tag_bytes (t ∷ tags) h =
    omega (arith, length-append t.tag (tag_bytes tags), length-tag_bytes tags h.1, h.0)

pub add_tags_lem :
    (ts : ℕ) (key : List ℕ) (new_tags : List SessionTag) (rest : List ℕ) (tags : List IncomingTag)
    → AreTags new_tags
    → add_tags ts key (length new_tags) (tag_bytes new_tags ++ rest) tags
      ≡ some (set_keys ts key new_tags tags)
unfolding add_tags tag_bytes
add_tags_lem ts key [] rest tags h = refl
add_tags_lem ts key (t ∷ new_tags) rest tags h =
    rw
      (
        add_tags,
        append_assoc t.tag (tag_bytes new_tags) rest,
        read_bytes-append 32 t.tag (tag_bytes new_tags ++ rest) h.0,
      )
      (add_tags_lem ts key new_tags rest (set_key t.tag ts key tags) h.1)

-- A payload of cloves that ends in what the reader does not look at.
abbrev pub payload_of : List (Clove × List ℕ) → List ℕ → List ℕ
payload_of cs tail = length cs ∷ (cloves_bytes cs ++ tail)

handle_garlic_payload_lem :
    (has_tunnel : Bool) (cs : List (Clove × List ℕ)) (tail rest : List ℕ)
    → AreCloves cs
    → let payload = payload_of cs tail in
      (events : List Event) × (handle_garlic_payload has_tunnel (payload ++ rest) (length payload)
        ≡ some events)
      × (map trimmed events ≡ all_delivered has_tunnel (length payload) cs)
unfolding handle_garlic_payload bufbe8toh
handle_garlic_payload_lem has_tunnel cs tail rest h =
    handle_cloves_lem has_tunnel (length (payload_of cs tail)) (payload_of cs tail ++ rest)
      (tail ++ rest) cs 1 (append_assoc (cloves_bytes cs) tail rest)
      (omega (arith, length-append (cloves_bytes cs) tail)) h

module _ (c : Crypto) (e : Ciphers) (has_tunnel : Bool) where
  handle_block_payload_step :
      (payload rest : List ℕ) (len : ℕ)
      → length payload ≤ len
      → length payload < 2 ^ 32
      → handle_block_payload c e has_tunnel
          (htobe32buf (length payload % 2 ^ 32) ++ (c.sha256 payload ++ (0 ∷ (payload ++ rest))))
          len
        ≡ handle_garlic_payload has_tunnel (payload ++ rest) (length payload)
  unfolding handle_block_payload bufbe8toh
  handle_block_payload_step payload rest len fits small =
      let size : length payload % 2 ^ 32 ≡ length payload = omega (arith, small) in
      rw
        (
          size,
          bufbe32toh-htobe32buf (length payload) (c.sha256 payload ++ (0 ∷ (payload ++ rest)))
              small,
          le→ltb_false len (length payload) fits,
          read_bytes-append 32 (c.sha256 payload) (0 ∷ (payload ++ rest)) (c.length-sha256 payload),
          read_bytes-append (length payload) payload rest refl,
          same_bytes_refl (c.sha256 payload),
        )
        refl

  -- What stands behind the tags of a block.
  abbrev behind_tags : List SessionTag → List ℕ → List ℕ → List ℕ
  behind_tags tags payload rest =
      htobe32buf (length payload % 2 ^ 32)
      ++ (c.sha256 payload
          ++ (0
              ∷ (payload
                  ++ (padding_zeros
                        (padding_size (2 + length tags * 32 + 4 + 32 + 1 + length payload))
                      ++ rest))))

  aes_block-append :
      (tags : List SessionTag) (payload rest : List ℕ)
      → aes_block c tags payload ++ rest
        ≡ htobe16buf (length tags % 2 ^ 16) ++ (tag_bytes tags ++ behind_tags tags payload rest)
  unfolding aes_block htobe16buf htobe32buf
  aes_block-append tags payload rest =
      let pad = padding_zeros (padding_size (2 + length tags * 32 + 4 + 32 + 1 + length payload)) in
      let size = htobe32buf (length payload % 2 ^ 32) in
      ap (λ l. htobe16buf (length tags % 2 ^ 16) ++ l)
        (append_assoc (tag_bytes tags) (size ++ (c.sha256 payload ++ (0 ∷ (payload ++ pad)))) rest
          ∙ ap (λ l. tag_bytes tags ++ (size ++ l))
              (append_assoc (c.sha256 payload) (0 ∷ (payload ++ pad)) rest
                ∙ ap (λ l. c.sha256 payload ++ (0 ∷ l)) (append_assoc payload pad rest)))

  pub length-padding_zeros : (n : ℕ) → length (padding_zeros n) ≡ n
  length-padding_zeros zero = refl
  length-padding_zeros (suc n) = omega (arith, length-padding_zeros n)

  pub length-aes_block :
      (tags : List SessionTag) (payload : List ℕ)
      → AreTags tags
      → length (aes_block c tags payload)
        ≡ 39
          + length tags * 32
          + length payload
          + padding_size (2 + length tags * 32 + 4 + 32 + 1 + length payload)
  unfolding aes_block htobe16buf htobe32buf
  length-aes_block tags payload h =
      let n = padding_size (2 + length tags * 32 + 4 + 32 + 1 + length payload) in
      let size = htobe32buf (length payload % 2 ^ 32) in
      omega (
        arith,
        length-tag_bytes tags h,
        length-padding_zeros n,
        c.length-sha256 payload,
        length-append payload (padding_zeros n),
        length-append (c.sha256 payload) (0 ∷ (payload ++ padding_zeros n)),
        length-append (tag_bytes tags)
            (size ++ (c.sha256 payload ++ (0 ∷ (payload ++ padding_zeros n)))),
      )

  handle_aes_block_step :
      (now len : ℕ) (key : List ℕ) (tags : List SessionTag) (payload rest : List ℕ)
      (d : GarlicDestination) (events : List Event)
      → AreTags tags
      → length (aes_block c tags payload) ≤ len
      → len < 2 ^ 16
      → handle_garlic_payload has_tunnel
          (payload
            ++ (padding_zeros (padding_size (2 + length tags * 32 + 4 + 32 + 1 + length payload))
                ++ rest))
          (length payload)
        ≡ some events
      → handle_aes_block c e has_tunnel now key (aes_block c tags payload ++ rest) len d
        ≡ some (events, record d { tags = set_keys (seconds now) key tags d.tags })
  unfolding handle_aes_block
  handle_aes_block_step now len key tags payload rest d events ht fits small p =
      let n = length tags in
      let count : n % 2 ^ 16 ≡ n = omega (arith, length-aes_block tags payload ht, fits, small) in
      let left : (len + 2 ^ 64 - 2) % 2 ^ 64 ≡ len - 2 =
        omega (arith, length-aes_block tags payload ht, fits, small) in
      let enough : n * 32 ≤ len - 2 =
        omega (arith, length-aes_block tags payload ht, fits, small) in
      let few : n < 2 ^ 16 = omega (arith, length-aes_block tags payload ht, fits, small) in
      let behind = behind_tags tags payload rest in
      let pad = padding_zeros (padding_size (2 + n * 32 + 4 + 32 + 1 + length payload)) in
      rw
        (
          aes_block-append tags payload rest,
          count,
          bufbe16toh-htobe16buf n (tag_bytes tags ++ behind) few,
          left,
          le→ltb_false (len - 2) (n * 32) enough,
          add_tags_lem (seconds now) key tags behind d.tags ht,
          drop-append (n * 32) (tag_bytes tags) behind (length-tag_bytes tags ht),
          handle_block_payload_step payload (pad ++ rest) (len - 2 - n * 32)
              (omega (arith, length-aes_block tags payload ht, fits))
              (omega (arith, length-aes_block tags payload ht, fits, small)),
          p,
        )
        refl

  -- A block that was made is read back, whatever stands behind it in the buffer.
  pub handle_aes_block_lem :
      (now len : ℕ) (key : List ℕ) (tags : List SessionTag) (cs : List (Clove × List ℕ))
      (tail rest : List ℕ) (d : GarlicDestination)
      → AreTags tags
      → AreCloves cs
      → length (aes_block c tags (payload_of cs tail)) ≤ len
      → len < 2 ^ 16
      → (events : List Event) × (handle_aes_block c e has_tunnel now key
            (aes_block c tags (payload_of cs tail) ++ rest)
            len
            d
          ≡ some (events, record d { tags = set_keys (seconds now) key tags d.tags }))
        × (map trimmed events ≡ all_delivered has_tunnel (length (payload_of cs tail)) cs)
  unfolding handle_aes_block
  handle_aes_block_lem now len key tags cs tail rest d ht hc fits small =
      let payload : List ℕ = payload_of cs tail in
      let pad = padding_zeros (padding_size (2 + length tags * 32 + 4 + 32 + 1 + length payload)) in
      let (events, p, q) = handle_garlic_payload_lem has_tunnel cs tail (pad ++ rest) hc in
      (events, handle_aes_block_step now len key tags payload rest d events ht fits small p, q)
