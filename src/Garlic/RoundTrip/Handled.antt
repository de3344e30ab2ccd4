-- ===== src/Garlic/RoundTrip/Handled.antt =====
-- What a receiver makes of a message that was wrapped for it, with a tag or with ElGamal.
use kovri.Common.{
  ℕ, zero, suc, ◌+◌, ◌-◌, ◌%◌, ◌^◌, ◌≤◌, ◌<◌, ◌≡◌, refl, List, [], ◌∷◌, ◌++◌, none, some, Bool,
  true, arith, length, htobe32buf, leb, le→ltb_false, take, drop, read_bytes, read_bytes-append,
  bufbe32toh-htobe32buf, length-append, drop-append, take-append,
}
use kovri.Tunnel.Crypto.{Crypto}
use kovri.Garlic.{SessionTag, Ciphers}
use kovri.Garlic.Wrap.{aes_block}
use kovri.Garlic.Destination.{GarlicDestination, find_key, erase_key}
use kovri.Garlic.Receive.{
  Event, handle_aes_block, handle_tagged, handle_untagged, handle_garlic_message, cleanup_tags,
}
use kovri.Garlic.Receive.Block.{AreTags, length-aes_block}
use kovri.Garlic.RoundTrip.{AreInverse}

read_bytes_le :
    (n : ℕ) (xs r : List ℕ)
    → n ≤ length xs
    → read_bytes n (xs ++ r) ≡ some (take n xs, drop n xs ++ r)
unfolding read_bytes
read_bytes_le zero xs r h = refl
read_bytes_le (suc n) [] r h = absurd (omega arith)
read_bytes_le (suc n) (x ∷ xs) r h = rw (read_bytes_le n xs r (omega arith)) refl

module _ (c : Crypto) (e : Ciphers) (has_tunnel : Bool) (laws : AreInverse e) where
  pub length-aes_block_mod :
      (tags : List SessionTag) (payload : List ℕ)
      → AreTags tags
      → length (aes_block c tags payload) % 16 ≡ 0
  length-aes_block_mod tags payload h =
      omega (arith, length-aes_block c e has_tunnel tags payload h)

  -- With a tag that the receiver has the key of.
  pub handle_garlic_message-tagged :
      (now msg_length : ℕ) (tag key block slack : List ℕ) (d d' : GarlicDestination)
      (events : List Event)
      → length tag ≡ 32
      → find_key tag d.tags ≡ some key
      → length block % 16 ≡ 0
      → length block < 2 ^ 16
      → 32 + length block ≤ msg_length
      → handle_aes_block c e has_tunnel now key (block ++ slack) (length block) d
        ≡ some (events, d')
      → let sealed = e.cbc_encrypt key (take 16 (c.sha256 tag)) block in
        handle_garlic_message c e has_tunnel now msg_length
          (htobe32buf (32 + length block) ++ (tag ++ (sealed ++ slack)))
          d
        ≡ some
            (events, cleanup_tags c e has_tunnel now (record d' { tags = erase_key tag d'.tags }))
  unfolding handle_garlic_message handle_tagged
  handle_garlic_message-tagged now msg_length tag key block slack d d' events lt known m small fits
        p =
      let iv = take 16 (c.sha256 tag) in
      let sealed = e.cbc_encrypt key iv block in
      let rest = tag ++ (sealed ++ slack) in
      let long : leb 32 (32 + length block) ≡ true = ground arith in
      let left : 32 + length block - 32 ≡ length block = omega arith in
      rw
        (
          bufbe32toh-htobe32buf (32 + length block) rest (omega (arith, small)),
          le→ltb_false msg_length (32 + length block) fits,
          read_bytes-append 32 tag (sealed ++ slack) lt,
          known,
          left,
          drop-append 32 tag (sealed ++ slack) lt,
          read_bytes-append (length block) sealed slack (laws.length-encrypt key iv block m),
          laws.decrypt-encrypt key iv block m,
          long,
          p,
        )
        refl

  -- Without one, by the key in the ElGamal block.
  pub handle_garlic_message-untagged :
      (now msg_length draw : ℕ) (key pre_iv padding block slack : List ℕ) (d d' : GarlicDestination)
      (events : List Event)
      → length key ≡ 32
      → length pre_iv ≡ 32
      → length padding ≡ 158
      → let head =
          e.el_gamal_encrypt (e.public_key d.private_key) draw (key ++ (pre_iv ++ padding)) in
        find_key (take 32 head) d.tags ≡ none
        → length block % 16 ≡ 0
        → length block < 2 ^ 16
        → 514 + length block ≤ msg_length
        → handle_aes_block c e has_tunnel now key (block ++ slack) (length block) d
          ≡ some (events, d')
        → let sealed = e.cbc_encrypt key (take 16 (c.sha256 pre_iv)) block in
          handle_garlic_message c e has_tunnel now msg_length
            (htobe32buf (514 + length block) ++ (head ++ (sealed ++ slack)))
            d
          ≡ some (events, cleanup_tags c e has_tunnel now d')
  unfolding handle_garlic_message handle_untagged
  handle_garlic_message-untagged now msg_length draw key pre_iv padding block slack d d' events lk
        lp lq unknown m small fits p =
      let plain = key ++ (pre_iv ++ padding) in
      let head = e.el_gamal_encrypt (e.public_key d.private_key) draw plain in
      let iv = take 16 (c.sha256 pre_iv) in
      let sealed = e.cbc_encrypt key iv block in
      let rest = head ++ (sealed ++ slack) in
      let left : 514 + length block - 514 ≡ length block = omega arith in
      let long : leb 514 (514 + length block) ≡ true = ground arith in
      let sized : length plain ≡ 222 =
        omega (
          arith,
          lk,
          lp,
          lq,
          length-append key (pre_iv ++ padding),
          length-append pre_iv padding,
        ) in
      let full = laws.length-el_gamal_encrypt (e.public_key d.private_key) plain draw sized in
      rw
        (
          bufbe32toh-htobe32buf (514 + length block) rest (omega (arith, small)),
          le→ltb_false msg_length (514 + length block) fits,
          read_bytes_le 32 head (sealed ++ slack) (omega (arith, full)),
          unknown,
          handle_untagged,
          long,
          read_bytes-append 514 head (sealed ++ slack) full,
          read_bytes-append 514 head (sealed ++ slack) full,
          laws.el_gamal_decrypt-encrypt d.private_key plain draw sized,
          left,
          take-append 32 key (pre_iv ++ padding) lk,
          drop-append 32 key (pre_iv ++ padding) lk,
          take-append 32 pre_iv padding lp,
          read_bytes-append (length block) sealed slack (laws.length-encrypt key iv block m),
          laws.decrypt-encrypt key iv block m,
          p,
        )
        refl
