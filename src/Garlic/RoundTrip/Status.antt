-- ===== src/Garlic/RoundTrip/Status.antt =====
-- The wrapped message of a delivery status fits into its clove: `CreateDeliveryStatusClove` of
-- core/Garlic.cpp.
use kovri.Common.{
  ℕ, ◌+◌, ◌%◌, ◌^◌, ◌<◌, ◌≡◌, refl, subst, List, [], ◌∷◌, ◌++◌, Option, none, some, true, arith,
  length, htobe32buf, htobe16buf, take, length-append, ◌==◌, leb, ltb, Bool-cases, inl, inr, ◌>>=◌,
}
use kovri.Tunnel.Crypto.{Crypto}
use kovri.Ssu.Header.{htobe64buf}
use kovri.I2np.{
  i2np_garlic, i2np_buffer_size, fill_i2np_message_header, create_delivery_status_msg,
  generate_word,
}
use kovri.Garlic.{GarlicRoutingSession, SessionTag, Surroundings, Ciphers}
use kovri.Garlic.Session.{seconds, expiry, one_time_session}
use kovri.Garlic.Payload.{
  clove_end, Written, create_garlic_payload, create_message_clove, create_garlic_clove,
  delivery_instructions, payload_end,
}
use kovri.Garlic.Payload.Pieces.{IsFitInner}
use kovri.Garlic.Wrap.{
  aes_block, find_tag, create_new_tags, create_aes_block, finish_message, wrap_behind, wrap_message,
  wrap_delivery_status,
}
use kovri.Garlic.Receive.Cloves.{IsMessage}
use kovri.Garlic.Receive.Block.{length-aes_block}
use kovri.Garlic.RoundTrip.{AreInverse}

-- A message whose header the code fills in is as long as that says.
fill_i2np_message_header-IsMessage :
    (c : Crypto) (now draw kind reply : ℕ) (payload : List ℕ)
    → length payload < 32750
    → IsMessage (fill_i2np_message_header c now draw kind reply payload)
unfolding fill_i2np_message_header htobe16buf htobe32buf htobe64buf
fill_i2np_message_header-IsMessage c now draw kind reply payload h =
    (omega arith, omega (arith, h), omega (arith, h))

length-create_delivery_status_msg :
    (c : Crypto) (now draw msg_id : ℕ) → length (create_delivery_status_msg c now draw msg_id) ≡ 28
unfolding create_delivery_status_msg fill_i2np_message_header htobe16buf htobe32buf htobe64buf
length-create_delivery_status_msg c now draw msg_id = elim (Bool-cases (msg_id == 0)) [
  | inl h ↦ rw h refl
  | inr h ↦ rw h refl
]

-- A message that fits, if there is one.
abbrev Fits : Option (Option (List ℕ)) → Type 0
Fits none = Unit
Fits (some none) = Unit
Fits (some (some bytes)) = IsMessage bytes

module _ (c : Crypto) (e : Ciphers) (w : Surroundings) (laws : AreInverse e) where
  size :
      (head block : List ℕ)
      → length head + length block < 32700
      → length (htobe32buf ((length head + length block) % 2 ^ 32) ++ (head ++ block)) < 32750
  unfolding htobe32buf
  size head block h = omega (arith, h, length-append head block)

  -- Whatever the head and the payload are, if they are small.
  finish_message-Fits :
      (head : List ℕ) (block : Written)
      → length head + length block.written < 32700
      → Fits (finish_message c e w head block >>= λ made. some made.message)
  unfolding finish_message
  finish_message-Fits head block h =
      let len = length head + length block.written in
      elim (Bool-cases (leb (2 + w.align + 16 + 4 + len) i2np_buffer_size)) [
        | inl p ↦
            rw (Fits, finish_message, p)
              (fill_i2np_message_header-IsMessage c w.now block.after.draws i2np_garlic 0
                (htobe32buf (len % 2 ^ 32) ++ (head ++ block.written)) (size head block.written h))
        | inr p ↦ rw (Fits, finish_message, p) tt
      ]

  sealed-small :
      (key iv payload tag : List ℕ)
      → length tag ≡ 32
      → length payload < 1000
      → length tag + length (e.cbc_encrypt key iv (aes_block c [] payload)) < 32700
  sealed-small key iv payload tag h k =
      let sized = length-aes_block c e true [] payload tt in
      let m : length (aes_block c [] payload) % 16 ≡ 0 = omega (arith, sized) in
      omega (arith, h, k, sized, laws.length-encrypt key iv (aes_block c [] payload) m)

  wrap_behind-Fits :
      (draw : ℕ) (msg key tag iv : List ℕ) (left : List SessionTag)
      → length tag ≡ 32
      → length msg ≡ 28
      → let s : GarlicRoutingSession = record (one_time_session 0 w.now draw key tag) {
        unused_tags = left;
      } in
        Fits (wrap_behind c e w (λ _ _. none) tag iv (some msg) s >>= λ made. some made.message)
  unfolding wrap_behind create_aes_block create_new_tags create_garlic_payload create_message_clove
      create_garlic_clove delivery_instructions payload_end htobe32buf htobe64buf
  wrap_behind-Fits draw msg key tag iv left h k =
      let end = clove_end c w (draw + 1) in
      let tail = payload_end c w (generate_word c draw) in
      let payload : List ℕ = 1 ∷ 0 ∷ ((msg ++ end) ++ tail) in
      let s : GarlicRoutingSession = record (one_time_session 0 w.now draw key tag) {
        unused_tags = left;
      } in
      let block : Written = record {
        count = 1;
        written = e.cbc_encrypt key iv (aes_block c [] payload);
        after = record s { draws = draw + 1 + 1 };
        calls = [];
      } in
      finish_message-Fits tag block (
        sealed-small key iv payload tag h
          (omega (arith, k, length-append msg end, length-append (msg ++ end) tail)))

  pub wrap_delivery_status-IsFitInner : IsFitInner c w (wrap_delivery_status c e w)
  unfolding wrap_delivery_status wrap_message find_tag
  wrap_delivery_status-IsFitInner msg_id draw draw' key tag wrapped h p =
      let msg = create_delivery_status_msg c w.now draw msg_id in
      let s = one_time_session 0 w.now draw' key tag in
      let fits : Fits (wrap_delivery_status c e w msg s) =
        (let ts = seconds w.now in
          elim (Bool-cases (ltb ts (expiry ts))) [
            | inl q ↦
                rw (Fits, wrap_delivery_status, q)
                  (wrap_behind-Fits draw' msg key tag (take 16 (c.sha256 tag)) _ h
                    (length-create_delivery_status_msg c w.now draw msg_id))
            | inr q ↦ rw (Fits, wrap_delivery_status, q) tt
          ]) in
      subst Fits p fits
