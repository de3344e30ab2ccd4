-- ===== src/Garlic/Wrap.antt =====
-- `WrapSingleMessage` and `CreateAESBlock` of core/Garlic.cpp: the tag or the ElGamal block, and the
-- encrypted block behind it.
use kovri.Common.{
  ℕ, ◌+◌, ◌*◌, ◌/◌, ◌%◌, ◌^◌, List, [], ◌∷◌, ◌++◌, Option, none, some, if◌then◌else◌, ltb, leb,
  ◌==◌, ◌&&◌, not, length, guard, ◌>>◌, ◌>>=◌, htobe16buf, htobe32buf, take,
}
use kovri.Tunnel.Crypto.{Crypto}
use kovri.I2np.{i2np_garlic, i2np_buffer_size, fill_i2np_message_header}
use kovri.Garlic.{
  SessionTag, UnconfirmedTags, GarlicRoutingSession, RoutingDestination, OwnerCall, Surroundings,
  Ciphers,
}
use kovri.Garlic.Session.{seconds, expiry, generate_session_tags}
use kovri.Garlic.Payload.{
  tag_bytes, padding_zeros, padding_size, Written, tags_of, create_garlic_payload,
}

-- The first tag that has not expired, and the tags behind it.
unfoldable pub find_tag : ℕ → List SessionTag → Option SessionTag × List SessionTag
find_tag ts [] = (none, [])
find_tag ts (t ∷ tags) =
    if ltb ts (expiry t.creation_time) then (some t, tags) else find_tag ts tags

-- The result of `WrapSingleMessage`: `none` is the null pointer.
pub record Wrapped : Type 0 where
  pub message : Option (List ℕ)
  pub session : GarlicRoutingSession
  pub owner_calls : List OwnerCall

module _ (c : Crypto) where
  -- The block before its encryption: tags, size and hash of the payload, a zero flag, the payload,
  -- and padding_zeros up to a multiple of 16 in the fresh buffer.
  unfoldable pub aes_block : List SessionTag → List ℕ → List ℕ
  unfolding tag_bytes
  aes_block tags payload =
      htobe16buf (length tags % 2 ^ 16)
      ++ (tag_bytes tags
          ++ (htobe32buf (length payload % 2 ^ 32)
              ++ (c.sha256 payload
                  ++ (0
                      ∷ (payload
                          ++ padding_zeros (
                              padding_size
                                (2 + length tags * 32 + 4 + 32 + 1 + length payload)))))))

module _ (c : Crypto) (e : Ciphers) (w : Surroundings) where
  -- New tags are made for an owner when at most two thirds of them are left.
  unfoldable pub create_new_tags :
      GarlicRoutingSession → Option UnconfirmedTags × GarlicRoutingSession
  create_new_tags s =
      if s.has_owner && not (s.num_tags == 0) && leb (length s.unused_tags) (s.num_tags * 2 / 3)
      then (let (tags, s') = generate_session_tags c w.now s in (some tags, s'))
      else (none, s)

  abbrev pub found_tag : GarlicRoutingSession → Option SessionTag × List SessionTag
  found_tag s =
      if s.num_tags == 0 then (none, s.unused_tags) else find_tag (seconds w.now) s.unused_tags

  -- The head of a new session: key and pre-vector, encrypted for the destination, and the vector.
  unfoldable pub new_session_head :
      RoutingDestination → GarlicRoutingSession → (List ℕ × List ℕ) × GarlicRoutingSession
  new_session_head dest s =
      let pre_iv = c.generate_block s.draws 32 in
      let block = s.session_key ++ (pre_iv ++ c.generate_block (s.draws + 1) 158) in
      (
        (e.el_gamal_encrypt dest.encryption_key (s.draws + 2) block, take 16 (c.sha256 pre_iv)),
        record s { draws = s.draws + 3 },
      )

  -- The garlic message around a block. `none` is a fault: it does not fit into its buffer.
  unfoldable pub finish_message : List ℕ → Written → Option Wrapped
  unfolding fill_i2np_message_header
  finish_message head block =
      let len = length head + length block.written in
      let s = block.after in
      guard (leb (2 + w.align + 16 + 4 + len) i2np_buffer_size)
      >> some record {
        message = some (
            fill_i2np_message_header c w.now s.draws i2np_garlic 0
              (htobe32buf (len % 2 ^ 32) ++ (head ++ block.written)));
        session = record s { draws = s.draws + 1 };
        owner_calls = block.calls;
      }

  module _ (inner : List ℕ → GarlicRoutingSession → Option (Option (List ℕ))) where
    unfoldable pub create_aes_block :
        List ℕ → Option (List ℕ) → GarlicRoutingSession → Option Written
    unfolding create_new_tags create_garlic_payload aes_block
    create_aes_block iv msg s =
        let (new_tags, s1) = create_new_tags s in
        create_garlic_payload c w inner msg new_tags s1 >>= λ made. some (record made {
          written = e.cbc_encrypt s.session_key iv (aes_block c (tags_of new_tags) made.written);
        })

    unfoldable pub wrap_behind :
        List ℕ → List ℕ → Option (List ℕ) → GarlicRoutingSession → Option Wrapped
    unfolding create_aes_block finish_message
    wrap_behind head iv msg s = create_aes_block iv msg s >>= λ block. finish_message head block

    -- Without a tag: a new session, which needs a destination.
    unfoldable pub wrap_new :
        Option (List ℕ) → GarlicRoutingSession → Option RoutingDestination → Option Wrapped
    unfolding wrap_behind new_session_head
    wrap_new msg s none = some record { message = none; session = s; owner_calls = [] }
    wrap_new msg s (some dest) =
        let ((head, iv), s') = new_session_head dest s in wrap_behind head iv msg s'

    unfoldable pub wrap_message : Option (List ℕ) → GarlicRoutingSession → Option Wrapped
    unfolding wrap_new find_tag
    wrap_message msg s =
        let (found, left) = found_tag s in
        let s1 : GarlicRoutingSession = record s { unused_tags = left } in
        elim found as (λ _. Option Wrapped) [
          | none ↦ wrap_new msg s1 s1.destination
          | some t ↦ wrap_behind t.tag (take 16 (c.sha256 t.tag)) msg s1
        ]

  -- The session of a delivery status has no owner, and its own `inner` is not called.
  unfoldable pub wrap_delivery_status : List ℕ → GarlicRoutingSession → Option (Option (List ℕ))
  unfolding wrap_message
  wrap_delivery_status msg s = wrap_message (λ _ _. none) (some msg) s >>= λ made. some made.message

  unfoldable pub wrap_single_message : Option (List ℕ) → GarlicRoutingSession → Option Wrapped
  unfolding wrap_message wrap_delivery_status
  wrap_single_message = wrap_message wrap_delivery_status
