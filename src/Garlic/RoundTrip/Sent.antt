-- ===== src/Garlic/RoundTrip/Sent.antt =====
-- What the message is that `WrapSingleMessage` of core/Garlic.cpp makes.
use kovri.Common.{
  ℕ, zero, suc, ◌+◌, ◌%◌, ◌^◌, ◌≤◌, ◌≡◌, refl, sym, ap, subst, List, ◌++◌, Option, none, some, Bool,
  true, false, length, htobe32buf, inl, inr, if◌then◌else◌, ◌>>=◌, leb, leb→le, Bool-cases,
}
use kovri.Tunnel.Crypto.{Crypto}
use kovri.I2np.{i2np_garlic, i2np_buffer_size, fill_i2np_message_header}
use kovri.Garlic.{
  GarlicRoutingSession, RoutingDestination, SessionTag, UnconfirmedTags, Surroundings, Ciphers,
}
use kovri.Garlic.Session.{generate_tags, seconds}
use kovri.Garlic.Payload.{Written, tags_of, create_garlic_payload}
use kovri.Garlic.Payload.Pieces.{
  IsFit, IsFitInner, IsHash, IsPayload, MakesPayload, create_garlic_payload-MakesPayload,
}
use kovri.Garlic.Wrap.{
  Wrapped, aes_block, create_new_tags, create_aes_block, finish_message, wrap_behind,
  wrap_delivery_status,
}
use kovri.Garlic.Receive.Cloves.{IsMessage}
use kovri.Garlic.Receive.Block.{AreTags}

module _ (c : Crypto) (e : Ciphers) (w : Surroundings) where
  -- The message: its head, then a block of tags and a payload under the key.
  pub record IsSent (msg : List ℕ) (dest : Option RoutingDestination) (key head iv : List ℕ)
      (tags : List SessionTag) (made : Wrapped) : Type 0 where
    pub payload : List ℕ
    pub draw : ℕ
    pub is_payload : IsPayload c w (wrap_delivery_status c e w) msg dest payload
    pub are_tags : AreTags tags
    pub message_same :
        let block = e.cbc_encrypt key iv (aes_block c tags payload) in
        made.message
        ≡ some (
            fill_i2np_message_header c w.now draw i2np_garlic 0
              (htobe32buf ((length head + length block) % 2 ^ 32) ++ (head ++ block)))
    pub small :
        2
          + w.align
          + 16
          + 4
          + (length head + length (e.cbc_encrypt key iv (aes_block c tags payload)))
        ≤ i2np_buffer_size

  generate_tags-AreTags : (ts draw n : ℕ) → AreTags (generate_tags c ts draw n)
  unfolding generate_tags
  generate_tags-AreTags ts draw zero = tt
  generate_tags-AreTags ts draw (suc n) =
      (c.length-generate_block draw 32, generate_tags-AreTags ts (draw + 1) n)

  -- New tags have 32 bytes, and they are for the same destination.
  abbrev Suits : GarlicRoutingSession → Option UnconfirmedTags × GarlicRoutingSession → Type 0
  Suits s made = AreTags (tags_of made.0) × (made.1.destination ≡ s.destination)

  Suits-if :
      (s : GarlicRoutingSession) (b : Bool) (x y : Option UnconfirmedTags × GarlicRoutingSession)
      → Suits s x
      → Suits s y
      → Suits s (if b then x else y)
  Suits-if s true x y p q = p
  Suits-if s false x y p q = q

  create_new_tags-Suits : (s : GarlicRoutingSession) → Suits s (create_new_tags c e w s)
  unfolding create_new_tags
  create_new_tags-Suits s =
      Suits-if s _ _ _ (generate_tags-AreTags (seconds w.now) s.draws s.num_tags, refl) (tt, refl)

  -- Sent, if the code makes a message and does not fault.
  abbrev pub Sends :
      List ℕ
      → Option RoutingDestination
      → List ℕ
      → List ℕ
      → List ℕ
      → List SessionTag
      → Option Wrapped
      → Type 0
  Sends msg dest key head iv tags none = Unit
  Sends msg dest key head iv tags (some made) = IsSent msg dest key head iv tags made

  finish_message-Sends :
      (msg : List ℕ) (dest : Option RoutingDestination) (key head iv payload : List ℕ)
      (tags : List SessionTag) (block : Written)
      → IsPayload c w (wrap_delivery_status c e w) msg dest payload
      → AreTags tags
      → block.written ≡ e.cbc_encrypt key iv (aes_block c tags payload)
      → Sends msg dest key head iv tags (finish_message c e w head block)
  unfolding finish_message
  finish_message-Sends msg dest key head iv payload tags block p t q =
      let fits = λ (bl : List ℕ). 2 + w.align + 16 + 4 + (length head + length bl) in
      elim (Bool-cases (leb (fits block.written) i2np_buffer_size)) [
        | inl h ↦
            rw (Sends, finish_message, h)
              record {
                payload = payload;
                draw = block.after.draws;
                is_payload = p;
                are_tags = t;
                message_same =
                    ap
                      (λ bl. some (
                        fill_i2np_message_header c w.now block.after.draws i2np_garlic 0
                          (htobe32buf ((length head + length bl) % 2 ^ 32) ++ (head ++ bl))))
                      q;
                small = subst (λ bl. fits bl ≤ i2np_buffer_size) q (leb→le _ _ h);
              }
        | inr h ↦ rw (Sends, finish_message, h) tt
      ]

  Sends-bind :
      (msg : List ℕ) (dest : Option RoutingDestination) (key head iv : List ℕ)
      (tags : List SessionTag) (o : Option Written) (f : Written → Written)
      (k : Written → Option Wrapped)
      → MakesPayload c w (wrap_delivery_status c e w) msg dest o
      → ((made : Written)
          → IsPayload c w (wrap_delivery_status c e w) msg dest made.written
          → Sends msg dest key head iv tags (k (f made)))
      → Sends msg dest key head iv tags ((o >>= λ made. some (f made)) >>= k)
  Sends-bind msg dest key head iv tags none f k h step = tt
  Sends-bind msg dest key head iv tags (some made) f k h step = step made h

  pub wrap_behind-Sends :
      (msg head iv : List ℕ) (s : GarlicRoutingSession)
      → IsFit c w
      → IsFitInner c w (wrap_delivery_status c e w)
      → IsHash s.destination
      → IsMessage msg
      → Sends msg s.destination s.session_key head iv
          (tags_of (create_new_tags c e w s).0)
          (wrap_behind c e w (wrap_delivery_status c e w) head iv (some msg) s)
  unfolding wrap_behind create_aes_block
  wrap_behind-Sends msg head iv s f fi h m =
      let (new_tags, s1) = create_new_tags c e w s in
      let (t, same) = create_new_tags-Suits s in
      Sends-bind msg s.destination s.session_key head iv (tags_of new_tags)
        (create_garlic_payload c w (wrap_delivery_status c e w) (some msg) new_tags s1) _ _
        (subst
          (λ d.
            MakesPayload c w (wrap_delivery_status c e w) msg d
              (create_garlic_payload c w (wrap_delivery_status c e w) (some msg) new_tags s1))
          same
          (create_garlic_payload-MakesPayload c w (wrap_delivery_status c e w) msg new_tags s1 f fi
            (subst IsHash (sym same) h) m))
        (λ made p.
          let sealed : Written = record made {
            written = e.cbc_encrypt s.session_key iv (aes_block c (tags_of new_tags) made.written);
          } in
          finish_message-Sends msg s.destination s.session_key head iv made.written
            (tags_of new_tags) sealed p t refl)
