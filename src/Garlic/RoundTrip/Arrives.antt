-- ===== src/Garlic/RoundTrip/Arrives.antt =====
-- A message that a session wraps arrives: its receiver passes on the message, behind what the
-- owner of the session added, and has the session's new tags.
use kovri.Common.{
  ℕ, ◌+◌, ◌%◌, ◌^◌, ◌<◌, ◌≡◌, refl, sym, ap, ◌∙◌, subst, List, [], ◌∷◌, ◌++◌, Option, none, some,
  Bool, true, false, arith, length, All, htobe32buf, htobe16buf, take, drop, map, append_assoc,
  length-append,
}
use kovri.Tunnel.Crypto.{Crypto}
use kovri.Ssu.Header.{htobe64buf}
use kovri.I2np.{i2np_garlic, fill_i2np_message_header}
use kovri.Garlic.{RoutingDestination, SessionTag, Surroundings, Ciphers}
use kovri.Garlic.Session.{seconds}
use kovri.Garlic.Payload.{to_destination}
use kovri.Garlic.Payload.Pieces.{IsOwn, IsPayload, clove_for}
use kovri.Garlic.Wrap.{Wrapped, aes_block, wrap_delivery_status}
use kovri.Garlic.Destination.{GarlicDestination, find_key, erase_key}
use kovri.Garlic.Receive.{
  Event, handle_i2np_message, handle_aes_block, handle_garlic_message, cleanup_tags,
}
use kovri.Garlic.Receive.Cloves.{Clove, delivered, all_delivered, trimmed}
use kovri.Garlic.Receive.Block.{set_keys, payload_of, handle_aes_block_lem}
use kovri.Garlic.RoundTrip.{AreInverse}
use kovri.Garlic.RoundTrip.Sent.{IsSent}
use kovri.Garlic.RoundTrip.Handled.{
  length-aes_block_mod, handle_garlic_message-tagged, handle_garlic_message-untagged,
}

delivered-clove_for :
    (has_tunnel : Bool) (len : ℕ) (b : Bool) (dest : Option RoutingDestination) (msg : List ℕ)
    → delivered has_tunnel len (clove_for b dest msg) ≡ handle_i2np_message msg len ∷ []
delivered-clove_for has_tunnel len true (some dest) msg = refl
delivered-clove_for has_tunnel len true none msg = refl
delivered-clove_for has_tunnel len false (some dest) msg = refl
delivered-clove_for has_tunnel len false none msg = refl

all_delivered-append :
    (has_tunnel : Bool) (len : ℕ) (cs ds : List (Clove × List ℕ))
    → all_delivered has_tunnel len (cs ++ ds)
      ≡ all_delivered has_tunnel len cs ++ all_delivered has_tunnel len ds
all_delivered-append has_tunnel len [] ds = refl
all_delivered-append has_tunnel len ((cl, end) ∷ cs) ds =
    ap (λ l. delivered has_tunnel len cl ++ l) (all_delivered-append has_tunnel len cs ds)
    ∙ sym (
        append_assoc (delivered has_tunnel len cl) (all_delivered has_tunnel len cs)
          (all_delivered has_tunnel len ds))

all_delivered_one :
    (has_tunnel : Bool) (len : ℕ) (cs : List (Clove × List ℕ)) (cl : Clove)
    → All (λ other. other.0 ≡ cl) cs
    → length cs ≡ 1
    → all_delivered has_tunnel len cs ≡ delivered has_tunnel len cl ++ []
all_delivered_one has_tunnel len [] cl h n = absurd (omega arith)
all_delivered_one has_tunnel len ((first, end) ∷ []) cl h n =
    ap (λ x. delivered has_tunnel len x ++ []) h.0
all_delivered_one has_tunnel len (first ∷ second ∷ cs) cl h n = absurd (omega arith)

-- The message has arrived: what the receiver passes on of its payload of `size` bytes, behind what
-- the owner added, if it added anything: its lease set, or a wrapped delivery status by its tunnel.
pub record Arrives (c : Crypto) (e : Ciphers) (w : Surroundings) (has_tunnel : Bool) (msg : List ℕ)
    (made : Wrapped) (d' : GarlicDestination)
    (handle : List ℕ → Option (List Event × GarlicDestination)) : Type 0 where
  pub bytes : List ℕ
  pub message_same : made.message ≡ some bytes
  pub events : List Event
  pub handled : handle bytes ≡ some (events, d')
  pub size : ℕ
  pub owned : List (Clove × List ℕ)
  pub are_own : All (λ cl. IsOwn c w (wrap_delivery_status c e w) cl.0) owned
  pub events_same :
      map trimmed events
      ≡ all_delivered has_tunnel size owned ++ (handle_i2np_message msg size ∷ [])

module _ (c : Crypto) (e : Ciphers) (w : Surroundings) (has_tunnel : Bool)
    (laws : AreInverse e) where
  -- What a receiver reads in the payload.
  payload_events :
      (msg payload : List ℕ) (dest : Option RoutingDestination)
      (p : IsPayload c w (wrap_delivery_status c e w) msg dest payload) (size : ℕ)
      → all_delivered has_tunnel size (p.owned ++ p.last)
        ≡ all_delivered has_tunnel size p.owned ++ (handle_i2np_message msg size ∷ [])
  payload_events msg payload dest p size =
      let b = to_destination dest in
      all_delivered-append has_tunnel size p.owned p.last
      ∙ ap (λ l. all_delivered has_tunnel size p.owned ++ l)
          (all_delivered_one has_tunnel size p.last (clove_for b dest msg) p.is_last p.one
            ∙ ap (λ l. l ++ []) (delivered-clove_for has_tunnel size b dest msg))

  block_sizes :
      (msg key head iv : List ℕ) (dest : Option RoutingDestination) (tags : List SessionTag)
      (made : Wrapped) (sent : IsSent c e w msg dest key head iv tags made)
      → let block = aes_block c tags sent.payload in
        (length (e.cbc_encrypt key iv block) ≡ length block)
        × (length block < 2 ^ 16)
        × (length head + length block < 2 ^ 16)
        × (length block % 16 ≡ 0)
  block_sizes msg key head iv dest tags made sent =
      let m = length-aes_block_mod c e has_tunnel laws tags sent.payload sent.are_tags in
      let same = laws.length-encrypt key iv (aes_block c tags sent.payload) m in
      (same, omega (arith, same, sent.small), omega (arith, same, sent.small), m)

  -- The bytes of the message: its header of 16 bytes, and the payload.
  message_bytes : ℕ → List ℕ → List ℕ → List ℕ
  message_bytes draw head sealed =
      fill_i2np_message_header c w.now draw i2np_garlic 0
        (htobe32buf ((length head + length sealed) % 2 ^ 32) ++ (head ++ sealed))

  drop-message_bytes :
      (draw : ℕ) (head sealed slack : List ℕ)
      → length head + length sealed < 2 ^ 16
      → drop 16 (message_bytes draw head sealed) ++ slack
        ≡ htobe32buf (length head + length sealed) ++ (head ++ (sealed ++ slack))
  unfolding message_bytes fill_i2np_message_header htobe16buf htobe32buf htobe64buf
  drop-message_bytes draw head sealed slack h =
      let same : (length head + length sealed) % 2 ^ 32 ≡ length head + length sealed =
        omega (arith, h) in
      ap (λ n. htobe32buf n ++ ((head ++ sealed) ++ slack)) same
      ∙ ap (λ l. htobe32buf (length head + length sealed) ++ l) (append_assoc head sealed slack)

  length-message_bytes :
      (draw : ℕ) (head sealed : List ℕ)
      → length (message_bytes draw head sealed) ≡ 20 + (length head + length sealed)
  unfolding message_bytes fill_i2np_message_header htobe16buf htobe32buf htobe64buf
  length-message_bytes draw head sealed = omega (arith, length-append head sealed)

  -- The block inside the message is read back.
  opened :
      (now : ℕ) (msg key head iv slack : List ℕ) (dest : Option RoutingDestination)
      (tags : List SessionTag) (made : Wrapped) (d : GarlicDestination)
      (sent : IsSent c e w msg dest key head iv tags made)
      → (events : List Event) × (handle_aes_block c e has_tunnel now key
            (aes_block c tags sent.payload ++ slack)
            (length (aes_block c tags sent.payload))
            d
          ≡ some (events, record d { tags = set_keys (seconds now) key tags d.tags }))
        × (map trimmed events
            ≡ all_delivered has_tunnel (length sent.payload) sent.is_payload.owned
              ++ (handle_i2np_message msg (length sent.payload) ∷ []))
  opened now msg key head iv slack dest tags made d sent =
      let p = sent.is_payload in
      let cs = p.owned ++ p.last in
      subst
        (λ payload.
          (events : List Event) × (handle_aes_block c e has_tunnel now key
              (aes_block c tags payload ++ slack) (length (aes_block c tags payload)) d
            ≡ some (events, record d { tags = set_keys (seconds now) key tags d.tags }))
          × (map trimmed events
              ≡ all_delivered has_tunnel (length payload) p.owned
                ++ (handle_i2np_message msg (length payload) ∷ [])))
        (sym p.bytes_same)
        (let block = aes_block c tags (payload_of cs p.tail) in
          let (events, q, r) =
            handle_aes_block_lem c e has_tunnel now (length block) key tags cs p.tail slack d
              sent.are_tags p.are_cloves (omega arith)
              (subst (λ payload. length (aes_block c tags payload) < 2 ^ 16) p.bytes_same
                (block_sizes msg key head iv dest tags made sent).1) in
          (events, q, r ∙ payload_events msg _ dest p (length (payload_of cs p.tail))))

  -- By a tag that the receiver knows.
  pub IsSent-tagged :
      (now : ℕ) (msg key tag slack : List ℕ) (dest : Option RoutingDestination)
      (tags : List SessionTag) (made : Wrapped) (d : GarlicDestination)
      → IsSent c e w msg dest key tag (take 16 (c.sha256 tag)) tags made
      → length tag ≡ 32
      → find_key tag d.tags ≡ some key
      → Arrives c e w has_tunnel msg made
          (cleanup_tags c e has_tunnel now
            (record d { tags = erase_key tag (set_keys (seconds now) key tags d.tags) }))
          (λ bytes.
            handle_garlic_message c e has_tunnel now (length bytes) (drop 16 bytes ++ slack) d)
  unfolding message_bytes fill_i2np_message_header
  IsSent-tagged now msg key tag slack dest tags made d sent lt known =
      let block = aes_block c tags sent.payload in
      let iv = take 16 (c.sha256 tag) in
      let sealed = e.cbc_encrypt key iv block in
      let bytes = message_bytes sent.draw tag sealed in
      let (same, small, fits, m) = block_sizes msg key tag iv dest tags made sent in
      let (events, q, r) = opened now msg key tag iv slack dest tags made d sent in
      let size : length tag + length sealed ≡ 32 + length block = omega (arith, lt, same) in
      record {
        bytes = bytes;
        message_same = sent.message_same;
        events = events;
        handled =
            ap (λ buf. handle_garlic_message c e has_tunnel now (length bytes) buf d)
              (drop-message_bytes sent.draw tag sealed slack (omega (arith, same, fits))
                ∙ ap (λ n. htobe32buf n ++ (tag ++ (sealed ++ slack))) size)
            ∙ handle_garlic_message-tagged c e has_tunnel laws now (length bytes) tag key block
                slack d _ events lt known m small
                (omega (arith, length-message_bytes sent.draw tag sealed, size)) q;
        size = length sent.payload;
        owned = sent.is_payload.owned;
        are_own = sent.is_payload.are_own;
        events_same = r;
      }

  -- By the ElGamal block that only the receiver can open.
  pub IsSent-untagged :
      (now draw : ℕ) (msg key pre_iv padding slack : List ℕ) (dest : Option RoutingDestination)
      (tags : List SessionTag) (made : Wrapped) (d : GarlicDestination)
      → let head =
          e.el_gamal_encrypt (e.public_key d.private_key) draw (key ++ (pre_iv ++ padding)) in
        IsSent c e w msg dest key head (take 16 (c.sha256 pre_iv)) tags made
        → length key ≡ 32
        → length pre_iv ≡ 32
        → length padding ≡ 158
        → find_key (take 32 head) d.tags ≡ none
        → Arrives c e w has_tunnel msg made
            (cleanup_tags c e has_tunnel now
              (record d { tags = set_keys (seconds now) key tags d.tags }))
            (λ bytes.
              handle_garlic_message c e has_tunnel now (length bytes) (drop 16 bytes ++ slack) d)
  unfolding message_bytes fill_i2np_message_header
  IsSent-untagged now draw msg key pre_iv padding slack dest tags made d sent lk lp lq unknown =
      let plain = key ++ (pre_iv ++ padding) in
      let head = e.el_gamal_encrypt (e.public_key d.private_key) draw plain in
      let block = aes_block c tags sent.payload in
      let iv = take 16 (c.sha256 pre_iv) in
      let sealed = e.cbc_encrypt key iv block in
      let bytes = message_bytes sent.draw head sealed in
      let sized : length plain ≡ 222 =
        omega (
          arith,
          lk,
          lp,
          lq,
          length-append key (pre_iv ++ padding),
          length-append pre_iv padding,
        ) in
      let full = laws.length-el_gamal_encrypt (e.public_key d.private_key) plain draw sized in
      let (same, small, fits, m) = block_sizes msg key head iv dest tags made sent in
      let (events, q, r) = opened now msg key head iv slack dest tags made d sent in
      let size : length head + length sealed ≡ 514 + length block = omega (arith, full, same) in
      record {
        bytes = bytes;
        message_same = sent.message_same;
        events = events;
        handled =
            ap (λ buf. handle_garlic_message c e has_tunnel now (length bytes) buf d)
              (drop-message_bytes sent.draw head sealed slack (omega (arith, same, fits))
                ∙ ap (λ n. htobe32buf n ++ (head ++ (sealed ++ slack))) size)
            ∙ handle_garlic_message-untagged c e has_tunnel laws now (length bytes) draw key pre_iv
                padding block slack d _ events lk lp lq unknown m small
                (omega (arith, length-message_bytes sent.draw head sealed, size)) q;
        size = length sent.payload;
        owned = sent.is_payload.owned;
        are_own = sent.is_payload.are_own;
        events_same = r;
      }
