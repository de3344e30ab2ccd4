-- ===== src/Garlic/RoundTrip/Messages.antt =====
-- `WrapSingleMessage` of core/Garlic.cpp and its receiver, in an existing session and in a new one.
use kovri.Common.{
  ℕ, ◌+◌, ◌≡◌, refl, sym, ap, ◌∙◌, subst, List, ◌++◌, Option, none, some, Bool, length, take, drop,
}
use kovri.Tunnel.Crypto.{Crypto}
use kovri.Garlic.{GarlicRoutingSession, RoutingDestination, SessionTag, Surroundings, Ciphers}
use kovri.Garlic.Session.{seconds}
use kovri.Garlic.Payload.{tags_of}
use kovri.Garlic.Payload.Pieces.{IsFit, IsHash}
use kovri.Garlic.Wrap.{
  Wrapped, found_tag, create_new_tags, new_session_head, wrap_behind, wrap_new, wrap_message,
  wrap_delivery_status, wrap_single_message,
}
use kovri.Garlic.Destination.{GarlicDestination, find_key, erase_key}
use kovri.Garlic.Receive.{handle_garlic_message, cleanup_tags}
use kovri.Garlic.Receive.Cloves.{IsMessage}
use kovri.Garlic.Receive.Block.{set_keys}
use kovri.Garlic.RoundTrip.{AreInverse}
use kovri.Garlic.RoundTrip.Sent.{Sends, wrap_behind-Sends}
use kovri.Garlic.RoundTrip.Arrives.{Arrives, IsSent-tagged, IsSent-untagged}
use kovri.Garlic.RoundTrip.Status.{wrap_delivery_status-IsFitInner}

module _ (c : Crypto) (e : Ciphers) (w : Surroundings) (has_tunnel : Bool)
    (laws : AreInverse e) where
  -- The session without the tags that the search has passed.
  abbrev pub without_tags : GarlicRoutingSession → GarlicRoutingSession
  without_tags s = record s { unused_tags = (found_tag c e w s).1 }

  abbrev pub new_tags_of : GarlicRoutingSession → List SessionTag
  new_tags_of s = tags_of (create_new_tags c e w s).0

  wrap_message-found :
      (inner : List ℕ → GarlicRoutingSession → Option (Option (List ℕ))) (msg : List ℕ)
      (t : SessionTag) (s : GarlicRoutingSession)
      → (found_tag c e w s).0 ≡ some t
      → wrap_message c e w inner (some msg) s
        ≡ wrap_behind c e w inner t.tag (take 16 (c.sha256 t.tag)) (some msg) (without_tags s)
  unfolding wrap_message
  wrap_message-found inner msg t s found = rw (wrap_message, found) refl

  abbrev pub head_of : RoutingDestination → GarlicRoutingSession → List ℕ
  head_of dest s =
      e.el_gamal_encrypt dest.encryption_key (s.draws + 2)
        (s.session_key ++ (c.generate_block s.draws 32 ++ c.generate_block (s.draws + 1) 158))

  wrap_message-new :
      (inner : List ℕ → GarlicRoutingSession → Option (Option (List ℕ))) (msg : List ℕ)
      (dest : RoutingDestination) (s : GarlicRoutingSession)
      → (found_tag c e w s).0 ≡ none
      → s.destination ≡ some dest
      → wrap_message c e w inner (some msg) s
        ≡ wrap_behind c e w inner
            (head_of dest s)
            (take 16 (c.sha256 (c.generate_block s.draws 32)))
            (some msg)
            (record (without_tags s) { draws = s.draws + 3 })
  unfolding wrap_message wrap_new new_session_head
  wrap_message-new inner msg dest s found aim =
      let to_new : wrap_message c e w inner (some msg) s
          ≡ wrap_new c e w inner (some msg) (without_tags s) s.destination =
        rw (wrap_message, found) refl in
      to_new ∙ ap (wrap_new c e w inner (some msg) (without_tags s)) aim

  -- A session finds a tag of 32 bytes for which the receiver has its key, and wraps a message that
  -- fits; the code does not fault, and the lease set and the inbound tunnel of the owner fit into
  -- cloves. Then the message arrives, whatever stands behind it in the buffer, and the receiver has
  -- the new tags of the session, and the tag no more.
  pub handle_garlic_message-wrap_single_message :
      (now : ℕ) (msg slack : List ℕ) (t : SessionTag) (s : GarlicRoutingSession)
      (d : GarlicDestination) (made : Wrapped)
      → IsFit c w
      → IsHash s.destination
      → IsMessage msg
      → (found_tag c e w s).0 ≡ some t
      → length t.tag ≡ 32
      → find_key t.tag d.tags ≡ some s.session_key
      → wrap_single_message c e w (some msg) s ≡ some made
      → Arrives c e w has_tunnel msg made
          (cleanup_tags c e has_tunnel now (record d {
            tags =
                erase_key t.tag
                  (set_keys (seconds now) s.session_key (new_tags_of (without_tags s)) d.tags);
          }))
          (λ bytes.
            handle_garlic_message c e has_tunnel now (length bytes) (drop 16 bytes ++ slack) d)
  unfolding wrap_single_message wrap_message
  handle_garlic_message-wrap_single_message now msg slack t s d made f h m found lt known p =
      let iv = take 16 (c.sha256 t.tag) in
      let s1 = without_tags s in
      let sends =
        wrap_behind-Sends c e w msg t.tag iv s1 f (wrap_delivery_status-IsFitInner c e w laws) h
          m in
      let same : wrap_behind c e w (wrap_delivery_status c e w) t.tag iv (some msg) s1 ≡ some made =
        sym (wrap_message-found (wrap_delivery_status c e w) msg t s found) ∙ p in
      IsSent-tagged c e w has_tunnel laws now msg s.session_key t.tag slack s.destination _ made d
        (subst (Sends c e w msg s.destination s.session_key t.tag iv (new_tags_of s1)) same sends)
        lt known

  -- The same without a tag, by ElGamal for the destination of the session: the session key has 32
  -- bytes, and the ciphertext does not begin with a tag that the receiver knows.
  pub handle_garlic_message-wrap_single_message_new :
      (now : ℕ) (msg slack : List ℕ) (dest : RoutingDestination) (s : GarlicRoutingSession)
      (d : GarlicDestination) (made : Wrapped)
      → IsFit c w
      → length dest.ident_hash ≡ 32
      → IsMessage msg
      → (found_tag c e w s).0 ≡ none
      → s.destination ≡ some dest
      → dest.encryption_key ≡ e.public_key d.private_key
      → length s.session_key ≡ 32
      → find_key (take 32 (head_of dest s)) d.tags ≡ none
      → wrap_single_message c e w (some msg) s ≡ some made
      → Arrives c e w has_tunnel msg made
          (cleanup_tags c e has_tunnel now (record d {
            tags =
                set_keys
                  (seconds now)
                  s.session_key
                  (new_tags_of (record (without_tags s) { draws = s.draws + 3 }))
                  d.tags;
          }))
          (λ bytes.
            handle_garlic_message c e has_tunnel now (length bytes) (drop 16 bytes ++ slack) d)
  unfolding wrap_single_message
  handle_garlic_message-wrap_single_message_new now msg slack dest s d made f h m found aim key lk
        unknown p =
      let pre_iv = c.generate_block s.draws 32 in
      let padding = c.generate_block (s.draws + 1) 158 in
      let iv = take 16 (c.sha256 pre_iv) in
      let s1 : GarlicRoutingSession = record (without_tags s) { draws = s.draws + 3 } in
      let sends =
        wrap_behind-Sends c e w msg (head_of dest s) iv s1 f
          (wrap_delivery_status-IsFitInner c e w laws) (subst IsHash (sym aim) h) m in
      let sent =
        subst (Sends c e w msg s.destination s.session_key (head_of dest s) iv (new_tags_of s1))
          (sym (wrap_message-new (wrap_delivery_status c e w) msg dest s found aim) ∙ p) sends in
      let head =
        λ (k : List ℕ). e.el_gamal_encrypt k (s.draws + 2) (s.session_key ++ (pre_iv ++ padding)) in
      IsSent-untagged c e w has_tunnel laws now (s.draws + 2) msg s.session_key pre_iv padding slack
        s.destination (new_tags_of s1) made d
        (subst
          (λ k.
            Sends c e w msg s.destination s.session_key (head k) iv (new_tags_of s1) (some made))
          key sent)
        lk (c.length-generate_block s.draws 32) (c.length-generate_block (s.draws + 1) 158)
        (subst (λ k. find_key (take 32 (head k)) d.tags ≡ none) key unknown)
