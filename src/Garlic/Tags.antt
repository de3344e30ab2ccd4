-- ===== src/Garlic/Tags.antt =====
-- The session tag of a message that is received: `HandleGarlicMessage` of core/Garlic.cpp.
use kovri.Common.{
  ℕ, ◌≤◌, ◌≡◌, refl, sym, ap, ◌∙◌, subst, List, [], ◌∷◌, Option, none, some, Bool, true, arith,
  Bool-cases, Option-cases, inl, inr, read_bytes, bufbe32toh, le→ltb_false,
}
use kovri.Tunnel.Crypto.{Crypto}
use kovri.Tunnel.Endpoint.{same_bytes}
use kovri.Garlic.{Ciphers}
use kovri.Garlic.Session.{seconds}
use kovri.Garlic.Destination.{IncomingTag, GarlicDestination, find_key, erase_key}
use kovri.Garlic.Receive.{Event, handle_tagged, handle_garlic_message, cleanup_tags, fresh_incoming}

pub same_bytes_eq : (xs ys : List ℕ) → same_bytes xs ys ≡ true → xs ≡ ys
unfolding same_bytes
same_bytes_eq [] [] h = refl
same_bytes_eq [] (y ∷ ys) h = cc
same_bytes_eq (x ∷ xs) [] h = cc
same_bytes_eq (x ∷ xs) (y ∷ ys) h = ground (arith, same_bytes_eq xs ys, h)

module _ (tag : List ℕ) where
  find_key-erase_key : (tags : List IncomingTag) → find_key tag (erase_key tag tags) ≡ none
  unfolding find_key erase_key
  find_key-erase_key [] = refl
  find_key-erase_key (t ∷ tags) = elim (Bool-cases (same_bytes t.tag tag)) [
    | inl h ↦ rw h (find_key-erase_key tags)
    | inr h ↦ rw (h, h) (find_key-erase_key tags)
  ]

module _ (c : Crypto) (e : Ciphers) (has_tunnel : Bool) where
  fresh_incoming-unknown :
      (ts : ℕ) (tag : List ℕ) (tags : List IncomingTag)
      → find_key tag tags ≡ none
      → find_key tag (fresh_incoming c e has_tunnel ts tags) ≡ none
  unfolding find_key fresh_incoming
  fresh_incoming-unknown ts tag [] h = refl
  fresh_incoming-unknown ts tag (t ∷ tags) h = elim (Bool-cases (same_bytes t.tag tag)) [
    | inl k ↦ absurd (ground (arith, k, h))
    | inr k ↦
        let rest = fresh_incoming-unknown ts tag tags (ground (arith, k, h)) in
        ground (arith, k, rest)
  ]

  cleanup_tags-unknown :
      (now : ℕ) (tag : List ℕ) (d : GarlicDestination)
      → find_key tag d.tags ≡ none
      → find_key tag (cleanup_tags c e has_tunnel now d).tags ≡ none
  unfolding cleanup_tags
  cleanup_tags-unknown now tag d h =
      ground (arith, h, fresh_incoming-unknown (seconds now) tag d.tags h)

  abbrev destination_of :
      GarlicDestination → Option (List Event × GarlicDestination) → GarlicDestination
  destination_of d none = d
  destination_of d (some (events, d')) = d'

  -- Whatever a message with a known tag holds, the tag is unknown after it.
  pub handle_garlic_message-unknown :
      (now msg_length length' : ℕ) (payload tag key buf behind : List ℕ) (d d' : GarlicDestination)
      (events : List Event)
      → bufbe32toh payload ≡ some (length', buf)
      → length' ≤ msg_length
      → read_bytes 32 buf ≡ some (tag, behind)
      → find_key tag d.tags ≡ some key
      → handle_garlic_message c e has_tunnel now msg_length payload d ≡ some (events, d')
      → find_key tag d'.tags ≡ none
  unfolding handle_garlic_message
  handle_garlic_message-unknown now msg_length length' payload tag key buf behind d d' events p h q
        known r =
      elim (Option-cases (handle_tagged c e has_tunnel now tag key length' buf d)) [
        | inl f ↦
            let fault : handle_garlic_message c e has_tunnel now msg_length payload d ≡ none =
              rw (handle_garlic_message, p, le→ltb_false msg_length length' h, q, known, f) refl in
            absurd (ground (arith, fault, r))
        | inr ((made, d1), f) ↦
            let after : GarlicDestination = record d1 { tags = erase_key tag d1.tags } in
            let done : handle_garlic_message c e has_tunnel now msg_length payload d
                ≡ some (made, cleanup_tags c e has_tunnel now after) =
              rw (handle_garlic_message, p, le→ltb_false msg_length length' h, q, known, f) refl in
            let same : cleanup_tags c e has_tunnel now after ≡ d' =
              ap (destination_of d') (sym done ∙ r) in
            subst (λ x. find_key tag x.tags ≡ none) same
              (cleanup_tags-unknown now tag after (find_key-erase_key tag d1.tags))
      ]
