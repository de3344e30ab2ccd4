-- ===== src/Garlic/Examples.antt =====
-- Runs of core/Garlic.cpp, with stand-ins for Crypto++ that meet its laws.
use kovri.Common.{
  ℕ, zero, suc, ◌≡◌, refl, ap, subst, ◌^◌, ◌<◌, List, [], ◌∷◌, ◌++◌, Option, none, some, true,
  arith, length, take, drop, length-append, take-append, htobe16buf, htobe32buf, bufbe32toh,
  bufbe16toh, bufbe8toh, read_bytes, lookup, All, inl, ◌≢◌,
}
use kovri.Tunnel.Crypto.{Crypto}
use kovri.Garlic.{
  GarlicRoutingSession, RoutingDestination, SessionTag, UnconfirmedTags, Surroundings, Ciphers,
  updated,
}
use kovri.Tunnel.Endpoint.{same_bytes}
use kovri.Garlic.Session.{generate_tags, seconds, message_confirmed}
use kovri.Garlic.Payload.Pieces.{IsFit}
use kovri.Garlic.Wrap.{Wrapped, wrap_single_message, found_tag}
use kovri.Garlic.Destination.{
  IncomingTag, GarlicDestination, find_key, erase_key, cleanup_routing_sessions,
}
use kovri.Garlic.Confirmed.{message_confirmed-found_tag}
use kovri.Garlic.Cleanup.{cleanup_routing_sessions-deletes}
use kovri.Garlic.Receive.{Event, handle_garlic_message, cleanup_tags}
use kovri.Garlic.Receive.Block.{set_keys}
use kovri.Garlic.RoundTrip.{AreInverse}
use kovri.Garlic.RoundTrip.Arrives.{Arrives}
use kovri.Garlic.RoundTrip.Messages.{
  without_tags, new_tags_of, handle_garlic_message-wrap_single_message,
  handle_garlic_message-wrap_single_message_new,
}
use kovri.Garlic.Tags.{handle_garlic_message-unknown}

abbrev fill : ℕ → ℕ → List ℕ
fill zero x = []
fill (suc n) x = x ∷ fill n x

length-fill : (n x : ℕ) → length (fill n x) ≡ n
length-fill zero x = refl
length-fill (suc n) x = omega (arith, length-fill n x)

abbrev plain : Crypto
plain = record {
  sha256 = λ bs. fill 32 7;
  generate_block = λ draw n. fill n draw;
  generate_word32 = λ draw lo hi. lo;
  length-sha256 = λ bs. refl;
  length-generate_block = λ draw n. length-fill n draw;
  generate_word32_bounds = λ draw lo hi h. (omega arith, h);
}

abbrev open_ciphers : Ciphers
open_ciphers = record {
  cbc_encrypt = λ key iv bs. bs;
  cbc_decrypt = λ key iv bs. bs;
  public_key = λ key. key;
  el_gamal_encrypt = λ key draw block. block ++ fill 292 0;
  el_gamal_decrypt = λ key bs. some (take 222 bs);
}

open_ciphers-AreInverse : AreInverse open_ciphers
open_ciphers-AreInverse = record {
  decrypt-encrypt = λ key iv bs h. refl;
  length-encrypt = λ key iv bs h. refl;
  el_gamal_decrypt-encrypt = λ key block draw h. ap some (take-append 222 block (fill 292 0) h);
  length-el_gamal_encrypt = λ key block draw h. omega (arith, h, length-append block (fill 292 0));
}

-- An I2NP message with a payload of four bytes.
abbrev message : List ℕ
message = 20 ∷ (fill 12 1 ++ (0 ∷ 4 ∷ 0 ∷ 5 ∷ 6 ∷ 7 ∷ 8 ∷ []))

abbrev around : Surroundings
around = record {
  now = 1000000;
  inbound_tunnel = some (fill 32 3, 77);
  lease_set_msg = message;
  align = 6;
}

abbrev IsNextHop : Option (List ℕ × ℕ) → Type 0
IsNextHop none = Unit
IsNextHop (some (hash, tunnel_id)) = (length hash ≡ 32) × (tunnel_id < 2 ^ 32)

around-IsFit : IsFit plain around
around-IsFit = record {
  lease_set_fits = (omega arith, refl, omega arith);
  hash_fits = λ hash tunnel_id p. subst IsNextHop p (refl, omega arith);
}

abbrev target : RoutingDestination
target = record { ident_hash = fill 32 4; encryption_key = fill 32 2; is_destination = true }

abbrev used_tag : SessionTag
used_tag = record { tag = fill 32 9; creation_time = 900 }

-- A session with one tag left of three, whose lease set has changed.
abbrev session : List SessionTag → GarlicRoutingSession
session tags = record {
  has_owner = true;
  destination = some target;
  session_key = fill 32 8;
  unused_tags = tags;
  num_tags = 3;
  unconfirmed_tags_msgs = [];
  lease_set_update_status = updated;
  lease_set_update_msg_id = 0;
  lease_set_submission_time = 0;
  draws = 100;
}

abbrev receiver : List IncomingTag → GarlicDestination
receiver tags = record {
  private_key = fill 32 2;
  tags = tags;
  last_tags_cleanup_time = 0;
  sessions = [];
  created_sessions = [];
  store = [];
  next_pointer = 0;
}

abbrev incoming : IncomingTag
incoming = record { tag = fill 32 9; creation_time = 900; key = fill 32 8 }

abbrev empty_result : Wrapped
empty_result = record { message = none; session = session []; owner_calls = [] }

made_of : Option Wrapped → Wrapped
made_of none = empty_result
made_of (some made) = made

made : List SessionTag → Wrapped
unfolding made_of wrap_single_message
made tags = made_of (wrap_single_message plain open_ciphers around (some message) (session tags))

handle_garlic_message-wrap_single_message_example :
    Arrives plain open_ciphers around true message
      (made (used_tag ∷ []))
      (cleanup_tags plain open_ciphers true 1005000 (record (receiver (incoming ∷ [])) {
        tags = erase_key used_tag.tag (
            set_keys
              (seconds 1005000)
              (fill 32 8)
              (new_tags_of plain open_ciphers around true open_ciphers-AreInverse (
                without_tags plain open_ciphers around true open_ciphers-AreInverse
                  (session (used_tag ∷ []))))
              (incoming ∷ []));
      }))
      (λ bytes.
        handle_garlic_message plain open_ciphers true 1005000
          (length bytes)
          (drop 16 bytes ++ [])
          (receiver (incoming ∷ [])))
unfolding made made_of wrap_single_message find_key same_bytes htobe16buf htobe32buf generate_tags
handle_garlic_message-wrap_single_message_example =
    handle_garlic_message-wrap_single_message plain open_ciphers around true open_ciphers-AreInverse
      1005000 message [] used_tag (session (used_tag ∷ [])) (receiver (incoming ∷ []))
      (made (used_tag ∷ [])) around-IsFit refl (omega arith, refl, omega arith) refl refl refl refl

handle_garlic_message-wrap_single_message_new_example :
    Arrives plain open_ciphers around true message
      (made [])
      (cleanup_tags plain open_ciphers true 1005000 (record (receiver []) {
        tags =
            set_keys
              (seconds 1005000)
              (fill 32 8)
              (new_tags_of plain open_ciphers around true open_ciphers-AreInverse
                (record (without_tags plain open_ciphers around true open_ciphers-AreInverse
                  (session [])) { draws = 103 }))
              [];
      }))
      (λ bytes.
        handle_garlic_message plain open_ciphers true 1005000
          (length bytes)
          (drop 16 bytes ++ [])
          (receiver []))
unfolding made made_of wrap_single_message find_key same_bytes htobe16buf htobe32buf generate_tags
handle_garlic_message-wrap_single_message_new_example =
    handle_garlic_message-wrap_single_message_new plain open_ciphers around true
      open_ciphers-AreInverse 1005000 message [] target (session []) (receiver []) (made [])
      around-IsFit refl (omega arith, refl, omega arith) refl refl refl refl refl refl

-- A session that waits for the confirmation of one tag, and has no other that is fresh.
abbrev sent_tags : List SessionTag
sent_tags = record { tag = fill 32 6; creation_time = 990 } ∷ []

abbrev unconfirmed : UnconfirmedTags
unconfirmed = record { session_tags = sent_tags; tags_creation_time = 990 }

abbrev waiting : GarlicRoutingSession
waiting = record (session (record { tag = fill 32 9; creation_time = 200 } ∷ [])) {
  unconfirmed_tags_msgs = (55, unconfirmed) ∷ [];
}

-- Its tag 9 has expired, and the next message uses the tag that is confirmed.
message_confirmed-found_tag_example :
    (t : SessionTag) × ((found_tag plain open_ciphers around
        (message_confirmed 1000000 55 waiting).0).0
      ≡ some t)
    × (find_key t.tag (set_keys 1005 (fill 32 8) sent_tags (incoming ∷ [])) ≡ some (fill 32 8))
unfolding lookup find_key same_bytes
message_confirmed-found_tag_example =
    message_confirmed-found_tag plain open_ciphers around 1000000 1005 55 waiting unconfirmed
      (incoming ∷ []) (refl, tt) refl (refl, tt) (omega arith) (omega arith) (omega arith)
      (omega arith)

abbrev two_sessions : GarlicDestination
two_sessions = record (receiver []) {
  sessions = (fill 32 1, 0) ∷ (fill 32 2, 1) ∷ [];
  store = (0, session (used_tag ∷ [])) ∷ (1, waiting) ∷ [];
}

cleanup_routing_sessions-deletes_example :
    All (λ session. session.1 ≢ 1) (cleanup_routing_sessions 1000000 two_sessions).sessions
unfolding lookup
cleanup_routing_sessions-deletes_example =
    cleanup_routing_sessions-deletes 1000000 1 (fill 32 2) ((fill 32 1, 0) ∷ []) [] waiting
      two_sessions (λ e. omega (arith, e), tt) tt refl refl (omega arith, tt) (inl (omega arith))

-- A message for the receiver's tag that holds nothing but the tag and an empty block.
abbrev replayed : List ℕ
replayed = 0 ∷ 0 ∷ 0 ∷ 80 ∷ (fill 32 9 ++ fill 48 0)

event_list : Option (List Event × GarlicDestination) → List Event × GarlicDestination
event_list none = ([], receiver [])
event_list (some r) = r

handled_once : List Event × GarlicDestination
unfolding event_list handle_garlic_message
handled_once =
    event_list (
      handle_garlic_message plain open_ciphers true 1005000 100 replayed (receiver (incoming ∷ [])))

handle_garlic_message-unknown_example : find_key (fill 32 9) handled_once.1.tags ≡ none
unfolding handled_once event_list handle_garlic_message find_key same_bytes bufbe32toh read_bytes
    bufbe16toh bufbe8toh
handle_garlic_message-unknown_example =
    handle_garlic_message-unknown plain open_ciphers true 1005000 100 80 replayed (fill 32 9)
      (fill 32 8) (fill 32 9 ++ fill 48 0) (fill 48 0) (receiver (incoming ∷ [])) handled_once.1
      handled_once.0 refl (omega arith) refl refl refl
