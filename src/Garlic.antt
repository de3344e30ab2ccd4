-- ===== src/Garlic.antt =====
-- The data of core/Garlic.h: session tags, outgoing sessions, and what a session does to its owner.
pub mod Session
pub mod Payload
pub mod Wrap
pub mod Destination
pub mod Receive
pub mod RoundTrip
pub mod Tags
pub mod Cleanup
pub mod Confirmed
mod Examples
use kovri.Common.{ℕ, ◌≡◌, Bool, List, [], ◌∷◌, Option, none, some, Dict, length}
use kovri.Tunnel.Crypto.{Crypto}

abbrev pub incoming_tags_expiration_timeout : ℕ
incoming_tags_expiration_timeout = 960

abbrev pub outgoing_tags_expiration_timeout : ℕ
outgoing_tags_expiration_timeout = 720

abbrev pub leaset_confirmation_timeout : ℕ
leaset_confirmation_timeout = 4000

-- The delivery types, as the two bits of a clove's flag.
abbrev pub garlic_delivery_type_destination : ℕ
garlic_delivery_type_destination = 1

abbrev pub garlic_delivery_type_router : ℕ
garlic_delivery_type_router = 2

abbrev pub garlic_delivery_type_tunnel : ℕ
garlic_delivery_type_tunnel = 3

pub record SessionTag : Type 0 where
  pub tag : List ℕ
  pub creation_time : ℕ

-- `numTags` is the length of `session_tags`.
pub record UnconfirmedTags : Type 0 where
  pub session_tags : List SessionTag
  pub tags_creation_time : ℕ

pub data LeaseSetUpdateStatus : Type 0 where
  up_to_date updated submitted do_not_send : LeaseSetUpdateStatus

-- What a session reads of the destination it sends to.
pub record RoutingDestination : Type 0 where
  pub ident_hash : List ℕ
  pub encryption_key : List ℕ
  pub is_destination : Bool

-- `draws` counts the calls of the random number generator.
pub record GarlicRoutingSession : Type 0 where
  pub has_owner : Bool
  pub destination : Option RoutingDestination
  pub session_key : List ℕ
  pub unused_tags : List SessionTag
  pub num_tags : ℕ
  pub unconfirmed_tags_msgs : Dict UnconfirmedTags
  pub lease_set_update_status : LeaseSetUpdateStatus
  pub lease_set_update_msg_id : ℕ
  pub lease_set_submission_time : ℕ
  pub draws : ℕ

-- The calls of a session on the destination that owns it.
pub data OwnerCall : Type 0 where
  remove_created_session : ℕ → OwnerCall
  delivery_status_sent : ℕ → OwnerCall
  submit_session_key : List ℕ → List ℕ → OwnerCall

-- What a call sees around it: the time in milliseconds, the next hop of the inbound tunnel that the
-- owner's pool chooses, the DatabaseStore message of the owner's lease set, and by how much `Align`
-- moves a message in its buffer.
pub record Surroundings : Type 0 where
  pub now : ℕ
  pub inbound_tunnel : Option (List ℕ × ℕ)
  pub lease_set_msg : List ℕ
  pub align : ℕ

-- AES in CBC mode (key, initialisation vector, data), which works on whole blocks of 16 bytes, and
-- ElGamal, whose ciphertext has 514 bytes with the zero padding that garlic messages ask for.
pub record Ciphers : Type 0 where
  pub cbc_encrypt : List ℕ → List ℕ → List ℕ → List ℕ
  pub cbc_decrypt : List ℕ → List ℕ → List ℕ → List ℕ
  pub public_key : List ℕ → List ℕ
  pub el_gamal_encrypt : List ℕ → ℕ → List ℕ → List ℕ
  pub el_gamal_decrypt : List ℕ → List ℕ → Option (List ℕ)
