-- ===== src/Garlic/Destination.antt =====
-- `GarlicDestination` of core/Garlic.cpp: the tags it can decrypt with, and its outgoing sessions,
-- which both of its maps share by pointers.
use kovri.Common.{
  ℕ, ◌+◌, List, [], ◌∷◌, Option, none, some, Bool, true, if◌then◌else◌, Dict, lookup, insert, erase,
  be32, drop,
}
use kovri.Tunnel.Crypto.{Crypto}
use kovri.Tunnel.Endpoint.{same_bytes}
use kovri.Garlic.{
  GarlicRoutingSession, RoutingDestination, OwnerCall, remove_created_session, delivery_status_sent,
  submit_session_key, Surroundings, Ciphers,
}
use kovri.Garlic.Session.{
  seconds, new_session, cleanup_expired_tags, message_confirmed, set_lease_set_updated,
}
use kovri.Garlic.Wrap.{wrap_single_message}

-- An entry of `m_Tags`: the tag with the time it came at, and the key of its decryption.
pub record IncomingTag : Type 0 where
  pub tag : List ℕ
  pub creation_time : ℕ
  pub key : List ℕ

-- `store` holds the sessions that `sessions` (by ident hash) and `created_sessions` (by message
-- identifier) point to.
pub record GarlicDestination : Type 0 where
  pub private_key : List ℕ
  pub tags : List IncomingTag
  pub last_tags_cleanup_time : ℕ
  pub sessions : List (List ℕ × ℕ)
  pub created_sessions : Dict ℕ
  pub store : Dict GarlicRoutingSession
  pub next_pointer : ℕ

-- `m_Tags.find`: the key.
unfoldable pub find_key : List ℕ → List IncomingTag → Option (List ℕ)
find_key tag [] = none
find_key tag (t ∷ tags) = if same_bytes t.tag tag then some t.key else find_key tag tags

-- `m_Tags[SessionTag(tag, ts)] = decryption`: a tag that is there keeps its time.
unfoldable pub set_key : List ℕ → ℕ → List ℕ → List IncomingTag → List IncomingTag
set_key tag ts key [] = record { tag = tag; creation_time = ts; key = key } ∷ []
set_key tag ts key (t ∷ tags) =
    if same_bytes t.tag tag then record t { key = key } ∷ tags else t ∷ set_key tag ts key tags

unfoldable pub erase_key : List ℕ → List IncomingTag → List IncomingTag
erase_key tag [] = []
erase_key tag (t ∷ tags) =
    if same_bytes t.tag tag then erase_key tag tags else t ∷ erase_key tag tags

-- `AddSessionKey` with a key, and `SubmitSessionKey`.
unfoldable pub add_session_key : ℕ → List ℕ → List ℕ → GarlicDestination → GarlicDestination
unfolding set_key
add_session_key now key tag d = record d { tags = set_key tag (seconds now) key d.tags }

-- The calls of the session behind the pointer `p` on its owner.
unfoldable pub owner_call : ℕ → ℕ → OwnerCall → GarlicDestination → GarlicDestination
unfolding add_session_key
owner_call now p (remove_created_session msg_id) d = record d {
  created_sessions = erase msg_id d.created_sessions;
}
owner_call now p (delivery_status_sent msg_id) d = record d {
  created_sessions = insert msg_id p d.created_sessions;
}
owner_call now p (submit_session_key key tag) d = add_session_key now key tag d

unfoldable pub owner_calls : ℕ → ℕ → List OwnerCall → GarlicDestination → GarlicDestination
unfolding owner_call
owner_calls now p [] d = d
owner_calls now p (call ∷ calls) d = owner_calls now p calls (owner_call now p call d)

unfoldable pub find_session : List ℕ → List (List ℕ × ℕ) → Option ℕ
find_session ident [] = none
find_session ident ((i, p) ∷ sessions) =
    if same_bytes i ident then some p else find_session ident sessions

module _ (c : Crypto) where
  -- The pointer to the session. A new one has 40 tags, or 4 without a lease set.
  unfoldable pub get_routing_session :
      ℕ → ℕ → RoutingDestination → Bool → GarlicDestination → ℕ × GarlicDestination
  unfolding find_session
  get_routing_session garbage draw dest attach_lease_set d =
      elim (find_session dest.ident_hash d.sessions) [
        | some p ↦ (p, d)
        | none ↦
            let s =
              new_session c garbage draw dest (if attach_lease_set then 40 else 4)
                attach_lease_set in
            (
              d.next_pointer,
              record d {
                sessions = (dest.ident_hash, d.next_pointer) ∷ d.sessions;
                store = insert d.next_pointer s d.store;
                next_pointer = d.next_pointer + 1;
              },
            )
      ]

  -- `none` is a fault.
  unfoldable pub wrap_message_for :
      Ciphers
      → Surroundings
      → ℕ
      → ℕ
      → RoutingDestination
      → List ℕ
      → Bool
      → GarlicDestination
      → Option (Option (List ℕ) × GarlicDestination)
  unfolding get_routing_session wrap_single_message owner_calls
  wrap_message_for e w garbage draw dest msg attach_lease_set d =
      let (p, d1) = get_routing_session garbage draw dest attach_lease_set d in
      elim (lookup p d1.store) as (λ _. Option (Option (List ℕ) × GarlicDestination)) [
        | none ↦ none
        | some s ↦ elim (wrap_single_message c e w (some msg) s) [
          | none ↦ none
          | some made ↦ some (
            made.message,
            owner_calls w.now p made.owner_calls
                (record d1 { store = insert p made.session d1.store }),
          )
        ]
      ]

-- The session behind a pointer takes a step; without one nothing happens.
abbrev pub with_session :
    ℕ
    → ℕ
    → (GarlicRoutingSession → GarlicRoutingSession × List OwnerCall)
    → GarlicDestination
    → GarlicDestination
with_session now p step d = elim (lookup p d.store) as (λ _. GarlicDestination) [
  | none ↦ d
  | some s ↦
      let (s', calls) = step s in owner_calls now p calls (record d { store = insert p s' d.store })
]

abbrev pub cleaned : ℕ → GarlicRoutingSession → GarlicRoutingSession × List OwnerCall
cleaned now s = ((cleanup_expired_tags now s).1, (cleanup_expired_tags now s).2)

abbrev pub is_kept : ℕ → ℕ → GarlicDestination → Bool
is_kept now p d = elim (lookup p d.store) [ none ↦ true | some s ↦ (cleanup_expired_tags now s).0 ]

unfoldable pub cleanup_sessions :
    ℕ → List (List ℕ × ℕ) → GarlicDestination → List (List ℕ × ℕ) × GarlicDestination
unfolding cleanup_expired_tags owner_calls
cleanup_sessions now [] d = ([], d)
cleanup_sessions now ((ident, p) ∷ sessions) d =
    let (rest, d') = cleanup_sessions now sessions (with_session now p (cleaned now) d) in
    ((if is_kept now p d then (ident, p) ∷ rest else rest), d')

unfoldable pub cleanup_routing_sessions : ℕ → GarlicDestination → GarlicDestination
unfolding cleanup_sessions
cleanup_routing_sessions now d =
    let (sessions, d') = cleanup_sessions now d.sessions d in record d' { sessions = sessions }

-- The payload of a DeliveryStatus message begins with the identifier.
unfoldable pub handle_delivery_status_message : ℕ → List ℕ → GarlicDestination → GarlicDestination
unfolding message_confirmed owner_calls
handle_delivery_status_message now msg d =
    let msg_id = be32 (drop 16 msg) in
    elim (lookup msg_id d.created_sessions) as (λ _. GarlicDestination) [
      | none ↦ d
      | some p ↦
          let d' = with_session now p (message_confirmed now msg_id) d in
          record d' { created_sessions = erase msg_id d'.created_sessions }
    ]

unfoldable pub set_all_updated :
    List (List ℕ × ℕ) → Dict GarlicRoutingSession → Dict GarlicRoutingSession
unfolding set_lease_set_updated
set_all_updated [] store = store
set_all_updated ((ident, p) ∷ sessions) store =
    set_all_updated sessions (elim (lookup p store) as (λ _. Dict GarlicRoutingSession) [
      | none ↦ store
      | some s ↦ insert p (set_lease_set_updated s) store
    ])
