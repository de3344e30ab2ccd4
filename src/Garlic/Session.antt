-- ===== src/Garlic/Session.antt =====
-- The tags of an outgoing session: `GenerateSessionTags`, `TagsConfirmed`, `MessageConfirmed` and
-- `CleanupExpiredTags` of core/Garlic.cpp.
use kovri.Common.{
  ℕ, zero, suc, ◌+◌, ◌/◌, ◌%◌, ◌^◌, List, [], ◌∷◌, ◌++◌, none, some, Bool, true, false,
  if◌then◌else◌, ltb, leb, ◌==◌, ◌||◌, not, Dict, lookup, erase,
}
use kovri.Tunnel.Crypto.{Crypto}
use kovri.Garlic.{
  SessionTag, UnconfirmedTags, LeaseSetUpdateStatus, up_to_date, updated, do_not_send,
  GarlicRoutingSession, RoutingDestination, OwnerCall, remove_created_session,
  outgoing_tags_expiration_timeout,
}

-- `GetSecondsSinceEpoch` in 32 bits.
abbrev pub seconds : ℕ → ℕ
seconds now = now / 1000 % 2 ^ 32

-- The end of an outgoing tag's life, in 32 bits.
abbrev pub expiry : ℕ → ℕ
expiry creation_time = (creation_time + outgoing_tags_expiration_timeout) % 2 ^ 32

abbrev pub is_empty_list {ℓ} : {A : Type ℓ} → List A → Bool
is_empty_list [] = true
is_empty_list (x ∷ xs) = false

module _ (c : Crypto) where
  unfoldable pub generate_tags : ℕ → ℕ → ℕ → List SessionTag
  generate_tags ts draw zero = []
  generate_tags ts draw (suc n) =
      record { tag = c.generate_block draw 32; creation_time = ts } ∷ generate_tags ts (draw + 1) n

  abbrev pub generate_session_tags :
      ℕ → GarlicRoutingSession → UnconfirmedTags × GarlicRoutingSession
  generate_session_tags now s = (
    record {
      session_tags = generate_tags (seconds now) s.draws s.num_tags;
      tags_creation_time = seconds now;
    },
    record s { draws = s.draws + s.num_tags },
  )

  -- The constructor for a destination. The memory that it leaves unset is `garbage`.
  abbrev pub new_session : ℕ → ℕ → RoutingDestination → ℕ → Bool → GarlicRoutingSession
  new_session garbage draw dest n attach_lease_set = record {
    has_owner = true;
    destination = some dest;
    session_key = c.generate_block draw 32;
    unused_tags = [];
    num_tags = n;
    unconfirmed_tags_msgs = [];
    lease_set_update_status = if attach_lease_set then updated else do_not_send;
    lease_set_update_msg_id = garbage;
    lease_set_submission_time = garbage;
    draws = draw + 1;
  }

-- The constructor for one message, with the key and the tag of the receiver's choice.
abbrev pub one_time_session : ℕ → ℕ → ℕ → List ℕ → List ℕ → GarlicRoutingSession
one_time_session garbage now draw key tag = record {
  has_owner = false;
  destination = none;
  session_key = key;
  unused_tags = record { tag = tag; creation_time = seconds now } ∷ [];
  num_tags = 1;
  unconfirmed_tags_msgs = [];
  lease_set_update_status = do_not_send;
  lease_set_update_msg_id = garbage;
  lease_set_submission_time = garbage;
  draws = draw;
}

unfoldable pub tags_confirmed : ℕ → ℕ → GarlicRoutingSession → GarlicRoutingSession
tags_confirmed now msg_id s = elim (lookup msg_id s.unconfirmed_tags_msgs) [
  | none ↦ s
  | some tags ↦ record s {
    unused_tags =
        if ltb (seconds now) (expiry tags.tags_creation_time)
        then s.unused_tags ++ tags.session_tags
        else s.unused_tags;
    unconfirmed_tags_msgs = erase msg_id s.unconfirmed_tags_msgs;
  }
]

unfoldable pub fresh_tags : ℕ → List SessionTag → List SessionTag
fresh_tags ts [] = []
fresh_tags ts (t ∷ tags) =
    if leb (expiry t.creation_time) ts then fresh_tags ts tags else t ∷ fresh_tags ts tags

-- The unconfirmed tags that are kept, and the calls for those that are not.
unfoldable pub fresh_msgs : Bool → ℕ → Dict UnconfirmedTags → Dict UnconfirmedTags × List OwnerCall
fresh_msgs owned ts [] = ([], [])
fresh_msgs owned ts ((msg_id, tags) ∷ msgs) =
    let (kept, calls) = fresh_msgs owned ts msgs in
    if leb (expiry tags.tags_creation_time) ts
    then (kept, (if owned then remove_created_session msg_id ∷ calls else calls))
    else ((msg_id, tags) ∷ kept, calls)

-- The answer is whether the session is worth keeping.
unfoldable pub cleanup_expired_tags :
    ℕ → GarlicRoutingSession → Bool × GarlicRoutingSession × List OwnerCall
unfolding fresh_tags fresh_msgs
cleanup_expired_tags now s =
    let tags = fresh_tags (seconds now) s.unused_tags in
    let (msgs, calls) = fresh_msgs s.has_owner (seconds now) s.unconfirmed_tags_msgs in
    (
      not (is_empty_list tags) || is_empty_list msgs,
      record s { unused_tags = tags; unconfirmed_tags_msgs = msgs },
      calls,
    )

unfoldable pub message_confirmed :
    ℕ → ℕ → GarlicRoutingSession → GarlicRoutingSession × List OwnerCall
unfolding tags_confirmed cleanup_expired_tags
message_confirmed now msg_id s =
    let s1 = tags_confirmed now msg_id s in
    if msg_id == s1.lease_set_update_msg_id
    then (record s1 { lease_set_update_status = up_to_date }, [])
    else ((cleanup_expired_tags now s1).1, (cleanup_expired_tags now s1).2)

unfoldable pub set_lease_set_updated : GarlicRoutingSession → GarlicRoutingSession
set_lease_set_updated s = record s {
  lease_set_update_status = elim s.lease_set_update_status as (λ _. LeaseSetUpdateStatus) [
    | do_not_send ↦ do_not_send
    | _ ↦ updated
  ];
}
