-- ===== src/Garlic/Payload.antt =====
-- The cloves and the payload of a garlic message: `CreateGarlicClove`, `CreateDeliveryStatusClove`
-- and `CreateGarlicPayload` of core/Garlic.cpp. The message for a delivery status is itself wrapped,
-- by a session of its own, which is the argument `inner`.
pub mod Pieces
use kovri.Common.{
  ℕ, zero, suc, ◌+◌, ◌-◌, ◌*◌, ◌/◌, ◌%◌, ◌^◌, List, [], ◌∷◌, ◌++◌, Option, none, some, Bool, true,
  false, if◌then◌else◌, ltb, leb, ◌==◌, ◌&&◌, ◌||◌, not, insert, length, guard, ◌>>◌, ◌>>=◌,
  htobe16buf, htobe32buf, take, Dict,
}
use kovri.Tunnel.Crypto.{Crypto}
use kovri.Ssu.Header.{htobe64buf}
use kovri.I2np.{
  i2np_garlic, i2np_buffer_size, generate_word, fill_i2np_message_header,
  create_delivery_status_msg,
}
use kovri.Garlic.{
  SessionTag, UnconfirmedTags, LeaseSetUpdateStatus, updated, submitted, GarlicRoutingSession,
  RoutingDestination, OwnerCall, delivery_status_sent, submit_session_key, Surroundings, Ciphers,
  garlic_delivery_type_destination, garlic_delivery_type_tunnel, leaset_confirmation_timeout,
}
use kovri.Garlic.Session.{seconds, expiry, is_empty_list, generate_session_tags, one_time_session}

unfoldable pub tag_bytes : List SessionTag → List ℕ
tag_bytes [] = []
tag_bytes (t ∷ tags) = t.tag ++ tag_bytes tags

abbrev pub padding_zeros : ℕ → List ℕ
padding_zeros zero = []
padding_zeros (suc n) = 0 ∷ padding_zeros n

-- The padding_zeros up to a multiple of 16.
abbrev pub padding_size : ℕ → ℕ
padding_size size = (16 - size % 16) % 16

abbrev pub is_updated : LeaseSetUpdateStatus → Bool
is_updated updated = true
is_updated _ = false

abbrev pub is_submitted : LeaseSetUpdateStatus → Bool
is_submitted submitted = true
is_submitted _ = false

-- What has been written: cloves with their number (a payload or a block counts as one), the session
-- after it, and its calls on its owner.
pub record Written : Type 0 where
  pub count : ℕ
  pub written : List ℕ
  pub after : GarlicRoutingSession
  pub calls : List OwnerCall

abbrev pub nothing : GarlicRoutingSession → Written
nothing s = record { count = 0; written = []; after = s; calls = [] }

unfoldable pub keep_unconfirmed :
    ℕ → Option UnconfirmedTags → Dict UnconfirmedTags → Dict UnconfirmedTags
keep_unconfirmed msg_id none msgs = msgs
keep_unconfirmed msg_id (some tags) msgs = insert msg_id tags msgs

-- A lease set that nobody confirmed in time is sent again.
unfoldable pub resubmit_lease_set : ℕ → GarlicRoutingSession → GarlicRoutingSession
resubmit_lease_set now s =
    let overdue =
      is_submitted s.lease_set_update_status
      && ltb ((s.lease_set_submission_time + leaset_confirmation_timeout) % 2 ^ 64) now in
    record s { lease_set_update_status = if overdue then updated else s.lease_set_update_status }

abbrev pub has_tags : Option UnconfirmedTags → Bool
has_tags none = false
has_tags (some tags) = true

-- One piece of the payload behind another.
abbrev pub behind : Written → Written → Written
behind a b = record {
  count = a.count + b.count;
  written = a.written ++ b.written;
  after = b.after;
  calls = a.calls ++ b.calls;
}

abbrev pub to_destination : Option RoutingDestination → Bool
to_destination none = false
to_destination (some dest) = dest.is_destination

abbrev pub tags_of : Option UnconfirmedTags → List SessionTag
tags_of none = []
tags_of (some tags) = tags.session_tags

unfoldable pub delivery_instructions : Bool → Option RoutingDestination → List ℕ
delivery_instructions true (some dest) = garlic_delivery_type_destination * 32 ∷ dest.ident_hash
delivery_instructions _ _ = 0 ∷ []

module _ (c : Crypto) (w : Surroundings) where
  -- What ends a clove: its identifier, expiration and certificate.
  unfoldable pub clove_end : ℕ → List ℕ
  unfolding htobe64buf
  clove_end draw =
      htobe32buf (generate_word c draw)
      ++ (htobe64buf ((w.now + 5000) % 2 ^ 64) ++ (0 ∷ 0 ∷ 0 ∷ []))

  unfoldable pub create_garlic_clove : List ℕ → Bool → GarlicRoutingSession → Written
  unfolding clove_end delivery_instructions
  create_garlic_clove msg is_destination s = record {
    count = 1;
    written = delivery_instructions is_destination s.destination ++ (msg ++ clove_end s.draws);
    after = record s { draws = s.draws + 1 };
    calls = [];
  }

  -- The clove of the lease set, and that it waits for a confirmation from now on.
  unfoldable pub attach_lease_set : ℕ → GarlicRoutingSession → Written
  unfolding create_garlic_clove
  attach_lease_set msg_id s =
      if is_updated s.lease_set_update_status
      then create_garlic_clove w.lease_set_msg false (record s {
        lease_set_update_status = submitted;
        lease_set_update_msg_id = msg_id;
        lease_set_submission_time = w.now;
      })
      else nothing s

  -- The clove of the message itself, if there is one.
  unfoldable pub create_message_clove : Option (List ℕ) → GarlicRoutingSession → Written
  unfolding create_garlic_clove
  create_message_clove none s = nothing s
  create_message_clove (some msg) s = create_garlic_clove msg (to_destination s.destination) s

  unfoldable pub payload_end : ℕ → List ℕ
  unfolding htobe64buf
  payload_end msg_id = 0 ∷ 0 ∷ 0 ∷ (htobe32buf msg_id ++ htobe64buf ((w.now + 5000) % 2 ^ 64))

  module _ (inner : List ℕ → GarlicRoutingSession → Option (Option (List ℕ))) where
    -- The tunnel is the one that the pool chooses, if there is one. `none` is a fault: `inner` made
    -- no message, and its null pointer is followed.
    unfoldable pub create_status_clove_for :
        ℕ → GarlicRoutingSession → Option (List ℕ × ℕ) → Option Written
    unfolding clove_end create_delivery_status_msg
    create_status_clove_for msg_id s none = some (nothing s)
    create_status_clove_for msg_id s (some (to_hash, tunnel_id)) =
        let key = c.generate_block s.draws 32 in
        let tag = c.generate_block (s.draws + 1) 32 in
        let msg = create_delivery_status_msg c w.now (s.draws + 2) msg_id in
        let garlic = one_time_session 0 w.now (s.draws + 4) key tag in
        elim (inner msg garlic) as (λ _. Option Written) [
          | none ↦ none
          | some none ↦ none
          | some (some wrapped) ↦ some record {
            count = 1;
            written =
                garlic_delivery_type_tunnel * 32
                ∷ (to_hash ++ (htobe32buf tunnel_id ++ (wrapped ++ clove_end (s.draws + 7))));
            after = record s { draws = s.draws + 8 };
            calls = submit_session_key key tag ∷ [];
          }
        ]

    unfoldable pub create_delivery_status_clove : ℕ → GarlicRoutingSession → Option Written
    unfolding create_status_clove_for
    create_delivery_status_clove msg_id s = create_status_clove_for msg_id s w.inbound_tunnel

    -- The clove of the delivery status, with the new tags under the identifier that it reports.
    unfoldable pub attach_delivery_status :
        ℕ → Option UnconfirmedTags → GarlicRoutingSession → Option Written
    unfolding create_delivery_status_clove keep_unconfirmed
    attach_delivery_status msg_id new_tags s = create_delivery_status_clove msg_id s >>= λ made.
        let s' = made.after in
        some (
          if is_empty_list made.written then made else (record made {
            after = record s' {
              unconfirmed_tags_msgs = keep_unconfirmed msg_id new_tags s'.unconfirmed_tags_msgs;
            };
            calls = made.calls ++ (delivery_status_sent msg_id ∷ []);
          }))

    -- The cloves for the owner.
    unfoldable pub create_owner_cloves :
        ℕ → Option UnconfirmedTags → GarlicRoutingSession → Option Written
    unfolding attach_delivery_status attach_lease_set resubmit_lease_set
    create_owner_cloves msg_id new_tags s =
        let s1 = resubmit_lease_set w.now s in
        let attached = has_tags new_tags || is_updated s1.lease_set_update_status in
        (if attached then attach_delivery_status msg_id new_tags s1 else some (nothing s1))
        >>= λ first. some (behind first (attach_lease_set msg_id first.after))

    unfoldable pub create_garlic_payload :
        Option (List ℕ) → Option UnconfirmedTags → GarlicRoutingSession → Option Written
    unfolding create_owner_cloves create_message_clove payload_end
    create_garlic_payload msg new_tags s =
        let msg_id = generate_word c s.draws in
        let s0 : GarlicRoutingSession = record s { draws = s.draws + 1 } in
        (if s0.has_owner then create_owner_cloves msg_id new_tags s0 else some (nothing s0))
        >>= λ owned.
            let all = behind owned (create_message_clove msg owned.after) in
            some (record all { written = all.count % 256 ∷ (all.written ++ payload_end msg_id) })
