-- ===== src/Garlic/Payload/Pieces.antt =====
-- The payload of a garlic message is made of cloves that its reader takes apart again.
use kovri.Common.{
  ◌≢◌, ℕ, ◌+◌, ◌%◌, ◌^◌, ◌≤◌, ◌<◌, ◌≡◌, refl, sym, ap, ◌∙◌, subst, List, [], ◌∷◌, ◌++◌, Option,
  none, some, Bool, true, false, arith, length, All, All-append, htobe32buf, append-nil,
  append_assoc, Option-cases, inl, inr, length-append, if◌then◌else◌, ◌>>=◌, ◌||◌,
}
use kovri.Tunnel.Crypto.{Crypto}
use kovri.Ssu.Header.{htobe64buf}
use kovri.I2np.{generate_word, create_delivery_status_msg}
use kovri.Garlic.{GarlicRoutingSession, RoutingDestination, UnconfirmedTags, Surroundings}
use kovri.Garlic.Session.{is_empty_list, one_time_session}
use kovri.Garlic.Payload.{
  Written, nothing, behind, has_tags, is_updated, resubmit_lease_set, to_destination,
  delivery_instructions, clove_end, payload_end, create_garlic_clove, attach_lease_set,
  create_message_clove, create_status_clove_for, create_delivery_status_clove,
  attach_delivery_status, create_owner_cloves, create_garlic_payload,
}
use kovri.Garlic.Receive.Cloves.{
  Clove, to_local, to_tunnel, message_of, instructions, IsMessage, IsClove, cloves_bytes, AreCloves,
}
use kovri.Garlic.Receive.Cloves
use kovri.Garlic.Receive.Block.{payload_of}

cloves_bytes-append :
    (cs ds : List (Clove × List ℕ)) → cloves_bytes (cs ++ ds) ≡ cloves_bytes cs ++ cloves_bytes ds
cloves_bytes-append [] ds = refl
cloves_bytes-append ((cl, end) ∷ cs) ds =
    let is = instructions cl in
    let msg = message_of cl in
    let bs = cloves_bytes cs in
    let rest = cloves_bytes ds in
    ap (λ l. is ++ (msg ++ (end ++ l))) (cloves_bytes-append cs ds)
    ∙ sym (
        append_assoc is (msg ++ (end ++ bs)) rest
        ∙ ap (λ l. is ++ l)
            (append_assoc msg (end ++ bs) rest ∙ ap (λ l. msg ++ l) (append_assoc end bs rest)))

AreCloves-append :
    (cs ds : List (Clove × List ℕ)) → AreCloves cs → AreCloves ds → AreCloves (cs ++ ds)
AreCloves-append [] ds h k = k
AreCloves-append ((cl, end) ∷ cs) ds h k = (h.0, h.1, AreCloves-append cs ds h.2 k)

-- What has been written are at most so many cloves, each with the property.
pub record Pieces (P : Clove → Type 0) (most : ℕ) (dest : Option RoutingDestination)
    (made : Written) : Type 0 where
  pub cloves : List (Clove × List ℕ)
  pub sound : AreCloves cloves
  pub own : All (λ cl. P cl.0) cloves
  pub few : length cloves ≤ most
  pub aim : made.after.destination ≡ dest
  pub counted : made.count ≡ length cloves
  pub same : made.written ≡ cloves_bytes cloves

module _ (P : Clove → Type 0) where
  Pieces-nothing : (most : ℕ) (s : GarlicRoutingSession) → Pieces P most s.destination (nothing s)
  Pieces-nothing most s = record {
    cloves = [];
    sound = tt;
    own = tt;
    few = omega arith;
    aim = refl;
    counted = refl;
    same = refl;
  }

  Pieces-one :
      (cl : Clove) (end : List ℕ) (made : Written)
      → P cl
      → IsClove cl
      → length end ≡ 15
      → made.count ≡ 1
      → made.written ≡ instructions cl ++ (message_of cl ++ end)
      → Pieces P 1 made.after.destination made
  Pieces-one cl end made own h l n e = record {
    cloves = (cl, end) ∷ [];
    sound = (h, l, tt);
    own = (own, tt);
    few = omega arith;
    aim = refl;
    counted = n;
    same = e ∙ ap (λ bs. instructions cl ++ (message_of cl ++ bs)) (sym (append-nil end));
  }

  pub Pieces-behind :
      (n m : ℕ) (dest : Option RoutingDestination) (a b : Written)
      → Pieces P n dest a
      → Pieces P m dest b
      → Pieces P (n + m) dest (behind a b)
  Pieces-behind n m dest a b p q = record {
    cloves = p.cloves ++ q.cloves;
    sound = AreCloves-append p.cloves q.cloves p.sound q.sound;
    own = All-append (λ cl. P cl.0) p.cloves q.cloves p.own q.own;
    few = omega (arith, p.few, q.few, length-append p.cloves q.cloves);
    aim = q.aim;
    counted = omega (arith, p.counted, q.counted, length-append p.cloves q.cloves);
    same = rw (p.same, q.same) (sym (cloves_bytes-append p.cloves q.cloves));
  }

  Pieces-if :
      (n : ℕ) (dest : Option RoutingDestination) (b : Bool) (x y : Written)
      → Pieces P n dest x
      → Pieces P n dest y
      → Pieces P n dest (if b then x else y)
  Pieces-if n dest true x y p q = p
  Pieces-if n dest false x y p q = q

-- What has been written, unless the code faulted.
abbrev pub Makes : (Clove → Type 0) → ℕ → Option RoutingDestination → Option Written → Type 0
Makes P most dest none = Unit
Makes P most dest (some made) = Pieces P most dest made

Makes-bind :
    (P Q : Clove → Type 0) (n m : ℕ) (dest : Option RoutingDestination) (o : Option Written)
    (k : Written → Option Written)
    → Makes P n dest o
    → ((made : Written) → Pieces P n dest made → Makes Q m dest (k made))
    → Makes Q m dest (o >>= k)
Makes-bind P Q n m dest none k h step = tt
Makes-bind P Q n m dest (some made) k h step = step made h

Makes-if :
    (P : Clove → Type 0) (n : ℕ) (dest : Option RoutingDestination) (b : Bool)
    (x y : Option Written)
    → Makes P n dest x
    → Makes P n dest y
    → Makes P n dest (if b then x else y)
Makes-if P n dest true x y p q = p
Makes-if P n dest false x y p q = q

-- Where a message goes that a session wraps.
abbrev pub clove_for : Bool → Option RoutingDestination → List ℕ → Clove
clove_for true (some dest) msg = Cloves.to_destination dest.ident_hash msg
clove_for _ _ msg = to_local msg

instructions-clove_for :
    (b : Bool) (dest : Option RoutingDestination) (msg : List ℕ)
    → delivery_instructions b dest ≡ instructions (clove_for b dest msg)
unfolding delivery_instructions
instructions-clove_for true (some dest) msg = refl
instructions-clove_for true none msg = refl
instructions-clove_for false (some dest) msg = refl
instructions-clove_for false none msg = refl

message_of-clove_for :
    (b : Bool) (dest : Option RoutingDestination) (msg : List ℕ)
    → message_of (clove_for b dest msg) ≡ msg
message_of-clove_for true (some dest) msg = refl
message_of-clove_for true none msg = refl
message_of-clove_for false (some dest) msg = refl
message_of-clove_for false none msg = refl

abbrev pub IsHash : Option RoutingDestination → Type 0
IsHash none = Unit
IsHash (some dest) = length dest.ident_hash ≡ 32

clove_for-IsClove :
    (b : Bool) (dest : Option RoutingDestination) (msg : List ℕ)
    → IsHash dest
    → IsMessage msg
    → IsClove (clove_for b dest msg)
clove_for-IsClove true (some dest) msg h m = (h, m)
clove_for-IsClove true none msg h m = m
clove_for-IsClove false (some dest) msg h m = m
clove_for-IsClove false none msg h m = m

module _ (c : Crypto) (w : Surroundings) where
  pub length-clove_end : (draw : ℕ) → length (clove_end c w draw) ≡ 15
  unfolding clove_end htobe32buf htobe64buf
  length-clove_end draw = refl

  -- What the owner gives fits into a clove.
  pub record IsFit : Type 0 where
    pub lease_set_fits : IsMessage w.lease_set_msg
    pub hash_fits :
        (hash : List ℕ) (tunnel_id : ℕ)
        → w.inbound_tunnel ≡ some (hash, tunnel_id)
        → (length hash ≡ 32) × (tunnel_id < 2 ^ 32)

  pub create_message_clove-Pieces :
      (msg : List ℕ) (s : GarlicRoutingSession)
      → IsHash s.destination
      → IsMessage msg
      → Pieces
          (λ cl. cl ≡ clove_for (to_destination s.destination) s.destination msg)
          1
          s.destination
          (create_message_clove c w (some msg) s)
  unfolding create_message_clove create_garlic_clove
  create_message_clove-Pieces msg s h m =
      let b = to_destination s.destination in
      let cl = clove_for b s.destination msg in
      Pieces-one (λ other. other ≡ cl) cl (clove_end c w s.draws) _ refl
        (clove_for-IsClove b s.destination msg h m) (length-clove_end s.draws) refl
        (rw (instructions-clove_for b s.destination msg, message_of-clove_for b s.destination msg)
          refl)

  module _ (inner : List ℕ → GarlicRoutingSession → Option (Option (List ℕ))) where
    -- A delivery status for a drawn or given identifier, as `inner` wraps it in a session of its own.
    abbrev pub IsWrappedStatus : List ℕ → Type 0
    IsWrappedStatus wrapped =
        (msg_id : ℕ) × (draw : ℕ) × (draw' : ℕ) × (key : List ℕ) × (tag : List ℕ) × (inner
            (create_delivery_status_msg c w.now draw msg_id)
            (one_time_session 0 w.now draw' key tag)
          ≡ some (some wrapped))

    -- The cloves that the owner adds: a wrapped delivery status by its inbound tunnel, or its lease
    -- set.
    abbrev pub IsOwn : Clove → Type 0
    IsOwn (to_local msg) = msg ≡ w.lease_set_msg
    IsOwn (to_tunnel hash tunnel_id msg) =
        (w.inbound_tunnel ≡ some (hash, tunnel_id)) × IsWrappedStatus msg
    IsOwn (Cloves.to_destination hash msg) = hash ≢ hash

    attach_lease_set-Pieces :
        (msg_id : ℕ) (s : GarlicRoutingSession)
        → IsFit
        → Pieces IsOwn 1 s.destination (attach_lease_set c w msg_id s)
    unfolding attach_lease_set create_garlic_clove delivery_instructions
    attach_lease_set-Pieces msg_id s f =
        Pieces-if IsOwn 1 s.destination (is_updated s.lease_set_update_status) _ (nothing s)
          (Pieces-one IsOwn (to_local w.lease_set_msg) (clove_end c w s.draws) _ refl
            f.lease_set_fits (length-clove_end s.draws) refl refl)
          (Pieces-nothing IsOwn 1 s)

    -- A payload: the owner's cloves, the clove of the message, and what the reader does not look at.
    pub record IsPayload (msg : List ℕ) (dest : Option RoutingDestination) (written : List ℕ)
        : Type 0 where
      pub owned : List (Clove × List ℕ)
      pub last : List (Clove × List ℕ)
      pub tail : List ℕ
      pub are_cloves : AreCloves (owned ++ last)
      pub are_own : All (λ cl. IsOwn cl.0) owned
      pub is_last : All (λ cl. cl.0 ≡ clove_for (to_destination dest) dest msg) last
      pub one : length last ≡ 1
      pub bytes_same : written ≡ payload_of (owned ++ last) tail

    abbrev pub MakesPayload : List ℕ → Option RoutingDestination → Option Written → Type 0
    MakesPayload msg dest none = Unit
    MakesPayload msg dest (some made) = IsPayload msg dest made.written

    MakesPayload-bind :
        (msg : List ℕ) (dest : Option RoutingDestination) (o : Option Written)
        (k : Written → Option Written)
        → Makes IsOwn 2 dest o
        → ((made : Written) → Pieces IsOwn 2 dest made → MakesPayload msg dest (k made))
        → MakesPayload msg dest (o >>= k)
    MakesPayload-bind msg dest none k h step = tt
    MakesPayload-bind msg dest (some made) k h step = step made h

    -- The owner's cloves and that of the message make a payload.
    IsPayload-behind :
        (msg tail : List ℕ) (dest : Option RoutingDestination) (a b : Written)
        → Pieces IsOwn 2 dest a
        → Pieces (λ cl. cl ≡ clove_for (to_destination dest) dest msg) 1 dest b
        → b.count ≡ 1
        → IsPayload msg dest ((behind a b).count % 256 ∷ ((behind a b).written ++ tail))
    IsPayload-behind msg tail dest a b p q n = record {
      owned = p.cloves;
      last = q.cloves;
      tail = tail;
      are_cloves = AreCloves-append p.cloves q.cloves p.sound q.sound;
      are_own = p.own;
      is_last = q.own;
      one = omega (arith, q.counted, n);
      bytes_same =
          let all : (a.count + b.count) % 256 ≡ length (p.cloves ++ q.cloves) =
            omega (arith, p.counted, q.counted, p.few, q.few, length-append p.cloves q.cloves) in
          rw (all, p.same, q.same)
            (ap (λ l. length (p.cloves ++ q.cloves) ∷ (l ++ tail))
              (sym (cloves_bytes-append p.cloves q.cloves)));
    }

    -- What the inner session makes of a delivery status fits into a clove too.
    abbrev pub IsFitInner : Type 0
    IsFitInner =
        (msg_id draw draw' : ℕ) (key tag wrapped : List ℕ)
        → length tag ≡ 32
        → inner (create_delivery_status_msg c w.now draw msg_id)
            (one_time_session 0 w.now draw' key tag)
          ≡ some (some wrapped)
        → IsMessage wrapped

    create_status_clove_for-Makes :
        (msg_id : ℕ) (s : GarlicRoutingSession) (tunnel : Option (List ℕ × ℕ))
        → w.inbound_tunnel ≡ tunnel
        → IsFit
        → IsFitInner
        → Makes IsOwn 1 s.destination (create_status_clove_for c w inner msg_id s tunnel)
    unfolding create_status_clove_for
    create_status_clove_for-Makes msg_id s none q f fi = Pieces-nothing IsOwn 1 s
    create_status_clove_for-Makes msg_id s (some (hash, tunnel_id)) q f fi =
        let key = c.generate_block s.draws 32 in
        let tag = c.generate_block (s.draws + 1) 32 in
        let msg = create_delivery_status_msg c w.now (s.draws + 2) msg_id in
        let garlic = one_time_session 0 w.now (s.draws + 4) key tag in
        let end = clove_end c w (s.draws + 7) in
        let (hash_fits, id_fits) = f.hash_fits hash tunnel_id q in
        elim (Option-cases (inner msg garlic)) [
          | inl r ↦ rw (Makes, create_status_clove_for, r) tt
          | inr (none, r) ↦ rw (Makes, create_status_clove_for, r) tt
          | inr (some wrapped, r) ↦
              rw (Makes, create_status_clove_for, r)
                (Pieces-one IsOwn (to_tunnel hash tunnel_id wrapped) end _
                  (q, (msg_id, s.draws + 2, s.draws + 4, key, tag, r))
                  (
                    hash_fits,
                    id_fits,
                    fi msg_id (s.draws + 2) (s.draws + 4) key tag wrapped
                        (c.length-generate_block (s.draws + 1) 32) r,
                  )
                  (length-clove_end (s.draws + 7)) refl
                  (ap (λ l. 96 ∷ l)
                    (sym (append_assoc hash (htobe32buf tunnel_id) (wrapped ++ end)))))
        ]

    attach_delivery_status-Makes :
        (msg_id : ℕ) (new_tags : Option UnconfirmedTags) (s : GarlicRoutingSession)
        → IsFit
        → IsFitInner
        → Makes IsOwn 1 s.destination (attach_delivery_status c w inner msg_id new_tags s)
    unfolding attach_delivery_status create_delivery_status_clove
    attach_delivery_status-Makes msg_id new_tags s f fi =
        Makes-bind IsOwn IsOwn 1 1 s.destination (create_delivery_status_clove c w inner msg_id s) _
          (create_status_clove_for-Makes msg_id s w.inbound_tunnel refl f fi)
          (λ made p. Pieces-if IsOwn 1 s.destination (is_empty_list made.written) made _ p record {
            cloves = p.cloves;
            sound = p.sound;
            own = p.own;
            few = p.few;
            aim = p.aim;
            counted = p.counted;
            same = p.same;
          })

    create_owner_cloves-Makes :
        (msg_id : ℕ) (new_tags : Option UnconfirmedTags) (s : GarlicRoutingSession)
        → IsFit
        → IsFitInner
        → Makes IsOwn 2 s.destination (create_owner_cloves c w inner msg_id new_tags s)
    unfolding create_owner_cloves resubmit_lease_set
    create_owner_cloves-Makes msg_id new_tags s f fi =
        let s1 = resubmit_lease_set w.now s in
        let attached = has_tags new_tags || is_updated s1.lease_set_update_status in
        Makes-bind IsOwn IsOwn 1 2 s.destination _ _
          (Makes-if IsOwn 1 s.destination attached
            (attach_delivery_status c w inner msg_id new_tags s1) (some (nothing s1))
            (attach_delivery_status-Makes msg_id new_tags s1 f fi) (Pieces-nothing IsOwn 1 s1))
          (λ first p. Pieces-behind IsOwn 1 1 s.destination first _ p (
            subst (λ dest. Pieces IsOwn 1 dest (attach_lease_set c w msg_id first.after)) p.aim
              (attach_lease_set-Pieces msg_id first.after f)))

    pub create_garlic_payload-MakesPayload :
        (msg : List ℕ) (new_tags : Option UnconfirmedTags) (s : GarlicRoutingSession)
        → IsFit
        → IsFitInner
        → IsHash s.destination
        → IsMessage msg
        → MakesPayload msg s.destination (create_garlic_payload c w inner (some msg) new_tags s)
    unfolding create_garlic_payload
    create_garlic_payload-MakesPayload msg new_tags s f fi h m =
        let msg_id = generate_word c s.draws in
        let s0 : GarlicRoutingSession = record s { draws = s.draws + 1 } in
        MakesPayload-bind msg s.destination _ _
          (Makes-if IsOwn 2 s.destination s.has_owner
            (create_owner_cloves c w inner msg_id new_tags s0) (some (nothing s0))
            (create_owner_cloves-Makes msg_id new_tags s0 f fi) (Pieces-nothing IsOwn 2 s0))
          (λ owned p.
            let clove = create_message_clove c w (some msg) owned.after in
            let made = create_message_clove-Pieces msg owned.after (subst IsHash (sym p.aim) h) m in
            let aimed =
              subst
                (λ dest. Pieces (λ cl. cl ≡ clove_for (to_destination dest) dest msg) 1 dest clove)
                p.aim made in
            IsPayload-behind msg (payload_end c w msg_id) s.destination owned clove p aimed refl)
