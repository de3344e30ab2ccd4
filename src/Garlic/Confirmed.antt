-- ===== src/Garlic/Confirmed.antt =====
-- The tags that a session uses after a confirmation: `MessageConfirmed` and `WrapSingleMessage` of
-- core/Garlic.cpp, and the receiver of the tags.
use kovri.Common.{
  ℕ, ◌<◌, ◌≡◌, refl, sym, ap, ◌∙◌, subst, List, [], ◌∷◌, ◌++◌, none, some, Bool, true, false, arith,
  All, All-append, if◌then◌else◌, ltb, leb, ◌==◌, lookup, length, Bool-cases, inl, inr, ◌⊎◌, lt→ltb,
}
use kovri.Tunnel.Crypto.{Crypto}
use kovri.Tunnel.Endpoint.{same_bytes}
use kovri.Garlic.{SessionTag, UnconfirmedTags, GarlicRoutingSession, Surroundings, Ciphers}
use kovri.Garlic.Session.{
  seconds, expiry, tags_confirmed, fresh_tags, cleanup_expired_tags, message_confirmed,
}
use kovri.Garlic.Wrap.{find_tag, found_tag}
use kovri.Garlic.Destination.{IncomingTag, find_key, set_key}
use kovri.Garlic.Receive.Block.{set_keys, same_bytes_refl}
use kovri.Garlic.Tags.{same_bytes_eq}

module _ (tag : List ℕ) where
  find_key-set_key :
      (other : List ℕ) (ts : ℕ) (key : List ℕ) (tags : List IncomingTag)
      → find_key tag (set_key other ts key tags)
        ≡ (if same_bytes other tag then some key else find_key tag tags)
  unfolding find_key set_key
  find_key-set_key other ts key [] = refl
  find_key-set_key other ts key (t ∷ tags) = elim (Bool-cases (same_bytes t.tag other)) [
    | inl h ↦
        let e = ap (λ b. same_bytes b tag) (same_bytes_eq t.tag other h) in
        elim (Bool-cases (same_bytes other tag)) [
          | inl k ↦ rw (h, e, k) refl
          | inr k ↦ rw (h, e, k) refl
        ]
    | inr h ↦ elim (Bool-cases (same_bytes t.tag tag)) [
      | inl k ↦ elim (Bool-cases (same_bytes other tag)) [
        | inl o ↦
            let e = same_bytes_eq t.tag tag k ∙ sym (same_bytes_eq other tag o) in
            let same : same_bytes t.tag other ≡ true =
              ap (λ b. same_bytes b other) e ∙ same_bytes_refl other in
            absurd (ground (arith, same, h))
        | inr o ↦ rw (h, k, o) refl
      ]
      | inr k ↦ rw (h, k) (find_key-set_key other ts key tags)
    ]
  ]

-- The receiver has the key for a tag.
abbrev pub IsKnown : List ℕ → List IncomingTag → SessionTag → Type 0
IsKnown key tags t = find_key t.tag tags ≡ some key

IsKnown-set_key :
    (other : List ℕ) (ts : ℕ) (key : List ℕ) (tags : List IncomingTag) (t : SessionTag)
    → IsKnown key tags t
    → IsKnown key (set_key other ts key tags) t
IsKnown-set_key other ts key tags t h =
    find_key-set_key t.tag other ts key tags
    ∙ elim (same_bytes other t.tag)
        as (λ b. (if b then some key else find_key t.tag tags) ≡ some key) [
          | true ↦ refl
          | false ↦ h
        ]

IsKnown-set_keys :
    (ts : ℕ) (key : List ℕ) (new_tags : List SessionTag) (tags : List IncomingTag) (t : SessionTag)
    → IsKnown key tags t
    → IsKnown key (set_keys ts key new_tags tags) t
IsKnown-set_keys ts key [] tags t h = h
IsKnown-set_keys ts key (other ∷ new_tags) tags t h =
    IsKnown-set_keys ts key new_tags (set_key other.tag ts key tags) t
      (IsKnown-set_key other.tag ts key tags t h)

All-IsKnown-set_keys :
    (ts : ℕ) (key : List ℕ) (new_tags : List SessionTag) (tags : List IncomingTag)
    (old : List SessionTag)
    → All (IsKnown key tags) old
    → All (IsKnown key (set_keys ts key new_tags tags)) old
All-IsKnown-set_keys ts key new_tags tags [] h = tt
All-IsKnown-set_keys ts key new_tags tags (t ∷ old) h =
    (IsKnown-set_keys ts key new_tags tags t h.0, All-IsKnown-set_keys ts key new_tags tags old h.1)

set_keys-IsKnown :
    (ts : ℕ) (key : List ℕ) (new_tags : List SessionTag) (tags : List IncomingTag)
    → All (IsKnown key (set_keys ts key new_tags tags)) new_tags
set_keys-IsKnown ts key [] tags = tt
set_keys-IsKnown ts key (t ∷ new_tags) tags =
    let first : IsKnown key (set_key t.tag ts key tags) t =
      find_key-set_key t.tag t.tag ts key tags ∙ rw (same_bytes_refl t.tag) refl in
    (
      IsKnown-set_keys ts key new_tags (set_key t.tag ts key tags) t first,
      set_keys-IsKnown ts key new_tags (set_key t.tag ts key tags),
    )

-- One of the tags is of that kind.
abbrev Has : (SessionTag → Type 0) → List SessionTag → Type 0
Has Q [] = ⊥
Has Q (t ∷ tags) = Q t ⊎ Has Q tags

Has-append : (Q : SessionTag → Type 0) (old new : List SessionTag) → Has Q new → Has Q (old ++ new)
Has-append Q [] new h = h
Has-append Q (t ∷ old) new h = inr (Has-append Q old new h)

-- A tag that has not expired at either time.
abbrev Lasts : ℕ → ℕ → SessionTag → Type 0
Lasts ts ts' t = (ts < expiry t.creation_time) × (ts' < expiry t.creation_time)

Has-created :
    (ts ts' created : ℕ) (tags : List SessionTag)
    → All (λ t. t.creation_time ≡ created) tags
    → 0 < length tags
    → ts < expiry created
    → ts' < expiry created
    → Has (Lasts ts ts') tags
Has-created ts ts' created [] h n k l = absurd (omega (arith, n))
Has-created ts ts' created (t ∷ tags) h n k l =
    inl (subst (λ x. (ts < expiry x) × (ts' < expiry x)) (sym h.0) (k, l))

-- The tag that the search finds is of the kind of all of them.
find_tag-All :
    (P : SessionTag → Type 0) (ts ts' : ℕ) (tags : List SessionTag)
    → All P tags
    → Has (Lasts ts ts') tags
    → (t : SessionTag) × ((find_tag ts' tags).0 ≡ some t) × P t
unfolding find_tag
find_tag-All P ts ts' [] a h = absurd h
find_tag-All P ts ts' (t ∷ tags) a h = elim (Bool-cases (ltb ts' (expiry t.creation_time))) [
  | inl e ↦ (t, rw e refl, a.0)
  | inr e ↦ elim h [
    | inl k ↦ absurd (ground (arith, k, e))
    | inr k ↦ let (u, q, p) = find_tag-All P ts ts' tags a.1 k in (u, rw e q, p)
  ]
]

All-fresh_tags :
    (P : SessionTag → Type 0) (ts : ℕ) (tags : List SessionTag)
    → All P tags
    → All P (fresh_tags ts tags)
unfolding fresh_tags
All-fresh_tags P ts [] a = tt
All-fresh_tags P ts (t ∷ tags) a = elim (Bool-cases (leb (expiry t.creation_time) ts)) [
  | inl e ↦ rw e (All-fresh_tags P ts tags a.1)
  | inr e ↦ rw e (a.0, All-fresh_tags P ts tags a.1)
]

Has-fresh_tags :
    (ts ts' : ℕ) (tags : List SessionTag)
    → Has (Lasts ts ts') tags
    → Has (Lasts ts ts') (fresh_tags ts tags)
unfolding fresh_tags
Has-fresh_tags ts ts' [] h = h
Has-fresh_tags ts ts' (t ∷ tags) h = elim (Bool-cases (leb (expiry t.creation_time) ts)) [
  | inl e ↦ elim h [
    | inl k ↦ absurd (ground (arith, k, e))
    | inr k ↦ rw e (Has-fresh_tags ts ts' tags k)
  ]
  | inr e ↦ elim h [ inl k ↦ rw e (inl k) | inr k ↦ rw e (inr (Has-fresh_tags ts ts' tags k)) ]
]

-- The session has tags for the next message, all of that kind.
record IsReady (P : SessionTag → Type 0) (ts ts' n : ℕ) (s : GarlicRoutingSession) : Type 0 where
  sound : All P s.unused_tags
  lasting : Has (Lasts ts ts') s.unused_tags
  enabled : s.num_tags ≡ n

IsReady-if :
    {P : SessionTag → Type 0} {ts ts' n : ℕ} {A : Type 0} (b : Bool)
    (x y : GarlicRoutingSession × A)
    → IsReady P ts ts' n x.0
    → IsReady P ts ts' n y.0
    → IsReady P ts ts' n (if b then x else y).0
IsReady-if true x y h k = h
IsReady-if false x y h k = k

tags_confirmed-IsReady :
    (P : SessionTag → Type 0) (now ts' msg_id : ℕ) (s : GarlicRoutingSession)
    (sent : UnconfirmedTags)
    → lookup msg_id s.unconfirmed_tags_msgs ≡ some sent
    → seconds now < expiry sent.tags_creation_time
    → All P s.unused_tags
    → All P sent.session_tags
    → Has (Lasts (seconds now) ts') sent.session_tags
    → IsReady P (seconds now) ts' s.num_tags (tags_confirmed now msg_id s)
unfolding tags_confirmed
tags_confirmed-IsReady P now ts' msg_id s sent found early old new has =
    let fresh : ltb (seconds now) (expiry sent.tags_creation_time) ≡ true = lt→ltb _ _ early in
    rw (tags_confirmed, found, fresh)
      record {
        sound = All-append P s.unused_tags sent.session_tags old new;
        lasting = Has-append (Lasts (seconds now) ts') s.unused_tags sent.session_tags has;
        enabled = refl;
      }

message_confirmed-IsReady :
    (P : SessionTag → Type 0) (now ts' n msg_id : ℕ) (s : GarlicRoutingSession)
    → IsReady P (seconds now) ts' n (tags_confirmed now msg_id s)
    → IsReady P (seconds now) ts' n (message_confirmed now msg_id s).0
unfolding message_confirmed cleanup_expired_tags
message_confirmed-IsReady P now ts' n msg_id s r =
    IsReady-if (msg_id == (tags_confirmed now msg_id s).lease_set_update_msg_id) _ _
      (record { sound = r.sound; lasting = r.lasting; enabled = r.enabled })
      (record {
        sound = All-fresh_tags P (seconds now) _ r.sound;
        lasting = Has-fresh_tags (seconds now) ts' _ r.lasting;
        enabled = r.enabled;
      })

-- A session uses tags, and the receiver has its key for all of the unused ones. Tags that were made at
-- one time, at least one, are sent with a message, and the receiver gets them. The confirmation comes
-- before they expire. Then, as long as they have not expired, the session finds a tag for its next
-- message, and the receiver has its key for that.
pub message_confirmed-found_tag :
    (c : Crypto) (e : Ciphers) (w : Surroundings) (now ts msg_id : ℕ) (s : GarlicRoutingSession)
    (sent : UnconfirmedTags) (tags : List IncomingTag)
    → All (IsKnown s.session_key tags) s.unused_tags
    → lookup msg_id s.unconfirmed_tags_msgs ≡ some sent
    → All (λ t. t.creation_time ≡ sent.tags_creation_time) sent.session_tags
    → 0 < length sent.session_tags
    → 0 < s.num_tags
    → seconds now < expiry sent.tags_creation_time
    → seconds w.now < expiry sent.tags_creation_time
    → (t : SessionTag) × ((found_tag c e w (message_confirmed now msg_id s).0).0 ≡ some t)
      × (find_key t.tag (set_keys ts s.session_key sent.session_tags tags) ≡ some s.session_key)
message_confirmed-found_tag c e w now ts msg_id s sent tags h found made some_tag uses early late =
    let key = s.session_key in
    let P = IsKnown key (set_keys ts key sent.session_tags tags) in
    let ready = message_confirmed-IsReady P now (seconds w.now) s.num_tags msg_id s (
      tags_confirmed-IsReady P now (seconds w.now) msg_id s sent found early
        (All-IsKnown-set_keys ts key sent.session_tags tags s.unused_tags h)
        (set_keys-IsKnown ts key sent.session_tags tags)
        (Has-created (seconds now) (seconds w.now) sent.tags_creation_time sent.session_tags made
          some_tag early late)) in
    let s' = (message_confirmed now msg_id s).0 in
    let (t, q, p) =
      find_tag-All P (seconds now) (seconds w.now) s'.unused_tags ready.sound ready.lasting in
    let used : (s'.num_tags == 0) ≡ false = ground (arith, ready.enabled, uses) in
    (
      t,
      ap
            (λ (b : Bool).
              (if b then (none, s'.unused_tags) else find_tag (seconds w.now) s'.unused_tags).0)
            used
          ∙ q,
      p,
    )
