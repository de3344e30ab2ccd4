-- ===== src/Garlic/Cleanup.antt =====
-- The sessions that `CleanupRoutingSessions` of core/Garlic.cpp deletes.
use kovri.Common.{
  ℕ, ◌≤◌, ◌<◌, ◌≡◌, ◌≢◌, refl, ap, sym, ◌∙◌, subst, List, [], ◌∷◌, ◌++◌, some, Bool, true, false,
  arith, All, if◌then◌else◌, leb, ◌⊎◌, inl, inr, lookup, insert, Dict, lookup-insert, Bool-cases,
  Option-cases,
}
use kovri.Garlic.{
  SessionTag, UnconfirmedTags, GarlicRoutingSession, OwnerCall, remove_created_session,
  delivery_status_sent, submit_session_key,
}
use kovri.Garlic.Session.{
  seconds, expiry, is_empty_list, fresh_tags, fresh_msgs, cleanup_expired_tags,
}
use kovri.Garlic.Destination.{
  GarlicDestination, owner_call, owner_calls, add_session_key, with_session, cleaned, is_kept,
  cleanup_sessions, cleanup_routing_sessions,
}

-- A message still waits for its confirmation.
abbrev pub Waits : ℕ → Dict UnconfirmedTags → Type 0
Waits ts [] = ⊥
Waits ts ((msg_id, tags) ∷ msgs) = (ts < expiry tags.tags_creation_time) ⊎ Waits ts msgs

abbrev pub HaveExpired : ℕ → List SessionTag → Type 0
HaveExpired ts = All (λ t. expiry t.creation_time ≤ ts)

fresh_tags-none : (ts : ℕ) (tags : List SessionTag) → HaveExpired ts tags → fresh_tags ts tags ≡ []
unfolding fresh_tags
fresh_tags-none ts [] h = refl
fresh_tags-none ts (t ∷ tags) h = ground (arith, h, fresh_tags-none ts tags h.1)

fresh_msgs-Waits :
    (owned : Bool) (ts : ℕ) (msgs : Dict UnconfirmedTags)
    → Waits ts msgs
    → is_empty_list (fresh_msgs owned ts msgs).0 ≡ false
unfolding fresh_msgs
fresh_msgs-Waits owned ts [] h = absurd h
fresh_msgs-Waits owned ts ((msg_id, tags) ∷ msgs) h =
    elim (Bool-cases (leb (expiry tags.tags_creation_time) ts)) [
      | inl k ↦ rw k (elim h [
        | inl early ↦ absurd (ground (arith, k, early))
        | inr later ↦ fresh_msgs-Waits owned ts msgs later
      ])
      | inr k ↦ rw k refl
    ]

-- A session without a tag that has not expired, in which a message still waits, is not kept.
cleanup_expired_tags-Waits :
    (now : ℕ) (s : GarlicRoutingSession)
    → HaveExpired (seconds now) s.unused_tags
    → Waits (seconds now) s.unconfirmed_tags_msgs
    → (cleanup_expired_tags now s).0 ≡ false
unfolding cleanup_expired_tags
cleanup_expired_tags-Waits now s h w =
    let tags = fresh_tags-none (seconds now) s.unused_tags h in
    let msgs = fresh_msgs-Waits s.has_owner (seconds now) s.unconfirmed_tags_msgs w in
    rw (tags, msgs) refl

store-owner_call :
    (now p : ℕ) (call : OwnerCall) (d : GarlicDestination)
    → (owner_call now p call d).store ≡ d.store
unfolding owner_call add_session_key
store-owner_call now p (remove_created_session msg_id) d = refl
store-owner_call now p (delivery_status_sent msg_id) d = refl
store-owner_call now p (submit_session_key key tag) d = refl

store-owner_calls :
    (now p : ℕ) (calls : List OwnerCall) (d : GarlicDestination)
    → (owner_calls now p calls d).store ≡ d.store
unfolding owner_calls
store-owner_calls now p [] d = refl
store-owner_calls now p (call ∷ calls) d =
    store-owner_calls now p calls (owner_call now p call d) ∙ store-owner_call now p call d

-- The cleanup of one session leaves the others.
lookup-with_session :
    (now p q : ℕ) (d : GarlicDestination)
    → q ≢ p
    → lookup p (with_session now q (cleaned now) d).store ≡ lookup p d.store
lookup-with_session now p q d h = elim (Option-cases (lookup q d.store)) [
  | inl e ↦ rw (with_session, e) refl
  | inr (s, e) ↦
      let (s', calls) = cleaned now s in
      let d' : GarlicDestination = record d { store = insert q s' d.store } in
      let same : lookup p (insert q s' d.store) ≡ lookup p d.store =
        ground (arith, lookup-insert q p s' d.store, h) in
      rw (with_session, e) (ap (lookup p) (store-owner_calls now q calls d') ∙ same)
]

abbrev Others : ℕ → List (List ℕ × ℕ) → Type 0
Others p = All (λ session. session.1 ≢ p)

Others-if :
    (b : Bool) (p : ℕ) (session : List ℕ × ℕ) (rest : List (List ℕ × ℕ))
    → session.1 ≢ p
    → Others p rest
    → Others p (if b then session ∷ rest else rest)
Others-if true p session rest h k = (h, k)
Others-if false p session rest h k = k

cleanup_sessions-Others :
    (now p : ℕ) (sessions : List (List ℕ × ℕ)) (d : GarlicDestination)
    → Others p sessions
    → Others p (cleanup_sessions now sessions d).0
unfolding cleanup_sessions
cleanup_sessions-Others now p [] d h = tt
cleanup_sessions-Others now p ((ident, q) ∷ sessions) d h =
    Others-if (is_kept now q d) p (ident, q) _ h.0
      (cleanup_sessions-Others now p sessions (with_session now q (cleaned now) d) h.1)

cleanup_sessions-deletes :
    (now p : ℕ) (ident : List ℕ) (before behind : List (List ℕ × ℕ)) (s : GarlicRoutingSession)
    (d : GarlicDestination)
    → Others p before
    → Others p behind
    → lookup p d.store ≡ some s
    → (cleanup_expired_tags now s).0 ≡ false
    → Others p (cleanup_sessions now (before ++ ((ident, p) ∷ behind)) d).0
unfolding cleanup_sessions
cleanup_sessions-deletes now p ident [] behind s d h k e f =
    let deleted : is_kept now p d ≡ false = rw (is_kept, e, f) refl in
    rw deleted (cleanup_sessions-Others now p behind (with_session now p (cleaned now) d) k)
cleanup_sessions-deletes now p ident ((i, q) ∷ before) behind s d h k e f =
    Others-if (is_kept now q d) p (i, q) _ h.0
      (cleanup_sessions-deletes now p ident before behind s (with_session now q (cleaned now) d) h.1
        k (lookup-with_session now p q d h.0 ∙ e) f)

-- Among the sessions of a destination, which stand behind different pointers, is one of which all
-- unused tags have expired, and in which a message still waits for its confirmation; then the cleanup
-- deletes it.
pub cleanup_routing_sessions-deletes :
    (now p : ℕ) (ident : List ℕ) (before behind : List (List ℕ × ℕ)) (s : GarlicRoutingSession)
    (d : GarlicDestination)
    → All (λ session. session.1 ≢ p) before
    → All (λ session. session.1 ≢ p) behind
    → d.sessions ≡ before ++ ((ident, p) ∷ behind)
    → lookup p d.store ≡ some s
    → All (λ t. expiry t.creation_time ≤ seconds now) s.unused_tags
    → Waits (seconds now) s.unconfirmed_tags_msgs
    → All (λ session. session.1 ≢ p) (cleanup_routing_sessions now d).sessions
unfolding cleanup_routing_sessions
cleanup_routing_sessions-deletes now p ident before behind s d h k same e t w =
    subst (λ sessions. All (λ session. session.1 ≢ p) (cleanup_sessions now sessions d).0)
      (sym same)
      (cleanup_sessions-deletes now p ident before behind s d h k e
        (cleanup_expired_tags-Waits now s t w))
