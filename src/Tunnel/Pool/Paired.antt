-- ===== src/Tunnel/Pool/Paired.antt =====
-- The tests of a pool over its life, `TunnelPool` of core/tunnel/TunnelPool.cpp: as the code does not
-- take a tunnel out of a test, an answer to a test never meets a null pointer.
use kovri.Common.{
  ◌≢◌, if_true, if_false, ℕ, zero, suc, ◌+◌, ◌≡◌, refl, sym, ◌∙◌, subst, List, [], ◌∷◌, Option,
  none, some, Bool, true, false, arith, if◌then◌else◌, ltb, ◌==◌, ◌||◌, Dict, lookup, insert, erase,
  be32, drop, Bool-cases, Option-cases, inl, inr,
}
use kovri.Tunnel.Crypto.{Crypto}
use kovri.I2np.{generate_word}
use kovri.Tunnel.Pool.{
  Heap, Request, TunnelPool, new_pool, ask, ask_if, is_failed, send_test, detach_tunnels,
  inbound_created, outbound_created, inbound_expired, outbound_expired,
  process_delivery_status_message,
}
use kovri.Tunnel.Pool.Tests.{
  fail_tests, new_tests, test_tunnels, process_garlic, process_delivery_status, size_of, answered,
}
use kovri.Tunnel.Pool.Peers.{set_explicit_peers}

-- Both tunnels are there.
abbrev pub is_pair : Option ℕ × Option ℕ → Bool
is_pair (some p, some q) = true
is_pair (some p, none) = false
is_pair (none, second) = false

abbrev pub IsPair : Option ℕ × Option ℕ → Type 0
IsPair test = is_pair test ≡ true

abbrev pub ArePairs : Dict (Option ℕ × Option ℕ) → Type 0
ArePairs [] = Unit
ArePairs ((msg_id, test) ∷ tests) = IsPair test × ArePairs tests

insert-ArePairs :
    (key : ℕ) (test : Option ℕ × Option ℕ) (tests : Dict (Option ℕ × Option ℕ))
    → IsPair test
    → ArePairs tests
    → ArePairs (insert key test tests)
unfolding insert
insert-ArePairs key test [] p h = (p, tt)
insert-ArePairs key test ((j, old) ∷ tests) p h =
    let rest = insert-ArePairs key test tests p h.1 in
    elim (ltb key j)
      as (λ b. ArePairs (
        if b
        then (key, test) ∷ (j, old) ∷ tests
        else if j == key
        then (key, test) ∷ tests
        else (j, old) ∷ insert key test tests)) [
          | true ↦ (p, h)
          | false ↦
              elim (j == key)
                as (λ b.
                  ArePairs (if b then (key, test) ∷ tests else (j, old) ∷ insert key test tests)) [
                    | true ↦ (p, h.1)
                    | false ↦ (h.0, rest)
                  ]
        ]

erase-ArePairs :
    (key : ℕ) (tests : Dict (Option ℕ × Option ℕ)) → ArePairs tests → ArePairs (erase key tests)
unfolding erase
erase-ArePairs key [] h = tt
erase-ArePairs key ((j, test) ∷ tests) h =
    let rest = erase-ArePairs key tests h.1 in
    elim (j == key)
      as (λ b. ArePairs (if b then erase key tests else (j, test) ∷ erase key tests)) [
        | true ↦ rest
        | false ↦ (h.0, rest)
      ]

abbrev IsSomePair : Option (Option ℕ × Option ℕ) → Type 0
IsSomePair none = Unit
IsSomePair (some test) = IsPair test

lookup-IsPair :
    (key : ℕ) (tests : Dict (Option ℕ × Option ℕ)) (test : Option ℕ × Option ℕ)
    → ArePairs tests
    → lookup key tests ≡ some test
    → IsPair test
unfolding lookup
lookup-IsPair key [] test h e = absurd (ground (arith, e))
lookup-IsPair key ((j, first) ∷ tests) test h e = elim (Bool-cases (j == key)) [
  | inl k ↦ subst IsSomePair (sym (if_true (some first) (lookup key tests) k) ∙ e) h.0
  | inr k ↦ lookup-IsPair key tests test h.1 (sym (if_false (some first) (lookup key tests) k) ∙ e)
]

tests-ask_if : (b : Bool) (r : Request) (pool : TunnelPool) → (ask_if b r pool).tests ≡ pool.tests
tests-ask_if true r pool = refl
tests-ask_if false r pool = refl

new_tests-ArePairs :
    (c : Crypto) (fuel draw : ℕ) (outs ins : List ℕ) (pool : TunnelPool)
    → ArePairs pool.tests
    → ArePairs (new_tests c fuel draw outs ins pool).tests
unfolding new_tests
new_tests-ArePairs c zero draw outs ins pool h = h
new_tests-ArePairs c (suc fuel) draw [] ins pool h = h
new_tests-ArePairs c (suc fuel) draw (out ∷ outs) [] pool h = h
new_tests-ArePairs c (suc fuel) draw (out ∷ outs) (into ∷ ins) pool h =
    let out_failed = is_failed (pool.outbound out).state in
    let in_failed = is_failed (pool.inbound into).state in
    let msg_id = generate_word c draw in
    let t = pool.inbound into in
    let outs' = if out_failed then outs else out ∷ outs in
    let ins' = if in_failed then ins else into ∷ ins in
    let asked =
      ask (send_test out t.next_ident_hash t.next_tunnel_id msg_id)
        (record pool { tests = insert msg_id (some out, some into) pool.tests }) in
    elim (out_failed || in_failed)
      as (λ b.
        ArePairs
          (if b
            then new_tests c fuel draw outs' ins' pool
            else new_tests c fuel (draw + 1) outs ins asked).tests) [
              | true ↦ new_tests-ArePairs c fuel draw outs' ins' pool h
              | false ↦
                  new_tests-ArePairs c fuel (draw + 1) outs ins asked
                    (insert-ArePairs msg_id (some out, some into) pool.tests refl h)
            ]

-- What can happen to a pool.
pub data Step (c : Crypto) : TunnelPool → TunnelPool → Type 0 where
  peers :
      (explicit : Option (List (List ℕ))) (pool : TunnelPool)
      → Step c pool (set_explicit_peers explicit pool)
  activity : (b : Bool) (pool : TunnelPool) → Step c pool (record pool { is_active = b })
  detach : (pool : TunnelPool) → Step c pool (detach_tunnels pool)
  in_created : (p : ℕ) (pool : TunnelPool) → Step c pool (inbound_created p pool)
  out_created : (p : ℕ) (pool : TunnelPool) → Step c pool (outbound_created p pool)
  in_expired : (p : Option ℕ) (pool : TunnelPool) → Step c pool (inbound_expired p pool)
  out_expired : (p : Option ℕ) (pool : TunnelPool) → Step c pool (outbound_expired p pool)
  tunnels :
      (into out : Heap) (pool : TunnelPool)
      → Step c pool (record pool { inbound = into; outbound = out })
  test : (draw : ℕ) (pool : TunnelPool) → Step c pool (test_tunnels c draw pool)
  garlic : (msg : List ℕ) (pool : TunnelPool) → Step c pool (process_garlic msg pool)
  status :
      (msg : List ℕ) (pool pool' : TunnelPool)
      → process_delivery_status msg pool ≡ some pool'
      → Step c pool pool'

pub data Reach (c : Crypto) (start : TunnelPool) : TunnelPool → Type 0 where
  here : Reach c start start
  next : {s t : TunnelPool} → Reach c start s → Step c s t → Reach c start t

not_true : false ≢ true
not_true h = ground (arith, h)

process_delivery_status-answers :
    (msg : List ℕ) (pool : TunnelPool)
    → ArePairs pool.tests
    → (pool' : TunnelPool) × (process_delivery_status msg pool ≡ some pool') × ArePairs pool'.tests
unfolding process_delivery_status
process_delivery_status-answers msg pool h =
    let msg_id = be32 (drop 16 msg) in
    elim (Option-cases (lookup msg_id pool.tests)) [
      | inl e ↦
          let r = process_delivery_status_message msg in
          (
            ask_if pool.has_destination r pool,
            rw (process_delivery_status, e) refl,
            subst ArePairs (sym (tests-ask_if pool.has_destination r pool)) h,
          )
      | inr ((some out, some into), e) ↦ (
        answered msg_id out into pool,
        rw (process_delivery_status, e) refl,
        erase-ArePairs msg_id pool.tests h,
      )
      | inr ((some out, none), e) ↦
          absurd (not_true (lookup-IsPair msg_id pool.tests (some out, none) h e))
      | inr ((none, second), e) ↦
          absurd (not_true (lookup-IsPair msg_id pool.tests (none, second) h e))
    ]

abbrev ArePairsAfter : Option TunnelPool → Type 0
ArePairsAfter none = Unit
ArePairsAfter (some pool) = ArePairs pool.tests

ArePairs-if :
    (b : Bool) (x y : TunnelPool)
    → ArePairs x.tests
    → ArePairs y.tests
    → ArePairs (if b then x else y).tests
ArePairs-if true x y h k = h
ArePairs-if false x y h k = k

Step-ArePairs : {c : Crypto} {s t : TunnelPool} → Step c s t → ArePairs s.tests → ArePairs t.tests
unfolding set_explicit_peers detach_tunnels inbound_created outbound_created inbound_expired
    outbound_expired test_tunnels process_garlic process_delivery_status
Step-ArePairs (peers none pool) h = h
Step-ArePairs (peers (some l) pool) h = h
Step-ArePairs (activity b pool) h = h
Step-ArePairs (detach pool) h = tt
Step-ArePairs (in_created p pool) h =
    ArePairs-if pool.is_active _ pool (ArePairs-if pool.has_destination _ _ h h) h
Step-ArePairs (out_created p pool) h = ArePairs-if pool.is_active _ pool h h
Step-ArePairs (in_expired none pool) h = h
Step-ArePairs (in_expired (some p) pool) h = h
Step-ArePairs (out_expired none pool) h = h
Step-ArePairs (out_expired (some p) pool) h = h
Step-ArePairs (tunnels into out pool) h = h
Step-ArePairs {c = c} (test draw pool) h =
    let pool' = fail_tests pool.tests pool in
    new_tests-ArePairs c (size_of pool'.outbound_tunnels + size_of pool'.inbound_tunnels) draw
      pool'.outbound_tunnels pool'.inbound_tunnels (record pool' { tests = [] }) tt
Step-ArePairs (garlic msg pool) h = ArePairs-if pool.has_destination _ pool h h
Step-ArePairs (status msg pool pool' e) h =
    let (answer, e', k) = process_delivery_status-answers msg pool h in
    subst ArePairsAfter (sym e' ∙ e) k

Reach-ArePairs : {c : Crypto} {s t : TunnelPool} → ArePairs s.tests → Reach c s t → ArePairs t.tests
Reach-ArePairs h here = h
Reach-ArePairs h (next r step) = Step-ArePairs step (Reach-ArePairs h r)

-- Whatever has happened to a new pool, it answers every message about a test.
pub process_delivery_status-Reach :
    (c : Crypto) (destination : Bool) (a b n m : ℕ) (into out : Heap) (pool : TunnelPool)
    (msg : List ℕ)
    → Reach c (new_pool destination a b n m into out) pool
    → (pool' : TunnelPool) × (process_delivery_status msg pool ≡ some pool')
process_delivery_status-Reach c destination a b n m into out pool msg r =
    let (pool', e, h) = process_delivery_status-answers msg pool (Reach-ArePairs tt r) in (pool', e)
