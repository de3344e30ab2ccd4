-- ===== src/Tunnel/Pool/Verdicts.antt =====
-- What the tests of `TunnelPool` (core/tunnel/TunnelPool.cpp) say of a tunnel, and that the hops of a
-- pool with explicit peers are always there.
use kovri.Common.{
  ==_iff, ℕ, zero, suc, ◌+◌, ◌%◌, ◌≤◌, ◌<◌, ◌≡◌, refl, ap, ◌≢◌, ◌∙◌, List, [], ◌∷◌, ◌++◌, Option,
  none, some, Bool, true, false, arith, if◌then◌else◌, ◌==◌, Dict, lookup, be32, drop, Bool-cases,
  Option-cases, inl, inr, All, length, get_elem?,
}
use kovri.Tunnel.Pool.{
  TunnelState, pending, build_reply_received, build_failed, established, test_failed, failed,
  expiring, Heap, TunnelPool, is_same, is_test_failed, outbound_expired,
}
use kovri.Tunnel.Pool.Tests.{
  after_failure, fail_outbound, fail_inbound, fail_tests, process_delivery_status, answered,
}
use kovri.Tunnel.Pool.Peers.{Hop, Routers, set_explicit_peers, select_explicit, select_peers}

-- So many tests without an answer, one after the other.
abbrev after_failures : ℕ → TunnelState → TunnelState
after_failures zero st = st
after_failures (suc n) st = after_failures n (after_failure st)

-- The state of a tunnel by the number of its tests without an answer, of which a suspicion from
-- before is one: suspected if they are odd, failed if they are even.
abbrev pub verdict_of : ℕ → TunnelState → TunnelState
verdict_of n st =
    let suspicions = if is_test_failed st then n + 1 else n in
    if n == 0 then st else if suspicions % 2 == 1 then test_failed else failed

verdict_of_more :
    (n : ℕ) (st : TunnelState) → verdict_of n (after_failure st) ≡ verdict_of (suc n) st
verdict_of_more n pending = ground arith
verdict_of_more n build_reply_received = ground arith
verdict_of_more n build_failed = ground arith
verdict_of_more n established = ground arith
verdict_of_more n test_failed = ground arith
verdict_of_more n failed = ground arith
verdict_of_more n expiring = ground arith

after_failures-verdict_of : (n : ℕ) (st : TunnelState) → after_failures n st ≡ verdict_of n st
after_failures-verdict_of zero st = refl
after_failures-verdict_of (suc n) st =
    after_failures-verdict_of n (after_failure st) ∙ verdict_of_more n st

abbrev pub tests_of : ℕ → Dict (Option ℕ × Option ℕ) → ℕ
tests_of p [] = zero
tests_of p ((msg_id, (out, into)) ∷ tests) =
    if is_same out p then suc (tests_of p tests) else tests_of p tests

outbound-if :
    (b : Bool) (x y pool : TunnelPool)
    → x.outbound ≡ pool.outbound
    → y.outbound ≡ pool.outbound
    → (if b then x else y).outbound ≡ pool.outbound
outbound-if true x y pool p q = p
outbound-if false x y pool p q = q

outbound-fail_inbound :
    (into : Option ℕ) (pool : TunnelPool) → (fail_inbound into pool).outbound ≡ pool.outbound
unfolding fail_inbound
outbound-fail_inbound none pool = refl
outbound-fail_inbound (some p) pool =
    outbound-if (is_test_failed (pool.inbound p).state) _ _ pool
      (outbound-if pool.has_destination _ _ pool refl refl) refl

state-fail_outbound :
    (p : ℕ) (out : Option ℕ) (pool : TunnelPool)
    → ((fail_outbound out pool).outbound p).state
      ≡ (if is_same out p then after_failure (pool.outbound p).state else (pool.outbound p).state)
unfolding fail_outbound
state-fail_outbound p none pool = refl
state-fail_outbound p (some q) pool = elim (Bool-cases (q == p)) [
  | inl e ↦ rw e (ap (λ x. after_failure (pool.outbound x).state) ((==_iff q p).0 e))
  | inr e ↦ rw e refl
]

fail_tests-iterated :
    (p : ℕ) (tests : Dict (Option ℕ × Option ℕ)) (pool : TunnelPool)
    → ((fail_tests tests pool).outbound p).state
      ≡ after_failures (tests_of p tests) (pool.outbound p).state
unfolding fail_tests
fail_tests-iterated p [] pool = refl
fail_tests-iterated p ((msg_id, (out, into)) ∷ tests) pool =
    let pool' = fail_outbound out pool in
    let st = (pool.outbound p).state in
    let first : ((fail_inbound into pool').outbound p).state
        ≡ (if is_same out p then after_failure st else st) =
      ap (λ (heap : Heap). (heap p).state) (outbound-fail_inbound into pool')
      ∙ state-fail_outbound p out pool in
    fail_tests-iterated p tests (fail_inbound into pool')
    ∙ ap (after_failures (tests_of p tests)) first
    ∙ elim (is_same out p)
        as (λ b.
          after_failures (tests_of p tests) (if b then after_failure st else st)
          ≡ after_failures (if b then suc (tests_of p tests) else tests_of p tests) st) [
            | true ↦ refl
            | false ↦ refl
          ]

-- After the tests without an answer are gone through, an outbound tunnel of no such test is as
-- before. Another one is suspected or has failed, by the parity of the number of its tests: from a
-- suspicion on, the next test makes it failed, and the one after that suspected again.
pub fail_tests-verdict_of :
    (p : ℕ) (tests : Dict (Option ℕ × Option ℕ)) (pool : TunnelPool)
    → ((fail_tests tests pool).outbound p).state
      ≡ verdict_of (tests_of p tests) (pool.outbound p).state
fail_tests-verdict_of p tests pool =
    fail_tests-iterated p tests pool
    ∙ after_failures-verdict_of (tests_of p tests) (pool.outbound p).state

-- A tunnel that expires keeps its place in the tests, and an answer establishes it again.
pub outbound_expired-restored :
    (msg : List ℕ) (out into : ℕ) (pool : TunnelPool)
    → lookup (be32 (drop 16 msg)) pool.tests ≡ some (some out, some into)
    → (pool.outbound out).state ≡ test_failed
    → (pool' : TunnelPool) × (process_delivery_status msg (outbound_expired (some out) pool)
        ≡ some pool')
      × ((pool'.outbound out).state ≡ established)
      × ((pool'.outbound out).in_pool ≡ false)
unfolding process_delivery_status outbound_expired
outbound_expired-restored msg out into pool e st = (
  answered (be32 (drop 16 msg)) out into (outbound_expired (some out) pool),
  rw (process_delivery_status, e) refl,
  ground (arith, st),
  ground arith,
)

get_elem?_some : (xs : List (List ℕ)) (i : ℕ) → i < length xs → get_elem? xs i ≢ none
get_elem?_some [] i h e = omega (arith, h)
get_elem?_some (x ∷ xs) zero h e = ground (arith, e)
get_elem?_some (x ∷ xs) (suc i) h e = get_elem?_some xs i (omega (arith, h)) e

module _ (r : Routers) (is_exploratory : Bool) where
  select_explicit-answers :
      (peers : List (List ℕ)) (indices : List ℕ) (num : ℕ) (hops : List Hop)
      → num ≤ length indices
      → All (λ i. i < length peers) indices
      → (answer : Bool × List Hop × Option (List ℕ)) × (select_explicit r is_exploratory peers
            indices num hops
          ≡ some answer)
  unfolding select_explicit
  select_explicit-answers peers indices zero hops h a = (_, refl)
  select_explicit-answers peers [] (suc num) hops h a = absurd (omega (arith, h))
  select_explicit-answers peers (i ∷ indices) (suc num) hops h a =
      elim (Option-cases (get_elem? peers i)) [
        | inl e ↦ absurd (get_elem?_some peers i a.0 e)
        | inr (ident, e) ↦ elim (Option-cases (r.find_router ident)) [
          | inl f ↦ ((false, hops, some ident), rw (select_explicit, e, f) refl)
          | inr (hop, f) ↦
              let (answer, q) =
                select_explicit-answers peers indices num (hops ++ (hop ∷ [])) (omega (arith, h))
                  a.1 in
              (answer, rw (select_explicit, e, f) q)
        ]
      ]

  -- With the explicit peers set, a shuffle of their indices always has a peer for every hop.
  pub select_peers-explicit :
      (draw : ℕ) (peers : List (List ℕ)) (shuffled : List ℕ) (is_inbound : Bool) (pool : TunnelPool)
      → length shuffled ≡ length peers
      → All (λ i. i < length peers) shuffled
      → (answer : Bool × List Hop × Option (List ℕ)) × (select_peers r is_exploratory draw shuffled
            is_inbound
            (set_explicit_peers (some peers) pool)
          ≡ some answer)
  unfolding select_peers set_explicit_peers
  select_peers-explicit draw peers shuffled true pool n a =
      select_explicit-answers peers shuffled _ [] (ground (arith, n)) a
  select_peers-explicit draw peers shuffled false pool n a =
      select_explicit-answers peers shuffled _ [] (ground (arith, n)) a
