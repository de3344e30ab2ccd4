-- ===== src/Tunnel/Pool/Examples.antt =====
-- Pools of core/tunnel/TunnelPool.cpp at work.
use kovri.Common.{
  ℕ, zero, suc, ◌≡◌, refl, List, [], ◌∷◌, Option, some, Bool, none, true, false, arith, length,
  lookup,
}
use kovri.Tunnel.Crypto.{Crypto}
use kovri.Tunnel.Pool.{
  TunnelState, established, test_failed, Heap, TunnelPool, new_pool, get_next_tunnel,
  outbound_expired, outbound_created, inbound_created,
}
use kovri.Tunnel.Pool.Tests.{fail_tests, test_tunnels, process_delivery_status}
use kovri.Tunnel.Pool.Peers.{Hop, Routers, set_explicit_peers, select_peers}
use kovri.Tunnel.Pool.Next.{Next, get_next_tunnel-Next}
use kovri.Tunnel.Pool.Paired.{
  here, next, in_created, out_created, test, out_expired, process_delivery_status-Reach,
}
use kovri.Tunnel.Pool.Verdicts.{
  verdict_of, tests_of, fail_tests-verdict_of, outbound_expired-restored, select_peers-explicit,
}

abbrev fill : ℕ → ℕ → List ℕ
fill zero x = []
fill (suc n) x = x ∷ fill n x

length-fill : (n x : ℕ) → length (fill n x) ≡ n
length-fill zero x = refl
length-fill (suc n) x = omega (arith, length-fill n x)

abbrev plain : Crypto
plain = record {
  sha256 = λ bs. fill 32 7;
  generate_block = λ draw n. fill n draw;
  generate_word32 = λ draw lo hi. lo;
  length-sha256 = λ bs. refl;
  length-generate_block = λ draw n. length-fill n draw;
  generate_word32_bounds = λ draw lo hi h. (omega arith, h);
}

abbrev all_in : TunnelState → Heap
all_in st p = record {
  state = st;
  creation_time = p;
  next_ident_hash = fill 32 1;
  next_tunnel_id = p;
  endpoint = fill 32 2;
  in_pool = true;
}

abbrev pool : TunnelPool
pool = new_pool true 2 2 3 3 (all_in established) (all_in established)

get_next_tunnel-Next_example :
    Next
      (all_in established)
      (some 4)
      (5 ∷ 4 ∷ [])
      (get_next_tunnel (all_in established) 1 (5 ∷ 4 ∷ []) (some 4))
get_next_tunnel-Next_example = get_next_tunnel-Next (all_in established) 1 (5 ∷ 4 ∷ []) (some 4)

-- A tunnel of a test expires, and the answer to the test comes after that.
abbrev tested : TunnelPool
tested = test_tunnels plain 0 (outbound_created 6 (inbound_created 5 pool))

abbrev status : List ℕ
status = fill 28 0

process_delivery_status-Reach_example :
    (pool' : TunnelPool) × (process_delivery_status status (outbound_expired (some 6) tested)
      ≡ some pool')
process_delivery_status-Reach_example =
    process_delivery_status-Reach plain true 2 2 3 3 (all_in established) (all_in established)
      (outbound_expired (some 6) tested) status
      (next
        (next (next (next here (in_created 5 pool)) (out_created 6 (inbound_created 5 pool)))
          (test 0 (outbound_created 6 (inbound_created 5 pool))))
        (out_expired (some 6) tested))

abbrev suspected : TunnelPool
suspected = record pool {
  outbound = all_in test_failed;
  tests = (0, (some 6, some 5)) ∷ (1, (some 7, some 5)) ∷ [];
}

fail_tests-verdict_of_example :
    ((fail_tests suspected.tests suspected).outbound 6).state
    ≡ verdict_of (tests_of 6 suspected.tests) test_failed
fail_tests-verdict_of_example = fail_tests-verdict_of 6 suspected.tests suspected

outbound_expired-restored_example :
    (pool' : TunnelPool) × (process_delivery_status status (outbound_expired (some 6) suspected)
      ≡ some pool')
    × ((pool'.outbound 6).state ≡ established)
    × ((pool'.outbound 6).in_pool ≡ false)
unfolding lookup
outbound_expired-restored_example = outbound_expired-restored status 6 5 suspected refl refl

abbrev hop : Hop
hop = record { ident = fill 32 3; is_bad = false }

abbrev routers : Routers
routers = record {
  self = hop;
  num_peers = 0;
  random_peer = none;
  get_random_router = λ draw. some hop;
  get_random_router_after = λ draw prev. some hop;
  get_high_bandwidth_random_router = λ draw prev. some hop;
  find_router = λ ident. some hop;
}

select_peers-explicit_example :
    (answer : Bool × List Hop × Option (List ℕ)) × (select_peers routers false 0
        (1 ∷ 0 ∷ [])
        true
        (set_explicit_peers (some (fill 32 3 ∷ fill 32 4 ∷ [])) pool)
      ≡ some answer)
select_peers-explicit_example =
    select_peers-explicit routers false 0 (fill 32 3 ∷ fill 32 4 ∷ []) (1 ∷ 0 ∷ []) true pool refl
      (omega arith, (omega arith, tt))
