-- ===== src/Tunnel/Pool.antt =====
-- `TunnelPool` of core/tunnel/TunnelPool.cpp: the tunnels of a destination, and their tests. Tunnels
-- are shared by pointers, which are numbers here; what stands behind them is a function.
pub mod Tests
pub mod Peers
pub mod Next
pub mod Paired
pub mod Verdicts
mod Examples
use kovri.Common.{
  ℕ, zero, suc, ◌+◌, ◌-◌, ◌*◌, ◌/◌, List, [], ◌∷◌, ◌++◌, Option, none, some, Bool, true, false,
  if◌then◌else◌, ltb, leb, ◌==◌, ◌&&◌, ◌||◌, not, length, Dict, lookup, insert, erase, be32, drop,
}
use kovri.Tunnel.Endpoint.{same_bytes}

pub data TunnelState : Type 0 where
  pending build_reply_received build_failed established test_failed failed expiring : TunnelState

abbrev pub is_tunnel_established : TunnelState → Bool
is_tunnel_established established = true
is_tunnel_established _ = false

abbrev pub is_failed : TunnelState → Bool
is_failed failed = true
is_failed _ = false

abbrev pub is_test_failed : TunnelState → Bool
is_test_failed test_failed = true
is_test_failed _ = false

-- What the pool uses of a tunnel. `endpoint` is the ident hash of its endpoint router.
pub record PoolTunnel : Type 0 where
  pub state : TunnelState
  pub creation_time : ℕ
  pub next_ident_hash : List ℕ
  pub next_tunnel_id : ℕ
  pub endpoint : List ℕ
  pub in_pool : Bool

abbrev pub Heap : Type 0
Heap = ℕ → PoolTunnel

-- What the pool asks for: of its destination, and of the tunnels.
pub data Request : Type 0 where
  set_lease_set_updated : Request
  send_test : ℕ → List ℕ → ℕ → ℕ → Request
  process_delivery_status_message : List ℕ → Request
  process_garlic_message : List ℕ → Request

-- A test is an outbound and an inbound tunnel, either of which may be null.
pub record TunnelPool : Type 0 where
  pub has_destination : Bool
  pub num_inbound_hops : ℕ
  pub num_outbound_hops : ℕ
  pub num_inbound_tunnels : ℕ
  pub num_outbound_tunnels : ℕ
  pub explicit_peers : Option (List (List ℕ))
  pub inbound : Heap
  pub outbound : Heap
  pub inbound_tunnels : List ℕ
  pub outbound_tunnels : List ℕ
  pub tests : Dict (Option ℕ × Option ℕ)
  pub is_active : Bool
  pub requests : List Request

abbrev pub update : ℕ → (PoolTunnel → PoolTunnel) → Heap → Heap
update p f heap q = if p == q then f (heap q) else heap q

abbrev pub with_state : TunnelState → PoolTunnel → PoolTunnel
with_state st t = record t { state = st }

abbrev pub without_pool : PoolTunnel → PoolTunnel
without_pool t = record t { in_pool = false }

abbrev pub ask : Request → TunnelPool → TunnelPool
ask r pool = record pool { requests = pool.requests ++ (r ∷ []) }

abbrev pub ask_if : Bool → Request → TunnelPool → TunnelPool
ask_if b r pool = if b then ask r pool else pool

-- `TunnelCreationTimeCmp`: the later one is first, and of two at the same time the lower pointer.
unfoldable pub is_before : Heap → ℕ → ℕ → Bool
is_before heap p q =
    let s = (heap p).creation_time in
    let t = (heap q).creation_time in if s == t then ltb p q else ltb t s

-- The insertion into a set of tunnels. One that is there stays.
unfoldable pub insert_tunnel : Heap → ℕ → List ℕ → List ℕ
unfolding is_before
insert_tunnel heap p [] = p ∷ []
insert_tunnel heap p (q ∷ qs) =
    if p == q
    then q ∷ qs
    else if is_before heap p q
    then p ∷ q ∷ qs
    else q ∷ insert_tunnel heap p qs

unfoldable pub erase_tunnel : ℕ → List ℕ → List ℕ
erase_tunnel p [] = []
erase_tunnel p (q ∷ qs) = if q == p then qs else q ∷ erase_tunnel p qs

abbrev pub new_pool : Bool → ℕ → ℕ → ℕ → ℕ → Heap → Heap → TunnelPool
new_pool destination in_hops out_hops in_tunnels out_tunnels inbound outbound = record {
  has_destination = destination;
  num_inbound_hops = in_hops;
  num_outbound_hops = out_hops;
  num_inbound_tunnels = in_tunnels;
  num_outbound_tunnels = out_tunnels;
  explicit_peers = none;
  inbound = inbound;
  outbound = outbound;
  inbound_tunnels = [];
  outbound_tunnels = [];
  tests = [];
  is_active = true;
  requests = [];
}

unfoldable pub forget_pool : List ℕ → Heap → Heap
forget_pool [] heap = heap
forget_pool (p ∷ ps) heap = forget_pool ps (update p without_pool heap)

unfoldable pub detach_tunnels : TunnelPool → TunnelPool
unfolding forget_pool
detach_tunnels pool = record pool {
  inbound = forget_pool pool.inbound_tunnels pool.inbound;
  outbound = forget_pool pool.outbound_tunnels pool.outbound;
  inbound_tunnels = [];
  outbound_tunnels = [];
  tests = [];
}

unfoldable pub inbound_created : ℕ → TunnelPool → TunnelPool
unfolding insert_tunnel
inbound_created p pool =
    if pool.is_active
    then ask_if pool.has_destination set_lease_set_updated
        (record pool { inbound_tunnels = insert_tunnel pool.inbound p pool.inbound_tunnels })
    else pool

unfoldable pub outbound_created : ℕ → TunnelPool → TunnelPool
unfolding insert_tunnel
outbound_created p pool =
    if pool.is_active
    then (record pool { outbound_tunnels = insert_tunnel pool.outbound p pool.outbound_tunnels })
    else pool

-- The loop over the tests writes to copies of the entries, and leaves the tests as they are.
unfoldable pub inbound_expired : Option ℕ → TunnelPool → TunnelPool
unfolding erase_tunnel
inbound_expired none pool = pool
inbound_expired (some p) pool = record pool {
  inbound = update p without_pool pool.inbound;
  inbound_tunnels = erase_tunnel p pool.inbound_tunnels;
}

unfoldable pub outbound_expired : Option ℕ → TunnelPool → TunnelPool
unfolding erase_tunnel
outbound_expired none pool = pool
outbound_expired (some p) pool = record pool {
  outbound = update p without_pool pool.outbound;
  outbound_tunnels = erase_tunnel p pool.outbound_tunnels;
}

-- The first `num` established tunnels.
unfoldable pub get_inbound_tunnels : Heap → ℕ → List ℕ → List ℕ
get_inbound_tunnels heap zero ps = []
get_inbound_tunnels heap (suc num) [] = []
get_inbound_tunnels heap (suc num) (p ∷ ps) =
    if is_tunnel_established (heap p).state
    then p ∷ get_inbound_tunnels heap num ps
    else get_inbound_tunnels heap (suc num) ps

abbrev pub is_same : Option ℕ → ℕ → Bool
is_same none p = false
is_same (some q) p = q == p

-- The loop of `GetNextTunnel`: the last tunnel found, and how many more to look for.
unfoldable pub find_next : Heap → Option ℕ → ℕ → Option ℕ → List ℕ → Option ℕ
find_next heap excluded ind tunnel [] = tunnel
find_next heap excluded ind tunnel (p ∷ ps) =
    let fits = is_tunnel_established (heap p).state && not (is_same excluded p) in
    elim ind [
      | zero ↦ if fits then some p else find_next heap excluded zero tunnel ps
      | suc left ↦
          if fits
          then find_next heap excluded left (some p) ps
          else find_next heap excluded (suc left) tunnel ps
    ]

-- `draw` is the random number, from 0 to half of the number of the tunnels.
unfoldable pub get_next_tunnel : Heap → ℕ → List ℕ → Option ℕ → Option ℕ
unfolding find_next
get_next_tunnel heap draw [] excluded = none
get_next_tunnel heap draw (p ∷ ps) excluded =
    elim (find_next heap excluded draw none (p ∷ ps)) as (λ _. Option ℕ) [
      | some q ↦ some q
      | none ↦ elim excluded as (λ _. Option ℕ) [
        | none ↦ none
        | some q ↦ if is_tunnel_established (heap q).state then some q else none
      ]
    ]

unfoldable pub find_endpoint : Heap → List ℕ → List ℕ → Option ℕ
find_endpoint heap endpoint [] = none
find_endpoint heap endpoint (p ∷ ps) =
    if is_tunnel_established (heap p).state && same_bytes endpoint (heap p).endpoint
    then some p
    else find_endpoint heap endpoint ps

unfoldable pub get_new_outbound_tunnel : ℕ → Option ℕ → TunnelPool → Option ℕ
unfolding find_endpoint get_next_tunnel
get_new_outbound_tunnel draw none pool =
    get_next_tunnel pool.outbound draw pool.outbound_tunnels none
get_new_outbound_tunnel draw (some old) pool =
    let heap = pool.outbound in
    if is_tunnel_established (heap old).state
    then some old
    else elim (find_endpoint heap (heap old).endpoint pool.outbound_tunnels) as (λ _. Option ℕ) [
      | some p ↦ some p
      | none ↦ get_next_tunnel heap draw pool.outbound_tunnels none
    ]
