-- ===== src/Tunnel/Pool/Peers.antt =====
-- The choice of the hops of a new tunnel, and the tunnels that a pool lacks: `SetExplicitPeers`,
-- `SelectPeers`, `SelectExplicitPeers` and `CreateTunnels` of core/tunnel/TunnelPool.cpp.
use kovri.Common.{
  ℕ, zero, suc, ◌+◌, ◌-◌, List, [], ◌∷◌, ◌++◌, Option, none, some, Bool, true, false, if◌then◌else◌,
  ltb, ◌&&◌, not, length, get_elem?,
}
use kovri.Tunnel.Pool.{is_tunnel_established, Heap, TunnelPool}

unfoldable pub set_explicit_peers : Option (List (List ℕ)) → TunnelPool → TunnelPool
set_explicit_peers none pool = record pool { explicit_peers = none }
set_explicit_peers (some peers) pool = record pool {
  explicit_peers = some peers;
  num_inbound_hops =
      if ltb (length peers) pool.num_inbound_hops then length peers else pool.num_inbound_hops;
  num_outbound_hops =
      if ltb (length peers) pool.num_outbound_hops then length peers else pool.num_outbound_hops;
  num_inbound_tunnels = 1;
  num_outbound_tunnels = 1;
}

-- A router is its ident hash, and whether its profile is bad.
pub record Hop : Type 0 where
  pub ident : List ℕ
  pub is_bad : Bool

-- What the network database and the transports answer; `draw` counts the calls.
pub record Routers : Type 0 where
  pub self : Hop
  pub num_peers : ℕ
  pub random_peer : Option Hop
  pub get_random_router : ℕ → Option Hop
  pub get_random_router_after : ℕ → Hop → Option Hop
  pub get_high_bandwidth_random_router : ℕ → Hop → Option Hop
  pub find_router : List ℕ → Option Hop

abbrev pub is_unfit : Option Hop → Bool
is_unfit none = true
is_unfit (some hop) = hop.is_bad

module _ (r : Routers) (is_exploratory : Bool) where
  unfoldable pub select_next_hop : ℕ → Hop → Option Hop
  select_next_hop draw prev_hop =
      let hop =
        if is_exploratory
        then r.get_random_router_after draw prev_hop
        else r.get_high_bandwidth_random_router draw prev_hop in
      if is_unfit hop then r.get_random_router (draw + 1) else hop

  unfoldable pub select_hops : ℕ → ℕ → Hop → List Hop → Bool × List Hop
  unfolding select_next_hop
  select_hops draw zero prev_hop hops = (true, hops)
  select_hops draw (suc num_hops) prev_hop hops =
      elim (select_next_hop draw prev_hop) as (λ _. Bool × List Hop) [
        | none ↦ (false, hops)
        | some hop ↦ select_hops (draw + 2) num_hops hop (hops ++ (hop ∷ []))
      ]

  -- The peers in a shuffled order of their indices. The second answer is a router to ask for.
  -- `none` is a read past the end of the indices or of the peers.
  unfoldable pub select_explicit :
      List (List ℕ) → List ℕ → ℕ → List Hop → Option (Bool × List Hop × Option (List ℕ))
  select_explicit peers indices zero hops = some (true, hops, none)
  select_explicit peers [] (suc num_hops) hops = none
  select_explicit peers (i ∷ indices) (suc num_hops) hops =
      elim (get_elem? peers i) as (λ _. Option (Bool × List Hop × Option (List ℕ))) [
        | none ↦ none
        | some ident ↦
            elim (r.find_router ident) as (λ _. Option (Bool × List Hop × Option (List ℕ))) [
              | none ↦ some (false, hops, some ident)
              | some hop ↦ select_explicit peers indices num_hops (hops ++ (hop ∷ []))
            ]
      ]

  abbrev pub not_asked : Bool × List Hop → Option (Bool × List Hop × Option (List ℕ))
  not_asked (answer, hops) = some (answer, hops, none)

  -- A peer that is connected begins, when there are more than 25.
  unfoldable pub select_peers :
      ℕ → List ℕ → Bool → TunnelPool → Option (Bool × List Hop × Option (List ℕ))
  unfolding select_hops select_explicit
  select_peers draw shuffled is_inbound pool =
      let num_hops = if is_inbound then pool.num_inbound_hops else pool.num_outbound_hops in
      let connected =
        if ltb 25 r.num_peers && not (is_unfit r.random_peer) then r.random_peer else none in
      elim pool.explicit_peers as (λ _. Option (Bool × List Hop × Option (List ℕ))) [
        | some peers ↦ select_explicit peers shuffled num_hops []
        | none ↦ elim connected as (λ _. Option (Bool × List Hop × Option (List ℕ))) [
          | none ↦ not_asked (select_hops draw num_hops r.self [])
          | some hop ↦ not_asked (select_hops draw (num_hops - 1) hop (hop ∷ []))
        ]
      ]

unfoldable pub count_established : Heap → List ℕ → ℕ
count_established heap [] = 0
count_established heap (p ∷ ps) =
    let rest = count_established heap ps in
    if is_tunnel_established (heap p).state then rest + 1 else rest

-- How many tunnels `CreateTunnels` makes, inbound and outbound.
unfoldable pub missing_tunnels : TunnelPool → ℕ × ℕ
unfolding count_established
missing_tunnels pool = (
  pool.num_inbound_tunnels - count_established pool.inbound pool.inbound_tunnels,
  pool.num_outbound_tunnels - count_established pool.outbound pool.outbound_tunnels,
)
