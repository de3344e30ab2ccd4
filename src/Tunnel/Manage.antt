-- ===== src/Tunnel/Manage.antt =====
-- `Tunnels` of core/tunnel/Tunnel.cpp: the pending tunnels and the transit tunnels, and when they are
-- forgotten. Times are in seconds; a creation time, and what is added to it, has 32 bits.
pub mod Expiry
mod Examples
use kovri.Common.{
  ℕ, ◌+◌, ◌-◌, ◌%◌, ◌^◌, List, [], ◌∷◌, ◌++◌, Option, none, some, Bool, true, false, if◌then◌else◌,
  ltb, ◌&&◌,
}
use kovri.Tunnel.Pool.{
  TunnelState, pending, build_reply_received, build_failed, established, test_failed, failed,
  expiring,
}

abbrev pub tunnel_expiration_timeout : ℕ
tunnel_expiration_timeout = 660

abbrev pub tunnel_creation_timeout : ℕ
tunnel_creation_timeout = 30

-- The hops of the configuration, if there is one; a hop may have no router.
pub record PendingTunnel : Type 0 where
  pub state : TunnelState
  pub creation_time : ℕ
  pub hops : Option (List (Option ℕ))

-- The counts, and the routers whose profiles have noted that a tunnel was not answered.
pub record Creations : Type 0 where
  pub num_successive : ℕ
  pub num_failed : ℕ
  pub non_replied : List ℕ

unfoldable pub routers_of : List (Option ℕ) → List ℕ
routers_of [] = []
routers_of (none ∷ hops) = routers_of hops
routers_of (some router ∷ hops) = router ∷ routers_of hops

abbrev pub note_hops : Option (List (Option ℕ)) → Creations → Creations
note_hops none c = c
note_hops (some hops) c = record c { non_replied = c.non_replied ++ routers_of hops }

abbrev pub one_failed : Creations → Creations
one_failed c = record c { num_failed = c.num_failed + 1 }

abbrev pub one_successive : Creations → Creations
one_successive c = record c { num_successive = c.num_successive + 1 }

-- Whether a tunnel of the state stays, and what is counted.
unfoldable pub manage_pending : TunnelState → ℕ → PendingTunnel → Creations → Bool × Creations
unfolding routers_of
manage_pending pending ts t c =
    if ltb ((t.creation_time + tunnel_creation_timeout) % 2 ^ 32) ts
    then (false, one_failed (note_hops t.hops c))
    else (true, c)
manage_pending build_failed ts t c = (false, one_failed c)
manage_pending build_reply_received ts t c = (true, c)
manage_pending established ts t c = (false, one_successive c)
manage_pending test_failed ts t c = (false, one_successive c)
manage_pending failed ts t c = (false, one_successive c)
manage_pending expiring ts t c = (false, one_successive c)

-- The tunnels by the identifiers of their replies.
unfoldable pub manage_pending_tunnels :
    ℕ → List (ℕ × PendingTunnel) → Creations → List (ℕ × PendingTunnel) × Creations
unfolding manage_pending
manage_pending_tunnels ts [] c = ([], c)
manage_pending_tunnels ts (p ∷ ps) c =
    let step = manage_pending p.1.state ts p.1 c in
    let rest = manage_pending_tunnels ts ps step.1 in
    (if step.0 then p ∷ rest.0 else rest.0, rest.1)

-- The transit tunnels are their identifiers and creation times.
unfoldable pub manage_transit_tunnels : ℕ → List (ℕ × ℕ) → List (ℕ × ℕ)
manage_transit_tunnels ts [] = []
manage_transit_tunnels ts (t ∷ tunnels) =
    let rest = manage_transit_tunnels ts tunnels in
    if ltb ((t.1 + tunnel_expiration_timeout) % 2 ^ 32) ts then rest else t ∷ rest

-- What is left of a tunnel's time is an `int`: from 2 ^ 31 on it is negative, and not above `timeout`.
unfoldable pub longest_timeout : ℕ → ℕ → List (ℕ × ℕ) → ℕ
longest_timeout ts timeout [] = timeout
longest_timeout ts timeout (t ∷ tunnels) =
    let left = (t.1 + tunnel_expiration_timeout + 2 ^ 32 - ts) % 2 ^ 32 in
    longest_timeout ts (if ltb left (2 ^ 31) && ltb timeout left then left else timeout) tunnels

unfoldable pub get_transit_tunnels_expiration_timeout : ℕ → List (ℕ × ℕ) → ℕ
unfolding longest_timeout
get_transit_tunnels_expiration_timeout ts tunnels = longest_timeout ts 0 tunnels
