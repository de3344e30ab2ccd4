-- ===== src/Tunnel/Manage/Examples.antt =====
-- Pending and transit tunnels of core/tunnel/Tunnel.cpp at work.
use kovri.Common.{ℕ, ◌≡◌, refl, List, [], ◌∷◌, some, none, arith}
use kovri.Tunnel.Pool.{TunnelState, pending, build_failed, established}
use kovri.Tunnel.Manage.{
  PendingTunnel, Creations, manage_pending_tunnels, manage_transit_tunnels,
  get_transit_tunnels_expiration_timeout,
}
use kovri.Tunnel.Manage.Expiry.{
  Managed, manage_transit_tunnels-timeout, manage_pending_tunnels-Managed,
}

abbrev two_transit : List (ℕ × ℕ)
two_transit = (7, 1000) ∷ (9, 1200) ∷ []

-- The second tunnel has 460 of its 660 seconds left.
timeout_test : get_transit_tunnels_expiration_timeout 1400 two_transit ≡ 460
unfolding get_transit_tunnels_expiration_timeout
timeout_test = refl

kept_test : manage_transit_tunnels 1860 two_transit ≡ (9, 1200) ∷ []
unfolding manage_transit_tunnels
kept_test = refl

manage_transit_tunnels-timeout_example : manage_transit_tunnels 1861 two_transit ≡ []
unfolding get_transit_tunnels_expiration_timeout
manage_transit_tunnels-timeout_example =
    manage_transit_tunnels-timeout 1400 1861 two_transit (omega arith)
      ((omega arith, omega arith), ((omega arith, omega arith), tt)) (omega arith)

abbrev waiting : TunnelState → ℕ → PendingTunnel
waiting st time = record { state = st; creation_time = time; hops = some (some 3 ∷ none ∷ []) }

abbrev none_counted : Creations
none_counted = record { num_successive = 0; num_failed = 0; non_replied = [] }

abbrev four_pending : List (ℕ × PendingTunnel)
four_pending =
    (1, waiting pending 100)
    ∷ (2, waiting pending 80)
    ∷ (3, waiting build_failed 100)
    ∷ (4, waiting established 100)
    ∷ []

manage_pending_tunnels-Managed_example :
    Managed 120 4 (manage_pending_tunnels 120 four_pending none_counted)
manage_pending_tunnels-Managed_example =
    manage_pending_tunnels-Managed 120 four_pending none_counted
