-- ===== src/Streaming/Lease.antt =====
-- The choice of a lease in api/Streaming.cpp: `UpdateCurrentRemoteLease`.
pub mod Another
use kovri.Common.{
  ℕ, ◌+◌, ◌-◌, ◌%◌, List, [], ◌∷◌, Option, none, some, Bool, true, false, if◌then◌else◌, ◌&&◌, ◌||◌,
  not, ◌==◌, length, get_elem?,
}
use kovri.Tunnel.Endpoint.{same_bytes}

pub record Lease : Type 0 where
  pub tunnel_gateway : List ℕ
  pub tunnel_id : ℕ
  pub end_date : ℕ

-- Whether there is a remote lease set, and the current lease; an end of 0 stands for none.
pub record LeaseChoice : Type 0 where
  pub has_lease_set : Bool
  pub current : Lease

-- The leases of the remote lease set that are not expired, without and with the threshold, and
-- whether the destination finds a lease set. `draw` gives a number from 0 to its argument.
pub record Remote : Type 0 where
  pub found : Bool
  pub leases : Bool → List Lease
  pub draw : ℕ → ℕ

-- Another tunnel of the same gateway.
unfoldable pub same_gateway : Lease → List Lease → Option Lease
same_gateway current [] = none
same_gateway current (l ∷ ls) =
    if same_bytes l.tunnel_gateway current.tunnel_gateway && not (l.tunnel_id == current.tunnel_id)
    then some l
    else same_gateway current ls

abbrev pub lease_at : List Lease → ℕ → Lease → Lease
lease_at ls i default = elim (get_elem? ls i) [ none ↦ default | some l ↦ l ]

-- A lease at random, and the one behind it if that is the current tunnel.
unfoldable pub random_lease : Remote → Lease → List Lease → Lease
random_lease r current ls =
    let i = r.draw (length ls - 1) in
    let again =
      not (current.end_date == 0) && ((lease_at ls i current).tunnel_id == current.tunnel_id) in
    lease_at ls (if again then (i + 1) % length ls else i) current

unfoldable pub choose_lease : Remote → Bool → Lease → List Lease → Lease
unfolding random_lease same_gateway
choose_lease r expired current ls = elim (same_gateway current ls) [
  | none ↦ random_lease r current ls
  | some l ↦ if expired then l else random_lease r current ls
]

abbrev pub without_lease : Bool → LeaseChoice → LeaseChoice
without_lease has c = record { has_lease_set = has; current = record c.current { end_date = 0 } }

abbrev pub is_none : List Lease → Bool
is_none [] = true
is_none (_ ∷ _) = false

-- First without the threshold. If there is none, the destination is asked again, and a lease in the
-- threshold is taken, whatever the gateway.
unfoldable pub update_current_remote_lease : Remote → Bool → LeaseChoice → LeaseChoice
unfolding choose_lease
update_current_remote_lease r expired c =
    let has = c.has_lease_set || r.found in
    let fresh = r.leases false in
    let late = r.leases true in
    if not has
    then without_lease false c
    else if not (is_none fresh)
    then record { has_lease_set = true; current = choose_lease r expired c.current fresh }
    else if not (is_none late)
    then record { has_lease_set = true; current = choose_lease r false c.current late }
    else without_lease false c
