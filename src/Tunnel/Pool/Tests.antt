-- ===== src/Tunnel/Pool/Tests.antt =====
-- `TestTunnels` and `ProcessDeliveryStatus` of core/tunnel/TunnelPool.cpp.
use kovri.Common.{
  ℕ, zero, suc, ◌+◌, List, [], ◌∷◌, Option, none, some, if◌then◌else◌, ◌||◌, Dict, lookup, insert,
  erase, be32, drop,
}
use kovri.Tunnel.Crypto.{Crypto}
use kovri.I2np.{generate_word}
use kovri.Tunnel.Pool.{
  TunnelState, established, test_failed, failed, is_failed, is_test_failed, set_lease_set_updated,
  send_test, process_delivery_status_message, process_garlic_message, TunnelPool, update,
  with_state, ask, ask_if, erase_tunnel,
}

-- A test that was not answered: the first time the tunnel is suspected, the next time it has failed.
abbrev pub after_failure : TunnelState → TunnelState
after_failure test_failed = failed
after_failure _ = test_failed

unfoldable pub fail_outbound : Option ℕ → TunnelPool → TunnelPool
unfolding erase_tunnel
fail_outbound none pool = pool
fail_outbound (some p) pool =
    let st = (pool.outbound p).state in
    record pool {
      outbound = update p (with_state (after_failure st)) pool.outbound;
      outbound_tunnels =
          if is_test_failed st then erase_tunnel p pool.outbound_tunnels else pool.outbound_tunnels;
    }

unfoldable pub fail_inbound : Option ℕ → TunnelPool → TunnelPool
unfolding erase_tunnel
fail_inbound none pool = pool
fail_inbound (some p) pool =
    let st = (pool.inbound p).state in
    let pool' : TunnelPool = record pool {
      inbound = update p (with_state (after_failure st)) pool.inbound;
      inbound_tunnels =
          if is_test_failed st then erase_tunnel p pool.inbound_tunnels else pool.inbound_tunnels;
    } in
    if is_test_failed st then ask_if pool.has_destination set_lease_set_updated pool' else pool'

unfoldable pub fail_tests : Dict (Option ℕ × Option ℕ) → TunnelPool → TunnelPool
unfolding fail_outbound fail_inbound
fail_tests [] pool = pool
fail_tests ((msg_id, (out, into)) ∷ tests) pool =
    fail_tests tests (fail_inbound into (fail_outbound out pool))

-- The new tests, of the tunnels in pairs. Failed ones are passed over; when either is, the other
-- list waits. A round takes a tunnel of either list at least, so `fuel` is the number of them all.
unfoldable pub new_tests : Crypto → ℕ → ℕ → List ℕ → List ℕ → TunnelPool → TunnelPool
new_tests c zero draw outs ins pool = pool
new_tests c (suc fuel) draw [] ins pool = pool
new_tests c (suc fuel) draw (out ∷ outs) [] pool = pool
new_tests c (suc fuel) draw (out ∷ outs) (into ∷ ins) pool =
    let out_failed = is_failed (pool.outbound out).state in
    let in_failed = is_failed (pool.inbound into).state in
    let msg_id = generate_word c draw in
    let t = pool.inbound into in
    let skipped =
      new_tests c fuel draw (if out_failed then outs else out ∷ outs)
        (if in_failed then ins else into ∷ ins) pool in
    let tested = new_tests c fuel (draw + 1) outs ins (
      ask (send_test out t.next_ident_hash t.next_tunnel_id msg_id)
        (record pool { tests = insert msg_id (some out, some into) pool.tests })) in
    if out_failed || in_failed then skipped else tested

abbrev pub size_of : List ℕ → ℕ
size_of [] = 0
size_of (x ∷ xs) = size_of xs + 1

unfoldable pub test_tunnels : Crypto → ℕ → TunnelPool → TunnelPool
unfolding fail_tests new_tests
test_tunnels c draw pool =
    let pool' = fail_tests pool.tests pool in
    new_tests c (size_of pool'.outbound_tunnels + size_of pool'.inbound_tunnels) draw
      pool'.outbound_tunnels pool'.inbound_tunnels (record pool' { tests = [] })

unfoldable pub process_garlic : List ℕ → TunnelPool → TunnelPool
process_garlic msg pool = ask_if pool.has_destination (process_garlic_message msg) pool

-- An answer: a tunnel is no longer suspected.
abbrev pub after_success : TunnelState → TunnelState
after_success test_failed = established
after_success st = st

abbrev pub answered : ℕ → ℕ → ℕ → TunnelPool → TunnelPool
answered msg_id out into pool = record pool {
  outbound = update out (with_state (after_success (pool.outbound out).state)) pool.outbound;
  inbound = update into (with_state (after_success (pool.inbound into).state)) pool.inbound;
  tests = erase msg_id pool.tests;
}

-- The payload of the message begins with the identifier. `none` is a null pointer that is followed.
unfoldable pub process_delivery_status : List ℕ → TunnelPool → Option TunnelPool
process_delivery_status msg pool =
    let msg_id = be32 (drop 16 msg) in
    elim (lookup msg_id pool.tests) as (λ _. Option TunnelPool) [
      | none ↦ some (ask_if pool.has_destination (process_delivery_status_message msg) pool)
      | some (some out, some into) ↦ some (answered msg_id out into pool)
      | some (none, second) ↦ none
      | some (some out, none) ↦ none
    ]
