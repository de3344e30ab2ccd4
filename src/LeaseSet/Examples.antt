-- ===== src/LeaseSet/Examples.antt =====
-- A lease set of core/LeaseSet.cpp at work, with a stand-in for identities and signatures.
use kovri.Common.{
  ℕ, zero, suc, ◌+◌, ◌≡◌, refl, List, [], ◌∷◌, ◌++◌, some, true, arith, length, take,
}
use kovri.Tunnel.Pool.{established, Heap, TunnelPool, new_pool}
use kovri.LeaseSet.{LocalIdentity, unsigned_bytes, pool_leases, create_lease_set}
use kovri.LeaseSet.RoundTrip.{IsIdentity, read_set, create_lease_set-read_set}

abbrev fill : ℕ → ℕ → List ℕ
fill zero x = []
fill (suc n) x = x ∷ fill n x

abbrev ids : LocalIdentity
ids = record {
  from_buffer = λ bs len. (387, take 387 bs);
  signing_public_key_len = λ identity. 128;
  signature_len = λ identity. 40;
  verify = λ identity signed rest. true;
  identity_bytes = fill 387 5;
  encryption_public_key = fill 256 6;
  sign = λ signed. fill 40 7;
}

ids-IsIdentity : IsIdentity ids
ids-IsIdentity = record {
  from_buffer-identity_bytes = λ rest len h. refl;
  length-encryption_public_key = refl;
  verify-sign = λ signed rest. refl;
}

abbrev tunnels : Heap
tunnels p = record {
  state = established;
  creation_time = 1000 + p;
  next_ident_hash = fill 32 8;
  next_tunnel_id = 3;
  endpoint = fill 32 9;
  in_pool = true;
}

-- Two inbound tunnels.
abbrev pool : TunnelPool
pool = record (new_pool true 2 2 3 3 tunnels tunnels) { inbound_tunnels = 2 ∷ 1 ∷ [] }

create_lease_set-read_set_example :
    let ls = pool_leases ids (λ draw. 4) 0 pool in
    let signed = unsigned_bytes ids ls in
    let len = length signed + length (ids.sign signed) in
    create_lease_set ids (λ draw. 4) 0 pool []
    ≡ some (read_set ids ids-IsIdentity (signed ++ (ids.sign signed ++ [])) len ls)
create_lease_set-read_set_example =
    create_lease_set-read_set ids ids-IsIdentity (λ draw. 4) 0 pool [] (λ p. (refl, omega arith))
