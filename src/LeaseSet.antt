-- ===== src/LeaseSet.antt =====
-- core/LeaseSet.cpp and LeaseSet.h: the leases of a destination, as they are made from the inbound
-- tunnels of a pool and as they are read. A buffer is the bytes up to the end of its array; `none` is
-- a read past that.
pub mod RoundTrip
mod Examples
use kovri.Common.{
  ℕ, zero, suc, ◌+◌, ◌-◌, ◌*◌, ◌%◌, ◌^◌, ◌≡◌, List, [], ◌∷◌, ◌++◌, Option, none, some, Bool, true,
  false, if◌then◌else◌, ltb, leb, ◌==◌, ◌&&◌, not, length, take, drop, read_bytes, bufbe8toh,
  bufbe32toh, htobe32buf, ◌>>=◌,
}
use kovri.Ssu.Header.{htobe64buf}
use kovri.Tunnel.Pool.{PoolTunnel, TunnelPool, get_inbound_tunnels}

pub record Lease : Type 0 where
  pub tunnel_gateway : List ℕ
  pub tunnel_id : ℕ
  pub end_date : ℕ

-- `buffer` is the array, of which `buffer_len` bytes are in use.
pub record LeaseSet : Type 0 where
  pub is_valid : Bool
  pub leases : List Lease
  pub identity : List ℕ
  pub encryption_key : List ℕ
  pub buffer : List ℕ
  pub buffer_len : ℕ

-- What the identities and the keys of a local destination do. `from_buffer` is the size and the
-- identity; the signature of `verify` stands at the head of what follows.
pub record LocalIdentity : Type 0 where
  pub from_buffer : List ℕ → ℕ → ℕ × List ℕ
  pub signing_public_key_len : List ℕ → ℕ
  pub signature_len : List ℕ → ℕ
  pub verify : List ℕ → List ℕ → List ℕ → Bool
  pub identity_bytes : List ℕ
  pub encryption_public_key : List ℕ
  pub sign : List ℕ → List ℕ

-- `bufbe64toh`.
unfoldable pub bufbe64toh : List ℕ → Option (ℕ × List ℕ)
bufbe64toh bs = do
  (high, b1) ← bufbe32toh bs
  (low, b2) ← bufbe32toh b1
  some (high * 2 ^ 32 + low, b2)

unfoldable pub read_lease : List ℕ → Option (Lease × List ℕ)
unfolding bufbe64toh
read_lease bs = do
  (gateway, b1) ← read_bytes 32 bs
  (tunnel_id, b2) ← bufbe32toh b1
  (end_date, b3) ← bufbe64toh b2
  some (record { tunnel_gateway = gateway; tunnel_id = tunnel_id; end_date = end_date }, b3)

unfoldable pub read_leases : ℕ → List ℕ → Option (List Lease × List ℕ)
unfolding read_lease
read_leases zero bs = some ([], bs)
read_leases (suc num) bs = elim (read_lease bs) as (λ _. Option (List Lease × List ℕ)) [
  | none ↦ none
  | some (lease, rest) ↦ elim (read_leases num rest) as (λ _. Option (List Lease × List ℕ)) [
    | none ↦ none
    | some (leases, behind) ↦ some (lease ∷ leases, behind)
  ]
]

module _ (ids : LocalIdentity) where
  -- The leases are added to those that are there. What is signed is what stands before `behind`.
  unfoldable pub read_from_buffer : LeaseSet → Option LeaseSet
  unfolding read_leases
  read_from_buffer s = do
    let size = (ids.from_buffer s.buffer s.buffer_len).0
    let identity = (ids.from_buffer s.buffer s.buffer_len).1
    (key, b1) ← read_bytes 256 (drop size s.buffer)
    (unused, b2) ← read_bytes (ids.signing_public_key_len identity) b1
    (num, b3) ← bufbe8toh b2
    (leases, behind) ← read_leases num b3
    let signed = take (length s.buffer - length behind) s.buffer
    some (record s {
      is_valid = s.is_valid && (not (num == 0) && ids.verify identity signed behind);
      leases = s.leases ++ leases;
      identity = identity;
      encryption_key = key;
    })

  abbrev pub empty_set : List ℕ → ℕ → LeaseSet
  empty_set buffer len = record {
    is_valid = true;
    leases = [];
    identity = [];
    encryption_key = [];
    buffer = buffer;
    buffer_len = len;
  }

  unfoldable pub lease_set_from : List ℕ → Option LeaseSet
  unfolding read_from_buffer
  lease_set_from buf = read_from_buffer (empty_set buf (length buf))

  -- A new array if the old one is too small. The mark of validity is kept.
  unfoldable pub update_lease_set : List ℕ → LeaseSet → Option LeaseSet
  unfolding read_from_buffer
  update_lease_set buf s = read_from_buffer (record s {
    leases = [];
    buffer = if ltb s.buffer_len (length buf) then buf else buf ++ drop (length buf) s.buffer;
    buffer_len = length buf;
  })

  abbrev pub zero_bytes : ℕ → List ℕ
  zero_bytes zero = []
  zero_bytes (suc n) = 0 ∷ zero_bytes n

  -- One minute before the tunnel expires, and up to 5 random milliseconds; the seconds have 32 bits.
  abbrev pub lease_of : ℕ → PoolTunnel → Lease
  lease_of random t = record {
    tunnel_gateway = t.next_ident_hash;
    tunnel_id = t.next_tunnel_id;
    end_date = ((t.creation_time + 660 - 60) % 2 ^ 32 * 1000 + random) % 2 ^ 64;
  }

  unfoldable pub lease_bytes : Lease → List ℕ
  unfolding htobe64buf
  lease_bytes l = l.tunnel_gateway ++ (htobe32buf l.tunnel_id ++ htobe64buf l.end_date)

  unfoldable pub leases_bytes : List Lease → List ℕ
  unfolding lease_bytes
  leases_bytes [] = []
  leases_bytes (l ∷ ls) = lease_bytes l ++ leases_bytes ls

  -- The leases for tunnels, with the random numbers of the draws.
  unfoldable pub leases_of : (ℕ → ℕ) → ℕ → TunnelPool → List ℕ → List Lease
  leases_of random draw pool [] = []
  leases_of random draw pool (p ∷ ps) =
      lease_of (random draw) (pool.inbound p) ∷ leases_of random (draw + 1) pool ps

  abbrev pub unsigned_bytes : List Lease → List ℕ
  unsigned_bytes leases =
      ids.identity_bytes
      ++ (ids.encryption_public_key
          ++ (zero_bytes (ids.signing_public_key_len ids.identity_bytes)
              ++ (length leases % 256 ∷ leases_bytes leases)))

  abbrev pub pool_leases : (ℕ → ℕ) → ℕ → TunnelPool → List Lease
  pool_leases random draw pool =
      leases_of random draw pool (get_inbound_tunnels pool.inbound 5 pool.inbound_tunnels)

  -- A pool without a destination has no lease set.
  abbrev pub no_lease_set : LeaseSet
  no_lease_set = record (empty_set [] 0) { is_valid = false }

  -- The bytes of a new lease set, signed. `slack` is the rest of the array of 3072 bytes, which is
  -- taken to be long enough for them.
  unfoldable pub create_lease_set : (ℕ → ℕ) → ℕ → TunnelPool → List ℕ → Option LeaseSet
  unfolding read_from_buffer leases_of leases_bytes get_inbound_tunnels
  create_lease_set random draw pool slack =
      let signed = unsigned_bytes (pool_leases random draw pool) in
      let signature = ids.sign signed in
      if pool.has_destination
      then read_from_buffer
          (empty_set (signed ++ (signature ++ slack)) (length signed + length signature))
      else some no_lease_set

-- The threshold of a minute is taken off in 64 bits.
unfoldable pub get_non_expired_leases : ℕ → Bool → List Lease → List Lease
get_non_expired_leases ts with_threshold [] = []
get_non_expired_leases ts with_threshold (l ∷ ls) =
    let rest = get_non_expired_leases ts with_threshold ls in
    let end_date =
      if with_threshold then l.end_date else (l.end_date + 2 ^ 64 - 60 * 1000) % 2 ^ 64 in
    if ltb ts end_date then l ∷ rest else rest

unfoldable pub has_expired_leases : ℕ → List Lease → Bool
has_expired_leases ts [] = false
has_expired_leases ts (l ∷ ls) = if leb l.end_date ts then true else has_expired_leases ts ls

unfoldable pub has_non_expired_leases : ℕ → List Lease → Bool
has_non_expired_leases ts [] = false
has_non_expired_leases ts (l ∷ ls) =
    if ltb ts l.end_date then true else has_non_expired_leases ts ls
