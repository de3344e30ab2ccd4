-- ===== src/LeaseSet/RoundTrip.antt =====
-- A lease set of core/LeaseSet.cpp that is made is read back.
use kovri.Common.{
  ℕ, zero, suc, ◌+◌, ◌-◌, ◌*◌, ◌/◌, ◌%◌, ◌^◌, ◌≤◌, ◌<◌, ◌≡◌, refl, ap, ◌∙◌, List, [], ◌∷◌, ◌++◌,
  some, Bool, true, false, arith, length, All, drop, read_bytes-append, bufbe8toh,
  bufbe32toh-htobe32buf, htobe32buf, append_assoc, drop-append, take-append, length-append, ◌==◌,
  ◌&&◌, not, if◌then◌else◌, Option,
}
use kovri.Ssu.Header.{htobe64buf}
use kovri.LeaseSet.{
  Lease, LeaseSet, LocalIdentity, bufbe64toh, read_lease, read_leases, read_from_buffer,
  lease_bytes, leases_bytes, unsigned_bytes, zero_bytes, empty_set, leases_of, pool_leases,
  no_lease_set, create_lease_set,
}
use kovri.Tunnel.Pool.{Heap, TunnelPool, is_tunnel_established, get_inbound_tunnels}

-- Fields as they fit into the bytes.
abbrev pub IsLease : Lease → Type 0
IsLease l = (length l.tunnel_gateway ≡ 32) × (l.tunnel_id < 2 ^ 32) × (l.end_date < 2 ^ 64)

bufbe64toh-htobe64buf :
    (n : ℕ) (r : List ℕ) → n < 2 ^ 64 → bufbe64toh (htobe64buf n ++ r) ≡ some (n, r)
unfolding bufbe64toh htobe64buf
bufbe64toh-htobe64buf n r h =
    let high = n / 2 ^ 32 % 2 ^ 32 in
    let low = n % 2 ^ 32 in
    let whole : high * 2 ^ 32 + low ≡ n = omega (arith, h) in
    rw
      (
        append_assoc (htobe32buf high) (htobe32buf low) r,
        bufbe32toh-htobe32buf high (htobe32buf low ++ r) (omega arith),
        bufbe32toh-htobe32buf low r (omega arith),
        whole,
      )
      refl

module _ (ids : LocalIdentity) where
  read_lease-lease_bytes :
      (l : Lease) (r : List ℕ) → IsLease l → read_lease (lease_bytes ids l ++ r) ≡ some (l, r)
  unfolding read_lease lease_bytes
  read_lease-lease_bytes l r h =
      let id = htobe32buf l.tunnel_id in
      let date = htobe64buf l.end_date in
      rw
        (
          append_assoc l.tunnel_gateway (id ++ date) r,
          append_assoc id date r,
          read_bytes-append 32 l.tunnel_gateway (id ++ (date ++ r)) h.0,
          bufbe32toh-htobe32buf l.tunnel_id (date ++ r) h.1,
          bufbe64toh-htobe64buf l.end_date r h.2,
        )
        refl

  read_leases-leases_bytes :
      (ls : List Lease) (r : List ℕ)
      → All IsLease ls
      → read_leases (length ls) (leases_bytes ids ls ++ r) ≡ some (ls, r)
  unfolding read_leases leases_bytes
  read_leases-leases_bytes [] r h = refl
  read_leases-leases_bytes (l ∷ ls) r h =
      rw
        (
          read_leases,
          append_assoc (lease_bytes ids l) (leases_bytes ids ls) r,
          read_lease-lease_bytes l (leases_bytes ids ls ++ r) h.0,
          read_leases-leases_bytes ls r h.1,
        )
        refl

-- What identities, keys and signatures promise.
pub record IsIdentity (ids : LocalIdentity) : Type 0 where
  pub from_buffer-identity_bytes :
      (rest : List ℕ) (len : ℕ)
      → length ids.identity_bytes ≤ len
      → ids.from_buffer (ids.identity_bytes ++ rest) len
        ≡ (length ids.identity_bytes, ids.identity_bytes)
  pub length-encryption_public_key : length ids.encryption_public_key ≡ 256
  pub verify-sign :
      (signed rest : List ℕ) → ids.verify ids.identity_bytes signed (ids.sign signed ++ rest) ≡ true

length-zero_bytes : (ids : LocalIdentity) (n : ℕ) → length (zero_bytes ids n) ≡ n
length-zero_bytes ids zero = refl
length-zero_bytes ids (suc n) = omega (arith, length-zero_bytes ids n)

and_true : (b : Bool) → (b && true) ≡ b
and_true true = refl
and_true false = refl

some-if :
    (b : Bool) (made : Option LeaseSet) (set other : LeaseSet)
    → made ≡ some set
    → (if b then made else some other) ≡ some (if b then set else other)
some-if true made set other e = e
some-if false made set other e = refl

module _ (ids : LocalIdentity) (laws : IsIdentity ids) where
  -- What is read of a lease set in a buffer.
  abbrev pub read_set : List ℕ → ℕ → List Lease → LeaseSet
  read_set buffer len ls = record {
    is_valid = not (length ls == 0);
    leases = ls;
    identity = ids.identity_bytes;
    encryption_key = ids.encryption_public_key;
    buffer = buffer;
    buffer_len = len;
  }

  abbrev behind_identity : List Lease → List ℕ → List ℕ
  behind_identity ls r =
      ids.encryption_public_key
      ++ (zero_bytes ids (ids.signing_public_key_len ids.identity_bytes)
          ++ (length ls % 256 ∷ (leases_bytes ids ls ++ r)))

  unsigned_bytes-append :
      (ls : List Lease) (r : List ℕ)
      → unsigned_bytes ids ls ++ r ≡ ids.identity_bytes ++ behind_identity ls r
  unsigned_bytes-append ls r =
      let key = ids.encryption_public_key in
      let unused = zero_bytes ids (ids.signing_public_key_len ids.identity_bytes) in
      let tail = length ls % 256 ∷ leases_bytes ids ls in
      append_assoc ids.identity_bytes (key ++ (unused ++ tail)) r
      ∙ ap (λ l. ids.identity_bytes ++ l)
          (append_assoc key (unused ++ tail) r ∙ ap (λ l. key ++ l) (append_assoc unused tail r))

  pub read_from_buffer-unsigned_bytes :
      (ls : List Lease) (signed slack : List ℕ) (len : ℕ)
      → signed ≡ unsigned_bytes ids ls
      → All IsLease ls
      → length ls < 256
      → length ids.identity_bytes ≤ len
      → let buffer = signed ++ (ids.sign signed ++ slack) in
        read_from_buffer ids (empty_set ids buffer len) ≡ some (read_set buffer len ls)
  unfolding read_from_buffer bufbe8toh
  read_from_buffer-unsigned_bytes ls signed slack len made h few fits =
      let behind = ids.sign signed ++ slack in
      let key = ids.encryption_public_key in
      let n = ids.signing_public_key_len ids.identity_bytes in
      let count : length ls % 256 ≡ length ls = omega (arith, few) in
      let whole = ap (λ bs. bs ++ behind) made ∙ unsigned_bytes-append ls behind in
      let from : ids.from_buffer (signed ++ behind) len
          ≡ (length ids.identity_bytes, ids.identity_bytes) =
        ap (λ bs. ids.from_buffer bs len) whole
        ∙ laws.from_buffer-identity_bytes (behind_identity ls behind) len fits in
      let rest : drop (length ids.identity_bytes) (signed ++ behind) ≡ behind_identity ls behind =
        ap (drop (length ids.identity_bytes)) whole
        ∙ drop-append (length ids.identity_bytes) ids.identity_bytes (behind_identity ls behind)
            refl in
      let sized : length (signed ++ behind) - length behind ≡ length signed =
        omega (arith, length-append signed behind) in
      let body = leases_bytes ids ls ++ behind in
      rw
        (
          read_from_buffer,
          from,
          rest,
          read_bytes-append 256 key (zero_bytes ids n ++ (length ls % 256 ∷ body))
              laws.length-encryption_public_key,
          read_bytes-append n (zero_bytes ids n) (length ls % 256 ∷ body) (length-zero_bytes ids n),
          count,
          read_leases-leases_bytes ids ls behind h,
          sized,
          take-append (length signed) signed behind refl,
          laws.verify-sign signed slack,
          and_true (not (length ls == 0)),
        )
        refl

  get_inbound_tunnels-few :
      (heap : Heap) (num : ℕ) (ps : List ℕ) → length (get_inbound_tunnels heap num ps) ≤ num
  unfolding get_inbound_tunnels
  get_inbound_tunnels-few heap zero ps = omega arith
  get_inbound_tunnels-few heap (suc num) [] = omega arith
  get_inbound_tunnels-few heap (suc num) (p ∷ ps) =
      let less = get_inbound_tunnels-few heap num ps in
      let more = get_inbound_tunnels-few heap (suc num) ps in
      elim (is_tunnel_established (heap p).state)
        as (λ b.
          length (
            if b
            then p ∷ get_inbound_tunnels heap num ps
            else get_inbound_tunnels heap (suc num) ps)
          ≤ suc num) [ true ↦ omega (arith, less) | false ↦ more ]

  -- The next hop of every inbound tunnel has a hash and an identifier.
  abbrev pub HasNextHops : TunnelPool → Type 0
  HasNextHops pool =
      (p : ℕ)
      → (length (pool.inbound p).next_ident_hash ≡ 32) × ((pool.inbound p).next_tunnel_id < 2 ^ 32)

  leases_of-IsLease :
      (random : ℕ → ℕ) (draw : ℕ) (pool : TunnelPool) (ps : List ℕ)
      → HasNextHops pool
      → All IsLease (leases_of ids random draw pool ps)
        × (length (leases_of ids random draw pool ps) ≡ length ps)
  unfolding leases_of
  leases_of-IsLease random draw pool [] h = (tt, refl)
  leases_of-IsLease random draw pool (p ∷ ps) h =
      let (rest, n) = leases_of-IsLease random (draw + 1) pool ps h in
      ((((h p).0, (h p).1, omega arith), rest), omega (arith, n))

  -- Every inbound tunnel of the pool has a next hop with a hash of 32 bytes and an identifier below
  -- 2 ^ 32. What is made of the tunnels of a pool with a destination is read back: its identity, its
  -- key and the leases, valid if there is one; without a destination there is no lease set.
  pub create_lease_set-read_set :
      (random : ℕ → ℕ) (draw : ℕ) (pool : TunnelPool) (slack : List ℕ)
      → HasNextHops pool
      → let ls = pool_leases ids random draw pool in
        let signed = unsigned_bytes ids ls in
        let len = length signed + length (ids.sign signed) in
        create_lease_set ids random draw pool slack
        ≡ some (
            if pool.has_destination
            then read_set (signed ++ (ids.sign signed ++ slack)) len ls
            else no_lease_set ids)
  unfolding create_lease_set
  create_lease_set-read_set random draw pool slack h =
      let ps = get_inbound_tunnels pool.inbound 5 pool.inbound_tunnels in
      let ls = pool_leases ids random draw pool in
      let signed = unsigned_bytes ids ls in
      let tail : List ℕ =
        ids.encryption_public_key
        ++ (zero_bytes ids (ids.signing_public_key_len ids.identity_bytes)
            ++ (length ls % 256 ∷ leases_bytes ids ls)) in
      let (sound, n) = leases_of-IsLease random draw pool ps h in
      let few = get_inbound_tunnels-few pool.inbound 5 pool.inbound_tunnels in
      let made =
        read_from_buffer-unsigned_bytes ls signed slack (length signed + length (ids.sign signed))
          refl sound (omega (arith, n, few))
          (omega (arith, length-append ids.identity_bytes tail)) in
      some-if pool.has_destination _ _ (no_lease_set ids) made
