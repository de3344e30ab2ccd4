-- ===== src/Tunnel/Endpoint/Concatenate.antt =====
-- The concatenation of fragments in core/tunnel/TunnelEndpoint.cpp: when it stays in its buffer.
use kovri.Common.{
  ℕ, ◌+◌, ◌≤◌, ◌<◌, ◌≡◌, refl, List, ◌++◌, some, Bool-cases, inl, inr, ltb, length, length-append,
  arith,
}
use kovri.Tunnel.Block.{I2npMessage, end_of}
use kovri.Tunnel.Endpoint.{concatenate}

-- A buffer as the code allocates it: two bytes in front, and `maxLen` within its size.
pub record IsBuffer (m : I2npMessage) : Type 0 where
  pub front : 2 ≤ m.offset
  pub within : m.max_len ≤ m.capacity
  pub bounded : m.max_len ≤ 32768

-- While the sum stays below the maximum of an I2NP message the bytes are appended in bounds, in a
-- new buffer if need be.
pub concatenate_lem :
    (m : I2npMessage) (fragment : List ℕ)
    → IsBuffer m
    → end_of m + length fragment < 32768
    → (m' : I2npMessage) × (concatenate m fragment ≡ some m')
      × (m'.bytes ≡ m.bytes ++ fragment)
      × IsBuffer m'
      × (end_of m' ≤ end_of m + length fragment)
unfolding concatenate
concatenate_lem m fragment v h = elim (Bool-cases (ltb m.max_len (end_of m + length fragment))) [
  | inl grow ↦ (
    record m { offset = 2; capacity = 32784; bytes = m.bytes ++ fragment },
    ground arith,
    refl,
    ground arith,
    omega (arith, length-append m.bytes fragment),
  )
  | inr same ↦ (
    record m { bytes = m.bytes ++ fragment },
    ground arith,
    refl,
    ground arith,
    omega (arith, length-append m.bytes fragment),
  )
]
