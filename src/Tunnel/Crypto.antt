-- ===== src/Tunnel/Crypto.antt =====
-- What core/tunnel uses of Crypto++: SHA256 and the random number generator. `draw` counts the
-- calls of the generator, which may answer each call differently.
use kovri.Common.{ℕ, List, ◌≡◌, ◌≤◌, length}

pub record Crypto : Type 0 where
  pub sha256 : List ℕ → List ℕ
  -- `GenerateBlock`: the draw and the number of bytes.
  pub generate_block : ℕ → ℕ → List ℕ
  -- `GenerateWord32`: the draw and the bounds, both included.
  pub generate_word32 : ℕ → ℕ → ℕ → ℕ
  pub length-sha256 : (bs : List ℕ) → length (sha256 bs) ≡ 32
  pub length-generate_block : (draw n : ℕ) → length (generate_block draw n) ≡ n
  pub generate_word32_bounds :
      (draw lo hi : ℕ)
      → lo ≤ hi
      → (lo ≤ generate_word32 draw lo hi) × (generate_word32 draw lo hi ≤ hi)
