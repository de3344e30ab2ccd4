-- ===== src/Common/Bytes.antt =====
-- Bytes as numbers, and the big-endian reads and writes of core/util/I2PEndian.h.
use Prim.Native.Nat.{ℕ, zero, suc, ◌+◌, ◌*◌, ◌/◌, ◌%◌, ◌^◌, ◌<◌}
use mathlib.Core.Path.{◌≡◌, refl, ap}
use mathlib.Core.Bool.{Bool}
use mathlib.Core.List.{List, [], ◌∷◌, ◌++◌}
use mathlib.Core.Option.{Option, none, some}
use native.Mathlib.Omega.{arith}
use kovri.Common.Tests.{◌==◌, Option-cases}
use mathlib.Core.Logic.{inl, inr}
use kovri.Common.Lists.{length}

abbrev pub IsByte : ℕ → Type 0
IsByte b = b < 256

-- `x & (1 << k)` as a condition.
abbrev pub test_bit : ℕ → ℕ → Bool
test_bit x k = (x / 2 ^ k % 2) == 1

unfoldable pub htobe16buf : ℕ → List ℕ
htobe16buf n = (n / 256 % 256) ∷ (n % 256) ∷ []

unfoldable pub htobe32buf : ℕ → List ℕ
htobe32buf n = (n / 2 ^ 24 % 256) ∷ (n / 2 ^ 16 % 256) ∷ (n / 2 ^ 8 % 256) ∷ (n % 256) ∷ []

-- A read through a pointer: `n` bytes and what follows them. `none` is a read past the buffer.
unfoldable pub read_bytes : ℕ → List ℕ → Option (List ℕ × List ℕ)
read_bytes zero bs = some ([], bs)
read_bytes (suc n) [] = none
read_bytes (suc n) (b ∷ bs) = elim (read_bytes n bs) [
  | none ↦ none
  | some (xs, rest) ↦ some (b ∷ xs, rest)
]

unfoldable pub bufbe8toh : List ℕ → Option (ℕ × List ℕ)
bufbe8toh (a ∷ r) = some (a, r)
bufbe8toh _ = none

unfoldable pub bufbe16toh : List ℕ → Option (ℕ × List ℕ)
bufbe16toh (a ∷ b ∷ r) = some (a * 256 + b, r)
bufbe16toh _ = none

unfoldable pub bufbe32toh : List ℕ → Option (ℕ × List ℕ)
bufbe32toh (a ∷ b ∷ c ∷ d ∷ r) = some (a * 2 ^ 24 + b * 2 ^ 16 + c * 2 ^ 8 + d, r)
bufbe32toh _ = none

pub bufbe16toh-htobe16buf :
    (n : ℕ) (r : List ℕ) → n < 2 ^ 16 → bufbe16toh (htobe16buf n ++ r) ≡ some (n, r)
unfolding bufbe16toh htobe16buf
bufbe16toh-htobe16buf n r h = ap (λ (k : ℕ). some (k, r)) (omega arith)

pub bufbe32toh-htobe32buf :
    (n : ℕ) (r : List ℕ) → n < 2 ^ 32 → bufbe32toh (htobe32buf n ++ r) ≡ some (n, r)
unfolding bufbe32toh htobe32buf
bufbe32toh-htobe32buf n r h = ap (λ (k : ℕ). some (k, r)) (omega arith)

pub read_bytes-append :
    (n : ℕ) (xs r : List ℕ) → length xs ≡ n → read_bytes n (xs ++ r) ≡ some (xs, r)
unfolding read_bytes
read_bytes-append zero [] r e = refl
read_bytes-append zero (x ∷ xs) r e = absurd (omega arith)
read_bytes-append (suc n) [] r e = absurd (omega arith)
read_bytes-append (suc n) (x ∷ xs) r e = rw (read_bytes-append n xs r (omega arith))

pub read_bytes-short : (n : ℕ) (bs : List ℕ) → length bs < n → read_bytes n bs ≡ none
unfolding read_bytes
read_bytes-short zero bs h = absurd (omega arith)
read_bytes-short (suc n) [] h = refl
read_bytes-short (suc n) (b ∷ bs) h = rw (read_bytes-short n bs (omega arith))

pub read_bytes-length :
    (n : ℕ) (bs xs r : List ℕ)
    → read_bytes n bs ≡ some (xs, r)
    → (length xs ≡ n) × (length bs ≡ n + length r)
unfolding read_bytes
read_bytes-length zero bs xs r e = (ground arith, ground arith)
read_bytes-length (suc n) [] xs r e = cc
read_bytes-length (suc n) (b ∷ bs) xs r e = elim (Option-cases (read_bytes n bs)) [
  | inl p ↦ ground (arith, p)
  | inr ((ys, q), p) ↦ ground (arith, p, read_bytes-length n bs ys q p)
]

-- The number that four bytes stand for.
abbrev pub be32 : List ℕ → ℕ
be32 (a ∷ b ∷ c ∷ d ∷ r) = a * 2 ^ 24 + b * 2 ^ 16 + c * 2 ^ 8 + d
be32 _ = 0

pub bufbe32toh-append :
    (ids r : List ℕ) → length ids ≡ 4 → bufbe32toh (ids ++ r) ≡ some (be32 ids, r)
unfolding bufbe32toh
bufbe32toh-append (a ∷ b ∷ c ∷ d ∷ []) r e = refl
bufbe32toh-append [] r e = absurd (omega arith)
bufbe32toh-append (a ∷ []) r e = absurd (omega arith)
bufbe32toh-append (a ∷ b ∷ []) r e = absurd (omega arith)
bufbe32toh-append (a ∷ b ∷ c ∷ []) r e = absurd (omega arith)
bufbe32toh-append (a ∷ b ∷ c ∷ d ∷ f ∷ t) r e = absurd (omega arith)
