-- ===== src/Common/Maps.antt =====
-- `std::map<uint32_t, V>` as an association list in ascending order of its keys.
use Prim.Native.Nat.{ℕ, ◌<◌, ◌≤◌}
use mathlib.Core.Path.{◌≡◌, refl}
use mathlib.Core.List.{List, [], ◌∷◌}
use mathlib.Core.Option.{Option, none, some}
use native.Mathlib.Omega.{arith}
use kovri.Common.Tests.{ltb, ◌==◌, if◌then◌else◌}

abbrev pub Dict {ℓ} : Type ℓ → Type ℓ
Dict V = List (ℕ × V)

module _ {ℓ} {V : Type ℓ} where
  -- `find`: `none` is `end()`.
  unfoldable pub lookup : ℕ → Dict V → Option V
  lookup key [] = none
  lookup key ((j, v) ∷ d) = if j == key then some v else lookup key d

  -- A write through an iterator or a reference, and the insertion of a new key.
  unfoldable pub insert : ℕ → V → Dict V → Dict V
  insert key v [] = (key, v) ∷ []
  insert key v ((j, old) ∷ d) =
      if ltb key j
      then (key, v) ∷ (j, old) ∷ d
      else if j == key
      then (key, v) ∷ d
      else (j, old) ∷ insert key v d

  unfoldable pub erase : ℕ → Dict V → Dict V
  erase key [] = []
  erase key ((j, v) ∷ d) = if j == key then erase key d else (j, v) ∷ erase key d

  pub lookup-insert :
      (key j : ℕ) (v : V) (d : Dict V)
      → lookup j (insert key v d) ≡ (if key == j then some v else lookup j d)
  unfolding lookup insert
  lookup-insert key j v [] = refl
  lookup-insert key j v ((i, old) ∷ d) = ground (arith, lookup-insert key j v d)

  pub lookup-erase :
      (key j : ℕ) (d : Dict V) → lookup j (erase key d) ≡ (if key == j then none else lookup j d)
  unfolding lookup erase
  lookup-erase key j [] = ground arith
  lookup-erase key j ((i, old) ∷ d) = ground (arith, lookup-erase key j d)

-- The order of the keys: above a bound, and ascending.
abbrev pub IsAbove {ℓ} : {V : Type ℓ} → ℕ → Dict V → Type 0
IsAbove key [] = Unit
IsAbove key ((j, v) ∷ d) = (key < j) × IsAbove j d

abbrev pub IsSorted {ℓ} : {V : Type ℓ} → Dict V → Type 0
IsSorted [] = Unit
IsSorted ((j, v) ∷ d) = IsAbove j d

module _ {ℓ} {V : Type ℓ} where
  pub lookup-IsAbove : (key j : ℕ) (d : Dict V) → IsAbove key d → j ≤ key → lookup j d ≡ none
  unfolding lookup
  lookup-IsAbove key j [] s h = refl
  lookup-IsAbove key j ((i, v) ∷ d) s h =
      ground (arith, lookup-IsAbove i j d s.1 (omega (arith, s.0)), s.0)

  insert-IsAbove :
      (key i : ℕ) (v : V) (d : Dict V) → key < i → IsAbove key d → IsAbove key (insert i v d)
  unfolding insert
  insert-IsAbove key i v [] h s = (h, tt)
  insert-IsAbove key i v ((j, old) ∷ d) h s =
      let deep = insert-IsAbove j i v d in ground (arith, deep, s.0, s.1)

  pub insert-IsSorted : (i : ℕ) (v : V) (d : Dict V) → IsSorted d → IsSorted (insert i v d)
  unfolding insert
  insert-IsSorted i v [] s = tt
  insert-IsSorted i v ((j, old) ∷ d) s = ground (arith, insert-IsAbove j i v d, s)

  pub IsAbove-IsSorted : (key : ℕ) (d : Dict V) → IsAbove key d → IsSorted d
  IsAbove-IsSorted key [] s = tt
  IsAbove-IsSorted key ((j, v) ∷ d) s = s.1

  pub IsAbove-lower : (key j : ℕ) (d : Dict V) → key < j → IsAbove j d → IsAbove key d
  IsAbove-lower key j [] h s = tt
  IsAbove-lower key j ((i, v) ∷ d) h s = (omega (arith, h, s.0), s.1)
