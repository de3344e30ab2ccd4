-- ===== src/Tunnel/Pool/Next.antt =====
-- What `GetNextTunnel` of core/tunnel/TunnelPool.cpp chooses.
use kovri.Common.{
  ℕ, zero, suc, ◌≡◌, ◌≢◌, refl, ◌⊎◌, inl, inr, List, [], ◌∷◌, Option, none, some, true, false,
  if◌then◌else◌, ◌&&◌, not, Bool-cases, All, arith,
}
use kovri.Tunnel.Pool.{is_tunnel_established, Heap, is_same, find_next, get_next_tunnel}

-- A tunnel that may be chosen: established, not the excluded one, and one of those.
abbrev pub Fits : Heap → Option ℕ → ℕ → Type 0
Fits heap excluded p = (is_tunnel_established (heap p).state && not (is_same excluded p)) ≡ true

abbrev pub IsIn : ℕ → List ℕ → Type 0
IsIn p [] = p ≢ p
IsIn p (q ∷ qs) = (p ≡ q) ⊎ IsIn p qs

-- What the loop comes to: nothing if there is no such tunnel, or one of them.
data Chosen (heap : Heap) (excluded : Option ℕ) (ps : List ℕ) : Option ℕ → Type 0 where
  no_one :
      All (λ p. (is_tunnel_established (heap p).state && not (is_same excluded p)) ≡ false) ps
      → Chosen heap excluded ps none
  chosen : (p : ℕ) → Fits heap excluded p → IsIn p ps → Chosen heap excluded ps (some p)

Chosen-later :
    {heap : Heap} {excluded : Option ℕ} {ps : List ℕ} {tunnel : Option ℕ} (p : ℕ)
    → (is_tunnel_established (heap p).state && not (is_same excluded p)) ≡ false
    → Chosen heap excluded ps tunnel
    → Chosen heap excluded (p ∷ ps) tunnel
Chosen-later p f (no_one all) = no_one (f, all)
Chosen-later p f (chosen q fits i) = chosen q fits (inr i)

IsIn-behind : (p q r : ℕ) (ps : List ℕ) → (p ≡ q) ⊎ IsIn p ps → (p ≡ q) ⊎ IsIn p (r ∷ ps)
IsIn-behind p q r ps (inl e) = inl e
IsIn-behind p q r ps (inr i) = inr (inr i)

-- With a tunnel in hand the loop ends with a tunnel: that one, or one behind it.
find_next-kept :
    (heap : Heap) (excluded : Option ℕ) (ind q : ℕ) (ps : List ℕ)
    → Fits heap excluded q
    → (p : ℕ) × (find_next heap excluded ind (some q) ps ≡ some p)
      × Fits heap excluded p
      × ((p ≡ q) ⊎ IsIn p ps)
unfolding find_next
find_next-kept heap excluded ind q [] f = (q, refl, f, inl refl)
find_next-kept heap excluded zero q (p ∷ ps) f =
    elim (Bool-cases (is_tunnel_established (heap p).state && not (is_same excluded p))) [
      | inl h ↦ (p, rw h refl, h, inr (inl refl))
      | inr h ↦
          let (r, e, g, i) = find_next-kept heap excluded zero q ps f in
          (r, rw h e, g, IsIn-behind r q p ps i)
    ]
find_next-kept heap excluded (suc ind) q (p ∷ ps) f =
    elim (Bool-cases (is_tunnel_established (heap p).state && not (is_same excluded p))) [
      | inl h ↦ let (r, e, g, i) = find_next-kept heap excluded ind p ps h in (r, rw h e, g, inr i)
      | inr h ↦
          let (r, e, g, i) = find_next-kept heap excluded (suc ind) q ps f in
          (r, rw h e, g, IsIn-behind r q p ps i)
    ]

find_next-Chosen :
    (heap : Heap) (excluded : Option ℕ) (ind : ℕ) (ps : List ℕ)
    → Chosen heap excluded ps (find_next heap excluded ind none ps)
unfolding find_next
find_next-Chosen heap excluded ind [] = no_one tt
find_next-Chosen heap excluded zero (p ∷ ps) =
    elim (Bool-cases (is_tunnel_established (heap p).state && not (is_same excluded p))) [
      | inl h ↦ rw h (chosen p h (inl refl))
      | inr h ↦ rw h (Chosen-later p h (find_next-Chosen heap excluded zero ps))
    ]
find_next-Chosen heap excluded (suc ind) (p ∷ ps) =
    elim (Bool-cases (is_tunnel_established (heap p).state && not (is_same excluded p))) [
      | inl h ↦
          let (r, e, g, i) = find_next-kept heap excluded ind p ps h in rw (h, e) (chosen r g i)
      | inr h ↦ rw h (Chosen-later p h (find_next-Chosen heap excluded (suc ind) ps))
    ]

-- The choice in full: a tunnel that fits, or without one the excluded tunnel exactly if that is
-- established; and nothing of an empty pool.
pub data Next (heap : Heap) (excluded : Option ℕ) (ps : List ℕ) : Option ℕ → Type 0 where
  fitting : (p : ℕ) → Fits heap excluded p → IsIn p ps → Next heap excluded ps (some p)
  only_excluded :
      (p : ℕ)
      → All (λ q. (is_tunnel_established (heap q).state && not (is_same excluded q)) ≡ false) ps
      → excluded ≡ some p
      → is_tunnel_established (heap p).state ≡ true
      → Next heap excluded ps (some p)
  nothing_there :
      All (λ q. (is_tunnel_established (heap q).state && not (is_same excluded q)) ≡ false) ps
      → ((p : ℕ) → excluded ≡ some p → is_tunnel_established (heap p).state ≡ false)
      → Next heap excluded ps none
  empty_pool : ps ≡ [] → Next heap excluded ps none

-- The state of the excluded tunnel, read from the equation that names it.
not_established :
    (heap : Heap) (q : ℕ)
    → is_tunnel_established (heap q).state ≡ false
    → (p : ℕ) → some q ≡ some p
    → is_tunnel_established (heap p).state ≡ false
not_established heap q h p e = ground (arith, h, e)

abbrev or_excluded : Heap → Option ℕ → Option ℕ → Option ℕ
or_excluded heap excluded (some q) = some q
or_excluded heap none none = none
or_excluded heap (some q) none = if is_tunnel_established (heap q).state then some q else none

to_next :
    (heap : Heap) (excluded : Option ℕ) (ps : List ℕ) {found : Option ℕ}
    → Chosen heap excluded ps found
    → Next heap excluded ps (or_excluded heap excluded found)
to_next heap excluded ps (chosen p f i) = fitting p f i
to_next heap none ps (no_one all) = nothing_there all λ p e. cc
to_next heap (some q) ps (no_one all) = elim (Bool-cases (is_tunnel_established (heap q).state)) [
  | inl h ↦ rw (or_excluded, h) (only_excluded q all refl h)
  | inr h ↦ rw (or_excluded, h) (nothing_there all (not_established heap q h))
]

-- The next tunnel is an established one of the pool and not the excluded one. If there is no such
-- tunnel, it is the excluded one exactly if that is established, and none otherwise; of an empty
-- pool it is none.
pub get_next_tunnel-Next :
    (heap : Heap) (draw : ℕ) (ps : List ℕ) (excluded : Option ℕ)
    → Next heap excluded ps (get_next_tunnel heap draw ps excluded)
unfolding get_next_tunnel
get_next_tunnel-Next heap draw [] excluded = empty_pool refl
get_next_tunnel-Next heap draw (p ∷ ps) excluded =
    to_next heap excluded (p ∷ ps) (find_next-Chosen heap excluded draw (p ∷ ps))
