-- ===== src/Streaming/Lease/Another.antt =====
-- Which lease `UpdateCurrentRemoteLease` of api/Streaming.cpp takes.
use kovri.Common.{
  if_true, if_false, ℕ, zero, suc, ◌+◌, ◌-◌, ◌%◌, ◌≤◌, ◌<◌, ◌≡◌, ◌≢◌, refl, ap, sym, subst, ◌∙◌,
  List, [], ◌∷◌, Option, none, some, Bool, true, false, if◌then◌else◌, ◌&&◌, ◌||◌, not, arith, ltb,
  ◌==◌, inl, inr, Bool-cases, ltb→lt, length, get_elem?,
}
use native.Mathlib.Nat.{mod-eq_of_lt, mod_self}
use kovri.Tunnel.Endpoint.{same_bytes}
use kovri.Streaming.Lease.{
  Lease, LeaseChoice, Remote, same_gateway, lease_at, is_none, without_lease, random_lease,
  choose_lease, update_current_remote_lease,
}

-- The lease is one of the list.
abbrev pub IsOneOf : Lease → List Lease → Type 0
IsOneOf l ls = (i : ℕ) × (get_elem? ls i ≡ some l)

-- The numbers of the tunnels are all different.
abbrev pub HasDistinctTunnels : List Lease → Type 0
HasDistinctTunnels ls =
    (i j : ℕ) (l m : Lease)
    → get_elem? ls i ≡ some l
    → get_elem? ls j ≡ some m
    → l.tunnel_id ≡ m.tunnel_id
    → i ≡ j

elem_within : (ls : List Lease) (i : ℕ) → i < length ls → (l : Lease) × (get_elem? ls i ≡ some l)
elem_within [] i h = absurd (omega (arith, h))
elem_within (l ∷ ls) zero h = (l, refl)
elem_within (l ∷ ls) (suc i) h = elem_within ls i (omega (arith, h))

lease_at-elem :
    (ls : List Lease) (i : ℕ) (d l : Lease) → get_elem? ls i ≡ some l → lease_at ls i d ≡ l
lease_at-elem ls i d l e =
    ap (λ (o : Option Lease). elim o as (λ _. Lease) [ none ↦ d | some m ↦ m ]) e

abbrev IsAnother : Lease → List Lease → Lease → Type 0
IsAnother current ls l = IsOneOf l ls × (l.tunnel_id ≢ current.tunnel_id)

-- What is found, if anything.
abbrev Found : Lease → List Lease → Option Lease → Type 0
Found current ls none = Unit
Found current ls (some l) = IsAnother current ls l

Found-if :
    (current : Lease) (ls : List Lease) (b : Bool) (x y : Option Lease)
    → (b ≡ true → Found current ls x)
    → Found current ls y
    → Found current ls (if b then x else y)
Found-if current ls true x y k l = k refl
Found-if current ls false x y k l = l

Found-behind :
    (current m : Lease) (ls : List Lease) (o : Option Lease)
    → Found current ls o
    → Found current (m ∷ ls) o
Found-behind current m ls none f = tt
Found-behind current m ls (some l) ((i, at'), other) = ((suc i, at'), other)

same_gateway-Found :
    (current : Lease) (ls : List Lease) → Found current ls (same_gateway current ls)
unfolding same_gateway
same_gateway-Found current [] = tt
same_gateway-Found current (m ∷ ls) =
    Found-if current (m ∷ ls)
      (same_bytes m.tunnel_gateway current.tunnel_gateway && not (m.tunnel_id == current.tunnel_id))
      _ _ (λ e. ((0, refl), ground (arith, e)))
      (Found-behind current m ls (same_gateway current ls) (same_gateway-Found current ls))

-- The index of `random_lease`, when the drawn lease is the current tunnel and when it is not.
next_differs : (i n : ℕ) → 2 ≤ n → i < n → ((i + 1) % n ≢ i) × ((i + 1) % n < n)
next_differs i n h k = elim (Bool-cases (ltb (i + 1) n)) [
  | inl below ↦
      let e : (i + 1) % n ≡ i + 1 = mod-eq_of_lt (ltb→lt (i + 1) n below) in
      (λ d. omega (arith, d, e), omega (arith, e, ltb→lt (i + 1) n below))
  | inr last ↦
      let end : i + 1 ≡ n = ground (arith, last, k) in
      let e : (i + 1) % n ≡ 0 = ap (λ (m : ℕ). m % n) end ∙ mod_self n in
      (λ d. omega (arith, d, e, end, h), omega (arith, e, h))
]

random_lease-IsAnother :
    (r : Remote) (current : Lease) (ls : List Lease)
    → ((n : ℕ) → r.draw n ≤ n)
    → current.end_date ≢ 0
    → 2 ≤ length ls
    → HasDistinctTunnels ls
    → IsAnother current ls (random_lease r current ls)
unfolding random_lease
random_lease-IsAnother r current ls draws valid two distinct =
    let i = r.draw (length ls - 1) in
    let inside : i < length ls = omega (arith, draws (length ls - 1), two) in
    let (l, l_at) = elem_within ls i inside in
    let drawn : lease_at ls i current ≡ l = lease_at-elem ls i current l l_at in
    let j = (i + 1) % length ls in
    let (differs, j_inside) = next_differs i (length ls) two inside in
    let (m, m_at) = elem_within ls j j_inside in
    let again =
      not (current.end_date == 0) && ((lease_at ls i current).tunnel_id == current.tunnel_id) in
    elim (Bool-cases again) [
      | inl current_one ↦
          let found : lease_at ls (if again then j else i) current ≡ m =
            ap (λ (k : ℕ). lease_at ls k current) (if_true _ _ current_one)
            ∙ lease_at-elem ls j current m m_at in
          let same : l.tunnel_id ≡ current.tunnel_id =
            ap (λ (k : Lease). k.tunnel_id) (sym drawn) ∙ ground (arith, current_one) in
          subst (IsAnother current ls) (sym found)
            ((j, m_at), λ e. differs (distinct j i m l m_at l_at (e ∙ sym same)))
      | inr another ↦
          let found : lease_at ls (if again then j else i) current ≡ l =
            ap (λ (k : ℕ). lease_at ls k current) (if_false _ _ another) ∙ drawn in
          subst (IsAnother current ls) (sym found) (
            (i, l_at),
            λ e. ground (arith, another, valid, ap (λ (k : Lease). k.tunnel_id) drawn ∙ e),
          )
    ]

IsAnother-if :
    (current : Lease) (ls : List Lease) (b : Bool) (x y : Lease)
    → IsAnother current ls x
    → IsAnother current ls y
    → IsAnother current ls (if b then x else y)
IsAnother-if current ls true x y k l = k
IsAnother-if current ls false x y k l = l

chosen :
    (current random : Lease) (ls : List Lease) (expired : Bool) (o : Option Lease)
    → Found current ls o
    → IsAnother current ls random
    → IsAnother current ls
        (elim o as (λ _. Lease) [ none ↦ random | some l ↦ if expired then l else random ])
chosen current random ls expired none f k = k
chosen current random ls expired (some l) f k = IsAnother-if current ls expired l random f k

some_lease : (ls : List Lease) → 2 ≤ length ls → not (is_none ls) ≡ true
some_lease [] h = absurd (omega (arith, h))
some_lease (l ∷ ls) h = refl

-- There is a current lease, and a lease set with two leases at least that have not expired, for
-- different tunnels. Then the lease that is taken is one of them, and not for the current tunnel,
-- whether the current lease has expired or not, and whatever number up to the bound is drawn.
pub update_current_remote_lease-IsAnother :
    (r : Remote) (expired : Bool) (c : LeaseChoice)
    → (c.has_lease_set || r.found) ≡ true
    → ((n : ℕ) → r.draw n ≤ n)
    → c.current.end_date ≢ 0
    → 2 ≤ length (r.leases false)
    → HasDistinctTunnels (r.leases false)
    → IsAnother c.current (r.leases false) (update_current_remote_lease r expired c).current
unfolding update_current_remote_lease choose_lease
update_current_remote_lease-IsAnother r expired c has draws valid two distinct =
    let fresh = r.leases false in
    let random = random_lease r c.current fresh in
    let k =
      chosen c.current random fresh expired (same_gateway c.current fresh)
        (same_gateway-Found c.current fresh)
        (random_lease-IsAnother r c.current fresh draws valid two distinct) in
    let taken : LeaseChoice = record {
      has_lease_set = true;
      current = choose_lease r expired c.current fresh;
    } in
    let e : update_current_remote_lease r expired c ≡ taken =
      if_false (without_lease false c) _ (ap not has) ∙ if_true taken _ (some_lease fresh two) in
    subst (λ (d : LeaseChoice). IsAnother c.current fresh d.current) (sym e) k
