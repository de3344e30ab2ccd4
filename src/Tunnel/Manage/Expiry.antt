-- ===== src/Tunnel/Manage/Expiry.antt =====
-- When the pending and the transit tunnels of core/tunnel/Tunnel.cpp are forgotten.
use kovri.Common.{
  ℕ, suc, ◌+◌, ◌-◌, ◌%◌, ◌^◌, ◌≤◌, ◌<◌, ◌≡◌, refl, List, [], ◌∷◌, Option, none, some, Bool, true,
  false, arith, length, All, if◌then◌else◌, ltb, ◌&&◌,
}
use kovri.Tunnel.Pool.{
  TunnelState, pending, build_reply_received, build_failed, established, test_failed, failed,
  expiring,
}
use kovri.Tunnel.Manage.{
  PendingTunnel, Creations, manage_pending, manage_pending_tunnels, manage_transit_tunnels,
  note_hops, longest_timeout, get_transit_tunnels_expiration_timeout,
}

-- A tunnel that was made at `ts` or before, whose end has 32 bits.
abbrev pub IsTimely : ℕ → ℕ × ℕ → Type 0
IsTimely ts t = (t.1 ≤ ts) × (t.1 + 660 < 2 ^ 32)

abbrev EndsBy : ℕ → ℕ × ℕ → Type 0
EndsBy end t = t.1 + 660 ≤ end

longest_timeout-EndsBy :
    (ts timeout : ℕ) (tunnels : List (ℕ × ℕ))
    → ts < 2 ^ 32
    → All (IsTimely ts) tunnels
    → (timeout ≤ longest_timeout ts timeout tunnels)
      × All (EndsBy (ts + longest_timeout ts timeout tunnels)) tunnels
unfolding longest_timeout
longest_timeout-EndsBy ts timeout [] small h = (omega arith, tt)
longest_timeout-EndsBy ts timeout (t ∷ tunnels) small h =
    let left = (t.1 + 660 + 2 ^ 32 - ts) % 2 ^ 32 in
    let next = if ltb left (2 ^ 31) && ltb timeout left then left else timeout in
    let step : (timeout ≤ next) × (t.1 + 660 ≤ ts + next) = (ground arith, ground (arith, h)) in
    let (more, rest) = longest_timeout-EndsBy ts next tunnels small h.1 in
    ((omega (arith, step, more)), (omega (arith, step, more), rest))

manage_transit_tunnels-EndsBy :
    (end now : ℕ) (tunnels : List (ℕ × ℕ))
    → end < now
    → All (λ t. t.1 + 660 < 2 ^ 32) tunnels
    → All (EndsBy end) tunnels
    → manage_transit_tunnels now tunnels ≡ []
unfolding manage_transit_tunnels
manage_transit_tunnels-EndsBy end now [] later fits h = refl
manage_transit_tunnels-EndsBy end now (t ∷ tunnels) later fits h =
    let rest = manage_transit_tunnels-EndsBy end now tunnels later fits.1 h.1 in
    ground (arith, rest, later, h, fits)

-- Every transit tunnel was made at `ts` or before; then none is left when more than the timeout that
-- is asked for at `ts` has passed.
pub manage_transit_tunnels-timeout :
    (ts now : ℕ) (tunnels : List (ℕ × ℕ))
    → ts < 2 ^ 32
    → All (IsTimely ts) tunnels
    → ts + get_transit_tunnels_expiration_timeout ts tunnels < now
    → manage_transit_tunnels now tunnels ≡ []
unfolding get_transit_tunnels_expiration_timeout
manage_transit_tunnels-timeout ts now tunnels small h later =
    manage_transit_tunnels-EndsBy (ts + longest_timeout ts 0 tunnels) now tunnels later
      (fits tunnels h) (longest_timeout-EndsBy ts 0 tunnels small h).1
  where
    fits : (ls : List (ℕ × ℕ)) → All (IsTimely ts) ls → All (λ t. t.1 + 660 < 2 ^ 32) ls
    fits [] k = tt
    fits (l ∷ ls) k = (k.0.1, fits ls k.1)

-- A tunnel of the state may still be answered.
abbrev pub MayReply : TunnelState → ℕ → PendingTunnel → Type 0
MayReply pending ts t = ts ≤ (t.creation_time + 30) % 2 ^ 32
MayReply build_reply_received ts t = Unit
MayReply _ ts t = ⊥

abbrev pub IsAwaited : ℕ → ℕ × PendingTunnel → Type 0
IsAwaited ts p = MayReply p.1.state ts p.1

abbrev pub num_counted : Creations → ℕ
num_counted c = c.num_successive + c.num_failed

abbrev Step : TunnelState → ℕ → PendingTunnel → Creations → Bool × Creations → Type 0
Step st ts t c r =
    if r.0
    then MayReply st ts t × (num_counted r.1 ≡ num_counted c)
    else num_counted r.1 ≡ num_counted c + 1

num_counted-note_hops :
    (hops : Option (List (Option ℕ))) (c : Creations)
    → num_counted (note_hops hops c) ≡ num_counted c
num_counted-note_hops none c = refl
num_counted-note_hops (some hops) c = refl

manage_pending-Step :
    (st : TunnelState) (ts : ℕ) (t : PendingTunnel) (c : Creations)
    → Step st ts t c (manage_pending st ts t c)
unfolding manage_pending
manage_pending-Step pending ts t c =
    let same = num_counted-note_hops t.hops c in ground (arith, same)
manage_pending-Step build_failed ts t c = omega arith
manage_pending-Step build_reply_received ts t c = (tt, refl)
manage_pending-Step established ts t c = omega arith
manage_pending-Step test_failed ts t c = omega arith
manage_pending-Step failed ts t c = omega arith
manage_pending-Step expiring ts t c = omega arith

abbrev pub Managed : ℕ → ℕ → List (ℕ × PendingTunnel) × Creations → Type 0
Managed ts total r = All (IsAwaited ts) r.0 × (length r.0 + num_counted r.1 ≡ total)

-- What is left is a tunnel whose reply has come, or that waits for it and has time; and a tunnel is
-- left, or counted as a success or a failure, exactly once.
pub manage_pending_tunnels-Managed :
    (ts : ℕ) (tunnels : List (ℕ × PendingTunnel)) (c : Creations)
    → Managed ts (length tunnels + num_counted c) (manage_pending_tunnels ts tunnels c)
unfolding manage_pending_tunnels
manage_pending_tunnels-Managed ts [] c = (tt, refl)
manage_pending_tunnels-Managed ts (p ∷ ps) c =
    let r = manage_pending p.1.state ts p.1 c in
    let (awaited, counted) = manage_pending_tunnels-Managed ts ps r.1 in
    let rest = manage_pending_tunnels ts ps r.1 in
    (elim r.0
        as (λ b.
          (if b
            then MayReply p.1.state ts p.1 × (num_counted r.1 ≡ num_counted c)
            else num_counted r.1 ≡ num_counted c + 1)
          → Managed ts (suc (length ps) + num_counted c)
              (if b then p ∷ rest.0 else rest.0, rest.1)) [
                | true ↦ λ h. ((h.0, awaited), omega (arith, counted, h.1))
                | false ↦ λ h. (awaited, omega (arith, counted, h))
              ])
      (manage_pending-Step p.1.state ts p.1 c)
