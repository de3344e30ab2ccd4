-- ===== src/Profiling/Verdicts.antt =====
-- Verdicts and files of core/Profiling.cpp.
use kovri.Common.{
  ℕ, zero, suc, ◌+◌, ◌-◌, ◌*◌, ◌/◌, ◌^◌, ◌<◌, ◌≤◌, ◌≡◌, refl, some, Bool, true, false, ◌&&◌, arith,
}
use kovri.Profiling.{RouterProfile, is_bad, save, load}

-- Whether each of so many verdicts in a row is that the router is bad.
abbrev pub always_bad : ℕ → RouterProfile → Bool
always_bad zero p = true
always_bad (suc n) p = (is_bad p).0 && always_bad n (is_bad p).1

bad_verdict :
    (p : RouterProfile)
    → 10 * (p.num_times_taken + 1) + 1 < 2 ^ 32
    → (is_bad p).0 ≡ true
    → (p.num_times_rejected ≤ 10 * (p.num_times_taken + 1))
      × ((is_bad p).1.num_times_rejected ≡ p.num_times_rejected + 1)
      × ((is_bad p).1.num_times_taken ≡ p.num_times_taken)
unfolding is_bad
bad_verdict p h e = (ground (arith, h, e), ground (arith, h, e), ground (arith, h, e))

both_true : (a b : Bool) → (a && b) ≡ true → (a ≡ true) × (b ≡ true)
both_true true b e = (refl, e)
both_true false b e = absurd cc

-- If a router was taken so often that ten times that number, and eleven, are below 2 ^ 32, and the
-- next verdicts in a row, at least one, are that it is bad, then these and the rejections before are
-- not more than ten for each time that it was taken, and eleven.
pub always_bad-bounded :
    (n : ℕ) (p : RouterProfile)
    → 10 * (p.num_times_taken + 1) + 1 < 2 ^ 32
    → always_bad (suc n) p ≡ true
    → suc n + p.num_times_rejected ≤ 10 * p.num_times_taken + 11
always_bad-bounded zero p h e =
    let (bad, _) = both_true (is_bad p).0 true e in
    let (few, _, _) = bad_verdict p h bad in omega (arith, few)
always_bad-bounded (suc n) p h e =
    let p' = (is_bad p).1 in
    let (bad, later) = both_true (is_bad p).0 (always_bad (suc n) p') e in
    let (few, rejected, same) = bad_verdict p h bad in
    let rest = always_bad-bounded n p' (omega (arith, same, h)) later in
    omega (arith, rest, rejected, same)

-- A saved profile whose last update is less than 72 hours old is the same when it is loaded into
-- whatever profile.
pub load-save :
    (now : ℕ) (p q : RouterProfile)
    → (now - p.last_update_time) / 3600 < 72
    → load now (some (save p)) q ≡ p
unfolding load save
load-save now p q h = ground arith
