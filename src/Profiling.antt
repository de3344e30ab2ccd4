-- ===== src/Profiling.antt =====
-- core/Profiling.cpp: the profile of a peer. Times are in seconds. The file of a profile is what its
-- sections hold; where it lies, and its text, are left out.
pub mod Verdicts
mod Examples
use kovri.Common.{
  ℕ, zero, suc, ◌+◌, ◌-◌, ◌*◌, ◌/◌, ◌%◌, ◌^◌, Option, none, some, Bool, true, false, ltb, leb, ◌==◌,
  ◌&&◌, ◌||◌, if◌then◌else◌,
}

abbrev pub peer_profile_expiration_timeout : ℕ
peer_profile_expiration_timeout = 72

pub record RouterProfile : Type 0 where
  pub last_update_time : ℕ
  pub num_tunnels_agreed : ℕ
  pub num_tunnels_declined : ℕ
  pub num_tunnels_non_replied : ℕ
  pub num_times_taken : ℕ
  pub num_times_rejected : ℕ

abbrev pub new_profile : ℕ → RouterProfile
new_profile now = record {
  last_update_time = now;
  num_tunnels_agreed = 0;
  num_tunnels_declined = 0;
  num_tunnels_non_replied = 0;
  num_times_taken = 0;
  num_times_rejected = 0;
}

-- An unsigned counter of 32 bits.
abbrev pub increment : ℕ → ℕ
increment n = (n + 1) % 2 ^ 32

pub tunnel_build_response : ℕ → ℕ → RouterProfile → RouterProfile
tunnel_build_response now ret p =
    let p' = record p { last_update_time = now } in
    if ltb 0 ret
    then (record p' { num_tunnels_declined = increment p.num_tunnels_declined })
    else (record p' { num_tunnels_agreed = increment p.num_tunnels_agreed })

pub tunnel_non_replied : ℕ → RouterProfile → RouterProfile
tunnel_non_replied now p = record p {
  num_tunnels_non_replied = increment p.num_tunnels_non_replied;
  last_update_time = now;
}

abbrev pub is_always_declining : RouterProfile → Bool
is_always_declining p = (p.num_tunnels_agreed == 0) && leb 5 p.num_tunnels_declined

abbrev pub is_low_participation_rate : RouterProfile → Bool
is_low_participation_rate p = ltb (4 * p.num_tunnels_agreed % 2 ^ 32) p.num_tunnels_declined

-- The router was rejected long enough for another try.
abbrev pub is_reset_due : RouterProfile → Bool
is_reset_due p = ltb (10 * ((p.num_times_taken + 1) % 2 ^ 32) % 2 ^ 32) p.num_times_rejected

abbrev pub reset : RouterProfile → RouterProfile
reset p = record p { num_tunnels_agreed = 0; num_tunnels_declined = 0; num_tunnels_non_replied = 0 }

abbrev pub taken : RouterProfile → RouterProfile
taken p = record p { num_times_taken = increment p.num_times_taken }

-- The verdict, and the profile after it.
pub is_bad : RouterProfile → Bool × RouterProfile
is_bad p =
    if is_always_declining p || is_low_participation_rate p
    then if is_reset_due p
      then (false, taken (reset p))
      else (true, record p { num_times_rejected = increment p.num_times_rejected })
    else (false, taken p)

-- The sections of a file: `participation` (agreed, declined, not replied) and `usage` (taken,
-- rejected).
pub record ProfileFile : Type 0 where
  pub update_time : Option ℕ
  pub participation : Option (ℕ × ℕ × ℕ)
  pub usage : Option (ℕ × ℕ)

pub save : RouterProfile → ProfileFile
save p = record {
  update_time = some p.last_update_time;
  participation = some (p.num_tunnels_agreed, p.num_tunnels_declined, p.num_tunnels_non_replied);
  usage = some (p.num_times_taken, p.num_times_rejected);
}

abbrev load_time : Option ℕ → RouterProfile → RouterProfile
load_time none p = p
load_time (some t) p = record p { last_update_time = t }

abbrev load_participation : Option (ℕ × ℕ × ℕ) → RouterProfile → RouterProfile
load_participation none p = p
load_participation (some (agreed, declined, non_replied)) p = record p {
  num_tunnels_agreed = agreed;
  num_tunnels_declined = declined;
  num_tunnels_non_replied = non_replied;
}

abbrev load_usage : Option (ℕ × ℕ) → RouterProfile → RouterProfile
load_usage none p = p
load_usage (some (times_taken, times_rejected)) p = record p {
  num_times_taken = times_taken;
  num_times_rejected = times_rejected;
}

-- `none` is a file that is not there or cannot be read. A profile of 72 hours or more is forgotten.
pub load : ℕ → Option ProfileFile → RouterProfile → RouterProfile
load now none p = p
load now (some f) p =
    let p' = load_time f.update_time p in
    if ltb ((now - p'.last_update_time) / 3600) peer_profile_expiration_timeout
    then load_usage f.usage (load_participation f.participation p')
    else new_profile now

abbrev pub get_router_profile : ℕ → Option ProfileFile → RouterProfile
get_router_profile now file = load now file (new_profile now)
