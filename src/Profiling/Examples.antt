-- ===== src/Profiling/Examples.antt =====
-- A profile of core/Profiling.cpp, as test data, and the theorems on it.
use kovri.Common.{suc, ◌+◌, ◌*◌, ◌≤◌, refl, arith}
use kovri.Profiling.{RouterProfile, is_bad, new_profile}
use kovri.Profiling.Verdicts.{always_bad-bounded}

-- A router that declined six tunnels, and was rejected nine times.
abbrev declining : RouterProfile
declining = record (new_profile 1000) { num_tunnels_declined = 6; num_times_rejected = 9 }

always_bad-bounded_example :
    suc 1 + declining.num_times_rejected ≤ 10 * declining.num_times_taken + 11
unfolding is_bad
always_bad-bounded_example = always_bad-bounded 1 declining (omega arith) refl
