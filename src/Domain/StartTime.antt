-- ===== src/Domain/StartTime.antt =====
-- src/domain.cpp: when the next planning starts.
use open_workload_scheduler.Base.{ℕ, String, ◌≢◌, ◌+◌, ◌-◌, ◌*◌, ◌/◌, ◌%◌, ◌≤◌, ◌<◌, ◌≡◌, arith}
use native.Mathlib.Nat.{mod-lt, div-add-mod, add-zero, add-mul-mod_self_left}
use open_workload_scheduler.Base.Int.{ℤ, pos, ◌+ℤ◌, ◌-ℤ◌, rem, int_laws}
use open_workload_scheduler.Platform.{Platform}
use open_workload_scheduler.Effect.{returned}
use open_workload_scheduler.Domain.Planning.{read_duration, part_of_duration}
use open_workload_scheduler.Domain.State.{Domain, get_next_planning_start_time}

add_pos : (a b : ℕ) → pos a +ℤ pos b ≡ pos (a + b)
add_pos a b = omega int_laws

sub_pos : (a b : ℕ) → b ≤ a → pos a -ℤ pos b ≡ pos (a - b)
sub_pos a b h = omega int_laws

rem_pos : (n m : ℕ) → rem (pos n) (pos m) ≡ pos (n % m)
unfolding rem
rem_pos n m = rw add-zero

-- Rounding up to the next multiple.
round_up : (n m : ℕ) → 0 < m → (n + m - n % m) % m ≡ 0
round_up n m positive =
    let whole : n + m - n % m ≡ 0 + m * (n / m + 1) =
      grind (arith, div-add-mod n m, mod-lt n positive) in
    rw (whole, add-mul-mod_self_left 0 m (n / m + 1)) (omega arith)

start_value :
    (d : Domain) (now initial duration : ℕ)
    → d.planning_duration ≡ pos duration
    → d.initial_planning_start_time ≡ pos initial
    → 0 < duration
    → initial ≤ now
    → get_next_planning_start_time d (pos now) ≡ pos (now + duration - (now - initial) % duration)
unfolding get_next_planning_start_time
start_value d now initial duration e i positive later =
    let r : ℕ = (now - initial) % duration in
    let fits : r ≤ now + duration = omega (arith, mod-lt (now - initial) positive) in
    rw (e, i, sub_pos now initial later, rem_pos (now - initial) duration, add_pos now duration)
      (sub_pos (now + duration) r fits)

shift :
    (now initial duration : ℕ)
    → 0 < duration
    → initial ≤ now
    → now + duration - (now - initial) % duration - initial
      ≡ now - initial + duration - (now - initial) % duration
shift now initial duration positive later = omega (arith, mod-lt (now - initial) positive)

-- At or after the start of the first planning, with a positive duration and times that are not
-- negative, the next planning starts after now, at most one duration later, and a whole number of
-- durations after the first.
pub next_planning_start_time_bounds :
    (d : Domain) (now initial duration : ℕ)
    → d.planning_duration ≡ pos duration
    → d.initial_planning_start_time ≡ pos initial
    → 0 < duration
    → initial ≤ now
    → (next : ℕ) × (get_next_planning_start_time d (pos now) ≡ pos next)
      × (now < next)
      × (next ≤ now + duration)
      × ((next - initial) % duration ≡ 0)
next_planning_start_time_bounds d now initial duration e i positive later = (
  now + duration - (now - initial) % duration,
  start_value d now initial duration e i positive later,
  omega (arith, mod-lt (now - initial) positive),
  omega arith,
  rw (shift now initial duration positive later) (round_up (now - initial) duration positive),
)

module _ (p : Platform) where
  -- The planning duration that the constructor reads from its parameter is never 0, and reading it
  -- changes no attribute.
  pub read_duration_nonzero :
      (text : String) (d d' : Domain) (duration : ℤ)
      → read_duration p text d ≡ (returned duration, d')
      → (duration ≢ pos 0) × (d' ≡ d)
  unfolding read_duration part_of_duration
  read_duration_nonzero text d d' duration h = (λ zero. ground arith, ground arith)
