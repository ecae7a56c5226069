-- ===== src/Hardware/Timers.antt =====
-- Setting a timer and reading it back: the split of an interval into seconds and nanoseconds.
use microcsp.Base.{
  ℕ, ◌-◌, ◌*◌, ◌/◌, ◌%◌, ◌^◌, ◌≤◌, ◌<◌, ◌≡◌, true, false, arith, ltb, if◌then◌else◌, update,
  u32_mod,
}
use microcsp.Machine.{Machine, ok, exit, timer_settime, Itimerspec}
use microcsp.Hardware.{ns_per_sec, to_timespec, from_timespec, zero_timespec, set_timer_single}

-- The first interval whose seconds do not fit in a signed word of 32 bits.
abbrev pub max_interval : ℕ
max_interval = 2 ^ 31 * ns_per_sec

-- An interval below the limit survives the split, and both parts are in the range that the system
-- asks for.
pub from_timespec-to_timespec :
    (d : ℕ)
    → d < max_interval
    → (from_timespec (to_timespec d) ≡ d)
      × ((to_timespec d).tv_nsec < ns_per_sec)
      × ((to_timespec d).tv_sec < 2 ^ 31)
unfolding to_timespec
from_timespec-to_timespec d h = omega arith

abbrev pub single : ℕ → Itimerspec
single d = record { it_value = to_timespec d; it_interval = zero_timespec }

positive-eq : (d : ℕ) → (if ltb 0 d then d else 0) ≡ d
positive-eq d = ground arith

module _ (id d : ℕ) (m : Machine) where
  pub set_timer_single-ok :
      (to_timespec d).tv_sec < 2 ^ 31
      → set_timer_single id d m ≡ ok tt (record m { timers = update m.timers id (single d) })
  unfolding set_timer_single
  set_timer_single-ok h =
      let e : ltb (2 ^ 31 - 1) (to_timespec d).tv_sec ≡ false = ground arith in
      rw (positive-eq d) (rw e)

  pub set_timer_single-exit :
      max_interval ≤ d → d < 2 * max_interval → set_timer_single id d m ≡ exit timer_settime
  unfolding set_timer_single to_timespec
  set_timer_single-exit h k =
      let s : 2 ^ 31 ≤ (d / ns_per_sec) % u32_mod = omega arith in
      let e : ltb (2 ^ 31 - 1) ((d / ns_per_sec) % u32_mod) ≡ true = ground arith in
      rw (positive-eq d) (rw e)
