-- ===== src/Hardware.antt =====
-- src/hardware.c and src/internals/hardware.h: the interrupt interface over POSIX signals and
-- timers. A call of the C library that succeeds is its effect on the state: signal sets are tests,
-- the signal mask is `blocked`, a timer is what it was last set to, and the n-th call of
-- `timer_gettime` answers `readings n`. `timer_settime` rejects a negative number of seconds, which
-- are 32 bits wide in the program's -m32 build.
pub mod Timers
pub mod Signals
use microcsp.Base.{
  ℕ, zero, suc, ◌+◌, ◌-◌, ◌*◌, ◌/◌, ◌%◌, ◌^◌, true, false, not, ◌&&◌, ◌||◌, some, ltb, leb, ◌==◌,
  if◌then◌else◌, update, u64_mod, ℤ, pos, negsuc, u32_mod,
}
use microcsp.Machine.{
  Machine, Sigset, Timespec, Itimerspec, Handler, Cmd, ◌>>◌, modify, error_if, timer_settime,
  zero_interval, invalid_timer, kill_failed, ok, exit,
}

abbrev pub timer_elapsed : ℕ
timer_elapsed = 0

abbrev pub timer_timeout : ℕ
timer_timeout = 1

abbrev pub ntimers : ℕ
ntimers = 2

abbrev pub intr_elapsed : ℕ
intr_elapsed = 0

abbrev pub intr_timeout : ℕ
intr_timeout = 1

abbrev pub intr_user0 : ℕ
intr_user0 = 3

abbrev pub nintr_sources : ℕ
nintr_sources = 6

-- nanoseconds per second
abbrev pub ns_per_sec : ℕ
ns_per_sec = 1_000_000_000

-- Unblocks all the real-time signals.
unfoldable pub enable_interrupts : Machine → Machine
enable_interrupts m = record m { blocked = λ s. m.blocked s && not (m.all_signals s) }

-- Blocks all the real-time signals.
unfoldable pub disable_interrupts : Machine → Machine
disable_interrupts m = record m { blocked = λ s. m.blocked s || m.all_signals s }

-- `sigdelset` for the numbers from `i` on, `left` of them
unfoldable pub delete_signals : (left i : ℕ) → Sigset → Sigset
delete_signals zero i set = set
delete_signals (suc left) i set = delete_signals left (i + 1) (update set i false)

-- `sigaddset` for the numbers from `i` on, `left` of them
unfoldable pub add_signals : (left i : ℕ) → Sigset → Sigset
add_signals zero i set = set
add_signals (suc left) i set = add_signals left (i + 1) (update set i true)

unfoldable pub greater_than_or_equal_to : Machine → ℕ → Sigset
unfolding delete_signals
greater_than_or_equal_to m signo = delete_signals (signo - m.sigrtmin) m.sigrtmin m.all_signals

unfoldable pub define_interrupt_handler : ℕ → Handler → Machine → Machine
define_interrupt_handler intrsrc handler m = record m {
  interrupt_handler = update m.interrupt_handler intrsrc (some handler);
}

-- Fills the set of currently blocked signals less those of the interrupts, and installs
-- `handle_signal` for each interrupt.
unfoldable pub define_signal_handlers : Machine → Machine
unfolding delete_signals add_signals
define_signal_handlers m = record m {
  currently_blocked = delete_signals nintr_sources m.sigrtmin (λ s. true);
  handled = add_signals nintr_sources m.sigrtmin m.handled;
}

unfoldable pub hardware_init : Machine → Machine
unfolding add_signals disable_interrupts define_signal_handlers
hardware_init m =
    let all = add_signals (m.sigrtmax + 1 - m.sigrtmin) m.sigrtmin (λ s. false) in
    define_signal_handlers (disable_interrupts (record m { all_signals = all }))

unfoldable pub to_timespec : ℕ → Timespec
to_timespec interval = record {
  tv_sec = (interval / ns_per_sec) % u32_mod;
  tv_nsec = interval % ns_per_sec;
}

abbrev pub zero_timespec : Timespec
zero_timespec = record { tv_sec = 0; tv_nsec = 0 }

-- `timer_settime`
settime : ℕ → Itimerspec → Cmd (Unit {0})
settime id spec = do
  error_if (ltb (2 ^ 31 - 1) spec.it_value.tv_sec) timer_settime
  modify (λ m. record m { timers = update m.timers id spec })

unfoldable pub set_timer_single : ℕ → ℕ → Cmd (Unit {0})
unfolding settime
set_timer_single id interval =
    let positive = if ltb 0 interval then interval else 0 in
    settime id (record { it_value = to_timespec positive; it_interval = zero_timespec })

unfoldable pub set_timer_repeating : ℕ → ℕ → Cmd (Unit {0})
unfolding settime
set_timer_repeating id interval = do
  error_if (interval == 0) zero_interval
  settime id (record { it_value = to_timespec interval; it_interval = to_timespec interval })

abbrev pub from_timespec : Timespec → ℕ
from_timespec ts = (ts.tv_sec * ns_per_sec + ts.tv_nsec) % u64_mod

-- The elapsed-time timer is the only one that the program reads.
unfoldable pub read_timer : Machine → ℕ × Machine
read_timer m = (from_timespec (m.readings m.reads), record m { reads = m.reads + 1 })

unfoldable pub init_timer : ℕ → ℕ → Cmd (Unit {0})
init_timer id intrsrc = do
  error_if (not (ltb id ntimers)) invalid_timer
  modify (λ m. record m { timer_signal = update m.timer_signal id (m.sigrtmin + intrsrc) })

-- `a + b` for a signed b; signal numbers stay above 0 here.
abbrev pub plus_int : ℕ → ℤ → ℕ
plus_int a (pos b) = a + b
plus_int a (negsuc b) = a - suc b

-- `kill` rejects a number above that of the last signal.
unfoldable pub send_user_interrupt : ℤ → Cmd (Unit {0})
send_user_interrupt intrsrc m =
    let signo = plus_int m.sigrtmin intrsrc in
    if ltb m.sigrtmax signo
    then exit kill_failed
    else ok tt (record m { sent = update m.sent signo (m.sent signo + 1) })

-- `memcpy` between areas that do not overlap
unfoldable pub memcpy : (dest src n : ℕ) → Machine → Machine
memcpy dest src n m = record m {
  bytes = λ a. if leb dest a && ltb a (dest + n) then m.bytes (src + (a - dest)) else m.bytes a;
}

-- `*(int *)dest = v`, least byte first
unfoldable pub write_int : (dest v : ℕ) → Machine → Machine
write_int dest v m = record m {
  bytes = λ a. if leb dest a && ltb a (dest + 4) then (v / 256 ^ (a - dest)) % 256 else m.bytes a;
}
