-- ===== src/Tests.antt =====
-- The state of the program when it is loaded, for the concrete runs of the modules below.
pub mod Programs
pub mod Rings
pub mod Elements
pub mod Kernel
pub mod Round
pub mod Blocks
pub mod Queues
pub mod Timeouts
pub mod Expiry
pub mod Alternatives
pub mod Signals
use microcsp.Base.{ℕ, ◌+◌, Bool, false, none}
use microcsp.Machine.{
  null, proc_initial, Machine, guard_skip, Outcome, ok, exit, idles, fault, out_of_fuel,
}
use microcsp.Examples.Comm.{comm_main}

-- The state when the program is loaded: static variables are 0.
abbrev pub loaded : Machine
loaded = record {
  procmemlist = λ _. null;
  tail = null;
  taillen = 0;
  next = λ _. null;
  process = λ _. record {
    rtc = 0;
    alt = record { guards = null; nr_guards = 0; index = 0; count = 0; alt_pri = false };
    index = 0;
    pri = 0;
    state = proc_initial;
  };
  channel = λ _. record { waiting = null; src = 0 };
  guard = λ _. record { kind = guard_skip; active = false };
  timeout = λ _. record { next = null; proc = null; time = 0 };
  bytes = λ _. 0;
  current = null;
  priority_mask = 0;
  ready_q = λ _. record { head = null; tail = null };
  proc_offset = 0;
  channel_for_interrupt = λ _. null;
  timer_q = null;
  current_time = 0;
  active_handlers = 0;
  interrupt_handler = λ _. none;
  all_signals = λ _. false;
  currently_blocked = λ _. false;
  sigrtmin = 34;
  sigrtmax = 64;
  blocked = λ _. false;
  handled = λ _. false;
  timer_signal = λ _. 0;
  timers = λ _. record {
    it_value = record { tv_sec = 0; tv_nsec = 0 };
    it_interval = record { tv_sec = 0; tv_nsec = 0 };
  };
  sent = λ _. 0;
  readings = λ n. record { tv_sec = 0; tv_nsec = 999_999_999 };
  reads = 0;
}
