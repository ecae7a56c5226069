-- ===== src/Tests/Signals.antt =====
-- Runs of the signal handler of src/hardware.c and of the user interrupts of src/sched.c.
use microcsp.Base.{
  ℕ, ◌+◌, ◌≡◌, refl, true, ◌&&◌, arith, leb, ◌==◌, if◌then◌else◌, none, some, add64,
}
use microcsp.Machine.{Ptr, null, handle_elapsed_time, Machine, Cmd, ok}
use microcsp.Timer.{tick}
use microcsp.Channel.{count, enable_interrupt_channel}
use microcsp.Interrupts.{handle_signal}
use microcsp.Interrupts.Mask.{handle_signal-nested}
use microcsp.Sched.{user_interrupt_handler}
use microcsp.Sched.User.{user_interrupt_handler-counts}
use microcsp.Tests.{loaded}

-- A handler is active, and the elapsed-time interrupt arrives.
abbrev handling : Machine
handling = record loaded {
  all_signals = λ s. leb 34 s && leb s 64;
  currently_blocked = λ s. leb 37 s;
  active_handlers = 1;
  interrupt_handler = λ i. if i == 0 then some handle_elapsed_time else none;
  channel_for_interrupt = λ i. if i == 1 then 80 else null;
}

abbrev no_code : ℕ → Ptr → Cmd (Unit {0})
no_code name local m = ok tt m

handle_signal-nested_example :
    (n : Machine) × (handle_signal no_code 9 9 34 handling ≡ ok tt n)
    × (n.current_time ≡ add64 0 tick)
    × (n.active_handlers ≡ 1)
    × (n.blocked ≡ handling.blocked)
    × (n.currently_blocked ≡ handling.currently_blocked)
    × (n.process ≡ handling.process)
    × (n.current ≡ handling.current)
handle_signal-nested_example = handle_signal-nested no_code 9 9 34 handling refl (omega arith)

user_interrupt_handler-counts_example :
    (n : Machine) × (user_interrupt_handler no_code 9 9 4 handling ≡ ok tt n)
    × (count (n.channel 80) ≡ 0 + 1)
    × (n.process ≡ handling.process)
    × (enable_interrupt_channel 80 n ≡ (true, n))
user_interrupt_handler-counts_example =
    user_interrupt_handler-counts no_code 9 9 4 80 handling refl (omega arith) refl (omega arith)
