-- ===== src/Tests/Round.antt =====
-- A run of src/sched.c in which a process's ALT is over and the scheduler chooses the process.
use microcsp.Base.{negsuc, ℕ, true, false, pos, update}
use microcsp.Machine.{Cmd, Ptr, null, Machine, pure, proc_waiting, guard_skip}
use microcsp.Kernel.{View}
use microcsp.Kernel.Initial.{only_idle}
use microcsp.Kernel.Reach.{Reach, started, dequeued, enqueued}
use microcsp.Tests.Kernel.{state_after, running}
use microcsp.Alt.{set_alt}
use microcsp.Sched.{pri_of, set_state, ready_with, choose, advance, pri_of, state_of}

abbrev process : Ptr
process = 5024

abbrev idle_process : Ptr
idle_process = 5000

abbrev view_started : View
view_started = started (only_idle 5000) 3 process 3

-- The new process is chosen, and waits in an ALT with one guard, a skip.
unfoldable chosen : Machine
chosen = state_after (choose (pos 0) null running)

unfoldable waiting : Machine
waiting = set_state process proc_waiting chosen

abbrev guarded : Machine → Machine
guarded m = record m { guard = update m.guard 100 (record { kind = guard_skip; active = true }) }

unfoldable alternating : Machine
alternating =
    set_alt process (record { guards = 100; nr_guards = 1; index = 0; count = 0; alt_pri = false })
      (guarded waiting)

unfoldable readied : Machine
readied = state_after (ready_with (λ base. pure tt) process alternating)

unfoldable again : Machine
again = state_after (choose (pos 0) null readied)

abbrev no_code : ℕ → Ptr → Cmd (Unit {0})
no_code f local = pure tt

unfoldable selects : Machine
selects = state_after (advance no_code 4 (state_of again process) process again)

abbrev view_chosen : View
view_chosen = dequeued view_started (pri_of running process)

abbrev view_readied : View
view_readied = enqueued view_chosen (pri_of alternating process) process

-- While the process waits, the outermost scheduler chooses the idle process.
unfoldable idling : Machine
idling = state_after (choose (negsuc 0) null alternating)

abbrev view_idling : View
view_idling = dequeued view_chosen (pri_of alternating idle_process)

-- The process waits for the first user interrupt.
unfoldable connected : Machine
connected = record idling {
  channel_for_interrupt = update idling.channel_for_interrupt 0 700;
  channel = update idling.channel 700 (record { waiting = process; src = 0 });
}
