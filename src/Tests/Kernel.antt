-- ===== src/Tests/Kernel.antt =====
-- Runs of the kernel of src/sched.c and src/memory.c: the state behind `initialize`, and a process
-- that is started and chosen.
use microcsp.Base.{leb_ℤ, negsuc, false, ◌+◌, ◌≤◌, ◌≡◌, ◌⊎◌, refl, true, none, some, [], arith, pos}
use microcsp.Machine.{
  Ptr, null, Machine, Outcome, ok, exit, idles, fault, out_of_fuel, out_of_memory,
}
use microcsp.Memory.Arena.{block_length}
use microcsp.Ready.Highest.{scan_down, highest_ready-scan_down}
use microcsp.Timer.Queue.{IsTimerQ}
use microcsp.Kernel.{IsKernel, is_held, is_runnable}
use microcsp.Kernel.Initial.{only_idle, initialize-IsKernel}
use microcsp.Kernel.Start.{Started, start-IsKernel}
use microcsp.Kernel.Reach.{Reach, initialized, next, starts, started, Reach-IsKernel}
use microcsp.Kernel.Safety.{Idled, Reach-choose, Reach-queued_apart}
use microcsp.Tests.{loaded}
use microcsp.Memory.{
  find_from, find_mem_index, cut_tail, unlink_first, take_block, allocate_mem, release_mem,
  memory_init,
}
use microcsp.Hardware.{
  enable_interrupts, disable_interrupts, delete_signals, add_signals, define_interrupt_handler,
  define_signal_handlers, hardware_init, to_timespec, set_timer_single, set_timer_repeating,
  read_timer, init_timer, memcpy, write_int,
}
use microcsp.Ready.{highest_ready, set_queue, take, link_last, append}
use microcsp.Timer.{
  handle_elapsed_time_interrupt, now, set_next, set_head, arm, find_place, link_timeout,
  insert_in_queue, skip_earlier, skip_others, unlink_timeout, remove_from_queue, is_due,
  enable_timeout, disable_timeout, timer_init,
}
use microcsp.Channel.{
  set_channel, init_channel, chan_in, chan_out, enable_channel_input, disable_channel_input,
  enable_channel_output, enable_interrupt_channel, disable_interrupt_channel, set_kind,
  init_chanin_guard, init_chanout_guard, set_active, activate,
}
use microcsp.Alt.{
  set_process, set_alt, init_alt, count_active, enable_guard, enable_guards, enable_alt,
  disable_guard, disable_guards, transfer, disable_alt,
}
use microcsp.Sched.{
  set_state, init_process, start, start_idle, terminate, initial, ready_with, choose, run_rtc,
  finish_alt, begin_alt, begin_process, advance, settle, run_process, schedule_loop, schedule, run,
  clear_queues, define_user_handlers, sched_init, initialize, pri_of, state_of,
}

initialize-IsKernel_example :
    (n : Machine) × (initialize 5000 1024 loaded ≡ ok tt n)
    × IsKernel 5000 1024 (only_idle 5000) n
    × (n.current ≡ 5000)
    × IsTimerQ n []
initialize-IsKernel_example =
    initialize-IsKernel 5000 1024 loaded (omega arith) (omega arith) (omega arith) refl refl

-- The state that a command leaves.
abbrev pub state_after : {A : Type 0} → Outcome A → Machine
state_after (ok a m) = m
state_after (exit e) = loaded
state_after (idles m) = m
state_after fault = loaded
state_after out_of_fuel = loaded

unfoldable pub booted : Machine
unfolding initialize
booted = state_after (initialize 5000 1024 loaded)

boots : initialize 5000 1024 loaded ≡ ok tt booted
unfolding booted find_from find_mem_index cut_tail unlink_first take_block allocate_mem release_mem
    memory_init enable_interrupts disable_interrupts delete_signals add_signals
    define_interrupt_handler define_signal_handlers hardware_init to_timespec set_timer_single
    set_timer_repeating read_timer init_timer memcpy write_int highest_ready set_queue take
    link_last append handle_elapsed_time_interrupt now set_next set_head arm find_place link_timeout
    insert_in_queue skip_earlier skip_others unlink_timeout remove_from_queue is_due enable_timeout
    disable_timeout timer_init set_channel init_channel chan_in chan_out enable_channel_input
    disable_channel_input enable_channel_output enable_interrupt_channel disable_interrupt_channel
    set_kind init_chanin_guard init_chanout_guard set_active activate set_process set_alt init_alt
    count_active enable_guard enable_guards enable_alt disable_guard disable_guards transfer
    disable_alt set_state init_process start start_idle terminate initial ready_with choose run_rtc
    finish_alt begin_alt begin_process advance settle run_process schedule_loop schedule run
    clear_queues define_user_handlers sched_init initialize
boots = refl

booted-Reach : Reach 5000 1024 (only_idle 5000) booted
booted-Reach = initialized loaded (omega arith) (omega arith) (omega arith) refl refl boots

-- A process with four bytes of local variables and the priority 3 is started.
unfoldable pub running : Machine
unfolding start booted
running = state_after (start 7 300 4 (pos 3) booted)

starts_it :
    (booted.proc_offset + 4 ≤ 192)
    × (find_mem_index (booted.proc_offset + 4) booted ≡ ok 3 booted)
    × (allocate_mem 3 booted ≡ ok 5024 (state_after (allocate_mem 3 booted)))
    × (start 7 300 4 (pos 3) booted ≡ ok tt running)
unfolding running booted find_from find_mem_index cut_tail unlink_first take_block allocate_mem
    release_mem memory_init enable_interrupts disable_interrupts delete_signals add_signals
    define_interrupt_handler define_signal_handlers hardware_init to_timespec set_timer_single
    set_timer_repeating read_timer init_timer memcpy write_int highest_ready set_queue take
    link_last append handle_elapsed_time_interrupt now set_next set_head arm find_place link_timeout
    insert_in_queue skip_earlier skip_others unlink_timeout remove_from_queue is_due enable_timeout
    disable_timeout timer_init set_channel init_channel chan_in chan_out enable_channel_input
    disable_channel_input enable_channel_output enable_interrupt_channel disable_interrupt_channel
    set_kind init_chanin_guard init_chanout_guard set_active activate set_process set_alt init_alt
    count_active enable_guard enable_guards enable_alt disable_guard disable_guards transfer
    disable_alt set_state init_process start start_idle terminate initial ready_with choose run_rtc
    finish_alt begin_alt begin_process advance settle run_process schedule_loop schedule run
    clear_queues define_user_handlers sched_init initialize
starts_it = (omega arith, refl, refl, refl)

pub running-Reach : Reach 5000 1024 (started (only_idle 5000) 3 5024 3) running
running-Reach =
    let (fits, index, block, returns) = starts_it in
    next booted-Reach (starts 7 300 4 3 (omega arith) (omega arith) fits index block returns)

start-IsKernel_example :
    Started 5000 1024 (only_idle 5000) booted 3 (start 7 300 4 (pos 3) booted)
    ⊎ (start 7 300 4 (pos 3) booted ≡ exit out_of_memory)
start-IsKernel_example =
    start-IsKernel (Reach-IsKernel booted-Reach) 7 300 4 3 (omega arith) (omega arith) starts_it.0

Reach-IsKernel_example : IsKernel 5000 1024 (started (only_idle 5000) 3 5024 3) running
Reach-IsKernel_example = Reach-IsKernel running-Reach

-- The outermost scheduler's choice, at the base priority -1.
Reach-choose_example :
    ((leb_ℤ (pos 0) (negsuc 0) ≡ true) × (choose (negsuc 0) null running ≡ ok none running))
    ⊎ ((leb_ℤ (pos 0) (negsuc 0) ≡ false)
        × (choose (negsuc 0) null running ≡ fault)
        × Idled running-Reach)
    ⊎ ((p : Ptr) × (n : Machine) × (choose (negsuc 0) null running ≡ ok (some p) n)
        × (leb_ℤ (pos (pri_of running p)) (negsuc 0) ≡ false)
        × (is_runnable (state_of running p) ≡ true)
        × (is_held (started (only_idle 5000) 3 5024 3) running p ≡ true))
Reach-choose_example = Reach-choose running-Reach (negsuc 0)

abbrev idle_block : Ptr
idle_block = 5000

abbrev new_block : Ptr
new_block = 5024

Reach-queued_apart_example :
    let size = λ (a : Ptr). block_length (running.process a).index in
    ((idle_block ≡ new_block)
      ⊎ (idle_block + size idle_block ≤ new_block)
      ⊎ (new_block + size new_block ≤ idle_block))
    × (5000 ≤ idle_block)
    × (idle_block + size idle_block ≤ 5000 + 1024)
Reach-queued_apart_example =
    Reach-queued_apart running-Reach 0 3 idle_block new_block (omega arith) (omega arith) refl refl

highest_ready-scan_down_example : highest_ready 44 ≡ scan_down 7 44
highest_ready-scan_down_example = highest_ready-scan_down 44 (omega arith)
