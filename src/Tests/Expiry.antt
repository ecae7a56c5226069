-- ===== src/Tests/Expiry.antt =====
-- The timeout interrupt of src/timer.c when the idle process runs, with src/sched.c's
-- `readyProcessIfNecessary` and its nested scheduler.
use microcsp.Base.{
  ℕ, ◌+◌, ◌<◌, ◌≡◌, refl, true, false, [], ◌∷◌, arith, has, ◌==◌, if◌then◌else◌, u64_mod,
}
use mathlib.Core.List.{map}
use microcsp.Machine.{Ptr, null, Machine, Cmd, ok, pure, proc_waiting}
use microcsp.Hardware.Timers.{max_interval}
use microcsp.Timer.{time_at, proc_at, handle_timeout_interrupt, remove_head}
use microcsp.Timer.Queue.{IsTimerQ, not_later, later}
use microcsp.Timer.Expire.{
  SameTimers, ReadyAll, none_due, one_due, rearmed, handle_timeout_interrupt-ReadyAll,
}
use microcsp.Sched.{ready_process_if_necessary}
use microcsp.Tests.Timeouts.{three_timeouts, timer_list, three_timeouts-IsTimerQ}
use microcsp.Tests.Kernel.{state_after}
use microcsp.Memory.{
  find_from, find_mem_index, cut_tail, unlink_first, take_block, allocate_mem, release_mem,
  memory_init,
}
use microcsp.Hardware.{
  enable_interrupts, disable_interrupts, delete_signals, add_signals, define_interrupt_handler,
  define_signal_handlers, hardware_init, to_timespec, set_timer_single, set_timer_repeating,
  read_timer, init_timer, memcpy, write_int,
}
use microcsp.Ready.{highest_ready, set_queue, take, link_last, append}
use microcsp.Timer.{
  handle_elapsed_time_interrupt, now, set_next, set_head, arm, find_place, link_timeout,
  insert_in_queue, skip_earlier, skip_others, unlink_timeout, remove_from_queue, is_due,
  enable_timeout, disable_timeout, timer_init,
}
use microcsp.Channel.{
  set_channel, init_channel, chan_in, chan_out, enable_channel_input, disable_channel_input,
  enable_channel_output, enable_interrupt_channel, disable_interrupt_channel, set_kind,
  init_chanin_guard, init_chanout_guard, set_active, activate,
}
use microcsp.Alt.{
  set_process, set_alt, init_alt, count_active, enable_guard, enable_guards, enable_alt,
  disable_guard, disable_guards, transfer, disable_alt,
}
use microcsp.Sched.{
  set_state, init_process, start, start_idle, terminate, initial, ready_with, choose, run_rtc,
  finish_alt, begin_alt, begin_process, advance, settle, run_process, schedule_loop, schedule, run,
  clear_queues, define_user_handlers, sched_init, initialize,
}

-- The processes of the timeouts wait in an ALT with one guard, above the priority of the running
-- one.
abbrev waiting_processes : Machine
waiting_processes = record three_timeouts {
  process = λ p. record {
    rtc = 1;
    alt = record { guards = 300; nr_guards = 1; index = 0; count = 0; alt_pri = false };
    index = 0;
    pri = if p == null then 0 else 2;
    state = proc_waiting;
  };
}

abbrev no_code : ℕ → Ptr → Cmd (Unit {0})
no_code f local = pure tt

abbrev ready_it : Ptr → Cmd (Unit {0})
ready_it = ready_process_if_necessary no_code 4 8

unfoldable once : Machine
once = state_after (ready_it 101 (remove_head (now waiting_processes).1))

unfoldable twice : Machine
twice = state_after (ready_it 102 (remove_head once))

its_time : (now waiting_processes).0 ≡ 11
unfolding now read_timer
its_time = refl

first_returns :
    (ready_it 101 (remove_head (now waiting_processes).1) ≡ ok tt once)
    × SameTimers (remove_head (now waiting_processes).1) once
unfolding once twice remove_head ready_process_if_necessary find_from find_mem_index cut_tail
    unlink_first take_block allocate_mem release_mem memory_init enable_interrupts
    disable_interrupts delete_signals add_signals define_interrupt_handler define_signal_handlers
    hardware_init to_timespec set_timer_single set_timer_repeating read_timer init_timer memcpy
    write_int highest_ready set_queue take link_last append handle_elapsed_time_interrupt now
    set_next set_head arm find_place link_timeout insert_in_queue skip_earlier skip_others
    unlink_timeout remove_from_queue is_due enable_timeout disable_timeout timer_init set_channel
    init_channel chan_in chan_out enable_channel_input disable_channel_input enable_channel_output
    enable_interrupt_channel disable_interrupt_channel set_kind init_chanin_guard init_chanout_guard
    set_active activate set_process set_alt init_alt count_active enable_guard enable_guards
    enable_alt disable_guard disable_guards transfer disable_alt set_state init_process start
    start_idle terminate initial ready_with choose run_rtc finish_alt begin_alt begin_process
    advance settle run_process schedule_loop schedule run clear_queues define_user_handlers
    sched_init initialize
first_returns = (refl, record { timeout = refl; timer_q = refl })

second_returns :
    (ready_it 102 (remove_head once) ≡ ok tt twice) × SameTimers (remove_head once) twice
unfolding once twice remove_head ready_process_if_necessary find_from find_mem_index cut_tail
    unlink_first take_block allocate_mem release_mem memory_init enable_interrupts
    disable_interrupts delete_signals add_signals define_interrupt_handler define_signal_handlers
    hardware_init to_timespec set_timer_single set_timer_repeating read_timer init_timer memcpy
    write_int highest_ready set_queue take link_last append handle_elapsed_time_interrupt now
    set_next set_head arm find_place link_timeout insert_in_queue skip_earlier skip_others
    unlink_timeout remove_from_queue is_due enable_timeout disable_timeout timer_init set_channel
    init_channel chan_in chan_out enable_channel_input disable_channel_input enable_channel_output
    enable_interrupt_channel disable_interrupt_channel set_kind init_chanin_guard init_chanout_guard
    set_active activate set_process set_alt init_alt count_active enable_guard enable_guards
    enable_alt disable_guard disable_guards transfer disable_alt set_state init_process start
    start_idle terminate initial ready_with choose run_rtc finish_alt begin_alt begin_process
    advance settle run_process schedule_loop schedule run clear_queues define_user_handlers
    sched_init initialize
second_returns = (refl, record { timeout = refl; timer_q = refl })

two_due : not_later (time_at waiting_processes) (now waiting_processes).0 timer_list ≡ 21 ∷ 22 ∷ []
two_due = rw its_time refl

both_readied :
    ReadyAll ready_it
      (map
        (proc_at waiting_processes)
        (not_later (time_at waiting_processes) (now waiting_processes).0 timer_list))
      (now waiting_processes).1
      twice
both_readied =
    rw two_due
      (one_due first_returns.0 first_returns.1 (one_due second_returns.0 second_returns.1 none_due))

waiting_processes-IsTimerQ : IsTimerQ waiting_processes timer_list
waiting_processes-IsTimerQ = record {
  chain = three_timeouts-IsTimerQ.chain;
  distinct = three_timeouts-IsTimerQ.distinct;
  ascending = three_timeouts-IsTimerQ.ascending;
}

soon :
    (y : Ptr)
    → has y timer_list ≡ true
    → (time_at waiting_processes y < (now waiting_processes).0 + max_interval)
      × (time_at waiting_processes y < u64_mod)
soon y h = rw its_time (ground arith, ground arith)

handle_timeout_interrupt-ReadyAll_example :
    let t = (now waiting_processes).0 in
    let rest = later (time_at waiting_processes) t timer_list in
    (handle_timeout_interrupt ready_it 4 waiting_processes ≡ ok tt (rearmed twice t rest))
    × IsTimerQ twice rest
    × (twice.timeout ≡ waiting_processes.timeout)
handle_timeout_interrupt-ReadyAll_example =
    handle_timeout_interrupt-ReadyAll ready_it 4 timer_list waiting_processes twice
      waiting_processes-IsTimerQ (omega arith) soon both_readied
