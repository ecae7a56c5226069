-- ===== src/Tests/Programs.antt =====
-- src/examples/comm.c run to the end: the message arrives, and the scheduler comes to the idle
-- process.
use microcsp.Base.{◌≡◌, refl, Bool, true, false, ◌&&◌, ◌==◌}
use microcsp.Machine.{Machine, Outcome, ok, exit, idles, fault, out_of_fuel}
use microcsp.Examples.Comm.{chan, comm_main, comm_rtc, sender_rtc, receiver_rtc}
use microcsp.Tests.{loaded}
use microcsp.Memory.{
  find_from, find_mem_index, cut_tail, unlink_first, take_block, allocate_mem, release_mem,
  memory_init,
}
use microcsp.Hardware.{
  enable_interrupts, disable_interrupts, delete_signals, add_signals, define_interrupt_handler,
  define_signal_handlers, hardware_init, to_timespec, set_timer_single, set_timer_repeating,
  read_timer, init_timer, memcpy, write_int,
}
use microcsp.Ready.{highest_ready, set_queue, take, link_last, append}
use microcsp.Timer.{
  handle_elapsed_time_interrupt, now, set_next, set_head, arm, find_place, link_timeout,
  insert_in_queue, skip_earlier, skip_others, unlink_timeout, remove_from_queue, is_due,
  enable_timeout, disable_timeout, timer_init,
}
use microcsp.Channel.{
  set_channel, init_channel, chan_in, chan_out, enable_channel_input, disable_channel_input,
  enable_channel_output, enable_interrupt_channel, disable_interrupt_channel, set_kind,
  init_chanin_guard, init_chanout_guard, set_active, activate,
}
use microcsp.Alt.{
  set_process, set_alt, init_alt, count_active, enable_guard, enable_guards, enable_alt,
  disable_guard, disable_guards, transfer, disable_alt,
}
use microcsp.Sched.{
  set_state, init_process, start, start_idle, terminate, initial, ready_with, choose, run_rtc,
  finish_alt, begin_alt, begin_process, advance, settle, run_process, schedule_loop, schedule, run,
  clear_queues, define_user_handlers, sched_init, initialize,
}

-- An observation of a program that has become idle.
abbrev pub idle_with : {A : Type 0} → (Machine → Bool) → Outcome A → Bool
idle_with p (ok a m) = false
idle_with p (exit e) = false
idle_with p (idles m) = p m
idle_with p fault = false
idle_with p out_of_fuel = false

-- The receiver's `x` is at 5100; the sender has been served, and the channel is free again.
abbrev delivered : Machine → Bool
delivered m = m.bytes 5100 == 123 && (m.channel chan).waiting == 0

comm_delivers : idle_with delivered (comm_main 5000 200 300 20 loaded) ≡ true
unfolding comm_main comm_rtc sender_rtc receiver_rtc find_from find_mem_index cut_tail unlink_first
    take_block allocate_mem release_mem memory_init enable_interrupts disable_interrupts
    delete_signals add_signals define_interrupt_handler define_signal_handlers hardware_init
    to_timespec set_timer_single set_timer_repeating read_timer init_timer memcpy write_int
    highest_ready set_queue take link_last append handle_elapsed_time_interrupt now set_next
    set_head arm find_place link_timeout insert_in_queue skip_earlier skip_others unlink_timeout
    remove_from_queue is_due enable_timeout disable_timeout timer_init set_channel init_channel
    chan_in chan_out enable_channel_input disable_channel_input enable_channel_output
    enable_interrupt_channel disable_interrupt_channel set_kind init_chanin_guard init_chanout_guard
    set_active activate set_process set_alt init_alt count_active enable_guard enable_guards
    enable_alt disable_guard disable_guards transfer disable_alt set_state init_process start
    start_idle terminate initial ready_with choose run_rtc finish_alt begin_alt begin_process
    advance settle run_process schedule_loop schedule run clear_queues define_user_handlers
    sched_init initialize
comm_delivers = refl
