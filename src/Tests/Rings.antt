-- ===== src/Tests/Rings.antt =====
-- src/examples/ring.c and mtring.c run to the end with few processes and cycles, and empty.c.
use microcsp.Base.{ℕ, ◌+◌, ◌≡◌, refl, Bool, true, ◌&&◌, ◌==◌}
use microcsp.Machine.{Machine, fault, proc_done}
use microcsp.Tests.{loaded}
use microcsp.Tests.Programs.{idle_with}
use microcsp.Memory.{
  find_from, find_mem_index, cut_tail, unlink_first, take_block, allocate_mem, release_mem,
  memory_init,
}
use microcsp.Hardware.{
  enable_interrupts, disable_interrupts, delete_signals, add_signals, define_interrupt_handler,
  define_signal_handlers, hardware_init, to_timespec, set_timer_single, set_timer_repeating,
  read_timer, init_timer, memcpy, write_int,
}
use microcsp.Ready.{highest_ready, set_queue, take, link_last, append}
use microcsp.Timer.{
  handle_elapsed_time_interrupt, now, set_next, set_head, arm, find_place, link_timeout,
  insert_in_queue, skip_earlier, skip_others, unlink_timeout, remove_from_queue, is_due,
  enable_timeout, disable_timeout, timer_init,
}
use microcsp.Channel.{
  set_channel, init_channel, chan_in, chan_out, enable_channel_input, disable_channel_input,
  enable_channel_output, enable_interrupt_channel, disable_interrupt_channel, set_kind,
  init_chanin_guard, init_chanout_guard, set_active, activate,
}
use microcsp.Alt.{
  set_process, set_alt, init_alt, count_active, enable_guard, enable_guards, enable_alt,
  disable_guard, disable_guards, transfer, disable_alt,
}
use microcsp.Sched.{
  set_state, init_process, start, start_idle, terminate, initial, ready_with, choose, run_rtc,
  finish_alt, begin_alt, begin_process, advance, settle, run_process, schedule_loop, schedule, run,
  clear_queues, define_user_handlers, sched_init, initialize, is_state, state_of,
}
use microcsp.Examples.Empty.{empty_main, prints_once_rtc}
use microcsp.Examples.Rings.Many.{
  trial_turn, inject_same, inject_next, pass_turn, collect_turn, last_turn, many_turn, init_many,
  ring3_root_rtc, mtring_root_rtc, connect_root, number_elements, ring3_main, mtring_main,
}
use microcsp.Examples.Words.{write_byte, write_short, add_int, call_now, read_int}
use microcsp.Examples.Rings.{to_input, to_output, init_guards, init_channels, start_elements}
use microcsp.Examples.Rings.Element.{element_turn, element_rtc}
use microcsp.Examples.Rings.Root.{
  init_turn, injecting_turn, cycling_turn, collecting_turn, final_turn, root_turn, root_rtc,
  ring_rtc, connect_elements, ring_main,
}
use microcsp.Alt.{selected}
use microcsp.Channel.{deactivate}

-- empty.c is to print once, but its process goes on to an ALT without guards.
empty_faults : empty_main 5000 200 9 loaded ≡ fault
unfolding empty_main prints_once_rtc find_from find_mem_index cut_tail unlink_first take_block
    allocate_mem release_mem memory_init enable_interrupts disable_interrupts delete_signals
    add_signals define_interrupt_handler define_signal_handlers hardware_init to_timespec
    set_timer_single set_timer_repeating read_timer init_timer memcpy write_int highest_ready
    set_queue take link_last append handle_elapsed_time_interrupt now set_next set_head arm
    find_place link_timeout insert_in_queue skip_earlier skip_others unlink_timeout
    remove_from_queue is_due enable_timeout disable_timeout timer_init set_channel init_channel
    chan_in chan_out enable_channel_input disable_channel_input enable_channel_output
    enable_interrupt_channel disable_interrupt_channel set_kind init_chanin_guard init_chanout_guard
    set_active activate set_process set_alt init_alt count_active enable_guard enable_guards
    enable_alt disable_guard disable_guards transfer disable_alt set_state init_process start
    start_idle terminate initial ready_with choose run_rtc finish_alt begin_alt begin_process
    advance settle run_process schedule_loop schedule run clear_queues define_user_handlers
    sched_init initialize
empty_faults = refl

-- The idle process's block is at 5000 and the root's at 5024, with its variables at 5044: it has
-- got the zero back, in the state FINAL.
abbrev ended : Machine → Bool
ended m =
    read_int m (5044 + 44) == 0 && m.bytes (5044 + 52) == 4 && is_state (state_of m 5024) proc_done

ring_ends : idle_with ended (ring_main 4 3 5000 100 300 200 120 loaded) ≡ true
unfolding deactivate selected write_byte add_int call_now to_input to_output init_guards
    init_channels start_elements element_turn element_rtc init_turn injecting_turn cycling_turn
    collecting_turn final_turn root_turn root_rtc ring_rtc connect_elements ring_main find_from
    find_mem_index cut_tail unlink_first take_block allocate_mem release_mem memory_init
    enable_interrupts disable_interrupts delete_signals add_signals define_interrupt_handler
    define_signal_handlers hardware_init to_timespec set_timer_single set_timer_repeating read_timer
    init_timer memcpy write_int highest_ready set_queue take link_last append
    handle_elapsed_time_interrupt now set_next set_head arm find_place link_timeout insert_in_queue
    skip_earlier skip_others unlink_timeout remove_from_queue is_due enable_timeout disable_timeout
    timer_init set_channel init_channel chan_in chan_out enable_channel_input disable_channel_input
    enable_channel_output enable_interrupt_channel disable_interrupt_channel set_kind
    init_chanin_guard init_chanout_guard set_active activate set_process set_alt init_alt
    count_active enable_guard enable_guards enable_alt disable_guard disable_guards transfer
    disable_alt set_state init_process start start_idle terminate initial ready_with choose run_rtc
    finish_alt begin_alt begin_process advance settle run_process schedule_loop schedule run
    clear_queues define_user_handlers sched_init initialize
ring_ends = refl

-- Two tokens go round a ring of four until the root has sent them on five times. Each of the seven
-- ways round adds 3, and each time that the root sends a token on adds 1: 1 + 1 + 7 * 3 + 5 is 28.
-- The root's variables are at 5044.
abbrev collected : ℕ → Machine → Bool
collected sum m = read_int m (5044 + 56) == sum && is_state (state_of m 5024) proc_done

ring3_collects : idle_with (collected 28) (ring3_main 4 5 2 5000 100 400 200 300 loaded) ≡ true
unfolding ring3_main deactivate selected write_byte write_short add_int call_now to_input to_output
    init_guards init_channels start_elements element_turn element_rtc trial_turn inject_same
    inject_next pass_turn collect_turn last_turn many_turn init_many ring3_root_rtc mtring_root_rtc
    connect_root number_elements ring_rtc connect_elements find_from find_mem_index cut_tail
    unlink_first take_block allocate_mem release_mem memory_init enable_interrupts
    disable_interrupts delete_signals add_signals define_interrupt_handler define_signal_handlers
    hardware_init to_timespec set_timer_single set_timer_repeating read_timer init_timer memcpy
    write_int highest_ready set_queue take link_last append handle_elapsed_time_interrupt now
    set_next set_head arm find_place link_timeout insert_in_queue skip_earlier skip_others
    unlink_timeout remove_from_queue is_due enable_timeout disable_timeout timer_init set_channel
    init_channel chan_in chan_out enable_channel_input disable_channel_input enable_channel_output
    enable_interrupt_channel disable_interrupt_channel set_kind init_chanin_guard init_chanout_guard
    set_active activate set_process set_alt init_alt count_active enable_guard enable_guards
    enable_alt disable_guard disable_guards transfer disable_alt set_state init_process start
    start_idle terminate initial ready_with choose run_rtc finish_alt begin_alt begin_process
    advance settle run_process schedule_loop schedule run clear_queues define_user_handlers
    sched_init initialize
ring3_collects = refl

-- The same for one cycle of `mtring.c`, of 64 times: 1 + 2 + 66 * 3 + 64 is 265.
mtring_collects : idle_with (collected 265) (mtring_main 4 1 2 5000 100 400 200 2000 loaded) ≡ true
unfolding mtring_main deactivate selected write_byte write_short add_int call_now to_input to_output
    init_guards init_channels start_elements element_turn element_rtc trial_turn inject_same
    inject_next pass_turn collect_turn last_turn many_turn init_many ring3_root_rtc mtring_root_rtc
    connect_root number_elements ring_rtc connect_elements find_from find_mem_index cut_tail
    unlink_first take_block allocate_mem release_mem memory_init enable_interrupts
    disable_interrupts delete_signals add_signals define_interrupt_handler define_signal_handlers
    hardware_init to_timespec set_timer_single set_timer_repeating read_timer init_timer memcpy
    write_int highest_ready set_queue take link_last append handle_elapsed_time_interrupt now
    set_next set_head arm find_place link_timeout insert_in_queue skip_earlier skip_others
    unlink_timeout remove_from_queue is_due enable_timeout disable_timeout timer_init set_channel
    init_channel chan_in chan_out enable_channel_input disable_channel_input enable_channel_output
    enable_interrupt_channel disable_interrupt_channel set_kind init_chanin_guard init_chanout_guard
    set_active activate set_process set_alt init_alt count_active enable_guard enable_guards
    enable_alt disable_guard disable_guards transfer disable_alt set_state init_process start
    start_idle terminate initial ready_with choose run_rtc finish_alt begin_alt begin_process
    advance settle run_process schedule_loop schedule run clear_queues define_user_handlers
    sched_init initialize
mtring_collects = refl
