-- ===== src/Interrupts.antt =====
-- The signal handler of src/hardware.c, `handle_signal`, with the three interrupt handlers that the
-- program installs. The system blocks all the real-time signals on the way in, as the handler's
-- action asks, and puts back the mask from before the signal when the handler has returned.
pub mod Mask
use microcsp.Base.{ℕ, ◌+◌, ◌-◌, not, ◌||◌, Option, none, some, ◌==◌, if◌then◌else◌, ℤ, pos}
use microcsp.Machine.{
  Ptr, Sigset, Handler, handle_elapsed_time, handle_timeout, user_interrupt, Machine, Cmd, ok,
  ◌>>=◌, ◌>>◌, get, modify, when,
}
use microcsp.Hardware.{greater_than_or_equal_to}
use microcsp.Timer.{handle_elapsed_time_interrupt, handle_timeout_interrupt}
use microcsp.Sched.{schedule, ready_process_if_necessary, user_interrupt_handler, current_priority}

-- `sigprocmask(SIG_BLOCK, set, NULL)` and `sigprocmask(SIG_SETMASK, set, NULL)`
unfoldable pub block_signals : Sigset → Machine → Machine
block_signals set m = record m { blocked = λ s. m.blocked s || set s }

unfoldable pub set_mask : Sigset → Machine → Machine
set_mask set m = record m { blocked = set }

-- The first half of `handle_signal`, up to the call of the interrupt's handler.
unfoldable pub enter_handler : (signo : ℕ) → Machine → Machine
unfolding block_signals
enter_handler signo m =
    let arrived = block_signals m.all_signals m in
    let blocked = greater_than_or_equal_to m signo in
    block_signals blocked
      (record arrived { active_handlers = m.active_handlers + 1; currently_blocked = blocked })

module _ (rtc : ℕ → Ptr → Cmd (Unit {0})) (timer_fuel fuel : ℕ) where
  -- A call through the table of interrupt handlers.
  unfoldable pub call_handler : Option Handler → (intrsrc : ℕ) → Cmd (Unit {0})
  call_handler none intrsrc m = ok tt m
  call_handler (some handle_elapsed_time) intrsrc m = ok tt (handle_elapsed_time_interrupt m)
  call_handler (some handle_timeout) intrsrc m =
      handle_timeout_interrupt (ready_process_if_necessary rtc timer_fuel fuel) timer_fuel m
  call_handler (some user_interrupt) intrsrc m =
      user_interrupt_handler rtc timer_fuel fuel intrsrc m

  -- The second half, from the return of the interrupt's handler on.
  unfoldable pub leave_handler : (previously_blocked : Sigset) → Cmd (Unit {0})
  unfolding block_signals set_mask
  leave_handler previously_blocked = do
    modify (λ m. block_signals m.all_signals m)
    modify (λ m. record m { active_handlers = m.active_handlers - 1 })
    m ← get
    when (m.active_handlers == 0) (schedule rtc timer_fuel fuel (pos (current_priority m)))
    modify (λ m. set_mask previously_blocked (record m { currently_blocked = previously_blocked }))

  unfoldable pub handle_signal : (signo : ℕ) → Cmd (Unit {0})
  unfolding enter_handler call_handler leave_handler set_mask
  handle_signal signo m =
      let intrsrc = signo - m.sigrtmin in
      (do
        modify (enter_handler signo)
        call_handler (m.interrupt_handler intrsrc) intrsrc
        leave_handler m.currently_blocked
        modify (set_mask m.blocked))
        m
