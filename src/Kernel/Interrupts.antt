-- ===== src/Kernel/Interrupts.antt =====
-- A user interrupt, by the handler of src/sched.c, as a step of the kernel.
use microcsp.Base.{ltb, pos, false, Bool, true, ℕ, true, if◌then◌else◌, ◌==◌}
use microcsp.Machine.{Outcome, and_then, Ptr, null, Machine, Cmd, ok, proc_enabling}
use microcsp.Sched.{state_of, pri_of, is_state, schedule}
use microcsp.Kernel.{View}
use microcsp.Kernel.Reach.{Reach, enqueued}

-- The process that waits at a channel.
abbrev pub waiter : Machine → Ptr → Ptr
waiter m chan = (m.channel chan).waiting

-- The view after a user interrupt for a channel: its process is queued, unless there is no such
-- process, or it is enabling its ALT.
abbrev pub interrupted : View → Machine → Ptr → View
interrupted v m chan =
    if chan == null
    then v
    else if waiter m chan == null
    then v
    else if is_state (state_of m (waiter m chan)) proc_enabling
    then v
    else enqueued v (pri_of m (waiter m chan)) (waiter m chan)

-- Whether the process that is readied has a higher priority than the running one, so that a
-- scheduler is called for it. One that is enabling its ALT is only marked as ready.
abbrev pub preempts : Machine → Ptr → Bool
preempts m p =
    if is_state (state_of m p) proc_enabling then false else ltb (pri_of m m.current) (pri_of m p)

abbrev pub urgent : Machine → Ptr → Bool
urgent m chan =
    if chan == null
    then false
    else if waiter m chan == null
    then false
    else preempts m (waiter m chan)

module _ (rtc : ℕ → Ptr → Cmd (Unit {0})) (timer_fuel fuel : ℕ) where
  -- What follows when a process has been readied: at once the end, or a scheduler for what lies
  -- above the running process's priority, after which that process goes on.
  abbrev pub go_on : Bool → (current : Ptr) (base : ℕ) → Machine → Outcome (Unit {0})
  go_on preempting current base n =
      if preempting
      then and_then (schedule rtc timer_fuel fuel (pos base) n)
          (λ _ o. ok tt (record o { current = current }))
      else ok tt n
