-- ===== src/Sched.antt =====
-- The scheduler of src/sched.c. The functions that the processes run are an argument, `rtc`: a name
-- of such a function and the address of the process's local variables give a command. `idle` has
-- the name 0. `schedule` and `readyProcessIfNecessary` call one another: they take fuel, a unit for
-- each round of a scheduler's loop and each nested scheduler; `timer_fuel` is that of the timeout
-- queue. Interrupts arrive between the calls that are modelled here.
pub mod Initial
pub mod Ready
pub mod Select
pub mod User
pub mod Start
pub mod Arrivals
pub mod Refine
pub mod Alternate
pub mod Fair
use microcsp.Base.{
  ℕ, zero, suc, ◌+◌, ◌-◌, ◌%◌, Bool, true, false, not, ◌&&◌, ◌||◌, Option, none, some, ltb, leb,
  ◌==◌, if◌then◌else◌, update, u32_mod, ℤ, pos, negsuc, ltb_ℤ, leb_ℤ,
}
use microcsp.Machine.{
  Ptr, null, ProcState, proc_initial, proc_quiescent, proc_enabling, proc_waiting, proc_ready,
  proc_done, Alternation, Process, ReadyQ, Handler, user_interrupt, Machine, Cmd, ok, exit, idles,
  out_of_fuel, ◌>>=◌, ◌>>◌, pure, get, modify, error_if, undefined, when, invalid_priority,
  invalid_interrupt,
}
use microcsp.Hardware.{
  enable_interrupts, disable_interrupts, memcpy, define_interrupt_handler, intr_user0,
  nintr_sources, hardware_init, send_user_interrupt, plus_int,
}
use microcsp.Memory.{find_mem_index, allocate_mem, release_mem, memory_init}
use microcsp.Ready.{pri_min, pri_max, levels, highest_ready, take, append}
use microcsp.Timer.{timer_init}
use microcsp.Channel.{set_channel}
use microcsp.Alt.{enable_alt, disable_alt, set_process}

-- `sizeof(struct Process)`, and the offset of what follows it, in the program's -m32 build
abbrev pub sizeof_process : ℕ
sizeof_process = 20

-- the name of `idle`
abbrev pub idle : ℕ
idle = 0

-- `LOCAL(proc)`
abbrev pub local_of : Machine → Ptr → Ptr
local_of m proc = proc + m.proc_offset

abbrev pub state_of : Machine → Ptr → ProcState
state_of m proc = (m.process proc).state

abbrev pub pri_of : Machine → Ptr → ℕ
pri_of m proc = (m.process proc).pri

unfoldable pub set_state : Ptr → ProcState → Machine → Machine
unfolding set_process
set_state proc state m = set_process proc (record (m.process proc) { state = state }) m

unfoldable pub current_priority : Machine → ℕ
current_priority m = pri_of m m.current

-- The fields that `start` and `start_idle` set; the rest of the record is what the block held.
unfoldable pub init_process : (proc rtc index pri : ℕ) → Machine → Machine
unfolding set_process
init_process proc rtc index pri m =
    let old = m.process proc in
    set_process proc
      (record old {
        rtc = rtc;
        index = index;
        pri = pri;
        state = proc_initial;
        alt = record old.alt { guards = null; nr_guards = 0 };
      })
      (record m { next = update m.next proc null })

-- The value of an int that has been checked to be positive.
abbrev pub to_nat : ℤ → ℕ
to_nat (pos n) = n
to_nat (negsuc n) = 0

-- `memcpy` of the local variables, with the guards and timeouts among them, which stand in maps of
-- their own.
unfoldable pub copy_locals : (dest src len : ℕ) → Machine → Machine
copy_locals dest src len m =
    let inside = λ (a : Ptr). leb dest a && ltb a (dest + len) in
    record (memcpy dest src len m) {
      guard = λ a. if inside a then m.guard (src + (a - dest)) else m.guard a;
      timeout = λ a. if inside a then m.timeout (src + (a - dest)) else m.timeout a;
    }

unfoldable pub start : (rtc local_struct local_size : ℕ) (pri : ℤ) → Cmd (Unit {0})
unfolding init_process copy_locals
start rtc local_struct local_size pri = do
  error_if (ltb_ℤ pri (pos 1) || ltb_ℤ (pos pri_max) pri) invalid_priority
  m ← get
  index ← find_mem_index ((m.proc_offset + local_size) % u32_mod)
  proc ← allocate_mem index
  modify (λ n. copy_locals (proc + n.proc_offset) local_struct local_size n)
  modify (init_process proc rtc index (to_nat pri))
  modify (append proc)

unfoldable pub start_idle : (rtc : ℕ) → Cmd (Unit {0})
unfolding init_process
start_idle rtc = do
  index ← find_mem_index sizeof_process
  proc ← allocate_mem index
  modify (init_process proc rtc index pri_min)
  modify (λ m. record m { current = proc })
  modify (append proc)

unfoldable pub terminate : Machine → Machine
unfolding set_state
terminate m = set_state m.current proc_done m

abbrev pub is_state : ProcState → ProcState → Bool
is_state proc_initial proc_initial = true
is_state proc_quiescent proc_quiescent = true
is_state proc_enabling proc_enabling = true
is_state proc_waiting proc_waiting = true
is_state proc_ready proc_ready = true
is_state proc_done proc_done = true
is_state _ _ = false

-- Returns true if it is process's initial execution.
unfoldable pub initial : Machine → Bool
initial m = is_state (state_of m m.current) proc_initial

-- `readyProcessIfNecessary`, with the scheduler that it calls. The test of its second branch is an
-- assignment, whose value 3 counts as true.
unfoldable pub ready_with : (schedule : ℤ → Cmd (Unit {0})) → Ptr → Cmd (Unit {0})
unfolding set_state
ready_with schedule partner m =
    if is_state (state_of m partner) proc_enabling
    then ok tt (set_state partner proc_ready m)
    else (do
      modify (set_state partner proc_waiting)
      modify (set_state partner proc_ready)
      modify (append partner)
      n ← get
      let prev = n.current
      when (ltb (pri_of n prev) (pri_of n partner))
          (schedule (pos (pri_of n prev)) >> modify (λ n. record n { current = prev })))
        m

-- The head of the scheduler's loop: the process to run, or none where the scheduler returns. A NULL
-- that `take` returns is dereferenced.
unfoldable pub choose : (base_pri : ℤ) (proc : Ptr) → Cmd (Option Ptr)
choose base_pri proc m =
    let highest = highest_ready m.priority_mask in
    let (taken, m') = take highest m in
    let chosen = if taken == null then undefined else pure (some taken) in
    if not (proc == null)
    then ok (some proc) m
    else if leb_ℤ (pos highest) base_pri
    then ok none m
    else chosen (record m' { current = taken })

module _ (rtc : ℕ → Ptr → Cmd (Unit {0})) (timer_fuel : ℕ) where
  -- `proc->rtc(LOCAL(proc))`; the idle process does not return.
  unfoldable pub run_rtc : Ptr → Cmd (Unit {0})
  run_rtc proc m =
      if (m.process proc).rtc == idle then idles m else rtc (m.process proc).rtc (local_of m proc) m

  -- The branch for a process that is ready: the ALT is disabled, and the code is to be run.
  unfoldable pub finish_alt : Ptr → Cmd (Bool × Ptr)
  unfolding set_state
  finish_alt proc = do
    partner ← disable_alt timer_fuel proc
    modify (set_state proc proc_quiescent)
    pure (true, partner)

  -- The branch for a process that is not involved in an ALT.
  unfoldable pub begin_alt : Ptr → Cmd (Bool × Ptr)
  unfolding set_state finish_alt
  begin_alt proc = do
    modify (set_state proc proc_enabling)
    (ready, partner) ← enable_alt timer_fuel proc
    modify (λ m.
        if is_state (state_of m proc) proc_enabling
        then set_state proc (if ready then proc_ready else proc_waiting) m
        else m)
    m ← get
    modify enable_interrupts
    if is_state (state_of m proc) proc_ready then finish_alt proc else pure (false, partner)

  -- The branch for a new process.
  unfoldable pub begin_process : Ptr → Cmd (Bool × Ptr)
  unfolding set_state run_rtc
  begin_process proc = do run_rtc proc; modify (set_state proc proc_quiescent); pure (false, null)

  -- The branches of the scheduler's loop: whether to run the process's code, and its partner.
  unfoldable pub advance : ProcState → Ptr → Cmd (Bool × Ptr)
  unfolding begin_process begin_alt finish_alt
  advance proc_initial proc = begin_process proc
  advance proc_quiescent proc = begin_alt proc
  advance proc_ready proc = finish_alt proc
  advance proc_enabling proc = pure (false, null)
  advance proc_waiting proc = pure (false, null)
  advance proc_done proc = pure (false, null)

  -- The end of the loop's body: the process that the next round goes on with, or NULL.
  unfoldable pub settle : Ptr → Cmd Ptr
  settle proc m =
      let p = m.process proc in
      if is_state p.state proc_done
      then ok null (release_mem p.index proc m)
      else ok (if is_state p.state proc_waiting then null else proc) m

  -- One round of the scheduler's loop for the process that runs in it.
  unfoldable pub run_process : (ready_process : Ptr → Cmd (Unit {0})) → Ptr → Cmd Ptr
  unfolding advance run_rtc settle
  run_process ready_process proc = do
    m ← get
    modify enable_interrupts
    (execute, partner) ← advance (state_of m proc) proc
    when (not (partner == null))
        (modify disable_interrupts >> (ready_process partner >> modify enable_interrupts))
    when execute (run_rtc proc)
    modify disable_interrupts
    settle proc

  unfoldable pub schedule_loop : (fuel : ℕ) (base_pri : ℤ) (proc : Ptr) → Cmd (Unit {0})
  unfolding choose run_process ready_with
  schedule_loop zero base_pri proc m = out_of_fuel
  schedule_loop (suc f) base_pri proc m =
      let nested = λ (b : ℤ). schedule_loop f b null in
      let again = schedule_loop f base_pri in
      (choose base_pri proc
          >>= elim [ none ↦ pure tt | some p ↦ run_process (ready_with nested) p >>= again ])
        m

  unfoldable pub schedule : (fuel : ℕ) (base_pri : ℤ) → Cmd (Unit {0})
  unfolding schedule_loop
  schedule fuel base_pri = schedule_loop fuel base_pri null

  unfoldable pub ready_process_if_necessary : (fuel : ℕ) → Ptr → Cmd (Unit {0})
  unfolding schedule ready_with
  ready_process_if_necessary fuel = ready_with (schedule fuel)

  -- Called by the main function; the scheduler below it runs at priority -1.
  unfoldable pub run : (fuel : ℕ) → Cmd (Unit {0})
  unfolding schedule
  run fuel = schedule fuel (negsuc pri_min)

  unfoldable pub user_interrupt_handler : (fuel intrsrc : ℕ) → Cmd (Unit {0})
  unfolding ready_process_if_necessary set_channel
  user_interrupt_handler fuel intrsrc m =
      let chan = m.channel_for_interrupt (intrsrc - intr_user0) in
      let c = m.channel chan in
      let counted = set_channel chan (record c { src = (c.src + 1) % u32_mod }) m in
      if chan == null
      then ok tt m
      else when (not (c.waiting == null)) (ready_process_if_necessary fuel c.waiting) counted

-- `intrno + INTR_USER0`
abbrev pub add_user0 : ℤ → ℤ
add_user0 (pos n) = pos (n + intr_user0)
add_user0 (negsuc n) =
    if ltb n intr_user0 then pos (intr_user0 - suc n) else negsuc (n - intr_user0)

-- The test `!(INTR_USER0 <= intrsrc < NINTR_SOURCES)` compares the value of a comparison.
unfoldable pub send_software_interrupt : ℤ → Cmd (Unit {0})
send_software_interrupt intrno =
    let intrsrc = add_user0 intrno in
    let first : ℕ = if leb_ℤ (pos intr_user0) intrsrc then 1 else 0 in
    error_if (not (ltb first nintr_sources)) invalid_interrupt >> send_user_interrupt intrsrc

-- The loops of `sched_init` over the ready queues and the user interrupts.
unfoldable pub clear_queues : (left i : ℕ) → Machine → Machine
clear_queues zero i m = m
clear_queues (suc left) i m =
    clear_queues left (i + 1)
      (record m { ready_q = update m.ready_q i (record { head = null; tail = null }) })

unfoldable pub define_user_handlers : (left i : ℕ) → Machine → Machine
define_user_handlers zero i m = m
define_user_handlers (suc left) i m =
    define_user_handlers left (i + 1) (define_interrupt_handler i user_interrupt m)

unfoldable pub sched_init : Cmd (Unit {0})
unfolding clear_queues define_user_handlers start_idle
sched_init = do
  modify (λ m. record m { proc_offset = sizeof_process })
  modify (clear_queues levels pri_min)
  modify (define_user_handlers (nintr_sources - intr_user0) intr_user0)
  start_idle idle

-- `block` is what `Malloc` returns.
unfoldable pub initialize : (block memlen : ℕ) → Cmd (Unit {0})
unfolding sched_init
initialize block memlen = do modify hardware_init; memory_init block memlen; sched_init; timer_init
