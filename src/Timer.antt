-- ===== src/Timer.antt =====
-- src/timer.c: elapsed time, and the queue of timeouts in time order. The list walks take fuel; the
-- length of the queue plus one is enough. What readies a process, `readyProcessIfNecessary` of
-- src/sched.c, is an argument.
pub mod Clock
pub mod Queue
pub mod Insert
pub mod Remove
pub mod Expire
pub mod Enable
pub mod Withdraw
use microcsp.Base.{
  ℕ, zero, suc, ◌+◌, Bool, not, ◌&&◌, ◌||◌, List, [], ◌∷◌, ltb, leb, ◌==◌, if◌then◌else◌, update,
  add64, sub64,
}
use microcsp.Machine.{
  Ptr, null, Timeout, Machine, Cmd, handle_elapsed_time, handle_timeout, ◌>>=◌, ◌>>◌, pure, get,
  modify, no_fuel, when, out_of_fuel,
}
use microcsp.Hardware.{
  timer_elapsed, timer_timeout, intr_elapsed, intr_timeout, read_timer, set_timer_single,
  set_timer_repeating, define_interrupt_handler, init_timer,
}

-- time units (nsec) per tick
abbrev pub tick : ℕ
tick = 1_000_000_000

-- the timeout at an address
abbrev pub time_at : Machine → Ptr → ℕ
time_at m p = (m.timeout p).time

abbrev pub proc_at : Machine → Ptr → Ptr
proc_at m p = (m.timeout p).proc

abbrev pub next_timeout : Machine → Ptr → Ptr
next_timeout m p = (m.timeout p).next

unfoldable pub handle_elapsed_time_interrupt : Machine → Machine
handle_elapsed_time_interrupt m = record m { current_time = add64 m.current_time tick }

-- That many elapsed-time interrupts.
unfoldable pub elapse : ℕ → Machine → Machine
unfolding handle_elapsed_time_interrupt
elapse zero m = m
elapse (suc k) m = elapse k (handle_elapsed_time_interrupt m)

-- The loop of `Now` with the number of elapsed-time interrupts that arrive in each round, between
-- the reading of the timer and that of the current time; `c` is the current time as last read.
unfoldable pub now_loop : List ℕ → ℕ → Cmd ℕ
unfolding read_timer elapse
now_loop [] c = no_fuel
now_loop (k ∷ ks) c = λ m.
    let (t, m₁) = read_timer m in
    let m₂ = elapse k m₁ in
    let again = now_loop ks m₂.current_time m₂ in
    if m₂.current_time == c then pure (add64 (sub64 tick t) c) m₂ else again

unfoldable pub now_interrupted : List ℕ → Cmd ℕ
unfolding now_loop
now_interrupted ks m = now_loop ks m.current_time m

-- `Now` with interrupts disabled.
unfoldable pub now : Machine → ℕ × Machine
unfolding read_timer
now m = let (t, m₁) = read_timer m in (add64 (sub64 tick t) m.current_time, m₁)

-- `p->next = q`
unfoldable pub set_next : Ptr → Ptr → Machine → Machine
set_next p q m = record m { timeout = update m.timeout p (record (m.timeout p) { next = q }) }

unfoldable pub set_head : Ptr → Machine → Machine
set_head p m = record m { timer_q = p }

-- Starts the timeout timer for the time that is left until the timeout.
unfoldable pub arm : Ptr → Cmd (Unit {0})
arm p m = let (t, m₁) = now m in set_timer_single timer_timeout (sub64 (time_at m p) t) m₁

-- The search of `insertInQueue`: the last timeout that is not later and what follows it.
unfoldable pub find_place : (fuel time prev curr : ℕ) → Cmd (Ptr × Ptr)
find_place zero time prev curr m = out_of_fuel
find_place (suc f) time prev curr m =
    let further = find_place f time curr (next_timeout m curr) m in
    if not (curr == null) && leb (time_at m curr) time then further else pure (prev, curr) m

-- The four cases of the insertion.
unfoldable pub link_timeout : (timeout prev curr : Ptr) → Cmd (Unit {0})
unfolding set_next set_head
link_timeout timeout prev curr =
    if prev == null
    then if curr == null
      then modify (set_head timeout) >> (modify (set_next timeout null) >> arm timeout)
      else modify (set_head timeout) >> (modify (set_next timeout curr) >> arm timeout)
    else if curr == null
    then modify (set_next prev timeout) >> modify (set_next timeout null)
    else modify (set_next prev timeout) >> modify (set_next timeout curr)

unfoldable pub insert_in_queue : (fuel : ℕ) → Ptr → Cmd (Unit {0})
unfolding find_place link_timeout
insert_in_queue fuel timeout = do
  m ← get
  (prev, curr) ← find_place fuel (time_at m timeout) null m.timer_q
  link_timeout timeout prev curr

-- The two searches of `removeFromQueue`.
unfoldable pub skip_earlier : (fuel time prev curr : ℕ) → Cmd (Ptr × Ptr)
skip_earlier zero time prev curr m = out_of_fuel
skip_earlier (suc f) time prev curr m =
    let further = skip_earlier f time curr (next_timeout m curr) m in
    if not (curr == null) && ltb (time_at m curr) time then further else pure (prev, curr) m

unfoldable pub skip_others : (fuel time proc prev curr : ℕ) → Cmd (Ptr × Ptr)
skip_others zero time proc prev curr m = out_of_fuel
skip_others (suc f) time proc prev curr m =
    let further = skip_others f time proc curr (next_timeout m curr) m in
    if not (curr == null) && (time_at m curr == time && not (proc_at m curr == proc))
    then further
    else pure (prev, curr) m

-- The removal at the place that was found.
unfoldable pub unlink_timeout : (time proc prev curr : ℕ) → Machine → Machine
unfolding set_next set_head
unlink_timeout time proc prev curr m =
    let next = next_timeout m curr in
    let m₁ = if prev == null then m else set_next prev next m in
    let m₂ = if curr == m₁.timer_q then set_head next m₁ else m₁ in
    if not (curr == null) && (time_at m curr == time && proc_at m curr == proc) then m₂ else m

unfoldable pub remove_from_queue : (fuel time proc : ℕ) → Cmd Ptr
unfolding skip_earlier skip_others unlink_timeout
remove_from_queue fuel time proc = do
  m ← get
  (prev, curr) ← skip_earlier fuel time null m.timer_q
  (prev', curr') ← skip_others fuel time proc prev curr
  modify (unlink_timeout time proc prev' curr')
  pure curr'

unfoldable pub remove_head : Machine → Machine
unfolding set_head
remove_head m = set_head (next_timeout m m.timer_q) m

-- The test `Now() >= timeout->time`.
unfoldable pub is_due : Ptr → Machine → Bool × Machine
is_due p m = let (t, m₁) = now m in (leb (time_at m p) t, m₁)

unfoldable pub enable_timeout : (fuel : ℕ) → Ptr → Cmd Bool
unfolding is_due insert_in_queue
enable_timeout fuel timeout m =
    let (ready, m₁) = is_due timeout m in
    (when (not ready) (insert_in_queue fuel timeout) >> pure ready) m₁

unfoldable pub disable_timeout : (fuel : ℕ) → Ptr → Cmd Bool
unfolding is_due remove_from_queue
disable_timeout fuel timeout m =
    let (ready, m₁) = is_due timeout m in
    (remove_from_queue fuel (time_at m timeout) (proc_at m timeout) >>= λ _. pure ready) m₁

module _ (ready_process : Ptr → Cmd (Unit {0})) where
  -- The loop of `handle_timeout_interrupt`.
  unfoldable pub ready_due : (fuel now : ℕ) → Cmd (Unit {0})
  unfolding remove_head
  ready_due zero t m = out_of_fuel
  ready_due (suc f) t m =
      let head = m.timer_q in
      let due = (modify remove_head >> (ready_process (proc_at m head) >> ready_due f t)) m in
      if not (head == null) && leb (time_at m head) t then due else pure tt m

  unfoldable pub handle_timeout_interrupt : (fuel : ℕ) → Cmd (Unit {0})
  unfolding ready_due
  handle_timeout_interrupt fuel m =
      let (t, m₁) = now m in
      (do
        ready_due fuel t
        n ← get
        when (not (n.timer_q == null))
            (set_timer_single timer_timeout (sub64 (time_at n n.timer_q) t)))
        m₁

unfoldable pub timer_init : Cmd (Unit {0})
timer_init = do
  modify (define_interrupt_handler intr_elapsed handle_elapsed_time)
  init_timer timer_elapsed intr_elapsed
  set_timer_repeating timer_elapsed tick
  modify (define_interrupt_handler intr_timeout handle_timeout)
  init_timer timer_timeout intr_timeout
