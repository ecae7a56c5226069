-- ===== src/Sched/Initial.antt =====
-- `start` and the initial run of a process in src/sched.c.
use microcsp.Base.{ℕ, ◌≡◌, refl, true, false, arith, ◌==◌, ◌||◌, ℤ, pos, ltb_ℤ}
use microcsp.Machine.{
  Ptr, null, proc_quiescent, proc_done, Machine, Cmd, ok, exit, invalid_priority,
}
use microcsp.Ready.{pri_max}
use microcsp.Alt.{set_process}
use microcsp.Sched.{
  idle, start, terminate, set_state, state_of, begin_process, run_rtc, local_of, settle,
}

-- What `start` does before it allocates anything: a priority outside 1 to 7 ends the program.
pub start-exit :
    (rtc local_struct local_size : ℕ) (pri : ℤ) (m : Machine)
    → (ltb_ℤ pri (pos 1) || ltb_ℤ (pos pri_max) pri) ≡ true
    → start rtc local_struct local_size pri m ≡ exit invalid_priority
unfolding start
start-exit rtc local_struct local_size pri m e = rw e refl

module _ (rtc : ℕ → Ptr → Cmd (Unit {0})) (timer_fuel : ℕ) where
  -- A new process whose code calls `terminate` in its initial run: the state that `terminate` sets
  -- is overwritten, the process is quiescent afterwards, the end of the round does not release its
  -- block, and it goes on as the process at hand.
  pub begin_process-terminate :
      (p : Ptr) (m n : Machine)
      → ((m.process p).rtc == idle) ≡ false
      → rtc (m.process p).rtc (local_of m p) m ≡ ok tt (terminate n)
      → n.current ≡ p
      → let left = set_state p proc_quiescent (terminate n) in
        (begin_process rtc timer_fuel p m ≡ ok (false, null) left)
        × (state_of (terminate n) p ≡ proc_done)
        × (state_of left p ≡ proc_quiescent)
        × (settle rtc timer_fuel p left ≡ ok p left)
  unfolding begin_process run_rtc terminate set_state set_process settle
  begin_process-terminate p m n busy ends cur =
      (rw (busy, ends) refl, ground arith, ground arith, ground arith)
