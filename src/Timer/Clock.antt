-- ===== src/Timer/Clock.antt =====
-- `Now` under elapsed-time interrupts, and the timeout timer that `arm` starts.
use microcsp.Base.{
  ◌∙◌, ◌*◌, ◌%◌, ◌++◌, ℕ, zero, suc, ◌+◌, ◌-◌, ◌^◌, ◌≤◌, ◌<◌, ◌≡◌, refl, false, List, [], ◌∷◌,
  arith, ◌==◌, sub64, u64_mod, update,
}
use microcsp.Machine.{Ptr, Machine, ok}
use microcsp.Hardware.Timers.{max_interval, single, from_timespec-to_timespec, set_timer_single-ok}
use microcsp.Hardware.{timer_timeout, from_timespec, to_timespec, read_timer}
use microcsp.Timer.{
  handle_elapsed_time_interrupt, tick, elapse, now_loop, now_interrupted, now, arm, time_at,
}

-- With interrupts disabled the loop of `Now` ends in its first round, with `now`.
pub now_interrupted-quiet :
    (ks : List ℕ) (m : Machine) → now_interrupted (0 ∷ ks) m ≡ ok (now m).0 (now m).1
unfolding now_interrupted now
now_interrupted-quiet ks m = ground arith

-- Rounds in each of which some interrupts arrive, and fewer than would bring the 64-bit count of
-- nanoseconds round to the same value.
abbrev pub Busy : List ℕ → Type 0
Busy [] = Unit {0}
Busy (k ∷ ks) = (0 < k) × (k * tick < u64_mod) × Busy ks

-- The state after the rounds: in each one the timer is read and the interrupts are counted.
unfoldable pub after_rounds : List ℕ → Machine → Machine
unfolding read_timer elapse
after_rounds [] m = m
after_rounds (k ∷ ks) m = after_rounds ks (elapse k (read_timer m).1)

elapse-time :
    (k : ℕ) (m : Machine)
    → (elapse (suc k) m).current_time ≡ (m.current_time + suc k * tick) % u64_mod
unfolding elapse handle_elapsed_time_interrupt
elapse-time zero m = omega arith
elapse-time (suc k) m = elapse-time k (handle_elapsed_time_interrupt m) ∙ omega arith

-- Interrupts change the time.
elapse-moves :
    (k : ℕ) (m : Machine)
    → 0 < k
    → k * tick < u64_mod
    → ((elapse k m).current_time == m.current_time) ≡ false
elapse-moves zero m some_come few = absurd (omega arith)
elapse-moves (suc k) m some_come few =
    let moved : ¬ ((elapse (suc k) m).current_time ≡ m.current_time) =
      λ e. omega (arith, e, elapse-time k m) in
    ground (arith, moved)

now_loop-round :
    (k : ℕ) (ks : List ℕ) (m : Machine)
    → ((elapse k (read_timer m).1).current_time == m.current_time) ≡ false
    → now_interrupted (k ∷ ks) m ≡ now_interrupted ks (elapse k (read_timer m).1)
unfolding now_interrupted now_loop read_timer
now_loop-round k ks m moved = rw moved refl

-- `Now` under elapsed-time interrupts: however many rounds of its loop see interrupts between the
-- reading of the timer and that of the current time, each fewer than 2^64 nanoseconds of them,
-- `Now` tries again after each, and returns in the first round that sees none, with what an
-- undisturbed call gives then; so no tick has come between the reading that it uses and its return.
pub now_interrupted-now :
    (busy ks : List ℕ) (m : Machine)
    → Busy busy
    → now_interrupted (busy ++ 0 ∷ ks) m
      ≡ ok (now (after_rounds busy m)).0 (now (after_rounds busy m)).1
unfolding after_rounds
now_interrupted-now [] ks m b = now_interrupted-quiet ks m
now_interrupted-now (k ∷ busy) ks m b =
    now_loop-round k (busy ++ 0 ∷ ks) m (elapse-moves k (read_timer m).1 b.0 b.1)
    ∙ now_interrupted-now busy ks (elapse k (read_timer m).1) b.2

-- While the timer's reading is at most a tick, the time lies between the current time and the next.
pub now_bounds :
    (m : Machine)
    → from_timespec (m.readings m.reads) ≤ tick
    → m.current_time + tick < u64_mod
    → (m.current_time ≤ (now m).0) × ((now m).0 ≤ m.current_time + tick)
unfolding now read_timer
now_bounds m h k = omega arith

-- An interval that has wrapped below 0, in seconds of 32 bits.
late_seconds :
    (time t : ℕ)
    → time < u64_mod
    → time < t
    → t ≤ time + 500_000_000
    → (to_timespec (sub64 time t)).tv_sec ≡ 1_266_874_889
unfolding to_timespec
late_seconds time t w h k = omega arith

module _ (p : Ptr) (m : Machine) (word : time_at m p < u64_mod) where
  -- Armed before the timeout's time, the timer is set to the time that is left, if that is below
  -- 2^31 seconds, and the timeout queue stays.
  pub arm-timely :
      (now m).0 ≤ time_at m p
      → time_at m p < (now m).0 + max_interval
      → (n : Machine) × (arm p m ≡ ok tt n)
        × (from_timespec (n.timers timer_timeout).it_value ≡ time_at m p - (now m).0)
        × (n.timeout ≡ m.timeout)
        × (n.timer_q ≡ m.timer_q)
  unfolding arm now read_timer
  arm-timely h k =
      let d = time_at m p - (now m).0 in
      let e : sub64 (time_at m p) (now m).0 ≡ d = omega arith in
      let split = from_timespec-to_timespec d (omega arith) in
      (
        record (now m).1 { timers = update (now m).1.timers timer_timeout (single d) },
        rw e (set_timer_single-ok timer_timeout d (now m).1 split.2),
        split.0,
        refl,
        refl,
      )

  -- Armed after the timeout's time, by up to half a second, the timer is set to more than 2^30
  -- seconds: the difference wraps, and the test for a positive interval does not see it.
  pub arm-late :
      time_at m p < (now m).0
      → (now m).0 ≤ time_at m p + 500_000_000
      → (n : Machine) × (arm p m ≡ ok tt n) × (2 ^ 30 < (n.timers timer_timeout).it_value.tv_sec)
  unfolding arm
  arm-late h k =
      let d = sub64 (time_at m p) (now m).0 in
      let sec : (to_timespec d).tv_sec ≡ 1_266_874_889 =
        late_seconds (time_at m p) (now m).0 word h k in
      (
        record (now m).1 { timers = update (now m).1.timers timer_timeout (single d) },
        set_timer_single-ok timer_timeout d (now m).1 (omega (arith, sec)),
        omega (arith, sec),
      )
