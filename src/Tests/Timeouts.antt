-- ===== src/Tests/Timeouts.antt =====
-- Runs of the clock and the timeout queue of src/timer.c.
use microcsp.Base.{
  ◌⊎◌, leb, false, ℕ, ◌-◌, ◌^◌, ◌<◌, ◌≡◌, refl, inl, true, List, [], ◌∷◌, ◌++◌, arith, ◌==◌, ◌&&◌,
  if◌then◌else◌, has, head_or,
}
use microcsp.Machine.{Ptr, null, Machine, Timeout, ok}
use microcsp.Hardware.{read_timer, from_timespec, timer_timeout}
use microcsp.Timer.{
  time_at, proc_at, now, now_interrupted, arm, insert_in_queue, enable_timeout, disable_timeout,
  remove_from_queue,
}
use microcsp.Timer.Clock.{after_rounds, now_interrupted-now, arm-late}
use microcsp.Timer.Queue.{IsTimerQ, not_later, later, not_earlier}
use microcsp.Timer.Insert.{SameClock, is_nil, insert_in_queue-IsTimerQ}
use microcsp.Timer.Remove.{erase, unpassed, remove_from_queue-erase}
use microcsp.Timer.Enable.{enable_timeout-IsTimerQ}
use microcsp.Timer.Withdraw.{enable_timeout-disable_timeout}
use microcsp.Tests.{loaded}

abbrev timeout_of : (next proc time : ℕ) → Timeout
timeout_of next proc time = record { next = next; proc = proc; time = time }

-- Three timeouts in the queue, the second and the first at the same time, and two that are not, of
-- which one has passed and one lies ahead; the time is 11.
abbrev pub three_timeouts : Machine
three_timeouts = record loaded {
  timeout = λ p.
      if p == 21
      then timeout_of 22 101 5
      else if p == 22
      then timeout_of 23 102 5
      else if p == 23
      then timeout_of null 103 9_000_000_000
      else if p == 24
      then timeout_of null 104 7
      else timeout_of null 105 20;
  timer_q = 21;
  current_time = 10;
}

abbrev pub timer_list : List Ptr
timer_list = 21 ∷ 22 ∷ 23 ∷ []

the_time : (now three_timeouts).0 ≡ 11
unfolding now read_timer
the_time = refl

pub three_timeouts-IsTimerQ : IsTimerQ three_timeouts timer_list
three_timeouts-IsTimerQ = record {
  chain = (refl, omega arith, (refl, omega arith, (refl, omega arith, refl)));
  distinct = (refl, (refl, (refl, tt)));
  ascending = (omega arith, (omega arith, (omega arith, tt)));
}

insert_in_queue-IsTimerQ_example :
    let front = not_later (time_at three_timeouts) (time_at three_timeouts 24) timer_list in
    let back = later (time_at three_timeouts) (time_at three_timeouts 24) timer_list in
    (n : Machine) × IsTimerQ n (front ++ 24 ∷ back)
    × (insert_in_queue 4 24 three_timeouts ≡ (if is_nil front then arm 24 n else ok tt n))
    × SameClock three_timeouts n
insert_in_queue-IsTimerQ_example =
    insert_in_queue-IsTimerQ 4 24 timer_list three_timeouts three_timeouts-IsTimerQ (omega arith)
      refl (omega arith)

remove_from_queue-erase_example :
    (n : Machine) × IsTimerQ n (erase three_timeouts 5 102 timer_list)
    × (remove_from_queue 4 5 102 three_timeouts
        ≡ ok
            (head_or null
              (unpassed three_timeouts 5 102 (not_earlier (time_at three_timeouts) 5 timer_list)))
            n)
remove_from_queue-erase_example =
    remove_from_queue-erase three_timeouts 5 102 4 timer_list three_timeouts-IsTimerQ (omega arith)

now_interrupted-now_example :
    let n = after_rounds (2 ∷ 1 ∷ []) three_timeouts in
    now_interrupted (2 ∷ 1 ∷ 0 ∷ []) three_timeouts ≡ ok (now n).0 (now n).1
now_interrupted-now_example =
    now_interrupted-now (2 ∷ 1 ∷ []) [] three_timeouts
      (omega arith, omega arith, (omega arith, omega arith, tt))

the_time_again : (now (now three_timeouts).1).0 ≡ 11
unfolding now read_timer
the_time_again = refl

others_differ :
    (a : Ptr)
    → has a timer_list ≡ true
    → (time_at three_timeouts a == 20 && proc_at three_timeouts a == 105) ≡ false
others_differ a h = ground arith

enable_timeout-disable_timeout_example :
    (n : Machine) × (o : Machine) × (enable_timeout 5 25 three_timeouts ≡ ok false n)
    × (disable_timeout 5 25 n ≡ ok (leb 20 (now n).0) o)
    × IsTimerQ o timer_list
enable_timeout-disable_timeout_example =
    enable_timeout-disable_timeout 5 25 timer_list three_timeouts three_timeouts-IsTimerQ
      (omega arith) refl (omega arith) (omega (arith, the_time)) (omega (arith, the_time_again))
      (omega (arith, the_time_again)) (omega arith) others_differ

enable_timeout-IsTimerQ_example :
    let front = not_later (time_at three_timeouts) 20 timer_list in
    let back = later (time_at three_timeouts) 20 timer_list in
    (n : Machine) × (enable_timeout 4 25 three_timeouts ≡ ok (leb 20 (now three_timeouts).0) n)
    × IsTimerQ n (if leb 20 (now three_timeouts).0 then timer_list else front ++ 25 ∷ back)
    × ((leb 20 (now three_timeouts).0 ≡ true)
        ⊎ (is_nil front ≡ false)
        ⊎ (from_timespec (n.timers timer_timeout).it_value ≡ 20 - (now (now three_timeouts).1).0))
enable_timeout-IsTimerQ_example =
    enable_timeout-IsTimerQ 4 25 timer_list three_timeouts three_timeouts-IsTimerQ (omega arith)
      refl (omega arith) (inl (omega (arith, the_time_again))) (omega (arith, the_time_again))
      (omega arith)

arm-late_example :
    (n : Machine) × (arm 21 three_timeouts ≡ ok tt n)
    × (2 ^ 30 < (n.timers timer_timeout).it_value.tv_sec)
arm-late_example =
    arm-late 21 three_timeouts (omega arith) (omega (arith, the_time)) (omega (arith, the_time))
