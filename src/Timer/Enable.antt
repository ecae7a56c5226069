-- ===== src/Timer/Enable.antt =====
-- `enable_timeout` of src/timer.c, which an ALT calls for a timeout guard.
use microcsp.Base.{
  ℕ, ◌+◌, ◌-◌, ◌≤◌, ◌<◌, ◌≡◌, refl, ap, ◌∙◌, ◌≢◌, ◌⊎◌, inl, inr, true, false, List, ◌∷◌, ◌++◌,
  arith, leb, if◌then◌else◌, has, length, u64_mod, Bool-cases,
}
use microcsp.Machine.{Ptr, null, Machine, ok}
use microcsp.Hardware.{from_timespec, read_timer, timer_timeout}
use microcsp.Hardware.Timers.{max_interval}
use microcsp.Timer.{time_at, proc_at, now, insert_in_queue, is_due, enable_timeout}
use microcsp.Timer.Clock.{arm-timely}
use microcsp.Timer.Queue.{IsTimerQ, not_later, later}
use microcsp.Timer.Insert.{SameClock, is_nil, insert_in_queue-IsTimerQ}
use microcsp.Timer.Expire.{IsTimerQ-same}

-- The queue is as it was after a reading of the time.
pub now-IsTimerQ : (m : Machine) (xs : List Ptr) → IsTimerQ m xs → IsTimerQ (now m).1 xs
unfolding now read_timer
now-IsTimerQ m xs v = record { chain = v.chain; distinct = v.distinct; ascending = v.ascending }

now-same : (m n : Machine) → SameClock m n → (now n).0 ≡ (now m).0
unfolding now read_timer
now-same m n same = rw (same.readings, same.reads, same.current_time) refl

-- The insertion of a timeout that lies ahead returns, with the timer started where it is the first.
pub insert_in_queue-ahead :
    (fuel x : ℕ) (xs : List Ptr) (m : Machine)
    → IsTimerQ m xs
    → x ≢ null
    → has x xs ≡ false
    → length xs < fuel
    → (now m).0 ≤ time_at m x
    → time_at m x < (now m).0 + max_interval
    → time_at m x < u64_mod
    → let front = not_later (time_at m) (time_at m x) xs in
      let back = later (time_at m) (time_at m x) xs in
      (n : Machine) × (insert_in_queue fuel x m ≡ ok tt n)
      × IsTimerQ n (front ++ x ∷ back)
      × (is_nil front ≡ true
          → from_timespec (n.timers timer_timeout).it_value ≡ time_at m x - (now m).0)
      × ((a : Ptr) → (time_at n a ≡ time_at m a) × (proc_at n a ≡ proc_at m a))
insert_in_queue-ahead fuel x xs m v ne out h ahead near word =
    let (n, queue, runs, same) = insert_in_queue-IsTimerQ fuel x xs m v ne out h in
    let front = not_later (time_at m) (time_at m x) xs in
    let time = same.times x in
    let t = now-same m n same in
    elim (Bool-cases (is_nil front)) [
      | inl first ↦
          let (o, arms, left, timeout, timer_q) =
            arm-timely x n (rw time word) (rw (time, t) ahead) (rw (time, t) near) in
          (
            o,
            runs ∙ rw first arms,
            IsTimerQ-same (record { timeout = timeout; timer_q = timer_q }) queue,
            λ _. left ∙ rw (time, t) refl,
            λ a. (
              ap (λ f. (f a).time) timeout ∙ same.times a,
              ap (λ f. (f a).proc) timeout ∙ same.procs a,
            ),
          )
      | inr behind ↦ (
        n,
        runs ∙ rw behind refl,
        queue,
        λ first. absurd (ground arith),
        λ a. (same.times a, same.procs a),
      )
    ]

-- `enable_timeout` finds a timeout ready exactly if the time has come to it, and then leaves the
-- queue alone. Otherwise the timeout is put into the queue in its place in time order, and where it
-- is now the first, the timer is set to the time that is left; the time is read twice, and the
-- second reading must not be later than the timeout.
pub enable_timeout-IsTimerQ :
    (fuel x : ℕ) (xs : List Ptr) (m : Machine)
    → IsTimerQ m xs
    → x ≢ null
    → has x xs ≡ false
    → length xs < fuel
    → (now (now m).1).0 ≤ time_at m x ⊎ time_at m x ≤ (now m).0
    → time_at m x < (now (now m).1).0 + max_interval
    → time_at m x < u64_mod
    → let front = not_later (time_at m) (time_at m x) xs in
      let back = later (time_at m) (time_at m x) xs in
      (n : Machine) × (enable_timeout fuel x m ≡ ok (leb (time_at m x) (now m).0) n)
      × IsTimerQ n (if leb (time_at m x) (now m).0 then xs else front ++ x ∷ back)
      × ((leb (time_at m x) (now m).0 ≡ true)
          ⊎ (is_nil front ≡ false)
          ⊎ (from_timespec (n.timers timer_timeout).it_value ≡ time_at m x - (now (now m).1).0))
unfolding enable_timeout is_due now read_timer
enable_timeout-IsTimerQ fuel x xs m v ne out h ahead near word =
    let m₁ = (now m).1 in
    let front = not_later (time_at m) (time_at m x) xs in
    let v₁ = now-IsTimerQ m xs v in
    elim (Bool-cases (leb (time_at m x) (now m).0)) [
      | inl due ↦ (m₁, rw due refl, rw due v₁, inl due)
      | inr early ↦
          let ahead' : (now m₁).0 ≤ time_at m x = elim ahead [
            | inl yes_ahead ↦ yes_ahead
            | inr past ↦ absurd (ground arith)
          ] in
          let (n, runs, queue, left, _) =
            insert_in_queue-ahead fuel x xs m₁ v₁ ne out h ahead' near word in
          (
            n,
            rw (early, runs) refl,
            rw early queue,
            elim (Bool-cases (is_nil front)) [
              | inl first ↦ inr (inr (left first))
              | inr behind ↦ inr (inl behind)
            ],
          )
    ]
