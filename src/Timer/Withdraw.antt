-- ===== src/Timer/Withdraw.antt =====
-- `enable_timeout` and then `disable_timeout` of src/timer.c, as an ALT calls them for a timeout
-- guard when another guard becomes ready.
use microcsp.Base.{
  ℕ, ◌+◌, ◌≤◌, ◌<◌, ◌≡◌, refl, ap, subst, ◌∙◌, ◌≢◌, true, false, ◌&&◌, List, [], ◌∷◌, ◌++◌, arith,
  leb, ◌==◌, has, has-append, length, length-append, u64_mod,
}
use microcsp.Machine.{Ptr, null, Machine, ok}
use microcsp.Hardware.{read_timer}
use microcsp.Hardware.Timers.{max_interval}
use microcsp.Timer.{time_at, proc_at, now, is_due, enable_timeout, disable_timeout}
use microcsp.Timer.Queue.{IsTimerQ, not_later, later, not_later-later}
use microcsp.Timer.Remove.{matches, erase, remove_from_queue-erase}
use microcsp.Timer.Enable.{now-IsTimerQ, insert_in_queue-ahead}

module _ (m : Machine) (t p : ℕ) where
  -- A timeout that is the only one for its time and process is the one that is taken out.
  erase-only :
      (x : Ptr) (front back : List Ptr)
      → matches m t p x ≡ true
      → ((a : Ptr) → has a front ≡ true → matches m t p a ≡ false)
      → erase m t p (front ++ x ∷ back) ≡ front ++ back
  erase-only x [] back this others = rw this refl
  erase-only x (y ∷ front) back this others =
      let other : matches m t p y ≡ false = others y (ground arith) in
      let rest = erase-only x front back this (λ a h. others a (ground arith)) in
      rw other (ap (λ ys. y ∷ ys) rest)

-- `disable_timeout` on a queue that holds the timeout.
disable_timeout-queued :
    (fuel x : ℕ) (front back : List Ptr) (m : Machine)
    → IsTimerQ m (front ++ x ∷ back)
    → length (front ++ x ∷ back) < fuel
    → ((a : Ptr)
        → has a front ≡ true
        → (time_at m a == time_at m x && proc_at m a == proc_at m x) ≡ false)
    → (n : Machine) × (disable_timeout fuel x m ≡ ok (leb (time_at m x) (now m).0) n)
      × IsTimerQ n (front ++ back)
unfolding disable_timeout is_due now read_timer
disable_timeout-queued fuel x front back m v h others =
    let m₁ = (now m).1 in
    let (n, queue, runs) =
      remove_from_queue-erase m₁ (time_at m x) (proc_at m x) fuel (front ++ x ∷ back)
        (now-IsTimerQ m _ v) h in
    (
      n,
      rw runs refl,
      subst (IsTimerQ n)
          (erase-only m₁ (time_at m x) (proc_at m x) x front back (ground arith) others) queue,
    )

same_match :
    (t t' s s' p p' q q' : ℕ)
    → t' ≡ t
    → s' ≡ s
    → p' ≡ p
    → q' ≡ q
    → (t == s && p == q) ≡ false
    → (t' == s' && p' == q') ≡ false
same_match t t' s s' p p' q q' e f g h differ = rw (e, f, g, h) differ

-- A timeout that lies ahead is enabled and then disabled, with nothing between: `enable_timeout`
-- finds it not ready, `disable_timeout` reports whether its time has come since, and the timeout
-- queue holds the same timeouts in the same order as before. The timeout is not in the queue at
-- first, no other one there is for the same time and process, the second reading of the time is not
-- later than the timeout, and the fuel is above the queue's length by more than 1.
pub enable_timeout-disable_timeout :
    (fuel x : ℕ) (xs : List Ptr) (m : Machine)
    → IsTimerQ m xs
    → x ≢ null
    → has x xs ≡ false
    → length xs + 1 < fuel
    → (now m).0 < time_at m x
    → (now (now m).1).0 ≤ time_at m x
    → time_at m x < (now (now m).1).0 + max_interval
    → time_at m x < u64_mod
    → ((a : Ptr)
        → has a xs ≡ true
        → (time_at m a == time_at m x && proc_at m a == proc_at m x) ≡ false)
    → (n : Machine) × (o : Machine) × (enable_timeout fuel x m ≡ ok false n)
      × (disable_timeout fuel x n ≡ ok (leb (time_at m x) (now n).0) o)
      × IsTimerQ o xs
unfolding enable_timeout is_due now read_timer
enable_timeout-disable_timeout fuel x xs m v ne out room early ahead near word others =
    let m₁ = (now m).1 in
    let front = not_later (time_at m) (time_at m x) xs in
    let back = later (time_at m) (time_at m x) xs in
    let whole : front ++ back ≡ xs = not_later-later (time_at m) (time_at m x) xs in
    let (n, runs, queue, _, same) =
      insert_in_queue-ahead fuel x xs m₁ (now-IsTimerQ m xs v) ne out (omega arith) ahead near
        word in
    let size : length (front ++ x ∷ back) < fuel =
      omega
        (arith, room, length-append front (x ∷ back), length-append front back, ap length whole) in
    let alone : (a : Ptr)
        → has a front ≡ true
        → (time_at n a == time_at n x && proc_at n a == proc_at n x) ≡ false =
      λ a h.
        let member : has a xs ≡ true =
          subst (λ ys. has a ys ≡ true) whole (rw (has-append a front back, h) refl) in
        same_match (time_at m a) _ (time_at m x) _ (proc_at m a) _ (proc_at m x) _ (same a).0
          (same x).0 (same a).1 (same x).1 (others a member) in
    let (o, disables, left) = disable_timeout-queued fuel x front back n queue size alone in
    let not_ready : leb (time_at m x) (now m).0 ≡ false = ground arith in
    (
      n,
      o,
      rw (not_ready, runs) refl,
      disables ∙ ap (λ t. ok (leb t (now n).0) o) (same x).0,
      subst (IsTimerQ o) whole left,
    )
