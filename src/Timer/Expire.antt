-- ===== src/Timer/Expire.antt =====
-- `handle_timeout_interrupt`: the processes whose timeouts are due are readied in time order, and
-- the timer is started for the first timeout that is left.
use microcsp.Base.{
  ℕ, zero, suc, ◌+◌, ◌-◌, ◌<◌, ◌≡◌, refl, sym, ap, ◌∙◌, ◌≢◌, inl, inr, true, false, not, List, [],
  ◌∷◌, arith, leb, ◌==◌, update, has, Bool-cases, length, u64_mod, sub64,
}
use mathlib.Core.Path.{subst, subst₂}
use mathlib.Core.List.{map}
use microcsp.Machine.{Ptr, null, when, Timeout, Machine, Outcome, ok, Cmd}
use microcsp.Machine.Chain.{Chain, Chain-start}
use microcsp.Hardware.{timer_timeout, read_timer, set_timer_single}
use microcsp.Hardware.Timers.{max_interval, single, from_timespec-to_timespec, set_timer_single-ok}
use microcsp.Timer.{
  time_at, proc_at, next_timeout, now, remove_head, ready_due, handle_timeout_interrupt,
}
use microcsp.Timer.Queue.{IsTimerQ, Ascending, not_later, later, Ascending-mono}

-- The timeout queue is as it was.
pub record SameTimers (m n : Machine) : Type 0 where
  pub timeout : n.timeout ≡ m.timeout
  pub timer_q : n.timer_q ≡ m.timer_q

remove_head-timeout : (m : Machine) → (remove_head m).timeout ≡ m.timeout
unfolding remove_head
remove_head-timeout m = refl

pub IsTimerQ-same : {m n : Machine} {xs : List Ptr} → SameTimers m n → IsTimerQ m xs → IsTimerQ n xs
IsTimerQ-same {m} {n} {xs} same v = record {
  chain =
      subst₂ (λ (T : Ptr → Timeout) q. Chain (λ a. (T a).next) q xs) (sym same.timeout)
        (sym same.timer_q) v.chain;
  distinct = v.distinct;
  ascending =
      subst (λ (T : Ptr → Timeout). Ascending (λ a. (T a).time) 0 xs) (sym same.timeout)
        v.ascending;
}

remove_head-IsTimerQ :
    (x : Ptr) (xs : List Ptr) (m : Machine) → IsTimerQ m (x ∷ xs) → IsTimerQ (remove_head m) xs
unfolding remove_head
remove_head-IsTimerQ x xs m v = record {
  chain =
      Chain-start (next_timeout m) (next_timeout m x) (next_timeout m m.timer_q) xs
        (ap (next_timeout m) (sym v.chain.0)) v.chain.2;
  distinct = v.distinct.1;
  ascending = Ascending-mono (time_at m) 0 (time_at m x) xs (omega arith) v.ascending.1;
}

now-IsTimerQ : (m : Machine) (xs : List Ptr) → IsTimerQ m xs → IsTimerQ (now m).1 xs
unfolding now read_timer
now-IsTimerQ m xs v = record { chain = v.chain; distinct = v.distinct; ascending = v.ascending }

module _ (ready_process : Ptr → Cmd (Unit {0})) where
  -- From the first state to the last the first timeout is removed and a process is readied, for
  -- each process of the list in turn; each time that returns and leaves the other timeouts.
  pub data ReadyAll : List Ptr → Machine → Machine → Type 0 where
    none_due : {m : Machine} → ReadyAll [] m m
    one_due :
        {p : Ptr} {ps : List Ptr} {m m' n : Machine}
        → ready_process p (remove_head m) ≡ ok tt m'
        → SameTimers (remove_head m) m'
        → ReadyAll ps m' n
        → ReadyAll (p ∷ ps) m n

  ReadyAll-nil : {m n : Machine} → ReadyAll [] m n → n ≡ m
  ReadyAll-nil none_due = refl

  ReadyAll-cons :
      {p : Ptr} {ps : List Ptr} {m n : Machine}
      → ReadyAll (p ∷ ps) m n
      → (m' : Machine) × (ready_process p (remove_head m) ≡ ok tt m')
        × SameTimers (remove_head m) m'
        × ReadyAll ps m' n
  ReadyAll-cons (one_due e same rest) = (_, e, same, rest)

  -- The processes of the timeouts that are due.
  abbrev pub due_procs : Machine → ℕ → List Ptr → List Ptr
  due_procs m t xs = map (proc_at m) (not_later (time_at m) t xs)

  -- How a run of the loop ends.
  record Expired (m : Machine) (xs : List Ptr) (t : ℕ) (r : Outcome (Unit {0})) (n : Machine)
      : Type 0 where
    ends : r ≡ ok tt n
    rest : IsTimerQ n (later (time_at m) t xs)
    timeouts : n.timeout ≡ m.timeout

  due-step :
      (f t : ℕ) (x : Ptr) (m m' : Machine)
      → m.timer_q ≡ x
      → x ≢ null
      → leb (time_at m x) t ≡ true
      → ready_process (proc_at m x) (remove_head m) ≡ ok tt m'
      → ready_due ready_process (suc f) t m ≡ ready_due ready_process f t m'
  unfolding ready_due
  due-step f t x m m' at ne due e =
      let some_here : (m.timer_q == null) ≡ false = ground arith in
      let due' : leb (time_at m m.timer_q) t ≡ true = ap (λ q. leb (time_at m q) t) at ∙ due in
      let e' = ap (λ q. ready_process (proc_at m q) (remove_head m)) at ∙ e in
      rw (some_here, due', e')

  due-stop :
      (f t : ℕ) (m : Machine)
      → leb (time_at m m.timer_q) t ≡ false
      → ready_due ready_process (suc f) t m ≡ ok tt m
  unfolding ready_due
  due-stop f t m stop = elim (Bool-cases (m.timer_q == null)) [
    | inl e ↦ rw (stop, e)
    | inr e ↦ rw (stop, e)
  ]

  Expired-step :
      (m m' n : Machine) (x : Ptr) (xs : List Ptr) (t : ℕ) (r r' : Outcome (Unit {0}))
      → leb (time_at m x) t ≡ true
      → m'.timeout ≡ m.timeout
      → r ≡ r'
      → Expired m' xs t r' n
      → Expired m (x ∷ xs) t r n
  Expired-step m m' n x xs t r r' due same step ex = record {
    ends = step ∙ ex.ends;
    rest =
        rw due
          (subst (λ (T : Ptr → Timeout). IsTimerQ n (later (λ a. (T a).time) t xs)) same ex.rest);
    timeouts = ex.timeouts ∙ same;
  }

  ready_due-Expired :
      (fuel t : ℕ) (xs : List Ptr) (m n : Machine)
      → IsTimerQ m xs
      → length xs < fuel
      → ReadyAll (due_procs m t xs) m n
      → Expired m xs t (ready_due ready_process fuel t m) n
  unfolding ready_due
  ready_due-Expired zero t xs m n v h readied = absurd (omega arith)
  ready_due-Expired (suc f) t [] m n v h readied =
      let empty : (m.timer_q == null) ≡ true = ground (arith, v.chain) in
      subst (Expired m [] t (ready_due ready_process (suc f) t m)) (sym (ReadyAll-nil readied))
        (record { ends = rw empty; rest = v; timeouts = refl })
  ready_due-Expired (suc f) t (x ∷ xs) m n v h readied =
      let at : m.timer_q ≡ x = v.chain.0 in
      elim (Bool-cases (leb (time_at m x) t)) [
        | inl due ↦
            let (m', e, same, later_on) = ReadyAll-cons (rw due at readied) in
            let timeouts : m'.timeout ≡ m.timeout = same.timeout ∙ remove_head-timeout m in
            let v' = IsTimerQ-same same (remove_head-IsTimerQ x xs m v) in
            let procs : ReadyAll (due_procs m' t xs) m' n =
              subst
                (λ (T : Ptr → Timeout).
                  ReadyAll (map (λ a. (T a).proc) (not_later (λ a. (T a).time) t xs)) m' n)
                (sym timeouts) later_on in
            Expired-step m m' n x xs t _ _ due timeouts (due-step f t x m m' at v.chain.1 due e)
              (ready_due-Expired f t xs m' n v' (omega arith) procs)
        | inr stop ↦
            subst (Expired m (x ∷ xs) t (ready_due ready_process (suc f) t m))
              (sym (ReadyAll-nil (rw stop at readied)))
              (record {
                ends = due-stop f t m (ap (λ q. leb (time_at m q) t) at ∙ stop);
                rest = rw stop v;
                timeouts = refl;
              })
      ]

later-head :
    (time : Ptr → ℕ) (t : ℕ) (xs : List Ptr) (y : Ptr) (ys : List Ptr)
    → later time t xs ≡ y ∷ ys
    → (t < time y) × (has y xs ≡ true)
later-head time t [] y ys e = absurd (ground arith)
later-head time t (x ∷ xs) y ys e = elim (Bool-cases (leb (time x) t)) [
  | inl le ↦ let (gt, i) = later-head time t xs y ys (ground arith) in (gt, ground arith)
  | inr gt ↦ let same : x ≡ y = ground arith in (ground arith, ground arith)
]

-- The state with the timer started for the first timeout of a list, where there is one.
abbrev pub rearmed : Machine → ℕ → List Ptr → Machine
rearmed n t [] = n
rearmed n t (y ∷ ys) = record n {
  timers = update n.timers timer_timeout (single (time_at n y - t));
}

rearm-lem :
    (n : Machine) (t : ℕ) (ys : List Ptr)
    → Chain (next_timeout n) n.timer_q ys
    → ((y : Ptr) (zs : List Ptr)
        → ys ≡ y ∷ zs
        → (t < time_at n y) × (time_at n y < t + max_interval) × (time_at n y < u64_mod))
    → when
        (not (n.timer_q == null))
        (set_timer_single timer_timeout (sub64 (time_at n n.timer_q) t))
        n
      ≡ ok tt (rearmed n t ys)
rearm-lem n t [] c soon = let e : (n.timer_q == null) ≡ true = ground arith in rw e
rearm-lem n t (y ∷ ys) c soon =
    let e : (n.timer_q == null) ≡ false = ground (arith, c.0, c.1) in
    let (gt, lt, word) = soon y ys refl in
    let d : sub64 (time_at n n.timer_q) t ≡ time_at n y - t =
      ap (λ q. sub64 (time_at n q) t) c.0 ∙ omega arith in
    rw (e, d)
      (set_timer_single-ok timer_timeout (time_at n y - t) n
        (from_timespec-to_timespec (time_at n y - t) (omega arith)).2)

-- The handler of the timeout interrupt readies, in time order, the processes of exactly the
-- timeouts that are due by the time `Now` gives, removes these from the queue, and starts the timer
-- for the time that is left until the first of the others, if there is one. It is assumed of this
-- one run that readying each of these processes in turn returns, a nested scheduler included, and
-- leaves the timeouts alone; and that the timeouts lie within 2^31 seconds.
pub handle_timeout_interrupt-ReadyAll :
    (ready_process : Ptr → Cmd (Unit {0})) (fuel : ℕ) (xs : List Ptr) (m n : Machine)
    → IsTimerQ m xs
    → length xs < fuel
    → ((y : Ptr)
        → has y xs ≡ true
        → (time_at m y < (now m).0 + max_interval) × (time_at m y < u64_mod))
    → let t = (now m).0 in
      let rest = later (time_at m) t xs in
      ReadyAll ready_process (map (proc_at m) (not_later (time_at m) t xs)) (now m).1 n
      → (handle_timeout_interrupt ready_process fuel m ≡ ok tt (rearmed n t rest))
        × IsTimerQ n rest
        × (n.timeout ≡ m.timeout)
unfolding handle_timeout_interrupt now read_timer
handle_timeout_interrupt-ReadyAll ready_process fuel xs m n v h soon readied =
    let t = (now m).0 in
    let m₁ = (now m).1 in
    let rest = later (time_at m) t xs in
    let v₁ : IsTimerQ m₁ xs = now-IsTimerQ m xs v in
    let ex = ready_due-Expired ready_process fuel t xs m₁ n v₁ h readied in
    let times : (y : Ptr) → time_at n y ≡ time_at m y =
      λ y. ap (λ (T : Ptr → Timeout). (T y).time) ex.timeouts in
    (
      rw (ex.ends) (
          rearm-lem n t rest ex.rest.chain λ y zs e.
            let (gt, i) = later-head (time_at m) t xs y zs e in
            let (lt, word) = soon y i in rw (times y) (gt, lt, word)),
      ex.rest,
      ex.timeouts,
    )
