-- ===== src/Sched/Ready.antt =====
-- `readyProcessIfNecessary` by the state of the process.
use microcsp.Base.{
  ℕ, ◌≤◌, ◌<◌, ◌≡◌, ap, subst, ◌∙◌, ◌≢◌, true, false, List, [], ◌∷◌, ◌++◌, arith, ltb, update, has,
  ℤ, pos,
}
use microcsp.Machine.{
  Ptr, null, ProcState, proc_enabling, proc_waiting, proc_ready, Machine, Cmd, ok, and_then,
}
use microcsp.Ready.{levels, append}
use microcsp.Ready.Again.{append-cut}
use microcsp.Ready.Queues.{IsReady, IsQueue, Queues, append-IsReady}
use microcsp.Sched.{state_of, pri_of, set_state, is_state, ready_with}

-- The state in which a process that is not enabling has been readied.
abbrev pub requeued : Ptr → Machine → Machine
requeued p m = append p (set_state p proc_ready (set_state p proc_waiting m))

-- Readying changes no priority and not the running process.
pub requeued-pri :
    (p a : Ptr) (m : Machine)
    → (pri_of (requeued p m) a ≡ pri_of m a) × ((requeued p m).current ≡ m.current)
unfolding append set_state
requeued-pri p a m = ground arith

current_pri :
    (p : Ptr) (m : Machine) → pri_of (requeued p m) (requeued p m).current ≡ pri_of m m.current
current_pri p m =
    ap (λ a. pri_of (requeued p m) a) (requeued-pri p p m).1 ∙ (requeued-pri p m.current m).0

module _ (schedule : ℤ → Cmd (Unit {0})) where
  -- A process that is still enabling its ALT becomes ready and is put in no queue.
  pub ready_with-enabling :
      (p : Ptr) (m : Machine)
      → state_of m p ≡ proc_enabling
      → ready_with schedule p m ≡ ok tt (set_state p proc_ready m)
  unfolding ready_with
  ready_with-enabling p m e = rw e

  -- In any other state, ready or running included, it becomes ready and is appended.
  pub ready_with-requeued :
      (p : Ptr) (m : Machine)
      → is_state (state_of m p) proc_enabling ≡ false
      → pri_of m p ≤ pri_of m m.current
      → ready_with schedule p m ≡ ok tt (requeued p m)
  unfolding ready_with
  ready_with-requeued p m other low =
      let n = requeued p m in
      let no_preemption : ltb (pri_of n n.current) (pri_of n p) ≡ false =
        ground (arith, current_pri p m, (requeued-pri p p m).0) in
      rw (other, no_preemption)

  -- Where a process that is not enabling has a higher priority than the running one, it is
  -- appended, a scheduler is called for what lies above the running process's priority, and that
  -- process goes on when the scheduler returns.
  pub ready_with-preempts :
      (p : Ptr) (m : Machine)
      → is_state (state_of m p) proc_enabling ≡ false
      → pri_of m m.current < pri_of m p
      → ready_with schedule p m
        ≡ and_then
            (schedule (pos (pri_of m m.current)) (requeued p m))
            (λ _ n. ok tt (record n { current = m.current }))
  unfolding ready_with
  ready_with-preempts p m other high =
      let n = requeued p m in
      let (_, current) = requeued-pri p p m in
      let pri : pri_of n n.current ≡ pri_of m m.current = current_pri p m in
      let higher : ltb (pri_of n n.current) (pri_of n p) ≡ true =
        ground (arith, pri, (requeued-pri p p m).0) in
      rw (other, higher)
        (ap (λ b. and_then (schedule (pos b) n) (λ _ k. ok tt (record k { current = n.current })))
            pri
          ∙ ap
              (λ c.
                and_then (schedule (pos (pri_of m m.current)) n)
                  (λ _ k. ok tt (record k { current = c })))
              current)

-- A process's state is nothing that the queues depend on.
pub set_state-IsReady :
    (p : Ptr) (s : ProcState) (m : Machine) (qs : Queues)
    → IsReady m qs
    → IsReady (set_state p s m) qs
unfolding set_state
set_state-IsReady p s m qs v = record {
  queues = v.queues;
  pri = λ l a lt h. ground (arith, v.pri l a lt h);
  mask_range = v.mask_range;
  bits = v.bits;
}

set_states-pri :
    (p : Ptr) (m : Machine)
    → pri_of (set_state p proc_ready (set_state p proc_waiting m)) p ≡ pri_of m p
unfolding set_state
set_states-pri p m = ground arith

requeued-state : (p : Ptr) (m : Machine) → state_of (requeued p m) p ≡ proc_ready
unfolding append set_state
requeued-state p m = ground arith

is_state-waiting : (s : ProcState) → s ≡ proc_waiting → is_state s proc_enabling ≡ false
is_state-waiting s e = rw e

is_state-ready : (s : ProcState) → s ≡ proc_ready → is_state s proc_enabling ≡ false
is_state-ready s e = rw e

module _ (schedule : ℤ → Cmd (Unit {0})) (p : Ptr) (m : Machine) (qs : Queues)
    (v : IsReady m qs) where
  -- On well-formed ready queues a waiting process that is in no queue, of no higher priority than
  -- the running one, becomes ready and is put behind all others of its priority; no scheduler is
  -- called, and the queues and the mask stay well-formed.
  pub ready_with-waiting :
      state_of m p ≡ proc_waiting
      → pri_of m p ≤ pri_of m m.current
      → p ≢ null
      → pri_of m p < levels
      → ((l : ℕ) → l < levels → has p (qs l) ≡ false)
      → (n : Machine) × (ready_with schedule p m ≡ ok tt n)
        × (state_of n p ≡ proc_ready)
        × IsReady n (update qs (pri_of m p) (qs (pri_of m p) ++ p ∷ []))
  ready_with-waiting waiting low ne level out =
      let n = set_state p proc_ready (set_state p proc_waiting m) in
      let w = set_state-IsReady p proc_ready _ qs (set_state-IsReady p proc_waiting m qs v) in
      let pri : pri_of n p ≡ pri_of m p = set_states-pri p m in
      (
        requeued p m,
        ready_with-requeued schedule p m (is_state-waiting _ waiting) low,
        requeued-state p m,
        subst (λ l. IsReady (append p n) (update qs l (qs l ++ p ∷ []))) pri
            (append-IsReady w p ne (rw pri level) out),
      )

  -- On well-formed ready queues a process of no higher priority than the running one that stands in
  -- its ready queue already, so that its state is ready, is appended again, since the test of its
  -- state is an assignment: all processes that stood behind it are cut off the queue.
  pub ready_with-cut :
      (front back : List Ptr)
      → state_of m p ≡ proc_ready
      → pri_of m p ≤ pri_of m m.current
      → pri_of m p < levels
      → qs (pri_of m p) ≡ front ++ p ∷ back
      → (n : Machine) × (ready_with schedule p m ≡ ok tt n)
        × IsQueue n.next (n.ready_q (pri_of m p)) (front ++ p ∷ [])
  ready_with-cut front back ready low level e =
      let n = set_state p proc_ready (set_state p proc_waiting m) in
      let w = set_state-IsReady p proc_ready _ qs (set_state-IsReady p proc_waiting m qs v) in
      let pri : pri_of n p ≡ pri_of m p = set_states-pri p m in
      (
        requeued p m,
        ready_with-requeued schedule p m (is_state-ready _ ready) low,
        subst (λ l. IsQueue (append p n).next ((append p n).ready_q l) (front ++ p ∷ [])) pri
            (append-cut p n qs w front back (rw pri level) (rw pri e)),
      )
