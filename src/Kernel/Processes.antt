-- ===== src/Kernel/Processes.antt =====
-- The operations of src/sched.c on processes keep the kernel's shared memory well-formed.
use microcsp.Base.{
  ℕ, ◌<◌, ◌≡◌, refl, ap, subst, ◌∙◌, ◌≢◌, true, false, List, [], ◌∷◌, ◌++◌, arith, ◌==◌, ==_iff,
  update, update_case, has, has-append, Bool-cases, inl, inr,
}
use microcsp.Machine.{Ptr, null, ProcState, proc_ready, proc_waiting, Machine}
use microcsp.Hardware.{enable_interrupts, disable_interrupts}
use microcsp.Memory.{release_mem}
use microcsp.Memory.Arena.{Carved-bounds, is_live}
use microcsp.Memory.Release.{release_mem-IsArena}
use microcsp.Ready.{levels, append, set_queue, take}
use microcsp.Ready.Queues.{Queues, append-IsReady, take-cons}
use microcsp.Alt.{set_process}
use microcsp.Sched.{state_of, pri_of, set_state}
use microcsp.Sched.Ready.{requeued, set_state-IsReady}
use microcsp.Kernel.{View, IsKernel, is_held, is_runnable}
use microcsp.Kernel.Frames.{IsArena-frame, append-IsArena, release_mem-IsReady}

-- No queue holds a process.
abbrev pub IsOut : Queues → Ptr → Type 0
IsOut qs p = (l : ℕ) → l < levels → has p (qs l) ≡ false

-- The queues after a process has been appended at a level.
abbrev pub appended : Queues → ℕ → Ptr → Queues
appended qs l p = update qs l (qs l ++ p ∷ [])

-- A property of every process in the queues, when one more is appended.
appended-case {ℓ} :
    (P : Ptr → Type ℓ) (qs : Queues) (l : ℕ) (p : Ptr)
    → l < levels
    → P p
    → ((j : ℕ) (a : Ptr) → j < levels → has a (qs j) ≡ true → P a)
    → (j : ℕ) (a : Ptr) → j < levels
    → has a (appended qs l p j) ≡ true
    → P a
appended-case P qs l p level new old j a lt =
    update_case (λ _ ys. has a ys ≡ true → P a) qs l (qs l ++ p ∷ []) j
      (λ h. elim (Bool-cases (p == a)) [
        | inl e ↦ subst P ((==_iff p a).0 e) new
        | inr e ↦ old l a level (ground (arith, has-append a (qs l) (p ∷ [])))
      ])
      (old j a lt)

set_state-other :
    (p a : Ptr) (s : ProcState) (m : Machine)
    → (p == a) ≡ false
    → state_of (set_state p s m) a ≡ state_of m a
unfolding set_state set_process
set_state-other p a s m e = ground arith

-- `take` changes a queue's descriptor and the mask.
record SameBlocks (m n : Machine) : Type 0 where
  procmemlist : n.procmemlist ≡ m.procmemlist
  tail : n.tail ≡ m.tail
  taillen : n.taillen ≡ m.taillen
  next : n.next ≡ m.next
  process : n.process ≡ m.process

take-SameBlocks : (l : ℕ) (m : Machine) → SameBlocks m (take l m).1
unfolding take set_queue
take-SameBlocks l m = elim (Bool-cases ((m.ready_q l).head == null)) [
  | inl e ↦ record { procmemlist = rw e; tail = rw e; taillen = rw e; next = rw e; process = rw e }
  | inr e ↦ record { procmemlist = rw e; tail = rw e; taillen = rw e; next = rw e; process = rw e }
]

module _ {base size : ℕ} {v : View} {m : Machine} (k : IsKernel base size v m) where
  pub is_held-ne_null : (p : Ptr) → is_held v m p ≡ true → p ≢ null
  is_held-ne_null p h =
      let (lo, _, _) =
        Carved-bounds base m.tail v.carved (m.process p).index p k.arena.blocks (ground arith) in
      omega (arith, lo, k.arena.ne_null)

  -- A process that stands in no queue may change its state.
  pub set_state-IsKernel :
      (p : Ptr) (s : ProcState) → IsOut v.queues p → IsKernel base size v (set_state p s m)
  unfolding set_state set_process
  set_state-IsKernel p s out = record {
    arena = IsArena-frame k.arena (set_state p s m) refl refl refl (λ i a lt h. refl);
    ready = set_state-IsReady p s m v.queues k.ready;
    held = λ l a lt h. ground (arith, k.held l a lt h);
    runnable = λ l a lt h. elim (Bool-cases (p == a)) [
      | inl e ↦ absurd (ground (arith, ap (λ b. has b (v.queues l)) ((==_iff p a).0 e), out l lt))
      | inr e ↦ ap is_runnable (set_state-other p a s m e) ∙ k.runnable l a lt h
    ];
  }

  pub append-IsKernel :
      (p : Ptr)
      → is_held v m p ≡ true
      → is_runnable (state_of m p) ≡ true
      → pri_of m p < levels
      → IsOut v.queues p
      → IsKernel base size (record v { queues = appended v.queues (pri_of m p) p }) (append p m)
  unfolding append set_queue
  append-IsKernel p held runnable level out =
      let l = pri_of m p in
      record {
        arena = append-IsArena k.arena k.ready k.held p (m.process p).index held level;
        ready = append-IsReady k.ready p (is_held-ne_null p held) level out;
        held = appended-case (λ a. is_held v m a ≡ true) v.queues l p level held k.held;
        runnable =
            appended-case (λ a. is_runnable (state_of m a) ≡ true) v.queues l p level runnable
              k.runnable;
      }

  -- The first process of a queue is taken out.
  pub take-IsKernel :
      (l : ℕ) (p : Ptr) (rest : List Ptr) (c : Ptr)
      → l < levels
      → v.queues l ≡ p ∷ rest
      → IsKernel base size
          (record v { queues = update v.queues l rest })
          (record ((take l m).1) { current = c })
  take-IsKernel l p rest c lt e =
      let same = take-SameBlocks l m in
      let left = (take-cons k.ready l lt p rest e).1 in
      let queued : (j : ℕ) (a : Ptr)
          → has a (update v.queues l rest j) ≡ true
          → has a (v.queues j) ≡ true =
        λ j a.
          update_case (λ i ys. has a ys ≡ true → has a (v.queues i) ≡ true) v.queues l rest j
            (λ h. rw e (ground arith)) (λ h. h) in
      record {
        arena =
            IsArena-frame k.arena _ same.procmemlist same.tail same.taillen
              (λ i a jt h. ap (λ f. f a) same.next);
        ready = record {
          queues = left.queues;
          pri = left.pri;
          mask_range = left.mask_range;
          bits = left.bits;
        };
        held = λ j a jt h.
            ap (λ f. is_live v.carved v.free (f a).index a) same.process
            ∙ k.held j a jt (queued j a h);
        runnable = λ j a jt h.
            ap (λ f. is_runnable (f a).state) same.process ∙ k.runnable j a jt (queued j a h);
      }

  -- The block of a process that stands in no queue is released.
  pub release_mem-IsKernel :
      (p : Ptr)
      → is_held v m p ≡ true
      → IsOut v.queues p
      → let i = (m.process p).index in
        IsKernel base size (record v { free = update v.free i (p ∷ v.free i) }) (release_mem i p m)
  unfolding release_mem enable_interrupts disable_interrupts
  release_mem-IsKernel p held out =
      let i = (m.process p).index in
      let (arena, live) = release_mem-IsArena k.arena i p held in
      record {
        arena = arena;
        ready = release_mem-IsReady k.arena k.ready k.held i p out;
        held = λ l a lt h. live (m.process a).index a ∙ (elim (Bool-cases (p == a)) [
          | inl e ↦
              absurd (ground (arith, ap (λ b. has b (v.queues l)) ((==_iff p a).0 e), out l lt))
          | inr e ↦ ground (arith, k.held l a lt h)
        ]);
        runnable = k.runnable;
      }

set_states-fields :
    (p : Ptr) (m : Machine)
    → let n = set_state p proc_ready (set_state p proc_waiting m) in
      ((n.process p).index ≡ (m.process p).index)
      × (pri_of n p ≡ pri_of m p)
      × (is_runnable (state_of n p) ≡ true)
unfolding set_state set_process
set_states-fields p m = (ground arith, ground arith, ground arith)

module _ {base size : ℕ} {v : View} {m : Machine} (k : IsKernel base size v m) where
  -- A process that stands in no queue is made ready.
  pub requeued-IsKernel :
      (p : Ptr)
      → is_held v m p ≡ true
      → pri_of m p < levels
      → IsOut v.queues p
      → IsKernel base size (record v { queues = appended v.queues (pri_of m p) p }) (requeued p m)
  requeued-IsKernel p held level out =
      let n = set_state p proc_ready (set_state p proc_waiting m) in
      let (index, pri, runnable) = set_states-fields p m in
      let kn = set_state-IsKernel (set_state-IsKernel k p proc_waiting out) p proc_ready out in
      subst (λ l. IsKernel base size (record v { queues = appended v.queues l p }) (append p n)) pri
        (append-IsKernel kn p (ap (λ i. is_live v.carved v.free i p) index ∙ held) runnable
          (rw pri level) out)
