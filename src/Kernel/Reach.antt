-- ===== src/Kernel/Reach.antt =====
-- The kernel as a state machine: the operations of src/sched.c and src/memory.c that change the
-- shared memory, in any order, with what each of them relies on.
use microcsp.Base.{
  ℤ, ℕ, ◌+◌, ◌≤◌, ◌<◌, ◌≡◌, refl, sym, ◌∙◌, ◌≢◌, inl, inr, true, false, some, List, [], ◌∷◌, arith,
  leb, ltb, update, u32_mod, pos, List-cases, Bool-cases,
}
use microcsp.Machine.{
  pure, Ptr, null, ProcState, proc_done, proc_enabling, Machine, Cmd, ok, ok_unique, exit_ne_ok,
}
use microcsp.Memory.{nalloc, allocate_mem, find_mem_index, release_mem}
use microcsp.Memory.Arena.{Blocks, block_length}
use microcsp.Memory.Allocate.{Given, listed-Given, cut-Given}
use microcsp.Memory.Index.{find_mem_index-IsSmallest}
use microcsp.Memory.Reuse.{allocate_mem-exit}
use microcsp.Ready.{levels, pri_max, append}
use microcsp.Sched.{
  state_of, pri_of, set_state, start, ready_with, choose, settle, initialize, is_state,
}
use microcsp.Sched.Ready.{requeued, ready_with-preempts, ready_with-requeued}
use microcsp.Sched.Select.{choose-taken}
use microcsp.Kernel.{View, IsKernel, is_held}
use microcsp.Kernel.Processes.{
  IsOut, appended, set_state-IsKernel, requeued-IsKernel, take-IsKernel, release_mem-IsKernel,
}
use microcsp.Kernel.Same.{SameKernel, SameKernel-IsKernel}
use microcsp.Kernel.Start.{given-start}
use microcsp.Kernel.Initial.{only_idle, initialize-IsKernel}

-- The view when `allocate_mem` has given a block: the first of its class's list or, where the list
-- is empty, one that has been cut.
abbrev pub carved_after : List Ptr → ℕ → Ptr → Blocks → Blocks
carved_after [] i a bs = (i, a) ∷ bs
carved_after (x ∷ xs) i a bs = bs

abbrev pub free_after : List Ptr → ℕ → (ℕ → List Ptr) → ℕ → List Ptr
free_after [] i free = free
free_after (x ∷ xs) i free = update free i xs

abbrev pub started : View → (i : ℕ) → (a : Ptr) → (pri : ℕ) → View
started v i a pri = record {
  carved = carved_after (v.free i) i a v.carved;
  free = free_after (v.free i) i v.free;
  queues = appended v.queues pri a;
}

abbrev pub enqueued : View → ℕ → Ptr → View
enqueued v l p = record v { queues = appended v.queues l p }

abbrev pub but_first : List Ptr → List Ptr
but_first [] = []
but_first (x ∷ xs) = xs

abbrev pub dequeued : View → ℕ → View
dequeued v l = record v { queues = update v.queues l (but_first (v.queues l)) }

abbrev pub released : View → ℕ → Ptr → View
released v i p = record v { free = update v.free i (p ∷ v.free i) }

pub data Step (v : View) (m : Machine) : View → Machine → Type 0 where
  -- `start`, with the size class and the block that it gets
  starts :
      (rtc local_struct local_size pri : ℕ) {i a : ℕ} {k n : Machine}
      → 1 ≤ pri
      → pri ≤ pri_max
      → m.proc_offset + local_size ≤ 192
      → find_mem_index (m.proc_offset + local_size) m ≡ ok i m
      → allocate_mem i m ≡ ok a k
      → start rtc local_struct local_size (pos pri) m ≡ ok tt n
      → Step v m (started v i a pri) n
  -- `readyProcessIfNecessary` of a process that stands in no queue, up to the nested scheduler that
  -- a higher priority calls, whose steps follow
  readies :
      (p : Ptr) {n : Machine}
      → is_state (state_of m p) proc_enabling ≡ false
      → is_held v m p ≡ true
      → pri_of m p < levels
      → IsOut v.queues p
      → ready_with (λ base. pure tt) p m ≡ ok tt n
      → Step v m (enqueued v (pri_of m p) p) n
  -- the scheduler's choice of the next process, at any base priority
  chooses :
      (base : ℤ) (p : Ptr) {n : Machine}
      → choose base null m ≡ ok (some p) n
      → Step v m (dequeued v (pri_of m p)) n
  -- a new state of a process that stands in no queue
  changes : (p : Ptr) (s : ProcState) → IsOut v.queues p → Step v m v (set_state p s m)
  -- the end of a process
  ends :
      (rtc : ℕ → Ptr → Cmd (Unit {0})) (fuel : ℕ) (p : Ptr) {n : Machine}
      → state_of m p ≡ proc_done
      → is_held v m p ≡ true
      → IsOut v.queues p
      → settle rtc fuel p m ≡ ok null n
      → Step v m (released v (m.process p).index p) n
  -- anything that leaves the shared memory
  others : {n : Machine} → SameKernel m n → Step v m v n

-- The states that the steps lead to from `initialize` on. The code does not test that a process
-- that it readies, changes or ends stands in no queue; what it does where one does is no step.
pub data Reach (block memlen : ℕ) : View → Machine → Type 0 where
  initialized :
      (m : Machine) {n : Machine}
      → block ≢ null
      → 24 ≤ memlen
      → memlen < u32_mod
      → m.priority_mask ≡ 0
      → m.timer_q ≡ null
      → initialize block memlen m ≡ ok tt n
      → Reach block memlen (only_idle block) n
  next :
      {v w : View} {m n : Machine} → Reach block memlen v m → Step v m w n → Reach block memlen w n

module _ {base size : ℕ} {v : View} {m : Machine} (k : IsKernel base size v m) where
  -- What `allocate_mem` gives, in the view.
  allocated :
      (i a : ℕ) (n : Machine)
      → i < nalloc
      → allocate_mem i m ≡ ok a n
      → Given m n base size v.carved
          (carved_after (v.free i) i a v.carved)
          v.free
          (free_after (v.free i) i v.free)
          i
          a
  allocated i a n class e =
      let P : Ptr → Machine → Type 0 = λ b o.
        Given m o base size v.carved (carved_after (v.free i) i b v.carved) v.free
          (free_after (v.free i) i v.free) i b in
      elim (List-cases (v.free i)) [
        | inr (x, xs, list) ↦
            let g = listed-Given k.arena i class x xs list in ok_unique P g.given e (rw list g)
        | inl list ↦ elim (Bool-cases (leb (block_length i) m.taillen)) [
          | inl room ↦
              let g = cut-Given k.arena i class list (ground arith) in
              ok_unique P g.given e (rw list g)
          | inr full ↦ absurd (
              exit_ne_ok (
                sym (allocate_mem-exit i m (rw list at (k.arena.lists i class)) (ground arith))
                ∙ e))
        ]
      ]

-- Without the nested scheduler's steps, readying ends in the state in which the process is queued.
pub ready_with-alone :
    (p : Ptr) (m : Machine)
    → is_state (state_of m p) proc_enabling ≡ false
    → ready_with (λ base. pure tt) p m ≡ ok tt (requeued p m)
unfolding append set_state
ready_with-alone p m other = elim (Bool-cases (ltb (pri_of m m.current) (pri_of m p))) [
  | inl higher ↦ ready_with-preempts (λ base. pure tt) p m other (ground arith)
  | inr low ↦ ready_with-requeued (λ base. pure tt) p m other (ground arith)
]

settle-done :
    (rtc : ℕ → Ptr → Cmd (Unit {0})) (fuel : ℕ) (p : Ptr) (m : Machine)
    → state_of m p ≡ proc_done
    → settle rtc fuel p m ≡ ok null (release_mem (m.process p).index p m)
unfolding settle
settle-done rtc fuel p m e = rw e refl

module _ {base size : ℕ} {v : View} {m : Machine} (k : IsKernel base size v m) where
  -- The scheduler's choice takes the process off its queue.
  choose-IsKernel :
      (b : ℤ) (p : Ptr) (n : Machine)
      → choose b null m ≡ ok (some p) n
      → IsKernel base size (dequeued v (pri_of m p)) n
  choose-IsKernel b p n e =
      choose-taken m v.queues k.ready (λ q o. IsKernel base size (dequeued v (pri_of m q)) o) b p n
        e
        (λ l q rest lt list.
          let pri : pri_of m q ≡ l = k.ready.pri l q lt (rw list (ground arith)) in
          let kernel = take-IsKernel k l q rest q lt list in rw (pri, list) kernel)

pub Step-IsKernel :
    {base size : ℕ} {v : View} {m : Machine} {w : View} {n : Machine}
    → IsKernel base size v m
    → Step v m w n
    → IsKernel base size w n
Step-IsKernel {base} {size} {v} {m} k
      (starts rtc local_struct local_size pri {i} {a} {k = o} lo hi fits index block e) =
    let (j, found, first) = find_mem_index-IsSmallest (m.proc_offset + local_size) m fits in
    let class : i < nalloc = ok_unique (λ c _. c < nalloc) found index first.in_range in
    let (_, returns, kernel) =
      given-start k rtc local_struct local_size pri lo hi fits index class
        (allocated k i a o class block) in
    ok_unique (λ _ o. IsKernel base size (started v i a pri) o) returns e kernel
Step-IsKernel {base} {size} {v} {m} k (readies p other held level out e) =
    ok_unique (λ _ o. IsKernel base size (enqueued v (pri_of m p) p) o) (ready_with-alone p m other)
      e (requeued-IsKernel k p held level out)
Step-IsKernel k (chooses b p {n} e) = choose-IsKernel k b p n e
Step-IsKernel k (changes p s out) = set_state-IsKernel k p s out
Step-IsKernel {base} {size} {v} {m} k (ends rtc fuel p over held out e) =
    ok_unique (λ _ o. IsKernel base size (released v (m.process p).index p) o)
      (settle-done rtc fuel p m over) e (release_mem-IsKernel k p held out)
Step-IsKernel {m = m} k (others {n} same) = SameKernel-IsKernel m n same k

-- In every state that is reached from `initialize` on by starting and choosing processes, at any
-- base priority, and by readying, changing the state of, and ending processes that stand in no
-- queue, in any order, the queues and the arena are well-formed and each queued process is runnable
-- and in a live block.
pub Reach-IsKernel :
    {block memlen : ℕ} {v : View} {m : Machine} → Reach block memlen v m → IsKernel block memlen v m
Reach-IsKernel {block} {memlen} (initialized m ne room fits mask clear inits) =
    let (n, returns, kernel, _, _) = initialize-IsKernel block memlen m ne room fits mask clear in
    ok_unique (λ _ o. IsKernel block memlen (only_idle block) o) returns inits kernel
Reach-IsKernel (next r s) = Step-IsKernel (Reach-IsKernel r) s
