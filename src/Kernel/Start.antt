-- ===== src/Kernel/Start.antt =====
-- `start` of src/sched.c on the kernel's shared memory.
use microcsp.Base.{
  ℕ, ◌+◌, ◌≤◌, ◌<◌, ◌%◌, ◌≡◌, refl, sym, ap, subst, ◌∙◌, ◌⊎◌, inl, inr, true, false, ◌||◌, List,
  arith, ◌==◌, ==_iff, has, Bool-cases, u32_mod, pos, ltb_ℤ,
}
use microcsp.Machine.{Ptr, Machine, Outcome, ok, exit, out_of_memory}
use microcsp.Hardware.{memcpy}
use microcsp.Memory.{nalloc, find_mem_index}
use microcsp.Memory.Index.{find_mem_index-IsSmallest}
use microcsp.Memory.Arena.{Blocks, is_live, Carved-bounds, same_class}
use microcsp.Memory.Allocate.{Given, allocate_mem-Given}
use microcsp.Ready.{levels, pri_max, append}
use microcsp.Alt.{set_process}
use microcsp.Sched.{copy_locals, init_process, start}
use microcsp.Sched.Start.{
  allocate_mem-SameReady, SameReady-IsReady, init_process-IsReady, init_process-fields,
  copy_locals-IsReady,
}
use microcsp.Kernel.{View, IsKernel, is_runnable}
use microcsp.Kernel.Frames.{IsArena-frame, live-apart_from-free}
use microcsp.Kernel.Processes.{IsOut, appended, append-IsKernel}

-- The view in which the allocator has given a block.
abbrev pub given : View → Blocks → (ℕ → List Ptr) → View
given v carved free = record v { carved = carved; free = free }

module _ {base size : ℕ} {v : View} {m n : Machine} (k : IsKernel base size v m) {carved' : Blocks}
    {free' : ℕ → List Ptr} {i a : ℕ} (class : i < nalloc)
    (g : Given m n base size v.carved carved' v.free free' i a) where
  stays_live :
      (j : ℕ) (b : Ptr) → is_live v.carved v.free j b ≡ true → is_live carved' free' j b ≡ true
  stays_live j b h =
      let (_, _, lt) = Carved-bounds base m.tail v.carved j b k.arena.blocks (ground arith) in
      ground (arith, g.live j b lt)

  pub given_live : is_live carved' free' i a ≡ true
  given_live = ground (arith, g.live i a class)

  -- The block that the allocator gives holds no process of a queue.
  pub given-IsOut : IsOut v.queues a
  given-IsOut l lt = elim (Bool-cases (has a (v.queues l))) [
    | inl h ↦
        let j = (m.process a).index in
        let old = k.held l a lt h in
        let same : i ≡ j =
          same_class base n.tail carved' i j a g.arena.blocks (ground (arith, given_live))
            (ground (arith, stays_live j a old)) in
        absurd
          (ground (arith, g.fresh, subst (λ c. is_live v.carved v.free c a ≡ true) (sym same) old))
    | inr h ↦ h
  ]

  pub given-IsKernel : IsKernel base size (given v carved' free') n
  given-IsKernel =
      let same = allocate_mem-SameReady i a m n g.given in
      record {
        arena = g.arena;
        ready = SameReady-IsReady m n v.queues same k.ready;
        held = λ l b lt h.
            ap (λ f. is_live carved' free' (f b).index b) same.process
            ∙ stays_live _ b (k.held l b lt h);
        runnable = λ l b lt h. ap (λ f. is_runnable (f b).state) same.process ∙ k.runnable l b lt h;
      }

module _ {base size : ℕ} {v : View} {m : Machine} (k : IsKernel base size v m) where
  copy_locals-IsKernel : (dest src len : ℕ) → IsKernel base size v (copy_locals dest src len m)
  unfolding copy_locals memcpy
  copy_locals-IsKernel dest src len = record {
    arena = IsArena-frame k.arena (copy_locals dest src len m) refl refl refl (λ i a lt h. refl);
    ready = copy_locals-IsReady dest src len m v.queues k.ready;
    held = k.held;
    runnable = k.runnable;
  }

  init_process-IsKernel :
      (a rtc i pri : ℕ)
      → is_live v.carved v.free i a ≡ true
      → IsOut v.queues a
      → IsKernel base size v (init_process a rtc i pri m)
  unfolding init_process set_process
  init_process-IsKernel a rtc i pri live out =
      let other : (l : ℕ) (b : Ptr) → l < levels → has b (v.queues l) ≡ true → (a == b) ≡ false =
        λ l b lt h. elim (Bool-cases (a == b)) [
          | inl e ↦
              absurd (ground (arith, ap (λ c. has c (v.queues l)) ((==_iff a b).0 e), out l lt))
          | inr e ↦ e
        ] in
      record {
        arena =
            IsArena-frame k.arena (init_process a rtc i pri m) refl refl refl
              (λ j b lt h. ground (arith, live-apart_from-free k.arena i a live j b lt h));
        ready = init_process-IsReady a rtc i pri m v.queues k.ready out;
        held = λ l b lt h. rw (other l b lt h) (k.held l b lt h);
        runnable = λ l b lt h. ground (arith, other l b lt h, k.runnable l b lt h);
      }

  -- A new process in a live block that stands in no queue.
  pub new-IsKernel :
      (a rtc i pri : ℕ)
      → is_live v.carved v.free i a ≡ true
      → IsOut v.queues a
      → pri < levels
      → IsKernel base size
          (record v { queues = appended v.queues pri a })
          (append a (init_process a rtc i pri m))
  new-IsKernel a rtc i pri live out level =
      let n = init_process a rtc i pri m in
      let (_, index, at_pri, state, _) = init_process-fields a rtc i pri m in
      subst (λ l. IsKernel base size (record v { queues = appended v.queues l a }) (append a n))
        at_pri
        (append-IsKernel (init_process-IsKernel a rtc i pri live out) a
          (ap (λ c. is_live v.carved v.free c a) index ∙ live) (ap is_runnable state)
          (rw at_pri level) out)

-- The result of a `start` that finds memory: its block was not live, and its process stands last in
-- the queue of its priority.
pub record Started (base size : ℕ) (v : View) (m : Machine) (pri : ℕ) (r : Outcome (Unit {0}))
    : Type 0 where
  pub class : ℕ
  pub proc : Ptr
  pub carved : Blocks
  pub free : ℕ → List Ptr
  pub after : Machine
  pub returns : r ≡ ok tt after
  pub fresh : is_live v.carved v.free class proc ≡ false
  pub kernel :
      IsKernel base size
        (record v { carved = carved; free = free; queues = appended v.queues pri proc })
        after

module _ {base size : ℕ} {v : View} {m : Machine} (k : IsKernel base size v m) where
  -- With the block that the allocator gives, `start` returns.
  pub given-start :
      (rtc local_struct local_size pri : ℕ) {i a : ℕ} {n : Machine} {carved : Blocks}
      {free : ℕ → List Ptr}
      → 1 ≤ pri
      → pri ≤ pri_max
      → m.proc_offset + local_size ≤ 192
      → find_mem_index (m.proc_offset + local_size) m ≡ ok i m
      → i < nalloc
      → Given m n base size v.carved carved v.free free i a
      → (o : Machine) × (start rtc local_struct local_size (pos pri) m ≡ ok tt o)
        × IsKernel base size
            (record { carved = carved; free = free; queues = appended v.queues pri a })
            o
  unfolding start
  given-start rtc local_struct local_size pri {i} {a} {n} lo hi fits index class g =
      let whole : (m.proc_offset + local_size) % u32_mod ≡ m.proc_offset + local_size =
        omega arith in
      let valid : (ltb_ℤ (pos pri) (pos 1) || ltb_ℤ (pos pri_max) (pos pri)) ≡ false =
        ground arith in
      let kn =
        copy_locals-IsKernel (given-IsKernel k class g) (a + n.proc_offset) local_struct
          local_size in
      (
        append a
            (init_process a rtc i pri (copy_locals (a + n.proc_offset) local_struct local_size n)),
        rw (valid, whole, index, g.given) refl,
        new-IsKernel kn a rtc i pri (given_live k class g) (given-IsOut k class g) (omega arith),
      )

  -- On a well-formed kernel, for a priority from 1 to 7 and a record and local variables of
  -- together at most 192 bytes, `start` ends the program for want of memory, or it puts the
  -- process, in a block that was not live, last into the queue of its priority, and the kernel
  -- stays well-formed.
  pub start-IsKernel :
      (rtc local_struct local_size pri : ℕ)
      → 1 ≤ pri
      → pri ≤ pri_max
      → m.proc_offset + local_size ≤ 192
      → Started base size v m pri (start rtc local_struct local_size (pos pri) m)
        ⊎ (start rtc local_struct local_size (pos pri) m ≡ exit out_of_memory)
  unfolding start
  start-IsKernel rtc local_struct local_size pri lo hi fits =
      let whole : (m.proc_offset + local_size) % u32_mod ≡ m.proc_offset + local_size =
        omega arith in
      let valid : (ltb_ℤ (pos pri) (pos 1) || ltb_ℤ (pos pri_max) (pos pri)) ≡ false =
        ground arith in
      let (i, index, first) = find_mem_index-IsSmallest (m.proc_offset + local_size) m fits in
      elim (allocate_mem-Given k.arena i first.in_range) [
        | inl (a, n, carved', free', g) ↦
            let (o, returns, kernel) =
              given-start rtc local_struct local_size pri lo hi fits index first.in_range g in
            inl (record {
              class = i;
              proc = a;
              carved = carved';
              free = free';
              after = o;
              returns = returns;
              fresh = g.fresh;
              kernel = kernel;
            })
        | inr (full, _, _) ↦ inr (rw (valid, whole, index, full) refl)
      ]
