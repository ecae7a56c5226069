-- ===== src/Kernel/Initial.antt =====
-- `initialize` of src/sched.c: the kernel's shared memory with the idle process in it.
use microcsp.Base.{
  ℕ, zero, suc, ◌+◌, ◌-◌, ◌≤◌, ◌<◌, ◌%◌, ◌≡◌, refl, ap, subst, ◌∙◌, ◌≢◌, false, not, ◌&&◌, [], ◌∷◌,
  arith, ltb, leb, if◌then◌else◌, u32_mod, all_below, all_below_sound, u32_mod,
}
use microcsp.Machine.{Ptr, null, Machine, ReadyQ, ok}
use microcsp.Hardware.{
  hardware_init, define_signal_handlers, disable_interrupts, enable_interrupts,
  define_interrupt_handler, init_timer, set_timer_repeating, to_timespec,
}
use microcsp.Memory.{find_mem_index, find_from}
use microcsp.Memory.Arena.{IsArena}
use microcsp.Memory.Allocate.{cut-Given}
use microcsp.Memory.Release.{whole_tail, whole_tail-IsArena, memory_init-ok}
use microcsp.Ready.{levels, append, set_queue}
use microcsp.Ready.Bits.{bit}
use microcsp.Timer.{timer_init}
use microcsp.Timer.Queue.{IsTimerQ}
use microcsp.Alt.{set_process}
use microcsp.Sched.{
  clear_queues, define_user_handlers, start_idle, init_process, idle, sched_init, sizeof_process,
  initialize,
}
use microcsp.Kernel.{View, IsKernel}
use microcsp.Kernel.Same.{SameKernel, SameKernel-IsKernel}
use microcsp.Kernel.Processes.{appended}
use microcsp.Kernel.Start.{given-IsKernel, given_live, given-IsOut, new-IsKernel}

abbrev empty_queue : ReadyQ
empty_queue = record { head = null; tail = null }

cleared :
    (left i l : ℕ) (m : Machine)
    → (clear_queues left i m).ready_q l
      ≡ (if leb i l && ltb l (i + left) then empty_queue else m.ready_q l)
unfolding clear_queues
cleared zero i l m = ground arith
cleared (suc left) i l m = cleared left (i + 1) l _ ∙ ground arith

-- The view of the kernel when nothing has been allocated.
abbrev pub no_processes : View
no_processes = record { carved = []; free = λ _. []; queues = λ _. [] }

no_bits : (l : ℕ) → l < levels → bit l 0 ≡ false
unfolding all_below
no_bits l lt = ground (arith, all_below_sound levels (λ j. not (bit j 0)) l refl lt)

-- Queues that `clear_queues` has emptied, over an arena of which nothing has been cut.
cleared-IsKernel :
    {base size : ℕ} (m : Machine)
    → IsArena m base size [] (λ _. [])
    → m.priority_mask ≡ 0
    → IsKernel base size no_processes (clear_queues levels 0 m)
unfolding clear_queues
cleared-IsKernel m v mask = record {
  arena = record {
    ne_null = v.ne_null;
    blocks = v.blocks;
    total = v.total;
    lists = v.lists;
    distinct = v.distinct;
    owned = v.owned;
  };
  ready = record {
    queues = λ l lt.
        let e : (clear_queues levels 0 m).ready_q l ≡ empty_queue =
          cleared levels 0 l m ∙ ground arith in
        record { chain = ap (λ q. q.head) e; last = ap (λ q. q.tail) e; distinct = tt };
    pri = λ l a lt h. absurd (ground arith);
    mask_range = rw mask (omega arith);
    bits = λ l lt. rw mask (no_bits l lt);
  };
  held = λ l a lt h. absurd (ground arith);
  runnable = λ l a lt h. absurd (ground arith);
}

-- The view of the kernel that `initialize` leaves: the idle process, alone, in a block of 24 bytes.
abbrev pub only_idle : Ptr → View
only_idle block = record {
  carved = (3, block) ∷ [];
  free = λ _. [];
  queues = appended (λ _. []) 0 block;
}

module _ {base size : ℕ} {m : Machine} (k : IsKernel base size no_processes m) where
  start_idle-IsKernel :
      (rtc : ℕ)
      → m.tail ≡ base
      → 24 ≤ m.taillen
      → (n : Machine) × (start_idle rtc m ≡ ok tt n)
        × (n.current ≡ base)
        × (n.timer_q ≡ m.timer_q)
        × IsKernel base size (only_idle base) n
  unfolding start_idle find_mem_index find_from init_process set_process append set_queue
      enable_interrupts disable_interrupts
  start_idle-IsKernel rtc at room =
      let n =
        enable_interrupts
          (record (disable_interrupts m) { tail = m.tail + 24; taillen = m.taillen - 24 }) in
      let idle_proc = init_process m.tail rtc 3 0 n in
      let o = append m.tail (record idle_proc { current = m.tail }) in
      let g = cut-Given k.arena 3 (omega arith) refl room in
      let kn = given-IsKernel k (omega arith) g in
      let new =
        new-IsKernel kn m.tail rtc 3 0 (given_live k (omega arith) g)
          (given-IsOut k (omega arith) g) (omega arith) in
      (
        o,
        rw g.given refl,
        at,
        refl,
        subst (λ b. IsKernel base size (only_idle b) o) at
            (SameKernel-IsKernel (append m.tail idle_proc) o
              (record {
                procmemlist = refl;
                tail = refl;
                taillen = refl;
                next = refl;
                index = λ a. refl;
                pri = λ a. refl;
                state = λ a. refl;
                ready_q = refl;
                priority_mask = refl;
              })
              new),
      )

-- `timer_init` sets the elapsed-time timer, and leaves the kernel's shared memory.
timer_init-SameKernel :
    (m : Machine)
    → (n : Machine) × (timer_init m ≡ ok tt n)
      × SameKernel m n
      × (n.current ≡ m.current)
      × (n.timer_q ≡ m.timer_q)
unfolding timer_init define_interrupt_handler init_timer set_timer_repeating to_timespec
timer_init-SameKernel m = (
  _,
  refl,
  record {
    procmemlist = refl;
    tail = refl;
    taillen = refl;
    next = refl;
    index = λ a. refl;
    pri = λ a. refl;
    state = λ a. refl;
    ready_q = refl;
    priority_mask = refl;
  },
  refl,
  refl,
)

sched_init-IsKernel :
    {base size : ℕ} (m : Machine)
    → IsArena m base size [] (λ _. [])
    → m.priority_mask ≡ 0
    → m.tail ≡ base
    → 24 ≤ m.taillen
    → (n : Machine) × (sched_init m ≡ ok tt n)
      × (n.current ≡ base)
      × (n.timer_q ≡ m.timer_q)
      × IsKernel base size (only_idle base) n
unfolding sched_init clear_queues define_user_handlers define_interrupt_handler
sched_init-IsKernel {base} {size} m v mask at room =
    let m₁ = record m { proc_offset = sizeof_process } in
    let m₂ = clear_queues levels 0 m₁ in
    let m₃ = define_user_handlers 3 3 m₂ in
    let v₁ : IsArena m₁ base size [] (λ _. []) = record {
      ne_null = v.ne_null;
      blocks = v.blocks;
      total = v.total;
      lists = v.lists;
      distinct = v.distinct;
      owned = v.owned;
    } in
    let k₃ =
      SameKernel-IsKernel m₂ m₃
        (record {
          procmemlist = refl;
          tail = refl;
          taillen = refl;
          next = refl;
          index = λ a. refl;
          pri = λ a. refl;
          state = λ a. refl;
          ready_q = refl;
          priority_mask = refl;
        })
        (cleared-IsKernel m₁ v₁ mask) in
    start_idle-IsKernel k₃ idle at room

-- When the program is loaded, `initialize` on a block from `Malloc` of 24 bytes or more, of a
-- length below 2^32, returns with a well-formed kernel in which the idle process, alone, is the
-- current one and stands in the queue of priority 0, and with no timeout in the timeout queue.
pub initialize-IsKernel :
    (block memlen : ℕ) (m : Machine)
    → block ≢ null
    → 24 ≤ memlen
    → memlen < u32_mod
    → m.priority_mask ≡ 0
    → m.timer_q ≡ null
    → (n : Machine) × (initialize block memlen m ≡ ok tt n)
      × IsKernel block memlen (only_idle block) n
      × (n.current ≡ block)
      × IsTimerQ n []
unfolding initialize hardware_init define_signal_handlers disable_interrupts
initialize-IsKernel block memlen m ne room fits mask none =
    let m₁ = hardware_init m in
    let m₂ = whole_tail block memlen m₁ in
    let whole : memlen % u32_mod ≡ memlen = omega arith in
    let (m₃, inits, current, timer_q, k) =
      sched_init-IsKernel m₂ (whole_tail-IsArena block memlen m₁ ne) mask refl (rw whole room) in
    let (m₄, timers, same, current', timer_q') = timer_init-SameKernel m₃ in
    (
      m₄,
      rw (memory_init-ok block memlen m₁ ne, inits, timers) refl,
      subst (λ s. IsKernel block s (only_idle block) m₄) whole (SameKernel-IsKernel m₃ m₄ same k),
      current' ∙ current,
      record { chain = timer_q' ∙ timer_q ∙ none; distinct = tt; ascending = tt },
    )
