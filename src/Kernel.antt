-- ===== src/Kernel.antt =====
-- The parts of the kernel that share memory: the allocator of src/memory.c and the ready queues of
-- src/sched.c, whose links stand in the same words of the blocks.
pub mod Frames
pub mod Processes
pub mod Same
pub mod Start
pub mod Initial
pub mod Reach
pub mod Leaves
pub mod Guards
pub mod Round
pub mod Interrupts
pub mod Safety
use microcsp.Base.{ℕ, ◌<◌, ◌≡◌, Bool, true, false, List, ◌∷◌, has}
use microcsp.Machine.{
  Ptr, ProcState, proc_initial, proc_quiescent, proc_enabling, proc_waiting, proc_ready, proc_done,
  Machine,
}
use microcsp.Memory.Arena.{Blocks, IsArena, is_live}
use microcsp.Ready.{levels}
use microcsp.Ready.Queues.{Queues, IsReady}
use microcsp.Sched.{state_of}

-- The abstract view of the shared memory: the blocks that have been cut, the free lists of the size
-- classes, and the ready queues.
pub record View : Type 0 where
  pub carved : Blocks
  pub free : ℕ → List Ptr
  pub queues : Queues

-- The states of a process that stands in a ready queue.
abbrev pub is_runnable : ProcState → Bool
is_runnable proc_initial = true
is_runnable proc_ready = true
is_runnable proc_quiescent = false
is_runnable proc_enabling = false
is_runnable proc_waiting = false
is_runnable proc_done = false

-- The block of a process record is live, in the size class that the record names.
abbrev pub is_held : View → Machine → Ptr → Bool
is_held v m a = is_live v.carved v.free (m.process a).index a

-- The queues and the arena are well-formed, and every process in a queue is runnable and stands in
-- a live block.
pub record IsKernel (base size : ℕ) (v : View) (m : Machine) : Type 0 where
  pub arena : IsArena m base size v.carved v.free
  pub ready : IsReady m v.queues
  pub held : (l : ℕ) (a : Ptr) → l < levels → has a (v.queues l) ≡ true → is_held v m a ≡ true
  pub runnable :
      (l : ℕ) (a : Ptr) → l < levels → has a (v.queues l) ≡ true → is_runnable (state_of m a) ≡ true
