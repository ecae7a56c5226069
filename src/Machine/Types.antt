-- ===== src/Machine/Types.antt =====
-- The records of src/internals/sched.h, src/internals/timer.h and src/sched.c, and the whole state.
-- An address is a number, and 0 is NULL. Each kind of record has a map of its own from addresses,
-- except where the program overlays two kinds: the first word of a process record is also the link
-- of a released block, and the second word of a channel is also the count of an interrupt channel.
use microcsp.Base.{ℕ, Bool, Option}

abbrev pub Ptr : Type 0
Ptr = ℕ

abbrev pub null : Ptr
null = 0

-- scheduling state of a process
pub data ProcState : Type 0 where
  proc_initial proc_quiescent proc_enabling proc_waiting proc_ready proc_done : ProcState

-- `guards` is the address of the guard array; its i-th element has the address `guards + i`.
pub record Alternation : Type 0 where
  pub guards : Ptr
  pub nr_guards : ℕ
  pub index : ℕ
  pub count : ℕ
  pub alt_pri : Bool

-- A process record less its first word, `next`; `rtc` names the function that the process runs.
pub record Process : Type 0 where
  pub rtc : ℕ
  pub alt : Alternation
  pub index : ℕ
  pub pri : ℕ
  pub state : ProcState

-- `Channel`, `ChanIn`, `ChanOut` and `InterruptChannel` are one pair of words.
pub record Channel : Type 0 where
  pub waiting : Ptr
  pub src : ℕ

-- the union of `Guard` with its tag `type`
pub data GuardKind : Type 0 where
  guard_chanin : (channel dest : Ptr) (len : ℕ) → GuardKind
  guard_chanout : (channel src : Ptr) → GuardKind
  guard_skip : GuardKind
  guard_timeout : (timeout : Ptr) → GuardKind
  guard_interrupt : (channel dest : Ptr) → GuardKind

pub record Guard : Type 0 where
  pub kind : GuardKind
  pub active : Bool

-- timeout descriptor
pub record Timeout : Type 0 where
  pub next : Ptr
  pub proc : Ptr
  pub time : ℕ

-- ready queue descriptor
pub record ReadyQ : Type 0 where
  pub head : Ptr
  pub tail : Ptr

-- `struct timespec` and `struct itimerspec`
pub record Timespec : Type 0 where
  pub tv_sec : ℕ
  pub tv_nsec : ℕ

pub record Itimerspec : Type 0 where
  pub it_value : Timespec
  pub it_interval : Timespec

-- the three functions that are installed as interrupt handlers
pub data Handler : Type 0 where
  handle_elapsed_time handle_timeout user_interrupt : Handler

-- a signal set
abbrev pub Sigset : Type 0
Sigset = ℕ → Bool

pub record Machine : Type 0 where
  -- memory.c
  pub procmemlist : ℕ → Ptr
  pub tail : Ptr
  pub taillen : ℕ
  -- memory
  pub next : Ptr → Ptr
  pub process : Ptr → Process
  pub channel : Ptr → Channel
  pub guard : Ptr → Guard
  pub timeout : Ptr → Timeout
  pub bytes : Ptr → ℕ
  -- sched.c
  pub current : Ptr
  pub priority_mask : ℕ
  pub ready_q : ℕ → ReadyQ
  pub proc_offset : ℕ
  pub channel_for_interrupt : ℕ → Ptr
  -- timer.c
  pub timer_q : Ptr
  pub current_time : ℕ
  -- hardware.c
  pub active_handlers : ℕ
  pub interrupt_handler : ℕ → Option Handler
  pub all_signals : Sigset
  pub currently_blocked : Sigset
  -- the operating system: the range of the real-time signals, the signal mask, the signals whose
  -- action is `handle_signal`, each timer's signal and what it was last set to, how often a signal
  -- was sent, and what `timer_gettime` answers at its calls, of which `reads` have been made
  pub sigrtmin : ℕ
  pub sigrtmax : ℕ
  pub blocked : Sigset
  pub handled : Sigset
  pub timer_signal : ℕ → ℕ
  pub timers : ℕ → Itimerspec
  pub sent : ℕ → ℕ
  pub readings : ℕ → Timespec
  pub reads : ℕ
