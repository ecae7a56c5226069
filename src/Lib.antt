-- ===== src/Lib.antt =====
-- microcsp is a run-to-completion kernel for processes that communicate over synchronous channels, in
-- C, for one processor with interrupts. These files model it and prove what its parts promise.
--
-- Parts and files. Paths are those of the repository.
-- Machine (Types, Commands, Chain): the records of src/sched.c, src/internals/sched.h and
--   src/internals/timer.h, the whole state, commands with their outcomes, and linked lists in memory.
-- Memory: src/memory.c. Arena is the allocator's invariant; Allocate, Release, Reuse, Apart and Index
--   are about allocate_mem, release_mem and memory_init, and find_mem_index.
-- Hardware: src/hardware.c less the signal handler: the signal mask (ENABLE and DISABLE), the POSIX
--   timers and signals. Timers and Signals are about intervals and signal sets.
-- Interrupts: handle_signal of src/hardware.c, in three parts, with the handlers that are installed.
-- Ready: the ready queues of src/sched.c (append, take, highest_ready) with the priority mask. Bits
--   and Highest check the mask's values one by one, Queues has the invariant.
-- Timer: src/timer.c. Clock is about Now and the start of the timeout timer, Insert and Remove about
--   insertInQueue and removeFromQueue, Enable, Withdraw and Expire about
--   enable_timeout, disable_timeout and the timeout interrupt.
-- Channel: the channels and guards of src/sched.c, with the rendezvous.
-- Alt: enable_alt and disable_alt of src/sched.c, with the senders it looks for (Senders), the scan
--   (Forwards, Enable), its way back (Backwards, Disable), the rule for output guards (Restrict)
--   and an ALT that a second event reaches (Lost); Index has the arithmetic of the scan.
-- Sched: the scheduler of src/sched.c: start, schedule, readyProcessIfNecessary, user interrupts and
--   initialization. Select is about the choice of a process, Ready about readying
--   one, Start about starting one, Initial about its first run, User about user interrupts. Arrivals is
--   the abstract view of the ready queues, one list of processes in the order in which they became
--   ready, and Refine says that the scheduler implements it. Alternate follows one alternative through
--   the scheduler's loop, and Fair a row of them.
-- Kernel: the memory that src/memory.c and src/sched.c share, since the blocks of the one hold the
--   records and links of the other. Frames and Same are about what an operation leaves alone,
--   Processes, Start and Initial about what the operations, start and initialize keep or establish.
--   Reach is the step relation of the kernel, from initialize on, and Safety what holds in the
--   states that it reaches. Leaves and Guards are about the operations that leave the shared
--   memory, and Round about a round of the scheduler's loop as steps, Interrupts about a user
--   interrupt between them. Readying with preemption runs a nested scheduler, which is a sequence
--   of steps.
-- Examples: the programs of src/examples. Comm, Commstime, Procon, TwoChannels (2chan.c), Timeouts
--   (timeout.c and timeout2.c), UserInterrupts (userintr.c), Empty (empty.c and empty2.c), Timing
--   (timing.c and timing0.c) and Rings (Starter for ring1.c and ring-x.c, Element and Root for ring.c,
--   Many for ring3.c and mtring.c) are their processes and main functions; Words is their memory, and
--   Guards about the turns of some processes.
-- Tests: concrete states to which the theorems are applied, and runs of some examples to their ends.
--
-- What the kernel's steps assume. The code does not test that a process that it readies, changes or
-- ends stands in no queue, and the theorems about the steps assume it; Ready.Again and Sched.Ready show
-- what happens to a queue where it does not hold.
--
-- How the parts work together. A process is a function that the scheduler calls again and again;
-- between two calls the scheduler enables the process's alternative (enable_alt) and, when a guard is
-- ready, ends it (disable_alt), which does the communication and names the partner, which is readied.
-- Timeouts and interrupts ready processes from handlers, and readying a process of higher priority
-- runs a nested scheduler.
--
-- How the code is modelled. The state of the program and of the operating system is one record. An
-- operation is a function of the state; one that may call error, or reach the endless loop of the
-- idle process, or do what C does not define, has an outcome that says so. Addresses are numbers, and
-- each kind of record has its own map from addresses; two kinds that the program overlays share a
-- map. Words of 8, 32 and 64 bits keep their wrap-around. The functions of the processes are a
-- parameter, from a name and an address to a command. The C library's functions are their effect on
-- the state where they succeed; what the timer answers is a sequence in the state, and what Malloc
-- returns is an argument.
--
-- Fuel. The searches of the timeout queue take fuel; one unit more than the queue's length is enough,
-- and the theorems about them ask for no more. Now takes a list of how many ticks arrive in each
-- round and returns where one of them is 0. The scheduler takes a unit for each round and each nested
-- scheduler; it need not end, since the idle process never returns. The scans of the alternatives and
-- of the signal sets recurse on the number of guards and of signals that are left.
--
-- Not modelled: guards and timeouts inside a message that an ALT copies, which stand in maps of their
-- own; only `start` copies them, with the local variables. The printing of messages, fences and atomic operations, which a sequential model does
-- not see; interrupts at arbitrary points of the scheduler, in place of which handlers and operations
-- are composed as sequences; what the examples print and the rates they compute for it, and
-- src/examples/time_test.c, which only prints; and the empty hardware
-- layer and operating system stubs, which have no behaviour.
pub mod Base
pub mod Machine
pub mod Memory
pub mod Hardware
pub mod Ready
pub mod Timer
pub mod Channel
pub mod Alt
pub mod Sched
pub mod Kernel
pub mod Interrupts
pub mod Examples
pub mod Tests
