-- ===== src/Tests/Queues.antt =====
-- Runs of the ready queues and the scheduler of src/sched.c.
use microcsp.Base.{
  negsuc, leb_ℤ, if◌then◌else◌, ◌&&◌, ◌||◌, ℕ, ◌<◌, ◌≡◌, refl, ◌⊎◌, Bool, true, false, not, [], ◌∷◌,
  ◌++◌, arith, ◌==◌, if◌then◌else◌, update, update_case, update_case₂, has, all_below,
  all_below_sound, none, some, ℤ, pos,
}
use microcsp.Machine.{
  fault, Ptr, null, ProcState, proc_quiescent, proc_done, proc_waiting, proc_ready, Process,
  Machine, Cmd, ok,
}
use microcsp.Ready.{levels, append}
use microcsp.Ready.Bits.{bit}
use microcsp.Ready.Queues.{Queues, IsQueue, IsReady, is_empty, append-IsReady}
use microcsp.Sched.{state_of, set_state, ready_with, choose, terminate, begin_process, settle}
use microcsp.Sched.Ready.{ready_with-cut}
use microcsp.Sched.Arrivals.{Arrivals, arrive, next_above, at_level}
use microcsp.Sched.Refine.{Implements, IsReady-same, ready_with-refines, choose-refines}
use microcsp.Sched.Initial.{begin_process-terminate}
use microcsp.Tests.{loaded}

abbrev process_with : (pri : ℕ) → ProcState → Process
process_with pri state = record (loaded.process 0) { pri = pri; state = state; rtc = 7 }

-- Processes 3 and 4 are ready at priority 2, process 5 waits at 2, 6 waits at 6, and 1 is the
-- current one, at priority 2.
abbrev two_ready : Machine
two_ready = record loaded {
  process = λ p.
      if p == 6
      then process_with 6 proc_waiting
      else if p == 5
      then process_with 2 proc_waiting
      else process_with 2 proc_ready;
  next = update (λ _. null) 3 4;
  ready_q = update (λ _. record { head = null; tail = null }) 2 (record { head = 3; tail = 4 });
  priority_mask = 4;
  current = 1;
}

abbrev queued : Queues
queued = update (λ _. []) 2 (3 ∷ 4 ∷ [])

abbrev shown : ℕ → Bool
shown l = if bit l 4 then not (is_empty (queued l)) else is_empty (queued l)

bits_shown : all_below levels shown ≡ true
unfolding all_below
bits_shown = refl

two_ready-IsReady : IsReady two_ready queued
two_ready-IsReady = record {
  queues = λ l lt.
      update_case₂ (λ _ r xs. IsQueue two_ready.next r xs)
        (λ _. record { head = null; tail = null }) (λ _. []) 2 (record { head = 3; tail = 4 })
        (3 ∷ 4 ∷ []) l
        (record {
          chain = (refl, omega arith, (refl, omega arith, refl));
          last = refl;
          distinct = (refl, (refl, tt));
        })
        (record { chain = refl; last = refl; distinct = tt });
  pri = λ l a lt.
      update_case (λ k ys. has a ys ≡ true → (two_ready.process a).pri ≡ k) (λ _. []) 2 (3 ∷ 4 ∷ [])
        l (λ h. ground arith) (λ h. absurd (ground arith));
  mask_range = omega arith;
  bits = λ l lt. ground (arith, all_below_sound levels shown l bits_shown lt);
}

five_out : (l : ℕ) → l < levels → has 5 (queued l) ≡ false
five_out l lt = update_case (λ _ ys. has 5 ys ≡ false) (λ _. []) 2 (3 ∷ 4 ∷ []) l refl refl

empty_above : (l : ℕ) → 2 < l → l < levels → queued l ≡ []
empty_above l above lt = let other : (2 == l) ≡ false = ground arith in rw other refl

append-IsReady_example : IsReady (append 5 two_ready) (update queued 2 ((3 ∷ 4 ∷ []) ++ 5 ∷ []))
append-IsReady_example = append-IsReady two_ready-IsReady 5 (omega arith) (omega arith) five_out

-- a scheduler that finds nothing to run
abbrev no_schedule : ℤ → Cmd (Unit {0})
no_schedule base m = ok tt m

-- The two processes as arrivals.
abbrev two_arrived : Arrivals
two_arrived = (2, 3) ∷ (2, 4) ∷ []

two_ready-Implements : Implements two_ready two_arrived
two_ready-Implements = record {
  ready = IsReady-same (λ l. ground arith) two_ready-IsReady;
  range = (omega arith, (omega arith, tt));
}

five_not_arrived : (l : ℕ) → l < levels → has 5 (at_level two_arrived l) ≡ false
five_not_arrived l lt = ground arith

ready_with-refines_example :
    (n : Machine) × (ready_with no_schedule 5 two_ready ≡ ok tt n)
    × Implements n (arrive 2 5 two_arrived)
ready_with-refines_example =
    ready_with-refines two_ready two_arrived two_ready-Implements no_schedule 5 refl (omega arith)
      (omega arith) (omega arith) five_not_arrived

choose-refines_example :
    ((next_above (negsuc 0) two_arrived ≡ none)
      × (choose (negsuc 0) null two_ready
          ≡ (if leb_ℤ (pos 0) (negsuc 0) then ok none two_ready else fault)))
    ⊎ ((p : Ptr) × (others : Arrivals) × (n : Machine) × (next_above (negsuc 0) two_arrived
          ≡ some (p, others))
        × (choose (negsuc 0) null two_ready ≡ ok (some p) n)
        × Implements n others)
choose-refines_example = choose-refines two_ready two_arrived two_ready-Implements (negsuc 0)

ready_with-cut_example :
    (n : Machine) × (ready_with no_schedule 3 two_ready ≡ ok tt n)
    × IsQueue n.next (n.ready_q 2) ([] ++ 3 ∷ [])
ready_with-cut_example =
    ready_with-cut no_schedule 3 two_ready queued two_ready-IsReady [] (4 ∷ []) refl (omega arith)
      (omega arith) refl

-- a process whose code only calls `terminate`
abbrev quits : ℕ → Ptr → Cmd (Unit {0})
quits name local m = ok tt (terminate m)

begin_process-terminate_example :
    let left = set_state 1 proc_quiescent (terminate two_ready) in
    (begin_process quits 9 1 two_ready ≡ ok (false, null) left)
    × (state_of (terminate two_ready) 1 ≡ proc_done)
    × (state_of left 1 ≡ proc_quiescent)
    × (settle quits 9 1 left ≡ ok 1 left)
begin_process-terminate_example =
    begin_process-terminate quits 9 1 two_ready two_ready refl refl refl

-- The same with memory at 1000, in which a process of 30 bytes is started: class 4, 32 bytes.
abbrev with_memory : Machine
with_memory = record two_ready { tail = 1000; taillen = 500; proc_offset = 20 }

abbrev allocated : Machine
allocated = record with_memory {
  tail = 1032;
  taillen = 468;
  blocked =
      λ s. (with_memory.blocked s || with_memory.all_signals s) && not (with_memory.all_signals s);
}
