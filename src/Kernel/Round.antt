-- ===== src/Kernel/Round.antt =====
-- A round of the scheduler's loop of src/sched.c, for a process that takes part in an ALT, as steps
-- of the kernel.
use microcsp.Base.{
  ℤ, ◌∙◌, some, IsDistinct, update, ◌==◌, has, Bool-cases, inl, inr, ◌∷◌, ℕ, ◌≡◌, refl, Bool, true,
  false, if◌then◌else◌, arith,
}
use microcsp.Machine.{
  null, Ptr, ProcState, proc_quiescent, proc_enabling, proc_waiting, proc_ready, Machine, Cmd,
  Outcome, ok, exit, idles, fault, out_of_fuel, Error, and_then, ok_unique, pure,
}
use microcsp.Hardware.{enable_interrupts}
use microcsp.Sched.Select.{choose-taken}
use microcsp.Sched.{choose, pri_of, state_of, set_state, is_state, finish_alt, begin_alt, advance}
use microcsp.Kernel.{View}
use microcsp.Kernel.Processes.{IsOut}
use microcsp.Kernel.Same.{
  SameKernel, SameKernel-trans, Leaves, leaves, leaves_exit, leaves_idle, leaves_fault, leaves_fuel,
}
use microcsp.Kernel.Leaves.{enabled-SameKernel}
use microcsp.Kernel.Guards.{enable_alt-Leaves, disable_alt-Leaves}
use microcsp.Kernel.Reach.{Reach, Reach-IsKernel, dequeued, next}
use microcsp.Alt.{set_process}

-- The outcome of a command that, where it returns, ends with a value and in a state that satisfy
-- `P`.
pub data Keeps {ℓ κ} {A : Type ℓ} (P : A → Machine → Type κ) : Outcome A → Type (ℓ ⊔ κ) where
  keeps : {a : A} {n : Machine} → P a n → Keeps P (ok a n)
  keeps_exit : {e : Error} → Keeps P (exit e)
  keeps_idle : {n : Machine} → Keeps P (idles n)
  keeps_fault : Keeps P fault
  keeps_fuel : Keeps P out_of_fuel

Leaves-Keeps {ℓ κ μ} :
    {A : Type ℓ} {B : Type κ} {P : B → Machine → Type μ} {m : Machine} {r : Outcome A}
    {k : A → Cmd B}
    → Leaves m r
    → ((a : A) (n : Machine) → SameKernel m n → Keeps P (k a n))
    → Keeps P (and_then r k)
Leaves-Keeps (leaves q) then_on = then_on _ _ q
Leaves-Keeps leaves_exit then_on = keeps_exit
Leaves-Keeps leaves_idle then_on = keeps_idle
Leaves-Keeps leaves_fault then_on = keeps_fault
Leaves-Keeps leaves_fuel then_on = keeps_fuel

Keeps-mono {ℓ κ μ} :
    {A : Type ℓ} {P : A → Machine → Type κ} {Q : A → Machine → Type μ} {r : Outcome A}
    → ((a : A) (n : Machine) → P a n → Q a n)
    → Keeps P r
    → Keeps Q r
Keeps-mono weaker (keeps h) = keeps (weaker _ _ h)
Keeps-mono weaker keeps_exit = keeps_exit
Keeps-mono weaker keeps_idle = keeps_idle
Keeps-mono weaker keeps_fault = keeps_fault
Keeps-mono weaker keeps_fuel = keeps_fuel

Keeps-ok {ℓ κ} :
    {A : Type ℓ} {P : A → Machine → Type κ} {n : Machine} {r : Outcome A} {a : A}
    → Keeps P r
    → r ≡ ok a n
    → P a n
Keeps-ok {P = P} (keeps h) e = ok_unique P refl e h
Keeps-ok keeps_exit e = absurd (ground (arith, e))
Keeps-ok keeps_idle e = absurd (ground (arith, e))
Keeps-ok keeps_fault e = absurd (ground (arith, e))
Keeps-ok keeps_fuel e = absurd (ground (arith, e))

set_state-SameKernel :
    (p : Ptr) (s : ProcState) (m n : Machine)
    → SameKernel m n
    → SameKernel (set_state p s m) (set_state p s n)
unfolding set_state set_process
set_state-SameKernel p s m n same = record {
  procmemlist = same.procmemlist;
  tail = same.tail;
  taillen = same.taillen;
  next = same.next;
  index = λ a. ground (arith, same.index a, same.index p);
  pri = λ a. ground (arith, same.pri a, same.pri p);
  state = λ a. ground (arith, same.state a);
  ready_q = same.ready_q;
  priority_mask = same.priority_mask;
}

-- A state that is set again.
set_state-twice :
    (p : Ptr) (s t : ProcState) (m n : Machine)
    → SameKernel (set_state p s m) n
    → SameKernel (set_state p t m) (set_state p t n)
unfolding set_state set_process
set_state-twice p s t m n same = record {
  procmemlist = same.procmemlist;
  tail = same.tail;
  taillen = same.taillen;
  next = same.next;
  index = λ a. ground (arith, same.index a, same.index p);
  pri = λ a. ground (arith, same.pri a, same.pri p);
  state = λ a. ground (arith, same.state a);
  ready_q = same.ready_q;
  priority_mask = same.priority_mask;
}

set_state-this : (p : Ptr) (s : ProcState) (m : Machine) → state_of (set_state p s m) p ≡ s
unfolding set_state set_process
set_state-this p s m = ground arith

-- What the branch for a quiescent process does: the process is quiescent again and its code is to
-- be run, or it waits; and the rest of the shared memory is as it was.
abbrev pub Settled : Ptr → Machine → Bool × Ptr → Machine → Type 0
Settled p m a n = SameKernel (set_state p (if a.0 then proc_quiescent else proc_waiting) m) n

module _ (rtc : ℕ → Ptr → Cmd (Unit {0})) (fuel : ℕ) (p : Ptr) where
  -- An ALT that has ended leaves the process quiescent, with its code to be run.
  finish_alt-Keeps :
      (m : Machine)
      → Keeps
          (λ a n. (a.0 ≡ true) × SameKernel (set_state p proc_quiescent m) n)
          (finish_alt rtc fuel p m)
  unfolding finish_alt
  finish_alt-Keeps m =
      Leaves-Keeps (disable_alt-Leaves fuel p m)
        (λ partner n same. keeps (refl, set_state-SameKernel p proc_quiescent m n same))

  begin_alt-marked :
      (m n : Machine) (ready : Bool) (partner : Ptr)
      → SameKernel (set_state p proc_enabling m) n
      → let marked = set_state p (if ready then proc_ready else proc_waiting) n in
        Keeps (Settled p m) (
          (if is_state (state_of marked p) proc_ready
              then finish_alt rtc fuel p
              else pure (false, partner))
            (enable_interrupts marked))
  begin_alt-marked m n true partner same =
      let marked = set_state p proc_ready n in
      let readied =
        SameKernel-trans (set_state-twice p proc_enabling proc_ready m n same)
          (enabled-SameKernel marked) in
      rw (set_state-this p proc_ready n) (
        Keeps-mono
          (λ a o h. rw h.0 (
            SameKernel-trans
              (set_state-twice p proc_ready proc_quiescent m (enable_interrupts marked) readied)
              h.1))
          (finish_alt-Keeps (enable_interrupts marked)))
  begin_alt-marked m n false partner same =
      let marked = set_state p proc_waiting n in
      rw (set_state-this p proc_waiting n) (
        keeps (
          SameKernel-trans (set_state-twice p proc_enabling proc_waiting m n same)
            (enabled-SameKernel marked)))

  begin_alt-Keeps : (m : Machine) → Keeps (Settled p m) (begin_alt rtc fuel p m)
  unfolding begin_alt
  begin_alt-Keeps m =
      Leaves-Keeps (enable_alt-Leaves fuel p (set_state p proc_enabling m)) (λ a n same.
        let enabling : state_of n p ≡ proc_enabling =
          same.state p ∙ set_state-this p proc_enabling m in
        rw enabling (begin_alt-marked m n a.0 a.1 same))

-- The scheduler's branch for a quiescent process, with guards of any kind, where it returns: either
-- the process's code is to be run and the process is quiescent, or it waits; all else in the shared
-- memory is as it was.
pub advance-Settled :
    (rtc : ℕ → Ptr → Cmd (Unit {0})) (fuel : ℕ) (p : Ptr) (m n : Machine) (a : Bool × Ptr)
    → state_of m p ≡ proc_quiescent
    → advance rtc fuel (state_of m p) p m ≡ ok a n
    → Settled p m a n
unfolding advance
advance-Settled rtc fuel p m n a quiescent e =
    Keeps-ok (begin_alt-Keeps rtc fuel p m) (rw quiescent at e)

module _ {block memlen : ℕ} {v : View} {m : Machine} (r : Reach block memlen v m) where
  -- The process that the scheduler chooses stands in no queue any more.
  pub choose-IsOut :
      (base : ℤ) (p : Ptr) {n : Machine}
      → choose base null m ≡ ok (some p) n
      → IsOut (dequeued v (pri_of m p)).queues p
  choose-IsOut base p {n} e =
      let k = Reach-IsKernel r in
      choose-taken m v.queues k.ready (λ q o. IsOut (dequeued v (pri_of m q)).queues q) base p n e
        (λ l q rest lt list.
          let pri : pri_of m q ≡ l = k.ready.pri l q lt (rw list (ground arith)) in
          let distinct : IsDistinct (q ∷ rest) = rw list at (k.ready.queues l lt).distinct in
          let out : IsOut (update v.queues l rest) q = λ j jt. elim (Bool-cases (l == j)) [
            | inl same ↦ ground (arith, distinct.0)
            | inr other ↦ elim (Bool-cases (has q (v.queues j))) [
              | inl there ↦ absurd (ground (arith, k.ready.pri j q jt there, pri))
              | inr out_of ↦ ground (arith, out_of)
            ]
          ] in
          rw (pri, list) out)
