-- ===== src/Kernel/Leaves.antt =====
-- The operations of src/timer.c on the timeout queue, and what src/sched.c writes for an ALT and
-- moves for a channel, leave the kernel's shared memory.
use microcsp.Base.{ℕ, zero, suc, refl, sym, subst, arith, ◌==◌, update, Bool-cases, inl, inr}
use microcsp.Machine.{
  Ptr, null, Machine, Alternation, Channel, Itimerspec, GuardKind, guard_chanin, guard_chanout,
  guard_skip, guard_timeout, guard_interrupt, ok,
}
use microcsp.Hardware.{
  enable_interrupts, disable_interrupts, memcpy, write_int, set_timer_single, read_timer,
}
use microcsp.Timer.{
  next_timeout, now, set_next, set_head, arm, find_place, link_timeout, insert_in_queue,
  skip_earlier, skip_others, unlink_timeout, remove_from_queue, is_due, enable_timeout,
  disable_timeout,
}
use microcsp.Timer.Insert.{link_timeout-lem}
use microcsp.Channel.{set_channel}
use microcsp.Alt.{set_process, set_alt, transfer}
use microcsp.Kernel.Same.{
  shared-SameKernel, SameKernel, SameKernel-refl, SameKernel-trans, SameKernel-if, Leaves, leaves,
  leaves_exit, leaves_fuel, Leaves-trans, Leaves-bind, Leaves-if,
}

now-SameKernel : (m : Machine) → SameKernel m (now m).1
unfolding now read_timer
now-SameKernel m = shared-SameKernel _ _ refl

set_next-SameKernel : (p q : Ptr) (m : Machine) → SameKernel m (set_next p q m)
unfolding set_next
set_next-SameKernel p q m = shared-SameKernel _ _ refl

set_head-SameKernel : (p : Ptr) (m : Machine) → SameKernel m (set_head p m)
unfolding set_head
set_head-SameKernel p m = shared-SameKernel _ _ refl

pub set_channel-SameKernel :
    (c : Ptr) (x : Channel) (m : Machine) → SameKernel m (set_channel c x m)
unfolding set_channel
set_channel-SameKernel c x m = shared-SameKernel _ _ refl

pub enabled-SameKernel : (m : Machine) → SameKernel m (enable_interrupts m)
unfolding enable_interrupts
enabled-SameKernel m = shared-SameKernel _ _ refl

pub disabled-SameKernel : (m : Machine) → SameKernel m (disable_interrupts m)
unfolding disable_interrupts
disabled-SameKernel m = shared-SameKernel _ _ refl

pub set_alt-SameKernel :
    (p : Ptr) (alt : Alternation) (m : Machine) → SameKernel m (set_alt p alt m)
unfolding set_alt set_process
set_alt-SameKernel p alt m = record {
  procmemlist = refl;
  tail = refl;
  taillen = refl;
  next = refl;
  index = λ a. ground arith;
  pri = λ a. ground arith;
  state = λ a. ground arith;
  ready_q = refl;
  priority_mask = refl;
}

pub transfer-SameKernel : (k : GuardKind) (m : Machine) → SameKernel m (transfer k m)
unfolding transfer memcpy set_channel disable_interrupts enable_interrupts write_int
transfer-SameKernel (guard_chanin chan dest len) m = shared-SameKernel _ _ refl
transfer-SameKernel (guard_interrupt chan dest) m = elim (Bool-cases (dest == null)) [
  | inl none_there ↦ rw none_there (shared-SameKernel _ _ refl)
  | inr there ↦ rw there (shared-SameKernel _ _ refl)
]
transfer-SameKernel (guard_chanout chan src) m = SameKernel-refl m
transfer-SameKernel guard_skip m = SameKernel-refl m
transfer-SameKernel (guard_timeout timeout) m = SameKernel-refl m

timers-SameKernel :
    (id : ℕ) (spec : Itimerspec) (m : Machine)
    → SameKernel m (record m { timers = update m.timers id spec })
timers-SameKernel id spec m = shared-SameKernel _ _ refl

pub stays {ℓ} : {A : Type ℓ} {a : A} (m : Machine) → Leaves m (ok a m)
stays m = leaves (SameKernel-refl m)

set_timer_single-Leaves :
    (id interval : ℕ) (m : Machine) → Leaves m (set_timer_single id interval m)
unfolding set_timer_single
set_timer_single-Leaves id interval m =
    Leaves-bind (Leaves-if _ leaves_exit (stays m)) (λ _ n. leaves (timers-SameKernel id _ n))

arm-Leaves : (p : Ptr) (m : Machine) → Leaves m (arm p m)
unfolding arm
arm-Leaves p m = Leaves-trans (now-SameKernel m) (set_timer_single-Leaves _ _ (now m).1)

find_place-Leaves :
    (fuel time prev curr : ℕ) (m : Machine) → Leaves m (find_place fuel time prev curr m)
unfolding find_place
find_place-Leaves zero time prev curr m = leaves_fuel
find_place-Leaves (suc f) time prev curr m =
    Leaves-if _ (find_place-Leaves f time curr (next_timeout m curr) m) (stays m)

skip_earlier-Leaves :
    (fuel time prev curr : ℕ) (m : Machine) → Leaves m (skip_earlier fuel time prev curr m)
unfolding skip_earlier
skip_earlier-Leaves zero time prev curr m = leaves_fuel
skip_earlier-Leaves (suc f) time prev curr m =
    Leaves-if _ (skip_earlier-Leaves f time curr (next_timeout m curr) m) (stays m)

skip_others-Leaves :
    (fuel time proc prev curr : ℕ) (m : Machine) → Leaves m (skip_others fuel time proc prev curr m)
unfolding skip_others
skip_others-Leaves zero time proc prev curr m = leaves_fuel
skip_others-Leaves (suc f) time proc prev curr m =
    Leaves-if _ (skip_others-Leaves f time proc curr (next_timeout m curr) m) (stays m)

link_timeout-Leaves : (x prev curr : Ptr) (m : Machine) → Leaves m (link_timeout x prev curr m)
link_timeout-Leaves x prev curr m = subst (Leaves m) (sym (link_timeout-lem x prev curr m)) (
    Leaves-if _
      (Leaves-trans (SameKernel-trans (set_head-SameKernel x m) (set_next-SameKernel x curr _))
        (arm-Leaves x _))
      (leaves (SameKernel-trans (set_next-SameKernel prev x m) (set_next-SameKernel x curr _))))

insert_in_queue-Leaves : (fuel : ℕ) (x : Ptr) (m : Machine) → Leaves m (insert_in_queue fuel x m)
unfolding insert_in_queue
insert_in_queue-Leaves fuel x m =
    Leaves-bind (find_place-Leaves fuel _ null m.timer_q m)
      (λ place n. link_timeout-Leaves x place.0 place.1 n)

unlink_timeout-SameKernel :
    (time proc prev curr : ℕ) (m : Machine) → SameKernel m (unlink_timeout time proc prev curr m)
unfolding unlink_timeout
unlink_timeout-SameKernel time proc prev curr m =
    let first = SameKernel-if (prev == null) (SameKernel-refl m) (set_next-SameKernel prev _ m) in
    SameKernel-if _ (SameKernel-if _ (SameKernel-trans first (set_head-SameKernel _ _)) first)
      (SameKernel-refl m)

remove_from_queue-Leaves :
    (fuel time proc : ℕ) (m : Machine) → Leaves m (remove_from_queue fuel time proc m)
unfolding remove_from_queue
remove_from_queue-Leaves fuel time proc m =
    Leaves-bind (skip_earlier-Leaves fuel time null m.timer_q m) (λ place n.
      Leaves-bind (skip_others-Leaves fuel time proc place.0 place.1 n)
        (λ place' o. leaves (unlink_timeout-SameKernel time proc place'.0 place'.1 o)))

pub enable_timeout-Leaves : (fuel : ℕ) (x : Ptr) (m : Machine) → Leaves m (enable_timeout fuel x m)
unfolding enable_timeout is_due
enable_timeout-Leaves fuel x m = Leaves-trans (now-SameKernel m) (
    Leaves-bind (Leaves-if _ (insert_in_queue-Leaves fuel x (now m).1) (stays (now m).1))
      (λ _ n. stays n))

pub disable_timeout-Leaves :
    (fuel : ℕ) (x : Ptr) (m : Machine) → Leaves m (disable_timeout fuel x m)
unfolding disable_timeout is_due
disable_timeout-Leaves fuel x m =
    Leaves-trans (now-SameKernel m)
      (Leaves-bind (remove_from_queue-Leaves fuel _ _ (now m).1) (λ _ n. stays n))
