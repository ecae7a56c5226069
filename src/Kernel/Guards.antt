-- ===== src/Kernel/Guards.antt =====
-- The ALT of src/sched.c, over guards of every kind, leaves the kernel's shared memory.
use microcsp.Base.{
  ℕ, zero, suc, ◌+◌, ◌%◌, true, false, ◌&&◌, ltb, ◌==◌, if◌then◌else◌, Bool-cases, inl, inr, u8_mod,
}
use microcsp.Machine.{
  pure, Ptr, null, Machine, GuardKind, guard_chanin, guard_chanout, guard_skip, guard_timeout,
  guard_interrupt, modify, undefined,
}
use microcsp.Hardware.{disable_interrupts}
use microcsp.Channel.{
  enable_channel_input, disable_channel_input, enable_channel_output, enable_interrupt_channel,
  disable_interrupt_channel,
}
use microcsp.Alt.{
  guard_at, scan_of, set_alt, alternation, count_active, enable_guard, enable_guards, enable_alt,
  disable_guard, disable_guards, disable_alt, enable_answer, enable_answer_interrupt,
  disable_answer, disable_answer_interrupt, plus1_mod, minus1_mod,
}
use microcsp.Kernel.Same.{
  SameKernel, SameKernel-refl, SameKernel-trans, SameKernel-if, Leaves, leaves, leaves_exit,
  leaves_fault, Leaves-trans, Leaves-bind, Leaves-if, Leaves-if_cmd,
}
use microcsp.Kernel.Leaves.{
  disabled-SameKernel, enabled-SameKernel, set_channel-SameKernel, set_alt-SameKernel,
  transfer-SameKernel, stays, enable_timeout-Leaves, disable_timeout-Leaves,
}

enable_input-SameKernel : (c q : Ptr) (m : Machine) → SameKernel m (enable_channel_input c q m).2
unfolding enable_channel_input
enable_input-SameKernel c q m = elim (Bool-cases ((m.channel c).waiting == null)) [
  | inl free ↦ rw free (set_channel-SameKernel c _ m)
  | inr taken ↦ elim (Bool-cases ((m.channel c).waiting == m.current)) [
    | inl own ↦ rw (taken, own) (SameKernel-refl m)
    | inr other ↦ rw (taken, other) (SameKernel-refl m)
  ]
]

disable_input-SameKernel : (c q : Ptr) (m : Machine) → SameKernel m (disable_channel_input c q m).2
unfolding disable_channel_input
disable_input-SameKernel c q m = elim (Bool-cases ((m.channel c).waiting == null)) [
  | inl free ↦ rw free (SameKernel-refl m)
  | inr taken ↦ elim (Bool-cases ((m.channel c).waiting == m.current)) [
    | inl own ↦ rw (taken, own) (set_channel-SameKernel c _ m)
    | inr other ↦ rw (taken, other) (SameKernel-refl m)
  ]
]

enable_interrupt-SameKernel :
    (c : Ptr) (m : Machine) → SameKernel m (enable_interrupt_channel c m).1
unfolding enable_interrupt_channel
enable_interrupt-SameKernel c m = elim (Bool-cases ((m.channel c).src == 0)) [
  | inl none_yet ↦ rw none_yet (set_channel-SameKernel c _ m)
  | inr come ↦ rw come (SameKernel-refl m)
]

enable_output-SameKernel :
    (c src : Ptr) (m : Machine) → SameKernel m (enable_channel_output c src m).2
unfolding enable_channel_output
enable_output-SameKernel c src m = set_channel-SameKernel c _ m

enable_guard-Leaves :
    (fuel : ℕ) (kind : GuardKind) (partner : Ptr) (m : Machine)
    → Leaves m (enable_guard fuel kind partner m)
unfolding enable_guard enable_answer enable_answer_interrupt
enable_guard-Leaves fuel (guard_chanin c dest len) partner m =
    let d = disabled-SameKernel m in
    let s = SameKernel-trans d (enable_input-SameKernel c partner (disable_interrupts m)) in
    leaves (SameKernel-if _ s (SameKernel-trans s (enabled-SameKernel _)))
enable_guard-Leaves fuel (guard_chanout c src) partner m =
    let s =
      SameKernel-trans (disabled-SameKernel m)
        (enable_output-SameKernel c src (disable_interrupts m)) in
    leaves (SameKernel-if _ s (SameKernel-trans s (enabled-SameKernel _)))
enable_guard-Leaves fuel guard_skip partner m = leaves (disabled-SameKernel m)
enable_guard-Leaves fuel (guard_timeout timeout) partner m = Leaves-trans (disabled-SameKernel m) (
    Leaves-bind (enable_timeout-Leaves fuel timeout (disable_interrupts m))
      (λ ready n. leaves (SameKernel-if ready (SameKernel-refl n) (enabled-SameKernel n))))
enable_guard-Leaves fuel (guard_interrupt c dest) partner m = leaves (
    SameKernel-trans (disabled-SameKernel m) (enable_interrupt-SameKernel c (disable_interrupts m)))

enable_guards-Leaves :
    (fuel guards nr left i k : ℕ) (partner : Ptr) (m : Machine)
    → Leaves m (enable_guards fuel guards nr left i k partner m)
unfolding enable_guards
enable_guards-Leaves fuel guards nr zero i k partner m = leaves (disabled-SameKernel m)
enable_guards-Leaves fuel guards nr (suc left) i k partner m =
    let g = guard_at m guards i in
    Leaves-if g.active
      (Leaves-bind (enable_guard-Leaves fuel g.kind partner m) (λ a n.
        Leaves-if_cmd a.0 (pure (scan_of true a.1 i k))
          (enable_guards fuel guards nr left (plus1_mod i nr) (k + 1) a.1)
          (stays {a = scan_of true a.1 i k} n)
          (enable_guards-Leaves fuel guards nr left (plus1_mod i nr) (k + 1) a.1 n)))
      (enable_guards-Leaves fuel guards nr left (plus1_mod i nr) (k + 1) partner m)

checked_size-Leaves :
    (nr : ℕ) (m : Machine) → Leaves m ((if nr == 0 then undefined else modify (λ o. o)) m)
checked_size-Leaves nr m =
    Leaves-if_cmd (nr == 0) undefined (modify (λ o. o)) leaves_fault (stays m)

-- Whatever the guards of a process are, `enable_alt` leaves the kernel's shared memory where it
-- returns.
pub enable_alt-Leaves : (fuel : ℕ) (p : Ptr) (m : Machine) → Leaves m (enable_alt fuel p m)
unfolding enable_alt
enable_alt-Leaves fuel p m =
    let alt = alternation m p in
    let active = count_active m alt.guards alt.nr_guards 0 false 0 in
    let first = if alt.alt_pri then 0 else plus1_mod alt.index alt.nr_guards in
    Leaves-bind (Leaves-if (active.0 && ltb 1 active.1) leaves_exit (stays m)) (λ _ n.
      Leaves-bind (checked_size-Leaves alt.nr_guards n) (λ _ o.
        Leaves-bind
          (enable_guards-Leaves fuel alt.guards alt.nr_guards alt.nr_guards first 0 null o)
          (λ scan q. leaves {a = (scan.ready, scan.partner)} (
            set_alt-SameKernel p
              (record (alternation q p) {
                index = scan.index % u8_mod;
                count = scan.count % u8_mod;
              })
              q))))

disable_guard-Leaves :
    (fuel : ℕ) (kind : GuardKind) (i sel : ℕ) (partner : Ptr) (m : Machine)
    → Leaves m (disable_guard fuel kind i sel partner m)
unfolding disable_guard disable_answer disable_answer_interrupt disable_interrupt_channel
disable_guard-Leaves fuel (guard_chanin c dest len) i sel partner m = leaves (
    SameKernel-trans (disabled-SameKernel m) (
      SameKernel-trans (disable_input-SameKernel c partner (disable_interrupts m))
        (enabled-SameKernel _)))
disable_guard-Leaves fuel (guard_chanout c src) i sel partner m = stays m
disable_guard-Leaves fuel guard_skip i sel partner m = stays m
disable_guard-Leaves fuel (guard_timeout timeout) i sel partner m =
    Leaves-trans (disabled-SameKernel m) (
      Leaves-bind (disable_timeout-Leaves fuel timeout (disable_interrupts m))
        (λ ready n. leaves (enabled-SameKernel n)))
disable_guard-Leaves fuel (guard_interrupt c dest) i sel partner m = leaves (
    SameKernel-trans (disabled-SameKernel m)
      (SameKernel-trans (set_channel-SameKernel c _ (disable_interrupts m)) (enabled-SameKernel _)))

disable_guards-Leaves :
    (fuel guards nr left i sel : ℕ) (partner : Ptr) (m : Machine)
    → Leaves m (disable_guards fuel guards nr left i sel partner m)
unfolding disable_guards
disable_guards-Leaves fuel guards nr zero i sel partner m = stays m
disable_guards-Leaves fuel guards nr (suc left) i sel partner m =
    Leaves-if _
      (Leaves-bind (disable_guard-Leaves fuel _ i sel partner m)
        (λ a n. disable_guards-Leaves fuel guards nr left (minus1_mod i nr) a.0 a.1 n))
      (disable_guards-Leaves fuel guards nr left (minus1_mod i nr) sel partner m)

-- So does `disable_alt`, with the transfer for the guard that it selects.
pub disable_alt-Leaves : (fuel : ℕ) (p : Ptr) (m : Machine) → Leaves m (disable_alt fuel p m)
unfolding disable_alt
disable_alt-Leaves fuel p m =
    let alt = alternation m p in
    Leaves-bind (checked_size-Leaves alt.nr_guards m) (λ _ n.
      Leaves-bind
        (disable_guards-Leaves fuel alt.guards alt.nr_guards (alt.count + 1) alt.index alt.index
          null n)
        (λ a o.
          let marked = set_alt p (record (alternation o p) { index = a.0 % u8_mod }) o in
          leaves {a = a.1} (
            SameKernel-trans
              (set_alt-SameKernel p (record (alternation o p) { index = a.0 % u8_mod }) o)
              (transfer-SameKernel (guard_at marked alt.guards a.0).kind marked))))
