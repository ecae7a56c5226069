-- ===== src/Alt/Lost.antt =====
-- `disable_alt` in src/sched.c where a guard before the ready channel input has become ready too.
use microcsp.Base.{ℕ, ◌+◌, ◌≡◌, refl, ap, ◌≢◌, ◌∙◌, true, false, arith, ◌==◌, is_positive}
use microcsp.Machine.{Ptr, null, Machine, guard_chanin, guard_interrupt, ok}
use microcsp.Hardware.{enable_interrupts, disable_interrupts, write_int}
use microcsp.Channel.{set_channel, disable_channel_input, disable_interrupt_channel}
use microcsp.Alt.{
  alternation, guard_at, disable_answer, disable_answer_interrupt, disable_guard, disable_guards,
  set_alt, set_process, transfer, disable_alt,
}

module _ (fuel gs : ℕ) (m : Machine) (irq idest chan dest len : Ptr) where
  -- The loop over an interrupt, which has come, and behind it an input whose sender is there: the
  -- interrupt is selected, but the partner is the sender of the input.
  disable_guards-lost :
      (sel : ℕ)
      → guard_at m gs 0 ≡ record { kind = guard_interrupt irq idest; active = true }
      → guard_at m gs 1 ≡ record { kind = guard_chanin chan dest len; active = true }
      → irq ≢ chan
      → is_positive (m.channel irq).src ≡ true
      → ((m.channel chan).waiting == null) ≡ false
      → ((m.channel chan).waiting == m.current) ≡ false
      → (n : Machine) × (disable_guards fuel gs 2 2 1 sel null m
          ≡ ok (0, (m.channel chan).waiting) n)
        × (n.guard ≡ m.guard)
        × (n.channel chan ≡ m.channel chan)
        × (n.bytes ≡ m.bytes)
  unfolding disable_guards disable_guard disable_answer disable_answer_interrupt
      disable_channel_input disable_interrupt_channel set_channel enable_interrupts
      disable_interrupts
  disable_guards-lost sel g₀ g₁ apart came there other =
      let after = enable_interrupts (disable_interrupts m) in
      let ne : (irq == chan) ≡ false = ground arith in
      (
        enable_interrupts (disable_interrupt_channel irq (disable_interrupts after)).1,
        rw (g₁, there, other, g₀, came) refl,
        refl,
        rw ne refl,
        refl,
      )

-- Setting the selected branch, which ends an ALT that selects no input.
end-lost :
    (p irq idest chan : Ptr) (sel : ℕ) (m n : Machine)
    → irq ≢ chan
    → n.channel chan ≡ m.channel chan
    → let o =
        transfer
          (guard_interrupt irq idest)
          (set_alt p (record (alternation n p) { index = sel }) n) in
      ((alternation o p).index ≡ sel) × (o.channel chan ≡ m.channel chan)
unfolding transfer set_alt set_process set_channel enable_interrupts disable_interrupts write_int
end-lost p irq idest chan sel m n apart e = (ground arith, ground arith)

-- An ALT of an interrupt and, behind it, a channel input at which `enable_alt` stopped, since its
-- sender was there. Where the interrupt has come before `disable_alt`, the ALT selects the
-- interrupt and yet returns the sender as the partner, so that it is readied, while its message has
-- not been received: the channel still holds the sender and the source.
pub disable_alt-lost :
    (fuel p : ℕ) (m : Machine) (irq idest chan dest len : Ptr)
    → let alt = alternation m p in
      alt.nr_guards ≡ 2
      → alt.index ≡ 1
      → alt.count ≡ 1
      → guard_at m alt.guards 0 ≡ record { kind = guard_interrupt irq idest; active = true }
      → guard_at m alt.guards 1 ≡ record { kind = guard_chanin chan dest len; active = true }
      → irq ≢ chan
      → is_positive (m.channel irq).src ≡ true
      → ((m.channel chan).waiting == null) ≡ false
      → ((m.channel chan).waiting == m.current) ≡ false
      → (n : Machine) × (disable_alt fuel p m ≡ ok (m.channel chan).waiting n)
        × ((alternation n p).index ≡ 0)
        × (n.channel chan ≡ m.channel chan)
unfolding disable_alt
disable_alt-lost fuel p m irq idest chan dest len nr index passed g₀ g₁ apart came there other =
    let alt = alternation m p in
    let (n, e, guards, held, bytes) =
      disable_guards-lost fuel alt.guards m irq idest chan dest len 1 g₀ g₁ apart came there
        other in
    let kind : (guard_at n alt.guards 0).kind ≡ guard_interrupt irq idest =
      ap (λ g. (g (alt.guards + 0)).kind) guards ∙ ap (λ g. g.kind) g₀ in
    let (branch, stays) = end-lost p irq idest chan 0 m n apart held in
    let n₁ = set_alt p (record (alternation n p) { index = 0 }) n in
    (
      transfer (guard_interrupt irq idest) n₁,
      rw (nr, index, passed, e) (ap (λ k. ok (m.channel chan).waiting (transfer k n₁)) kind),
      branch,
      stays,
    )
