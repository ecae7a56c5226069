-- ===== src/Sched/User.antt =====
-- User interrupts in src/sched.c: how they are sent, counted and found by an ALT.
use native.Mathlib.Nat.{mod-eq_of_lt}
use microcsp.Base.{
  ℕ, ◌+◌, ◌-◌, ◌<◌, ◌%◌, ◌≡◌, refl, ◌≢◌, true, false, arith, ltb, ◌==◌, update, u32_mod, ℤ, pos,
  leb_ℤ, Bool-cases, inl, inr,
}
use microcsp.Machine.{Ptr, null, Machine, Cmd, ok}
use microcsp.Hardware.{intr_user0, nintr_sources, send_user_interrupt}
use microcsp.Channel.{
  set_channel, enable_interrupt_channel, disconnect_interrupt_from_channel, count,
}
use microcsp.Sched.{user_interrupt_handler, send_software_interrupt, add_user0}

-- No interrupt number is rejected as such, negative ones and those above the last user interrupt
-- included: the signal with that number is sent.
pub send_software_interrupt-sends :
    (intrno : ℤ) (m : Machine)
    → send_software_interrupt intrno m ≡ send_user_interrupt (add_user0 intrno) m
unfolding send_software_interrupt
send_software_interrupt-sends intrno m =
    elim (Bool-cases (leb_ℤ (pos intr_user0) (add_user0 intrno))) [
      | inl user ↦ rw user refl
      | inr other ↦ rw other refl
    ]

module _ (rtc : ℕ → Ptr → Cmd (Unit {0})) (timer_fuel fuel : ℕ) where
  -- An interrupt that is connected to a channel at which nobody waits is counted, no process
  -- changes, and an ALT that then enables the channel finds it ready and changes nothing.
  pub user_interrupt_handler-counts :
      (intrsrc chan : ℕ) (m : Machine)
      → m.channel_for_interrupt (intrsrc - intr_user0) ≡ chan
      → chan ≢ null
      → (m.channel chan).waiting ≡ null
      → (m.channel chan).src + 1 < u32_mod
      → (n : Machine) × (user_interrupt_handler rtc timer_fuel fuel intrsrc m ≡ ok tt n)
        × (count (n.channel chan) ≡ count (m.channel chan) + 1)
        × (n.process ≡ m.process)
        × (enable_interrupt_channel chan n ≡ (true, n))
  unfolding user_interrupt_handler set_channel enable_interrupt_channel
  user_interrupt_handler-counts intrsrc chan m connected ne free small =
      let c = m.channel chan in
      let there : (chan == null) ≡ false = ground arith in
      let none_waits : (c.waiting == null) ≡ true = ground arith in
      let one_more = mod-eq_of_lt small in
      (
        set_channel chan (record c { src = (c.src + 1) % u32_mod }) m,
        rw (connected, there, none_waits) refl,
        ground arith,
        refl,
        ground arith,
      )

  -- An interrupt that is disconnected is ignored from then on, until it is connected again.
  pub user_interrupt_handler-disconnected :
      (intrno : ℕ) (m : Machine)
      → intrno + intr_user0 < nintr_sources
      → (n : Machine) × (disconnect_interrupt_from_channel (pos intrno) m ≡ ok tt n)
        × (user_interrupt_handler rtc timer_fuel fuel (intrno + intr_user0) n ≡ ok tt n)
  unfolding user_interrupt_handler disconnect_interrupt_from_channel
  user_interrupt_handler-disconnected intrno m lt =
      let valid : ltb (intrno + intr_user0) nintr_sources ≡ true = ground arith in
      let source : intrno + intr_user0 - intr_user0 ≡ intrno = omega arith in
      let same : (intrno == intrno) ≡ true = ground arith in
      (
        record m { channel_for_interrupt = update m.channel_for_interrupt intrno null },
        rw valid refl,
        rw (source, same) refl,
      )
