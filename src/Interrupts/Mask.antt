-- ===== src/Interrupts/Mask.antt =====
-- The signal mask and the count of active handlers around the handlers of src/hardware.c.
use microcsp.Base.{ℕ, ◌+◌, ◌-◌, ◌<◌, ◌≡◌, refl, sym, ap, ◌∙◌, false, arith, ◌==◌, pos, some, add64}
use microcsp.Machine.{
  Ptr, Machine, Sigset, handle_elapsed_time, Cmd, Outcome, ok, exit, idles, fault, out_of_fuel,
  and_then, modify, when, ◌>>◌,
}
use microcsp.Sched.{schedule, current_priority}
use microcsp.Timer.{tick, handle_elapsed_time_interrupt}
use microcsp.Interrupts.{
  block_signals, set_mask, enter_handler, call_handler, leave_handler, handle_signal,
}

and_then-inverse {ℓ κ} :
    {A : Type ℓ} {B : Type κ} (r : Outcome A) (k : A → Cmd B) (b : B) (n : Machine)
    → and_then r k ≡ ok b n
    → (a : A) × (m : Machine) × (r ≡ ok a m) × (k a m ≡ ok b n)
and_then-inverse (ok a m) k b n e = (a, m, refl, e)
and_then-inverse (exit x) k b n e = absurd (ground arith)
and_then-inverse (idles m) k b n e = absurd (ground arith)
and_then-inverse fault k b n e = absurd (ground arith)
and_then-inverse out_of_fuel k b n e = absurd (ground arith)

-- Where a command returns, both signal sets are the given one.
Masked : {A : Type 0} → Sigset → Outcome A → Type 0
Masked {A} set r =
    (a : A) (n : Machine) → r ≡ ok a n → (n.blocked ≡ set) × (n.currently_blocked ≡ set)

-- It is enough that the last command sets them.
Masked-then :
    {A B : Type 0} (set : Sigset) (r : Outcome A) (k : A → Cmd B)
    → ((a : A) (m : Machine) → Masked set (k a m))
    → Masked set (and_then r k)
unfolding Masked
Masked-then set r k last b n e = let (a, m, _, f) = and_then-inverse r k b n e in last a m b n f

state_of_ok : {A : Type 0} (d : Machine) → Outcome A → Machine
state_of_ok d (ok a m) = m
state_of_ok d (exit e) = d
state_of_ok d (idles m) = d
state_of_ok d fault = d
state_of_ok d out_of_fuel = d

Masked-set_mask :
    (set : Sigset) (m : Machine)
    → Masked set (ok tt (set_mask set (record m { currently_blocked = set })))
unfolding Masked set_mask state_of_ok
Masked-set_mask set m a n e =
    let same = ap (state_of_ok m) e in
    (sym (ap (λ n. n.blocked) same), sym (ap (λ n. n.currently_blocked) same))

module _ (rtc : ℕ → Ptr → Cmd (Unit {0})) (timer_fuel fuel : ℕ) where
  -- An elapsed-time interrupt that arrives while other handlers are active: the handler returns, a
  -- tick has been counted, no process has changed and none runs, and the number of active handlers,
  -- the signal mask and the set of those currently blocked are as they were before.
  pub handle_signal-nested :
      (signo : ℕ) (m : Machine)
      → m.interrupt_handler (signo - m.sigrtmin) ≡ some handle_elapsed_time
      → 0 < m.active_handlers
      → (n : Machine) × (handle_signal rtc timer_fuel fuel signo m ≡ ok tt n)
        × (n.current_time ≡ add64 m.current_time tick)
        × (n.active_handlers ≡ m.active_handlers)
        × (n.blocked ≡ m.blocked)
        × (n.currently_blocked ≡ m.currently_blocked)
        × (n.process ≡ m.process)
        × (n.current ≡ m.current)
  unfolding handle_signal enter_handler call_handler leave_handler block_signals set_mask
      handle_elapsed_time_interrupt
  handle_signal-nested signo m installed nested =
      let back : m.active_handlers + 1 - 1 ≡ m.active_handlers = omega arith in
      let inner : (m.active_handlers + 1 - 1 == 0) ≡ false = ground arith in
      let entered = handle_elapsed_time_interrupt (enter_handler signo m) in
      (
        set_mask m.blocked (record (block_signals entered.all_signals entered) {
          active_handlers = entered.active_handlers - 1;
          currently_blocked = m.currently_blocked;
        }),
        rw (installed, inner) refl,
        refl,
        back,
        refl,
        refl,
        refl,
        refl,
      )

  leave_handler-Masked :
      (set : Sigset) (m : Machine) → Masked set (leave_handler rtc timer_fuel fuel set m)
  unfolding leave_handler
  leave_handler-Masked set m =
      let left = record (block_signals m.all_signals m) {
        active_handlers = (block_signals m.all_signals m).active_handlers - 1;
      } in
      Masked-then set
        (when (left.active_handlers == 0)
          (schedule rtc timer_fuel fuel (pos (current_priority left))) left)
        (λ _. modify (λ m. set_mask set (record m { currently_blocked = set })))
        λ _ k. Masked-set_mask set k

  -- Whatever the handlers and the scheduler do: where the signal handler returns, the mask and the
  -- set of blocked signals are those of the time when the signal arrived.
  pub handle_signal-restores :
      (signo : ℕ) (m n : Machine)
      → handle_signal rtc timer_fuel fuel signo m ≡ ok tt n
      → (n.blocked ≡ m.blocked) × (n.currently_blocked ≡ m.currently_blocked)
  unfolding handle_signal Masked set_mask state_of_ok
  handle_signal-restores signo m n e =
      let intrsrc = signo - m.sigrtmin in
      let k : Unit → Cmd (Unit {0}) =
        λ _. leave_handler rtc timer_fuel fuel m.currently_blocked >> modify (set_mask m.blocked) in
      let (_, o, _, f) =
        and_then-inverse
          (call_handler rtc timer_fuel fuel (m.interrupt_handler intrsrc) intrsrc
            (enter_handler signo m))
          k tt n e in
      let (_, q, g, h) =
        and_then-inverse (leave_handler rtc timer_fuel fuel m.currently_blocked o)
          (λ _. modify (set_mask m.blocked)) tt n f in
      let same = ap (state_of_ok m) h in
      (
        sym (ap (λ o. o.blocked) same),
        sym (ap (λ o. o.currently_blocked) same)
            ∙ (leave_handler-Masked m.currently_blocked o tt q g).1,
      )
