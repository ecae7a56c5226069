-- ===== src/Hardware/Signals.antt =====
-- The signal sets of src/hardware.c: what the loops over the real-time signals leave.
use microcsp.Base.{
  ℕ, zero, suc, ◌+◌, ◌-◌, ◌≤◌, ◌≡◌, refl, ◌∙◌, Bool, true, false, not, ◌&&◌, ◌||◌, arith, ltb, leb,
  update,
}
use microcsp.Machine.{Machine, Sigset}
use microcsp.Hardware.{
  delete_signals, add_signals, greater_than_or_equal_to, nintr_sources, hardware_init,
  define_signal_handlers, disable_interrupts,
}

-- whether a signal is one of `left` signals from `i` on
abbrev pub among : (left i s : ℕ) → Bool
among left i s = leb i s && ltb s (i + left)

pub delete_signals-among :
    (left i : ℕ) (set : Sigset) (s : ℕ)
    → delete_signals left i set s ≡ (set s && not (among left i s))
unfolding delete_signals
delete_signals-among zero i set s = ground arith
delete_signals-among (suc left) i set s =
    delete_signals-among left (i + 1) (update set i false) s ∙ ground arith

pub add_signals-among :
    (left i : ℕ) (set : Sigset) (s : ℕ) → add_signals left i set s ≡ (set s || among left i s)
unfolding add_signals
add_signals-among zero i set s = ground arith
add_signals-among (suc left) i set s =
    add_signals-among left (i + 1) (update set i true) s ∙ ground arith

-- The set that `greater_than_or_equal_to` makes holds the real-time signals from the given one on,
-- and no others.
pub greater_than_or_equal_to-lem :
    (m : Machine) (signo s : ℕ)
    → ((a : ℕ) → m.all_signals a ≡ (leb m.sigrtmin a && leb a m.sigrtmax))
    → m.sigrtmin ≤ signo
    → greater_than_or_equal_to m signo s ≡ (leb signo s && leb s m.sigrtmax)
unfolding greater_than_or_equal_to
greater_than_or_equal_to-lem m signo s all real =
    delete_signals-among (signo - m.sigrtmin) m.sigrtmin m.all_signals s ∙ ground (arith, all s)

-- After `hardware_init` all the real-time signals and no others are in the set of all signals, they
-- are all blocked, the signals of the interrupt sources have the handler, and none of these is in
-- the set of those currently blocked.
pub hardware_init-signals :
    (m : Machine) (s : ℕ)
    → m.sigrtmin ≤ m.sigrtmax
    → let n = hardware_init m in
      (n.all_signals s ≡ (leb m.sigrtmin s && leb s m.sigrtmax))
      × (n.blocked s ≡ (m.blocked s || n.all_signals s))
      × (n.handled s ≡ (m.handled s || among nintr_sources m.sigrtmin s))
      × (n.currently_blocked s ≡ not (among nintr_sources m.sigrtmin s))
unfolding hardware_init define_signal_handlers disable_interrupts
hardware_init-signals m s real = (
  add_signals-among (m.sigrtmax + 1 - m.sigrtmin) m.sigrtmin (λ _. false) s ∙ ground arith,
  refl,
  add_signals-among nintr_sources m.sigrtmin m.handled s,
  delete_signals-among nintr_sources m.sigrtmin (λ _. true) s,
)
