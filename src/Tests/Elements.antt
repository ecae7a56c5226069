-- ===== src/Tests/Elements.antt =====
-- Turns of an element of the rings and of Delta, of src/examples.
use microcsp.Base.{
  ◌<◌, true, false, ◌⊎◌, inl, inr, ℕ, ◌+◌, ◌≡◌, refl, false, arith, ◌==◌, if◌then◌else◌,
}
use microcsp.Machine.{Machine, proc_quiescent, proc_done, ok}
use microcsp.Alt.{selected}
use microcsp.Sched.{initial, state_of}
use microcsp.Examples.Words.{read_int}
use microcsp.Examples.Commstime.{delta_rtc}
use microcsp.Examples.Rings.Element.{element_rtc}
use microcsp.Examples.Guards.{OnlyActive, element_input, element_output, delta_rtc-OnlyActive}
use microcsp.Tests.{loaded}

-- A process in a later run that has selected a branch, with a number at the address 540.
abbrev turning : (branch number : ℕ) → Machine
turning branch number = record loaded {
  process = λ p. record (loaded.process 0) {
    state = proc_quiescent;
    alt = record { guards = 500; nr_guards = 2; index = branch; count = 0; alt_pri = false };
  };
  bytes = λ a. if a == 540 then number else 0;
  guard = λ g. record (loaded.guard 0) { active = g == 516 + branch };
  current = 1;
}

in_later_run : (initial (turning 0 7) ≡ false) × (initial (turning 1 0) ≡ false)
unfolding initial
in_later_run = (refl, refl)

branches : (selected (turning 0 7) ≡ 0) × (selected (turning 1 0) ≡ 1)
unfolding selected
branches = (refl, refl)

element_input_example :
    (n : Machine) × (element_rtc 500 (turning 0 7) ≡ ok tt n)
    × OnlyActive n 500 2 1
    × (read_int n 540 ≡ 8)
    × (n.process ≡ (turning 0 7).process)
element_input_example = element_input 500 (turning 0 7) in_later_run.0 branches.0 (omega arith)

element_output_example :
    (n : Machine) × (element_rtc 500 (turning 1 0) ≡ ok tt n)
    × OnlyActive n 500 2 0
    × (read_int n 540 ≡ 0)
    × (state_of n 1 ≡ proc_done)
element_output_example = element_output 500 (turning 1 0) in_later_run.1 branches.1

second_active : OnlyActive (turning 1 0) (500 + 16) 3 1
second_active j lt = ground arith

later_run :
    (initial (turning 1 0) ≡ true)
    ⊎ ((initial (turning 1 0) ≡ false)
        × (1 < 3)
        × (selected (turning 1 0) ≡ 1)
        × OnlyActive (turning 1 0) (500 + 16) 3 1)
later_run = inr (in_later_run.1, omega arith, branches.1, second_active)

its_later_run :
    (n : Machine) × (delta_rtc 500 (turning 1 0) ≡ ok tt n)
    × OnlyActive n (500 + 16) 3 (if initial (turning 1 0) then 0 else 2)
its_later_run = delta_rtc-OnlyActive 500 1 (turning 1 0) later_run

delta_rtc-OnlyActive_example :
    (n : Machine) × (delta_rtc 500 loaded ≡ ok tt n)
    × OnlyActive n (500 + 16) 3 (if initial loaded then 0 else 1)
unfolding initial
delta_rtc-OnlyActive_example = delta_rtc-OnlyActive 500 0 loaded (inl refl)
