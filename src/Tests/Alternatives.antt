-- ===== src/Tests/Alternatives.antt =====
-- Runs of channels and alternatives of src/sched.c.
use microcsp.Base.{ℕ, zero, suc, ◌+◌, ◌%◌, ◌<◌, ◌≡◌, refl, true, false, arith, ◌==◌, if◌then◌else◌}
use microcsp.Machine.{
  Ptr, null, Machine, guard_chanin, guard_chanout, guard_interrupt, ok, exit, chanout_not_alone,
  Cmd, proc_quiescent,
}
use microcsp.Channel.{enable_channel_input, disable_channel_input, enable_channel_output}
use microcsp.Channel.Rendezvous.{output-input, input-output}
use microcsp.Alt.{alternation, enable_alt, disable_alt}
use microcsp.Alt.Senders.{sender, kth}
use microcsp.Alt.Enable.{enable_alt-first}
use microcsp.Alt.Disable.{disable_alt-first}
use microcsp.Alt.Restrict.{enable_alt-exit}
use microcsp.Alt.Lost.{disable_alt-lost}
use microcsp.Sched.{begin_alt, state_of}
use microcsp.Sched.Alternate.{Finds, begin_alt-first}
use microcsp.Sched.Fair.{Offers, Passed, none_yet, turn, Passed-bound}
use microcsp.Tests.{loaded}

abbrev running : Machine
running = record loaded { current = 1 }

output-input_example :
    let sent = (enable_channel_output 70 800 running).2 in
    let n = record sent { current = 2 } in
    ((enable_channel_output 70 800 running).1 ≡ null)
    × (enable_channel_input 70 null n ≡ (true, 1, n))
    × (disable_channel_input 70 null n ≡ (true, 1, n))
    × ((n.channel 70).src ≡ 800)
output-input_example = output-input 70 800 2 null null running refl (omega arith) (omega arith)

input-output_example :
    let waits = (enable_channel_input 70 null running).2 in
    let sends = record waits { current = 2 } in
    let n = record ((enable_channel_output 70 800 sends).2) { current = 1 } in
    ((enable_channel_input 70 null running).0 ≡ false)
    × ((enable_channel_output 70 800 sends).1 ≡ 1)
    × (disable_channel_input 70 null n ≡ (true, 2, n))
    × ((n.channel 70).src ≡ 800)
input-output_example =
    input-output 70 800 2 null null running refl (omega arith) (omega arith) (omega arith)

-- A process with three inputs, of which it selected the one of index 1 last; a sender waits at the
-- one of index 0.
abbrev three_inputs : Machine
three_inputs = record running {
  process = λ p. record (loaded.process 0) {
    alt = record { guards = 500; nr_guards = 3; index = 1; count = 0; alt_pri = false };
  };
  guard = λ g. record {
    kind = guard_chanin (if g == 500 then 70 else if g == 501 then 71 else 72) 900 4;
    active = true;
  };
  channel = λ c. record { waiting = if c == 70 then 2 else null; src = 800 };
}

no_sender_at_2 : (e : ℕ) → e < 1 → sender three_inputs (kth three_inputs 500 3 2 e) ≡ null
no_sender_at_2 zero lt = refl
no_sender_at_2 (suc e) lt = absurd (omega arith)

enable_alt-first_example :
    (n : Machine) × (enable_alt 9 1 three_inputs ≡ ok (true, 2) n)
    × ((alternation n 1).index ≡ (2 + 1) % 3)
    × ((alternation n 1).count ≡ 1)
enable_alt-first_example =
    enable_alt-first 9 1 three_inputs 1 (omega arith) (λ j lt. refl) (omega arith) no_sender_at_2
      (omega arith)

-- The same process when the scan has stopped.
abbrev scanned : Machine
scanned = record three_inputs {
  process = λ p. record (loaded.process 0) {
    alt = record { guards = 500; nr_guards = 3; index = 0; count = 1; alt_pri = false };
  };
}

no_sender_at_2' : (e : ℕ) → e < 1 → sender scanned (kth scanned 500 3 2 e) ≡ null
no_sender_at_2' zero lt = refl
no_sender_at_2' (suc e) lt = absurd (omega arith)

disable_alt-first_example :
    (n : Machine) × (disable_alt 9 1 scanned ≡ ok 2 n)
    × ((alternation n 1).index ≡ (2 + 1) % 3)
    × ((j : ℕ) → j < 4 → n.bytes (900 + j) ≡ 0)
    × ((n.channel 70).waiting ≡ null)
disable_alt-first_example =
    disable_alt-first 9 1 scanned 2 1 70 900 4 (omega arith) (omega arith) refl (λ j lt. refl)
      (omega arith) no_sender_at_2' (omega arith) refl

-- An output guard and an input guard, both active.
abbrev mixed : Machine
mixed = record three_inputs {
  guard = λ g. record {
    kind = if g == 502 then guard_chanout 70 800 else guard_chanin 71 900 4;
    active = true;
  };
}

enable_alt-exit_example : enable_alt 9 1 mixed ≡ exit chanout_not_alone
enable_alt-exit_example =
    enable_alt-exit 9 1 mixed 2 0 (omega arith) (omega arith) (omega arith) refl refl refl

-- An interrupt that has come, and behind it an input whose sender waits.
abbrev interrupted : Machine
interrupted = record running {
  process = λ p. record (loaded.process 0) {
    alt = record { guards = 500; nr_guards = 2; index = 1; count = 1; alt_pri = true };
  };
  guard = λ g. record {
    kind = if g == 500 then guard_interrupt 80 null else guard_chanin 70 900 4;
    active = true;
  };
  channel =
      λ c. if c == 80 then record { waiting = 1; src = 1 } else record { waiting = 2; src = 800 };
}

disable_alt-lost_example :
    (n : Machine) × (disable_alt 9 1 interrupted ≡ ok 2 n)
    × ((alternation n 1).index ≡ 0)
    × (n.channel 70 ≡ record { waiting = 2; src = 800 })
disable_alt-lost_example =
    disable_alt-lost 9 1 interrupted 80 null 70 900 4 refl refl refl refl refl (omega arith) refl
      refl refl

-- The process with three inputs, at two of which senders wait: at those of the indices 2 and 0.
abbrev two_senders : Machine
two_senders = record three_inputs {
  channel = λ c. record { waiting = if c == 71 then null else c; src = 800 };
}

abbrev does_nothing : ℕ → Ptr → Cmd (Unit {0})
does_nothing name local m = ok tt m

two_senders-Finds : Finds two_senders (alternation two_senders 1) 2 0
two_senders-Finds = record {
  small = omega arith;
  inputs = λ j lt. refl;
  within = omega arith;
  before = λ e lt. absurd (omega arith);
  found = omega arith;
}

begin_alt-first_example :
    (n : Machine) × (begin_alt does_nothing 9 1 two_senders ≡ ok (true, 72) n)
    × ((alternation n 1).index ≡ (2 + 0) % 3)
    × (state_of n 1 ≡ proc_quiescent)
    × ((j : ℕ) → j < 4 → n.bytes (900 + j) ≡ two_senders.bytes (800 + j))
    × ((n.channel 72).waiting ≡ null)
begin_alt-first_example =
    begin_alt-first does_nothing 9 1 two_senders 0 72 900 4 two_senders-Finds refl

-- The sender at the index 0 is passed over once.
two_senders-Offers : Offers 1 500 3 0 1 two_senders
two_senders-Offers = record {
  count = 0;
  alternates = refl;
  inputs = λ l lt. refl;
  waits = omega arith;
}

Passed-once : (i : ℕ) × Passed does_nothing 9 1 500 3 0 1 i
Passed-once =
    let (n, returns, index, _, _, _) =
      begin_alt-first does_nothing 9 1 two_senders 0 72 900 4 two_senders-Finds refl in
    (
      1,
      turn two_senders n 72 two_senders-Offers returns (λ h. absurd (omega (arith, index, h)))
          none_yet,
    )

Passed-bound_example : 1 < 3
Passed-bound_example =
    Passed-bound does_nothing 9 1 500 3 0 (omega arith) (omega arith) Passed-once.1
