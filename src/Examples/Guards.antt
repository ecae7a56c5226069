-- ===== src/Examples/Guards.antt =====
-- Processes of the examples with one active guard at a time, as an output guard wants it.
use microcsp.Base.{
  ◌⊎◌, ℕ, zero, suc, ◌+◌, ◌-◌, ◌*◌, ◌/◌, ◌%◌, ◌^◌, ◌<◌, ◌≡◌, refl, sym, ap, ◌∙◌, true, false, arith,
  ltb, leb, ◌==◌, if◌then◌else◌, is_positive, Bool-cases, inl, inr,
}
use microcsp.Machine.{Ptr, Machine, proc_done, ok}
use microcsp.Hardware.{write_int}
use microcsp.Channel.{activate, deactivate, set_active, init_chanin_guard, init_chanout_guard}
use microcsp.Alt.{init_alt, set_process, selected, guard_at}
use microcsp.Sched.{initial, state_of, set_state, terminate}
use microcsp.Examples.Words.{read_int, overflows, add_int}
use microcsp.Examples.Rings.{to_input, to_output}
use microcsp.Examples.Rings.Element.{element_turn, element_rtc}
use microcsp.Examples.Commstime.{delta_turn, delta_rtc}

-- Of the guards of an array the k-th is active, and no other.
abbrev pub OnlyActive : (m : Machine) (guards nr k : ℕ) → Type 0
OnlyActive m guards nr k = (j : ℕ) → j < nr → (guard_at m guards j).active ≡ (k == j)

write_int-byte :
    (a v k : ℕ) (m : Machine) → k < 4 → (write_int a v m).bytes (a + k) ≡ v / 256 ^ k % 256
unfolding write_int
write_int-byte a v k m lt =
    let lo : leb a (a + k) ≡ true = ground arith in
    let hi : ltb (a + k) (a + 4) ≡ true = ground arith in
    let back : a + k - a ≡ k = omega arith in rw (lo, hi, back) refl

digits :
    (v : ℕ)
    → v < 2 ^ 32
    → v % 256
        + 256 * (v / 256 % 256)
        + 65_536 * (v / 65_536 % 256)
        + 16_777_216 * (v / 16_777_216 % 256)
      ≡ v
digits v lt = omega arith

-- An `int` is read as it has been written.
pub read_int-write_int : (a v : ℕ) (m : Machine) → v < 2 ^ 32 → read_int (write_int a v m) a ≡ v
read_int-write_int a v m lt =
    let n = write_int a v m in
    let at : a + 0 ≡ a = omega arith in
    let low : v / 256 ^ 0 % 256 ≡ v % 256 = omega arith in
    let b0 : n.bytes a ≡ v % 256 =
      ap (λ c. n.bytes c) (sym at) ∙ write_int-byte a v 0 m (omega arith) ∙ low in
    let b1 : n.bytes (a + 1) ≡ v / 256 % 256 = write_int-byte a v 1 m (omega arith) in
    let b2 : n.bytes (a + 2) ≡ v / 65_536 % 256 = write_int-byte a v 2 m (omega arith) in
    let b3 : n.bytes (a + 3) ≡ v / 16_777_216 % 256 = write_int-byte a v 3 m (omega arith) in
    omega (arith, b0, b1, b2, b3, digits v lt)

module _ (local : Ptr) (m : Machine) where
  to_input-OnlyActive : OnlyActive (to_input local m) local 2 0
  unfolding to_input activate deactivate set_active
  to_input-OnlyActive j lt = ground arith

  to_output-OnlyActive : OnlyActive (to_output local m) local 2 1
  unfolding to_output activate deactivate set_active
  to_output-OnlyActive j lt = ground arith

delta_turn-OnlyActive :
    (guards i : ℕ) (m : Machine)
    → i < 3
    → OnlyActive m guards 3 i
    → OnlyActive (delta_turn i guards m) guards 3 ((i + 1) % 3)
unfolding delta_turn activate deactivate set_active
delta_turn-OnlyActive guards zero m lt only j jlt = ground (arith, only j jlt)
delta_turn-OnlyActive guards (suc zero) m lt only j jlt = ground (arith, only j jlt)
delta_turn-OnlyActive guards (suc (suc zero)) m lt only j jlt = ground (arith, only j jlt)
delta_turn-OnlyActive guards (suc (suc (suc i))) m lt only j jlt = absurd (omega arith)

turned-read :
    (local a : Ptr) (m : Machine)
    → (read_int (to_output local m) a ≡ read_int m a)
      × (read_int (to_input local m) a ≡ read_int m a)
      × ((to_output local m).process ≡ m.process)
      × ((to_input local m).process ≡ m.process)
unfolding to_input to_output activate deactivate set_active
turned-read local a m = (refl, refl, refl, refl)

terminate-read :
    (a : Ptr) (m : Machine)
    → (read_int (terminate m) a ≡ read_int m a) × (state_of (terminate m) m.current ≡ proc_done)
unfolding terminate set_state set_process
terminate-read a m = (refl, ground arith)

-- What an element does when it is not in its first run.
element_later :
    (local branch : ℕ) (m : Machine)
    → initial m ≡ false
    → selected m ≡ branch
    → element_rtc local m ≡ element_turn branch local m
unfolding element_rtc
element_later local branch m later at = rw later (ap (λ b. element_turn b local m) at)

-- When an element of the ring has received a token below 2^31 - 1, it adds 1 to the token unless
-- this is 0, and goes on with only its output active; no process changes.
pub element_input :
    (local : Ptr) (m : Machine)
    → initial m ≡ false
    → selected m ≡ 0
    → let v = read_int m (local + 40) in
      v < 2 ^ 31 - 1
      → (n : Machine) × (element_rtc local m ≡ ok tt n)
        × OnlyActive n local 2 1
        × (read_int n (local + 40) ≡ (if ltb 0 v then v + 1 else v))
        × (n.process ≡ m.process)
unfolding element_turn add_int
element_input local m later branch small =
    let v = read_int m (local + 40) in
    elim (Bool-cases (ltb 0 v)) [
      | inl counts ↦
          let positive : is_positive v ≡ true = ground arith in
          let fits : overflows v 1 ≡ false = ground arith in
          let n = write_int (local + 40) ((v + 1) % 2 ^ 32) m in
          let sum : (v + 1) % 2 ^ 32 ≡ v + 1 = omega arith in
          let (read, _, process, _) = turned-read local (local + 40) n in
          (
            to_output local n,
            element_later local 0 m later branch ∙ rw (positive, fits) refl,
            to_output-OnlyActive local n,
            rw counts
                (read ∙ read_int-write_int (local + 40) ((v + 1) % 2 ^ 32) m (omega arith) ∙ sum),
            process,
          )
      | inr zero_token ↦
          let none_left : is_positive v ≡ false = ground arith in
          let (read, _, process, _) = turned-read local (local + 40) m in
          (
            to_output local m,
            element_later local 0 m later branch ∙ rw none_left refl,
            to_output-OnlyActive local m,
            rw zero_token read,
            process,
          )
    ]

-- When an element of the ring has sent its token, it terminates if the token is 0, and otherwise
-- keeps its state; in both cases it leaves the token and has only its input active.
pub element_output :
    (local : Ptr) (m : Machine)
    → initial m ≡ false
    → selected m ≡ 1
    → let v = read_int m (local + 40) in
      (n : Machine) × (element_rtc local m ≡ ok tt n)
      × OnlyActive n local 2 0
      × (read_int n (local + 40) ≡ v)
      × (state_of n m.current ≡ (if v == 0 then proc_done else state_of m m.current))
unfolding element_turn
element_output local m later branch =
    let v = read_int m (local + 40) in
    elim (Bool-cases (v == 0)) [
      | inl ends ↦
          let n = terminate m in
          let (read, done) = terminate-read (local + 40) m in
          let (_, read', _, process) = turned-read local (local + 40) n in
          (
            to_input local n,
            element_later local 1 m later branch ∙ rw ends refl,
            to_input-OnlyActive local n,
            read' ∙ read,
            rw ends (ap (λ f. (f m.current).state) process ∙ done),
          )
      | inr goes_on ↦
          let (_, read, _, process) = turned-read local (local + 40) m in
          (
            to_input local m,
            element_later local 1 m later branch ∙ rw goes_on refl,
            to_input-OnlyActive local m,
            read,
            rw goes_on (ap (λ f. (f m.current).state) process),
          )
    ]

-- Delta's guards when it has set them up.
delta_initial : Ptr → Machine → Machine
unfolding init_alt init_chanin_guard init_chanout_guard activate deactivate
delta_initial local m =
    let guards = local + 16 in
    let linked = init_chanin_guard guards (read_int m (local + 4)) local 4 (init_alt guards 3 m) in
    let out =
      init_chanout_guard (guards + 2) (read_int m (local + 12)) local
        (init_chanout_guard (guards + 1) (read_int m (local + 8)) local linked) in
    deactivate (guards + 2) (deactivate (guards + 1) (activate guards out))

delta_initial-OnlyActive :
    (local : Ptr) (m : Machine) → OnlyActive (delta_initial local m) (local + 16) 3 0
unfolding delta_initial activate deactivate set_active
delta_initial-OnlyActive local m j lt = ground arith

-- After its first run, whatever the state before, Delta has only its input active. After every
-- later run, if only the guard was active that has been selected, it has only the next one active,
-- in the order input, first output, second output.
pub delta_rtc-OnlyActive :
    (local i : ℕ) (m : Machine)
    → (initial m ≡ true)
      ⊎ ((initial m ≡ false) × (i < 3) × (selected m ≡ i) × OnlyActive m (local + 16) 3 i)
    → (n : Machine) × (delta_rtc local m ≡ ok tt n)
      × OnlyActive n (local + 16) 3 (if initial m then 0 else (i + 1) % 3)
unfolding delta_rtc delta_initial
delta_rtc-OnlyActive local i m run = elim run [
  | inl first ↦ (delta_initial local m, rw first refl, rw first (delta_initial-OnlyActive local m))
  | inr (later, lt, branch, only) ↦ (
    delta_turn (selected m) (local + 16) m,
    rw later refl,
    rw (later, branch) (delta_turn-OnlyActive (local + 16) i m lt only),
  )
]
