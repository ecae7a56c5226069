-- ===== src/Alt.antt =====
-- The alternation of src/sched.c: `enable_alt` and `disable_alt`. The loops run on the number of
-- guards that are left; the fuel is that of the timeout queue. A remainder by 0, which both
-- functions come to where the process has no guards, is undefined.
pub mod Index
pub mod Senders
pub mod Forwards
pub mod Enable
pub mod Restrict
pub mod Backwards
pub mod Disable
pub mod Lost
use microcsp.Base.{
  ℕ, zero, suc, ◌+◌, ◌-◌, ◌%◌, Bool, true, false, not, ◌&&◌, ◌||◌, ltb, ◌==◌, if◌then◌else◌, update,
  u8_mod,
}
use microcsp.Machine.{
  Ptr, null, Alternation, Process, Guard, GuardKind, guard_chanin, guard_chanout, guard_skip,
  guard_timeout, guard_interrupt, Machine, Cmd, ok, ◌>>=◌, ◌>>◌, pure, get, modify, error_if,
  undefined, chanout_not_alone,
}
use microcsp.Hardware.{enable_interrupts, disable_interrupts, memcpy, write_int}
use microcsp.Timer.{enable_timeout, disable_timeout}
use microcsp.Channel.{
  enable_channel_input, disable_channel_input, enable_channel_output, enable_interrupt_channel,
  disable_interrupt_channel, set_channel, count,
}

unfoldable pub set_process : Ptr → Process → Machine → Machine
set_process proc p m = record m { process = update m.process proc p }

unfoldable pub set_alt : Ptr → Alternation → Machine → Machine
unfolding set_process
set_alt proc alt m = set_process proc (record (m.process proc) { alt = alt }) m

-- `&(proc->alt)`, read
abbrev pub alternation : Machine → Ptr → Alternation
alternation m proc = (m.process proc).alt

-- Returns selected branch of ALT.
unfoldable pub selected : Machine → ℕ
selected m = (alternation m m.current).index

unfoldable pub init_alt : (guards size : ℕ) → Machine → Machine
unfolding set_alt
init_alt guards size m =
    set_alt m.current
      (record (alternation m m.current) {
        guards = guards;
        nr_guards = size % u8_mod;
        alt_pri = false;
        index = (size + u8_mod - 1) % u8_mod;
      })
      m

unfoldable pub init_alt_pri : (guards size : ℕ) → Machine → Machine
unfolding set_alt
init_alt_pri guards size m =
    set_alt m.current
      (record (alternation m m.current) {
        guards = guards;
        nr_guards = size % u8_mod;
        alt_pri = true;
      })
      m

abbrev pub plus1_mod : ℕ → ℕ → ℕ
plus1_mod i m = (i + 1) % m

abbrev pub minus1_mod : ℕ → ℕ → ℕ
minus1_mod i m = (i + m - 1) % m

abbrev pub guard_at : Machine → (guards i : ℕ) → Guard
guard_at m guards i = m.guard (guards + i)

abbrev pub is_output : GuardKind → Bool
is_output (guard_chanout chan src) = true
is_output (guard_chanin chan dest len) = false
is_output guard_skip = false
is_output (guard_timeout timeout) = false
is_output (guard_interrupt chan dest) = false

-- The first loop of `enable_alt`: whether an output guard is active, and how many guards are.
unfoldable pub count_active :
    Machine → (guards left i : ℕ) → (active_output : Bool) (nr_active : ℕ) → Bool × ℕ
count_active m guards zero i active_output nr_active = (active_output, nr_active)
count_active m guards (suc left) i active_output nr_active =
    let g = guard_at m guards i in
    count_active m guards left (i + 1) (active_output || (g.active && is_output g.kind))
      (if g.active then nr_active + 1 else nr_active)

-- The case of one guard in the second loop: whether it is ready, and the partner. Interrupts are
-- enabled again unless the guard is ready; the case of an interrupt leaves them disabled.
unfoldable pub enable_answer : Bool × Ptr × Machine → Cmd (Bool × Ptr)
enable_answer (ready, partner, m') m =
    ok (ready, partner) (if ready then m' else enable_interrupts m')

unfoldable pub enable_answer_interrupt : Ptr → Bool × Machine → Cmd (Bool × Ptr)
enable_answer_interrupt partner (ready, m') m = ok (ready, partner) m'

unfoldable pub enable_guard : (fuel : ℕ) → GuardKind → (partner : Ptr) → Cmd (Bool × Ptr)
unfolding enable_answer enable_answer_interrupt
enable_guard fuel (guard_chanin chan dest len) partner m =
    enable_answer (enable_channel_input chan partner (disable_interrupts m)) m
enable_guard fuel (guard_chanout chan src) partner m =
    enable_answer (enable_channel_output chan src (disable_interrupts m)) m
enable_guard fuel guard_skip partner m = ok (true, partner) (disable_interrupts m)
enable_guard fuel (guard_timeout timeout) partner m =
    (enable_timeout fuel timeout >>= λ ready n. enable_answer (ready, partner, n) n)
      (disable_interrupts m)
enable_guard fuel (guard_interrupt chan dest) partner m =
    enable_answer_interrupt partner (enable_interrupt_channel chan (disable_interrupts m)) m

-- What the second loop leaves: the branch at which it stopped, and how many it had passed.
pub record Scan : Type 0 where
  pub ready : Bool
  pub partner : Ptr
  pub index : ℕ
  pub count : ℕ

abbrev pub scan_of : Bool → Ptr → ℕ → ℕ → Scan
scan_of ready partner i k = record { ready = ready; partner = partner; index = i; count = k }

unfoldable pub enable_guards : (fuel guards nr : ℕ) → (left i k : ℕ) (partner : Ptr) → Cmd Scan
unfolding enable_guard
enable_guards fuel guards nr zero i k partner m =
    ok (scan_of false partner (minus1_mod i nr) (k - 1)) (disable_interrupts m)
enable_guards fuel guards nr (suc left) i k partner m =
    let g = guard_at m guards i in
    let next = enable_guards fuel guards nr left (plus1_mod i nr) (k + 1) in
    if g.active
    then (enable_guard fuel g.kind partner >>= λ (ready, partner').
          if ready then pure (scan_of true partner' i k) else next partner')
        m
    else next partner m

unfoldable pub enable_alt : (fuel : ℕ) → Ptr → Cmd (Bool × Ptr)
unfolding count_active enable_guards set_alt
enable_alt fuel proc = do
  m ← get
  let alt = alternation m proc
  let nr = alt.nr_guards
  let (active_output, nr_active) = count_active m alt.guards nr 0 false 0
  error_if (active_output && ltb 1 nr_active) chanout_not_alone
  if nr == 0 then undefined else modify (λ m. m)
  let first = if alt.alt_pri then 0 else plus1_mod alt.index nr
  scan ← enable_guards fuel alt.guards nr nr first 0 null
  modify (λ m.
      set_alt proc
        (record (alternation m proc) { index = scan.index % u8_mod; count = scan.count % u8_mod })
        m)
  pure (scan.ready, scan.partner)

-- The case of one guard in the loop of `disable_alt`: the selected branch and the partner.
unfoldable pub disable_answer : (sel i : ℕ) → Bool × Ptr × Machine → Cmd (ℕ × Ptr)
disable_answer sel i (ready, partner, m') m =
    ok (if ready then i else sel, partner) (enable_interrupts m')

unfoldable pub disable_answer_interrupt : (sel i : ℕ) → Ptr → Bool × Machine → Cmd (ℕ × Ptr)
disable_answer_interrupt sel i partner (ready, m') m =
    ok (if ready then i else sel, partner) (enable_interrupts m')

unfoldable pub disable_guard : (fuel : ℕ) → GuardKind → (i sel : ℕ) (partner : Ptr) → Cmd (ℕ × Ptr)
unfolding disable_answer disable_answer_interrupt
disable_guard fuel (guard_chanin chan dest len) i sel partner m =
    disable_answer sel i (disable_channel_input chan partner (disable_interrupts m)) m
disable_guard fuel (guard_chanout chan src) i sel partner m = ok (i, partner) m
disable_guard fuel guard_skip i sel partner m = ok (i, partner) m
disable_guard fuel (guard_timeout timeout) i sel partner m =
    (disable_timeout fuel timeout >>= λ ready n. disable_answer sel i (ready, partner, n) n)
      (disable_interrupts m)
disable_guard fuel (guard_interrupt chan dest) i sel partner m =
    disable_answer_interrupt sel i partner (disable_interrupt_channel chan (disable_interrupts m)) m

-- The loop, with the number of guards that are left; it goes backwards.
unfoldable pub disable_guards :
    (fuel guards nr : ℕ) → (left i sel : ℕ) (partner : Ptr) → Cmd (ℕ × Ptr)
unfolding disable_guard
disable_guards fuel guards nr zero i sel partner m = ok (sel, partner) m
disable_guards fuel guards nr (suc left) i sel partner m =
    let g = guard_at m guards i in
    let next = disable_guards fuel guards nr left (minus1_mod i nr) in
    if g.active
    then (disable_guard fuel g.kind i sel partner >>= λ (sel', partner'). next sel' partner') m
    else next sel partner m

-- The transfer for the selected branch.
unfoldable pub transfer : GuardKind → Machine → Machine
unfolding set_channel
transfer (guard_chanin chan dest len) m =
    let m₁ = memcpy dest (m.channel chan).src len m in
    set_channel chan (record (m₁.channel chan) { waiting = null }) m₁
transfer (guard_interrupt chan dest) m =
    let m₁ = disable_interrupts m in
    let m₂ = if dest == null then m₁ else write_int dest (count (m₁.channel chan)) m₁ in
    enable_interrupts (set_channel chan (record (m₂.channel chan) { src = 0 }) m₂)
transfer (guard_chanout chan src) m = m
transfer guard_skip m = m
transfer (guard_timeout timeout) m = m

unfoldable pub disable_alt : (fuel : ℕ) → Ptr → Cmd Ptr
unfolding disable_guards set_alt transfer
disable_alt fuel proc = do
  m ← get
  let alt = alternation m proc
  let nr = alt.nr_guards
  if nr == 0 then undefined else modify (λ m. m)
  (sel, partner) ← disable_guards fuel alt.guards nr (alt.count + 1) alt.index alt.index null
  modify (λ m. set_alt proc (record (alternation m proc) { index = sel % u8_mod }) m)
  modify (λ m. transfer (guard_at m alt.guards sel).kind m)
  pure partner
