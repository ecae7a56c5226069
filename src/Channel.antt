-- ===== src/Channel.antt =====
-- The channels of src/sched.c: what a process that enables or disables one guard does to the
-- guard's channel. `partner` is the value behind the argument of that name, and `current` the
-- process.
pub mod Rendezvous
use microcsp.Base.{
  ℕ, ◌+◌, ◌-◌, ◌<◌, ◌%◌, Bool, true, false, not, ltb, ◌==◌, if◌then◌else◌, update, is_positive,
  u32_mod, ℤ, pos, negsuc,
}
use microcsp.Machine.{
  Ptr, null, Channel, Guard, GuardKind, guard_chanin, guard_chanout, guard_skip, guard_timeout,
  guard_interrupt, Timeout, Machine, Cmd, ◌>>=◌, ◌>>◌, get, modify, error, error_if,
  invalid_interrupt,
}
use microcsp.Hardware.{intr_user0, nintr_sources, send_user_interrupt}

-- The `count` of an interrupt channel is the word that holds the `src` of a channel.
abbrev pub count : Channel → ℕ
count c = c.src

unfoldable pub set_channel : Ptr → Channel → Machine → Machine
set_channel chan c m = record m { channel = update m.channel chan c }

unfoldable pub init_channel : Ptr → Machine → Machine
unfolding set_channel
init_channel chan = set_channel chan (record { waiting = null; src = null })

-- `in` and `out` return the same address under another type.
unfoldable pub chan_in : Ptr → Ptr
chan_in chan = chan

unfoldable pub chan_out : Ptr → Ptr
chan_out chan = chan

-- What an operation on a guard returns: whether the guard is ready, and the partner.
abbrev pub Answer : Type 0
Answer = Bool × Ptr × Machine

unfoldable pub enable_channel_input : (chan partner : Ptr) → Machine → Answer
unfolding set_channel
enable_channel_input chan partner m =
    let c = m.channel chan in
    if not (c.waiting == null)
    then if c.waiting == m.current then (false, partner, m) else (true, c.waiting, m)
    else (false, partner, set_channel chan (record c { waiting = m.current }) m)

unfoldable pub disable_channel_input : (chan partner : Ptr) → Machine → Answer
unfolding set_channel
disable_channel_input chan partner m =
    let c = m.channel chan in
    if not (c.waiting == null)
    then if not (c.waiting == m.current)
      then (true, c.waiting, m)
      else (false, partner, set_channel chan (record c { waiting = null }) m)
    else (false, partner, m)

unfoldable pub enable_channel_output : (chan src : Ptr) → Machine → Answer
unfolding set_channel
enable_channel_output chan src m = (
  false,
  (m.channel chan).waiting,
  set_channel chan (record { waiting = m.current; src = src }) m,
)

unfoldable pub enable_interrupt_channel : Ptr → Machine → Bool × Machine
unfolding set_channel
enable_interrupt_channel chan m =
    let c = m.channel chan in
    if count c == 0
    then (false, set_channel chan (record c { waiting = m.current }) m)
    else (true, m)

unfoldable pub disable_interrupt_channel : Ptr → Machine → Bool × Machine
unfolding set_channel
disable_interrupt_channel chan m =
    let c = m.channel chan in
    (is_positive (count c), set_channel chan (record c { waiting = null }) m)

-- The initialization of guards. What the union and `active` held before stays where it is not set.
unfoldable pub set_kind : Ptr → GuardKind → Machine → Machine
set_kind guard kind m = record m {
  guard = update m.guard guard (record (m.guard guard) { kind = kind });
}

unfoldable pub init_chanin_guard : (guard chan dest : Ptr) (len : ℕ) → Machine → Machine
unfolding set_kind
init_chanin_guard guard chan dest len = set_kind guard (guard_chanin chan dest len)

unfoldable pub init_chanin_guard_for_interrupt : (guard chan dest : Ptr) → Machine → Machine
unfolding set_kind
init_chanin_guard_for_interrupt guard chan dest = set_kind guard (guard_interrupt chan dest)

unfoldable pub init_chanout_guard : (guard chan src : Ptr) → Machine → Machine
unfolding set_kind
init_chanout_guard guard chan src = set_kind guard (guard_chanout chan src)

unfoldable pub init_skip_guard : (guard : Ptr) → Machine → Machine
unfolding set_kind
init_skip_guard guard = set_kind guard guard_skip

unfoldable pub init_timeout_guard : (guard timeout : Ptr) (time : ℕ) → Machine → Machine
unfolding set_kind
init_timeout_guard guard timeout time m =
    let m₁ = set_kind guard (guard_timeout timeout) m in
    record m₁ {
      timeout =
          update m₁.timeout timeout
            (record (m₁.timeout timeout) { time = time; proc = m₁.current });
    }

unfoldable pub set_active : (guard : Ptr) (active : Bool) → Machine → Machine
set_active guard active m = record m {
  guard = update m.guard guard (record (m.guard guard) { active = active });
}

unfoldable pub activate : (guard : Ptr) → Machine → Machine
unfolding set_active
activate guard = set_active guard true

unfoldable pub deactivate : (guard : Ptr) → Machine → Machine
unfolding set_active
deactivate guard = set_active guard false

unfoldable pub is_active : (guard : Ptr) → Machine → Bool
is_active guard m = (m.guard guard).active

-- `INTR_USER0 <= intrsrc && intrsrc < NINTR_SOURCES`, where `intrsrc = intrno + INTR_USER0`
abbrev pub is_user_interrupt : ℤ → Bool
is_user_interrupt (pos intrno) = ltb (intrno + intr_user0) nintr_sources
is_user_interrupt (negsuc n) = false

abbrev pub index_of : ℤ → ℕ
index_of (pos intrno) = intrno
index_of (negsuc n) = 0

unfoldable pub connect_interrupt_to_channel : Ptr → ℤ → Cmd (Unit {0})
unfolding set_channel
connect_interrupt_to_channel chan intrno = do
  error_if (not (is_user_interrupt intrno)) invalid_interrupt
  modify (set_channel chan (record { waiting = null; src = 0 }))
  modify (λ m. record m {
    channel_for_interrupt = update m.channel_for_interrupt (index_of intrno) chan;
  })

unfoldable pub disconnect_interrupt_from_channel : ℤ → Cmd (Unit {0})
disconnect_interrupt_from_channel intrno = do
  error_if (not (is_user_interrupt intrno)) invalid_interrupt
  modify (λ m. record m {
    channel_for_interrupt = update m.channel_for_interrupt (index_of intrno) null;
  })
