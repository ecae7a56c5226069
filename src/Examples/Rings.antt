-- ===== src/Examples/Rings.antt =====
-- The rings of processes of src/examples/ring1.c, ring-x.c, ring.c, ring3.c and mtring.c: what
-- their elements have in common. The size of the ring is an argument; reports are not modelled. An
-- element has its guards at 0, `input`, `output` and `token` at 32, 36 and 40.
pub mod Starter
pub mod Element
pub mod Root
pub mod Many
use microcsp.Base.{ℕ, zero, suc, ◌+◌, ◌*◌}
use microcsp.Machine.{Ptr, Machine, Cmd, ok, ◌>>=◌, ◌>>◌, pure, get, modify}
use microcsp.Channel.{init_channel, init_chanin_guard, init_chanout_guard, activate, deactivate}
use microcsp.Alt.{init_alt}
use microcsp.Sched.{start}
use microcsp.Base.{pos}
use microcsp.Examples.Words.{read_int}

-- Branch 0 is for input and branch 1 for output: one of the two is active at a time.
unfoldable pub to_input : Ptr → Machine → Machine
unfolding activate deactivate
to_input local m = deactivate (local + 1) (activate local m)

unfoldable pub to_output : Ptr → Machine → Machine
unfolding activate deactivate
to_output local m = activate (local + 1) (deactivate local m)

-- The guards of a process whose variables `input`, `output` and `token` are at the given addresses.
unfoldable pub init_guards : (local input output token : Ptr) → Machine → Machine
unfolding init_alt init_chanin_guard init_chanout_guard
init_guards local input output token m =
    init_chanout_guard (local + 1) (read_int m output) token
      (init_chanin_guard local (read_int m input) token 4 (init_alt local 2 m))

-- `&channel[i]`
abbrev pub channel_at : (channel : Ptr) → ℕ → Ptr
channel_at channel i = channel + 8 * i

-- The loop that initializes the channels.
unfoldable pub init_channels : (channel : Ptr) → (left i : ℕ) → Machine → Machine
unfolding init_channel
init_channels channel zero i m = m
init_channels channel (suc left) i m =
    init_channels channel left (i + 1) (init_channel (channel_at channel i) m)

-- The loop that starts the elements.
unfoldable pub start_elements : (rtc element size : ℕ) → (left i : ℕ) → Cmd (Unit {0})
unfolding start
start_elements rtc element size zero i = pure tt
start_elements rtc element size (suc left) i = do
  start rtc (element + size * i) size (pos 1)
  start_elements rtc element size left (i + 1)
