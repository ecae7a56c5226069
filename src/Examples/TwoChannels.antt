-- ===== src/Examples/TwoChannels.antt =====
-- src/examples/2chan.c: a process signals another by turns on two channels, which the program
-- leaves as it is loaded, all 0. What the processes print is not modelled.
use microcsp.Base.{ℕ, ◌+◌, ◌*◌, ◌%◌, ◌==◌, if◌then◌else◌, pos}
use microcsp.Machine.{Ptr, null, Cmd, ◌>>=◌, ◌>>◌, get, modify, when, undefined}
use microcsp.Channel.{
  chan_in, chan_out, activate, deactivate, init_chanin_guard, init_chanout_guard,
}
use microcsp.Alt.{init_alt}
use microcsp.Sched.{initial, start, initialize, run}
use microcsp.Examples.Words.{read_byte, write_byte}

-- `&chan[i]`
abbrev pub chan_at : ℕ → Ptr
chan_at i = 100 + 8 * i

-- Proc1 has two guards and nothing else.
unfoldable pub proc1_rtc : Ptr → Cmd (Unit {0})
unfolding initial init_alt activate init_chanin_guard chan_in
proc1_rtc local = do
  m ← get
  when (initial m) (do
    modify (init_alt local 2)
    modify (activate local)
    modify (activate (local + 1))
    modify (init_chanin_guard local (chan_in (chan_at 0)) null 0)
    modify (init_chanin_guard (local + 1) (chan_in (chan_at 1)) null 0))

-- Proc2: the guards at 0, `which` at 32
unfoldable pub proc2_rtc : Ptr → Cmd (Unit {0})
unfolding initial init_alt activate deactivate init_chanout_guard chan_out write_byte
proc2_rtc local = do
  m ← get
  let which = local + 32
  if initial m
      then (do
        modify (init_alt local 2)
        modify (init_chanout_guard local (chan_out (chan_at 0)) null)
        modify (activate local)
        modify (init_chanout_guard (local + 1) (chan_out (chan_at 1)) null)
        modify (deactivate (local + 1))
        modify (write_byte which 0))
      else (do
        modify (deactivate (local + read_byte m which))
        modify (write_byte which ((read_byte m which + 1) % 2))
        modify (λ n. activate (local + read_byte n which) n))

-- the functions by the names under which `main` starts them
unfoldable pub two_channels_rtc : ℕ → Ptr → Cmd (Unit {0})
unfolding proc1_rtc proc2_rtc
two_channels_rtc name local =
    if name == 1 then proc1_rtc local else if name == 2 then proc2_rtc local else undefined

-- `local1` and `local2` are at the given addresses; `block` is what `Malloc` returns.
unfoldable pub two_channels_main : (block local1 local2 : Ptr) (fuel : ℕ) → Cmd (Unit {0})
unfolding initialize start run two_channels_rtc
two_channels_main block local1 local2 fuel = do
  initialize block 32768
  start 1 local1 32 (pos 1)
  start 2 local2 36 (pos 2)
  run two_channels_rtc 1 fuel
