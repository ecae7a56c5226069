-- ===== src/Examples/Comm.antt =====
-- src/examples/comm.c: one process sends a message to another.
use microcsp.Base.{ℕ, ◌+◌, ◌==◌, if◌then◌else◌, pos}
use microcsp.Machine.{Ptr, Cmd, ok, ◌>>◌, modify, undefined}
use microcsp.Hardware.{write_int}
use microcsp.Channel.{
  init_channel, chan_in, chan_out, activate, init_chanin_guard, init_chanout_guard,
}
use microcsp.Alt.{init_alt}
use microcsp.Sched.{initial, terminate, start, initialize, run}

-- `Channel chan`
abbrev pub chan : Ptr
chan = 100

-- the offset of the variable behind the one guard, and the size of each structure
abbrev pub x_of : Ptr → Ptr
x_of local = local + 16

abbrev pub sizeof_local : ℕ
sizeof_local = 20

unfoldable pub sender_rtc : Ptr → Cmd (Unit {0})
unfolding initial init_alt activate write_int init_chanout_guard terminate chan_out
sender_rtc local m =
    if initial m
    then (do
      modify (init_alt local 1)
      modify (activate local)
      modify (write_int (x_of local) 123)
      modify (init_chanout_guard local (chan_out chan) (x_of local)))
        m
    else ok tt (terminate m)

unfoldable pub receiver_rtc : Ptr → Cmd (Unit {0})
unfolding initial init_alt activate init_chanin_guard terminate chan_in
receiver_rtc local m =
    if initial m
    then (do
      modify (init_alt local 1)
      modify (activate local)
      modify (init_chanin_guard local (chan_in chan) (x_of local) 4))
        m
    else ok tt (terminate m)

-- the functions by the names under which `main` starts them
unfoldable pub comm_rtc : ℕ → Ptr → Cmd (Unit {0})
unfolding sender_rtc receiver_rtc
comm_rtc name local =
    if name == 1 then sender_rtc local else if name == 2 then receiver_rtc local else undefined

-- `slocal` and `rlocal` are at the given addresses; `block` is what `Malloc` returns.
unfoldable pub comm_main : (block slocal rlocal : Ptr) (fuel : ℕ) → Cmd (Unit {0})
unfolding initialize start run comm_rtc init_channel
comm_main block slocal rlocal fuel = do
  initialize block 32768
  modify (init_channel chan)
  start 1 slocal sizeof_local (pos 1)
  start 2 rlocal sizeof_local (pos 2)
  run comm_rtc 1 fuel
