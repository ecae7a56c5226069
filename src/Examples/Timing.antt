-- ===== src/Examples/Timing.antt =====
-- src/examples/timing.c and timing0.c: a sender and a receiver, with and without a message. The
-- reports that the receivers print, and the rates in them, are not modelled.
use microcsp.Base.{ℕ, ◌+◌, ◌%◌, ◌&&◌, ◌==◌, if◌then◌else◌, is_positive, pos}
use microcsp.Machine.{Ptr, null, Cmd, ◌>>=◌, ◌>>◌, pure, get, modify, when, undefined}
use microcsp.Hardware.{write_int}
use microcsp.Channel.{
  init_channel, chan_in, chan_out, activate, init_chanin_guard, init_chanout_guard,
}
use microcsp.Alt.{init_alt}
use microcsp.Sched.{initial, start, initialize, run}
use microcsp.Examples.Comm.{chan}
use microcsp.Examples.Words.{read_int, add_int, write_time, call_now}

-- Sender: the guard at 0, `x` at 16; Receiver: the guard at 0, `t0` and `val` at 16 and 24
abbrev pub sizeof_sender : ℕ
sizeof_sender = 20

abbrev pub sizeof_receiver : ℕ
sizeof_receiver = 28

-- timing.c
unfoldable pub counts_rtc : Ptr → Cmd (Unit {0})
unfolding initial init_alt activate write_int init_chanout_guard chan_out add_int
counts_rtc local = do
  m ← get
  let x = local + 16
  if initial m
      then (do
        modify (init_alt local 1)
        modify (activate local)
        modify (write_int x 0)
        modify (init_chanout_guard local (chan_out chan) x))
      else add_int x 1

unfoldable pub reports_rtc : Ptr → Cmd (Unit {0})
unfolding initial init_alt activate init_chanin_guard chan_in call_now write_time
reports_rtc local = do
  m ← get
  let val = read_int m (local + 24)
  if initial m
      then (do
        t ← call_now
        modify (write_time (local + 16) t)
        modify (init_alt local 1)
        modify (activate local)
        modify (init_chanin_guard local (chan_in chan) (local + 24) 4))
      else when (is_positive val && val % 1_000_000 == 0) (do call_now; pure tt)

-- timing0.c
unfoldable pub signals_rtc : Ptr → Cmd (Unit {0})
unfolding initial init_alt activate write_int init_chanout_guard chan_out
signals_rtc local = do
  m ← get
  when (initial m) (do
    modify (init_alt local 1)
    modify (activate local)
    modify (write_int (local + 16) 0)
    modify (init_chanout_guard local (chan_out chan) null))

unfoldable pub counts_signals_rtc : Ptr → Cmd (Unit {0})
unfolding initial init_alt activate write_int init_chanin_guard chan_in call_now write_time add_int
counts_signals_rtc local = do
  m ← get
  let val = local + 24
  if initial m
      then (do
        t ← call_now
        modify (write_time (local + 16) t)
        modify (init_alt local 1)
        modify (activate local)
        modify (init_chanin_guard local (chan_in chan) null 0)
        modify (write_int val 0))
      else (do
        add_int val 1
        n ← get
        when (read_int n val % 1_000_000 == 0) (do call_now; pure tt))

-- the functions by the names under which the two `main`s start them
unfoldable pub timing_rtc : (sender receiver : Ptr → Cmd (Unit {0})) → ℕ → Ptr → Cmd (Unit {0})
timing_rtc sender receiver name local =
    if name == 1 then sender local else if name == 2 then receiver local else undefined

-- The structures are at the given addresses; `block` is what `Malloc` returns.
unfoldable pub timing_main : (block sender receiver : Ptr) (fuel : ℕ) → Cmd (Unit {0})
unfolding initialize init_channel start run timing_rtc counts_rtc reports_rtc
timing_main block sender receiver fuel = do
  initialize block 32768
  modify (init_channel chan)
  start 1 sender sizeof_sender (pos 1)
  start 2 receiver sizeof_receiver (pos 1)
  run (timing_rtc counts_rtc reports_rtc) 1 fuel

unfoldable pub timing0_main : (block sender receiver : Ptr) (fuel : ℕ) → Cmd (Unit {0})
unfolding initialize init_channel start run timing_rtc signals_rtc counts_signals_rtc
timing0_main block sender receiver fuel = do
  initialize block 32768
  modify (init_channel chan)
  start 1 sender sizeof_sender (pos 1)
  start 2 receiver sizeof_receiver (pos 1)
  run (timing_rtc signals_rtc counts_signals_rtc) 1 fuel
