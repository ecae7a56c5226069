-- ===== src/Examples/Procon.antt =====
-- src/examples/procon.c: two producers and a consumer that chooses between them fairly. What the
-- consumer prints is not modelled.
use microcsp.Base.{ℕ, ◌+◌, ◌==◌, if◌then◌else◌, pos}
use microcsp.Machine.{Ptr, Cmd, ◌>>=◌, ◌>>◌, get, modify, when, undefined}
use microcsp.Hardware.{write_int}
use microcsp.Channel.{
  init_channel, chan_in, chan_out, activate, init_chanin_guard, init_chanout_guard,
}
use microcsp.Alt.{init_alt}
use microcsp.Sched.{initial, start, initialize, run}
use microcsp.Examples.Words.{read_int, add_int}

abbrev pub chan1 : Ptr
chan1 = 100

abbrev pub chan2 : Ptr
chan2 = 108

-- Producer: the guard at 0, `start`, `chanout` and `x` at 16, 20 and 24
abbrev pub sizeof_producer : ℕ
sizeof_producer = 28

unfoldable pub producer_rtc : Ptr → Cmd (Unit {0})
unfolding initial init_alt activate write_int init_chanout_guard add_int
producer_rtc local = do
  m ← get
  let x = local + 24
  if initial m
      then (do
        modify (init_alt local 1)
        modify (activate local)
        modify (write_int x (read_int m (local + 16)))
        modify (init_chanout_guard local (read_int m (local + 20)) x))
      else add_int x 2

-- Consumer: the guards at 0, `val` at 32
abbrev pub sizeof_consumer : ℕ
sizeof_consumer = 36

unfoldable pub consumer_rtc : Ptr → Cmd (Unit {0})
unfolding initial init_alt activate init_chanin_guard chan_in
consumer_rtc local = do
  m ← get
  let val = local + 32
  when (initial m) (do
    modify (init_alt local 2)
    modify (activate local)
    modify (init_chanin_guard local (chan_in chan1) val 4)
    modify (activate (local + 1))
    modify (init_chanin_guard (local + 1) (chan_in chan2) val 4))

-- the functions by the names under which `main` starts them
unfoldable pub procon_rtc : ℕ → Ptr → Cmd (Unit {0})
unfolding producer_rtc consumer_rtc
procon_rtc name local =
    if name == 1 then producer_rtc local else if name == 2 then consumer_rtc local else undefined

-- The three structures are at the given addresses; `block` is what `Malloc` returns.
unfoldable pub procon_main : (block producer1 producer2 consumer : Ptr) (fuel : ℕ) → Cmd (Unit {0})
unfolding initialize init_channel chan_out write_int start run procon_rtc
procon_main block producer1 producer2 consumer fuel = do
  initialize block 32768
  modify (init_channel chan1)
  modify (init_channel chan2)
  modify (write_int (producer1 + 16) 1)
  modify (write_int (producer1 + 20) (chan_out chan1))
  start 1 producer1 sizeof_producer (pos 1)
  modify (write_int (producer2 + 16) 2)
  modify (write_int (producer2 + 20) (chan_out chan2))
  start 1 producer2 sizeof_producer (pos 1)
  start 2 consumer sizeof_consumer (pos 1)
  run procon_rtc 1 fuel
