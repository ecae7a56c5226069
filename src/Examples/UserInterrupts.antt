-- ===== src/Examples/UserInterrupts.antt =====
-- src/examples/userintr.c: a process that sends two software interrupts by turns, a second apart,
-- and one that receives them. What the receiver prints is not modelled. The sender's ALT is set up
-- with two guards though its structure has one; in the model the second is a guard of its own,
-- behind it, which nobody has set.
use microcsp.Base.{ℕ, ◌+◌, ◌%◌, ◌==◌, if◌then◌else◌, pos}
use microcsp.Machine.{Ptr, Cmd, ◌>>=◌, ◌>>◌, get, modify, when, undefined}
use microcsp.Channel.{
  chan_in, activate, init_chanin_guard_for_interrupt, connect_interrupt_to_channel,
}
use microcsp.Alt.{init_alt}
use microcsp.Sched.{initial, start, initialize, run, send_software_interrupt}
use microcsp.Examples.Words.{read_byte, write_byte}
use microcsp.Examples.TwoChannels.{chan_at}
use microcsp.Examples.Timeouts.{one_sec, wait_for}

-- Proc1: the guards at 0, `intr0` and `intr1` at 32 and 36
abbrev pub sizeof_receiver : ℕ
sizeof_receiver = 40

unfoldable pub receives_rtc : Ptr → Cmd (Unit {0})
unfolding initial init_alt activate chan_in connect_interrupt_to_channel
    init_chanin_guard_for_interrupt
receives_rtc local = do
  m ← get
  when (initial m) (do
    modify (init_alt local 2)
    modify (activate local)
    modify (activate (local + 1))
    connect_interrupt_to_channel (chan_in (chan_at 0)) (pos 0)
    modify (init_chanin_guard_for_interrupt local (chan_in (chan_at 0)) (local + 32))
    connect_interrupt_to_channel (chan_in (chan_at 1)) (pos 1)
    modify (init_chanin_guard_for_interrupt (local + 1) (chan_in (chan_at 1)) (local + 36)))

-- Proc2: the guard at 0, the timeout at 16, `which` at 32
abbrev pub sizeof_sender : ℕ
sizeof_sender = 36

unfoldable pub sends_rtc : Ptr → Cmd (Unit {0})
unfolding initial init_alt activate wait_for write_byte send_software_interrupt
sends_rtc local = do
  m ← get
  let which = local + 32
  if initial m
      then (do
        modify (init_alt local 2)
        modify (activate local)
        wait_for local one_sec
        modify (write_byte which 0))
      else (do
        send_software_interrupt (pos (read_byte m which))
        modify (write_byte which ((read_byte m which + 1) % 2))
        wait_for local one_sec)

-- the functions by the names under which `main` starts them
unfoldable pub user_interrupts_rtc : ℕ → Ptr → Cmd (Unit {0})
unfolding receives_rtc sends_rtc
user_interrupts_rtc name local =
    if name == 1 then receives_rtc local else if name == 2 then sends_rtc local else undefined

-- `local1` and `local2` are at the given addresses; `block` is what `Malloc` returns.
unfoldable pub user_interrupts_main :
    (block local1 local2 : Ptr) (fuel timer_fuel : ℕ) → Cmd (Unit {0})
unfolding initialize start run user_interrupts_rtc
user_interrupts_main block local1 local2 fuel timer_fuel = do
  initialize block 32768
  start 1 local1 sizeof_receiver (pos 1)
  start 2 local2 sizeof_sender (pos 2)
  run user_interrupts_rtc timer_fuel fuel
