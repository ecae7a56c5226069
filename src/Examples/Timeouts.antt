-- ===== src/Examples/Timeouts.antt =====
-- src/examples/timeout.c and timeout2.c: processes that wait for one timeout after another. What
-- they print is not modelled; the calls of `Now` for it are.
use microcsp.Base.{ℕ, ◌+◌, ◌*◌, ◌==◌, if◌then◌else◌, add64, pos}
use microcsp.Machine.{Ptr, Cmd, ◌>>=◌, ◌>>◌, pure, get, modify, when, undefined}
use microcsp.Channel.{activate, init_timeout_guard}
use microcsp.Alt.{init_alt}
use microcsp.Sched.{initial, start, initialize, run}
use microcsp.Examples.Words.{call_now}

abbrev pub one_sec : ℕ
one_sec = 1_000_000_000

-- The local variables of all these processes: the guard at 0, the timeout at 16
abbrev pub sizeof_local : ℕ
sizeof_local = 32

-- A timeout for a time from now.
unfoldable pub wait_for : (local delay : ℕ) → Cmd (Unit {0})
unfolding call_now init_timeout_guard
wait_for local delay = do
  t ← call_now
  modify (init_timeout_guard local (local + 16) (add64 t delay))

-- timeout.c
unfoldable pub ticker_rtc : Ptr → Cmd (Unit {0})
unfolding initial init_alt activate call_now wait_for
ticker_rtc local = do
  m ← get
  when (initial m) (do modify (init_alt local 1); modify (activate local))
  call_now
  wait_for local one_sec

unfoldable pub ticker_main : (block local : Ptr) (fuel : ℕ) → Cmd (Unit {0})
unfolding initialize start run ticker_rtc
ticker_main block local fuel = do
  initialize block 32768
  start 1 local sizeof_local (pos 1)
  run (λ name. ticker_rtc) 1 fuel

-- timeout2.c
unfoldable pub first_rtc : Ptr → Cmd (Unit {0})
unfolding initial init_alt activate call_now wait_for
first_rtc local = do
  m ← get
  if initial m
      then (do modify (init_alt local 1); modify (activate local); wait_for local one_sec)
      else wait_for local (2 * one_sec)
  call_now
  pure tt

unfoldable pub second_rtc : Ptr → Cmd (Unit {0})
unfolding initial init_alt activate call_now wait_for
second_rtc local = do
  m ← get
  if initial m
      then (do modify (init_alt local 1); modify (activate local); wait_for local (2 * one_sec))
      else wait_for local (2 * one_sec)
  call_now
  pure tt

unfoldable pub timeouts_rtc : ℕ → Ptr → Cmd (Unit {0})
unfolding first_rtc second_rtc
timeouts_rtc name local =
    if name == 1 then first_rtc local else if name == 2 then second_rtc local else undefined

unfoldable pub timeouts_main : (block local1 local2 : Ptr) (fuel timer_fuel : ℕ) → Cmd (Unit {0})
unfolding initialize start run timeouts_rtc
timeouts_main block local1 local2 fuel timer_fuel = do
  initialize block 32768
  start 1 local1 sizeof_local (pos 1)
  start 2 local2 sizeof_local (pos 2)
  run timeouts_rtc timer_fuel fuel
