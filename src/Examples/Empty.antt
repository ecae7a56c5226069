-- ===== src/Examples/Empty.antt =====
-- src/examples/empty.c and empty2.c: processes that only print, which is not modelled.
use microcsp.Base.{ℕ, pos}
use microcsp.Machine.{Ptr, Cmd, ◌>>◌, pure, modify}
use microcsp.Sched.{terminate, start, initialize, run}

-- empty.c: the process terminates in its first run. A structure without members has no bytes.
unfoldable pub prints_once_rtc : Ptr → Cmd (Unit {0})
unfolding terminate
prints_once_rtc local = modify terminate

unfoldable pub empty_main : (block local : Ptr) (fuel : ℕ) → Cmd (Unit {0})
unfolding initialize start run prints_once_rtc
empty_main block local fuel = do
  initialize block 32768
  start 1 local 0 (pos 1)
  run (λ name. prints_once_rtc) 1 fuel

-- empty2.c: two processes that do not terminate
unfoldable pub prints_rtc : Ptr → Cmd (Unit {0})
prints_rtc local = pure tt

unfoldable pub empty2_main : (block local1 local2 : Ptr) (fuel : ℕ) → Cmd (Unit {0})
unfolding initialize start run prints_rtc
empty2_main block local1 local2 fuel = do
  initialize block 32768
  start 1 local1 0 (pos 1)
  start 2 local2 0 (pos 2)
  run (λ name. prints_rtc) 1 fuel
