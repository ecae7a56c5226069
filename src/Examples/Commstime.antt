-- ===== src/Examples/Commstime.antt =====
-- src/examples/commstime.c: a number goes round Prefix, Delta and Succ, and Delta also gives it to
-- Consume. The reports that Consume prints, and the rates in them, are not modelled.
use microcsp.Base.{ℕ, ◌+◌, ◌%◌, ◌&&◌, ◌==◌, if◌then◌else◌, is_positive, pos}
use microcsp.Machine.{Ptr, Machine, Cmd, ◌>>=◌, ◌>>◌, get, modify, when, undefined}
use microcsp.Hardware.{write_int}
use microcsp.Channel.{
  init_channel, chan_in, chan_out, activate, deactivate, init_chanin_guard, init_chanout_guard,
}
use microcsp.Alt.{init_alt, selected}
use microcsp.Sched.{initial, start, initialize, run}
use microcsp.Examples.Words.{read_int, write_time, add_int, call_now, flip}

abbrev pub report_interval : ℕ
report_interval = 1_000_000

-- Prefix: `x`, `in` and `out` at 0, 4 and 8, the two guards behind them
abbrev pub sizeof_prefix : ℕ
sizeof_prefix = 44

unfoldable pub prefix_rtc : Ptr → Cmd (Unit {0})
unfolding initial init_alt init_chanin_guard init_chanout_guard activate deactivate flip
prefix_rtc local = do
  m ← get
  let guard_in = local + 12
  let guard_out = local + 13
  when (initial m) (do
    modify (init_alt guard_in 2)
    modify (init_chanin_guard guard_in (read_int m (local + 4)) local 4)
    modify (init_chanout_guard guard_out (read_int m (local + 8)) local)
    modify (activate guard_in)
    modify (deactivate guard_out))
  modify (flip guard_in)
  modify (flip guard_out)

-- Delta: `x`, `in`, `out1` and `out2` at 0, 4, 8 and 12, the three guards behind them
abbrev pub sizeof_delta : ℕ
sizeof_delta = 64

-- The branches of Delta's `switch`.
unfoldable pub delta_turn : (branch : ℕ) → Ptr → Machine → Machine
unfolding activate deactivate
delta_turn branch guards m =
    if branch == 0
    then activate (guards + 1) (deactivate guards m)
    else if branch == 1
    then activate (guards + 2) (deactivate (guards + 1) m)
    else if branch == 2
    then activate guards (deactivate (guards + 2) m)
    else m

unfoldable pub delta_rtc : Ptr → Cmd (Unit {0})
unfolding initial init_alt init_chanin_guard init_chanout_guard activate deactivate selected
    delta_turn
delta_rtc local = do
  m ← get
  let guards = local + 16
  if initial m
      then (do
        modify (init_alt guards 3)
        modify (init_chanin_guard guards (read_int m (local + 4)) local 4)
        modify (init_chanout_guard (guards + 1) (read_int m (local + 8)) local)
        modify (init_chanout_guard (guards + 2) (read_int m (local + 12)) local)
        modify (activate guards)
        modify (deactivate (guards + 1))
        modify (deactivate (guards + 2)))
      else modify (λ n. delta_turn (selected n) guards n)

-- Succ is laid out as Prefix.
abbrev pub sizeof_succ : ℕ
sizeof_succ = 44

unfoldable pub succ_rtc : Ptr → Cmd (Unit {0})
unfolding initial init_alt init_chanin_guard init_chanout_guard activate deactivate flip add_int
succ_rtc local = do
  m ← get
  let guard_in = local + 12
  let guard_out = local + 13
  when (initial m) (do
    modify (init_alt guard_in 2)
    modify (init_chanin_guard guard_in (read_int m (local + 4)) local 4)
    modify (init_chanout_guard guard_out (read_int m (local + 8)) local)
    modify (deactivate guard_in)
    modify (activate guard_out))
  add_int local 1
  modify (flip guard_in)
  modify (flip guard_out)

-- Consume: `t0`, `x` and `in` at 0, 8 and 12, the guard behind them
abbrev pub sizeof_consume : ℕ
sizeof_consume = 32

unfoldable pub consume_rtc : Ptr → Cmd (Unit {0})
unfolding initial init_alt init_chanin_guard activate call_now write_time
consume_rtc local = do
  m ← get
  let guard = local + 16
  let x = read_int m (local + 8)
  if initial m
      then (do
        modify (init_alt guard 1)
        modify (init_chanin_guard guard (read_int m (local + 12)) (local + 8) 4)
        modify (activate guard)
        t ← call_now
        modify (write_time local t))
      else when (x % report_interval == 0 && is_positive x)
          (do call_now; t ← call_now; modify (write_time local t))

-- the functions by the names under which `main` starts them
unfoldable pub commstime_rtc : ℕ → Ptr → Cmd (Unit {0})
unfolding prefix_rtc delta_rtc succ_rtc consume_rtc
commstime_rtc name local =
    if name == 1
    then prefix_rtc local
    else if name == 2
    then delta_rtc local
    else if name == 3
    then succ_rtc local
    else if name == 4
    then consume_rtc local
    else undefined

-- The channels and the four structures are at the given addresses; `block` is what `Malloc`
-- returns.
unfoldable pub commstime_main :
    (block a b c d prefix delta succ_ consume : Ptr) (fuel : ℕ) → Cmd (Unit {0})
unfolding initialize init_channel chan_in chan_out write_int start run commstime_rtc
commstime_main block a b c d prefix delta succ_ consume fuel = do
  initialize block 1024
  modify (init_channel a)
  modify (init_channel b)
  modify (init_channel c)
  modify (init_channel d)
  modify (write_int (prefix + 4) (chan_in d))
  modify (write_int (prefix + 8) (chan_out a))
  modify (write_int (delta + 4) (chan_in a))
  modify (write_int (delta + 8) (chan_out b))
  modify (write_int (delta + 12) (chan_out c))
  modify (write_int (succ_ + 4) (chan_in b))
  modify (write_int (succ_ + 8) (chan_out d))
  modify (write_int (consume + 12) (chan_in c))
  start 1 prefix sizeof_prefix (pos 1)
  start 2 delta sizeof_delta (pos 1)
  start 3 succ_ sizeof_succ (pos 1)
  start 4 consume sizeof_consume (pos 1)
  run commstime_rtc 1 fuel
