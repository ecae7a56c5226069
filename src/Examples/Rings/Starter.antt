-- ===== src/Examples/Rings/Starter.antt =====
-- src/examples/ring1.c and ring-x.c: one token goes round a ring, in which one element starts with
-- output.
use microcsp.Base.{ℕ, zero, suc, ◌+◌, ◌-◌, ◌*◌, ◌%◌, not, ◌&&◌, ◌==◌, if◌then◌else◌, is_positive}
use microcsp.Machine.{Ptr, Machine, Cmd, ◌>>=◌, ◌>>◌, pure, get, modify, when}
use microcsp.Hardware.{write_int}
use microcsp.Channel.{chan_in, chan_out, set_active}
use microcsp.Alt.{selected}
use microcsp.Sched.{initial, initialize, run}
use microcsp.Examples.Words.{read_byte, write_byte, read_int, add_int, call_now}
use microcsp.Examples.Rings.{
  to_input, to_output, init_guards, channel_at, init_channels, start_elements,
}

-- `start` is at 44.
abbrev pub sizeof_starter : ℕ
sizeof_starter = 48

-- How often the reports of the two programs call `Now` differs.
unfoldable pub starter_with : (report : Cmd (Unit {0})) → Ptr → Cmd (Unit {0})
unfolding initial init_guards write_int set_active selected to_output to_input add_int
starter_with report local = do
  m ← get
  let token = local + 40
  let begins = not (read_byte m (local + 44) == 0)
  if initial m
      then (do
        modify (init_guards local (local + 32) (local + 36) token)
        modify (write_int token 0)
        modify (set_active local (not begins))
        modify (set_active (local + 1) begins))
      else if selected m == 0
      then (do
        when (is_positive (read_int m token) && read_int m token % 1_000_000 == 0) report
        add_int token 1
        modify (to_output local))
      else modify (if selected m == 1 then to_input local else λ n. n)

-- ring1.c
unfoldable pub starter_rtc : Ptr → Cmd (Unit {0})
unfolding starter_with call_now
starter_rtc = starter_with (do call_now; call_now; pure tt)

-- ring-x.c
unfoldable pub starter_x_rtc : Ptr → Cmd (Unit {0})
unfolding starter_with call_now
starter_x_rtc = starter_with (do call_now; pure tt)

unfoldable pub connect : (local input output start : ℕ) → Machine → Machine
unfolding write_int write_byte chan_in chan_out
connect local input output begins m =
    write_byte (local + 44) begins
      (write_int (local + 36) (chan_out output) (write_int (local + 32) (chan_in input) m))

-- The loop that connects the elements, in ring1.c with the last element behind it.
unfoldable pub connect_starters :
    (size channel element : ℕ) → (left i : ℕ) (input : Ptr) → Machine → Machine
unfolding connect
connect_starters size channel element zero i input m =
    connect (element + sizeof_starter * i) input (channel_at channel 0) 1 m
connect_starters size channel element (suc left) i input m =
    let output = channel_at channel ((i + 1) % size) in
    connect_starters size channel element left (i + 1) output
      (connect (element + sizeof_starter * i) input output 0 m)

unfoldable pub ring1_main : (size block channel element : ℕ) (fuel : ℕ) → Cmd (Unit {0})
unfolding initialize call_now init_channels connect_starters start_elements run starter_rtc
ring1_main size block channel element fuel = do
  initialize block (70 * size + 24)
  call_now
  modify (init_channels channel size 0)
  modify (connect_starters size channel element (size - 1) 0 channel)
  start_elements 1 element sizeof_starter size 0
  run (λ name. starter_rtc) 1 fuel

unfoldable pub connect_x :
    (size channel element : ℕ) → (left i : ℕ) (input : Ptr) → Machine → Machine
unfolding connect
connect_x size channel element zero i input m = m
connect_x size channel element (suc left) i input m =
    let output = channel_at channel ((i + 1) % size) in
    connect_x size channel element left (i + 1) output
      (connect (element + sizeof_starter * i) input output 0 m)

unfoldable pub ring_x_main : (size block channel element : ℕ) (fuel : ℕ) → Cmd (Unit {0})
unfolding initialize call_now init_channels connect_x write_byte start_elements run starter_x_rtc
ring_x_main size block channel element fuel = do
  initialize block (70 * size + 24)
  modify (init_channels channel size 0)
  modify (connect_x size channel element size 0 channel)
  modify (write_byte (element + 44) 1)
  call_now
  start_elements 1 element sizeof_starter size 0
  run (λ name. starter_x_rtc) 1 fuel
