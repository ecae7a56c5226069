-- ===== src/Examples/Rings/Many.antt =====
-- The roots of src/examples/ring3.c and mtring.c, which send many tokens round the ring and add up
-- the values that come back. The guards are at 0, `cycles`, `nrTokens`, `input`, `output`, `token`,
-- `count`, `sum` and `state` at 32, 36, 40, 44, 48, 52, 56 and 60, and in ring3.c `id` at 64.
use microcsp.Base.{ℕ, zero, suc, ◌+◌, ◌-◌, ◌*◌, ◌^◌, ◌%◌, not, ltb, ◌==◌, if◌then◌else◌, pos}
use microcsp.Machine.{
  Ptr, Machine, Cmd, ◌>>=◌, ◌>>◌, pure, get, modify, when, error, error_if, no_input_in_injecting,
  no_output_in_collecting, not_zero_token,
}
use microcsp.Hardware.{write_int}
use microcsp.Channel.{chan_in, chan_out}
use microcsp.Alt.{selected}
use microcsp.Sched.{initial, terminate, start, initialize, run}
use microcsp.Examples.Words.{
  read_byte, write_byte, read_short, write_short, read_int, add_int, call_now,
}
use microcsp.Examples.Rings.{
  to_input, to_output, init_guards, channel_at, init_channels, start_elements,
}
use microcsp.Examples.Rings.Root.{ring_rtc, connect_elements}

abbrev pub ntokens : ℕ
ntokens = 64

abbrev token_of : Ptr → Ptr
token_of local = local + 48

abbrev count_of : Ptr → Ptr
count_of local = local + 52

abbrev sum_of : Ptr → Ptr
sum_of local = local + 56

abbrev state_at : Ptr → Ptr
state_at local = local + 60

-- The states INIT, INJECTING, CYCLING, COLLECTING and FINAL are 0 to 4.
unfoldable pub trial_turn : (branch : ℕ) → Ptr → Cmd (Unit {0})
unfolding to_input to_output write_int write_byte
trial_turn branch local =
    if branch == 1
    then modify (to_input local)
    else when (branch == 0) (do
      modify (to_output local)
      modify (write_int (token_of local) 1)
      modify (write_byte (state_at local) 1)
      modify (write_int (count_of local) 0))

-- ring3.c injects the same token again, and mtring.c the next number.
unfoldable pub inject_same : (branch : ℕ) → Ptr → Cmd (Unit {0})
unfolding to_input write_int write_byte add_int
inject_same branch local =
    if branch == 1
    then (do
      add_int (count_of local) 1
      m ← get
      when (read_int m (count_of local) == read_short m (local + 36)) (do
        modify (write_byte (state_at local) 2)
        modify (write_int (count_of local) 0)
        modify (to_input local)))
    else when (branch == 0) (error no_input_in_injecting)

-- The test `++count < nrTokens` of two numbers that are not negative.
unfoldable pub inject_next : (branch : ℕ) → Ptr → Cmd (Unit {0})
unfolding to_input write_int write_byte add_int
inject_next branch local =
    if branch == 1
    then (do
      add_int (count_of local) 1
      m ← get
      if ltb (read_int m (count_of local)) (read_short m (local + 36))
          then add_int (token_of local) 1
          else (do
            modify (write_byte (state_at local) 2)
            modify (write_int (count_of local) 0)
            modify (to_input local)))
    else when (branch == 0) (error no_input_in_injecting)

-- `limit` is the number of tokens that are sent on before the root collects them.
unfoldable pub pass_turn : (limit : Machine → ℕ) (branch : ℕ) → Ptr → Cmd (Unit {0})
unfolding to_input to_output write_int write_byte add_int
pass_turn limit branch local =
    if branch == 0
    then (do add_int (token_of local) 1; modify (to_output local))
    else when (branch == 1) (do
      add_int (count_of local) 1
      m ← get
      when (read_int m (count_of local) == limit m) (do
        modify (write_byte (state_at local) 3)
        modify (write_int (sum_of local) 0)
        modify (write_int (count_of local) 0))
      modify (to_input local))

unfoldable pub collect_turn : (branch : ℕ) → Ptr → Cmd (Unit {0})
unfolding to_output write_int write_byte add_int
collect_turn branch local =
    if branch == 0
    then (do
      m ← get
      add_int (sum_of local) (read_int m (token_of local))
      add_int (count_of local) 1
      n ← get
      when (read_int n (count_of local) == read_short n (local + 36)) (do
        modify (write_int (token_of local) 0)
        modify (write_byte (state_at local) 4)
        modify (to_output local)))
    else when (branch == 1) (error no_output_in_collecting)

unfoldable pub last_turn : (report : Cmd (Unit {0})) (branch : ℕ) → Ptr → Cmd (Unit {0})
unfolding to_input terminate
last_turn report branch local =
    if branch == 1
    then modify (to_input local)
    else when (branch == 0) (do
      m ← get
      error_if (not (read_int m (token_of local) == 0)) not_zero_token
      report
      modify terminate)

unfoldable pub many_turn :
    (inject : ℕ → Ptr → Cmd (Unit {0})) (limit : Machine → ℕ) (report : Cmd (Unit {0}))
    (state branch : ℕ)
    → Ptr
    → Cmd (Unit {0})
unfolding trial_turn pass_turn collect_turn last_turn
many_turn inject limit report state branch local =
    if state == 0
    then trial_turn branch local
    else if state == 1
    then inject branch local
    else if state == 2
    then pass_turn limit branch local
    else if state == 3
    then collect_turn branch local
    else when (state == 4) (last_turn report branch local)

-- The initial run, with the token that tries the ring.
unfoldable pub init_many : (token : ℕ) → Ptr → Machine → Machine
unfolding init_guards write_byte write_int to_output
init_many token local m = to_output local (
    write_int (token_of local) token (
      write_byte (state_at local) 0
        (init_guards local (local + 40) (local + 44) (token_of local) m)))

unfoldable pub ring3_root_rtc : Ptr → Cmd (Unit {0})
unfolding initial init_many selected many_turn inject_same
ring3_root_rtc local = do
  m ← get
  if initial m
      then modify (init_many 10 local)
      else many_turn inject_same (λ n. read_int n (local + 32)) (pure tt)
          (read_byte m (state_at local)) (selected m) local

-- The product is that of fewer than 2^25 cycles.
unfoldable pub mtring_root_rtc : Ptr → Cmd (Unit {0})
unfolding initial init_many selected many_turn inject_next call_now
mtring_root_rtc local = do
  m ← get
  if initial m
      then modify (init_many 1 local)
      else many_turn inject_next (λ n. (read_int n (local + 32) * ntokens) % 2 ^ 32)
          (do call_now; pure tt) (read_byte m (state_at local)) (selected m) local

-- What the two `main`s have in common, with the sizes of the root and of an element, and the second
-- number of ring3.c that tells the processes apart.
unfoldable pub connect_root : (ring_size cycles tokens channel root : ℕ) → Machine → Machine
unfolding write_int write_short chan_in chan_out
connect_root ring_size cycles tokens channel root m = write_short (root + 36) tokens (
    write_int (root + 32) cycles (
      write_int (root + 44) (chan_out (channel_at channel 0))
        (write_int (root + 40) (chan_in (channel_at channel (ring_size - 1))) m)))

-- `element[i].id = i + 1`
unfoldable pub number_elements : (element : ℕ) → (left i : ℕ) → Machine → Machine
unfolding write_int
number_elements element zero i m = m
number_elements element (suc left) i m =
    number_elements element left (i + 1) (write_int (element + 48 * i + 44) (i + 1) m)

unfoldable pub ring3_main :
    (ring_size cycles tokens block channel element root : ℕ) (fuel : ℕ) → Cmd (Unit {0})
unfolding initialize init_channels connect_elements number_elements connect_root write_int start
    start_elements run ring_rtc ring3_root_rtc
ring3_main ring_size cycles tokens block channel element root fuel = do
  initialize block 20520
  modify (init_channels channel ring_size 0)
  modify (connect_elements channel element 48 (ring_size - 1) 0)
  modify (number_elements element (ring_size - 1) 0)
  modify (connect_root ring_size cycles tokens channel root)
  modify (write_int (root + 64) 0)
  start 1 root 68 (pos 1)
  start_elements 2 element 48 (ring_size - 1) 0
  run (ring_rtc ring3_root_rtc) 1 fuel

unfoldable pub mtring_main :
    (ring_size cycles tokens block channel element root : ℕ) (fuel : ℕ) → Cmd (Unit {0})
unfolding initialize init_channels connect_elements connect_root call_now start start_elements run
    ring_rtc mtring_root_rtc
mtring_main ring_size cycles tokens block channel element root fuel = do
  initialize block 20520
  modify (init_channels channel ring_size 0)
  modify (connect_elements channel element 44 (ring_size - 1) 0)
  modify (connect_root ring_size cycles tokens channel root)
  call_now
  start 1 root 64 (pos 1)
  start_elements 2 element 44 (ring_size - 1) 0
  run (ring_rtc mtring_root_rtc) 1 fuel
