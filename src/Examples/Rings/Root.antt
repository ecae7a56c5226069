-- ===== src/Examples/Rings/Root.antt =====
-- The root of src/examples/ring.c: it sends a token round the ring to try it, then one that it
-- counts as the elements do for a number of cycles, and last a zero, at which the elements end. Its
-- guards are at 0, `cycles`, `input`, `output`, `token`, `count` and `state` at 32, 36, 40, 44, 48
-- and 52.
use microcsp.Base.{ℕ, zero, suc, ◌+◌, ◌-◌, ◌*◌, not, ◌==◌, if◌then◌else◌, pos}
use microcsp.Machine.{
  Ptr, Machine, Cmd, ◌>>=◌, ◌>>◌, get, modify, when, error, error_if, undefined,
  no_input_in_injecting, no_output_in_collecting, not_zero_token,
}
use microcsp.Hardware.{write_int}
use microcsp.Channel.{chan_in, chan_out}
use microcsp.Alt.{selected}
use microcsp.Sched.{initial, terminate, start, initialize, run}
use microcsp.Examples.Words.{read_byte, write_byte, read_int, add_int, call_now}
use microcsp.Examples.Rings.{
  to_input, to_output, init_guards, channel_at, init_channels, start_elements,
}
use microcsp.Examples.Rings.Element.{element_rtc}

abbrev pub sizeof_root : ℕ
sizeof_root = 56

abbrev pub sizeof_element : ℕ
sizeof_element = 44

abbrev token_of : Ptr → Ptr
token_of local = local + 44

abbrev count_of : Ptr → Ptr
count_of local = local + 48

abbrev state_at : Ptr → Ptr
state_at local = local + 52

-- The states of the root: INIT, CYCLING, INJECTING, COLLECTING and FINAL are 0 to 4. A turn in each
-- of them, by the branch that was selected.
unfoldable pub init_turn : (branch : ℕ) → Ptr → Cmd (Unit {0})
unfolding to_input to_output write_int write_byte
init_turn branch local =
    if branch == 1
    then modify (to_input local)
    else when (branch == 0) (do
      modify (to_output local)
      modify (write_int (token_of local) 1)
      modify (write_byte (state_at local) 2)
      modify (write_int (count_of local) 0))

unfoldable pub injecting_turn : (branch : ℕ) → Ptr → Cmd (Unit {0})
unfolding to_input write_byte
injecting_turn branch local =
    if branch == 0
    then error no_input_in_injecting
    else when (branch == 1) (do modify (write_byte (state_at local) 1); modify (to_input local))

unfoldable pub cycling_turn : (branch : ℕ) → Ptr → Cmd (Unit {0})
unfolding to_input to_output write_int write_byte add_int
cycling_turn branch local =
    if branch == 0
    then (do add_int (token_of local) 1; modify (to_output local))
    else when (branch == 1) (do
      add_int (count_of local) 1
      m ← get
      when (read_int m (count_of local) == read_int m (local + 32))
          (do modify (write_byte (state_at local) 3); modify (write_int (count_of local) 0))
      modify (to_input local))

unfoldable pub collecting_turn : (branch : ℕ) → Ptr → Cmd (Unit {0})
unfolding to_output write_int write_byte
collecting_turn branch local =
    if branch == 0
    then (do
      modify (write_byte (state_at local) 4)
      modify (write_int (token_of local) 0)
      modify (to_output local))
    else when (branch == 1) (error no_output_in_collecting)

unfoldable pub final_turn : (branch : ℕ) → Ptr → Cmd (Unit {0})
unfolding to_input call_now terminate
final_turn branch local =
    if branch == 1
    then modify (to_input local)
    else when (branch == 0) (do
      m ← get
      error_if (not (read_int m (token_of local) == 0)) not_zero_token
      call_now
      modify terminate)

unfoldable pub root_turn : (state branch : ℕ) → Ptr → Cmd (Unit {0})
unfolding init_turn injecting_turn cycling_turn collecting_turn final_turn
root_turn state branch local =
    if state == 0
    then init_turn branch local
    else if state == 1
    then cycling_turn branch local
    else if state == 2
    then injecting_turn branch local
    else if state == 3
    then collecting_turn branch local
    else when (state == 4) (final_turn branch local)

unfoldable pub root_rtc : Ptr → Cmd (Unit {0})
unfolding initial init_guards write_byte write_int to_output selected root_turn
root_rtc local = do
  m ← get
  if initial m
      then (do
        modify (init_guards local (local + 36) (local + 40) (token_of local))
        modify (write_byte (state_at local) 0)
        modify (write_int (token_of local) 1)
        modify (to_output local))
      else root_turn (read_byte m (state_at local)) (selected m) local

-- the functions by the names under which `main` starts them
unfoldable pub ring_rtc : (root : Ptr → Cmd (Unit {0})) → ℕ → Ptr → Cmd (Unit {0})
unfolding element_rtc
ring_rtc root name local =
    if name == 1 then root local else if name == 2 then element_rtc local else undefined

-- The loop that connects the elements, which are `size` bytes apart.
unfoldable pub connect_elements : (channel element size : ℕ) → (left i : ℕ) → Machine → Machine
unfolding write_int chan_in chan_out
connect_elements channel element size zero i m = m
connect_elements channel element size (suc left) i m =
    let local = element + size * i in
    connect_elements channel element size left (i + 1) (
      write_int (local + 36) (chan_out (channel_at channel (i + 1)))
        (write_int (local + 32) (chan_in (channel_at channel i)) m))

-- `ring_size` is the number of processes with the root, and at least 1.
unfoldable pub ring_main :
    (ring_size cycles block channel element root : ℕ) (fuel : ℕ) → Cmd (Unit {0})
unfolding initialize init_channels connect_elements write_int chan_in chan_out call_now start
    start_elements run ring_rtc root_rtc
ring_main ring_size cycles block channel element root fuel = do
  initialize block 20520
  modify (init_channels channel ring_size 0)
  modify (connect_elements channel element sizeof_element (ring_size - 1) 0)
  modify (write_int (root + 36) (chan_in (channel_at channel (ring_size - 1))))
  modify (write_int (root + 40) (chan_out (channel_at channel 0)))
  modify (write_int (root + 32) cycles)
  call_now
  start 1 root sizeof_root (pos 1)
  start_elements 2 element sizeof_element (ring_size - 1) 0
  run (ring_rtc root_rtc) 1 fuel
