-- ===== src/Examples/Rings/Element.antt =====
-- The element of src/examples/ring.c, ring3.c and mtring.c: it passes tokens on, counts those that
-- are not zero, and ends behind a zero.
use microcsp.Base.{ℕ, ◌+◌, ◌==◌, if◌then◌else◌, is_positive}
use microcsp.Machine.{Ptr, Cmd, ◌>>=◌, ◌>>◌, get, modify, when}
use microcsp.Alt.{selected}
use microcsp.Sched.{initial, terminate}
use microcsp.Examples.Words.{read_int, add_int}
use microcsp.Examples.Rings.{to_input, to_output, init_guards}

-- A turn, by the branch that was selected.
unfoldable pub element_turn : (branch : ℕ) → Ptr → Cmd (Unit {0})
unfolding to_input to_output add_int terminate
element_turn branch local = do
  m ← get
  let token = local + 40
  if branch == 0
      then (do when (is_positive (read_int m token)) (add_int token 1); modify (to_output local))
      else when (branch == 1)
          (do when (read_int m token == 0) (modify terminate); modify (to_input local))

unfoldable pub element_rtc : Ptr → Cmd (Unit {0})
unfolding initial init_guards to_input selected element_turn
element_rtc local = do
  m ← get
  if initial m
      then (do
        modify (init_guards local (local + 32) (local + 36) (local + 40))
        modify (to_input local))
      else element_turn (selected m) local
