-- ===== src/Ready.antt =====
-- The ready queues of src/sched.c: one per priority level, linked through the `next` words of the
-- process records, with a bit set of the levels that have a process.
pub mod Bits
pub mod Highest
pub mod Again
pub mod Queues
use Prim.Native.Nat.{bit_and, bit_or}
use microcsp.Base.{ℕ, ◌-◌, Bool, not, List, [], ◌∷◌, ◌==◌, if◌then◌else◌, update, get_or}
use microcsp.Machine.{Ptr, null, Machine, ReadyQ}

abbrev pub pri_min : ℕ
pri_min = 0

abbrev pub pri_max : ℕ
pri_max = 7

-- number of priority levels
abbrev pub levels : ℕ
levels = 8

-- priority-to-mask translation table
abbrev pub mask : List ℕ
mask = 1 ∷ 2 ∷ 4 ∷ 8 ∷ 16 ∷ 32 ∷ 64 ∷ 128 ∷ []

-- `ready & bits`, as a condition
abbrev pub any : ℕ → ℕ → Bool
any ready bits = not (bit_and ready bits == 0)

-- `priority_mask |= mask[pri]` and `priority_mask &= ~mask[pri]`, on eight bits
abbrev pub set_level : ℕ → ℕ → ℕ
set_level ready pri = bit_or ready (get_or mask pri 0)

abbrev pub clear_level : ℕ → ℕ → ℕ
clear_level ready pri = bit_and ready (255 - get_or mask pri 0)

-- The body of `highest_ready`, on the value of `priority_mask`.
unfoldable pub highest_ready : ℕ → ℕ
highest_ready ready =
    if any ready 0b11110000
    then if any ready 0b11000000
      then if any ready 0b10000000 then 7 else 6
      else if any ready 0b00100000
      then 5
      else 4
    else if any ready 0b00001100
    then if any ready 0b00001000 then 3 else 2
    else if any ready 0b00000010
    then 1
    else 0

-- The new descriptor of a level and the new mask.
unfoldable pub set_queue : ℕ → ReadyQ → ℕ → Machine → Machine
set_queue pri queue bits m = record m { ready_q = update m.ready_q pri queue; priority_mask = bits }

unfoldable pub take : ℕ → Machine → Ptr × Machine
unfolding set_queue
take pri m =
    let queue = m.ready_q pri in
    let rest = m.next queue.head in
    let tail = if rest == null then null else queue.tail in
    let bits = if rest == null then clear_level m.priority_mask pri else m.priority_mask in
    if queue.head == null
    then (queue.head, m)
    else (queue.head, set_queue pri (record { head = rest; tail = tail }) bits m)

-- Links the process behind the last one, if there is one.
unfoldable pub link_last : ReadyQ → Ptr → (Ptr → Ptr) → Ptr → Ptr
link_last queue proc next =
    update (if queue.tail == null then next else update next queue.tail proc) proc null

unfoldable pub append : Ptr → Machine → Machine
unfolding set_queue link_last
append proc m =
    let pri = (m.process proc).pri in
    let queue = m.ready_q pri in
    let head = if queue.head == null then proc else queue.head in
    let bits = if queue.head == null then set_level m.priority_mask pri else m.priority_mask in
    set_queue pri (record { head = head; tail = proc }) bits
      (record m { next = link_last queue proc m.next })
