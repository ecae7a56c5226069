-- ===== src/Alt/Senders.antt =====
-- The senders that wait at the channel inputs of an alternation of src/sched.c.
use microcsp.Base.{ℕ, ◌+◌, ◌%◌, ◌≡◌, refl, ap, ◌∙◌, Bool, true, false, ◌==◌, if◌then◌else◌}
use microcsp.Machine.{
  Ptr, null, Machine, Guard, GuardKind, guard_chanin, guard_chanout, guard_skip, guard_timeout,
  guard_interrupt,
}
use microcsp.Hardware.{disable_interrupts}
use microcsp.Alt.{guard_at}

-- The process that waits in a channel, unless it is the current one itself.
abbrev pub waiter : Machine → Ptr → Ptr
waiter m c = let w = (m.channel c).waiting in if w == m.current then null else w

abbrev pub channel_of : GuardKind → Ptr
channel_of (guard_chanin chan dest len) = chan
channel_of (guard_chanout chan src) = chan
channel_of guard_skip = null
channel_of (guard_timeout timeout) = null
channel_of (guard_interrupt chan dest) = chan

-- The sender that a guard that is a channel input would find.
abbrev pub sender : Machine → Guard → Ptr
sender m g = if g.active then waiter m (channel_of g.kind) else null

abbrev pub is_input : GuardKind → Bool
is_input (guard_chanin chan dest len) = true
is_input (guard_chanout chan src) = false
is_input guard_skip = false
is_input (guard_timeout timeout) = false
is_input (guard_interrupt chan dest) = false

-- What enabling and disabling inputs keeps: the guards, who waits where and with which source, the
-- bytes and the processes.
pub record SameWaiters (m n : Machine) : Type 0 where
  pub guard : n.guard ≡ m.guard
  pub waiting : (c : Ptr) → waiter n c ≡ waiter m c
  pub src : (c : Ptr) → (n.channel c).src ≡ (m.channel c).src
  pub bytes : n.bytes ≡ m.bytes
  pub process : n.process ≡ m.process

pub SameWaiters-trans : {a b c : Machine} → SameWaiters a b → SameWaiters b c → SameWaiters a c
SameWaiters-trans p q = record {
  guard = q.guard ∙ p.guard;
  waiting = λ c. q.waiting c ∙ p.waiting c;
  src = λ c. q.src c ∙ p.src c;
  bytes = q.bytes ∙ p.bytes;
  process = q.process ∙ p.process;
}

pub disabled-same : (m : Machine) → SameWaiters m (disable_interrupts m)
unfolding disable_interrupts
disabled-same m = record {
  guard = refl;
  waiting = λ c. refl;
  src = λ c. refl;
  bytes = refl;
  process = refl;
}

-- The guard that the scan comes to after k others.
abbrev pub kth : Machine → (gs nr first k : ℕ) → Guard
kth m gs nr first k = guard_at m gs ((first + k) % nr)

module _ (gs nr first : ℕ) where
  -- What one guard offers stays the same.
  pub sender-same :
      (k : ℕ) {m n : Machine}
      → SameWaiters m n
      → sender n (kth n gs nr first k) ≡ sender m (kth m gs nr first k)
  sender-same k {m} {n} same =
      rw (same.guard) (ap (λ w. if (kth m gs nr first k).active then w else null) (same.waiting _))

  pub kth-input :
      (k : ℕ) {m n : Machine}
      → SameWaiters m n
      → is_input (kth n gs nr first k).kind ≡ is_input (kth m gs nr first k).kind
  kth-input k same = ap (λ g. is_input (g (gs + (first + k) % nr)).kind) same.guard
