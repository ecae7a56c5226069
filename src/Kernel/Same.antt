-- ===== src/Kernel/Same.antt =====
-- What the rest of the program leaves of the kernel's shared memory.
use microcsp.Base.{ℕ, ◌≡◌, refl, ap, ◌∙◌, arith, Bool, true, false, if◌then◌else◌}
use microcsp.Machine.{
  Process, ReadyQ, Ptr, Machine, Cmd, Outcome, ok, exit, idles, fault, out_of_fuel, Error, and_then,
  ok_unique,
}
use microcsp.Memory.Arena.{is_live}
use microcsp.Sched.{state_of, pri_of}
use microcsp.Kernel.{View, IsKernel, is_runnable}

-- Two states with the same allocator, ready queues, links and processes, but for what belongs to a
-- process's ALT.
pub record SameKernel (m n : Machine) : Type 0 where
  pub procmemlist : n.procmemlist ≡ m.procmemlist
  pub tail : n.tail ≡ m.tail
  pub taillen : n.taillen ≡ m.taillen
  pub next : n.next ≡ m.next
  pub index : (a : Ptr) → (n.process a).index ≡ (m.process a).index
  pub pri : (a : Ptr) → pri_of n a ≡ pri_of m a
  pub state : (a : Ptr) → state_of n a ≡ state_of m a
  pub ready_q : n.ready_q ≡ m.ready_q
  pub priority_mask : n.priority_mask ≡ m.priority_mask

pub SameKernel-IsKernel :
    {base size : ℕ} {v : View} (m n : Machine)
    → SameKernel m n
    → IsKernel base size v m
    → IsKernel base size v n
SameKernel-IsKernel {v = v} m n same k = record {
  arena = record {
    ne_null = k.arena.ne_null;
    blocks = rw same.tail k.arena.blocks;
    total = rw (same.tail, same.taillen) k.arena.total;
    lists = rw (same.next, same.procmemlist) k.arena.lists;
    distinct = k.arena.distinct;
    owned = k.arena.owned;
  };
  ready = record {
    queues = rw (same.next, same.ready_q) k.ready.queues;
    pri = λ l a lt h. same.pri a ∙ k.ready.pri l a lt h;
    mask_range = rw same.priority_mask k.ready.mask_range;
    bits = rw same.priority_mask k.ready.bits;
  };
  held = λ l a lt h. ap (λ i. is_live v.carved v.free i a) (same.index a) ∙ k.held l a lt h;
  runnable = λ l a lt h. ap is_runnable (same.state a) ∙ k.runnable l a lt h;
}

-- The shared memory, with the whole processes.
abbrev pub shared : Machine → (ℕ → Ptr) × Ptr × ℕ × (Ptr → Ptr) × (Ptr → Process) × (ℕ → ReadyQ) × ℕ
shared m = (m.procmemlist, m.tail, m.taillen, m.next, m.process, m.ready_q, m.priority_mask)

pub shared-SameKernel : (m n : Machine) → shared n ≡ shared m → SameKernel m n
shared-SameKernel m n e = record {
  procmemlist = ap (λ t. t.0) e;
  tail = ap (λ t. t.1) e;
  taillen = ap (λ t. t.2) e;
  next = ap (λ t. t.3) e;
  index = λ a. ap (λ t. (t.4 a).index) e;
  pri = λ a. ap (λ t. (t.4 a).pri) e;
  state = λ a. ap (λ t. (t.4 a).state) e;
  ready_q = ap (λ t. t.5) e;
  priority_mask = ap (λ t. t.6) e;
}

pub SameKernel-refl : (m : Machine) → SameKernel m m
SameKernel-refl m = shared-SameKernel m m refl

pub SameKernel-trans : {a b c : Machine} → SameKernel a b → SameKernel b c → SameKernel a c
SameKernel-trans p q = record {
  procmemlist = q.procmemlist ∙ p.procmemlist;
  tail = q.tail ∙ p.tail;
  taillen = q.taillen ∙ p.taillen;
  next = q.next ∙ p.next;
  index = λ a. q.index a ∙ p.index a;
  pri = λ a. q.pri a ∙ p.pri a;
  state = λ a. q.state a ∙ p.state a;
  ready_q = q.ready_q ∙ p.ready_q;
  priority_mask = q.priority_mask ∙ p.priority_mask;
}

pub SameKernel-if :
    (b : Bool) {m n o : Machine}
    → SameKernel m n
    → SameKernel m o
    → SameKernel m (if b then n else o)
SameKernel-if true p q = p
SameKernel-if false p q = q

-- The outcome of a command that, where it returns, leaves the kernel's shared memory.
pub data Leaves {ℓ} {A : Type ℓ} (m : Machine) : Outcome A → Type ℓ where
  leaves : {a : A} {n : Machine} → SameKernel m n → Leaves m (ok a n)
  leaves_exit : {e : Error} → Leaves m (exit e)
  leaves_idle : {n : Machine} → Leaves m (idles n)
  leaves_fault : Leaves m fault
  leaves_fuel : Leaves m out_of_fuel

pub Leaves-trans {ℓ} :
    {A : Type ℓ} {m n : Machine} {r : Outcome A} → SameKernel m n → Leaves n r → Leaves m r
Leaves-trans same (leaves q) = leaves (SameKernel-trans same q)
Leaves-trans same leaves_exit = leaves_exit
Leaves-trans same leaves_idle = leaves_idle
Leaves-trans same leaves_fault = leaves_fault
Leaves-trans same leaves_fuel = leaves_fuel

pub Leaves-bind {ℓ κ} :
    {A : Type ℓ} {B : Type κ} {m : Machine} {r : Outcome A} {k : A → Cmd B}
    → Leaves m r
    → ((a : A) (n : Machine) → Leaves n (k a n))
    → Leaves m (and_then r k)
Leaves-bind (leaves q) next = Leaves-trans q (next _ _)
Leaves-bind leaves_exit next = leaves_exit
Leaves-bind leaves_idle next = leaves_idle
Leaves-bind leaves_fault next = leaves_fault
Leaves-bind leaves_fuel next = leaves_fuel

pub Leaves-if {ℓ} :
    {A : Type ℓ} (b : Bool) {m : Machine} {r s : Outcome A}
    → Leaves m r
    → Leaves m s
    → Leaves m (if b then r else s)
Leaves-if true p q = p
Leaves-if false p q = q

pub Leaves-if_cmd {ℓ} :
    {A : Type ℓ} (b : Bool) {m : Machine} (c d : Cmd A)
    → Leaves m (c m)
    → Leaves m (d m)
    → Leaves m ((if b then c else d) m)
Leaves-if_cmd true c d p q = p
Leaves-if_cmd false c d p q = q

-- Where it returns, so it does.
pub Leaves-ok {ℓ} :
    {A : Type ℓ} {m n : Machine} {r : Outcome A} {a : A} → Leaves m r → r ≡ ok a n → SameKernel m n
Leaves-ok {m = m} (leaves q) e = ok_unique (λ _ o. SameKernel m o) refl e q
Leaves-ok leaves_exit e = absurd (ground (arith, e))
Leaves-ok leaves_idle e = absurd (ground (arith, e))
Leaves-ok leaves_fault e = absurd (ground (arith, e))
Leaves-ok leaves_fuel e = absurd (ground (arith, e))
