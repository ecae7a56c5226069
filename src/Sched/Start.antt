-- ===== src/Sched/Start.antt =====
-- `start` of src/sched.c: the new process in its block and in its ready queue.
use microcsp.Base.{
  ℕ, ◌<◌, ◌≡◌, refl, sym, ap, subst, ◌∙◌, inl, inr, false, arith, leb, ◌==◌, ==_iff, has,
  Bool-cases, get_or,
}
use microcsp.Machine.{
  Ptr, null, proc_initial, Machine, Outcome, ok, exit, exit_ne_ok, idles, fault, out_of_fuel,
}
use microcsp.Machine.Chain.{Chain-update}
use microcsp.Hardware.{memcpy, enable_interrupts, disable_interrupts}
use microcsp.Memory.{procmemlen, allocate_mem, unlink_first}
use microcsp.Memory.Reuse.{allocate_mem-listed, allocate_mem-cut, allocate_mem-exit}
use microcsp.Ready.{levels}
use microcsp.Ready.Queues.{Queues, IsReady}
use microcsp.Alt.{set_process}
use microcsp.Sched.{copy_locals, init_process}

-- What `allocate_mem` leaves alone, of what `start` relies on.
pub record SameReady (m n : Machine) : Type 0 where
  next : n.next ≡ m.next
  pub process : n.process ≡ m.process
  ready_q : n.ready_q ≡ m.ready_q
  priority_mask : n.priority_mask ≡ m.priority_mask
  bytes : n.bytes ≡ m.bytes
  proc_offset : n.proc_offset ≡ m.proc_offset

state_or : {A : Type 0} → Machine → Outcome A → Machine
state_or d (ok a m) = m
state_or d (exit e) = d
state_or d (idles m) = d
state_or d fault = d
state_or d out_of_fuel = d

SameReady-state :
    (m n n' : Machine) (a a' : Ptr) → SameReady m n' → ok a' n' ≡ ok a n → SameReady m n
unfolding state_or
SameReady-state m n n' a a' same e = subst (SameReady m) (ap (state_or m) e) same

pub allocate_mem-SameReady :
    (i : ℕ) (a : Ptr) (m n : Machine) → allocate_mem i m ≡ ok a n → SameReady m n
unfolding enable_interrupts disable_interrupts unlink_first
allocate_mem-SameReady i a m n e = elim (Bool-cases (m.procmemlist i == null)) [
  | inr listed ↦
      SameReady-state m n _ a _
        (record {
          next = refl;
          process = refl;
          ready_q = refl;
          priority_mask = refl;
          bytes = refl;
          proc_offset = refl;
        })
        (sym (allocate_mem-listed i m (ground arith)) ∙ e)
  | inl empty ↦ elim (Bool-cases (leb (get_or procmemlen i 0) m.taillen)) [
    | inl room ↦
        SameReady-state m n _ a _
          (record {
            next = refl;
            process = refl;
            ready_q = refl;
            priority_mask = refl;
            bytes = refl;
            proc_offset = refl;
          })
          (sym (allocate_mem-cut i m (ground arith) (ground arith)) ∙ e)
    | inr full ↦ absurd (exit_ne_ok (sym (allocate_mem-exit i m (ground arith) (ground arith)) ∙ e))
  ]
]

pub SameReady-IsReady : (m n : Machine) (qs : Queues) → SameReady m n → IsReady m qs → IsReady n qs
SameReady-IsReady m n qs same v = record {
  queues = rw (same.next, same.ready_q) v.queues;
  pri = rw same.process v.pri;
  mask_range = rw same.priority_mask v.mask_range;
  bits = rw same.priority_mask v.bits;
}

pub init_process-IsReady :
    (a rtc k pri : ℕ) (m : Machine) (qs : Queues)
    → IsReady m qs
    → ((l : ℕ) → l < levels → has a (qs l) ≡ false)
    → IsReady (init_process a rtc k pri m) qs
unfolding init_process set_process
init_process-IsReady a rtc k pri m qs v out = record {
  queues = λ l lt.
      let q = v.queues l lt in
      record {
        chain = Chain-update m.next a null _ (qs l) (out l lt) q.chain;
        last = q.last;
        distinct = q.distinct;
      };
  pri = λ l b lt h. elim (Bool-cases (a == b)) [
    | inl same ↦ absurd (ground (arith, ap (λ c. has c (qs l)) ((==_iff a b).0 same), out l lt))
    | inr other ↦ rw other (v.pri l b lt h)
  ];
  mask_range = v.mask_range;
  bits = v.bits;
}

pub copy_locals-IsReady :
    (dest src len : ℕ) (m : Machine) (qs : Queues)
    → IsReady m qs
    → IsReady (copy_locals dest src len m) qs
unfolding copy_locals memcpy
copy_locals-IsReady dest src len m qs v = record {
  queues = v.queues;
  pri = v.pri;
  mask_range = v.mask_range;
  bits = v.bits;
}

-- The fields of the process's record.
pub init_process-fields :
    (a rtc k pri : ℕ) (m : Machine)
    → let p = (init_process a rtc k pri m).process a in
      (p.rtc ≡ rtc)
      × (p.index ≡ k)
      × (p.pri ≡ pri)
      × (p.state ≡ proc_initial)
      × (p.alt.nr_guards ≡ 0)
unfolding init_process set_process
init_process-fields a rtc k pri m =
    (ground arith, ground arith, ground arith, ground arith, ground arith)
