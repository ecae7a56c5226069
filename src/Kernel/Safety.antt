-- ===== src/Kernel/Safety.antt =====
-- What the kernel's invariant promises of the states that a program reaches.
use microcsp.Base.{
  ℤ, leb_ℤ, ◌∷◌, [], sym, ap, ◌∙◌, ◌==◌, ==_iff, Bool-cases, has-append, false, ℕ, ◌+◌, ◌≤◌, ◌<◌,
  ◌≡◌, ◌⊎◌, inl, inr, true, none, some, arith, has, pos,
}
use microcsp.Machine.{Ptr, null, Machine, ok, fault}
use microcsp.Memory.Arena.{block_length}
use microcsp.Memory.Release.{live_apart}
use microcsp.Ready.{levels}
use microcsp.Sched.{state_of, pri_of, choose}
use microcsp.Sched.Select.{choose-cases, choose-taken}
use microcsp.Ready.Queues.{Queues}
use microcsp.Kernel.Processes.{appended}
use microcsp.Kernel.{View, IsKernel, is_held, is_runnable}
use microcsp.Kernel.Reach.{
  Reach, Step, initialized, next, chooses, starts, readies, changes, ends, others, dequeued,
  Reach-IsKernel,
}

-- Whether a step is the choice of the idle process, at the given address.
abbrev pub ChoosesIdle :
    Ptr → {v : View} {m : Machine} {w : View} {n : Machine} → Step v m w n → Type 0
ChoosesIdle idle (chooses base p e) = p ≡ idle
ChoosesIdle idle (starts rtc local_struct local_size pri lo hi fits index give e) = ⊥
ChoosesIdle idle (readies p other held level out e) = ⊥
ChoosesIdle idle (changes p s out) = ⊥
ChoosesIdle idle (ends rtc fuel p over held out e) = ⊥
ChoosesIdle idle (others same) = ⊥

-- Whether one of the steps was the choice of the idle process, whose function does not return.
abbrev pub Idled : {block memlen : ℕ} {v : View} {m : Machine} → Reach block memlen v m → Type 0
Idled (initialized m ne room fits mask clear inits) = ⊥
Idled {block} (next r s) = ChoosesIdle block s ⊎ Idled r

appended-stays : (qs : Queues) (l p a : ℕ) → has a (qs 0) ≡ true → has a (appended qs l p 0) ≡ true
appended-stays qs l p a h = elim (Bool-cases (l == 0)) [
  | inl at ↦ rw at (rw ((==_iff l 0).0 at) (ground (arith, has-append a (qs 0) (p ∷ []), h)))
  | inr other ↦ rw other h
]

Step-idle :
    {base size : ℕ} {v : View} {m : Machine} {w : View} {n : Machine} (block : Ptr)
    → IsKernel base size v m
    → (s : Step v m w n) → has block (v.queues 0) ≡ true
    → ChoosesIdle block s ⊎ (has block (w.queues 0) ≡ true)
Step-idle {v = v} {m} block k (chooses base p {n} e) queued =
    choose-taken m v.queues k.ready
      (λ q o. (q ≡ block) ⊎ (has block ((dequeued v (pri_of m q)).queues 0) ≡ true)) base p n e
      (λ l q rest lt list.
        let pri : pri_of m q ≡ l = k.ready.pri l q lt (rw list (ground arith)) in
        elim (Bool-cases (l == 0)) [
          | inr other ↦ inr (rw (pri, other) queued)
          | inl at ↦ elim (Bool-cases (q == block)) [
            | inl here ↦ inl ((==_iff q block).0 here)
            | inr there ↦
                let list' : v.queues 0 ≡ q ∷ rest = ap v.queues (sym ((==_iff l 0).0 at)) ∙ list in
                let later : has block (q ∷ rest) ≡ true = rw list' at queued in
                inr (rw (pri, at, list) (ground (arith, later)))
          ]
        ])
Step-idle {v = v} block k (starts rtc local_struct local_size pri {i} {a} lo hi fits index give e)
      queued =
    inr (appended-stays v.queues pri a block queued)
Step-idle {v = v} {m} block k (readies p other held level out e) queued =
    inr (appended-stays v.queues (pri_of m p) p block queued)
Step-idle block k (changes p s out) queued = inr queued
Step-idle block k (ends rtc fuel p over held out e) queued = inr queued
Step-idle block k (others same) queued = inr queued

-- The idle process stands in the lowest queue until it is chosen.
Reach-idle :
    {block memlen : ℕ} {v : View} {m : Machine} (r : Reach block memlen v m)
    → (has block (v.queues 0) ≡ true) ⊎ Idled r
Reach-idle (initialized m ne room fits mask clear inits) = inl (ground arith)
Reach-idle {block} (next r s) = elim (Reach-idle r) [
  | inr ran ↦ inr (inr ran)
  | inl queued ↦ elim (Step-idle block (Reach-IsKernel r) s queued) [
    | inl chosen ↦ inr (inl chosen)
    | inr left ↦ inl left
  ]
]

module _ {block memlen : ℕ} {v : View} {m : Machine} (r : Reach block memlen v m) where
  -- In a state that the kernel's steps lead to, which ready, change and end only processes that
  -- stand in no queue, the scheduler, with no process at hand, returns with nothing changed, since
  -- no process is ready above its base priority; or it chooses a process above that priority that
  -- is new or ready, whose block is live. It dereferences NULL at most where its base lies below
  -- all priorities, as that of the outermost scheduler does, and only after it has chosen the idle
  -- process, from which it does not return.
  pub Reach-choose :
      (base : ℤ)
      → ((leb_ℤ (pos 0) base ≡ true) × (choose base null m ≡ ok none m))
        ⊎ ((leb_ℤ (pos 0) base ≡ false) × (choose base null m ≡ fault) × Idled r)
        ⊎ ((p : Ptr) × (n : Machine) × (choose base null m ≡ ok (some p) n)
            × (leb_ℤ (pos (pri_of m p)) base ≡ false)
            × (is_runnable (state_of m p) ≡ true)
            × (is_held v m p ≡ true))
  Reach-choose base =
      let k = Reach-IsKernel r in
      elim (choose-cases m v.queues k.ready base) [
        | inl (nothing, empty) ↦ elim (Bool-cases (leb_ℤ (pos 0) base)) [
          | inl least ↦ inl (least, rw least at nothing)
          | inr below ↦ elim (Reach-idle r) [
            | inl queued ↦
                let none_there : v.queues 0 ≡ [] = empty 0 below (omega arith) in
                absurd (ground (arith, rw none_there at queued))
            | inr ran ↦ inr (inl (below, rw below at nothing, ran))
          ]
        ]
        | inr (l, p, rest, above, lt, e, _, takes) ↦
            let queued : has p (v.queues l) ≡ true = rw e (ground arith) in
            inr (
              inr (
                p,
                _,
                takes,
                rw (k.ready.pri l p lt queued) above,
                k.runnable l p lt queued,
                k.held l p lt queued,
              ))
      ]

  -- In a state that the kernel's steps lead to, which ready, change and end only processes that
  -- stand in no queue, any two processes in the ready queues are one and the same, or their blocks
  -- do not overlap; and each block lies in the memory that `initialize` was given.
  pub Reach-queued_apart :
      (l j : ℕ) (p q : Ptr)
      → l < levels
      → j < levels
      → has p (v.queues l) ≡ true
      → has q (v.queues j) ≡ true
      → let size = λ (a : Ptr). block_length (m.process a).index in
        ((p ≡ q) ⊎ (p + size p ≤ q) ⊎ (q + size q ≤ p))
        × (block ≤ p)
        × (p + size p ≤ block + memlen)
  Reach-queued_apart l j p q llt jlt hp hq =
      let k = Reach-IsKernel r in
      let (apart, lo, hi) =
        live_apart k.arena (m.process p).index (m.process q).index p q (k.held l p llt hp)
          (k.held j q jlt hq) in
      (elim apart [ inl e ↦ inl e.1 | inr o ↦ inr o ], lo, hi)
