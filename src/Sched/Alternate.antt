-- ===== src/Sched/Alternate.antt =====
-- One alternation in the scheduler's loop of src/sched.c, from enabling to the transfer.
use native.Mathlib.Nat.{mod-lt, mod-eq_of_lt}
use microcsp.Base.{ℕ, ◌+◌, ◌%◌, ◌<◌, ◌≤◌, ◌≡◌, refl, sym, ap, subst, ◌∙◌, ◌≢◌, true, arith, u8_mod}
use microcsp.Machine.{
  Ptr, null, ProcState, proc_enabling, proc_ready, proc_quiescent, Machine, Alternation, Cmd, ok,
  guard_chanin,
}
use microcsp.Hardware.{enable_interrupts}
use microcsp.Alt.{alternation, guard_at, enable_alt, disable_alt, set_alt, set_process}
use microcsp.Alt.Senders.{sender, is_input, kth, SameWaiters, sender-same}
use microcsp.Alt.Enable.{first_guard, stopped, enable_alt-stops}
use microcsp.Alt.Disable.{disable_alt-first}
use microcsp.Sched.{state_of, set_state, is_state, finish_alt, begin_alt}

-- What a change of a process's state or alternation keeps: what an alternation looks at.
record SameGuards (m n : Machine) : Type 0 where
  guard : n.guard ≡ m.guard
  sender : (gs nr first k : ℕ) → sender n (kth n gs nr first k) ≡ sender m (kth m gs nr first k)
  channel : (c : Ptr) → (n.channel c).src ≡ (m.channel c).src
  bytes : n.bytes ≡ m.bytes

SameGuards-trans : {a b c : Machine} → SameGuards a b → SameGuards b c → SameGuards a c
SameGuards-trans p q = record {
  guard = q.guard ∙ p.guard;
  sender = λ gs nr first k. q.sender gs nr first k ∙ p.sender gs nr first k;
  channel = λ c. q.channel c ∙ p.channel c;
  bytes = q.bytes ∙ p.bytes;
}

set_state-SameGuards : (p : Ptr) (s : ProcState) (m : Machine) → SameGuards m (set_state p s m)
unfolding set_state set_process
set_state-SameGuards p s m = record {
  guard = refl;
  sender = λ gs nr first k. refl;
  channel = λ c. refl;
  bytes = refl;
}

set_state-alternation :
    (p : Ptr) (s : ProcState) (m : Machine) → alternation (set_state p s m) p ≡ alternation m p
unfolding set_state set_process
set_state-alternation p s m = ground arith

set_state-state : (p : Ptr) (s : ProcState) (m : Machine) → state_of (set_state p s m) p ≡ s
unfolding set_state set_process
set_state-state p s m = ground arith

set_alt-state :
    (p : Ptr) (alt : Alternation) (m : Machine) → state_of (set_alt p alt m) p ≡ state_of m p
unfolding set_alt set_process
set_alt-state p alt m = ground arith

-- The state of the process behind `enable_alt`, when interrupts are enabled again.
readied : Ptr → Alternation → Machine → Machine
unfolding set_state enable_interrupts
readied p alt n = enable_interrupts (set_state p proc_ready (set_alt p alt n))

readied-SameGuards :
    (p : Ptr) (alt : Alternation) (m n : Machine) → SameWaiters m n → SameGuards m (readied p alt n)
unfolding readied set_state set_alt set_process enable_interrupts
readied-SameGuards p alt m n same = record {
  guard = same.guard;
  sender = λ gs nr first k. sender-same gs nr first k same;
  channel = same.src;
  bytes = same.bytes;
}

readied-process :
    (p : Ptr) (alt : Alternation) (n : Machine)
    → (alternation (readied p alt n) p ≡ alt) × (state_of (readied p alt n) p ≡ proc_ready)
unfolding readied set_state set_alt set_process enable_interrupts
readied-process p alt n = (ground arith, ground arith)

-- `enable_alt-stops` and `disable_alt-first` for an alternation that is known by an equation.
abbrev Enables : (fuel : ℕ) (p : Ptr) (m : Machine) (d : ℕ) → Alternation → Type 0
Enables fuel p m d alt =
    let kth_guard = kth m alt.guards alt.nr_guards (first_guard alt) in
    ((j : ℕ) → j < alt.nr_guards → is_input (guard_at m alt.guards j).kind ≡ true)
    → d < alt.nr_guards
    → ((e : ℕ) → e < d → sender m (kth_guard e) ≡ null)
    → sender m (kth_guard d) ≢ null
    → (n : Machine) × (enable_alt fuel p m
        ≡ ok (true, sender m (kth_guard d)) (set_alt p (stopped d alt) n))
      × SameWaiters m n

abbrev Disables :
    (fuel : ℕ) (p : Ptr) (m : Machine) (first d chan dest len : ℕ) → Alternation → Type 0
Disables fuel p m first d chan dest len alt =
    let kth_guard = kth m alt.guards alt.nr_guards first in
    alt.nr_guards < 256
    → 0 < alt.nr_guards
    → alt.index ≡ (first + alt.count) % alt.nr_guards
    → ((j : ℕ) → j < alt.nr_guards → is_input (guard_at m alt.guards j).kind ≡ true)
    → d ≤ alt.count
    → ((e : ℕ) → e < d → sender m (kth_guard e) ≡ null)
    → sender m (kth_guard d) ≢ null
    → (kth_guard d).kind ≡ guard_chanin chan dest len
    → (n : Machine) × (disable_alt fuel p m ≡ ok (sender m (kth_guard d)) n)
      × ((alternation n p).index ≡ (first + d) % alt.nr_guards)
      × ((j : ℕ) → j < len → n.bytes (dest + j) ≡ m.bytes ((m.channel chan).src + j))
      × ((n.channel chan).waiting ≡ null)

enable_known :
    (fuel : ℕ) (p : Ptr) (m : Machine) (d : ℕ) (alt : Alternation)
    → alternation m p ≡ alt
    → Enables fuel p m d alt
enable_known fuel p m d alt e = subst (Enables fuel p m d) e (enable_alt-stops fuel p m d)

disable_known :
    (fuel : ℕ) (p : Ptr) (m : Machine) (first d chan dest len : ℕ) (alt : Alternation)
    → alternation m p ≡ alt
    → Disables fuel p m first d chan dest len alt
disable_known fuel p m first d chan dest len alt e =
    subst (Disables fuel p m first d chan dest len) e
      (disable_alt-first fuel p m first d chan dest len)

module _ (rtc : ℕ → Ptr → Cmd (Unit {0})) (fuel : ℕ) where
  -- The scheduler's branch for a quiescent process whose ALT finds a sender.
  begin_alt-returns :
      (p s t : Ptr) (m n o : Machine) (alt : Alternation)
      → let m₁ = set_state p proc_enabling m in
        enable_alt fuel p m₁ ≡ ok (true, s) (set_alt p alt n)
        → state_of n p ≡ proc_enabling
        → disable_alt fuel p (readied p alt n) ≡ ok t o
        → begin_alt rtc fuel p m ≡ ok (true, t) (set_state p proc_quiescent o)
  unfolding begin_alt finish_alt readied
  begin_alt-returns p s t m n o alt enables state disables =
      let at : state_of (set_alt p alt n) p ≡ proc_enabling = set_alt-state p alt n ∙ state in
      let ready : is_state (state_of (readied p alt n) p) proc_ready ≡ true =
        ap (λ x. is_state x proc_ready) ((readied-process p alt n).1) in
      rw (enables, at, ready, disables) refl

-- The conditions under which the scan over channel inputs comes to a sender at the place d.
pub record Finds (m : Machine) (alt : Alternation) (first d : ℕ) : Type 0 where
  pub small : alt.nr_guards < 256
  pub inputs : (j : ℕ) → j < alt.nr_guards → is_input (guard_at m alt.guards j).kind ≡ true
  pub within : d < alt.nr_guards
  pub before : (e : ℕ) → e < d → sender m (kth m alt.guards alt.nr_guards first e) ≡ null
  pub found : sender m (kth m alt.guards alt.nr_guards first d) ≢ null

module _ (fuel : ℕ) (p : Ptr) (m n : Machine) (alt : Alternation) (d : ℕ)
    (same : SameGuards m n) where
  same_kind : (j : ℕ) → (guard_at n alt.guards j).kind ≡ (guard_at m alt.guards j).kind
  same_kind j = ap (λ g. (g (alt.guards + j)).kind) same.guard

  same_sender :
      (first e : ℕ)
      → sender n (kth n alt.guards alt.nr_guards first e)
        ≡ sender m (kth m alt.guards alt.nr_guards first e)
  same_sender first e = same.sender alt.guards alt.nr_guards first e

  enable_same :
      alternation n p ≡ alt
      → Finds m alt (first_guard alt) d
      → (o : Machine) × (enable_alt fuel p n
          ≡ ok
              (true, sender m (kth m alt.guards alt.nr_guards (first_guard alt) d))
              (set_alt p (stopped d alt) o))
        × SameWaiters n o
  enable_same at f =
      let first = first_guard alt in
      let (o, enables, keeps) =
        enable_known fuel p n d alt at (λ j lt. ap is_input (same_kind j) ∙ f.inputs j lt) f.within
          (λ e lt. same_sender first e ∙ f.before e lt)
          (λ h. f.found (sym (same_sender first d) ∙ h)) in
      (
        o,
        enables ∙ ap (λ s. ok (true, s) (set_alt p (stopped d alt) o)) (same_sender first d),
        keeps,
      )

  disable_same :
      (chan dest len : ℕ)
      → let first = first_guard alt in
        let kth_guard = kth m alt.guards alt.nr_guards first in
        alternation n p ≡ stopped d alt
        → Finds m alt first d
        → (kth_guard d).kind ≡ guard_chanin chan dest len
        → (o : Machine) × (disable_alt fuel p n ≡ ok (sender m (kth_guard d)) o)
          × ((alternation o p).index ≡ (first + d) % alt.nr_guards)
          × ((j : ℕ) → j < len → o.bytes (dest + j) ≡ m.bytes ((m.channel chan).src + j))
          × ((o.channel chan).waiting ≡ null)
  disable_same chan dest len at f kind =
      let first = first_guard alt in
      let nr = alt.nr_guards in
      let in_range : (j : ℕ) → j % nr < nr = λ j. mod-lt j (omega (arith, f.within)) in
      let at_range : (first + d) % nr < 256 = omega (arith, in_range (first + d), f.small) in
      let count : d % u8_mod ≡ d = mod-eq_of_lt (omega (arith, f.within, f.small)) in
      let index : (first + d) % nr % u8_mod ≡ (first + d % u8_mod) % nr =
        mod-eq_of_lt at_range ∙ ap (λ c. (first + c) % nr) (sym count) in
      let (o, disables, selected, arrives, free) =
        disable_known fuel p n first d chan dest len (stopped d alt) at f.small
          (omega (arith, f.within)) index (λ j lt. ap is_input (same_kind j) ∙ f.inputs j lt)
          (omega (arith, count)) (λ e lt. same_sender first e ∙ f.before e lt)
          (λ h. f.found (sym (same_sender first d) ∙ h)) (same_kind ((first + d) % nr) ∙ kind) in
      (
        o,
        disables ∙ ap (λ s. ok s o) (same_sender first d),
        selected,
        λ j lt.
            arrives j lt
            ∙ ap (λ s. n.bytes (s + j)) (same.channel chan)
            ∙ ap (λ b. b ((m.channel chan).src + j)) same.bytes,
        free,
      )

-- What the scheduler's last change of the state keeps.
quiescent-rest :
    (p : Ptr) (o : Machine)
    → let n = set_state p proc_quiescent o in (n.bytes ≡ o.bytes) × (n.channel ≡ o.channel)
unfolding set_state set_process
quiescent-rest p o = (refl, refl)

module _ (rtc : ℕ → Ptr → Cmd (Unit {0})) (fuel : ℕ) where
  -- The scheduler enables the ALT of a quiescent process with fewer than 256 guards, all of them
  -- channel inputs, of which some active one finds a sender. It then goes straight on to disabling
  -- it, and is to run the process's code: the first such guard, in the cyclic order from the one
  -- behind that last selected, or from guard 0 for a priority ALT, is selected, its sender is the
  -- partner, the sender's message is at the guard's destination, and the channel is free again.
  pub begin_alt-first :
      (p : Ptr) (m : Machine) (d chan dest len : ℕ)
      → let alt = alternation m p in
        let first = first_guard alt in
        let guard = kth m alt.guards alt.nr_guards first d in
        Finds m alt first d
        → guard.kind ≡ guard_chanin chan dest len
        → (n : Machine) × (begin_alt rtc fuel p m ≡ ok (true, sender m guard) n)
          × ((alternation n p).index ≡ (first + d) % alt.nr_guards)
          × (state_of n p ≡ proc_quiescent)
          × ((j : ℕ) → j < len → n.bytes (dest + j) ≡ m.bytes ((m.channel chan).src + j))
          × ((n.channel chan).waiting ≡ null)
  begin_alt-first p m d chan dest len f kind =
      let alt = alternation m p in
      let m₁ = set_state p proc_enabling m in
      let same₁ = set_state-SameGuards p proc_enabling m in
      let (n, enables, keeps) =
        enable_same fuel p m m₁ alt d same₁ (set_state-alternation p proc_enabling m) f in
      let same₂ = SameGuards-trans same₁ (readied-SameGuards p (stopped d alt) m₁ n keeps) in
      let (o, disables, selected, arrives, free) =
        disable_same fuel p m (readied p (stopped d alt) n) alt d same₂ chan dest len
          (readied-process p (stopped d alt) n).0 f kind in
      let enabling : state_of n p ≡ proc_enabling =
        ap (λ g. (g p).state) keeps.process ∙ set_state-state p proc_enabling m in
      let (bytes, channel) = quiescent-rest p o in
      (
        set_state p proc_quiescent o,
        begin_alt-returns rtc fuel p _ _ m n o (stopped d alt) enables enabling disables,
        ap (λ a. a.index) (set_state-alternation p proc_quiescent o) ∙ selected,
        set_state-state p proc_quiescent o,
        λ j lt. ap (λ b. b (dest + j)) bytes ∙ arrives j lt,
        ap (λ c. (c chan).waiting) channel ∙ free,
      )
