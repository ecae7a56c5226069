-- ===== src/Alt/Forwards.antt =====
-- The scan of `enable_alt` in src/sched.c over channel inputs, from one guard to the next.
use native.Mathlib.Nat.{mod-lt, mod-eq_of_lt}
use microcsp.Base.{
  ℕ, zero, suc, ◌+◌, ◌%◌, ◌<◌, ◌≤◌, ◌≡◌, refl, sym, ap, subst, ◌∙◌, ◌≢◌, true, false, arith, ◌==◌,
  Bool-cases, inl, inr,
}
use microcsp.Machine.{
  Ptr, null, Machine, GuardKind, guard_chanin, guard_chanout, guard_skip, guard_timeout,
  guard_interrupt, Outcome, ok,
}
use microcsp.Hardware.{enable_interrupts, disable_interrupts}
use microcsp.Channel.{set_channel, enable_channel_input}
use microcsp.Alt.{guard_at, Scan, scan_of, enable_answer, enable_guard, enable_guards}
use microcsp.Alt.Index.{plus1_mod-add}
use microcsp.Alt.Senders.{
  waiter, channel_of, sender, is_input, SameWaiters, SameWaiters-trans, disabled-same, kth,
  sender-same, kth-input,
}

-- One guard that finds no sender.
enable_guard-waits :
    (fuel : ℕ) (kind : GuardKind) (partner : Ptr) (m : Machine)
    → is_input kind ≡ true
    → waiter m (channel_of kind) ≡ null
    → (n : Machine) × (enable_guard fuel kind partner m ≡ ok (false, partner) n) × SameWaiters m n
unfolding enable_guard enable_answer enable_channel_input set_channel enable_interrupts
    disable_interrupts
enable_guard-waits fuel (guard_chanin chan dest len) partner m input none_there =
    let r = enable_channel_input chan partner (disable_interrupts m) in
    (
      enable_interrupts r.2,
      ground arith,
      record {
        guard = ground arith;
        waiting = λ c. ground arith;
        src = λ c. ground arith;
        bytes = ground arith;
        process = ground arith;
      },
    )
enable_guard-waits fuel (guard_chanout chan src) partner m input none_there = absurd (ground arith)
enable_guard-waits fuel guard_skip partner m input none_there = absurd (ground arith)
enable_guard-waits fuel (guard_timeout timeout) partner m input none_there = absurd (ground arith)
enable_guard-waits fuel (guard_interrupt chan dest) partner m input none_there =
    absurd (ground arith)

-- One guard that finds one.
enable_guard-finds :
    (fuel : ℕ) (kind : GuardKind) (partner : Ptr) (m : Machine)
    → is_input kind ≡ true
    → (waiter m (channel_of kind) == null) ≡ false
    → enable_guard fuel kind partner m
      ≡ ok (true, waiter m (channel_of kind)) (disable_interrupts m)
unfolding enable_guard enable_answer enable_channel_input set_channel enable_interrupts
    disable_interrupts
enable_guard-finds fuel (guard_chanin chan dest len) partner m input there = ground arith
enable_guard-finds fuel (guard_chanout chan src) partner m input there = absurd (ground arith)
enable_guard-finds fuel guard_skip partner m input there = absurd (ground arith)
enable_guard-finds fuel (guard_timeout timeout) partner m input there = absurd (ground arith)
enable_guard-finds fuel (guard_interrupt chan dest) partner m input there = absurd (ground arith)

module _ (fuel gs nr first : ℕ) where
  -- One guard is passed over: it is inactive, or an input that finds no sender.
  enable_guards-pass :
      (left k : ℕ) (partner : Ptr) (m : Machine)
      → let g = kth m gs nr first k in
        is_input g.kind ≡ true
        → sender m g ≡ null
        → (n : Machine) × (enable_guards fuel gs nr (suc left) ((first + k) % nr) k partner m
            ≡ enable_guards fuel gs nr left ((first + (k + 1)) % nr) (k + 1) partner n)
          × SameWaiters m n
  unfolding enable_guards
  enable_guards-pass left k partner m input waits =
      let g = kth m gs nr first k in
      elim (Bool-cases g.active) [
        | inl act ↦
            let none_there : waiter m (channel_of g.kind) ≡ null = rw act at waits in
            let (n, e, same) = enable_guard-waits fuel g.kind partner m input none_there in
            (n, rw (act, e, plus1_mod-add first k nr) refl, same)
        | inr inactive ↦ (
          m,
          rw (inactive, plus1_mod-add first k nr) refl,
          record {
            guard = refl;
            waiting = λ c. refl;
            src = λ c. refl;
            bytes = refl;
            process = refl;
          },
        )
      ]

  -- One guard that finds a sender ends the scan.
  enable_guards-found :
      (left k : ℕ) (partner : Ptr) (m : Machine)
      → let g = kth m gs nr first k in
        is_input g.kind ≡ true
        → sender m g ≢ null
        → enable_guards fuel gs nr (suc left) ((first + k) % nr) k partner m
          ≡ ok (scan_of true (sender m g) ((first + k) % nr) k) (disable_interrupts m)
  unfolding enable_guards
  enable_guards-found left k partner m input finds =
      let g = kth m gs nr first k in
      elim (Bool-cases g.active) [
        | inl act ↦
            let there : (waiter m (channel_of g.kind) == null) ≡ false = ground (arith, finds) in
            rw (act, enable_guard-finds fuel g.kind partner m input there) refl
        | inr inactive ↦ absurd (finds (rw inactive refl))
      ]

  -- A scan that stops at the j-th guard after the first one, with its sender.
  abbrev Stops : Machine → Outcome Scan → ℕ → Type 0
  Stops m r j =
      (n : Machine) × (r
        ≡ ok (scan_of true (sender m (kth m gs nr first j)) ((first + j) % nr) j) n)
      × SameWaiters m n

  Stops-later :
      (j j' : ℕ) (m n : Machine) (r r' : Outcome Scan)
      → r ≡ r'
      → SameWaiters m n
      → j ≡ j'
      → Stops n r' j
      → Stops m r j'
  Stops-later j j' m n r r' e same here (o, f, same') =
      subst (λ x. Stops m r x) here
        (
          o,
          e
              ∙ f
              ∙ ap (λ s. ok (scan_of true s ((first + j) % nr) j) o)
                  (sender-same gs nr first j same),
          SameWaiters-trans same same',
        )

  -- The scan stops at the first input that finds a sender.
  enable_guards-first :
      (left k d : ℕ) (partner : Ptr) (m : Machine)
      → ((e : ℕ) → e ≤ d → is_input (kth m gs nr first (k + e)).kind ≡ true)
      → ((e : ℕ) → e < d → sender m (kth m gs nr first (k + e)) ≡ null)
      → sender m (kth m gs nr first (k + d)) ≢ null
      → d < left
      → Stops m (enable_guards fuel gs nr left ((first + k) % nr) k partner m) (k + d)
  enable_guards-first zero k d partner m inputs before finds lt = absurd (omega arith)
  enable_guards-first (suc left) k zero partner m inputs before finds lt =
      let here : k + 0 ≡ k = omega arith in
      let input : is_input (kth m gs nr first k).kind ≡ true =
        rw here at (inputs 0 (omega arith)) in
      let finds' : sender m (kth m gs nr first k) ≢ null = rw here at finds in
      rw here
        (disable_interrupts m, enable_guards-found left k partner m input finds', disabled-same m)
  enable_guards-first (suc left) k (suc d) partner m inputs before finds lt =
      let here : k + 0 ≡ k = omega arith in
      let input : is_input (kth m gs nr first k).kind ≡ true =
        rw here at (inputs 0 (omega arith)) in
      let waits : sender m (kth m gs nr first k) ≡ null = rw here at (before 0 (omega arith)) in
      let (n, e, same) = enable_guards-pass left k partner m input waits in
      let shift : (e : ℕ) → k + 1 + e ≡ k + suc e = λ e. omega arith in
      let rest =
        enable_guards-first left (k + 1) d partner n
          (λ e le.
            rw (shift e) (kth-input gs nr first (k + suc e) same ∙ inputs (suc e) (omega arith)))
          (λ e lt.
            rw (shift e) (sender-same gs nr first (k + suc e) same ∙ before (suc e) (omega arith)))
          (λ h. finds (sym (sender-same gs nr first (k + suc d) same) ∙ rw (shift d) at h))
          (omega arith) in
      Stops-later (k + 1 + d) (k + suc d) m n _ _ e same (shift d) rest

  -- The whole scan, from the guard where it begins.
  pub enable_guards-all :
      (d : ℕ) (m : Machine)
      → first < nr
      → ((j : ℕ) → j < nr → is_input (guard_at m gs j).kind ≡ true)
      → ((e : ℕ) → e < d → sender m (kth m gs nr first e) ≡ null)
      → sender m (kth m gs nr first d) ≢ null
      → d < nr
      → Stops m (enable_guards fuel gs nr nr first 0 null m) d
  enable_guards-all d m begins inputs before finds lt =
      let zero_add : (e : ℕ) → 0 + e ≡ e = λ e. omega arith in
      let add_zero : first + 0 ≡ first = omega arith in
      let at_first : (first + 0) % nr ≡ first = rw add_zero (mod-eq_of_lt begins) in
      rw (zero_add d, at_first) at
        (enable_guards-first nr 0 d null m
          (λ e le. inputs _ (mod-lt (first + (0 + e)) (omega arith)))
          (λ e lt. rw (zero_add e) (before e lt)) (λ h. finds (rw (zero_add d) at h)) lt)
