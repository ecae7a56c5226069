-- ===== src/Alt/Backwards.antt =====
-- The loop of `disable_alt` in src/sched.c over channel inputs, which goes backwards.
use native.Mathlib.Nat.{mod-lt}
use microcsp.Base.{
  ℕ, zero, suc, ◌+◌, ◌%◌, ◌<◌, ◌≡◌, refl, sym, ap, ◌∙◌, ◌≢◌, true, false, arith, ◌==◌, ==_iff,
  if◌then◌else◌, Bool-cases, inl, inr,
}
use microcsp.Machine.{
  Ptr, null, Machine, GuardKind, guard_chanin, guard_chanout, guard_skip, guard_timeout,
  guard_interrupt, Outcome, ok,
}
use microcsp.Hardware.{enable_interrupts, disable_interrupts}
use microcsp.Channel.{set_channel, disable_channel_input}
use microcsp.Alt.{minus1_mod, disable_answer, disable_guard, disable_guards}
use microcsp.Alt.Index.{plus1_mod-add, minus1_mod-plus1_mod}
use microcsp.Alt.Senders.{
  waiter, channel_of, sender, is_input, SameWaiters, SameWaiters-trans, kth, sender-same, kth-input,
}

-- One guard that is an input: it is selected where its sender is there, and kept out otherwise.
disable_guard-input :
    (fuel : ℕ) (kind : GuardKind) (i sel : ℕ) (partner : Ptr) (m : Machine)
    → is_input kind ≡ true
    → let w = waiter m (channel_of kind) in
      (n : Machine) × (disable_guard fuel kind i sel partner m
        ≡ ok (if w == null then sel else i, if w == null then partner else w) n)
      × SameWaiters m n
unfolding disable_guard disable_answer disable_channel_input set_channel enable_interrupts
    disable_interrupts
disable_guard-input fuel (guard_chanin chan dest len) i sel partner m input =
    let r = disable_channel_input chan partner (disable_interrupts m) in
    (
      enable_interrupts r.2,
      ground arith,
      record {
        guard = ground arith;
        waiting = λ c. ground arith;
        src = λ c. ground arith;
        bytes = ground arith;
        process = ground arith;
      },
    )
disable_guard-input fuel (guard_chanout chan src) i sel partner m input = absurd (ground arith)
disable_guard-input fuel guard_skip i sel partner m input = absurd (ground arith)
disable_guard-input fuel (guard_timeout timeout) i sel partner m input = absurd (ground arith)
disable_guard-input fuel (guard_interrupt chan dest) i sel partner m input = absurd (ground arith)

module _ (fuel gs nr first : ℕ) where
  -- The loop ends with a result, in a state with the same senders.
  abbrev Ends : Machine → Outcome (ℕ × Ptr) → ℕ × Ptr → Type 0
  Ends m r a = (n : Machine) × (r ≡ ok a n) × SameWaiters m n

  -- The loop's next index, where it goes on.
  abbrev Below : (left i : ℕ) → Type 0
  Below left i = (k : ℕ) → left ≡ suc k → i ≡ (first + k) % nr

  Below-next : (k : ℕ) → 0 < nr → Below k (minus1_mod ((first + k) % nr) nr)
  Below-next k pos j e =
      let shift : k ≡ j + 1 = omega arith in
      ap (λ x. minus1_mod ((first + x) % nr) nr) shift
      ∙ ap (λ x. minus1_mod x nr) (sym (plus1_mod-add first j nr))
      ∙ minus1_mod-plus1_mod ((first + j) % nr) nr (mod-lt (first + j) pos)

  -- One guard is passed in the loop.
  disable_guards-pass :
      (k sel : ℕ) (partner : Ptr) (m : Machine)
      → is_input (kth m gs nr first k).kind ≡ true
      → let s = sender m (kth m gs nr first k) in
        (n : Machine) × (disable_guards fuel gs nr (suc k) ((first + k) % nr) sel partner m
          ≡ disable_guards fuel gs nr k
              (minus1_mod ((first + k) % nr) nr)
              (if s == null then sel else (first + k) % nr)
              (if s == null then partner else s)
              n)
        × SameWaiters m n
  unfolding disable_guards
  disable_guards-pass k sel partner m input =
      let g = kth m gs nr first k in
      elim (Bool-cases g.active) [
        | inl act ↦
            let (n, e, same) =
              disable_guard-input fuel g.kind ((first + k) % nr) sel partner m input in
            (n, rw (act, e) refl, same)
        | inr inactive ↦ (
          m,
          rw inactive refl,
          record {
            guard = refl;
            waiting = λ c. refl;
            src = λ c. refl;
            bytes = refl;
            process = refl;
          },
        )
      ]

  -- A pass of the loop over inputs, and what follows it, which sees the same senders.
  disable_guards-step :
      (k i sel : ℕ) (partner : Ptr) (m : Machine) (r : ℕ × Ptr)
      → i ≡ (first + k) % nr
      → is_input (kth m gs nr first k).kind ≡ true
      → ((n : Machine)
          → SameWaiters m n
          → let s = sender m (kth m gs nr first k) in
            Ends n
              (disable_guards fuel gs nr k
                (minus1_mod ((first + k) % nr) nr)
                (if s == null then sel else (first + k) % nr)
                (if s == null then partner else s)
                n)
              r)
      → Ends m (disable_guards fuel gs nr (suc k) i sel partner m) r
  disable_guards-step k i sel partner m r at input rest =
      let (n, e, same) = disable_guards-pass k sel partner m input in
      let (o, f, same') = rest n same in
      (
        o,
        ap (λ x. disable_guards fuel gs nr (suc k) x sel partner m) at ∙ e ∙ f,
        SameWaiters-trans same same',
      )

  -- Where no sender is there, the loop keeps what it had.
  disable_guards-none :
      (left i sel : ℕ) (partner : Ptr) (m : Machine)
      → 0 < nr
      → Below left i
      → ((e : ℕ) → e < left → is_input (kth m gs nr first e).kind ≡ true)
      → ((e : ℕ) → e < left → sender m (kth m gs nr first e) ≡ null)
      → Ends m (disable_guards fuel gs nr left i sel partner m) (sel, partner)
  unfolding disable_guards
  disable_guards-none zero i sel partner m pos below inputs waits = (
    m,
    refl,
    record { guard = refl; waiting = λ c. refl; src = λ c. refl; bytes = refl; process = refl },
  )
  disable_guards-none (suc left) i sel partner m pos below inputs waits =
      disable_guards-step left i sel partner m (sel, partner) (below left refl)
        (inputs left (omega arith))
        λ n same. rw (waits left (omega arith)) (
          disable_guards-none left _ sel partner n pos (Below-next left pos)
            (λ e lt. kth-input gs nr first e same ∙ inputs e (omega arith))
            (λ e lt. sender-same gs nr first e same ∙ waits e (omega arith)))

  -- It ends with the first guard of the scan whose sender is there, and that sender.
  pub disable_guards-first :
      (left i sel d : ℕ) (partner : Ptr) (m : Machine)
      → 0 < nr
      → Below left i
      → d < left
      → ((e : ℕ) → e < left → is_input (kth m gs nr first e).kind ≡ true)
      → ((e : ℕ) → e < d → sender m (kth m gs nr first e) ≡ null)
      → sender m (kth m gs nr first d) ≢ null
      → Ends m
          (disable_guards fuel gs nr left i sel partner m)
          ((first + d) % nr, sender m (kth m gs nr first d))
  disable_guards-first zero i sel d partner m pos below lt inputs waits finds = absurd (omega arith)
  disable_guards-first (suc left) i sel d partner m pos below lt inputs waits finds =
      disable_guards-step left i sel partner m _ (below left refl) (inputs left (omega arith))
        λ n same. elim (Bool-cases (left == d)) [
          | inl here ↦
              let same_place : left ≡ d = (==_iff left d).0 here in
              let there : (sender m (kth m gs nr first d) == null) ≡ false =
                ground (arith, finds) in
              rw (same_place, there)
                (disable_guards-none d _ _ _ n pos (Below-next d pos)
                  (λ e lt. kth-input gs nr first e same ∙ inputs e (omega arith))
                  (λ e lt. sender-same gs nr first e same ∙ waits e lt))
          | inr later ↦
              let (o, e, same') =
                disable_guards-first left (minus1_mod ((first + left) % nr) nr) _ d _ n pos
                  (Below-next left pos) (ground arith)
                  (λ e lt. kth-input gs nr first e same ∙ inputs e (omega arith))
                  (λ e lt. sender-same gs nr first e same ∙ waits e lt)
                  (λ h. finds (sym (sender-same gs nr first d same) ∙ h)) in
              (o, e ∙ ap (λ s. ok ((first + d) % nr, s) o) (sender-same gs nr first d same), same')
        ]
