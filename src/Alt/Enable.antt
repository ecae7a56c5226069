-- ===== src/Alt/Enable.antt =====
-- `enable_alt` in src/sched.c over channel inputs: round robin and priority.
use native.Mathlib.Nat.{mod-lt, mod-eq_of_lt}
use microcsp.Base.{
  ℕ, zero, suc, ◌+◌, ◌%◌, ◌<◌, ◌≤◌, ◌≡◌, refl, sym, ap, subst, ◌∙◌, ◌≢◌, true, false, ◌&&◌, arith,
  ◌==◌, if◌then◌else◌, u8_mod, Bool-cases, inl, inr,
}
use microcsp.Machine.{
  Ptr, null, Machine, Alternation, Process, Guard, GuardKind, guard_chanin, guard_chanout,
  guard_skip, guard_timeout, guard_interrupt, ok,
}
use microcsp.Alt.{
  alternation, is_output, count_active, enable_alt, set_alt, set_process, guard_at, plus1_mod,
}
use microcsp.Alt.Senders.{sender, is_input, SameWaiters, kth}
use microcsp.Alt.Forwards.{enable_guards-all}

input-output : (k : GuardKind) → is_input k ≡ true → is_output k ≡ false
input-output (guard_chanin chan dest len) e = refl
input-output (guard_chanout chan src) e = absurd (ground arith)
input-output guard_skip e = refl
input-output (guard_timeout timeout) e = refl
input-output (guard_interrupt chan dest) e = refl

input-no_output : (g : Guard) → is_input g.kind ≡ true → (g.active && is_output g.kind) ≡ false
input-no_output g input = rw (input-output g.kind input) (ground arith)

-- Where all guards are inputs, no output guard is seen.
count_active-inputs :
    (m : Machine) (gs left i n : ℕ)
    → ((j : ℕ) → i ≤ j → j < i + left → is_input (guard_at m gs j).kind ≡ true)
    → (count_active m gs left i false n).0 ≡ false
unfolding count_active
count_active-inputs m gs zero i n inputs = refl
count_active-inputs m gs (suc left) i n inputs =
    let g = guard_at m gs i in
    let no_output : (g.active && is_output g.kind) ≡ false =
      input-no_output g (inputs i (omega arith) (omega arith)) in
    let n' = if g.active then n + 1 else n in
    subst (λ b. (count_active m gs left (i + 1) b n').0 ≡ false) (sym no_output)
      (count_active-inputs m gs left (i + 1) n' (λ j lo hi. inputs j (omega arith) (omega arith)))

-- The guard where the scan begins.
abbrev pub first_guard : Alternation → ℕ
first_guard alt = if alt.alt_pri then 0 else plus1_mod alt.index alt.nr_guards

pub alternation-set_alt :
    (p : Ptr) (alt : Alternation) (m : Machine) → alternation (set_alt p alt m) p ≡ alt
unfolding set_alt set_process
alternation-set_alt p alt m = ground arith

-- The alternation of a scan that has stopped.
abbrev pub stopped : ℕ → Alternation → Alternation
stopped d alt = record alt {
  index = ((first_guard alt + d) % alt.nr_guards) % u8_mod;
  count = d % u8_mod;
}

-- The scan of `enable_alt` stops at the first sender, and changes nothing that the scan depends on
-- but the alternation.
pub enable_alt-stops :
    (fuel : ℕ) (p : Ptr) (m : Machine) (d : ℕ)
    → let alt = alternation m p in
      let kth_guard = kth m alt.guards alt.nr_guards (first_guard alt) in
      ((j : ℕ) → j < alt.nr_guards → is_input (guard_at m alt.guards j).kind ≡ true)
      → d < alt.nr_guards
      → ((e : ℕ) → e < d → sender m (kth_guard e) ≡ null)
      → sender m (kth_guard d) ≢ null
      → (n : Machine) × (enable_alt fuel p m
          ≡ ok (true, sender m (kth_guard d)) (set_alt p (stopped d alt) n))
        × SameWaiters m n
unfolding enable_alt
enable_alt-stops fuel p m d inputs lt before finds =
    let alt = alternation m p in
    let nr = alt.nr_guards in
    let first = first_guard alt in
    let no_output = count_active-inputs m alt.guards nr 0 0 (λ j lo hi. inputs j (omega arith)) in
    let some_guard : (nr == 0) ≡ false = ground arith in
    let in_range : (j : ℕ) → j % nr < nr = λ j. mod-lt j (omega arith) in
    let begins : first < nr = elim (Bool-cases alt.alt_pri) [
      | inl pri ↦ rw pri (omega arith)
      | inr fair ↦ rw fair (in_range (alt.index + 1))
    ] in
    let (n, e, same) =
      enable_guards-all fuel alt.guards nr first d m begins inputs before finds lt in
    let at = (first + d) % nr in
    (
      n,
      rw (no_output, some_guard, e)
          (ap
            (λ (f : Ptr → Process).
              ok (true, sender m (kth m alt.guards nr first d))
                (set_alt p (record (f p).alt { index = at % u8_mod; count = d % u8_mod }) n))
            same.process),
      same,
    )

-- For a process with fewer than 256 guards, all of them channel inputs, of which some active one
-- finds a sender, `enable_alt` stops at the first that does, in the cyclic order from the guard
-- behind the one last selected, and for a priority ALT from guard 0. It returns that sender, and
-- leaves the guard's index and the number of guards before it.
pub enable_alt-first :
    (fuel : ℕ) (p : Ptr) (m : Machine) (d : ℕ)
    → let alt = alternation m p in
      let kth_guard = kth m alt.guards alt.nr_guards (first_guard alt) in
      alt.nr_guards < 256
      → ((j : ℕ) → j < alt.nr_guards → is_input (guard_at m alt.guards j).kind ≡ true)
      → d < alt.nr_guards
      → ((e : ℕ) → e < d → sender m (kth_guard e) ≡ null)
      → sender m (kth_guard d) ≢ null
      → (n : Machine) × (enable_alt fuel p m ≡ ok (true, sender m (kth_guard d)) n)
        × ((alternation n p).index ≡ (first_guard alt + d) % alt.nr_guards)
        × ((alternation n p).count ≡ d)
enable_alt-first fuel p m d small inputs lt before finds =
    let alt = alternation m p in
    let (n, e, _) = enable_alt-stops fuel p m d inputs lt before finds in
    let here = alternation-set_alt p (stopped d alt) n in
    let in_range : (j : ℕ) → j % alt.nr_guards < alt.nr_guards = λ j. mod-lt j (omega arith) in
    let at_range : (first_guard alt + d) % alt.nr_guards < 256 =
      omega (arith, in_range (first_guard alt + d)) in
    let d_range : d < 256 = omega arith in
    (
      set_alt p (stopped d alt) n,
      e,
      ap (λ a. a.index) here ∙ mod-eq_of_lt at_range,
      ap (λ a. a.count) here ∙ mod-eq_of_lt d_range,
    )
