-- ===== src/Alt/Restrict.antt =====
-- The first loop of `enable_alt` in src/sched.c, and processes without guards.
use microcsp.Base.{
  ℕ, zero, suc, ◌+◌, ◌<◌, ◌≤◌, ◌≡◌, refl, ◌≢◌, Bool, true, false, ◌&&◌, ◌||◌, arith, ltb, ◌==◌,
  ==_iff, if◌then◌else◌, Bool-cases, inl, inr,
}
use microcsp.Machine.{Ptr, Machine, exit, fault, chanout_not_alone}
use microcsp.Alt.{alternation, guard_at, is_output, count_active, enable_alt, disable_alt}

module _ (m : Machine) (gs : Ptr) where
  -- The loop never lowers its count, and an output guard that was seen stays seen.
  count_active-grows :
      (left i : ℕ) (out : Bool) (n : ℕ)
      → let r = count_active m gs left i out n in (n ≤ r.1) × (out ≡ true → r.0 ≡ true)
  unfolding count_active
  count_active-grows zero i out n = (omega arith, λ h. h)
  count_active-grows (suc left) i out n =
      let g = guard_at m gs i in
      let (a, b) =
        count_active-grows left (i + 1) (out || (g.active && is_output g.kind))
          (if g.active then n + 1 else n) in
      (ground arith, λ h. b (ground arith))

  -- It counts an active guard, and sees it where it is an output.
  count_active-one :
      (left i : ℕ) (out : Bool) (n k : ℕ)
      → i ≤ k
      → k < i + left
      → (guard_at m gs k).active ≡ true
      → let r = count_active m gs left i out n in
        (n + 1 ≤ r.1) × (is_output (guard_at m gs k).kind ≡ true → r.0 ≡ true)
  unfolding count_active
  count_active-one zero i out n k lo hi act = absurd (omega arith)
  count_active-one (suc left) i out n k lo hi act =
      let g = guard_at m gs i in
      let out' = out || (g.active && is_output g.kind) in
      let n' = if g.active then n + 1 else n in
      let (a, b) = count_active-grows left (i + 1) out' n' in
      elim (Bool-cases (i == k)) [
        | inl here ↦
            let same : i ≡ k = (==_iff i k).0 here in
            let act' : (guard_at m gs i).active ≡ true = rw same act in
            (ground arith, λ h. b (rw (act', same) (ground arith)))
        | inr later ↦
            let (c, d) = count_active-one left (i + 1) out' n' k (ground arith) (omega arith) act in
            (ground arith, d)
      ]

  -- It counts two.
  count_active-two :
      (left i : ℕ) (out : Bool) (n j k : ℕ)
      → i ≤ j
      → j < k
      → k < i + left
      → (guard_at m gs j).active ≡ true
      → (guard_at m gs k).active ≡ true
      → n + 2 ≤ (count_active m gs left i out n).1
  unfolding count_active
  count_active-two zero i out n j k lo jk hi act act' = absurd (omega arith)
  count_active-two (suc left) i out n j k lo jk hi act act' =
      let g = guard_at m gs i in
      let out' = out || (g.active && is_output g.kind) in
      let n' = if g.active then n + 1 else n in
      elim (Bool-cases (i == j)) [
        | inl here ↦
            let same : i ≡ j = (==_iff i j).0 here in
            let now : (guard_at m gs i).active ≡ true = rw same act in
            let (a, _) = count_active-one left (i + 1) out' n' k (omega arith) (omega arith) act' in
            ground arith
        | inr later ↦
            let a =
              count_active-two left (i + 1) out' n' j k (ground arith) jk (omega arith) act act' in
            ground arith
      ]

module _ (fuel : ℕ) (p : Ptr) (m : Machine) where
  two_active :
      (j k : ℕ)
      → let alt = alternation m p in
        j ≢ k
        → j < alt.nr_guards
        → k < alt.nr_guards
        → (guard_at m alt.guards j).active ≡ true
        → (guard_at m alt.guards k).active ≡ true
        → 2 ≤ (count_active m alt.guards alt.nr_guards 0 false 0).1
  two_active j k ne jlt klt act act' =
      let alt = alternation m p in
      elim (Bool-cases (ltb j k)) [
        | inl up ↦
            count_active-two m alt.guards alt.nr_guards 0 false 0 j k (omega arith) (ground arith)
              (omega arith) act act'
        | inr down ↦
            count_active-two m alt.guards alt.nr_guards 0 false 0 k j (omega arith) (ground arith)
              (omega arith) act' act
      ]

  -- An ALT in which an output guard and another guard are active ends the program, wherever the two
  -- stand and whatever the others are.
  pub enable_alt-exit :
      (j k : ℕ)
      → let alt = alternation m p in
        j ≢ k
        → j < alt.nr_guards
        → k < alt.nr_guards
        → (guard_at m alt.guards j).active ≡ true
        → is_output (guard_at m alt.guards j).kind ≡ true
        → (guard_at m alt.guards k).active ≡ true
        → enable_alt fuel p m ≡ exit chanout_not_alone
  unfolding enable_alt
  enable_alt-exit j k ne jlt klt act output act' =
      let alt = alternation m p in
      let two = two_active j k ne jlt klt act act' in
      let seen =
        (count_active-one m alt.guards alt.nr_guards 0 false 0 j (omega arith) (omega arith) act).1
          output in
      let many : ltb 1 (count_active m alt.guards alt.nr_guards 0 false 0).1 ≡ true =
        ground arith in
      rw (seen, many) refl

  -- A process without guards, as one that never sets up an ALT, makes both halves of the
  -- alternation divide by zero.
  pub enable_alt-fault :
      (alternation m p).nr_guards ≡ 0
      → (enable_alt fuel p m ≡ fault) × (disable_alt fuel p m ≡ fault)
  unfolding enable_alt disable_alt count_active
  enable_alt-fault none_there = rw none_there (refl, refl)
