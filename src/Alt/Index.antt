-- ===== src/Alt/Index.antt =====
-- `plus1_mod` and `minus1_mod` of src/sched.c.
use native.Mathlib.Nat.{mod-add-mod, add-mod_right, mod-eq_of_lt, mod_self}
use microcsp.Base.{ℕ, ◌+◌, ◌-◌, ◌<◌, ◌%◌, ◌≡◌, ap, ◌∙◌, arith, ltb, Bool-cases, inl, inr}
use microcsp.Alt.{plus1_mod, minus1_mod}

-- Going one forward and then one back in a ring of m guards comes back to the same guard.
pub minus1_mod-plus1_mod : (i m : ℕ) → i < m → minus1_mod (plus1_mod i m) m ≡ i
minus1_mod-plus1_mod i m lt = elim (Bool-cases (ltb (i + 1) m)) [
  | inl inside ↦
      let small : i + 1 < m = ground arith in
      let same : i + 1 + m - 1 ≡ i + m = omega arith in
      rw (mod-eq_of_lt small, same) (add-mod_right i m ∙ mod-eq_of_lt lt)
  | inr wraps ↦
      let same : i + 1 ≡ m = ground arith in
      let last' : 0 + m - 1 ≡ i = omega arith in rw (same, mod_self m, last') (mod-eq_of_lt lt)
]

-- One forward from the place k behind i is the place k + 1 behind it.
pub plus1_mod-add : (i k m : ℕ) → plus1_mod ((i + k) % m) m ≡ (i + (k + 1)) % m
plus1_mod-add i k m = mod-add-mod (i + k) m 1 ∙ ap (λ n. n % m) (omega arith)
