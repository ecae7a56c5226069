-- ===== src/Ready/Bits.antt =====
-- The bits of `priority_mask`, checked over all its values.
use microcsp.Base.{
  ℕ, ◌/◌, ◌%◌, ◌^◌, ◌<◌, ◌≡◌, refl, Bool, true, false, not, ◌&&◌, ◌||◌, arith, ltb, ◌==◌, all_below,
  all_below_sound,
}
use microcsp.Ready.{levels, set_level, clear_level}

abbrev pub bit : ℕ → ℕ → Bool
bit l ready = (ready / 2 ^ l) % 2 == 1

abbrev same : Bool → Bool → Bool
same true b = b
same false b = not b

same-eq : (a b : Bool) → same a b ≡ true → a ≡ b
same-eq a b h = ground arith

abbrev set_ok : ℕ → ℕ → ℕ → Bool
set_ok r l j = same (bit j (set_level r l)) ((l == j) || bit j r)

abbrev clear_ok : ℕ → ℕ → ℕ → Bool
clear_ok r l j = same (bit j (clear_level r l)) (not (l == j) && bit j r)

abbrev range_ok : ℕ → ℕ → Bool
range_ok r l = ltb (set_level r l) 256 && ltb (clear_level r l) 256

set_table : all_below 256 (λ r. all_below levels (λ l. all_below levels (set_ok r l))) ≡ true
unfolding all_below
set_table = refl

clear_table : all_below 256 (λ r. all_below levels (λ l. all_below levels (clear_ok r l))) ≡ true
unfolding all_below
clear_table = refl

range_table : all_below 256 (λ r. all_below levels (range_ok r)) ≡ true
unfolding all_below
range_table = refl

module _ (r l : ℕ) (rlt : r < 256) (llt : l < levels) where
  pub bit-set_level : (j : ℕ) → j < levels → bit j (set_level r l) ≡ ((l == j) || bit j r)
  bit-set_level j jlt =
      let row =
        all_below_sound 256 (λ r. all_below levels (λ l. all_below levels (set_ok r l))) r set_table
          rlt in
      let col = all_below_sound levels (λ l. all_below levels (set_ok r l)) l row llt in
      same-eq _ _ (all_below_sound levels (set_ok r l) j col jlt)

  pub bit-clear_level : (j : ℕ) → j < levels → bit j (clear_level r l) ≡ (not (l == j) && bit j r)
  bit-clear_level j jlt =
      let row =
        all_below_sound 256 (λ r. all_below levels (λ l. all_below levels (clear_ok r l))) r
          clear_table rlt in
      let col = all_below_sound levels (λ l. all_below levels (clear_ok r l)) l row llt in
      same-eq _ _ (all_below_sound levels (clear_ok r l) j col jlt)

  pub level_range : (set_level r l < 256) × (clear_level r l < 256)
  level_range =
      let row = all_below_sound 256 (λ r. all_below levels (range_ok r)) r range_table rlt in
      let h = all_below_sound levels (range_ok r) l row llt in ground arith
