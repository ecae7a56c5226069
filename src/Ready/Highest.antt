-- ===== src/Ready/Highest.antt =====
-- `highest_ready` finds the highest set bit: checked over all values of `priority_mask`.
use microcsp.Base.{
  ℕ, zero, suc, ◌<◌, ◌≡◌, refl, Bool, true, false, not, ◌&&◌, ◌||◌, arith, ltb, ◌==◌, ==_iff,
  if◌then◌else◌, all_below, all_below_sound,
}
use microcsp.Ready.{levels, highest_ready}
use microcsp.Ready.Bits.{bit}

abbrev above_ok : ℕ → ℕ → ℕ → Bool
above_ok r h l = if ltb h l then not (bit l r) else true

-- No bit above the level, and the level's own bit unless that is level 0.
abbrev highest_ok : ℕ → Bool
highest_ok r =
    let h = highest_ready r in
    ltb h levels && (bit h r || h == 0) && all_below levels (above_ok r h)

highest_table : all_below 256 highest_ok ≡ true
unfolding all_below highest_ready
highest_table = refl

pub record IsHighest (r h : ℕ) : Type 0 where
  pub level : h < levels
  pub ready : (bit h r || h == 0) ≡ true
  pub none_above : (l : ℕ) → h < l → l < levels → bit l r ≡ false

pub highest_ready-IsHighest : (r : ℕ) → r < 256 → IsHighest r (highest_ready r)
highest_ready-IsHighest r lt =
    let h = all_below_sound 256 highest_ok r highest_table lt in
    record {
      level = ground arith;
      ready = ground arith;
      none_above = λ l above llt.
          ground
            (arith, all_below_sound levels (above_ok r (highest_ready r)) l (ground arith) llt);
    }

-- The reference: the levels from the given one down, one by one.
abbrev pub scan_down : ℕ → ℕ → ℕ
scan_down zero r = 0
scan_down (suc l) r = let rest = scan_down l r in if bit (suc l) r then suc l else rest

scan_table : all_below 256 (λ r. highest_ready r == scan_down 7 r) ≡ true
unfolding all_below highest_ready
scan_table = refl

-- The binary search of `highest_ready` over the mask of eight levels gives what a scan of the
-- levels from 7 down gives: the highest level whose bit is set, and 0 where none is.
pub highest_ready-scan_down : (r : ℕ) → r < 256 → highest_ready r ≡ scan_down 7 r
highest_ready-scan_down r lt =
    (==_iff (highest_ready r) (scan_down 7 r)).0
      (all_below_sound 256 (λ s. highest_ready s == scan_down 7 s) r scan_table lt)
