-- ===== src/Memory/Apart.antt =====
-- What `allocate_mem` promises its caller: a block of its own inside the memory.
use microcsp.Base.{ℕ, ◌+◌, ◌≤◌, ◌<◌, ◌≡◌, sym, ap, ◌∙◌, ◌⊎◌, inl, inr, true, List, arith}
use microcsp.Machine.{Ptr, null, Machine, Error, Outcome, ok, exit, idles, fault, out_of_fuel}
use microcsp.Memory.{nalloc, allocate_mem}
use microcsp.Memory.Arena.{Blocks, block_length, IsArena, is_live, Carved-bounds}
use microcsp.Memory.Allocate.{allocate_mem-Given}
use microcsp.Memory.Release.{live_apart}

value_or : Ptr → Outcome Ptr → Ptr
value_or d (ok a m) = a
value_or d (exit e) = d
value_or d (idles m) = d
value_or d fault = d
value_or d out_of_fuel = d

exit_ok : {x : Error} {a : Ptr} {n : Machine} → exit x ≡ ok a n → ⊥
exit_ok e = ground arith

-- A block that `allocate_mem` returns on a well-formed arena lies in the memory and overlaps no
-- block that was live before, of its own class or another.
pub allocate_mem-apart :
    (m n : Machine) (base size : ℕ) (carved : Blocks) (free : ℕ → List Ptr) (i : ℕ) (a : Ptr)
    → IsArena m base size carved free
    → i < nalloc
    → allocate_mem i m ≡ ok a n
    → (base ≤ a)
      × (a + block_length i ≤ base + size)
      × ((j : ℕ) (b : Ptr)
          → is_live carved free j b ≡ true
          → (a + block_length i ≤ b) ⊎ (b + block_length j ≤ a))
unfolding value_or
allocate_mem-apart m n base size carved free i a v class e = elim (allocate_mem-Given v i class) [
  | inr (no_room, _, _) ↦ absurd (exit_ok (sym no_room ∙ e))
  | inl (a', n', carved', free', g) ↦
      let same : a' ≡ a = ap (value_or null) (sym g.given ∙ e) in
      let mine : is_live carved' free' i a ≡ true = ground (arith, same, g.live i a class) in
      let (_, lo, hi) = live_apart g.arena i i a a mine mine in
      (
        lo,
        hi,
        λ j b live.
            let (_, _, jclass) = Carved-bounds base m.tail carved j b v.blocks (ground arith) in
            let still : is_live carved' free' j b ≡ true = ground (arith, g.live j b jclass) in
            elim (live_apart g.arena i j a b mine still).0 [
              | inr apart ↦ apart
              | inl (i_j, a_b) ↦ absurd (ground (arith, i_j, a_b, same, g.fresh))
            ],
      )
]
