-- ===== src/Memory/Release.antt =====
-- `release_mem` and `memory_init` on the arena, and what the arena promises of live blocks.
use microcsp.Base.{
  ℕ, ◌+◌, ◌≤◌, ◌<◌, ◌%◌, ◌≡◌, refl, ◌≢◌, ◌⊎◌, inl, inr, true, false, not, ◌&&◌, List, [], ◌∷◌,
  arith, ltb, ◌==◌, if◌then◌else◌, update, has, IsDistinct, Bool-cases, update_case, update_case₂,
  u32_mod,
}
use microcsp.Machine.{Ptr, null, Machine, ok}
use microcsp.Machine.Chain.{Chain, Chain-update}
use microcsp.Hardware.{enable_interrupts, disable_interrupts}
use microcsp.Memory.{nalloc, release_mem, memory_init}
use microcsp.Memory.Arena.{
  Blocks, block_length, has_block, IsArena, is_live, Carved-bounds, Carved-apart, same_class,
}

release_live :
    (carved : Blocks) (free : ℕ → List Ptr) (i : ℕ) (a : Ptr) (j : ℕ) (b : Ptr)
    → is_live carved (update free i (a ∷ free i)) j b
      ≡ (is_live carved free j b && not (i == j && a == b))
release_live carved free i a j b = ground arith

module _ {m : Machine} {base size : ℕ} {carved : Blocks} {free : ℕ → List Ptr}
    (v : IsArena m base size carved free) where
  -- A live block is in no free list.
  pub live-not-free :
      (i : ℕ) (a : Ptr)
      → is_live carved free i a ≡ true
      → (j : ℕ) → j < nalloc
      → has a (free j) ≡ false
  live-not-free i a live j lt = elim (Bool-cases (has a (free j))) [
    | inl h ↦
        let e = same_class base m.tail carved i j a v.blocks (ground arith) (v.owned j a lt h) in
        absurd (ground (arith, e))
    | inr h ↦ h
  ]

  -- A live block that is released goes to the head of its class's list: the arena stays
  -- well-formed, and that block is the only one that is live no more.
  pub release_mem-IsArena :
      (i : ℕ) (a : Ptr)
      → is_live carved free i a ≡ true
      → IsArena (release_mem i a m) base size carved (update free i (a ∷ free i))
        × ((j : ℕ) (b : Ptr)
            → is_live carved (update free i (a ∷ free i)) j b
              ≡ (is_live carved free j b && not (i == j && a == b)))
  unfolding release_mem enable_interrupts disable_interrupts
  release_mem-IsArena i a live =
      let mine : has_block i a carved ≡ true = ground arith in
      let (lo, _, class) = Carved-bounds base m.tail carved i a v.blocks mine in
      let ne : a ≢ null = omega (arith, v.ne_null) in
      let next' = update m.next a (m.procmemlist i) in
      let step : next' a ≡ m.procmemlist i = ground arith in
      let rest =
        Chain-update m.next a (m.procmemlist i) _ (free i) (live-not-free i a live i class)
          (v.lists i class) in
      (
        record {
          ne_null = v.ne_null;
          blocks = v.blocks;
          total = v.total;
          lists = λ j lt.
              update_case₂ (λ _ p ys. Chain next' p ys) m.procmemlist free i a (a ∷ free i) j
                (refl, ne, rw step rest)
                (Chain-update m.next a _ _ (free j) (live-not-free i a live j lt) (v.lists j lt));
          distinct = λ j lt.
              update_case (λ _ ys. IsDistinct ys) free i (a ∷ free i) j
                (live-not-free i a live i class, v.distinct i class) (v.distinct j lt);
          owned = λ j b lt.
              update_case (λ k ys. has b ys ≡ true → has_block k b carved ≡ true) free i
                (a ∷ free i) j (λ h. ground (arith, v.owned i b class)) (v.owned j b lt);
        },
        release_live carved free i a,
      )

  -- Any two live blocks are one and the same or do not overlap, and each lies in the memory that
  -- `memory_init` was given.
  pub live_apart :
      (i j : ℕ) (a b : Ptr)
      → is_live carved free i a ≡ true
      → is_live carved free j b ≡ true
      → (((i ≡ j) × (a ≡ b)) ⊎ (a + block_length i ≤ b) ⊎ (b + block_length j ≤ a))
        × (base ≤ a)
        × (a + block_length i ≤ base + size)
  live_apart i j a b h k =
      let (lo, hi, _) = Carved-bounds base m.tail carved i a v.blocks (ground arith) in
      (
        Carved-apart base m.tail carved i j a b v.blocks (ground arith) (ground arith),
        lo,
        omega (arith, hi, v.total),
      )

-- The state in which `memory_init` returns.
abbrev pub whole_tail : (block memlen : ℕ) → Machine → Machine
whole_tail block memlen m = record m {
  procmemlist = λ i. if ltb i nalloc then null else m.procmemlist i;
  tail = block;
  taillen = memlen % u32_mod;
}

pub memory_init-ok :
    (block memlen : ℕ) (m : Machine)
    → block ≢ null
    → memory_init block memlen m ≡ ok tt (whole_tail block memlen m)
unfolding memory_init
memory_init-ok block memlen m ne = let e : (block == null) ≡ false = ground arith in rw e refl

pub whole_tail-IsArena :
    (block memlen : ℕ) (m : Machine)
    → block ≢ null
    → IsArena (whole_tail block memlen m) block (memlen % u32_mod) [] (λ _. [])
whole_tail-IsArena block memlen m ne = record {
  ne_null = ne;
  blocks = refl;
  total = refl;
  lists = λ i lt. ground arith;
  distinct = λ i lt. tt;
  owned = λ i a lt h. cc;
}

-- `memory_init` starts with a well-formed arena over the block that `Malloc` returned, of which
-- nothing has been cut.
pub memory_init-IsArena :
    (block memlen : ℕ) (m : Machine)
    → block ≢ null
    → (n : Machine) × (memory_init block memlen m ≡ ok tt n)
      × IsArena n block (memlen % u32_mod) [] (λ _. [])
memory_init-IsArena block memlen m ne = (
  whole_tail block memlen m,
  memory_init-ok block memlen m ne,
  whole_tail-IsArena block memlen m ne,
)
