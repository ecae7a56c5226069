-- ===== src/Tests/Blocks.antt =====
-- Runs of the allocator of src/memory.c.
use microcsp.Base.{
  ℕ, ◌+◌, ◌≤◌, ◌<◌, ◌≡◌, refl, ◌⊎◌, true, not, ◌&&◌, ◌||◌, List, [], ◌∷◌, arith, ◌==◌, update,
  update_case, update_case₂, has, IsDistinct,
}
use microcsp.Machine.{Ptr, null, Machine, ok, exit, out_of_memory}
use microcsp.Machine.Chain.{Chain}
use microcsp.Hardware.{enable_interrupts, disable_interrupts}
use microcsp.Memory.{procmemlen, find_mem_index, allocate_mem, release_mem}
use microcsp.Memory.Arena.{Blocks, block_length, has_block, IsArena, is_live}
use microcsp.Memory.Index.{IsSmallest, find_mem_index-IsSmallest}
use microcsp.Memory.Allocate.{Given, allocate_mem-Given}
use microcsp.Memory.Release.{release_mem-IsArena}
use microcsp.Memory.Apart.{allocate_mem-apart}
use microcsp.Tests.{loaded}

-- Two blocks have been cut, at 1000 and 1012, and the first has been released.
abbrev two_blocks : Machine
two_blocks = record loaded { tail = 1028; taillen = 72; procmemlist = update (λ _. null) 1 1000 }

abbrev cut : Blocks
cut = (2, 1012) ∷ (1, 1000) ∷ []

abbrev released : ℕ → List Ptr
released = update (λ _. []) 1 (1000 ∷ [])

two_blocks-IsArena : IsArena two_blocks 1000 100 cut released
two_blocks-IsArena = record {
  ne_null = omega arith;
  blocks = (omega arith, refl, (omega arith, refl, refl));
  total = refl;
  lists = λ i lt.
      update_case₂ (λ _ p ys. Chain (λ _. null) p ys) (λ _. null) (λ _. []) 1 1000 (1000 ∷ []) i
        (refl, omega arith, refl) refl;
  distinct = λ i lt. update_case (λ _ ys. IsDistinct ys) (λ _. []) 1 (1000 ∷ []) i (refl, tt) tt;
  owned = λ i a lt.
      update_case (λ k ys. has a ys ≡ true → has_block k a cut ≡ true) (λ _. []) 1 (1000 ∷ []) i
        (λ h. ground arith) (λ h. absurd (ground arith));
}

allocate_mem-Given_example :
    ((a : Ptr) × (n : Machine) × (carved' : Blocks) × (free' : ℕ → List Ptr) × Given two_blocks n
        1000 100 cut carved' released free' 1 a)
    ⊎ ((allocate_mem 1 two_blocks ≡ exit out_of_memory) × (released 1 ≡ []) × (72 < block_length 1))
allocate_mem-Given_example = allocate_mem-Given two_blocks-IsArena 1 (omega arith)

release_mem-IsArena_example :
    IsArena (release_mem 2 1012 two_blocks) 1000 100 cut (update released 2 (1012 ∷ []))
    × ((j : ℕ) (b : Ptr)
        → is_live cut (update released 2 (1012 ∷ [])) j b
          ≡ (is_live cut released j b && not (2 == j && 1012 == b)))
release_mem-IsArena_example = release_mem-IsArena two_blocks-IsArena 2 1012 refl

-- The allocation in class 1 gives the released block back.
abbrev given_again : Machine
given_again = record two_blocks {
  procmemlist = update two_blocks.procmemlist 1 null;
  blocked =
      λ s. (two_blocks.blocked s || two_blocks.all_signals s) && not (two_blocks.all_signals s);
}

given : allocate_mem 1 two_blocks ≡ ok 1000 given_again
unfolding allocate_mem disable_interrupts enable_interrupts
given = refl

allocate_mem-apart_example :
    (1000 ≤ 1000)
    × (1000 + block_length 1 ≤ 1000 + 100)
    × ((j : ℕ) (b : Ptr)
        → is_live cut released j b ≡ true
        → (1000 + block_length 1 ≤ b) ⊎ (b + block_length j ≤ 1000))
allocate_mem-apart_example =
    allocate_mem-apart two_blocks given_again 1000 100 cut released 1 1000 two_blocks-IsArena
      (omega arith) given

find_mem_index-IsSmallest_example :
    (k : ℕ) × (find_mem_index 57 loaded ≡ ok k loaded) × IsSmallest procmemlen 57 k
find_mem_index-IsSmallest_example = find_mem_index-IsSmallest 57 loaded (omega arith)
