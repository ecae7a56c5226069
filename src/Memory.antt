-- ===== src/Memory.antt =====
-- src/memory.c: Brinch Hansen's allocator. A released block of a size class is kept in the class's
-- list, linked through its first word, and is given out again before the tail is cut.
pub mod Arena
pub mod Index
pub mod Release
pub mod Apart
pub mod Reuse
pub mod Allocate
use microcsp.Base.{
  ℕ, ◌+◌, ◌-◌, List, [], ◌∷◌, ltb, leb, ◌==◌, if◌then◌else◌, update, get_or, u32_mod, ◌%◌,
}
use microcsp.Machine.{
  Ptr, null, Machine, Outcome, ok, exit, Cmd, ◌>>=◌, ◌>>◌, pure, get, modify, error, error_if,
  undefined, no_block_large_enough, out_of_memory, memory_init_malloc,
}
use microcsp.Hardware.{enable_interrupts, disable_interrupts}

-- maximum number of memory allocation sizes
abbrev pub nalloc : ℕ
nalloc = 16

-- length of block for each index, in bytes
abbrev pub procmemlen : List ℕ
procmemlen = 8 ∷ 12 ∷ 16 ∷ 24 ∷ 32 ∷ 40 ∷ 56 ∷ 58 ∷ 64 ∷ 70 ∷ 80 ∷ 96 ∷ 112 ∷ 128 ∷ 160 ∷ 192 ∷ []

-- The loop of `find_mem_index` from element `i` on: it stops at a length that is 0 or large enough,
-- and reads past the array where there is none.
unfoldable pub find_from : List ℕ → (i size : ℕ) → Cmd ℕ
find_from [] i size = undefined
find_from (len ∷ lens) i size =
    let later = find_from lens (i + 1) size in
    if len == 0 then error no_block_large_enough else if leb size len then pure i else later

unfoldable pub find_mem_index : ℕ → Cmd ℕ
unfolding find_from
find_mem_index size = find_from procmemlen 0 size

-- The part of `allocate_mem` that cuts a block from the tail.
unfoldable pub cut_tail : ℕ → Machine → Outcome Ptr
cut_tail len m =
    if leb len m.taillen
    then ok m.tail (record m { tail = m.tail + len; taillen = m.taillen - len })
    else exit out_of_memory

-- The part that takes the first block of the class's list.
unfoldable pub unlink_first : ℕ → Machine → Machine
unlink_first index m = record m {
  procmemlist = update m.procmemlist index (m.next (m.procmemlist index));
}

unfoldable pub take_block : ℕ → Cmd Ptr
unfolding cut_tail unlink_first
take_block index m =
    if m.procmemlist index == null
    then cut_tail (get_or procmemlen index 0) m
    else ok (m.procmemlist index) (unlink_first index m)

unfoldable pub allocate_mem : ℕ → Cmd Ptr
unfolding take_block
allocate_mem index = do
  modify disable_interrupts
  block ← take_block index
  modify enable_interrupts
  pure block

unfoldable pub release_mem : ℕ → Ptr → Machine → Machine
release_mem index addr m =
    let m' = disable_interrupts m in
    enable_interrupts (record m' {
      next = update m'.next addr (m'.procmemlist index);
      procmemlist = update m'.procmemlist index addr;
    })

-- `block` is what `Malloc` returns.
unfoldable pub memory_init : (block memlen : ℕ) → Cmd (Unit {0})
memory_init block memlen = do
  modify (λ m. record m {
    procmemlist = λ i. if ltb i nalloc then null else m.procmemlist i;
    tail = block;
  })
  error_if (block == null) memory_init_malloc
  modify (λ m. record m { taillen = memlen % u32_mod })
