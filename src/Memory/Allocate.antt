-- ===== src/Memory/Allocate.antt =====
-- `allocate_mem` on the arena: a block that nobody holds, or the end of the program.
use microcsp.Base.{
  ℕ, ◌+◌, ◌-◌, ◌≤◌, ◌<◌, ◌≡◌, refl, ◌⊎◌, inl, inr, true, false, ◌&&◌, ◌||◌, List, [], ◌∷◌, arith,
  leb, ◌==◌, update, has, IsDistinct, Bool-cases, List-cases, update_case, update_case₂,
}
use microcsp.Machine.{Ptr, null, Machine, ok, exit, out_of_memory}
use microcsp.Machine.Chain.{Chain}
use microcsp.Hardware.{enable_interrupts, disable_interrupts}
use microcsp.Memory.{nalloc, allocate_mem, unlink_first}
use microcsp.Memory.Reuse.{allocate_mem-listed, allocate_mem-cut, allocate_mem-exit}
use microcsp.Memory.Arena.{
  Blocks, block_length, has_block, Carved, IsArena, is_live, Carved-bounds, block_length-pos,
}

take_live :
    (carved : Blocks) (free : ℕ → List Ptr) (i : ℕ) (x : Ptr) (xs : List Ptr)
    → free i ≡ x ∷ xs
    → has_block i x carved ≡ true
    → has x xs ≡ false
    → (j : ℕ) (b : Ptr)
    → is_live carved (update free i xs) j b ≡ (is_live carved free j b || (i == j && x == b))
take_live carved free i x xs e mine out j b = ground arith

new_block : (base end : Ptr) (bs : Blocks) (i : ℕ) → Carved base end bs → has_block i end bs ≡ false
new_block base end bs i c = elim (Bool-cases (has_block i end bs)) [
  | inl h ↦
      let (_, le, class) = Carved-bounds base end bs i end c h in
      absurd (omega (arith, block_length-pos i class))
  | inr h ↦ h
]

cut_live :
    (carved : Blocks) (free : ℕ → List Ptr) (i : ℕ) (t : Ptr)
    → has t (free i) ≡ false
    → has_block i t carved ≡ false
    → (j : ℕ) (b : Ptr)
    → is_live ((i, t) ∷ carved) free j b ≡ (is_live carved free j b || (i == j && t == b))
cut_live carved free i t out new j b = ground arith

-- An outcome of `allocate_mem`: an address that was not live, is so afterwards, and is the only
-- change of what is live.
pub record Given (m n : Machine) (base size : ℕ) (carved carved' : Blocks)
    (free free' : ℕ → List Ptr) (i : ℕ) (a : Ptr) : Type 0 where
  pub given : allocate_mem i m ≡ ok a n
  pub arena : IsArena n base size carved' free'
  pub fresh : is_live carved free i a ≡ false
  pub live :
      (j : ℕ) (b : Ptr)
      → j < nalloc
      → is_live carved' free' j b ≡ (is_live carved free j b || (i == j && a == b))

module _ {m : Machine} {base size : ℕ} {carved : Blocks} {free : ℕ → List Ptr}
    (v : IsArena m base size carved free) (i : ℕ) (class : i < nalloc) where
  pub listed-Given :
      (x : Ptr) (xs : List Ptr)
      → free i ≡ x ∷ xs
      → Given m
          (enable_interrupts (unlink_first i (disable_interrupts m)))
          base
          size
          carved
          carved
          free
          (update free i xs)
          i
          x
  unfolding unlink_first enable_interrupts disable_interrupts
  listed-Given x xs e =
      let (head, ne, rest) = rw e at (v.lists i class) in
      let (out, once) = rw e at (v.distinct i class) in
      let mine : has_block i x carved ≡ true = v.owned i x class (ground arith) in
      record {
        given = ground (arith, allocate_mem-listed i m);
        arena = record {
          ne_null = v.ne_null;
          blocks = v.blocks;
          total = v.total;
          lists = λ j lt.
              update_case₂ (λ _ p ys. Chain m.next p ys) m.procmemlist free i _ xs j (rw head rest)
                (v.lists j lt);
          distinct = λ j lt. update_case (λ _ ys. IsDistinct ys) free i xs j once (v.distinct j lt);
          owned = λ j a lt.
              update_case (λ k ys. has a ys ≡ true → has_block k a carved ≡ true) free i xs j
                (λ h. v.owned i a class (rw e (ground arith))) (v.owned j a lt);
        };
        fresh = ground arith;
        live = λ j b lt. take_live carved free i x xs e mine out j b;
      }

  pub cut-Given :
      free i ≡ []
      → block_length i ≤ m.taillen
      → Given m
          (enable_interrupts (record (disable_interrupts m) {
            tail = m.tail + block_length i;
            taillen = m.taillen - block_length i;
          }))
          base
          size
          carved
          ((i, m.tail) ∷ carved)
          free
          free
          i
          m.tail
  unfolding enable_interrupts disable_interrupts
  cut-Given e room =
      let head : m.procmemlist i ≡ null = rw e at (v.lists i class) in
      let new : has_block i m.tail carved ≡ false = new_block base m.tail carved i v.blocks in
      record {
        given = allocate_mem-cut i m head room;
        arena = record {
          ne_null = v.ne_null;
          blocks = (class, refl, v.blocks);
          total = omega (arith, v.total);
          lists = v.lists;
          distinct = v.distinct;
          owned = λ j a lt h. ground (arith, v.owned j a lt h);
        };
        fresh = ground arith;
        live = λ j b lt. cut_live carved free i m.tail (rw e refl) new j b;
      }

  -- On a well-formed arena `allocate_mem` gives out an address that was not live, keeps the arena
  -- well-formed and makes nothing else live; or it ends the program, which it does only if the
  -- class's list is empty and the tail too short.
  pub allocate_mem-Given :
      ((a : Ptr) × (n : Machine) × (carved' : Blocks) × (free' : ℕ → List Ptr) × Given m n base size
          carved carved' free free' i a)
      ⊎ ((allocate_mem i m ≡ exit out_of_memory) × (free i ≡ []) × (m.taillen < block_length i))
  allocate_mem-Given = elim (List-cases (free i)) [
    | inl e ↦ elim (Bool-cases (leb (block_length i) m.taillen)) [
      | inl room ↦ inl (m.tail, _, _, _, cut-Given e (ground arith))
      | inr full ↦
          let short : m.taillen < block_length i = ground arith in
          inr (allocate_mem-exit i m (rw e at (v.lists i class)) short, e, short)
    ]
    | inr (x, xs, e) ↦ inl (x, _, carved, _, listed-Given x xs e)
  ]
