-- ===== src/Memory/Arena.antt =====
-- The allocator's invariant: the blocks cut so far fill the memory up to the tail, and every free
-- list holds cut blocks of its own class, each once.
use microcsp.Base.{
  ℕ, ◌+◌, ◌≤◌, ◌<◌, ◌≡◌, refl, ◌≢◌, ◌⊎◌, inl, inr, Bool, true, false, not, ◌&&◌, ◌||◌, List, [],
  ◌∷◌, arith, ltb, ◌==◌, get_or, has, IsDistinct, all_below, all_below_sound, Bool-cases,
}
use microcsp.Machine.{Ptr, null, Machine}
use microcsp.Machine.Chain.{Chain}
use microcsp.Memory.{nalloc, procmemlen}

-- size class and address of each block, the latest first
abbrev pub Blocks : Type 0
Blocks = List (ℕ × Ptr)

abbrev pub block_length : ℕ → ℕ
block_length i = get_or procmemlen i 0

abbrev pub has_block : ℕ → Ptr → Blocks → Bool
has_block i a [] = false
has_block i a ((j, b) ∷ bs) = (i == j && a == b) || has_block i a bs

-- The blocks lie side by side from `base` up to `end`.
abbrev pub Carved : Ptr → Ptr → Blocks → Type 0
Carved base end [] = end ≡ base
Carved base end ((i, a) ∷ bs) = (i < nalloc) × (end ≡ a + block_length i) × Carved base a bs

pub record IsArena (m : Machine) (base size : ℕ) (carved : Blocks) (free : ℕ → List Ptr)
    : Type 0 where
  pub ne_null : base ≢ null
  pub blocks : Carved base m.tail carved
  pub total : m.tail + m.taillen ≡ base + size
  pub lists : (i : ℕ) → i < nalloc → Chain m.next (m.procmemlist i) (free i)
  pub distinct : (i : ℕ) → i < nalloc → IsDistinct (free i)
  pub owned : (i : ℕ) (a : Ptr) → i < nalloc → has a (free i) ≡ true → has_block i a carved ≡ true

-- The program holds a block that has been cut and is in no free list.
abbrev pub is_live : Blocks → (ℕ → List Ptr) → ℕ → Ptr → Bool
is_live carved free i a = has_block i a carved && not (has a (free i))

pub block_length-pos : (i : ℕ) → i < nalloc → 0 < block_length i
unfolding all_below
block_length-pos i h =
    let e = all_below_sound nalloc (λ i. ltb 0 (block_length i)) i refl h in ground arith

Carved-le : (base end : Ptr) (bs : Blocks) → Carved base end bs → base ≤ end
Carved-le base end [] c = omega arith
Carved-le base end ((j, b) ∷ bs) c = omega (arith, Carved-le base b bs c.2)

-- A block of the arena lies between its ends.
pub Carved-bounds :
    (base end : Ptr) (bs : Blocks) (i : ℕ) (a : Ptr)
    → Carved base end bs
    → has_block i a bs ≡ true
    → (base ≤ a) × (a + block_length i ≤ end) × (i < nalloc)
Carved-bounds base end [] i a c h = absurd (ground arith)
Carved-bounds base end ((j, b) ∷ bs) i a (lt, e, c) h = elim (Bool-cases (i == j && a == b)) [
  | inl here ↦
      let same_class : i ≡ j = ground arith in
      let same_addr : a ≡ b = ground arith in
      rw (same_class, same_addr) (Carved-le base b bs c, omega (arith, e), lt)
  | inr later ↦
      let (lo, hi, ok_class) = Carved-bounds base b bs i a c (ground arith) in
      (lo, omega (arith, e, hi), ok_class)
]

head_block : (i l : ℕ) (a d : Ptr) → (i == l && a == d) ≡ true → (i ≡ l) × (a ≡ d)
head_block i l a d h = ground arith

both_head :
    (i j l : ℕ) (a b d : Ptr)
    → (i == l && a == d) ≡ true
    → (j == l && b == d) ≡ true
    → (i ≡ j) × (a ≡ b)
both_head i j l a b d h k = ground arith

later_block :
    (i l : ℕ) (a d : Ptr) (bs : Blocks)
    → (i == l && a == d) ≡ false
    → has_block i a ((l, d) ∷ bs) ≡ true
    → has_block i a bs ≡ true
later_block i l a d bs n h = rw n at h

-- Two blocks are one and the same, or they do not overlap.
pub Carved-apart :
    (base end : Ptr) (bs : Blocks) (i j : ℕ) (a b : Ptr)
    → Carved base end bs
    → has_block i a bs ≡ true
    → has_block j b bs ≡ true
    → ((i ≡ j) × (a ≡ b)) ⊎ (a + block_length i ≤ b) ⊎ (b + block_length j ≤ a)
Carved-apart base end [] i j a b c h k = absurd (ground arith)
Carved-apart base end ((l, d) ∷ bs) i j a b (lt, e, c) h k = elim (Bool-cases (i == l && a == d)) [
  | inl hi ↦ elim (Bool-cases (j == l && b == d)) [
    | inl hj ↦ inl (both_head i j l a b d hi hj)
    | inr nj ↦
        let (_, le, _) = Carved-bounds base d bs j b c (later_block j l b d bs nj k) in
        let (_, at) = head_block i l a d hi in inr (inr (omega (arith, le, at)))
  ]
  | inr ni ↦ elim (Bool-cases (j == l && b == d)) [
    | inl hj ↦
        let (_, le, _) = Carved-bounds base d bs i a c (later_block i l a d bs ni h) in
        let (_, at) = head_block j l b d hj in inr (inl (omega (arith, le, at)))
    | inr nj ↦
        Carved-apart base d bs i j a b c (later_block i l a d bs ni h) (later_block j l b d bs nj k)
  ]
]

-- An address belongs to one size class.
pub same_class :
    (base end : Ptr) (bs : Blocks) (i j : ℕ) (a : Ptr)
    → Carved base end bs
    → has_block i a bs ≡ true
    → has_block j a bs ≡ true
    → i ≡ j
same_class base end bs i j a c h k =
    let (_, _, li) = Carved-bounds base end bs i a c h in
    let (_, _, lj) = Carved-bounds base end bs j a c k in
    elim (Carved-apart base end bs i j a a c h k) [
      | inl (e, _) ↦ e
      | inr (inl le) ↦ absurd (omega (arith, block_length-pos i li))
      | inr (inr le) ↦ absurd (omega (arith, block_length-pos j lj))
    ]
