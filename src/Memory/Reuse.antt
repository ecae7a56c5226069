-- ===== src/Memory/Reuse.antt =====
-- The three ways of an allocation, and reuse: a released block is the next one that its class
-- gives.
use microcsp.Base.{ℕ, ◌+◌, ◌-◌, ◌≤◌, ◌<◌, ◌≡◌, ◌≢◌, true, false, arith, leb, ◌==◌, get_or}
use microcsp.Machine.{null, Machine, ok, exit, out_of_memory}
use microcsp.Hardware.{enable_interrupts, disable_interrupts}
use microcsp.Memory.{procmemlen, unlink_first, allocate_mem}

module _ (index : ℕ) (m : Machine) where
  pub allocate_mem-listed :
      m.procmemlist index ≢ null
      → allocate_mem index m
        ≡ ok (m.procmemlist index) (enable_interrupts (unlink_first index (disable_interrupts m)))
  unfolding allocate_mem disable_interrupts
  allocate_mem-listed ne = let e : (m.procmemlist index == null) ≡ false = ground arith in rw e

  pub allocate_mem-cut :
      m.procmemlist index ≡ null
      → get_or procmemlen index 0 ≤ m.taillen
      → allocate_mem index m
        ≡ ok m.tail (
            enable_interrupts (record (disable_interrupts m) {
              tail = m.tail + get_or procmemlen index 0;
              taillen = m.taillen - get_or procmemlen index 0;
            }))
  unfolding allocate_mem disable_interrupts
  allocate_mem-cut e h =
      let e' : (m.procmemlist index == null) ≡ true = ground arith in
      let h' : leb (get_or procmemlen index 0) m.taillen ≡ true = ground arith in rw (e', h')

  pub allocate_mem-exit :
      m.procmemlist index ≡ null
      → m.taillen < get_or procmemlen index 0
      → allocate_mem index m ≡ exit out_of_memory
  unfolding allocate_mem disable_interrupts
  allocate_mem-exit e h =
      let e' : (m.procmemlist index == null) ≡ true = ground arith in
      let h' : leb (get_or procmemlen index 0) m.taillen ≡ false = ground arith in rw (e', h')

-- What `allocate_mem` and `release_mem` leave alone: all but the free lists, the links, the tail
-- and the signal mask.
pub record SameFree (m n : Machine) : Type 0 where
  pub lists : (j : ℕ) → n.procmemlist j ≡ m.procmemlist j
  pub tail : n.tail ≡ m.tail
  pub taillen : n.taillen ≡ m.taillen
