-- ===== src/Kernel/Frames.antt =====
-- What an operation on the ready queues leaves of the arena, and the other way round.
use microcsp.Base.{
  ℕ, ◌<◌, ◌≡◌, refl, ap, true, false, List, arith, ◌==◌, ==_iff, has, Bool-cases, inl, inr,
}
use microcsp.Machine.{Ptr, null, Machine}
use microcsp.Machine.Chain.{Chain-frame, Chain-update}
use microcsp.Memory.{nalloc}
use microcsp.Memory.Arena.{Blocks, IsArena, is_live}
use microcsp.Memory.Release.{live-not-free}
use microcsp.Ready.{levels, append, link_last, set_queue}
use microcsp.Ready.Queues.{Queues, IsReady, tail-mem}
use microcsp.Memory.{release_mem}
use microcsp.Hardware.{enable_interrupts, disable_interrupts}

module _ {m : Machine} {base size : ℕ} {carved : Blocks} {free : ℕ → List Ptr}
    (v : IsArena m base size carved free) where
  -- The arena stays where the allocator's variables and the links of the free blocks do.
  pub IsArena-frame :
      (n : Machine)
      → n.procmemlist ≡ m.procmemlist
      → n.tail ≡ m.tail
      → n.taillen ≡ m.taillen
      → ((i : ℕ) (a : Ptr) → i < nalloc → has a (free i) ≡ true → n.next a ≡ m.next a)
      → IsArena n base size carved free
  IsArena-frame n lists tail taillen links = record {
    ne_null = v.ne_null;
    blocks = rw tail v.blocks;
    total = rw (tail, taillen) v.total;
    lists = λ i lt. rw lists (
        Chain-frame m.next n.next (m.procmemlist i) (free i) (v.lists i lt)
          (λ a h. links i a lt h));
    distinct = v.distinct;
    owned = v.owned;
  }

  -- A change of the link of a live block spares the free lists.
  pub live-apart_from-free :
      (j : ℕ) (p : Ptr)
      → is_live carved free j p ≡ true
      → (i : ℕ) (a : Ptr) → i < nalloc
      → has a (free i) ≡ true
      → (p == a) ≡ false
  live-apart_from-free j p live i a lt h = elim (Bool-cases (p == a)) [
    | inl e ↦
        absurd (
          ground
            (arith, live-not-free v j p live i lt, ap (λ b. has b (free i)) ((==_iff p a).0 e)))
    | inr e ↦ e
  ]

module _ {m : Machine} {base size : ℕ} {carved : Blocks} {free : ℕ → List Ptr} {qs : Queues}
    (v : IsArena m base size carved free) (r : IsReady m qs)
    (held : (l : ℕ) (a : Ptr)
      → l < levels
      → has a (qs l) ≡ true
      → is_live carved free (m.process a).index a ≡ true) where
  -- `append` writes the links of its process and of the last one of the queue, which are live.
  pub append-IsArena :
      (p : Ptr) (i : ℕ)
      → is_live carved free i p ≡ true
      → (m.process p).pri < levels
      → IsArena (append p m) base size carved free
  unfolding append set_queue link_last
  append-IsArena p i live level =
      let l = (m.process p).pri in
      let queue = m.ready_q l in
      IsArena-frame v (append p m) refl refl refl (λ j a lt h.
        elim (Bool-cases (queue.tail == null)) [
          | inl empty ↦ ground (arith, live-apart_from-free v i p live j a lt h)
          | inr last ↦ ground (
            arith,
            live-apart_from-free v i p live j a lt h,
            live-apart_from-free v _ queue.tail
                (held l queue.tail level (tail-mem r l (qs l) level (r.queues l level) last)) j a lt
                h,
          )
        ])

  -- `release_mem` writes the link of a block that stands in no queue.
  pub release_mem-IsReady :
      (i : ℕ) (p : Ptr)
      → ((l : ℕ) → l < levels → has p (qs l) ≡ false)
      → IsReady (release_mem i p m) qs
  unfolding release_mem enable_interrupts disable_interrupts
  release_mem-IsReady i p out = record {
    queues = λ l lt.
        let q = r.queues l lt in
        record {
          chain = Chain-update m.next p _ _ (qs l) (out l lt) q.chain;
          last = q.last;
          distinct = q.distinct;
        };
    pri = r.pri;
    mask_range = r.mask_range;
    bits = r.bits;
  }
