-- ===== src/Ready/Again.antt =====
-- `append` of a process that stands in its queue already.
use microcsp.Base.{
  ◌<◌, ◌≡◌, sym, ap, ◌∙◌, ◌≢◌, false, true, List, [], ◌∷◌, ◌++◌, arith, ◌==◌, has, has-append,
  last_or, last_or-append, last_or-append_append, has-last_or, IsDistinct, distinct_parts, ==_iff,
}
use microcsp.Machine.{Ptr, null, Machine, ReadyQ}
use microcsp.Machine.Chain.{Chain-cut, Chain-ne_null, Chain-suffix, last-ne_null}
use microcsp.Ready.{levels, append, link_last}
use microcsp.Ready.Queues.{IsReady, IsQueue, Queues}

apart_from_part :
    (a b : Ptr) (xs ys : List Ptr)
    → IsDistinct (xs ++ ys)
    → has a xs ≡ true
    → has b ys ≡ true
    → (b == a) ≡ false
apart_from_part a b xs ys d i j = ground (arith, ==_iff b a, distinct_parts a xs ys d i)

IsDistinct-front :
    (p : Ptr) (front back : List Ptr)
    → IsDistinct (front ++ p ∷ back)
    → IsDistinct (front ++ p ∷ [])
IsDistinct-front p [] back d = ground arith
IsDistinct-front p (x ∷ front) back d = ground (
  arith,
  IsDistinct-front p front back d.1,
  has-append x front (p ∷ back),
  has-append x front (p ∷ []),
)

module _ (p : Ptr) (m : Machine) (qs : Queues) (v : IsReady m qs) (front back : List Ptr) where
  pub append-cut :
      (m.process p).pri < levels
      → qs (m.process p).pri ≡ front ++ p ∷ back
      → IsQueue (append p m).next ((append p m).ready_q (m.process p).pri) (front ++ p ∷ [])
  unfolding append link_last
  append-cut level e =
      let l = (m.process p).pri in
      let queue = m.ready_q l in
      let chain = rw e at (v.queues l level).chain in
      let distinct = rw e at (v.queues l level).distinct in
      let last : queue.tail ≡ last_or p back =
        (v.queues l level).last
        ∙ ap (last_or null) e
        ∙ last_or-append_append null front (p ∷ back) in
      let here = Chain-suffix m.next queue.head front (p ∷ back) chain in
      let last_ne : last_or p back ≢ null = last-ne_null m.next p p back here in
      let some_head : (queue.head == null) ≡ false =
        ground (arith, Chain-ne_null m.next queue.head p front back chain) in
      let some_tail : (queue.tail == null) ≡ false = ground (arith, last, last_ne) in
      let self : (l == l) ≡ true = ground arith in
      rw (self, some_head)
        (record {
          chain =
              Chain-cut m.next _ queue.head p front back chain
                (λ a i. spared queue a distinct last i) (ends queue);
          last = sym (last_or-append null p front);
          distinct = IsDistinct-front p front back distinct;
        })
    where
      spared :
          (queue : ReadyQ) (a : Ptr)
          → IsDistinct (front ++ p ∷ back)
          → queue.tail ≡ last_or p back
          → has a front ≡ true
          → link_last queue p m.next a ≡ m.next a
      spared queue a distinct last i =
          let from_p = apart_from_part a p front (p ∷ back) distinct i (ground arith) in
          let from_tail =
            apart_from_part a (last_or p back) front (p ∷ back) distinct i (has-last_or p back) in
          let from_tail' : (queue.tail == a) ≡ false = rw last from_tail in ground arith

      ends : (queue : ReadyQ) → link_last queue p m.next p ≡ null
      ends queue = ground arith
