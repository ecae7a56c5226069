-- ===== src/Ready/Queues.antt =====
-- The ready queues as lists: what `append`, `take` and `highest_ready` do to them.
use microcsp.Base.{
  ℕ, ◌<◌, ◌≡◌, refl, sym, ap, subst, ◌≢◌, ◌⊎◌, inl, inr, Bool, true, false, not, List, [], ◌∷◌,
  ◌++◌, arith, ◌==◌, if◌then◌else◌, update, has, IsDistinct, Bool-cases, update_case,
  update_case_ne, last_or, last_or-append, append-IsDistinct, has-append, has-last_or, ==_iff,
}
use microcsp.Machine.{Ptr, null, Machine, ReadyQ}
use microcsp.Machine.Chain.{Chain, Chain-update, Chain-append, last-ne_null}
use microcsp.Ready.{
  levels, highest_ready, set_level, clear_level, take, append, set_queue, link_last,
}
use microcsp.Ready.Bits.{bit, bit-set_level, bit-clear_level, level_range}
use microcsp.Ready.Highest.{highest_ready-IsHighest}

abbrev pub is_empty : List Ptr → Bool
is_empty [] = true
is_empty (x ∷ xs) = false

is_empty-append : (p : Ptr) (xs : List Ptr) → is_empty (xs ++ p ∷ []) ≡ false
is_empty-append p [] = refl
is_empty-append p (x ∷ xs) = refl

is_empty-nil : (xs : List Ptr) → is_empty xs ≡ true → xs ≡ []
is_empty-nil [] h = refl
is_empty-nil (x ∷ xs) h = absurd (ground arith)

abbrev pub Queues : Type 0
Queues = ℕ → List Ptr

-- A queue descriptor and the links behind it hold the processes of a list.
pub record IsQueue (next : Ptr → Ptr) (q : ReadyQ) (xs : List Ptr) : Type 0 where
  pub chain : Chain next q.head xs
  pub last : q.tail ≡ last_or null xs
  pub distinct : IsDistinct xs

-- The ready queues hold the lists `qs`, each process at its own priority, and the mask shows the
-- levels that are not empty.
pub record IsReady (m : Machine) (qs : Queues) : Type 0 where
  pub queues : (l : ℕ) → l < levels → IsQueue m.next (m.ready_q l) (qs l)
  pub pri : (l : ℕ) (a : Ptr) → l < levels → has a (qs l) ≡ true → (m.process a).pri ≡ l
  pub mask_range : m.priority_mask < 256
  pub bits : (l : ℕ) → l < levels → bit l m.priority_mask ≡ not (is_empty (qs l))

module _ (next : Ptr → Ptr) (q : ReadyQ) where
  -- A queue without its first process.
  IsQueue-rest :
      (x : Ptr) (xs : List Ptr)
      → IsQueue next q (x ∷ xs)
      → IsQueue next
          (record { head = next q.head; tail = if next q.head == null then null else q.tail })
          xs
        × ((q.head == null) ≡ false)
        × (q.head ≡ x)
        × ((next q.head == null) ≡ is_empty xs)
  IsQueue-rest x [] v =
      let (h, ne, end) = v.chain in
      let end' : next q.head ≡ null = rw h end in
      (record { chain = end'; last = ground arith; distinct = tt }, ground arith, h, ground arith)
  IsQueue-rest x (y ∷ xs) v =
      let (h, ne, rest) = v.chain in
      let rest' : Chain next (next q.head) (y ∷ xs) = rw h rest in
      let more : (next q.head == null) ≡ false = ground (arith, rest'.0, rest'.1) in
      (
        record { chain = rest'; last = rw more v.last; distinct = v.distinct.1 },
        ground arith,
        h,
        more,
      )

  -- A queue with a new last process.
  IsQueue-append :
      (p : Ptr) (xs : List Ptr)
      → IsQueue next q xs
      → p ≢ null
      → has p xs ≡ false
      → IsQueue
          (link_last q p next)
          (record { head = if q.head == null then p else q.head; tail = p })
          (xs ++ p ∷ [])
        × ((q.head == null) ≡ is_empty xs)
  unfolding link_last
  IsQueue-append p [] v ne out =
      let h : (q.head == null) ≡ true = ground (arith, v.chain) in
      (record { chain = rw h (refl, ne, ground arith); last = refl; distinct = (refl, tt) }, h)
  IsQueue-append p (x ∷ xs) v ne out =
      let (h, xne, rest) = v.chain in
      let has_head : (q.head == null) ≡ false = ground arith in
      let has_tail : (q.tail == null) ≡ false =
        ground (arith, v.last, last-ne_null next q.head x xs v.chain) in
      let linked = Chain-append next p x xs (refl, xne, rest) v.distinct out ne in
      let links : link_last q p next ≡ update (update next (last_or x xs) p) p null =
        rw has_tail (ap (λ t. update (update next t p) p null) v.last) in
      (
        record {
          chain =
              subst (λ f. Chain f (if q.head == null then p else q.head) (x ∷ xs ++ p ∷ []))
                (sym links) (rw (has_head, h) linked);
          last = ground (arith, last_or-append x p xs);
          distinct = append-IsDistinct p (x ∷ xs) v.distinct out;
        },
        has_head,
      )

  -- The links of another queue stay.
  IsQueue-link_last :
      (p : Ptr) (r : ReadyQ) (ys : List Ptr)
      → has p ys ≡ false
      → ((q.tail == null) ≡ false → has q.tail ys ≡ false)
      → IsQueue next r ys
      → IsQueue (link_last q p next) r ys
  unfolding link_last
  IsQueue-link_last p r ys out out' v = elim (Bool-cases (q.tail == null)) [
    | inl e ↦ record {
      chain = rw e (Chain-update next p null r.head ys out v.chain);
      last = v.last;
      distinct = v.distinct;
    }
    | inr e ↦ record {
      chain = rw e (
          Chain-update (update next q.tail p) p null r.head ys out
            (Chain-update next q.tail p r.head ys (out' e) v.chain));
      last = v.last;
      distinct = v.distinct;
    }
  ]

module _ {m : Machine} {qs : Queues} (v : IsReady m qs) (l : ℕ) (level : l < levels) where
  -- A change of one level's queue, of the links and of that level's bit.
  set_queue-IsReady :
      (next' : Ptr → Ptr) (q : ReadyQ) (xs : List Ptr) (mask' : ℕ)
      → IsQueue next' q xs
      → ((j : ℕ) → j < levels → (l == j) ≡ false → IsQueue next' (m.ready_q j) (qs j))
      → ((a : Ptr) → has a xs ≡ true → (m.process a).pri ≡ l)
      → mask' < 256
      → ((j : ℕ)
          → j < levels
          → bit j mask' ≡ (if l == j then not (is_empty xs) else bit j m.priority_mask))
      → IsReady (set_queue l q mask' (record m { next = next' })) (update qs l xs)
  unfolding set_queue
  set_queue-IsReady next' q xs mask' mine others own range shown = record {
    queues = λ j lt.
        update_case_ne (λ _ r ys. IsQueue next' r ys) m.ready_q qs l q xs j mine (others j lt);
    pri = λ j a lt.
        update_case (λ k ys. has a ys ≡ true → (m.process a).pri ≡ k) qs l xs j (own a)
          (v.pri j a lt);
    mask_range = range;
    bits = λ j lt. ground (arith, shown j lt, v.bits j lt);
  }

  pub take-nil : qs l ≡ [] → take l m ≡ (null, m)
  unfolding take
  take-nil e =
      let c : (m.ready_q l).head ≡ null = rw e at (v.queues l level).chain in
      let t : ((m.ready_q l).head == null) ≡ true = ground arith in rw t (ground (arith, c))

  -- On a level that is not empty `take` gives the process that has waited longest; without it, the
  -- queues and the mask stay well-formed.
  pub take-cons :
      (x : Ptr) (xs : List Ptr)
      → qs l ≡ x ∷ xs
      → ((take l m).0 ≡ x) × IsReady (take l m).1 (update qs l xs)
  unfolding take
  take-cons x xs e =
      let queue = m.ready_q l in
      let (rest, more, head, none_left) =
        IsQueue-rest m.next queue x xs (rw e at (v.queues l level)) in
      rw more (
        head,
        set_queue-IsReady m.next _ xs _ rest (λ j lt _. v.queues j lt)
            (λ a h. v.pri l a level (rw e (ground arith)))
            (cleared_range (m.next queue.head == null))
            λ j lt. ground (
              arith,
              none_left,
              bit-clear_level m.priority_mask l v.mask_range level j lt,
              v.bits l level,
              ap is_empty e,
            ),
      )
    where
      cleared_range :
          (b : Bool) → (if b then clear_level m.priority_mask l else m.priority_mask) < 256
      cleared_range true = (level_range m.priority_mask l v.mask_range level).1
      cleared_range false = v.mask_range

module _ {m : Machine} {qs : Queues} (v : IsReady m qs) where
  -- A process is in one queue only.
  pub one_queue :
      (l j : ℕ) (a : Ptr)
      → l < levels
      → j < levels
      → (l == j) ≡ false
      → has a (qs l) ≡ true
      → has a (qs j) ≡ false
  one_queue l j a llt jlt ne here = elim (Bool-cases (has a (qs j))) [
    | inl there ↦ absurd (ground (arith, v.pri l a llt here, v.pri j a jlt there))
    | inr not_there ↦ not_there
  ]

  -- The last process of a queue stands in it.
  pub tail-mem :
      (l : ℕ) (xs : List Ptr)
      → l < levels
      → IsQueue m.next (m.ready_q l) xs
      → ((m.ready_q l).tail == null) ≡ false
      → has (m.ready_q l).tail xs ≡ true
  tail-mem l [] llt q ne = absurd (ground (arith, q.last))
  tail-mem l (x ∷ xs) llt q ne = subst (λ t. has t (x ∷ xs) ≡ true) (sym q.last) (has-last_or x xs)

  appended_mask :
      (l : ℕ) (b : Bool)
      → l < levels
      → (if b then set_level m.priority_mask l else m.priority_mask) < 256
  appended_mask l true lt = (level_range m.priority_mask l v.mask_range lt).0
  appended_mask l false lt = v.mask_range

  -- `append` puts a process that is in no queue, of a priority below 8, behind all others of its
  -- priority; the queues and the mask stay well-formed.
  pub append-IsReady :
      (p : Ptr)
      → p ≢ null
      → (m.process p).pri < levels
      → ((l : ℕ) → l < levels → has p (qs l) ≡ false)
      → IsReady (append p m) (update qs (m.process p).pri (qs (m.process p).pri ++ p ∷ []))
  unfolding append
  append-IsReady p ne level out =
      let l = (m.process p).pri in
      let queue = m.ready_q l in
      let (mine, first) =
        IsQueue-append m.next queue p (qs l) (v.queues l level) ne (out l level) in
      set_queue-IsReady v l level _ _ _ _ mine
        (λ j lt other.
          IsQueue-link_last m.next queue p (m.ready_q j) (qs j) (out j lt)
            (λ some_tail.
              one_queue l j queue.tail level lt other
                (tail-mem l (qs l) level (v.queues l level) some_tail))
            (v.queues j lt))
        (λ a h. appended_pri a h) (appended_mask l (queue.head == null) level)
        λ j lt. ground (
          arith,
          first,
          bit-set_level m.priority_mask l v.mask_range level j lt,
          v.bits l level,
          is_empty-append p (qs l),
        )
    where
      appended_pri :
          (a : Ptr)
          → has a (qs (m.process p).pri ++ p ∷ []) ≡ true
          → (m.process a).pri ≡ (m.process p).pri
      appended_pri a h = elim (Bool-cases (p == a)) [
        | inl e ↦ ap (λ (b : Ptr). (m.process b).pri) (sym ((==_iff p a).0 e))
        | inr e ↦
            v.pri (m.process p).pri a level
              (ground (arith, has-append a (qs (m.process p).pri) (p ∷ [])))
      ]

  -- On well-formed queues `highest_ready` is the highest level whose queue is not empty, or 0 where
  -- no queue holds a process.
  pub highest_ready-lem :
      let h = highest_ready m.priority_mask in
      (h < levels) × ((qs h ≢ []) ⊎ (h ≡ 0)) × ((l : ℕ) → h < l → l < levels → qs l ≡ [])
  highest_ready-lem =
      let h = highest_ready-IsHighest m.priority_mask v.mask_range in
      let l = highest_ready m.priority_mask in
      (
        h.level,
        elim (Bool-cases (is_empty (qs l))) [
          | inl e ↦ inr (ground (arith, h.ready, v.bits l h.level))
          | inr e ↦ inl (λ nil. ground arith)
        ],
        λ j above lt. is_empty-nil (qs j) (ground (arith, h.none_above j above lt, v.bits j lt)),
      )
