-- ===== src/Sched/Refine.antt =====
-- The ready queues and the scheduler's choice in src/sched.c implement the list of arrivals.
use microcsp.Base.{
  true, leb, leb_ℤ, negsuc, if◌then◌else◌, List, ◌∷◌, ℕ, ◌≤◌, ◌<◌, ◌≡◌, refl, sym, ap, subst, ◌∙◌,
  ◌≢◌, ◌⊎◌, inl, inr, false, none, some, [], arith, ltb, has, pos, ℤ, Bool-cases, List-cases,
}
use microcsp.Machine.{Ptr, null, Machine, Cmd, ok, fault, proc_waiting}
use microcsp.Ready.{levels}
use microcsp.Ready.Queues.{is_empty, Queues, IsQueue, IsReady}
use microcsp.Sched.{state_of, pri_of, choose, ready_with}
use microcsp.Sched.Arrivals.{
  Arrivals, first_of, first_of-none, arrive, highest, next_above, at_level, InRange,
  at_level-arrive, InRange-arrive, highest-le, above_highest, highest_there, highest_range,
  first_of-Removal,
}
use microcsp.Sched.Ready.{ready_with-waiting}
use microcsp.Sched.Select.{choose-none, choose-highest, choose-faults}

-- The state of the scheduler stands for a list of arrivals.
pub record Implements (m : Machine) (w : Arrivals) : Type 0 where
  pub ready : IsReady m (at_level w)
  pub range : InRange w

-- Lists that agree on every level.
pub IsReady-same :
    {m : Machine} {qs rs : Queues} → ((l : ℕ) → rs l ≡ qs l) → IsReady m qs → IsReady m rs
IsReady-same {m} e v = record {
  queues = λ l lt. subst (IsQueue m.next (m.ready_q l)) (sym (e l)) (v.queues l lt);
  pri = λ l a lt h. v.pri l a lt (ap (has a) (sym (e l)) ∙ h);
  mask_range = v.mask_range;
  bits = λ l lt. rw (e l) (v.bits l lt);
}

module _ (m : Machine) (w : Arrivals) (v : Implements m w) where
  -- `readyProcessIfNecessary` of a waiting process that has not arrived yet, of no higher priority
  -- than the running one, adds it to the end of the list.
  pub ready_with-refines :
      (schedule : ℤ → Cmd (Unit {0})) (p : Ptr)
      → state_of m p ≡ proc_waiting
      → pri_of m p ≤ pri_of m m.current
      → p ≢ null
      → pri_of m p < levels
      → ((l : ℕ) → l < levels → has p (at_level w l) ≡ false)
      → (n : Machine) × (ready_with schedule p m ≡ ok tt n) × Implements n (arrive (pri_of m p) p w)
  ready_with-refines schedule p waiting low ne level out =
      let (n, returns, _, ready) =
        ready_with-waiting schedule p m (at_level w) v.ready waiting low ne level out in
      (
        n,
        returns,
        record {
          ready = IsReady-same (at_level-arrive (pri_of m p) p w) ready;
          range = InRange-arrive (pri_of m p) p w level v.range;
        },
      )

  -- The choice of the earliest process of the highest priority in the list.
  takes_earliest :
      (base : ℤ) (l : ℕ) (p : Ptr) (rest : List Ptr)
      → leb_ℤ (pos l) base ≡ false
      → l < levels
      → at_level w l ≡ p ∷ rest
      → ((j : ℕ) → l < j → j < levels → at_level w j ≡ [])
      → (others : Arrivals) × (n : Machine) × (first_of l w ≡ some (p, others))
        × (choose base null m ≡ ok (some p) n)
        × Implements n others
  takes_earliest base l p rest above lt e top =
      let first = first_of-Removal l w p rest e in
      let (n, takes, _, ready) =
        choose-highest m (at_level w) v.ready base l p rest above lt e top in
      (
        first.others,
        n,
        first.taken,
        takes,
        record { ready = IsReady-same first.left ready; range = first.range v.range },
      )

  -- The scheduler's choice, with no process at hand, is that of the list, for every base priority,
  -- that of the outermost scheduler, which lies below all others, included. Where no process has
  -- arrived above the base, the scheduler returns, or dereferences NULL if the base lies below all
  -- priorities; otherwise it takes the earliest process of the highest priority, and its queues
  -- stand for the list of the others.
  pub choose-refines :
      (base : ℤ)
      → ((next_above base w ≡ none)
          × (choose base null m ≡ (if leb_ℤ (pos 0) base then ok none m else fault)))
        ⊎ ((p : Ptr) × (others : Arrivals) × (n : Machine) × (next_above base w ≡ some (p, others))
            × (choose base null m ≡ ok (some p) n)
            × Implements n others)
  choose-refines (pos base) =
      let l = highest base w in
      let least : leb 0 base ≡ true = ground arith in
      elim (Bool-cases (ltb base l)) [
        | inr low ↦ inl (
          rw low refl,
          rw least (
              choose-none m (at_level w) v.ready base
                (λ j up lt. above_highest base w j (ground (arith, highest-le base w)))),
        )
        | inl high ↦ elim (List-cases (at_level w l)) [
          | inl nil ↦ absurd (ground (arith, highest_there base w, ap is_empty nil))
          | inr (p, rest, e) ↦
              let lt = highest_range base w v.range (ground arith) in
              let (others, n, taken, takes, left) =
                takes_earliest (pos base) l p rest (ground arith) lt e
                  (λ j up _. above_highest base w j up) in
              inr (p, others, n, rw (high, taken) refl, takes, left)
        ]
      ]
  choose-refines (negsuc base) =
      let l = highest 0 w in
      elim (List-cases (at_level w l)) [
        | inl nil ↦
            let empty : (j : ℕ) → j < levels → at_level w j ≡ [] = λ j lt.
              elim (Bool-cases (ltb 0 l)) [
                | inl high ↦ absurd (ground (arith, highest_there 0 w, ap is_empty nil))
                | inr zero ↦ elim (Bool-cases (ltb l j)) [
                  | inl up ↦ above_highest 0 w j (ground arith)
                  | inr down ↦ let same : j ≡ l = ground arith in ap (at_level w) same ∙ nil
                ]
              ] in
            inl (first_of-none l w nil, choose-faults m (at_level w) v.ready base empty)
        | inr (p, rest, e) ↦
            let lt : l < levels = elim (Bool-cases (ltb 0 l)) [
              | inl high ↦ highest_range 0 w v.range (ground arith)
              | inr zero ↦ ground arith
            ] in
            let (others, n, taken, takes, left) =
              takes_earliest (negsuc base) l p rest refl lt e (λ j up _. above_highest 0 w j up) in
            inr (p, others, n, taken, takes, left)
      ]
