-- ===== src/Sched/Select.antt =====
-- What the scheduler's loop of src/sched.c chooses to run.
use microcsp.Base.{
  Option, sym, ℤ, negsuc, leb_ℤ, ==_iff, ap, ◌∙◌, if◌then◌else◌, ℕ, ◌<◌, ◌≡◌, refl, inl, inr, true,
  false, List, [], ◌∷◌, arith, none, some, ◌==◌, update, pos, leb, Bool-cases, List-cases, ◌⊎◌,
}
use microcsp.Machine.{Ptr, null, Machine, ok, fault, ok_unique}
use microcsp.Machine.Chain.{Chain}
use microcsp.Ready.{levels, highest_ready, take}
use microcsp.Ready.Queues.{Queues, IsReady, take-cons, highest_ready-lem}
use microcsp.Sched.{choose}

module _ (m : Machine) (qs : Queues) (v : IsReady m qs) where
  -- The highest level that is not empty is the one that `highest_ready` finds.
  highest_level :
      (l : ℕ) (p : Ptr) (rest : List Ptr)
      → l < levels
      → qs l ≡ p ∷ rest
      → ((j : ℕ) → l < j → j < levels → qs j ≡ [])
      → highest_ready m.priority_mask ≡ l
  highest_level l p rest lt e empty =
      let h = highest_ready m.priority_mask in
      let (level, top, above) = highest_ready-lem v in
      let not_below : ¬ (h < l) = λ low. ground (arith, e, above l low lt) in
      let not_above : ¬ (l < h) = λ high. elim top [
        | inl some_there ↦ some_there (empty h high level)
        | inr zero ↦ absurd (omega arith)
      ] in
      omega arith

  -- On well-formed ready queues, where the scheduler has no process at hand and no process is ready
  -- above its base priority, it returns, and nothing has changed.
  pub choose-none :
      (base : ℕ)
      → ((l : ℕ) → base < l → l < levels → qs l ≡ [])
      → choose (pos base) null m ≡ ok none m
  unfolding choose
  choose-none base empty =
      let (level, top, above) = highest_ready-lem v in
      let low : leb (highest_ready m.priority_mask) base ≡ true =
        elim (Bool-cases (leb (highest_ready m.priority_mask) base)) [
          | inl low ↦ low
          | inr high ↦ elim top [
            | inl some_there ↦ absurd (some_there (empty _ (ground arith) level))
            | inr zero ↦ ground arith
          ]
        ] in
      rw low refl

  -- The state in which the scheduler has chosen a process.
  choose-takes :
      (base : ℤ) (l : ℕ) (p : Ptr) (rest : List Ptr)
      → leb_ℤ (pos l) base ≡ false
      → l < levels
      → qs l ≡ p ∷ rest
      → ((j : ℕ) → l < j → j < levels → qs j ≡ [])
      → choose base null m ≡ ok (some p) (record ((take l m).1) { current = p })
  unfolding choose
  choose-takes base l p rest above lt e top =
      let h = highest_level l p rest lt e top in
      let p_taken = (take-cons v l lt p rest e).0 in
      let chain : Chain m.next (m.ready_q l).head (p ∷ rest) = rw e at (v.queues l lt).chain in
      let ne : (p == null) ≡ false = ground (arith, chain.0, chain.1) in
      rw (h, above, p_taken, ne) refl

  -- On well-formed ready queues, where the scheduler has no process at hand and some process is
  -- ready above its base priority, it chooses the one that has waited longest at the highest such
  -- priority, takes it off its queue and makes it the current one; the queues and the mask stay
  -- well-formed.
  pub choose-highest :
      (base : ℤ) (l : ℕ) (p : Ptr) (rest : List Ptr)
      → leb_ℤ (pos l) base ≡ false
      → l < levels
      → qs l ≡ p ∷ rest
      → ((j : ℕ) → l < j → j < levels → qs j ≡ [])
      → (n : Machine) × (choose base null m ≡ ok (some p) n)
        × (n.current ≡ p)
        × IsReady n (update qs l rest)
  choose-highest base l p rest above lt e top =
      let left = (take-cons v l lt p rest e).1 in
      (
        record ((take l m).1) { current = p },
        choose-takes base l p rest above lt e top,
        refl,
        record {
          queues = left.queues;
          pri = left.pri;
          mask_range = left.mask_range;
          bits = left.bits;
        },
      )

  -- An empty queue gives NULL.
  take-nil : (l : ℕ) → l < levels → qs l ≡ [] → (take l m).0 ≡ null
  unfolding take
  take-nil l lt e =
      let chain : Chain m.next (m.ready_q l).head [] = rw e at (v.queues l lt).chain in
      let nothing : ((m.ready_q l).head == null) ≡ true = ground (arith, chain) in rw nothing chain

  -- Below all priorities the scheduler does not return; with nothing ready it dereferences NULL.
  pub choose-faults :
      (b : ℕ) → ((l : ℕ) → l < levels → qs l ≡ []) → choose (negsuc b) null m ≡ fault
  unfolding choose
  choose-faults b empty =
      let h = highest_ready m.priority_mask in
      let level = (highest_ready-lem v).0 in rw (take-nil h level (empty h level)) refl

  -- The process that the scheduler takes: the first of the highest level that has one.
  abbrev pub Takes : ℤ → Type 0
  Takes base =
      (l : ℕ) × (p : Ptr) × (rest : List Ptr) × (leb_ℤ (pos l) base ≡ false)
      × (l < levels)
      × (qs l ≡ p ∷ rest)
      × ((j : ℕ) → l < j → j < levels → qs j ≡ [])
      × (choose base null m ≡ ok (some p) (record ((take l m).1) { current = p }))

  -- The choice at the highest level, if that lies above the base.
  highest_cases :
      (base : ℤ)
      → leb_ℤ (pos (highest_ready m.priority_mask)) base ≡ false
      → Takes base ⊎ ((l : ℕ) → l < levels → qs l ≡ [])
  highest_cases base high =
      let h = highest_ready m.priority_mask in
      let (level, top, above) = highest_ready-lem v in
      elim (List-cases (qs h)) [
        | inl nil ↦ elim top [
          | inl some_there ↦ absurd (some_there nil)
          | inr zero ↦
              let first : qs 0 ≡ [] = rw zero at nil in
              inr (λ l lt. elim (Bool-cases (l == 0)) [
                | inl at_zero ↦ ap qs ((==_iff l 0).0 at_zero) ∙ first
                | inr over ↦ above l (ground arith) lt
              ])
        ]
        | inr (p, rest, e) ↦
            inl (h, p, rest, high, level, e, above, choose-takes base h p rest high level e above)
      ]

  -- Either nothing is ready above the base priority, and the scheduler returns, or dereferences
  -- NULL where the base lies below all priorities; or it takes a process.
  pub choose-cases :
      (base : ℤ)
      → ((choose base null m ≡ (if leb_ℤ (pos 0) base then ok none m else fault))
          × ((l : ℕ) → leb_ℤ (pos l) base ≡ false → l < levels → qs l ≡ []))
        ⊎ Takes base
  choose-cases (pos b) =
      let h = highest_ready m.priority_mask in
      let (level, top, above) = highest_ready-lem v in
      elim (Bool-cases (leb h b)) [
        | inl low ↦
            let empty : (l : ℕ) → leb l b ≡ false → l < levels → qs l ≡ [] =
              λ l up lt. above l (ground arith) lt in
            let none_above : (l : ℕ) → b < l → l < levels → qs l ≡ [] =
              λ l up lt. empty l (ground arith) lt in
            let least : leb 0 b ≡ true = ground arith in
            inl (rw least (choose-none b none_above), empty)
        | inr high ↦ elim (highest_cases (pos b) high) [
          | inl taken ↦ inr taken
          | inr empty ↦
              let least : leb 0 b ≡ true = ground arith in
              inl (rw least (choose-none b (λ l _ lt. empty l lt)), λ l _ lt. empty l lt)
        ]
      ]
  choose-cases (negsuc b) = elim (highest_cases (negsuc b) refl) [
    | inl taken ↦ inr taken
    | inr empty ↦ inl (choose-faults b empty, λ l _ lt. empty l lt)
  ]

  -- What holds of each process that the scheduler may take holds of the one that it has taken.
  pub choose-taken :
      (P : Ptr → Machine → Type 0) (base : ℤ) (p : Ptr) (n : Machine)
      → choose base null m ≡ ok (some p) n
      → ((l : ℕ) (q : Ptr) (rest : List Ptr)
          → l < levels
          → qs l ≡ q ∷ rest
          → P q (record ((take l m).1) { current = q }))
      → P p n
  choose-taken P base p n e each =
      let Q : Option Ptr → Machine → Type 0 = λ c o. elim c [ none ↦ Unit | some q ↦ P q o ] in
      elim (choose-cases base) [
        | inl (nothing, _) ↦ elim (Bool-cases (leb_ℤ (pos 0) base)) [
          | inl least ↦
              let returns : choose base null m ≡ ok none m = rw least at nothing in
              ok_unique Q returns e tt
          | inr below ↦
              let faults : choose base null m ≡ fault = rw below at nothing in
              absurd (ground (arith, sym faults ∙ e))
        ]
        | inr (l, q, rest, _, lt, list, _, takes) ↦ ok_unique Q takes e (each l q rest lt list)
      ]
