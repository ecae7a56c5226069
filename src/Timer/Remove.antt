-- ===== src/Timer/Remove.antt =====
-- `removeFromQueue`: what it takes out, and what it returns.
use microcsp.Base.{
  ℕ, zero, suc, ◌<◌, ◌≤◌, ◌≡◌, refl, sym, ap, ◌∙◌, ◌≢◌, inl, inr, Bool, true, false, not, ◌&&◌,
  List, [], ◌∷◌, ◌++◌, arith, ltb, ◌==◌, if◌then◌else◌, update, has, IsDistinct, distinct_heads,
  last_or-append_append, length-append, Bool-cases, head_or, last_or, length,
}
use mathlib.Core.Path.{fun_ext}
use mathlib.Core.List.{append_assoc}
use microcsp.Machine.{Ptr, null, Machine, ok}
use microcsp.Machine.Chain.{Chain, Chain-start, Chain-frame, Chain-remove, Chain-last, Chain-suffix}
use microcsp.Timer.{
  time_at, proc_at, next_timeout, set_next, set_head, skip_earlier, skip_others, unlink_timeout,
  remove_from_queue,
}
use microcsp.Timer.Queue.{
  IsTimerQ, Ascending, earlier, not_earlier, earlier-not_earlier, Ascending-mono,
}

next-set :
    (m : Machine) (q r a : Ptr) → next_timeout (set_next q r m) a ≡ update (next_timeout m) q r a
unfolding set_next
next-set m q r a = ground arith

time-set : (m : Machine) (q r a : Ptr) → time_at (set_next q r m) a ≡ time_at m a
unfolding set_next
time-set m q r a = ground arith

-- The queue holds the list, and no timeout's time has changed.
record Unlinked (m n : Machine) (xs : List Ptr) : Type 0 where
  chain : Chain (next_timeout n) n.timer_q xs
  times : (a : Ptr) → time_at n a ≡ time_at m a

module _ (m : Machine) (t p : ℕ) where
  -- The timeout that is looked for, and one of the same time but another process.
  abbrev pub matches : Ptr → Bool
  matches x = time_at m x == t && proc_at m x == p

  abbrev pub passes : Ptr → Bool
  passes x = time_at m x == t && not (proc_at m x == p)

  abbrev pub passed : List Ptr → List Ptr
  passed [] = []
  passed (x ∷ xs) = let rest = passed xs in if passes x then x ∷ rest else []

  abbrev pub unpassed : List Ptr → List Ptr
  unpassed [] = []
  unpassed (x ∷ xs) = let rest = unpassed xs in if passes x then rest else x ∷ xs

  passed-unpassed : (xs : List Ptr) → passed xs ++ unpassed xs ≡ xs
  passed-unpassed [] = refl
  passed-unpassed (x ∷ xs) = ground (arith, passed-unpassed xs)

  -- A list without its first timeout for the time and the process.
  abbrev pub erase : List Ptr → List Ptr
  erase [] = []
  erase (x ∷ xs) = let rest = erase xs in if matches x then xs else x ∷ rest

  abbrev drop_match : List Ptr → List Ptr
  drop_match [] = []
  drop_match (x ∷ xs) = if matches x then xs else x ∷ xs

  erase_later : (k : ℕ) (xs : List Ptr) → t < k → Ascending (time_at m) k xs → erase xs ≡ xs
  erase_later k [] h a = refl
  erase_later k (x ∷ xs) h a = ground (arith, erase_later (time_at m x) xs (omega arith) a.1)

  erase-passed :
      (k : ℕ) (xs : List Ptr)
      → t ≤ k
      → Ascending (time_at m) k xs
      → passed xs ++ drop_match (unpassed xs) ≡ erase xs
  erase-passed k [] h a = refl
  erase-passed k (x ∷ xs) h a =
      ground (arith, erase-passed (time_at m x) xs (omega arith) a.1, erase_later (time_at m x) xs)

  erase-earlier :
      (k : ℕ) (xs : List Ptr)
      → Ascending (time_at m) k xs
      → earlier (time_at m) t xs
          ++ (passed (not_earlier (time_at m) t xs)
              ++ drop_match (unpassed (not_earlier (time_at m) t xs)))
        ≡ erase xs
  erase-earlier k [] a = refl
  erase-earlier k (x ∷ xs) a = elim (Bool-cases (ltb (time_at m x) t)) [
    | inl lt ↦
        let other : matches x ≡ false = ground arith in
        rw (lt, other) (ap (λ ys. x ∷ ys) (erase-earlier (time_at m x) xs a.1))
    | inr ge ↦ rw ge (erase-passed t (x ∷ xs) (omega arith) (ground arith, a.1))
  ]

  skip_earlier-split :
      (fuel prev curr : ℕ) (xs : List Ptr)
      → Chain (next_timeout m) curr xs
      → length xs < fuel
      → skip_earlier fuel t prev curr m
        ≡ ok
            (last_or prev (earlier (time_at m) t xs), head_or null (not_earlier (time_at m) t xs))
            m
  unfolding skip_earlier
  skip_earlier-split zero prev curr xs c h = absurd (omega arith)
  skip_earlier-split (suc f) prev curr [] c h = ground arith
  skip_earlier-split (suc f) prev curr (y ∷ ys) c h =
      let here : curr ≡ y = c.0 in
      let some_here : (y == null) ≡ false = ground (arith, c.1) in
      rw (here, some_here)
        (elim (Bool-cases (ltb (time_at m y) t)) [
          | inl lt ↦ rw lt (skip_earlier-split f y (next_timeout m y) ys c.2 (omega arith))
          | inr ge ↦ rw ge
        ])

  skip_others-split :
      (fuel prev curr : ℕ) (xs : List Ptr)
      → Chain (next_timeout m) curr xs
      → length xs < fuel
      → skip_others fuel t p prev curr m
        ≡ ok (last_or prev (passed xs), head_or null (unpassed xs)) m
  unfolding skip_others
  skip_others-split zero prev curr xs c h = absurd (omega arith)
  skip_others-split (suc f) prev curr [] c h = ground arith
  skip_others-split (suc f) prev curr (y ∷ ys) c h =
      let here : curr ≡ y = c.0 in
      let some_here : (y == null) ≡ false = ground (arith, c.1) in
      rw (here, some_here)
        (elim (Bool-cases (passes y)) [
          | inl other ↦ rw other (skip_others-split f y (next_timeout m y) ys c.2 (omega arith))
          | inr stop ↦ rw stop
        ])

  unlink-miss :
      (front : List Ptr) (y : Ptr)
      → matches y ≡ false
      → unlink_timeout t p (last_or null front) y m ≡ m
  unfolding unlink_timeout
  unlink-miss front y miss = ground arith

  unlink-first :
      (y : Ptr)
      → matches y ≡ true
      → y ≢ null
      → m.timer_q ≡ y
      → unlink_timeout t p null y m ≡ set_head (next_timeout m y) m
  unfolding unlink_timeout
  unlink-first y hit ne first =
      let some_here : (y == null) ≡ false = ground arith in
      let at : (y == m.timer_q) ≡ true = ground arith in rw (some_here, hit, at)

  unlink-later :
      (prev y : Ptr)
      → matches y ≡ true
      → y ≢ null
      → prev ≢ null
      → (y == m.timer_q) ≡ false
      → unlink_timeout t p prev y m ≡ set_next prev (next_timeout m y) m
  unfolding unlink_timeout
  unlink-later prev y hit ne pne other =
      let some_here : (y == null) ≡ false = ground arith in
      let some_prev : (prev == null) ≡ false = ground arith in
      rw (some_here, some_prev, hit) (rw other)

  unlink-none : (front : List Ptr) → unlink_timeout t p (last_or null front) null m ≡ m
  unfolding unlink_timeout
  unlink-none front = refl

  unlink-hit :
      (front : List Ptr) (y : Ptr) (ys : List Ptr)
      → matches y ≡ true
      → Chain (next_timeout m) m.timer_q (front ++ y ∷ ys)
      → IsDistinct (front ++ y ∷ ys)
      → Unlinked m (unlink_timeout t p (last_or null front) y m) (front ++ ys)
  unfolding set_head set_next
  unlink-hit [] y ys hit c d =
      rw (unlink-first y hit c.1 c.0) (record { chain = c.2; times = λ a. refl })
  unlink-hit (f ∷ front) y ys hit c d =
      let next = next_timeout m in
      let last = last_or f front in
      let ne = (Chain-suffix next m.timer_q (f ∷ front) (y ∷ ys) c).1 in
      let prev_ne = Chain-last next m.timer_q f front (y ∷ ys) c in
      let other : (y == m.timer_q) ≡ false = rw (c.0) (distinct_heads f y front ys d) in
      let old = Chain-start next m.timer_q f (f ∷ front ++ y ∷ ys) c.0 c in
      rw (unlink-later last y hit ne prev_ne other) (record {
        chain = Chain-start _ f m.timer_q (f ∷ front ++ ys) (sym c.0) (
            Chain-frame _ (next_timeout (set_next last (next y) m)) f (f ∷ front ++ ys)
              (Chain-remove next y f front ys old d) (λ a i. next-set m last (next y) a));
        times = λ a. time-set m last (next y) a;
      })

  unlink-Unlinked :
      (front rest : List Ptr)
      → Chain (next_timeout m) m.timer_q (front ++ rest)
      → IsDistinct (front ++ rest)
      → Unlinked m
          (unlink_timeout t p (last_or null front) (head_or null rest) m)
          (front ++ drop_match rest)
  unlink-Unlinked front [] c d = rw (unlink-none front) (record { chain = c; times = λ a. refl })
  unlink-Unlinked front (y ∷ ys) c d = elim (Bool-cases (matches y)) [
    | inl hit ↦ rw hit (unlink-hit front y ys hit c d)
    | inr miss ↦ rw (miss, unlink-miss front y miss) (record { chain = c; times = λ a. refl })
  ]

  has-erase : (a : Ptr) (xs : List Ptr) → has a xs ≡ false → has a (erase xs) ≡ false
  has-erase a [] h = refl
  has-erase a (x ∷ xs) h = ground (arith, has-erase a xs)

  erase-IsDistinct : (xs : List Ptr) → IsDistinct xs → IsDistinct (erase xs)
  erase-IsDistinct [] d = tt
  erase-IsDistinct (x ∷ xs) d = ground (arith, erase-IsDistinct xs, has-erase x xs)

  erase-Ascending :
      (k : ℕ) (xs : List Ptr) → Ascending (time_at m) k xs → Ascending (time_at m) k (erase xs)
  erase-Ascending k [] a = tt
  erase-Ascending k (x ∷ xs) a = ground (
    arith,
    erase-Ascending (time_at m x) xs a.1,
    Ascending-mono (time_at m) k (time_at m x) xs a.0 a.1,
  )

  -- On a queue in time order, with more fuel than the queue is long, `removeFromQueue` takes the
  -- first timeout for the time and the process out of the queue, if there is one, and leaves the
  -- others in time order; it returns the timeout at which its search stopped, taken out or not.
  pub remove_from_queue-erase :
      (fuel : ℕ) (xs : List Ptr)
      → IsTimerQ m xs
      → length xs < fuel
      → (n : Machine) × IsTimerQ n (erase xs)
        × (remove_from_queue fuel t p m
            ≡ ok (head_or null (unpassed (not_earlier (time_at m) t xs))) n)
  unfolding remove_from_queue
  remove_from_queue-erase fuel xs v h =
      let before = earlier (time_at m) t xs in
      let others = not_earlier (time_at m) t xs in
      let front = before ++ passed others in
      let rest = unpassed others in
      let split = earlier-not_earlier (time_at m) t xs in
      let whole : front ++ rest ≡ xs =
        append_assoc before (passed others) rest
        ∙ ap (λ ys. before ++ ys) (passed-unpassed others)
        ∙ split in
      let left : front ++ drop_match rest ≡ erase xs =
        append_assoc before (passed others) (drop_match rest) ∙ erase-earlier 0 xs v.ascending in
      let chain = rw (← split) at v.chain in
      let short : length others < fuel =
        omega (arith, length-append before others, ap length split) in
      let done =
        unlink-Unlinked front rest (rw (← whole) at v.chain) (rw (← whole) at v.distinct) in
      let n = unlink_timeout t p (last_or null front) (head_or null rest) m in
      (
        n,
        record {
          chain = rw left at done.chain;
          distinct = erase-IsDistinct xs v.distinct;
          ascending = rw (fun_ext done.times) (erase-Ascending 0 xs v.ascending);
        },
        rw (skip_earlier-split fuel null m.timer_q xs v.chain h) (
            rw
              (skip_others-split fuel (last_or null before) (head_or null others) others
                (Chain-suffix _ _ before others chain) short)
              (ap (λ q. ok (head_or null rest) (unlink_timeout t p q (head_or null rest) m))
                (sym (last_or-append_append null before (passed others))))),
      )
