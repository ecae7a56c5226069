-- ===== src/Timer/Insert.antt =====
-- `insertInQueue`: a timeout goes behind all that are not later, and the timer is started for it if
-- it is now the first.
use microcsp.Base.{
  ℕ, zero, suc, ◌<◌, ◌≡◌, refl, sym, ap, ◌∙◌, ◌≢◌, inl, inr, Bool, true, false, List, [], ◌∷◌, ◌++◌,
  arith, leb, ◌==◌, if◌then◌else◌, update, has, IsDistinct, insert-IsDistinct, Bool-cases, ==_iff,
  head_or, last_or, length,
}
use microcsp.Machine.{Ptr, null, Machine, ok}
use mathlib.Core.Path.{fun_ext}
use microcsp.Machine.Chain.{Chain, Chain-start, Chain-frame, Chain-head, Chain-insert, Chain-last}
use microcsp.Timer.{
  time_at, proc_at, next_timeout, set_next, set_head, arm, find_place, link_timeout,
  insert_in_queue,
}
use microcsp.Timer.Queue.{IsTimerQ, not_later, later, not_later-later, Ascending-insert}

find_place-split :
    (fuel time prev curr : ℕ) (xs : List Ptr) (m : Machine)
    → Chain (next_timeout m) curr xs
    → length xs < fuel
    → find_place fuel time prev curr m
      ≡ ok
          (last_or prev (not_later (time_at m) time xs), head_or null (later (time_at m) time xs))
          m
unfolding find_place
find_place-split zero time prev curr xs m c h = absurd (omega arith)
find_place-split (suc f) time prev curr [] m c h = ground arith
find_place-split (suc f) time prev curr (y ∷ ys) m c h =
    let here : curr ≡ y = c.0 in
    let some_here : (y == null) ≡ false = ground (arith, c.1) in
    rw (here, some_here)
      (elim (Bool-cases (leb (time_at m y) time)) [
        | inl le ↦ rw le (find_place-split f time y (next_timeout m y) ys m c.2 (omega arith))
        | inr gt ↦ rw gt
      ])

pub link_timeout-lem :
    (x prev curr : Ptr) (m : Machine)
    → link_timeout x prev curr m ≡ (
        if prev == null
        then arm x (set_next x curr (set_head x m))
        else ok tt (set_next x curr (set_next prev x m)))
unfolding link_timeout
link_timeout-lem x prev curr m = elim (Bool-cases (prev == null)) [
  | inl p ↦ elim (Bool-cases (curr == null)) [
    | inl e ↦
        rw (p, e) (ap (λ c. arm x (set_next x c (set_head x m))) (sym ((==_iff curr null).0 e)))
    | inr e ↦ rw (p, e)
  ]
  | inr p ↦ elim (Bool-cases (curr == null)) [
    | inl e ↦
        rw (p, e)
          (ap (λ c. ok tt (set_next x c (set_next prev x m))) (sym ((==_iff curr null).0 e)))
    | inr e ↦ rw (p, e)
  ]
]

abbrev pub is_nil : List Ptr → Bool
is_nil [] = true
is_nil (x ∷ xs) = false

-- The queue with the timeout linked in between its two parts.
abbrev linked : Machine → Ptr → (front back : List Ptr) → Machine
linked m x front back =
    set_next x (head_or null back)
      (if is_nil front then set_head x m else set_next (last_or null front) x m)

mem-apart : (x a : Ptr) (xs : List Ptr) → has x xs ≡ false → has a xs ≡ true → (x == a) ≡ false
mem-apart x a xs out i = elim (Bool-cases (x == a)) [
  | inl e ↦ absurd (ground (arith, ap (λ b. has b xs) ((==_iff x a).0 e)))
  | inr e ↦ e
]

linked-next :
    (m : Machine) (x p q a : Ptr)
    → next_timeout (set_next x q (set_next p x m)) a ≡ update (update (next_timeout m) p x) x q a
unfolding set_next
linked-next m x p q a = ground arith

first-next :
    (m : Machine) (x q a : Ptr)
    → next_timeout (set_next x q (set_head x m)) a ≡ update (next_timeout m) x q a
unfolding set_next set_head
first-next m x q a = ground arith

linked-run :
    (m : Machine) (x : Ptr) (front back : List Ptr)
    → Chain (next_timeout m) m.timer_q (front ++ back)
    → link_timeout x (last_or null front) (head_or null back) m
      ≡ (if is_nil front then arm x (linked m x front back) else ok tt (linked m x front back))
linked-run m x [] back c = link_timeout-lem x null (head_or null back) m
linked-run m x (f ∷ front) back c =
    let some_front : (last_or f front == null) ≡ false =
      ground (arith, Chain-last (next_timeout m) m.timer_q f front back c) in
    link_timeout-lem x (last_or f front) (head_or null back) m ∙ rw some_front refl

linked-Chain :
    (m : Machine) (x : Ptr) (front back : List Ptr)
    → Chain (next_timeout m) m.timer_q (front ++ back)
    → IsDistinct (front ++ back)
    → has x (front ++ back) ≡ false
    → x ≢ null
    → Chain
        (next_timeout (linked m x front back))
        (linked m x front back).timer_q
        (front ++ x ∷ back)
unfolding set_next set_head
linked-Chain m x [] back c d out ne =
    let next' = next_timeout (linked m x [] back) in
    let at : next' x ≡ head_or null back = ground arith in
    let kept =
      Chain-frame (next_timeout m) next' m.timer_q back c
        (λ a i. ground (arith, mem-apart x a back out i, first-next m x (head_or null back) a)) in
    (refl, ne, Chain-start next' m.timer_q (next' x) back (Chain-head _ _ back c ∙ sym at) kept)
linked-Chain m x (f ∷ front) back c d out ne =
    let old = Chain-start _ _ f (f ∷ front ++ back) c.0 c in
    Chain-start _ f m.timer_q (f ∷ front ++ x ∷ back) (sym c.0) (
      Chain-frame _ (next_timeout (linked m x (f ∷ front) back)) f (f ∷ front ++ x ∷ back)
        (Chain-insert (next_timeout m) x f front back old d out ne)
        (λ a i. linked-next m x (last_or f front) (head_or null back) a))

linked-time :
    (m : Machine) (x : Ptr) (front back : List Ptr) (a : Ptr)
    → time_at (linked m x front back) a ≡ time_at m a
unfolding set_next set_head
linked-time m x [] back a = ground arith
linked-time m x (f ∷ front) back a = ground arith

linked-proc :
    (m : Machine) (x : Ptr) (front back : List Ptr) (a : Ptr)
    → proc_at (linked m x front back) a ≡ proc_at m a
unfolding set_next set_head
linked-proc m x [] back a = ground arith
linked-proc m x (f ∷ front) back a = ground arith

-- What an insertion leaves alone: what `Now` reads, and the times and processes of all timeouts.
pub record SameClock (m n : Machine) : Type 0 where
  pub readings : n.readings ≡ m.readings
  pub reads : n.reads ≡ m.reads
  pub current_time : n.current_time ≡ m.current_time
  pub times : (a : Ptr) → time_at n a ≡ time_at m a
  pub procs : (a : Ptr) → proc_at n a ≡ proc_at m a

linked-SameClock :
    (m : Machine) (x : Ptr) (front back : List Ptr) → SameClock m (linked m x front back)
unfolding set_next set_head
linked-SameClock m x [] back = record {
  readings = refl;
  reads = refl;
  current_time = refl;
  times = linked-time m x [] back;
  procs = linked-proc m x [] back;
}
linked-SameClock m x (f ∷ front) back = record {
  readings = refl;
  reads = refl;
  current_time = refl;
  times = linked-time m x (f ∷ front) back;
  procs = linked-proc m x (f ∷ front) back;
}

-- On a queue in time order, with more fuel than the queue is long, `insertInQueue` puts a timeout
-- that is not in the queue behind all that are not later and before all that are later, so that the
-- queue stays in time order; it starts the timer exactly if the timeout is now the first, and it
-- changes no timeout's time or process and nothing that `Now` reads.
pub insert_in_queue-IsTimerQ :
    (fuel : ℕ) (x : Ptr) (xs : List Ptr) (m : Machine)
    → IsTimerQ m xs
    → x ≢ null
    → has x xs ≡ false
    → length xs < fuel
    → let front = not_later (time_at m) (time_at m x) xs in
      let back = later (time_at m) (time_at m x) xs in
      (n : Machine) × IsTimerQ n (front ++ x ∷ back)
      × (insert_in_queue fuel x m ≡ (if is_nil front then arm x n else ok tt n))
      × SameClock m n
unfolding insert_in_queue
insert_in_queue-IsTimerQ fuel x xs m v ne out h =
    let t = time_at m x in
    let front = not_later (time_at m) t xs in
    let back = later (time_at m) t xs in
    let whole = not_later-later (time_at m) t xs in
    let chain = rw (← whole) at v.chain in
    let distinct = rw (← whole) at v.distinct in
    let absent = rw (← whole) at out in
    (
      linked m x front back,
      record {
        chain = linked-Chain m x front back chain distinct absent ne;
        distinct = insert-IsDistinct x front back distinct absent;
        ascending =
            rw (fun_ext (linked-time m x front back))
              (Ascending-insert (time_at m) t x 0 xs refl (omega arith) v.ascending);
      },
      rw (find_place-split fuel t null m.timer_q xs m v.chain h) (linked-run m x front back chain),
      linked-SameClock m x front back,
    )
