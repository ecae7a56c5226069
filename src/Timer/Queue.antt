-- ===== src/Timer/Queue.antt =====
-- The timeout queue as a list in time order.
use microcsp.Base.{
  ℕ, ◌≤◌, ◌≡◌, refl, inl, inr, List, [], ◌∷◌, ◌++◌, arith, ltb, leb, if◌then◌else◌, IsDistinct,
  Bool-cases,
}
use microcsp.Machine.{Ptr, Machine}
use microcsp.Machine.Chain.{Chain}
use microcsp.Timer.{time_at, next_timeout}

-- The times do not fall along the list, and none is below `k`.
abbrev pub Ascending : (Ptr → ℕ) → ℕ → List Ptr → Type 0
Ascending time k [] = Unit {0}
Ascending time k (x ∷ xs) = (k ≤ time x) × Ascending time (time x) xs

pub record IsTimerQ (m : Machine) (xs : List Ptr) : Type 0 where
  pub chain : Chain (next_timeout m) m.timer_q xs
  pub distinct : IsDistinct xs
  pub ascending : Ascending (time_at m) 0 xs

-- The leading timeouts that are not later than a time, and the others.
abbrev pub not_later : (Ptr → ℕ) → ℕ → List Ptr → List Ptr
not_later time t [] = []
not_later time t (x ∷ xs) =
    let rest = not_later time t xs in if leb (time x) t then x ∷ rest else []

abbrev pub later : (Ptr → ℕ) → ℕ → List Ptr → List Ptr
later time t [] = []
later time t (x ∷ xs) = let rest = later time t xs in if leb (time x) t then rest else x ∷ xs

-- The leading timeouts that are earlier than a time, and the others.
abbrev pub earlier : (Ptr → ℕ) → ℕ → List Ptr → List Ptr
earlier time t [] = []
earlier time t (x ∷ xs) = let rest = earlier time t xs in if ltb (time x) t then x ∷ rest else []

abbrev pub not_earlier : (Ptr → ℕ) → ℕ → List Ptr → List Ptr
not_earlier time t [] = []
not_earlier time t (x ∷ xs) =
    let rest = not_earlier time t xs in if ltb (time x) t then rest else x ∷ xs

module _ (time : Ptr → ℕ) (t : ℕ) where
  pub not_later-later : (xs : List Ptr) → not_later time t xs ++ later time t xs ≡ xs
  not_later-later [] = refl
  not_later-later (x ∷ xs) = ground (arith, not_later-later xs)

  pub earlier-not_earlier : (xs : List Ptr) → earlier time t xs ++ not_earlier time t xs ≡ xs
  earlier-not_earlier [] = refl
  earlier-not_earlier (x ∷ xs) = ground (arith, earlier-not_earlier xs)

  -- A timeout goes behind those that are not later and before those that are.
  pub Ascending-insert :
      (x : Ptr) (k : ℕ) (xs : List Ptr)
      → time x ≡ t
      → k ≤ t
      → Ascending time k xs
      → Ascending time k (not_later time t xs ++ x ∷ later time t xs)
  Ascending-insert x k [] e h a = (omega arith, tt)
  Ascending-insert x k (y ∷ ys) e h a = elim (Bool-cases (leb (time y) t)) [
    | inl le ↦ rw le (a.0, Ascending-insert x (time y) ys e (ground arith) a.1)
    | inr gt ↦ rw gt (omega arith, (ground arith, a.1))
  ]

-- A list with lower times is still ascending from a lower bound.
pub Ascending-mono :
    (time : Ptr → ℕ) (j k : ℕ) (xs : List Ptr) → j ≤ k → Ascending time k xs → Ascending time j xs
Ascending-mono time j k [] h a = tt
Ascending-mono time j k (x ∷ xs) h a = (omega arith, a.1)
