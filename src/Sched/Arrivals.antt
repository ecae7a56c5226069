-- ===== src/Sched/Arrivals.antt =====
-- What the ready queues of src/sched.c promise: one list of the processes that are ready, in the
-- order in which they became so, from which the next to run is the first of the highest priority.
use microcsp.Base.{
  ℤ, pos, negsuc, ℕ, ◌≤◌, ◌<◌, ◌≡◌, refl, sym, ap, subst, ◌∙◌, inl, inr, false, Option, none, some,
  List, [], ◌∷◌, ◌++◌, arith, ltb, ◌==◌, ==_iff, if◌then◌else◌, update, Bool-cases, head_or,
}
use microcsp.Machine.{Ptr}
use microcsp.Ready.{levels}
use microcsp.Ready.Queues.{is_empty}

-- priority and address, in the order of arrival
abbrev pub Arrivals : Type 0
Arrivals = List (ℕ × Ptr)

abbrev pub arrive : ℕ → Ptr → Arrivals → Arrivals
arrive l p w = w ++ (l, p) ∷ []

-- The highest priority above a base, or the base.
abbrev pub highest : ℕ → Arrivals → ℕ
highest base [] = base
highest base ((l, p) ∷ w) = if ltb base l then highest l w else highest base w

abbrev pub keep : ℕ × Ptr → Option (Ptr × Arrivals) → Option (Ptr × Arrivals)
keep x none = none
keep x (some (p, w)) = some (p, x ∷ w)

-- The first process of a priority, and the others.
abbrev pub first_of : ℕ → Arrivals → Option (Ptr × Arrivals)
first_of l [] = none
first_of l ((j, p) ∷ w) = if j == l then some (p, w) else keep (j, p) (first_of l w)

-- The process that is to run above a base priority, and the others; any process where the base lies
-- below all priorities.
abbrev pub next_above : ℤ → Arrivals → Option (Ptr × Arrivals)
next_above (pos base) w = let l = highest base w in if ltb base l then first_of l w else none
next_above (negsuc base) w = first_of (highest 0 w) w

-- The processes of one priority.
abbrev pub at_level : Arrivals → ℕ → List Ptr
at_level [] l = []
at_level ((j, p) ∷ w) l = if j == l then p ∷ at_level w l else at_level w l

abbrev pub InRange : Arrivals → Type 0
InRange [] = Unit {0}
InRange ((l, p) ∷ w) = (l < levels) × InRange w

arrive_same : (l : ℕ) (p : Ptr) (w : Arrivals) → at_level (arrive l p w) l ≡ at_level w l ++ p ∷ []
arrive_same l p [] = ground arith
arrive_same l p ((i, q) ∷ w) = ground (arith, arrive_same l p w)

arrive_other :
    (l : ℕ) (p : Ptr) (w : Arrivals) (j : ℕ)
    → (l == j) ≡ false
    → at_level (arrive l p w) j ≡ at_level w j
arrive_other l p [] j e = rw e refl
arrive_other l p ((i, q) ∷ w) j e = ground (arith, arrive_other l p w j e)

pub at_level-arrive :
    (l : ℕ) (p : Ptr) (w : Arrivals) (j : ℕ)
    → at_level (arrive l p w) j ≡ update (at_level w) l (at_level w l ++ p ∷ []) j
at_level-arrive l p w j = elim (Bool-cases (l == j)) [
  | inl e ↦ rw e (ap (at_level (arrive l p w)) (sym ((==_iff l j).0 e)) ∙ arrive_same l p w)
  | inr e ↦ rw e (arrive_other l p w j e)
]

pub InRange-arrive :
    (l : ℕ) (p : Ptr) (w : Arrivals) → l < levels → InRange w → InRange (arrive l p w)
InRange-arrive l p [] lt r = (lt, tt)
InRange-arrive l p ((j, q) ∷ w) lt r = (r.0, InRange-arrive l p w lt r.1)

pub highest-le : (base : ℕ) (w : Arrivals) → base ≤ highest base w
highest-le base [] = omega arith
highest-le base ((l, p) ∷ w) = ground (arith, highest-le l w, highest-le base w)

-- No process stands above the highest priority.
pub above_highest : (base : ℕ) (w : Arrivals) (j : ℕ) → highest base w < j → at_level w j ≡ []
above_highest base [] j h = refl
above_highest base ((l, p) ∷ w) j h =
    ground (arith, above_highest l w j, above_highest base w j, highest-le l w, highest-le base w)

-- A priority that is higher than the base is that of some process.
pub highest_there :
    (base : ℕ) (w : Arrivals)
    → base < highest base w
    → is_empty (at_level w (highest base w)) ≡ false
highest_there base [] h = absurd (omega arith)
highest_there base ((l, p) ∷ w) h =
    ground (arith, highest_there l w, highest_there base w, highest-le l w, highest-le base w)

pub highest_range :
    (base : ℕ) (w : Arrivals) → InRange w → base < highest base w → highest base w < levels
highest_range base [] r h = absurd (omega arith)
highest_range base ((l, p) ∷ w) r h =
    ground (
      arith,
      highest_range l w r.1,
      highest_range base w r.1,
      highest-le l w,
      highest-le base w,
      r.0,
    )

pub first_of-none : (l : ℕ) (w : Arrivals) → at_level w l ≡ [] → first_of l w ≡ none
first_of-none l [] e = refl
first_of-none l ((j, p) ∷ w) e = elim (Bool-cases (j == l)) [
  | inl here ↦ absurd (ground arith)
  | inr further ↦ rw (further, first_of-none l w (rw further at e)) refl
]

-- What `first_of` takes is the first process of the level, and the other levels stay.
pub record Removal (l : ℕ) (w : Arrivals) (p : Ptr) (rest : List Ptr) : Type 0 where
  pub others : Arrivals
  pub taken : first_of l w ≡ some (p, others)
  pub left : (j : ℕ) → at_level others j ≡ update (at_level w) l rest j
  pub range : InRange w → InRange others

take_here :
    (l : ℕ) (p : Ptr) (w : Arrivals) (j : ℕ)
    → at_level w j ≡ update (at_level ((l, p) ∷ w)) l (at_level w l) j
take_here l p w j = elim (Bool-cases (l == j)) [
  | inl e ↦ rw e (ap (at_level w) (sym ((==_iff l j).0 e)))
  | inr e ↦ rw e refl
]

take_further :
    (i l : ℕ) (q : Ptr) (v w : Arrivals) (rest : List Ptr) (j : ℕ)
    → (i == l) ≡ false
    → at_level v j ≡ update (at_level w) l rest j
    → at_level ((i, q) ∷ v) j ≡ update (at_level ((i, q) ∷ w)) l rest j
take_further i l q v w rest j ne e = ground (arith, e)

pub first_of-Removal :
    (l : ℕ) (w : Arrivals) (p : Ptr) (rest : List Ptr)
    → at_level w l ≡ p ∷ rest
    → Removal l w p rest
first_of-Removal l [] p rest e = absurd (ground arith)
first_of-Removal l ((i, q) ∷ w) p rest e = elim (Bool-cases (i == l)) [
  | inl here ↦
      let same : q ∷ at_level w l ≡ p ∷ rest = rw here at e in
      record {
        others = w;
        taken = rw here (ap (λ b. some (b, w)) (ap (head_or 0) same));
        left = λ j.
            subst (λ c. at_level w j ≡ update (at_level ((c, q) ∷ w)) l rest j)
              (sym ((==_iff i l).0 here))
              (subst (λ xs. at_level w j ≡ update (at_level ((l, q) ∷ w)) l xs j) (ap tail_of same)
                (take_here l q w j));
        range = λ r. r.1;
      }
  | inr further ↦
      let later = first_of-Removal l w p rest (rw further at e) in
      record {
        others = (i, q) ∷ later.others;
        taken = rw (further, later.taken) refl;
        left = λ j. take_further i l q later.others w rest j further (later.left j);
        range = λ r. (r.0, later.range r.1);
      }
]
  where
    tail_of : List Ptr → List Ptr
    tail_of [] = []
    tail_of (x ∷ xs) = xs
