-- ===== src/Base/Lists.antt =====
-- Lists measured by native numbers, and membership by a Boolean test.
use Prim.Native.Nat.{ℕ, zero, suc, ◌+◌}
use mathlib.Core.Path.{◌≡◌, refl}
use mathlib.Core.Logic.{◌⊎◌, inl, inr}
use mathlib.Core.Bool.{Bool, true, false, ◌||◌}
use mathlib.Core.Option.{Option, none, some}
use mathlib.Core.List.{List, [], ◌∷◌, ◌++◌}
use native.Mathlib.Omega.{arith}
use microcsp.Base.Tests.{◌==◌, ==_iff}

module _ {ℓ} {A : Type ℓ} where
  abbrev pub length : List A → ℕ
  length [] = 0
  length (x ∷ xs) = suc (length xs)

  abbrev pub get_elem? : List A → ℕ → Option A
  get_elem? [] i = none
  get_elem? (x ∷ xs) zero = some x
  get_elem? (x ∷ xs) (suc i) = get_elem? xs i

  abbrev pub get_or : List A → ℕ → A → A
  get_or [] i d = d
  get_or (x ∷ xs) zero d = x
  get_or (x ∷ xs) (suc i) d = get_or xs i d

  -- The last item of a list, or the given one.
  abbrev pub last_or : A → List A → A
  last_or d [] = d
  last_or d (x ∷ xs) = last_or x xs

  pub length-append : (xs ys : List A) → length (xs ++ ys) ≡ length xs + length ys
  length-append [] ys = omega arith
  length-append (x ∷ xs) ys = omega (arith, length-append xs ys)

  pub last_or-append : (d x : A) (xs : List A) → last_or d (xs ++ x ∷ []) ≡ x
  last_or-append d x [] = refl
  last_or-append d x (y ∷ xs) = last_or-append y x xs

abbrev pub has : ℕ → List ℕ → Bool
has a [] = false
has a (x ∷ xs) = (x == a) || has a xs

pub has-append : (a : ℕ) (xs ys : List ℕ) → has a (xs ++ ys) ≡ (has a xs || has a ys)
has-append a [] ys = refl
has-append a (x ∷ xs) ys = ground (arith, has-append a xs ys)

pub has-last_or : (x : ℕ) (xs : List ℕ) → has (last_or x xs) (x ∷ xs) ≡ true
has-last_or x [] = ground arith
has-last_or x (y ∷ xs) = ground (arith, has-last_or y xs)

-- No item occurs twice.
abbrev pub IsDistinct : List ℕ → Type 0
IsDistinct [] = Unit
IsDistinct (x ∷ xs) = (has x xs ≡ false) × IsDistinct xs

pub append-IsDistinct :
    (p : ℕ) (xs : List ℕ) → IsDistinct xs → has p xs ≡ false → IsDistinct (xs ++ p ∷ [])
append-IsDistinct p [] d out = ground arith
append-IsDistinct p (x ∷ xs) d out =
    ground (arith, append-IsDistinct p xs d.1, has-append x xs (p ∷ []))

pub List-cases {ℓ} : {A : Type ℓ} (l : List A) → (l ≡ []) ⊎ ((x : A) × (xs : List A) × (l ≡ x ∷ xs))
List-cases [] = inl refl
List-cases (x ∷ xs) = inr (x, xs, refl)

-- The first item of a list, or the given one.
abbrev pub head_or {ℓ} : {A : Type ℓ} → A → List A → A
head_or d [] = d
head_or d (x ∷ xs) = x

pub has-insert : (a x : ℕ) (xs ys : List ℕ) → has a (xs ++ x ∷ ys) ≡ ((x == a) || has a (xs ++ ys))
has-insert a x [] ys = refl
has-insert a x (z ∷ xs) ys = ground (arith, has-insert a x xs ys)

pub insert-IsDistinct :
    (x : ℕ) (xs ys : List ℕ)
    → IsDistinct (xs ++ ys)
    → has x (xs ++ ys) ≡ false
    → IsDistinct (xs ++ x ∷ ys)
insert-IsDistinct x [] ys d out = (out, d)
insert-IsDistinct x (z ∷ xs) ys d out =
    (ground (arith, has-insert z x xs ys), insert-IsDistinct x xs ys d.1 (ground arith))

pub remove-IsDistinct :
    (x : ℕ) (xs ys : List ℕ)
    → IsDistinct (xs ++ x ∷ ys)
    → IsDistinct (xs ++ ys) × (has x (xs ++ ys) ≡ false)
remove-IsDistinct x [] ys d = (d.1, d.0)
remove-IsDistinct x (z ∷ xs) ys d =
    let (rest, out) = remove-IsDistinct x xs ys d.1 in
    ground (arith, has-insert z x xs ys, rest, out)

pub last_or-append_append {ℓ} :
    {A : Type ℓ} (d : A) (xs ys : List A) → last_or d (xs ++ ys) ≡ last_or (last_or d xs) ys
last_or-append_append d [] ys = refl
last_or-append_append d (x ∷ xs) ys = last_or-append_append x xs ys

pub distinct_heads : (x y : ℕ) (xs ys : List ℕ) → IsDistinct (x ∷ xs ++ y ∷ ys) → (y == x) ≡ false
distinct_heads x y xs ys d = ground (arith, has-insert x y xs ys)

pub distinct_parts :
    (a : ℕ) (xs ys : List ℕ) → IsDistinct (xs ++ ys) → has a xs ≡ true → has a ys ≡ false
distinct_parts a [] ys d h = absurd (ground arith)
distinct_parts a (x ∷ xs) ys d h =
    ground (arith, ==_iff x a, has-append x xs ys, distinct_parts a xs ys d.1)
