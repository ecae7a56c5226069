-- ===== src/Base/Tests.antt =====
-- Boolean tests on the native numbers, the conditional, a table check and point updates of a map.
use Prim.Native.Nat.{ℕ, zero, suc, ◌<◌, compare, Ordering}
use mathlib.Core.Path.{◌≡◌, refl, subst}
use mathlib.Core.Logic.{◌↔◌, ◌⊎◌, inl, inr}
use mathlib.Core.Bool.{Bool, true, false, ◌&&◌}
use mathlib.Core.Option.{Option, none, some}
use native.Mathlib.Omega.{arith}

abbrev pub ltb : ℕ → ℕ → Bool
ltb a b = elim (compare a b) [ Ordering.lt ↦ true | _ ↦ false ]

abbrev pub leb : ℕ → ℕ → Bool
leb a b = elim (compare a b) [ Ordering.gt ↦ false | _ ↦ true ]

infix 50 ◌==◌
abbrev pub ◌==◌ : ℕ → ℕ → Bool
a == b = elim (compare a b) [ Ordering.eq ↦ true | _ ↦ false ]

infix 1 if◌then◌else◌
abbrev pub if◌then◌else◌ {ℓ} : {A : Type ℓ} → Bool → A → A → A
if true then x else y = x
if false then x else y = y

pub ==_iff : (a b : ℕ) → ((a == b) ≡ true) ↔ (a ≡ b)
==_iff a b = ground arith

-- To split on a computed value and keep the equation.
pub Bool-cases : (b : Bool) → (b ≡ true) ⊎ (b ≡ false)
Bool-cases true = inl refl
Bool-cases false = inr refl

pub Option-cases {ℓ} : {A : Type ℓ} (o : Option A) → (o ≡ none) ⊎ ((a : A) × (o ≡ some a))
Option-cases none = inl refl
Option-cases (some a) = inr (a, refl)

-- Every number below a bound passes a test: a check by evaluation.
unfoldable pub all_below : (bound : ℕ) (test : ℕ → Bool) → Bool
all_below zero test = true
all_below (suc i) test = all_below i test && test i

pub all_below_sound :
    (bound : ℕ) (test : ℕ → Bool) (i : ℕ) → all_below bound test ≡ true → i < bound → test i ≡ true
unfolding all_below
all_below_sound zero test i passed lt = absurd (omega arith)
all_below_sound (suc j) test i passed lt = ground (arith, all_below_sound j test i)

-- An assignment through a pointer or to an array's element.
abbrev pub update {ℓ} : {A : Type ℓ} → (ℕ → A) → ℕ → A → ℕ → A
update f p v q = if p == q then v else f q

-- A property of every entry of a map survives an update by an entry that has it.
pub update_case {ℓ κ} :
    {A : Type ℓ} (P : ℕ → A → Type κ) (f : ℕ → A) (i : ℕ) (v : A) (j : ℕ)
    → P i v
    → P j (f j)
    → P j (update f i v j)
update_case P f i v j new old = elim (Bool-cases (i == j)) [
  | inl e ↦ rw e (subst (λ k. P k v) ((==_iff i j).0 e) new)
  | inr e ↦ rw e old
]

-- The same for two maps, with the equation of the test at an entry that is not updated.
pub update_case_ne {ℓ κ ι} :
    {A : Type ℓ} {B : Type κ} (P : ℕ → A → B → Type ι) (f : ℕ → A) (g : ℕ → B) (i : ℕ) (v : A)
    (w : B) (j : ℕ)
    → P i v w
    → ((i == j) ≡ false → P j (f j) (g j))
    → P j (update f i v j) (update g i w j)
update_case_ne P f g i v w j new old = elim (Bool-cases (i == j)) [
  | inl e ↦ rw e (subst (λ k. P k v w) ((==_iff i j).0 e) new)
  | inr e ↦ rw e (old e)
]

pub update_case₂ {ℓ κ ι} :
    {A : Type ℓ} {B : Type κ} (P : ℕ → A → B → Type ι) (f : ℕ → A) (g : ℕ → B) (i : ℕ) (v : A)
    (w : B) (j : ℕ)
    → P i v w
    → P j (f j) (g j)
    → P j (update f i v j) (update g i w j)
update_case₂ P f g i v w j new old = update_case_ne P f g i v w j new (λ _. old)
