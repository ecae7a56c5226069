-- ===== src/Machine/Commands.antt =====
-- Commands: functions of the state that return, leave the program by `error`, come to the endless
-- loop of the idle process, do something that C does not define, or run out of the model's fuel.
use microcsp.Base.{◌≡◌, refl, sym, subst, ◌∙◌, arith, Bool, if◌then◌else◌}
use microcsp.Machine.Types.{Machine}

-- the calls of `error`, by what they report; the last three are those of the examples
pub data Error : Type 0 where
  no_block_large_enough out_of_memory memory_init_malloc : Error
  invalid_priority invalid_interrupt chanout_not_alone : Error
  timer_settime zero_interval invalid_timer kill_failed : Error
  no_input_in_injecting no_output_in_collecting not_zero_token : Error

pub data Outcome {ℓ} (A : Type ℓ) : Type ℓ where
  ok : A → Machine → Outcome A
  exit : Error → Outcome A
  idles : Machine → Outcome A
  fault : Outcome A
  out_of_fuel : Outcome A

abbrev pub Cmd {ℓ} : Type ℓ → Type ℓ
Cmd A = Machine → Outcome A

module _ {ℓ κ} {A : Type ℓ} {B : Type κ} where
  abbrev pub and_then : Outcome A → (A → Cmd B) → Outcome B
  and_then (ok a m) k = k a m
  and_then (exit e) k = exit e
  and_then (idles m) k = idles m
  and_then fault k = fault
  and_then out_of_fuel k = out_of_fuel

  infixl 5 ◌>>=◌ ◌>>◌
  abbrev pub ◌>>=◌ : Cmd A → (A → Cmd B) → Cmd B
  c >>= k = λ m. and_then (c m) k

  abbrev pub ◌>>◌ : Cmd A → Cmd B → Cmd B
  c >> d = c >>= λ _. d

abbrev pub pure {ℓ} : {A : Type ℓ} → A → Cmd A
pure a m = ok a m

abbrev pub get : Cmd Machine
get m = ok m m

abbrev pub modify : (Machine → Machine) → Cmd (Unit {0})
modify f m = ok tt (f m)

-- `error(...)`: src/hardware.c prints the message and exits.
abbrev pub error {ℓ} : {A : Type ℓ} → Error → Cmd A
error e m = exit e

abbrev pub undefined {ℓ} : {A : Type ℓ} → Cmd A
undefined m = fault

abbrev pub no_fuel {ℓ} : {A : Type ℓ} → Cmd A
no_fuel m = out_of_fuel

-- `if (b) error(...)`
abbrev pub error_if : Bool → Error → Cmd (Unit {0})
error_if b e m = if b then exit e else ok tt m

abbrev pub when : Bool → Cmd (Unit {0}) → Cmd (Unit {0})
when b c m = if b then c m else ok tt m

-- The run ends normally in a state and with a value that satisfy `P`.
pub data Returns {ℓ κ} {A : Type ℓ} (P : A → Machine → Type κ) : Outcome A → Type (ℓ ⊔ κ) where
  returns : {a : A} {m : Machine} → P a m → Returns P (ok a m)

module _ {ℓ κ ι μ} {A : Type ℓ} {B : Type ι} {P : A → Machine → Type κ}
    {Q : B → Machine → Type μ} where
  pub Returns-bind :
      {r : Outcome A} {k : A → Cmd B}
      → Returns P r
      → ((a : A) (m : Machine) → P a m → Returns Q (k a m))
      → Returns Q (and_then r k)
  Returns-bind (returns p) next = next _ _ p

module _ {ℓ κ} {A : Type ℓ} {P : A → Machine → Type κ} where
  pub Returns-cases : {r : Outcome A} → Returns P r → (a : A) × (m : Machine) × (r ≡ ok a m) × P a m
  Returns-cases (returns {a} {m} p) = (a, m, refl, p)

-- What holds of a command's value and state, where it returns.
abbrev pub Where {ℓ κ} : {A : Type ℓ} → (A → Machine → Type κ) → Outcome A → Type κ
Where P (ok a m) = P a m
Where P (exit e) = Unit
Where P (idles m) = Unit
Where P fault = Unit
Where P out_of_fuel = Unit

-- A command returns one value and one state.
pub ok_unique {ℓ κ} :
    {A : Type ℓ} (P : A → Machine → Type κ) {r : Outcome A} {a b : A} {m n : Machine}
    → r ≡ ok a m
    → r ≡ ok b n
    → P a m
    → P b n
ok_unique P e f p = subst (Where P) (sym e ∙ f) p

pub exit_ne_ok {ℓ} : {A : Type ℓ} {x : Error} {a : A} {n : Machine} → exit x ≡ ok a n → ⊥
exit_ne_ok e = ground (arith, e)
