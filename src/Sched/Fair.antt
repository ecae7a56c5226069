-- ===== src/Sched/Fair.antt =====
-- The fair ALT of src/sched.c over channel inputs starves none of them.
use native.Mathlib.Nat.{mod-lt, mod-eq_of_lt, add-mod_right}
use microcsp.Base.{
  ℕ, zero, suc, ◌+◌, ◌-◌, ◌%◌, ◌<◌, ◌≤◌, ◌≡◌, refl, sym, ap, subst, ◌∙◌, ◌≢◌, true, false, arith,
  ltb, leb, ◌==◌, ==_iff, if◌then◌else◌, Bool-cases, inl, inr,
}
use microcsp.Machine.{
  Ptr, null, Machine, Alternation, GuardKind, Cmd, ok, ok_unique, guard_chanin, guard_chanout,
  guard_skip, guard_timeout, guard_interrupt,
}
use microcsp.Alt.{alternation, guard_at, plus1_mod}
use microcsp.Alt.Senders.{sender, is_input, kth}
use microcsp.Alt.Enable.{first_guard}
use microcsp.Sched.{begin_alt}
use microcsp.Sched.Alternate.{Finds, begin_alt-first}

-- A sum of two numbers below the modulus.
mod_once : (x n : ℕ) → x < n + n → x % n ≡ (if ltb x n then x else x - n)
mod_once x n lt = elim (Bool-cases (ltb x n)) [
  | inl small ↦ rw small (mod-eq_of_lt (ground arith))
  | inr large ↦
      let split : x ≡ x - n + n = ground arith in
      rw large (ap (λ y. y % n) split ∙ add-mod_right (x - n) n ∙ mod-eq_of_lt (ground arith))
]

-- How many guards the scan passes from one guard to another.
abbrev pub places : (nr from to : ℕ) → ℕ
places nr from to = if leb from to then to - from else to + nr - from

places-lt : (nr from to : ℕ) → from < nr → to < nr → places nr from to < nr
places-lt nr from to lt lt' = ground arith

places-at : (nr from to : ℕ) → from < nr → to < nr → (from + places nr from to) % nr ≡ to
places-at nr from to lt lt' = mod_once (from + places nr from to) nr (ground arith) ∙ ground arith

-- Behind a guard that is selected before the other one, fewer are left.
places-next :
    (nr from to d : ℕ)
    → from < nr
    → to < nr
    → d < places nr from to
    → suc d + places nr (plus1_mod ((from + d) % nr) nr) to ≡ places nr from to
places-next nr from to d lt lt' before =
    let a : (from + d) % nr ≡ (if ltb (from + d) nr then from + d else from + d - nr) =
      mod_once (from + d) nr (ground arith) in
    let b : ((from + d) % nr + 1) % nr
        ≡ (if ltb ((from + d) % nr + 1) nr then (from + d) % nr + 1 else (from + d) % nr + 1 - nr) =
      mod_once ((from + d) % nr + 1) nr (ground arith) in
    ground (arith, a, b)

-- The first of a row of senders, of which one is there.
first_sender :
    (s : ℕ → Ptr) (e : ℕ)
    → s e ≢ null
    → (d : ℕ) × (d ≤ e) × ((j : ℕ) → j < d → s j ≡ null) × (s d ≢ null)
first_sender s zero there = (0, omega arith, λ j lt. absurd (omega arith), there)
first_sender s (suc e) there = elim (Bool-cases (s 0 == null)) [
  | inr found ↦ (0, omega arith, λ j lt. absurd (omega arith), ground arith)
  | inl empty ↦
      let (d, le, before, found) = first_sender (λ j. s (suc j)) e there in
      (suc d, omega arith, first_then s d ((==_iff (s 0) null).0 empty) before, found)
]
  where
    first_then :
        (s : ℕ → Ptr) (d : ℕ)
        → s 0 ≡ null
        → ((j : ℕ) → j < d → s (suc j) ≡ null)
        → (j : ℕ) → j < suc d
        → s j ≡ null
    first_then s d empty before zero lt = empty
    first_then s d empty before (suc j) lt = before j (omega arith)

input_kind :
    (k : GuardKind)
    → is_input k ≡ true
    → (chan : Ptr) × (dest : Ptr) × (len : ℕ) × (k ≡ guard_chanin chan dest len)
input_kind (guard_chanin chan dest len) e = (chan, dest, len, refl)
input_kind (guard_chanout chan src) e = absurd (ground arith)
input_kind guard_skip e = absurd (ground arith)
input_kind (guard_timeout timeout) e = absurd (ground arith)
input_kind (guard_interrupt chan dest) e = absurd (ground arith)

-- `begin_alt-first` for an alternation that is known by an equation.
abbrev Selects : (rtc : ℕ → Ptr → Cmd (Unit {0})) (fuel p d : ℕ) → Machine → Alternation → Type 0
Selects rtc fuel p d m alt =
    Finds m alt (first_guard alt) d
    → is_input (kth m alt.guards alt.nr_guards (first_guard alt) d).kind ≡ true
    → (partner : Ptr) × (n : Machine) × (begin_alt rtc fuel p m ≡ ok (true, partner) n)
      × ((alternation n p).index ≡ (first_guard alt + d) % alt.nr_guards)

begin_known :
    (rtc : ℕ → Ptr → Cmd (Unit {0})) (fuel p d : ℕ) (m : Machine) (alt : Alternation)
    → alternation m p ≡ alt
    → Selects rtc fuel p d m alt
begin_known rtc fuel p d m alt e = subst (Selects rtc fuel p d m) e (λ f input.
    let (chan, dest, len, kind) = input_kind _ input in
    let (n, returns, index, _, _, _) = begin_alt-first rtc fuel p m d chan dest len f kind in
    (_, n, returns, index))

-- A fair ALT of channel inputs that last selected the guard i, at whose guard j a sender waits.
pub record Offers (p gs nr j i : ℕ) (m : Machine) : Type 0 where
  pub count : ℕ
  pub alternates :
      alternation m p
      ≡ record { guards = gs; nr_guards = nr; index = i; count = count; alt_pri = false }
  pub inputs : (l : ℕ) → l < nr → is_input (guard_at m gs l).kind ≡ true
  pub waits : sender m (guard_at m gs j) ≢ null

module _ (rtc : ℕ → Ptr → Cmd (Unit {0})) (fuel p gs nr j : ℕ) where
  -- A row of ALTs of one process, from the guard that it last selected, none of which selects the
  -- guard j, though each time a sender waits there. Between them anything may happen that leaves
  -- the process's guards, their number and the last selection.
  pub data Passed : (turns index : ℕ) → Type 0 where
    none_yet : {i : ℕ} → Passed 0 i
    turn :
        {k i : ℕ} (m n : Machine) (partner : Ptr)
        → Offers p gs nr j i m
        → begin_alt rtc fuel p m ≡ ok (true, partner) n
        → (alternation n p).index ≢ j
        → Passed k (alternation n p).index
        → Passed (suc k) i

  -- One ALT selects the guard j or a guard before it.
  selects :
      (i : ℕ) (m n : Machine) (partner : Ptr)
      → nr < 256
      → j < nr
      → Offers p gs nr j i m
      → begin_alt rtc fuel p m ≡ ok (true, partner) n
      → (d : ℕ) × (d ≤ places nr (plus1_mod i nr) j)
        × ((alternation n p).index ≡ (plus1_mod i nr + d) % nr)
  selects i m n partner small lt o e =
      let alt : Alternation = record {
        guards = gs;
        nr_guards = nr;
        index = i;
        count = o.count;
        alt_pri = false;
      } in
      let first = plus1_mod i nr in
      let begins : first < nr = mod-lt (i + 1) (omega arith) in
      let there = ap (λ l. sender m (guard_at m gs l)) (places-at nr first j begins lt) in
      let (d, le, before, found) =
        first_sender (λ l. sender m (kth m gs nr first l)) (places nr first j)
          (λ h. o.waits (sym there ∙ h)) in
      let within : d < nr = omega (arith, le, places-lt nr first j begins lt) in
      let input = o.inputs ((first + d) % nr) (mod-lt (first + d) (omega arith)) in
      let f : Finds m alt first d = record {
        small = small;
        inputs = o.inputs;
        within = within;
        before = before;
        found = found;
      } in
      let (_, _, returns, index) = begin_known rtc fuel p d m alt o.alternates f input in
      (d, le, ok_unique (λ _ r. (alternation r p).index ≡ (first + d) % nr) returns e index)

  Passed-places : {k i : ℕ} → nr < 256 → j < nr → Passed k i → k ≤ places nr (plus1_mod i nr) j
  Passed-places small lt none_yet = omega arith
  Passed-places {i = i} small lt (turn {k} m n partner o e passes rest) =
      let first = plus1_mod i nr in
      let begins : first < nr = mod-lt (i + 1) (omega arith) in
      let (d, le, index) = selects i m n partner small lt o e in
      let left : k ≤ places nr (plus1_mod ((first + d) % nr) nr) j =
        subst (λ c. k ≤ places nr (plus1_mod c nr) j) index (Passed-places small lt rest) in
      let early : d < places nr first j = elim (Bool-cases (d == places nr first j)) [
        | inl here ↦ absurd (
            passes (
              index
              ∙ ap (λ c. (first + c) % nr) ((==_iff d (places nr first j)).0 here)
              ∙ places-at nr first j begins lt))
        | inr other ↦ ground arith
      ] in
      omega (arith, left, places-next nr first j d begins lt early)

  -- A sender that waits at a guard of a fair ALT with fewer than 256 guards, all of them channel
  -- inputs, each time that the scheduler enables this ALT, is passed over in fewer ALTs in a row
  -- than the process has guards, whatever else happens between them.
  pub Passed-bound : {k i : ℕ} → nr < 256 → j < nr → Passed k i → k < nr
  Passed-bound {k} {i} small lt passed = omega (
    arith,
    Passed-places small lt passed,
    places-lt nr (plus1_mod i nr) j (mod-lt (i + 1) (omega arith)) lt,
  )
