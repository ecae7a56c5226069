-- ===== src/Alt/Disable.antt =====
-- `disable_alt` in src/sched.c over channel inputs, with the transfer.
use native.Mathlib.Nat.{mod-lt, mod-eq_of_lt}
use microcsp.Base.{
  ℕ, ◌+◌, ◌-◌, ◌%◌, ◌<◌, ◌≤◌, ◌≡◌, refl, ap, ◌∙◌, ◌≢◌, true, false, ◌&&◌, arith, ltb, leb, ◌==◌,
  u8_mod,
}
use microcsp.Machine.{Ptr, null, Machine, Alternation, GuardKind, guard_chanin, ok}
use microcsp.Hardware.{memcpy}
use microcsp.Channel.{set_channel}
use microcsp.Alt.{alternation, guard_at, set_alt, set_process, transfer, disable_alt}
use microcsp.Alt.Senders.{sender, is_input, SameWaiters, kth}
use microcsp.Alt.Enable.{alternation-set_alt}
use microcsp.Alt.Backwards.{disable_guards-first}

-- What the transfer does to memory and to the channel.
transfer-input :
    (chan dest len : ℕ) (m : Machine)
    → let n = transfer (guard_chanin chan dest len) m in
      ((j : ℕ) → j < len → n.bytes (dest + j) ≡ m.bytes ((m.channel chan).src + j))
      × ((a : ℕ) → (leb dest a && ltb a (dest + len)) ≡ false → n.bytes a ≡ m.bytes a)
      × ((n.channel chan).waiting ≡ null)
unfolding transfer memcpy set_channel
transfer-input chan dest len m = (
  λ j lt.
      let inside : (leb dest (dest + j) && ltb (dest + j) (dest + len)) ≡ true = ground arith in
      let back : dest + j - dest ≡ j = omega arith in rw (inside, back) refl,
  λ a out. rw out refl,
  ground arith,
)

-- The end of `disable_alt` for an input.
end-input :
    (p chan dest len : ℕ) (alt : Alternation) (m n : Machine)
    → SameWaiters m n
    → let o = transfer (guard_chanin chan dest len) (set_alt p alt n) in
      (alternation o p ≡ alt)
      × ((j : ℕ) → j < len → o.bytes (dest + j) ≡ m.bytes ((m.channel chan).src + j))
      × ((o.channel chan).waiting ≡ null)
unfolding transfer memcpy set_channel set_alt set_process
end-input p chan dest len alt m n same =
    let (arrives, _, free) = transfer-input chan dest len (set_alt p alt n) in
    (
      alternation-set_alt p alt n,
      λ j lt.
          arrives j lt
          ∙ ap (λ s. n.bytes (s + j)) (same.src chan)
          ∙ ap (λ b. b ((m.channel chan).src + j)) same.bytes,
      free,
    )

-- Setting the selected branch leaves the guards.
selected-kind :
    (p : Ptr) (alt : Alternation) (gs i : ℕ) (m n : Machine) (kind : GuardKind)
    → SameWaiters m n
    → (guard_at m gs i).kind ≡ kind
    → (guard_at (set_alt p alt n) gs i).kind ≡ kind
unfolding set_alt set_process
selected-kind p alt gs i m n kind same e = ap (λ g. (g (gs + i)).kind) same.guard ∙ e

-- For a process with fewer than 256 guards, all of them channel inputs, whose last scan began at
-- `first` and passed `count` guards, `disable_alt` goes back over these to the first guard of the
-- scan whose sender is there. It selects that guard and returns its sender; the sender's message is
-- then at the guard's destination, and the guard's channel is free again.
pub disable_alt-first :
    (fuel : ℕ) (p : Ptr) (m : Machine) (first d chan dest len : ℕ)
    → let alt = alternation m p in
      let kth_guard = kth m alt.guards alt.nr_guards first in
      alt.nr_guards < 256
      → 0 < alt.nr_guards
      → alt.index ≡ (first + alt.count) % alt.nr_guards
      → ((j : ℕ) → j < alt.nr_guards → is_input (guard_at m alt.guards j).kind ≡ true)
      → d ≤ alt.count
      → ((e : ℕ) → e < d → sender m (kth_guard e) ≡ null)
      → sender m (kth_guard d) ≢ null
      → (kth_guard d).kind ≡ guard_chanin chan dest len
      → (n : Machine) × (disable_alt fuel p m ≡ ok (sender m (kth_guard d)) n)
        × ((alternation n p).index ≡ (first + d) % alt.nr_guards)
        × ((j : ℕ) → j < len → n.bytes (dest + j) ≡ m.bytes ((m.channel chan).src + j))
        × ((n.channel chan).waiting ≡ null)
unfolding disable_alt
disable_alt-first fuel p m first d chan dest len small pos at inputs le waits finds kind =
    let alt = alternation m p in
    let nr = alt.nr_guards in
    let some_guard : (nr == 0) ≡ false = ground arith in
    let (n, e, same) =
      disable_guards-first fuel alt.guards nr first (alt.count + 1) alt.index alt.index d null m pos
        (λ k h. at ∙ ap (λ c. (first + c) % nr) (omega arith)) (omega arith)
        (λ e lt. inputs _ (mod-lt (first + e) pos)) waits finds in
    let sel = (first + d) % nr in
    let alt' = record (alternation n p) { index = sel % u8_mod } in
    let kind' = selected-kind p alt' alt.guards sel m n _ same kind in
    let (branch, arrives, free) = end-input p chan dest len alt' m n same in
    let small_branch : sel < 256 = omega (arith, mod-lt (first + d) pos) in
    (
      transfer (guard_chanin chan dest len) (set_alt p alt' n),
      rw (some_guard, e, kind') refl,
      ap (λ a. a.index) branch ∙ mod-eq_of_lt small_branch,
      arrives,
      free,
    )
