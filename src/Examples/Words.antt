-- ===== src/Examples/Words.antt =====
-- The variables of the example programs in memory: bytes, 16-bit and 32-bit words, least byte
-- first, and 64-bit times. A signed number is the word that holds it; an addition to an `int` that
-- goes beyond 2^31 - 1 is undefined.
use microcsp.Base.{
  ℕ, ◌+◌, ◌-◌, ◌*◌, ◌/◌, ◌^◌, ◌%◌, Bool, not, ◌&&◌, ◌||◌, ltb, leb, if◌then◌else◌, update,
}
use microcsp.Machine.{Ptr, Machine, Cmd, ok, fault}
use microcsp.Hardware.{write_int}
use microcsp.Timer.{now}
use microcsp.Channel.{set_active, is_active}

abbrev pub read_byte : Machine → Ptr → ℕ
read_byte m a = m.bytes a

unfoldable pub write_byte : (dest v : ℕ) → Machine → Machine
write_byte dest v m = record m { bytes = update m.bytes dest (v % 256) }

abbrev pub read_int : Machine → Ptr → ℕ
read_int m a =
    m.bytes a + 256 * m.bytes (a + 1) + 65_536 * m.bytes (a + 2) + 16_777_216 * m.bytes (a + 3)

-- A `short`, extended to an `int`.
abbrev pub read_short : Machine → Ptr → ℕ
read_short m a =
    let v = m.bytes a + 256 * m.bytes (a + 1) in if ltb v (2 ^ 15) then v else v + (2 ^ 32 - 2 ^ 16)

unfoldable pub write_short : (dest v : ℕ) → Machine → Machine
unfolding write_byte
write_short dest v m = write_byte (dest + 1) (v / 256) (write_byte dest v m)

-- A time, of 64 bits.
unfoldable pub write_time : (dest t : ℕ) → Machine → Machine
unfolding write_int
write_time dest t m = write_int (dest + 4) (t / 2 ^ 32) (write_int dest t m)

-- The sum of two `int`s of one sign has another sign.
abbrev pub overflows : ℕ → ℕ → Bool
overflows v k =
    let sum = v + k in
    (ltb v (2 ^ 31) && ltb k (2 ^ 31) && leb (2 ^ 31) sum)
    || (leb (2 ^ 31) v && leb (2 ^ 31) k && ltb sum (2 ^ 32 + 2 ^ 31))

-- `*a += k`
unfoldable pub add_int : Ptr → ℕ → Cmd (Unit {0})
unfolding write_int
add_int a k m =
    let v = read_int m a in
    if overflows v k then fault else ok tt (write_int a ((v + k) % 2 ^ 32) m)

-- A call of `Now`.
unfoldable pub call_now : Cmd ℕ
call_now m = let (t, m₁) = now m in ok t m₁

-- `set_active(g, !is_active(g))`
unfoldable pub flip : Ptr → Machine → Machine
unfolding set_active is_active
flip guard m = set_active guard (not (is_active guard m)) m
