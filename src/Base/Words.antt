-- ===== src/Base/Words.antt =====
-- The machine integers of the program: the moduli, checked and saturating arithmetic on u64 (and on
-- usize, which has 64 bits on the program's targets), and division rounded up.
use Prim.Native.Nat.{ℕ, ◌+◌, ◌-◌, ◌*◌, ◌/◌, ◌%◌, ◌^◌, min}
use mathlib.Core.Option.{Option, none, some}
use pstforge.Base.Tests.{ltb, leb, ◌==◌, if◌then◌else◌}

abbrev pub u16_mod : ℕ
u16_mod = 2 ^ 16

abbrev pub u32_mod : ℕ
u32_mod = 2 ^ 32

abbrev pub u64_mod : ℕ
u64_mod = 2 ^ 64

-- `checked_add` and `checked_mul` at a width given by its modulus, and `checked_sub`.
abbrev pub checked : ℕ → ℕ → Option ℕ
checked modulus value = if ltb value modulus then some value else none

abbrev pub checked_add : ℕ → ℕ → Option ℕ
checked_add a b = checked u64_mod (a + b)

abbrev pub checked_mul : ℕ → ℕ → Option ℕ
checked_mul a b = checked u64_mod (a * b)

abbrev pub checked_sub : ℕ → ℕ → Option ℕ
checked_sub a b = if leb b a then some (a - b) else none

abbrev pub saturating_add : ℕ → ℕ → ℕ
saturating_add a b = min (a + b) (u64_mod - 1)

abbrev pub saturating_mul : ℕ → ℕ → ℕ
saturating_mul a b = min (a * b) (u64_mod - 1)

-- `a.div_ceil(b)`: the quotient, and one more when a remainder is left.
abbrev pub div_ceil : ℕ → ℕ → ℕ
div_ceil a b = if a % b == 0 then a / b else a / b + 1
