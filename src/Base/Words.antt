-- ===== src/Base/Words.antt =====
-- Machine words: `u64`, and `usize` on a 64-bit target.
use Prim.Native.Nat.{ℕ, ◌+◌, ◌-◌, ◌*◌, ◌%◌, ◌≤◌, ◌<◌}
use mathlib.Core.Path.{◌≡◌}
use mathlib.Core.Option.{Option, none, some}
use native.Mathlib.Omega.{arith}
use hwire.Base.Tests.{leb, if◌then◌else◌}

-- 2 ^ 64
abbrev pub u64_mod : ℕ
u64_mod = 18446744073709551616

abbrev pub u64_max : ℕ
u64_max = 18446744073709551615

abbrev pub usize_max : ℕ
usize_max = 18446744073709551615

-- `usize::try_from(n).unwrap_or(usize::MAX)`
abbrev pub to_usize : ℕ → ℕ
to_usize n = if leb n usize_max then n else usize_max

abbrev pub add_u64 : ℕ → ℕ → ℕ
add_u64 a b = (a + b) % u64_mod

abbrev pub sub_u64 : ℕ → ℕ → ℕ
sub_u64 a b = (a + u64_mod - b) % u64_mod

-- `u64::checked_mul`, `u64::checked_add`
abbrev pub checked_mul : ℕ → ℕ → Option ℕ
checked_mul a b = if leb (a * b) u64_max then some (a * b) else none

abbrev pub checked_add : ℕ → ℕ → Option ℕ
checked_add a b = if leb (a + b) u64_max then some (a + b) else none

-- Where nothing wraps, the subtraction of words is that of numbers.
pub sub_u64-eq : (a b : ℕ) → a < u64_mod → b ≤ a → sub_u64 a b ≡ a - b
sub_u64-eq a b h k = omega arith
