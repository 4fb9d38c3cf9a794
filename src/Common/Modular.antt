-- ===== src/Common/Modular.antt =====
-- Machine words, and remainders by a variable: what a ring buffer's slot arithmetic needs.
use Prim.Native.Nat.{ℕ, ◌+◌, ◌%◌, ◌≤◌, ◌<◌}
use mathlib.Core.Path.{◌≡◌}
use native.Mathlib.Omega.{arith}

-- The number of values of a `std::uint64_t`.
abbrev pub u64_mod : ℕ
u64_mod = 0x1_0000_0000_0000_0000

abbrev pub u32_mod : ℕ
u32_mod = 0x1_0000_0000

-- Within a window no wider than the modulus, a remainder determines the number.
pub mod_window : (m a b : ℕ) → a % m ≡ b % m → a ≤ b → b < a + m → a ≡ b
mod_window m a b h l u = grind arith
