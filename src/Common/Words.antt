-- ===== src/Common/Words.antt =====
-- Arithmetic of Rust's `u32`: casts wrap, `saturating_add` stops at the largest value.
use Prim.Native.Nat.{ℕ, ◌+◌, ◌-◌, ◌%◌, ◌^◌, ◌≤◌, ◌<◌, min}
use mathlib.Core.Path.{◌≡◌}
use native.Mathlib.Nat.{mod-eq_of_lt}
use native.Mathlib.Omega.{arith}

abbrev pub u32_mod : ℕ
u32_mod = 2 ^ 32

-- `n as u32`
unfoldable pub as_u32 : ℕ → ℕ
as_u32 n = n % u32_mod

-- `a.saturating_add(b)`
unfoldable pub saturating_add : ℕ → ℕ → ℕ
saturating_add a b = min (a + b) (u32_mod - 1)

pub as_u32_of_lt : (n : ℕ) → n < u32_mod → as_u32 n ≡ n
unfolding as_u32
as_u32_of_lt n h = mod-eq_of_lt h

pub saturating_add_bounds :
    (a b : ℕ) → (saturating_add a b ≤ a + b) × (saturating_add a b ≤ u32_mod - 1)
unfolding saturating_add
saturating_add_bounds a b = omega arith

pub saturating_add_of_lt : (a b : ℕ) → a + b < u32_mod → saturating_add a b ≡ a + b
unfolding saturating_add
saturating_add_of_lt a b h = omega arith

-- Below any bound that fits the word the sum is exact, and otherwise both reach the bound.
pub saturating_add-min : (a b k : ℕ) → k < u32_mod → min (saturating_add a b) k ≡ min (a + b) k
unfolding saturating_add
saturating_add-min a b k h = omega arith
