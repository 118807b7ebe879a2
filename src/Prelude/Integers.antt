-- ===== src/Prelude/Integers.antt =====
-- Integers over the native numbers, for differences that may be negative.
use Prim.Native.Nat.{ℕ, suc, ◌-◌}
use unified_personal_mcp.Prelude.Tests.{ltb, if◌then◌else◌}

pub data ℤ : Type 0 where
  pos : ℕ → ℤ
  -- The integer - (n + 1).
  negsuc : ℕ → ℤ

-- `a - b` of two counts
abbrev pub difference : ℕ → ℕ → ℤ
difference a b = if ltb a b then negsuc (b - suc a) else pos (a - b)
