-- ===== src/Common/Int.antt =====
-- Signed integers; `negsuc n` is -(n + 1).
use Prim.Native.Nat.{ℕ, ◌-◌, ◌^◌}
use mathlib.Core.Bool.{Bool}
use p.Common.Tests.{leb, if◌then◌else◌}

pub data ℤ : Type 0 where
  pos : ℕ → ℤ
  negsuc : ℕ → ℤ

-- Whether an int64 with these bits is negative.
abbrev pub is_negative : ℕ → Bool
is_negative bits = leb (2 ^ 63) bits

-- The int64 with these bits.
abbrev pub signed : ℕ → ℤ
signed bits = if is_negative bits then negsuc (2 ^ 64 - 1 - bits) else pos bits
