-- ===== src/Prelude/Int.antt =====
-- The program's `int` results: `pos n` is n and `negsuc n` is -(n + 1).
use Prim.Native.Nat.{ℕ, compare, Ordering}
use mathlib.Core.Bool.{Bool, true, false}

pub data ℤ : Type 0 where
  pos : ℕ → ℤ
  negsuc : ℕ → ℤ

-- `result == n` at a literal n that is not negative.
abbrev pub is_code : ℤ → ℕ → Bool
is_code (pos a) n = elim (compare a n) [ Ordering.eq ↦ true | _ ↦ false ]
is_code (negsuc a) n = false
