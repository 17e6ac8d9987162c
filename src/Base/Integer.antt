-- ===== src/Base/Integer.antt =====
-- Integers over the native numbers.
use Prim.Native.Nat.{ℕ, ◌+◌, ◌-◌}
use simple_file_system.Base.Logic.{ltb, if◌then◌else◌}

pub data ℤ : Type 0 where
  pos : ℕ → ℤ
  negsuc : ℕ → ℤ

-- The number less `n + 1`.
abbrev pub less : ℕ → ℕ → ℤ
less m n = if ltb n m then pos (m - (n + 1)) else negsuc (n - m)

infixl 6 ◌+ℤ◌
unfoldable pub ◌+ℤ◌ : ℤ → ℤ → ℤ
pos m +ℤ pos n = pos (m + n)
pos m +ℤ negsuc n = less m n
negsuc m +ℤ pos n = less n m
negsuc m +ℤ negsuc n = negsuc (m + n + 1)
