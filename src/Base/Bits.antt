-- ===== src/Base/Bits.antt =====
-- The bits of a byte.
use Prim.Native.Nat.{ℕ, ◌-◌, ◌/◌, ◌%◌, ◌^◌, ◌<◌, bit_and, bit_or}
use mathlib.Core.Path.{◌≡◌, refl}
use mathlib.Core.Bool.{Bool, true, ◌&&◌}
use native.Mathlib.Omega.{arith}
use simple_file_system.Base.Logic.{ltb, ◌==◌, if◌then◌else◌, passes, passes-at, ==→eq, ltb→lt}

-- `(byte >> bit) & 1U`
unfoldable pub bit_at : ℕ → ℕ → ℕ
bit_at byte bit = byte / 2 ^ bit % 2

-- `byte |= (uint8_t)(1U << bit)` at a bit below 8
unfoldable pub set_bit : ℕ → ℕ → ℕ
set_bit byte bit = bit_or byte (2 ^ bit)

-- `byte &= (uint8_t)~(1U << bit)` at a bit below 8
unfoldable pub clear_bit : ℕ → ℕ → ℕ
clear_bit byte bit = bit_and byte (255 - 2 ^ bit)

-- What a write to bit `k` of byte `b` should give: a byte whose bits but that one are the same.
abbrev writes : (write : ℕ → ℕ → ℕ) (value b k : ℕ) → Bool
writes write value b k =
    passes (λ j. bit_at (write b k) j == (if j == k then value else bit_at b j)) 8
    && ltb (write b k) 256

abbrev all_bytes : (ℕ → ℕ → Bool) → Bool
all_bytes test = passes (λ b. passes (test b) 8) 256

set_table : all_bytes (writes set_bit 1) ≡ true
unfolding passes bit_at set_bit
set_table = refl

clear_table : all_bytes (writes clear_bit 0) ≡ true
unfolding passes bit_at clear_bit
clear_table = refl

full_table : passes (λ k. bit_at 255 k == 1) 8 ≡ true
unfolding passes bit_at
full_table = refl

of_both : {a b : Bool} → (a && b) ≡ true → (a ≡ true) × (b ≡ true)
of_both h = (ground arith, ground arith)

module _ (byte bit : ℕ) (hb : byte < 256) (hk : bit < 8) where
  set_row : writes set_bit 1 byte bit ≡ true
  set_row = passes-at (writes set_bit 1 byte) 8 hk (passes-at _ 256 hb set_table)

  clear_row : writes clear_bit 0 byte bit ≡ true
  clear_row = passes-at (writes clear_bit 0 byte) 8 hk (passes-at _ 256 hb clear_table)

  pub set_bit-lt : set_bit byte bit < 256
  set_bit-lt = ltb→lt _ _ ((of_both set_row).1)

  pub clear_bit-lt : clear_bit byte bit < 256
  clear_bit-lt = ltb→lt _ _ ((of_both clear_row).1)

  pub bit_at-set_bit :
      (j : ℕ) → j < 8 → bit_at (set_bit byte bit) j ≡ (if j == bit then 1 else bit_at byte j)
  bit_at-set_bit j hj = ==→eq _ _ (passes-at _ 8 hj ((of_both set_row).0))

  pub bit_at-clear_bit :
      (j : ℕ) → j < 8 → bit_at (clear_bit byte bit) j ≡ (if j == bit then 0 else bit_at byte j)
  bit_at-clear_bit j hj = ==→eq _ _ (passes-at _ 8 hj ((of_both clear_row).0))

pub bit_at_full : (j : ℕ) → j < 8 → bit_at 255 j ≡ 1
bit_at_full j hj = ==→eq _ _ (passes-at _ 8 hj full_table)
