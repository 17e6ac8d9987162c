-- ===== src/Base/Buffer.antt =====
-- Buffers of bytes. A `uint8_t*` is read through its index; a length travels beside it where the
-- source keeps one. Numbers of four bytes are little-endian.
use Prim.Native.Nat.{ℕ, ◌+◌, ◌-◌, ◌*◌, ◌/◌, ◌%◌, ◌^◌, ◌≤◌, ◌<◌}
use mathlib.Core.Path.{◌≡◌}
use mathlib.Core.Bool.{false, ◌&&◌}
use native.Mathlib.Omega.{arith}
use simple_file_system.Base.Logic.{ltb, leb, ◌==◌, if◌then◌else◌, ==-refl}
use native.Mathlib.Nat.{add-zero}

abbrev pub Bytes : Type 0
Bytes = ℕ → ℕ

-- `{0}` and `calloc`
abbrev pub zeros : Bytes
zeros i = 0

-- `memcpy(destination + at, source + from, count)`
unfoldable pub copy : Bytes → ℕ → Bytes → ℕ → ℕ → Bytes
copy destination at source from count i =
    if leb at i && ltb i (at + count) then source (from + (i - at)) else destination i

-- `destination[at] = value`
unfoldable pub store : Bytes → ℕ → ℕ → Bytes
store destination at value i = if i == at then value else destination i

abbrev pub AreBytes : Bytes → Type 0
AreBytes b = (i : ℕ) → b i < 256

-- The `uint32_t` at index `k` of a buffer that is read as `uint32_t*`.
unfoldable pub u32_at : Bytes → ℕ → ℕ
u32_at b k = b (4 * k) + 256 * b (4 * k + 1) + 65536 * b (4 * k + 2) + 16777216 * b (4 * k + 3)

-- Byte `j` of the `uint32_t` `n`.
unfoldable pub byte_of_u32 : ℕ → ℕ → ℕ
byte_of_u32 n j =
    if j == 0
    then n % 256
    else if j == 1
    then n / 256 % 256
    else if j == 2
    then n / 65536 % 256
    else n / 16777216 % 256

-- `((uint32_t*)b)[k] = n`
unfoldable pub set_u32 : Bytes → ℕ → ℕ → Bytes
unfolding byte_of_u32
set_u32 b k n i = if i / 4 == k then byte_of_u32 n (i % 4) else b i

set_u32_hit : (b : Bytes) (k n j : ℕ) → j < 4 → set_u32 b k n (4 * k + j) ≡ byte_of_u32 n j
unfolding set_u32
set_u32_hit b k n j h =
    let q : (4 * k + j) / 4 ≡ k = omega arith in
    let r : (4 * k + j) % 4 ≡ j = omega arith in rw (q, r, ==-refl)

set_u32_miss :
    (b : Bytes) (k n m j : ℕ) → j < 4 → (m == k) ≡ false → set_u32 b k n (4 * m + j) ≡ b (4 * m + j)
unfolding set_u32
set_u32_miss b k n m j h ne = let q : (4 * m + j) / 4 ≡ m = omega arith in rw (q, ne)

bytes_of_u32 :
    (n : ℕ)
    → n < 2 ^ 32
    → byte_of_u32 n 0 + 256 * byte_of_u32 n 1 + 65536 * byte_of_u32 n 2 + 16777216 * byte_of_u32 n 3
      ≡ n
unfolding byte_of_u32
bytes_of_u32 n h = omega arith

pub u32_at-set_u32 : (b : Bytes) (k n : ℕ) → n < 2 ^ 32 → u32_at (set_u32 b k n) k ≡ n
unfolding u32_at
u32_at-set_u32 b k n h =
    let e : set_u32 b k n (4 * k) ≡ byte_of_u32 n 0 =
      rw (← add-zero (4 * k)) (set_u32_hit b k n 0 (omega arith)) in
    omega (
      arith,
      bytes_of_u32 n h,
      set_u32_hit b k n 1 (omega arith),
      set_u32_hit b k n 2 (omega arith),
      set_u32_hit b k n 3 (omega arith),
    )

pub u32_at-set_u32_ne :
    (b : Bytes) (k j n : ℕ) → (j == k) ≡ false → u32_at (set_u32 b k n) j ≡ u32_at b j
unfolding u32_at
u32_at-set_u32_ne b k j n h =
    let e : set_u32 b k n (4 * j) ≡ b (4 * j) =
      rw (← add-zero (4 * j)) (set_u32_miss b k n j 0 (omega arith) h) in
    omega (
      arith,
      set_u32_miss b k n j 1 (omega arith) h,
      set_u32_miss b k n j 2 (omega arith) h,
      set_u32_miss b k n j 3 (omega arith) h,
    )

pub u32_at-lt : (b : Bytes) (k : ℕ) → AreBytes b → u32_at b k < 2 ^ 32
unfolding u32_at
u32_at-lt b k h = omega (arith, h (4 * k), h (4 * k + 1), h (4 * k + 2), h (4 * k + 3))

pub set_u32-AreBytes : (b : Bytes) (k n : ℕ) → AreBytes b → AreBytes (set_u32 b k n)
unfolding set_u32
set_u32-AreBytes b k n h i = ground (arith, h i)

-- A number is that of its four bytes.
pub u32_word :
    (n : ℕ)
    → n < 2 ^ 32
    → n % 256 + 256 * (n / 256 % 256) + 65536 * (n / 65536 % 256) + 16777216 * (n / 16777216 % 256)
      ≡ n
u32_word n h = omega arith

-- Buffers that agree below a bound hold the same numbers below it.
pub u32_at-agree :
    (b c : Bytes) (limit k : ℕ)
    → ((i : ℕ) → i < limit → b i ≡ c i)
    → 4 * k + 4 ≤ limit
    → u32_at b k ≡ u32_at c k
unfolding u32_at
u32_at-agree b c limit k same h = omega (
  arith,
  same (4 * k) (omega arith),
  same (4 * k + 1) (omega arith),
  same (4 * k + 2) (omega arith),
  same (4 * k + 3) (omega arith),
)

-- A number whose four bytes a buffer holds.
pub u32_at_of_bytes :
    (b : Bytes) (k n : ℕ)
    → n < 2 ^ 32
    → ((r : ℕ) → r < 4 → b (4 * k + r) ≡ byte_of_u32 n r)
    → u32_at b k ≡ n
unfolding u32_at
u32_at_of_bytes b k n h at =
    let e : b (4 * k) ≡ byte_of_u32 n 0 = rw (← add-zero (4 * k)) (at 0 (omega arith)) in
    omega (arith, bytes_of_u32 n h, at 1 (omega arith), at 2 (omega arith), at 3 (omega arith))
