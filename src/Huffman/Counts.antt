-- ===== src/Huffman/Counts.antt =====
-- How many symbols have a code of each length, for the coder of
-- cli/src/commands/file_compress_commands.c.
use simple_file_system.Base.{
  ℕ, zero, suc, ◌+◌, ◌-◌, ◌*◌, ◌%◌, ◌^◌, ◌<◌, ◌≤◌, ◌≡◌, refl, ap, ◌∙◌, inl, inr, true, ◌&&◌, arith,
  Bytes, zeros, store, ltb, leb, ◌==◌, if◌then◌else◌, Bool-cases, lt→ltb, le→leb, ==→eq, lt_or_le,
}
use simple_file_system.Base.Counting.{count_below, count_below-le, one_if}
use simple_file_system.Base.Sum.{sum_below, sum_below-le, sum_below-zero}
use simple_file_system.Huffman.Codes.{is_coded, count_lengths, length_counts}
use simple_file_system.Huffman.Kraft.{weight, kraft, IsPrefixLengths}
use native.Mathlib.Omega.{pow_step}
use native.Mathlib.Nat.{pow-le-pow_right, le_of_mul-le-mul_left, one-le-pow}

-- How many symbols below `n` have this length.
unfoldable pub rank : Bytes → ℕ → ℕ → ℕ
rank lengths length n = count_below (λ s. lengths s == length) n

pub rank-le : (lengths : Bytes) (length n : ℕ) → rank lengths length n ≤ n
unfolding rank
rank-le lengths length n = count_below-le _ n

pub rank-suc :
    (lengths : Bytes) (length n : ℕ)
    → rank lengths length (suc n) ≡ rank lengths length n + one_if (lengths n == length)
unfolding rank count_below
rank-suc lengths length n = refl

-- A rank grows with its bound.
pub rank_mono :
    (lengths : Bytes) (length n m : ℕ) → n ≤ m → rank lengths length n ≤ rank lengths length m
rank_mono lengths length n zero h =
    let q : n ≡ 0 = omega arith in omega (arith, ap (rank lengths length) q)
rank_mono lengths length n (suc m) h = elim (lt_or_le n (suc m)) [
  | inl less ↦ omega (arith, rank-suc lengths length m, rank_mono lengths length n m (omega arith))
  | inr equal ↦ let q : n ≡ suc m = omega arith in omega (arith, ap (rank lengths length) q)
]

pub rank_next :
    (lengths : Bytes) (length n : ℕ)
    → rank lengths length (n + 1) ≡ rank lengths length n + one_if (lengths n == length)
rank_next lengths length n = let q : n + 1 ≡ suc n = omega arith in rw q (rank-suc lengths length n)

count_step :
    (lengths counts : Bytes) (length symbol : ℕ)
    → is_coded length ≡ true
    → symbol < 256
    → counts length ≡ rank lengths length symbol
    → (if is_coded (lengths symbol)
          then store counts (lengths symbol) ((counts (lengths symbol) + 1) % 2 ^ 32)
          else counts)
        length
      ≡ rank lengths length (symbol + 1)
unfolding store
count_step lengths counts length symbol c h e = elim (Bool-cases (lengths symbol == length)) [
  | inl hit ↦
      let q : lengths symbol ≡ length = ==→eq _ _ hit in
      ground (
        arith,
        q,
        ap is_coded q,
        ap counts q,
        rank_next lengths length symbol,
        rank-le lengths length symbol,
      )
  | inr miss ↦ ground (arith, rank_next lengths length symbol)
]

count_lengths-rank :
    (lengths : Bytes) (length : ℕ)
    → is_coded length ≡ true
    → (rounds symbol : ℕ) (counts : Bytes) → rounds + symbol ≡ 256
    → counts length ≡ rank lengths length symbol
    → count_lengths lengths rounds symbol counts length ≡ rank lengths length 256
unfolding count_lengths
count_lengths-rank lengths length c zero symbol counts e h =
    let q : symbol ≡ 256 = omega arith in h ∙ ap (rank lengths length) q
count_lengths-rank lengths length c (suc rounds) symbol counts e h =
    count_lengths-rank lengths length c rounds (symbol + 1) _ (omega arith)
      (count_step lengths counts length symbol c (omega arith) h)

pub length_counts-rank :
    (lengths : Bytes) (length : ℕ)
    → is_coded length ≡ true
    → length_counts lengths length ≡ rank lengths length 256
length_counts-rank lengths length c = count_lengths-rank lengths length c 256 0 zeros refl (no_rank)
  where
    no_rank : 0 ≡ rank lengths length 0
    no_rank = unfold rank count_below in refl

count_lengths-zero :
    (lengths : Bytes) (rounds symbol : ℕ) (counts : Bytes)
    → count_lengths lengths rounds symbol counts 0 ≡ counts 0
unfolding count_lengths store
count_lengths-zero lengths zero symbol counts = refl
count_lengths-zero lengths (suc rounds) symbol counts =
    count_lengths-zero lengths rounds (symbol + 1) _ ∙ ground arith

pub length_counts-zero : (lengths : Bytes) → length_counts lengths 0 ≡ 0
length_counts-zero lengths = count_lengths-zero lengths 256 0 zeros

pub coded : (l : ℕ) → 0 < l → l ≤ 16 → is_coded l ≡ true
coded l a b = rw (lt→ltb 0 l a, le→leb l 16 b)

-- The first code of each length, and the number of symbols whose codes are shorter.
unfoldable pub first_of : Bytes → ℕ → ℕ
first_of lengths zero = 0
first_of lengths (suc l) = (first_of lengths l + length_counts lengths l) * 2

unfoldable pub base_of : Bytes → ℕ → ℕ
base_of lengths zero = 0
base_of lengths (suc l) = base_of lengths l + length_counts lengths l

pub length_counts-le : (lengths : Bytes) (l : ℕ) → l ≤ 16 → length_counts lengths l ≤ 256
length_counts-le lengths zero h = omega (arith, length_counts-zero lengths)
length_counts-le lengths (suc l) h = omega (
  arith,
  length_counts-rank lengths (suc l) (coded (suc l) (omega arith) h),
  rank-le lengths (suc l) 256,
)

pub base_of-le : (lengths : Bytes) (l : ℕ) → l ≤ 17 → base_of lengths l ≤ 256 * l
unfolding base_of
base_of-le lengths zero h = omega arith
base_of-le lengths (suc l) h =
    omega (arith, base_of-le lengths l (omega arith), length_counts-le lengths l (omega arith))

-- The weight of the lengths up to `l`.
abbrev upto : ℕ → ℕ → ℕ
upto l length = if ltb 0 length && leb length l then 2 ^ (16 - length) else 0

upto-step :
    (lengths : Bytes) (d l n : ℕ)
    → d + suc l ≡ 16
    → sum_below (λ s. upto (suc l) (lengths s)) n
      ≡ sum_below (λ s. upto l (lengths s)) n + 2 ^ d * rank lengths (suc l) n
unfolding sum_below rank count_below
upto-step lengths d l zero e = omega arith
upto-step lengths d l (suc n) e = omega (arith, upto-step lengths d l n e, one_step (lengths n))
  where
    one_step : (x : ℕ) → upto (suc l) x ≡ upto l x + 2 ^ d * one_if (x == suc l)
    one_step x = elim (Bool-cases (x == suc l)) [
      | inl hit ↦
          let q : x ≡ suc l = ==→eq _ _ hit in
          let r : 16 - suc l ≡ d = omega arith in rw (q, r) (ground arith)
      | inr miss ↦ ground arith
    ]

first_of-sum :
    (lengths : Bytes) (d l : ℕ)
    → d + l ≡ 16
    → 2 ^ d * (first_of lengths l + length_counts lengths l)
      ≡ sum_below (λ s. upto l (lengths s)) 256
unfolding first_of
first_of-sum lengths d zero e = omega (
  arith,
  ap (λ (t : ℕ). 2 ^ d * t) (length_counts-zero lengths),
  sum_below-zero (λ s. upto 0 (lengths s)) 256 (λ j. ground arith),
)
first_of-sum lengths d (suc l) e = omega (
  arith,
  ap (λ (t : ℕ). t * (first_of lengths l + length_counts lengths l)) (pow_step 2 d),
  ap (λ (t : ℕ). 2 ^ d * t)
      (length_counts-rank lengths (suc l) (coded (suc l) (omega arith) (omega arith))),
  first_of-sum lengths (suc d) l (omega arith),
  upto-step lengths d l 256 e,
)

upto-le : (l length : ℕ) → l ≤ 16 → upto l length ≤ weight length
unfolding weight
upto-le l length h = ground arith

pow_join : (d l n : ℕ) → d + l ≡ n → 2 ^ d * 2 ^ l ≡ 2 ^ n
pow_join zero l n e = let q : l ≡ n = omega arith in rw q (omega arith)
pow_join (suc d) l zero e = absurd (omega arith)
pow_join (suc d) l (suc n) e =
    omega
      (arith, pow_join d l n (omega arith), pow_step 2 n, ap (λ (t : ℕ). t * 2 ^ l) (pow_step 2 d))

-- Under the inequality of Kraft the codes of every length fit into their bits.
pub first_of-le :
    {lengths : Bytes}
    → IsPrefixLengths lengths
    → (l : ℕ) → l ≤ 16
    → first_of lengths l + length_counts lengths l ≤ 2 ^ l
unfolding kraft
first_of-le {lengths} prefix l h =
    let d : ℕ = 16 - l in
    let e : d + l ≡ 16 = omega arith in
    let split : 2 ^ d * 2 ^ l ≡ 2 ^ 16 = pow_join d l 16 e in
    le_of_mul-le-mul_left {k = 2 ^ d}
      (omega (
        arith,
        split,
        prefix.fits,
        first_of-sum lengths d l e,
        sum_below-le (λ s. upto l (lengths s)) (λ s. weight (lengths s)) 256
            (λ j. upto-le l (lengths j) h),
      ))
      (one-le-pow d 2 (omega arith))

pub first_of-small :
    {lengths : Bytes}
    → IsPrefixLengths lengths
    → (l : ℕ) → l ≤ 16
    → first_of lengths l + length_counts lengths l ≤ 65536
first_of-small prefix l h =
    omega (arith, first_of-le prefix l h, pow-le-pow_right {n = 2} (omega arith) {i = l} {j = 16} h)
