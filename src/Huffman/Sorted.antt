-- ===== src/Huffman/Sorted.antt =====
-- The decode table of huffman_build_decode_table in cli/src/commands/file_compress_commands.c.
use simple_file_system.Base.{
  ℕ, zero, suc, ◌+◌, ◌%◌, ◌^◌, ◌<◌, ◌≤◌, ◌≡◌, ◌≢◌, refl, ap, ◌∙◌, inl, inr, ◌&&◌, arith, Bytes,
  zeros, store, ltb, ◌==◌, if◌then◌else◌, Bool-cases, ==→eq, ==-refl, lt_or_le,
}
use simple_file_system.Huffman.{max_code_length}
use simple_file_system.Huffman.Codes.{
  is_coded, length_counts, offset_loop, sort_loop, longest, build_decode_table,
}
use simple_file_system.Huffman.Coder.{base_loop}
use simple_file_system.Huffman.Counts.{
  rank, rank_mono, rank-le, rank_next, coded, base_of, base_of-le, length_counts-zero,
}
use simple_file_system.Huffman.Rows.{
  base_of-next, store-at, store-other, offset_loop-base_of, copy_counts-same,
}
use simple_file_system.Huffman.Canonical.{rank-lt}
use simple_file_system.Base.Counting.{one_if, count_below}

-- The place of a symbol in the order by length and then by number.
abbrev pub place_of : Bytes → ℕ → ℕ
place_of lengths s = base_of lengths (lengths s) + rank lengths (lengths s) s

module _ (lengths : Bytes) (bounded : (s : ℕ) → lengths s ≤ max_code_length) where
  base_of_mono : (l m : ℕ) → l < m → base_of lengths l + length_counts lengths l ≤ base_of lengths m
  unfolding base_of
  base_of_mono l zero h = absurd (omega arith)
  base_of_mono l (suc m) h = elim (lt_or_le l m) [
    | inl less ↦ omega (arith, base_of_mono l m less)
    | inr equal ↦ let q : l ≡ m = omega arith in rw q (omega arith)
  ]

  -- Different symbols have different places.
  place_of-lt :
      (s t : ℕ)
      → s < 256
      → 0 < lengths s
      → lengths s < lengths t
      → place_of lengths s < place_of lengths t
  place_of-lt s t h a l =
      omega (arith, rank-lt lengths s h a (bounded s), base_of_mono (lengths s) (lengths t) l)

  place_of-ne :
      (s t : ℕ)
      → s < t
      → t < 256
      → 0 < lengths s
      → 0 < lengths t
      → place_of lengths s ≢ place_of lengths t
  place_of-ne s t lt h a b = elim (lt_or_le (lengths s) (lengths t)) [
    | inl less ↦ λ e. omega (arith, e, place_of-lt s t (omega arith) a less)
    | inr ge ↦ elim (lt_or_le (lengths t) (lengths s)) [
      | inl more ↦ λ e. omega (arith, e, place_of-lt t s h b more)
      | inr le ↦
          let q : lengths s ≡ lengths t = omega arith in
          λ e. omega (
            arith,
            e,
            ap (base_of lengths) q,
            ap (λ l. rank lengths l s) q,
            rank_next lengths (lengths t) s,
            ap (λ l. one_if (lengths s == l)) q,
            ap one_if (==-refl (lengths s)),
            rank_mono lengths (lengths t) (s + 1) t (omega arith),
          )
    ]
  ]

  -- What `symbol_offset` holds once the symbols below `symbol` have their places.
  abbrev IsOffsets : Bytes → ℕ → Type 0
  IsOffsets offsets symbol =
      (l : ℕ) → 0 < l → l ≤ 16 → offsets l ≡ base_of lengths l + rank lengths l symbol

  abbrev HasPlaces : Bytes → ℕ → Type 0
  HasPlaces sorted symbol = (s : ℕ) → s < symbol → 0 < lengths s → sorted (place_of lengths s) ≡ s

  offset_step :
      (symbol : ℕ) (offsets : Bytes)
      → symbol < 256
      → IsOffsets offsets symbol
      → IsOffsets
          (if is_coded (lengths symbol)
            then store offsets (lengths symbol) ((offsets (lengths symbol) + 1) % 2 ^ 32)
            else offsets)
          (symbol + 1)
  unfolding store
  offset_step symbol offsets h n l a b = elim (Bool-cases (lengths symbol == l)) [
    | inl hit ↦
        let q : lengths symbol ≡ l = ==→eq _ _ hit in
        ground (
          arith,
          q,
          ap offsets q,
          n l a b,
          rank_next lengths l symbol,
          base_of-le lengths l (omega arith),
          rank-le lengths l symbol,
          ap one_if hit,
        )
    | inr miss ↦ ground (arith, n l a b, rank_next lengths l symbol, ap one_if miss)
  ]

  place_step :
      (symbol : ℕ) (offsets sorted : Bytes)
      → symbol < 256
      → IsOffsets offsets symbol
      → HasPlaces sorted symbol
      → HasPlaces
          (if is_coded (lengths symbol)
            then store sorted (offsets (lengths symbol)) (symbol % 256)
            else sorted)
          (symbol + 1)
  place_step symbol offsets sorted h n p s lt a = elim (lt_or_le s symbol) [
    | inl less ↦ elim (Bool-cases (is_coded (lengths symbol))) [
      | inl c ↦
          let pos : 0 < lengths symbol = ground arith in
          rw (c, n (lengths symbol) pos (bounded symbol))
            (store-other sorted (place_of lengths symbol) (symbol % 256) (place_of lengths s)
                (place_of-ne s symbol less h a pos)
              ∙ p s less a)
      | inr c ↦ rw c (p s less a)
    ]
    | inr here ↦
        let q : s ≡ symbol = omega arith in
        let pos : 0 < lengths symbol = rw q at a in
        rw (q, coded (lengths symbol) pos (bounded symbol), n (lengths symbol) pos (bounded symbol))
          (store-at sorted (place_of lengths symbol) (symbol % 256) ∙ omega arith)
  ]

  sort_loop-HasPlaces :
      (rounds symbol : ℕ) (offsets sorted : Bytes)
      → rounds + symbol ≡ 256
      → IsOffsets offsets symbol
      → HasPlaces sorted symbol
      → HasPlaces (sort_loop lengths rounds symbol offsets sorted) 256
  unfolding sort_loop
  sort_loop-HasPlaces zero symbol offsets sorted e n p s lt a = p s (omega arith) a
  sort_loop-HasPlaces (suc rounds) symbol offsets sorted e n p s lt a =
      sort_loop-HasPlaces rounds (symbol + 1) _ _ (omega arith)
        (offset_step symbol offsets (omega arith) n)
        (place_step symbol offsets sorted (omega arith) n p) s lt a

  longest_step :
      (symbol m : ℕ)
      → m ≤ 16
      → (m ≤ (if is_coded (lengths symbol) && ltb m (lengths symbol) then lengths symbol else m))
        × ((if is_coded (lengths symbol) && ltb m (lengths symbol) then lengths symbol else m) ≤ 16)
        × (lengths symbol
            ≤ (if is_coded (lengths symbol) && ltb m (lengths symbol) then lengths symbol else m))
  longest_step symbol m h = (
    ground (arith, bounded symbol),
    ground (arith, bounded symbol),
    ground (arith, bounded symbol),
  )

  -- The longest length is at least that of each symbol, and at most 16.
  longest-le :
      (rounds symbol m : ℕ)
      → rounds + symbol ≡ 256
      → m ≤ 16
      → (m ≤ longest lengths rounds symbol m)
        × (longest lengths rounds symbol m ≤ 16)
        × ((s : ℕ) → symbol ≤ s → s < 256 → lengths s ≤ longest lengths rounds symbol m)
  unfolding longest
  longest-le zero symbol m e h = (omega arith, h, λ s a b. absurd (omega arith))
  longest-le (suc rounds) symbol m e h =
      let (x, y, z) = longest_step symbol m h in
      let (u, v, w) = longest-le rounds (symbol + 1) _ (omega arith) y in
      (
        omega arith,
        v,
        λ s a b. elim (lt_or_le symbol s) [
          | inl above ↦ w s (omega arith) b
          | inr here ↦ let q : symbol ≡ s = omega arith in omega (arith, ap lengths q)
        ],
      )

  pub base_one : base_of lengths 1 ≡ 0
  unfolding base_of
  base_one = omega (arith, length_counts-zero lengths)

  -- The rows of the decode table, for lengths that satisfy the inequality of Kraft.
  pub code_count-counts :
      (l : ℕ) → 0 < l → l ≤ 16 → (build_decode_table lengths).code_count l ≡ length_counts lengths l
  unfolding build_decode_table
  code_count-counts l a b =
      copy_counts-same (length_counts lengths) 16 1 zeros l (omega arith) (omega arith)

  pub sorted_symbols-place :
      (s : ℕ)
      → s < 256
      → 0 < lengths s
      → (build_decode_table lengths).sorted_symbols (place_of lengths s) ≡ s
  unfolding build_decode_table
  sorted_symbols-place s h a =
      sort_loop-HasPlaces 256 0 _ zeros refl start (λ t lt. absurd (omega arith)) s h a
    where
      no_rank : (l : ℕ) → rank lengths l 0 ≡ 0
      no_rank l = unfold rank count_below in refl

      start : IsOffsets (offset_loop (length_counts lengths) max_code_length 1 0 zeros) 0
      start l a b = omega (
        arith,
        no_rank l,
        rw base_one at
            (offset_loop-base_of lengths 16 1 zeros (omega arith) l (omega arith) (omega arith)),
      )

  pub base_loop-base_of :
      (rounds m : ℕ)
      → m + rounds ≤ 16
      → base_loop (build_decode_table lengths) rounds (m + 1) (base_of lengths (m + 1))
        ≡ base_of lengths (m + rounds + 1)
  unfolding base_loop
  base_loop-base_of zero m h = ap (base_of lengths) (omega arith)
  base_loop-base_of (suc rounds) m h =
      let q : m + suc rounds + 1 ≡ m + 1 + rounds + 1 = omega arith in
      rw
        (
          q,
          code_count-counts (m + 1) (omega arith) (omega arith),
          base_of-next lengths (m + 1) (omega arith),
        )
        (base_loop-base_of rounds (m + 1) (omega arith))

  -- The decode table reads as far as the longest code.
  pub max_length-le :
      (s : ℕ)
      → s < 256
      → (lengths s ≤ (build_decode_table lengths).max_length)
        × ((build_decode_table lengths).max_length ≤ 16)
  unfolding build_decode_table
  max_length-le s h =
      let (a, b, c) = longest-le 256 0 0 refl (omega arith) in (c s (omega arith) h, b)
