-- ===== src/Huffman/Canonical.antt =====
-- The codes of huffman_generate_canonical_codes in cli/src/commands/file_compress_commands.c.
use simple_file_system.Base.{
  ℕ, zero, suc, ◌+◌, ◌%◌, ◌^◌, ◌<◌, ◌≤◌, ◌≡◌, refl, ap, ◌∙◌, inl, inr, false, arith, Bytes, zeros,
  store, ltb, ◌==◌, if◌then◌else◌, Bool-cases, lt→ltb, ==→eq, ==-refl, ne→==, lt_or_le,
}
use simple_file_system.Huffman.{max_code_length}
use simple_file_system.Huffman.Codes.{
  Code, length_counts, next_code_loop, assign_loop, generate_canonical_codes,
}
use simple_file_system.Huffman.Kraft.{IsPrefixLengths}
use simple_file_system.Huffman.Counts.{
  rank, rank_mono, rank_next, coded, length_counts-rank, first_of, first_of-le, first_of-small,
}
use simple_file_system.Huffman.Rows.{next_code_loop-first_of}
use simple_file_system.Base.Counting.{one_if, count_below}

-- The number of the code of a symbol.
abbrev pub code_of : Bytes → ℕ → ℕ
code_of lengths s = first_of lengths (lengths s) + rank lengths (lengths s) s

-- The rank of a symbol is below the number of symbols with codes of its length.
pub rank-lt :
    (lengths : Bytes) (s : ℕ)
    → s < 256
    → 0 < lengths s
    → lengths s ≤ 16
    → rank lengths (lengths s) s < length_counts lengths (lengths s)
rank-lt lengths s h a b = omega (
  arith,
  length_counts-rank lengths (lengths s) (coded (lengths s) a b),
  rank_mono lengths (lengths s) (s + 1) 256 (omega arith),
  rank_next lengths (lengths s) s,
  ap one_if (==-refl (lengths s)),
)

pub code_of-lt :
    {lengths : Bytes}
    → IsPrefixLengths lengths
    → (s : ℕ) → s < 256
    → 0 < lengths s
    → code_of lengths s < 2 ^ lengths s
code_of-lt {lengths} prefix s h a = omega (
  arith,
  rank-lt lengths s h a (prefix.bounded s),
  first_of-le prefix (lengths s) (prefix.bounded s),
)

module _ {lengths : Bytes} (prefix : IsPrefixLengths lengths) where
  -- What `next_code` holds once the symbols below `symbol` have their codes.
  abbrev IsNext : Bytes → ℕ → Type 0
  IsNext next symbol =
      (l : ℕ) → 0 < l → l ≤ 16 → next l ≡ first_of lengths l + rank lengths l symbol

  assign_step :
      (symbol : ℕ) (next : Bytes)
      → symbol < 256
      → IsNext next symbol
      → IsNext
          (if ltb 0 (lengths symbol)
            then store next (lengths symbol) ((next (lengths symbol) + 1) % 2 ^ 32)
            else next)
          (symbol + 1)
  unfolding store
  assign_step symbol next h n l a b = elim (Bool-cases (lengths symbol == l)) [
    | inl hit ↦
        let q : lengths symbol ≡ l = ==→eq _ _ hit in
        ground (
          arith,
          q,
          ap next q,
          n l a b,
          rank_next lengths l symbol,
          first_of-small prefix l b,
          length_counts-rank lengths l (coded l a b),
          rank_mono lengths l (symbol + 1) 256 (omega arith),
          ap one_if hit,
        )
    | inr miss ↦ ground (arith, n l a b, rank_next lengths l symbol, ap one_if miss)
  ]

  assign_loop-below :
      (rounds symbol : ℕ) (next : Bytes) (codes : ℕ → Code) (s : ℕ)
      → s < symbol
      → assign_loop lengths rounds symbol next codes s ≡ codes s
  unfolding assign_loop
  assign_loop-below zero symbol next codes s h = refl
  assign_loop-below (suc rounds) symbol next codes s h =
      let q : (s == symbol) ≡ false = ne→== _ _ (λ e. omega arith) in
      assign_loop-below rounds (symbol + 1) _ _ s (omega arith) ∙ rw q

  assign_loop-code :
      (rounds symbol : ℕ) (next : Bytes) (codes : ℕ → Code)
      → rounds + symbol ≡ 256
      → IsNext next symbol
      → (s : ℕ) → symbol ≤ s
      → s < 256
      → 0 < lengths s
      → assign_loop lengths rounds symbol next codes s
        ≡ record { bits = code_of lengths s; length = lengths s }
  unfolding assign_loop
  assign_loop-code zero symbol next codes e n s a b c = absurd (omega arith)
  assign_loop-code (suc rounds) symbol next codes e n s a b c = elim (lt_or_le symbol s) [
    | inl above ↦
        assign_loop-code rounds (symbol + 1) _ _ (omega arith)
          (assign_step symbol next (omega arith) n) s (omega arith) b c
    | inr here ↦
        let q : symbol ≡ s = omega arith in
        rw q (
          assign_loop-below rounds (s + 1) _ _ s (omega arith)
          ∙ rw (==-refl s, lt→ltb 0 (lengths s) c, rw q at n (lengths s) c (prefix.bounded s)))
  ]

  -- Where the lengths satisfy the inequality of Kraft, each symbol below 256 with a length above 0
  -- gets that length and the first code of the length plus the number of symbols below it with codes
  -- of the same length, and this number fits into the bits.
  pub generate_canonical_codes-numbers :
      (s : ℕ)
      → s < 256
      → 0 < lengths s
      → (generate_canonical_codes lengths s
          ≡ record { bits = code_of lengths s; length = lengths s })
        × (code_of lengths s < 2 ^ lengths s)
  unfolding generate_canonical_codes
  generate_canonical_codes-numbers s h a =
      (assign_loop-code 256 0 _ _ refl start s (omega arith) h a, code_of-lt prefix s h a)
    where
      no_rank : (l : ℕ) → rank lengths l 0 ≡ 0
      no_rank l = unfold rank count_below in refl

      zero_first : first_of lengths 0 ≡ 0
      zero_first = unfold first_of in refl

      start : IsNext (next_code_loop (length_counts lengths) max_code_length 1 0 zeros) 0
      start l a b = omega (
        arith,
        no_rank l,
        rw zero_first at (next_code_loop-first_of prefix 16 0 zeros (omega arith) l a b),
      )
