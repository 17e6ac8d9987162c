-- ===== src/Huffman/Agreeing.antt =====
-- The codes of two tables of lengths that agree on the symbols, for the coder of
-- cli/src/commands/file_compress_commands.c: the table that huffman_compress makes and the one that
-- huffman_decompress reads back.
use simple_file_system.Base.{ℕ, zero, suc, ◌<◌, ◌≤◌, ◌≡◌, refl, sym, ap, ◌∙◌, arith, Bytes, ◌==◌}
use simple_file_system.Base.Counting.{count_below-same}
use simple_file_system.Base.Sum.{sum_below-same}
use simple_file_system.Huffman.{symbol_count}
use simple_file_system.Huffman.Codes.{length_counts}
use simple_file_system.Huffman.Kraft.{IsPrefixLengths, kraft, weight}
use simple_file_system.Huffman.Counts.{
  rank, coded, length_counts-rank, length_counts-zero, first_of,
}
use simple_file_system.Huffman.Canonical.{code_of}

module _ {lengths copied : Bytes} (same : (s : ℕ) → s < 256 → copied s ≡ lengths s) where
  rank-same : (l n : ℕ) → n ≤ 256 → rank copied l n ≡ rank lengths l n
  unfolding rank
  rank-same l n h = count_below-same _ _ n (λ j lt. ap (λ (x : ℕ). x == l) (same j (omega arith)))

  length_counts-same : (l : ℕ) → l ≤ 16 → length_counts copied l ≡ length_counts lengths l
  length_counts-same zero h = length_counts-zero copied ∙ sym (length_counts-zero lengths)
  length_counts-same (suc l) h =
      let c = coded (suc l) (omega arith) h in
      length_counts-rank copied (suc l) c
      ∙ rank-same (suc l) 256 (omega arith)
      ∙ sym (length_counts-rank lengths (suc l) c)

  first_of-same : (l : ℕ) → l ≤ 16 → first_of copied l ≡ first_of lengths l
  unfolding first_of
  first_of-same zero h = refl
  first_of-same (suc l) h = rw (first_of-same l (omega arith), length_counts-same l (omega arith))

  pub code_of-same :
      IsPrefixLengths lengths → (s : ℕ) → s < 256 → code_of copied s ≡ code_of lengths s
  code_of-same prefix s h = rw (
    same s h,
    first_of-same (lengths s) (prefix.bounded s),
    rank-same (lengths s) s (omega arith),
  )

  pub IsPrefixLengths-same :
      ((s : ℕ) → copied s ≤ 16) → IsPrefixLengths lengths → IsPrefixLengths copied
  unfolding kraft
  IsPrefixLengths-same bounded prefix = record {
    bounded = bounded;
    fits = omega (
      arith,
      prefix.fits,
      sum_below-same (λ s. weight (lengths s)) (λ s. weight (copied s)) symbol_count
          (λ j lt. ap weight (same j lt)),
    );
  }
