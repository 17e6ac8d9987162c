-- ===== src/Checks/Coding.antt =====
-- The coder of cli/src/commands/file_compress_commands.c at a short text and at a small table of lengths.
use simple_file_system.Base.{
  ℕ, ◌^◌, ◌+◌, ◌-◌, ◌<◌, ◌≡◌, refl, true, false, Option, none, some, Bytes, zeros, ◌==◌,
  if◌then◌else◌, arith, ltb, store, passes, passes-at, ltb→lt,
}
use simple_file_system.Huffman.{
  join_leaves, leaf_loop, count_frequencies, count_loop, find_loop, find_second, join_loop,
  join_pair, lengths_below, pair_with, store_length, Nodes, zeroed_nodes, leaf,
  find_minimum_frequency, build_tree, compute_code_lengths,
}
use simple_file_system.Base.{==→eq}
use simple_file_system.Base.Bits.{bit_at}
use simple_file_system.Base.Sum.{sum_below}
use simple_file_system.Base.Counting.{count_below}
use simple_file_system.Huffman.Counts.{first_of, rank}
use simple_file_system.Huffman.Codes.{count_lengths, build_decode_table, generate_canonical_codes}
use simple_file_system.Huffman.Coder.{
  huffman_compress, huffman_decompress, source_lengths, decode_symbol,
}
use simple_file_system.Huffman.Streams.{initialize_reader}
use simple_file_system.Huffman.Reading.{stream_bit, IsAt, initialize_reader-IsAt}
use simple_file_system.Huffman.Kraft.{
  weight, kraft, IsPrefixLengths, compute_code_lengths-IsPrefixLengths,
}
use simple_file_system.Huffman.Canonical.{code_of, generate_canonical_codes-numbers}
use simple_file_system.Huffman.Decode.{decode_symbol-finds}
use simple_file_system.Huffman.Packed.{IsText}
use simple_file_system.Huffman.Restore.{bit_start}
use simple_file_system.Huffman.Roundtrip.{GivesBack, huffman_decompress-huffman_compress}
use simple_file_system.Huffman.Safety.{IsInside, huffman_decompress-IsInside}
use simple_file_system.Huffman.Tree.{
  EndsWithin, IsLeast, build_tree-EndsWithin, find_minimum_frequency-IsLeast,
}

-- The text "aba".
abbrev aba : Bytes
aba i = if i == 1 then 98 else 97

abbrev lengths_in : Option Bytes → Bytes
lengths_in none = zeros
lengths_in (some lengths) = lengths

-- The lengths of its codes.
abbrev aba_lengths : Bytes
aba_lengths = lengths_in (source_lengths true aba 3)

aba_found : source_lengths true aba 3 ≡ some aba_lengths
unfolding source_lengths build_tree join_leaves leaf_loop store compute_code_lengths
    count_frequencies count_loop find_loop find_minimum_frequency find_second join_loop join_pair
    lengths_below pair_with store_length
aba_found = refl

aba_coded : passes (λ i. ltb 0 (aba_lengths (aba i))) 3 ≡ true
unfolding source_lengths build_tree join_leaves leaf_loop store compute_code_lengths
    count_frequencies count_loop find_loop find_minimum_frequency find_second join_loop join_pair
    lengths_below pair_with store_length passes
aba_coded = refl

aba_bits : ltb (bit_start aba_lengths aba 3) 289 ≡ true
unfolding source_lengths build_tree join_leaves leaf_loop store compute_code_lengths
    count_frequencies count_loop find_loop find_minimum_frequency find_second join_loop join_pair
    lengths_below pair_with store_length sum_below
aba_bits = refl

aba-IsText : IsText aba_lengths aba 3
aba-IsText = record {
  is_short = omega arith;
  are_bytes = λ i h. ground arith;
  are_coded = λ i h.
      ltb→lt 0 (aba_lengths (aba i)) (passes-at (λ i. ltb 0 (aba_lengths (aba i))) 3 h aba_coded);
}

huffman_decompress-huffman_compress_example :
    GivesBack aba_lengths aba 3 1 zeros 10 (huffman_compress true true aba 3 zeros 300)
huffman_decompress-huffman_compress_example =
    huffman_decompress-huffman_compress aba 3 aba_lengths zeros 300 zeros 10 1 aba_found aba-IsText
      (omega arith) (let b = ltb→lt _ _ aba_bits in omega arith) (omega arith) (omega arith)

huffman_decompress-IsInside_example : IsInside zeros 5 (huffman_decompress aba 300 zeros 5)
huffman_decompress-IsInside_example = huffman_decompress-IsInside aba 300 zeros 5

compute_code_lengths_example : IsPrefixLengths (compute_code_lengths zeroed_nodes 3)
compute_code_lengths_example = compute_code_lengths-IsPrefixLengths zeroed_nodes 3

build_tree_example : EndsWithin 512 (build_tree true aba zeroed_nodes 512)
build_tree_example = build_tree-EndsWithin true aba zeroed_nodes 512 (omega arith)

-- Two leaves, the second with the lower frequency.
abbrev two_leaves : Nodes
two_leaves i = leaf (λ s. if s == 0 then 7 else 4) i

find_minimum_frequency_example :
    IsLeast two_leaves (λ i. false) 2 (find_minimum_frequency two_leaves 2 (λ i. false))
find_minimum_frequency_example = find_minimum_frequency-IsLeast two_leaves (λ i. false) 2

-- Two symbols with codes of one bit.
abbrev two_codes : Bytes
two_codes i = if i == 97 then 1 else if i == 98 then 1 else 0

two_codes-kraft : (kraft two_codes == 65536) ≡ true
unfolding kraft sum_below weight
two_codes-kraft = refl

two_codes-IsPrefixLengths : IsPrefixLengths two_codes
two_codes-IsPrefixLengths = record {
  bounded = λ s. ground arith;
  fits = let e = ==→eq _ _ two_codes-kraft in omega arith;
}

generate_canonical_codes_example :
    (generate_canonical_codes two_codes 98
      ≡ record { bits = code_of two_codes 98; length = two_codes 98 })
    × (code_of two_codes 98 < 2 ^ two_codes 98)
generate_canonical_codes_example =
    generate_canonical_codes-numbers two_codes-IsPrefixLengths 98 (omega arith) (omega arith)

first_bit_zero : stream_bit zeros 0 (0 + 0) ≡ bit_at (code_of two_codes 97) (two_codes 97 - 1 - 0)
unfolding stream_bit bit_at first_of rank count_below count_lengths store
first_bit_zero = refl

-- The code of the first of them is the bit 0.
first_bit :
    (j : ℕ)
    → j < two_codes 97
    → stream_bit zeros 0 (0 + j) ≡ bit_at (code_of two_codes 97) (two_codes 97 - 1 - j)
first_bit j h = let q : j ≡ 0 = omega arith in rw q first_bit_zero

decode_symbol_example :
    ((decode_symbol (initialize_reader zeros 0 1) (build_decode_table two_codes)).0 ≡ some 97)
    × IsAt zeros 0 1
        (decode_symbol (initialize_reader zeros 0 1) (build_decode_table two_codes)).1
        (0 + two_codes 97)
decode_symbol_example =
    decode_symbol-finds two_codes-IsPrefixLengths 97 (omega arith) (omega arith) 0 (omega arith)
      first_bit (initialize_reader zeros 0 1) (initialize_reader-IsAt zeros 0 1)
