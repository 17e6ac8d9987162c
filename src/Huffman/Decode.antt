-- ===== src/Huffman/Decode.antt =====
-- huffman_decode_symbol of cli/src/commands/file_compress_commands.c on a canonical code.
use simple_file_system.Base.{
  ℕ, zero, suc, ◌+◌, ◌-◌, ◌*◌, ◌/◌, ◌%◌, ◌^◌, ◌<◌, ◌≤◌, ◌≡◌, refl, sym, ap, ◌∙◌, inl, inr, false,
  Option, some, arith, Bytes, zeros, ltb, lt→ltb, le→ltb, lt_or_le,
}
use native.Mathlib.Omega.{pow_step}
use native.Mathlib.Nat.{div-eq_of_lt, div-le_self, div-div-eq-div-mul, pow-le-pow_right}
use simple_file_system.Base.Or.{bit_or-even}
use simple_file_system.Base.Bits.{bit_at}
use simple_file_system.Huffman.Codes.{DecodeTable, length_counts, build_decode_table}
use simple_file_system.Huffman.Coder.{
  base_loop, offset_of, append_bit, decode_loop, decode_bit, decode_symbol,
}
use simple_file_system.Huffman.Streams.{Reader, read_bit}
use simple_file_system.Huffman.Reading.{stream_bit, IsAt, read_bit-IsAt}
use simple_file_system.Huffman.Kraft.{IsPrefixLengths}
use simple_file_system.Huffman.Counts.{
  rank, first_of, base_of, base_of-le, length_counts-le, length_counts-zero,
}
use simple_file_system.Huffman.Rows.{first_code_loop-first_of}
use simple_file_system.Huffman.Canonical.{code_of, code_of-lt, rank-lt}
use simple_file_system.Huffman.Sorted.{
  place_of, code_count-counts, sorted_symbols-place, base_loop-base_of, base_one, max_length-le,
}

halved : (c e : ℕ) → c / 2 ^ suc e ≡ c / 2 ^ e / 2
halved c e =
    sym (div-div-eq-div-mul c (2 ^ e) 2 ∙ ap (λ (t : ℕ). c / t) (omega (arith, pow_step 2 e)))

halved_first : (c e : ℕ) → c / 2 ^ suc e ≡ c / 2 / 2 ^ e
halved_first c e =
    sym (div-div-eq-div-mul c 2 (2 ^ e) ∙ ap (λ (t : ℕ). c / t) (omega (arith, pow_step 2 e)))

first_of-suc :
    (lengths : Bytes) (l m : ℕ)
    → m ≡ suc l
    → first_of lengths m ≡ (first_of lengths l + length_counts lengths l) * 2
unfolding first_of
first_of-suc lengths l m e = rw e

-- A code that is longer lies above the codes of a length, once it is cut to that length.
above_shorter :
    (lengths : Bytes) (l e c : ℕ)
    → first_of lengths (e + suc l) ≤ c
    → first_of lengths l + length_counts lengths l ≤ c / 2 ^ suc e
above_shorter lengths l zero c h =
    omega (arith, halved c 0, first_of-suc lengths l (0 + suc l) (omega arith))
above_shorter lengths l (suc e) c h = omega (
  arith,
  halved_first c (suc e),
  above_shorter lengths l e (c / 2)
      (omega (arith, first_of-suc lengths (e + suc l) (suc e + suc l) (omega arith))),
)

-- One more bit of a code.
append_bit-bit_at : (c e : ℕ) → c < 65536 → append_bit (c / 2 ^ suc e) (bit_at c e) ≡ c / 2 ^ e
unfolding bit_at
append_bit-bit_at c e h =
    let q = halved c e in
    let small : c / 2 ^ suc e * 2 % 2 ^ 32 ≡ c / 2 ^ suc e * 2 =
      omega (arith, div-le_self c (2 ^ suc e)) in
    rw small (bit_or-even (c / 2 ^ suc e) (c / 2 ^ e % 2) (omega arith) ∙ omega (arith, q))

module _ {lengths : Bytes} (prefix : IsPrefixLengths lengths) (s : ℕ) (hs : s < 256)
    (coded_symbol : 0 < lengths s) where
  abbrev table : DecodeTable
  table = build_decode_table lengths

  first_one : first_of lengths 1 ≡ 0
  unfolding first_of
  first_one = omega (arith, length_counts-zero lengths)

  first_code-first_of : (l : ℕ) → 0 < l → l ≤ 16 → table.first_code l ≡ first_of lengths l
  unfolding build_decode_table
  first_code-first_of l a b =
      let z : first_of lengths 1 ≡ 0 = first_one in
      rw z at
        (first_code_loop-first_of prefix 16 1 zeros (omega arith) l (omega arith) (omega arith))

  small_code : code_of lengths s < 65536
  small_code = omega (
    arith,
    code_of-lt prefix s hs coded_symbol,
    pow-le-pow_right {n = 2} (omega arith) {i = lengths s} {j = 16} (prefix.bounded s),
  )

  offset_of-code :
      (l x : ℕ)
      → 0 < l
      → l ≤ 16
      → first_of lengths l ≤ x
      → x < 65536
      → offset_of table l x ≡ x - first_of lengths l
  offset_of-code l x a b h h' = rw (first_code-first_of l a b) (omega arith)

  -- A round at a length below that of the code goes on.
  decode_bit-shorter :
      (l e bit : ℕ) (rest : ℕ → Option ℕ × Reader) (reader : Reader)
      → 0 < l
      → e + suc l ≡ lengths s
      → bit ≡ bit_at (code_of lengths s) (suc e)
      → decode_bit table l (code_of lengths s / 2 ^ suc (suc e)) rest (some bit) reader
        ≡ rest (code_of lengths s / 2 ^ suc e)
  unfolding decode_bit
  decode_bit-shorter l e bit rest reader a q b =
      let c : ℕ = code_of lengths s in
      let big = above_shorter lengths l e c (rw q (omega arith)) in
      let short : l ≤ 16 = omega (arith, prefix.bounded s) in
      let less : ltb (c / 2 ^ suc e - first_of lengths l) (length_counts lengths l) ≡ false =
        le→ltb _ _ (omega arith) in
      rw (
        b,
        append_bit-bit_at c (suc e) small_code,
        offset_of-code l (c / 2 ^ suc e) a short (omega arith)
            (omega (arith, small_code, div-le_self c (2 ^ suc e))),
        code_count-counts lengths prefix.bounded l a short,
        less,
      )

  base_before : base_loop table (lengths s - 1) 1 0 ≡ base_of lengths (lengths s)
  base_before =
      let q : 0 + (lengths s - 1) + 1 ≡ lengths s = omega arith in
      rw (base_one lengths prefix.bounded, q) at
        (base_loop-base_of lengths prefix.bounded (lengths s - 1) 0
          (omega (arith, prefix.bounded s)))

  -- A round at the length of the code finds the symbol.
  decode_bit-symbol :
      (bit : ℕ) (rest : ℕ → Option ℕ × Reader) (reader : Reader)
      → bit ≡ bit_at (code_of lengths s) 0
      → decode_bit table (lengths s) (code_of lengths s / 2 ^ 1) rest (some bit) reader
        ≡ (some s, reader)
  unfolding decode_bit
  decode_bit-symbol bit rest reader b =
      let c : ℕ = code_of lengths s in
      let l : ℕ = lengths s in
      let short = prefix.bounded s in
      let one : append_bit (c / 2 ^ 1) (bit_at c 0) ≡ c =
        append_bit-bit_at c 0 small_code ∙ omega arith in
      let offset : offset_of table l c ≡ rank lengths l s =
        offset_of-code l c coded_symbol short (omega arith) small_code ∙ omega arith in
      let less = rank-lt lengths s hs coded_symbol short in
      let position : (base_of lengths l + rank lengths l s) % 2 ^ 32 ≡ place_of lengths s =
        omega (arith, base_of-le lengths l (omega arith), length_counts-le lengths l short, less) in
      rw (
        b,
        one,
        offset,
        code_count-counts lengths prefix.bounded l coded_symbol short,
        lt→ltb _ _ less,
        base_before,
        position,
        sorted_symbols-place lengths prefix.bounded s hs coded_symbol,
      )

  decode_loop-symbol :
      {buffer : Bytes} {start size : ℕ}
      → (p : ℕ) → p + lengths s ≤ 8 * size
      → ((j : ℕ)
          → j < lengths s
          → stream_bit buffer start (p + j) ≡ bit_at (code_of lengths s) (lengths s - 1 - j))
      → (rounds j : ℕ) (reader : Reader) → rounds + j ≡ table.max_length
      → j < lengths s
      → IsAt buffer start size reader (p + j)
      → ((decode_loop table rounds (j + 1) (code_of lengths s / 2 ^ (lengths s - j)) reader).0
          ≡ some s)
        × IsAt buffer start size
            (decode_loop table rounds (j + 1) (code_of lengths s / 2 ^ (lengths s - j)) reader).1
            (p + lengths s)
  unfolding decode_loop
  decode_loop-symbol p inside stream zero j reader e lt at =
      absurd (omega (arith, max_length-le lengths prefix.bounded s hs))
  decode_loop-symbol {buffer} {start} {size} p inside stream (suc rounds) j reader e lt at =
      let (bit, next) = read_bit-IsAt reader at (omega arith) in
      elim (lt_or_le (j + 1) (lengths s)) [
        | inl shorter ↦
            let f : ℕ = lengths s - 2 - j in
            let two_left : lengths s - j ≡ suc (suc f) = omega arith in
            let one_left : lengths s - (j + 1) ≡ suc f = omega arith in
            let place : lengths s - 1 - j ≡ suc f = omega arith in
            let further : p + (j + 1) ≡ p + j + 1 = omega arith in
            let here = rw place at (stream j lt) in
            let found =
              decode_loop-symbol p inside stream rounds (j + 1) (read_bit reader).1 (omega arith)
                shorter (rw further next) in
            rw
              (
                bit,
                two_left,
                decode_bit-shorter (j + 1) f (stream_bit buffer start (p + j))
                    (λ code. decode_loop table rounds (j + 1 + 1) code (read_bit reader).1)
                    (read_bit reader).1 (omega arith) (omega arith) here,
              )
              (rw one_left at found)
        | inr last ↦
            let one_left : lengths s - j ≡ 1 = omega arith in
            let at_length : j + 1 ≡ lengths s = omega arith in
            let place : lengths s - 1 - j ≡ 0 = omega arith in
            let ends : p + lengths s ≡ p + j + 1 = omega arith in
            let here = rw place at (stream j lt) in
            rw
              (
                bit,
                one_left,
                at_length,
                decode_bit-symbol (stream_bit buffer start (p + j))
                    (λ code. decode_loop table rounds (lengths s + 1) code (read_bit reader).1)
                    (read_bit reader).1 here,
              )
              (refl, rw ends next)
      ]

  -- Where the lengths satisfy the inequality of Kraft and the stream goes on with the code of the
  -- symbol, huffman_decode_symbol returns the symbol and leaves the reader behind the code.
  pub decode_symbol-finds :
      {buffer : Bytes} {start size : ℕ}
      → (p : ℕ) → p + lengths s ≤ 8 * size
      → ((j : ℕ)
          → j < lengths s
          → stream_bit buffer start (p + j) ≡ bit_at (code_of lengths s) (lengths s - 1 - j))
      → (reader : Reader) → IsAt buffer start size reader p
      → ((decode_symbol reader table).0 ≡ some s)
        × IsAt buffer start size (decode_symbol reader table).1 (p + lengths s)
  decode_symbol-finds p inside stream reader at =
      let q : p + 0 ≡ p = omega arith in
      let none_read : code_of lengths s / 2 ^ (lengths s - 0) ≡ 0 = div-eq_of_lt (
        let whole : lengths s - 0 ≡ lengths s = omega arith in
        rw whole (code_of-lt prefix s hs coded_symbol)) in
      rw none_read at (
        decode_loop-symbol p inside stream table.max_length 0 reader (omega arith) coded_symbol
          (rw q at))
