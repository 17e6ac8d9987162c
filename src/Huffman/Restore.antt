-- ===== src/Huffman/Restore.antt =====
-- The loop of huffman_decompress in cli/src/commands/file_compress_commands.c on a stream of codes.
use simple_file_system.Base.{
  ℕ, zero, suc, ◌+◌, ◌-◌, ◌*◌, ◌%◌, ◌<◌, ◌≤◌, ◌≡◌, refl, ap, ◌∙◌, inl, inr, Bool, true, arith,
  Bytes, store, lt_or_le,
}
use simple_file_system.Base.Bits.{bit_at}
use simple_file_system.Base.Sum.{sum_below}
use simple_file_system.Huffman.Codes.{build_decode_table}
use simple_file_system.Huffman.Coder.{put_symbol, restore_loop, decode_symbol}
use simple_file_system.Huffman.Streams.{Reader}
use simple_file_system.Huffman.Reading.{stream_bit, IsAt}
use simple_file_system.Huffman.Kraft.{IsPrefixLengths}
use simple_file_system.Huffman.Rows.{store-at, store-other}
use simple_file_system.Huffman.Canonical.{code_of}
use simple_file_system.Huffman.Decode.{decode_symbol-finds}

-- The first bit of the code of byte `i`.
abbrev pub bit_start : Bytes → Bytes → ℕ → ℕ
bit_start lengths source i = sum_below (λ j. lengths (source j)) i

pub bit_start-next :
    (lengths source : Bytes) (i : ℕ)
    → bit_start lengths source (i + 1) ≡ bit_start lengths source i + lengths (source i)
unfolding sum_below
bit_start-next lengths source i = let q : i + 1 ≡ suc i = omega arith in rw q

pub bit_start_mono :
    (lengths source : Bytes) (i k : ℕ)
    → i ≤ k
    → bit_start lengths source i ≤ bit_start lengths source k
unfolding sum_below
bit_start_mono lengths source i zero h =
    let q : i ≡ 0 = omega arith in omega (arith, ap (bit_start lengths source) q)
bit_start_mono lengths source i (suc k) h = elim (lt_or_le i (suc k)) [
  | inl less ↦ omega (arith, bit_start_mono lengths source i k (omega arith))
  | inr equal ↦ let q : i ≡ suc k = omega arith in omega (arith, ap (bit_start lengths source) q)
]

-- A stream of the codes of a text.
pub record HasCodes (lengths source buffer : Bytes) (start size n : ℕ) : Type 0 where
  pub are_bytes : (i : ℕ) → i < n → source i < 256
  pub are_coded : (i : ℕ) → i < n → 0 < lengths (source i)
  pub fits : bit_start lengths source n ≤ 8 * size
  pub bits :
      (i : ℕ)
      → i < n
      → (j : ℕ) → j < lengths (source i)
      → stream_bit buffer start (bit_start lengths source i + j)
        ≡ bit_at (code_of lengths (source i)) (lengths (source i) - 1 - j)

-- Bytes of `low` up to `high` that are those of the source, and the others.
record Restored (source before : Bytes) (low high : ℕ) (result : Bool × Bytes) : Type 0 where
  pub complete : result.0 ≡ true
  pub restored : (i : ℕ) → low ≤ i → i < high → result.1 i ≡ source i
  pub others : (i : ℕ) → i < low → result.1 i ≡ before i

module _ {lengths source buffer : Bytes} {start size n : ℕ} (prefix : IsPrefixLengths lengths)
    (codes : HasCodes lengths source buffer start size n) where
  restore_loop-Restored :
      (rounds i : ℕ) (reader : Reader) (destination : Bytes)
      → rounds + i ≡ n
      → IsAt buffer start size reader (bit_start lengths source i)
      → Restored source destination i n
          (restore_loop (build_decode_table lengths) rounds i reader destination)
  unfolding restore_loop put_symbol
  restore_loop-Restored zero i reader destination e at = record {
    complete = refl;
    restored = λ t a b. absurd (omega arith);
    others = λ t a. refl;
  }
  restore_loop-Restored (suc rounds) i reader destination e at =
      let lt : i < n = omega arith in
      let s : ℕ = source i in
      let (found, next) =
        decode_symbol-finds prefix s (codes.are_bytes i lt) (codes.are_coded i lt)
          (bit_start lengths source i)
          (omega (
            arith,
            bit_start-next lengths source i,
            bit_start_mono lengths source (i + 1) n (omega arith),
            codes.fits,
          ))
          (codes.bits i lt) reader at in
      let byte : s % 256 ≡ s = omega (arith, codes.are_bytes i lt) in
      let rest =
        restore_loop-Restored rounds (i + 1) (decode_symbol reader (build_decode_table lengths)).1
          (store destination i s) (omega arith) (rw (bit_start-next lengths source i) next) in
      rw (found, byte)
        (record {
          complete = rest.complete;
          restored = λ t a b. elim (lt_or_le i t) [
            | inl later ↦ rest.restored t (omega arith) b
            | inr first ↦
                let q : t ≡ i = omega arith in
                rw q (rest.others i (omega arith) ∙ store-at destination i s)
          ];
          others =
              λ t a. rest.others t (omega arith) ∙ store-other destination i s t (λ e. omega arith);
        })

  pub restore_loop-restores :
      (reader : Reader) (destination : Bytes)
      → IsAt buffer start size reader 0
      → ((restore_loop (build_decode_table lengths) n 0 reader destination).0 ≡ true)
        × ((i : ℕ)
            → i < n
            → (restore_loop (build_decode_table lengths) n 0 reader destination).1 i ≡ source i)
  restore_loop-restores reader destination at =
      let zero_start : bit_start lengths source 0 ≡ 0 = unfold sum_below in refl in
      let r = restore_loop-Restored n 0 reader destination (omega arith) (rw zero_start at) in
      (r.complete, λ i h. r.restored i (omega arith) h)
