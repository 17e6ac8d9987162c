-- ===== src/Huffman/Safety.antt =====
-- huffman_decompress of cli/src/commands/file_compress_commands.c on any bytes, damaged ones too.
use simple_file_system.Base.{
  inl, inr, ◌==◌, Bool-cases, ltb, ℕ, zero, suc, ◌+◌, ◌-◌, ◌%◌, ◌<◌, ◌≤◌, ◌≡◌, refl, ◌∙◌, Bool,
  Option, none, some, arith, Bytes, zeros, copy, store, AreBytes, u32_at,
}
use simple_file_system.Huffman.{magic, header_size, symbol_count}
use simple_file_system.Huffman.Codes.{DecodeTable, build_decode_table}
use simple_file_system.Huffman.Coder.{put_symbol, restore_loop, decode_symbol, huffman_decompress}
use simple_file_system.Huffman.Streams.{Reader, initialize_reader}
use simple_file_system.Huffman.Rows.{store-other}

-- What a buffer is after some of its bytes below `high` have been stored.
pub record StaysBelow (before : Bytes) (high : ℕ) (after : Bytes) : Type 0 where
  pub others : (i : ℕ) → high ≤ i → after i ≡ before i
  pub bytes : AreBytes before → AreBytes after

store-AreBytes : (b : Bytes) (k v : ℕ) → v < 256 → AreBytes b → AreBytes (store b k v)
unfolding store
store-AreBytes b k v h bytes i = ground (arith, bytes i)

put_symbol-StaysBelow :
    (destination : Bytes) (k high : ℕ) (rest : Bytes → Bool × Bytes) (symbol : Option ℕ)
    → k < high
    → ((d : Bytes) → StaysBelow d high (rest d).1)
    → StaysBelow destination high (put_symbol destination k rest symbol).1
unfolding put_symbol
put_symbol-StaysBelow destination k high rest none h go = record {
  others = λ i le. refl;
  bytes = λ b. b;
}
put_symbol-StaysBelow destination k high rest (some symbol) h go =
    let later = go (store destination k (symbol % 256)) in
    record {
      others =
          λ i le. later.others i le ∙ store-other destination k (symbol % 256) i (λ e. omega arith);
      bytes = λ b. later.bytes (store-AreBytes destination k (symbol % 256) (omega arith) b);
    }

restore_loop-StaysBelow :
    (table : DecodeTable) (rounds k high : ℕ) (reader : Reader) (destination : Bytes)
    → k + rounds ≤ high
    → StaysBelow destination high (restore_loop table rounds k reader destination).1
unfolding restore_loop
restore_loop-StaysBelow table zero k high reader destination h = record {
  others = λ i le. refl;
  bytes = λ b. b;
}
restore_loop-StaysBelow table (suc rounds) k high reader destination h =
    put_symbol-StaysBelow destination k high _ (decode_symbol reader table).0 (omega arith) (λ d.
      restore_loop-StaysBelow table rounds (k + 1) high (decode_symbol reader table).1 d
        (omega arith))

-- The size is within the capacity, and the bytes from there on are as they were.
pub record IsInside (destination : Bytes) (capacity : ℕ) (result : ℕ × Bytes) : Type 0 where
  pub size : result.0 ≤ capacity
  pub stays : StaysBelow destination capacity result.1

refused : (destination : Bytes) (capacity : ℕ) → IsInside destination capacity (0, destination)
refused destination capacity = record {
  size = omega arith;
  stays = record { others = λ i le. refl; bytes = λ b. b };
}

-- Whatever the source holds, huffman_decompress returns a size within the capacity of the destination
-- and leaves what lies behind the capacity; a buffer of bytes stays one.
pub huffman_decompress-IsInside :
    (source : Bytes) (source_length : ℕ) (destination : Bytes) (capacity : ℕ)
    → IsInside destination capacity (huffman_decompress source source_length destination capacity)
unfolding huffman_decompress
huffman_decompress-IsInside source source_length destination capacity =
    let table : DecodeTable = build_decode_table (copy zeros 0 source 8 symbol_count) in
    let reader : Reader = initialize_reader source header_size (source_length - header_size) in
    let refuse = refused destination capacity in
    elim (Bool-cases (ltb source_length header_size)) [
      | inl short ↦ rw short refuse
      | inr a ↦ elim (Bool-cases (u32_at source 0 == magic)) [
        | inr other ↦ rw (a, other) refuse
        | inl b ↦ elim (Bool-cases (ltb capacity (u32_at source 1))) [
          | inl large ↦ rw (a, b, large) refuse
          | inr c ↦
              let within : u32_at source 1 ≤ capacity = ground arith in
              let stays =
                restore_loop-StaysBelow table (u32_at source 1) 0 capacity reader destination
                  (omega arith) in
              elim (Bool-cases (u32_at source 1 == 0)) [
                | inl empty ↦ rw (a, b, c, empty) refuse
                | inr d ↦ elim (Bool-cases (table.max_length == 0)) [
                  | inl uncoded ↦ rw (a, b, c, d, uncoded) refuse
                  | inr e ↦
                      elim (Bool-cases
                        (restore_loop table (u32_at source 1) 0 reader destination).0) [
                          | inl f ↦ rw (a, b, c, d, e, f) (record { size = within; stays = stays })
                          | inr f ↦
                              rw (a, b, c, d, e, f) (record { size = omega arith; stays = stays })
                        ]
                ]
              ]
        ]
      ]
    ]
