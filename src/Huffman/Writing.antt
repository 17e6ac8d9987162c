-- ===== src/Huffman/Writing.antt =====
-- The writer of bits of cli/src/commands/file_compress_commands.c.
use simple_file_system.Base.{
  ℕ, ◌+◌, ◌-◌, ◌*◌, ◌/◌, ◌%◌, ◌^◌, ◌<◌, ◌≡◌, refl, ◌∙◌, inl, inr, Bool, true, false, arith, store,
  leb, ◌==◌, if◌then◌else◌, Bool-cases, lt→leb, ==→eq, ==-ne, ==-refl, ne→==,
}
use native.Mathlib.Nat.{zero-div}
use simple_file_system.Base.{bit_or}
use simple_file_system.Base.Or.{bit_or-zero}
use simple_file_system.Base.Bits.{bit_at, set_bit, bit_at-set_bit, set_bit-lt}
use simple_file_system.Huffman.Streams.{Writer, write_bit, put_bit, put_byte}
use simple_file_system.Huffman.Reading.{stream_bit}

-- Bit `k` of what the writer has been given.
unfoldable pub written : Writer → ℕ → ℕ
written w k =
    if k / 8 == w.byte_position
    then bit_at w.bit_buffer (7 - k % 8)
    else stream_bit w.output_buffer w.output_start k

-- The writer has been given `n` bits.
pub record IsGiven (w : Writer) (n : ℕ) : Type 0 where
  pub position : 8 * w.byte_position + w.bits_in_buffer ≡ n
  pub few : w.bits_in_buffer < 8
  pub is_byte : w.bit_buffer < 256
  pub clear : (j : ℕ) → j < 8 - w.bits_in_buffer → bit_at w.bit_buffer j ≡ 0

-- The writer `v` is `w` after some more bits: the `n` that `w` was given are the same, and so are the
-- bytes before the stream.
pub record IsAfter (w : Writer) (n : ℕ) (v : Writer) : Type 0 where
  pub same_start : v.output_start ≡ w.output_start
  pub same_capacity : v.output_capacity ≡ w.output_capacity
  pub same_bits : (k : ℕ) → k < n → written v k ≡ written w k
  pub same_header : (i : ℕ) → i < w.output_start → v.output_buffer i ≡ w.output_buffer i

or_bit : (b k : ℕ) → b < 256 → k < 8 → bit_or b (2 ^ k) % 256 ≡ set_bit b k
unfolding set_bit
or_bit b k h hk = omega (arith, set_bit-lt b k h hk)

-- The bit buffer after a bit.
module _ (w : Writer) (n bit : ℕ) (given : IsGiven w n) (h : bit < 2) where
  put_bit-at :
      (j : ℕ)
      → j < 8
      → bit_at (put_bit w bit).bit_buffer j
        ≡ (if j == 7 - w.bits_in_buffer then bit else bit_at w.bit_buffer j)
  put_bit-at j hj = elim (Bool-cases (bit == 1)) [
    | inl one ↦
        let e : bit ≡ 1 = ==→eq _ _ one in
        let q : bit * 2 ^ (7 - w.bits_in_buffer) ≡ 2 ^ (7 - w.bits_in_buffer) =
          rw e (omega arith) in
        let small : 7 - w.bits_in_buffer < 8 = omega arith in
        rw (q, or_bit w.bit_buffer (7 - w.bits_in_buffer) given.is_byte small, e)
          (bit_at-set_bit w.bit_buffer (7 - w.bits_in_buffer) given.is_byte small j hj)
    | inr other ↦
        let e : bit ≡ 0 = ground arith in
        let q : bit * 2 ^ (7 - w.bits_in_buffer) ≡ 0 = rw e (omega arith) in
        let r : w.bit_buffer % 256 ≡ w.bit_buffer = omega (arith, given.is_byte) in
        rw (q, bit_or-zero, r, e)
          (elim (Bool-cases (j == 7 - w.bits_in_buffer)) [
            | inl here ↦
                rw here (given.clear j (let t = ==→eq _ _ here in omega (arith, given.few)))
            | inr away ↦ rw away
          ])
  ]

  put_bit-lt : (put_bit w bit).bit_buffer < 256
  put_bit-lt = omega arith

  -- The bits that the writer had been given, and the new one, before a full bit buffer goes out.
  put_bit-written : (k : ℕ) → k < n → written (put_bit w bit) k ≡ written w k
  unfolding written
  put_bit-written k lt = elim (Bool-cases (k / 8 == w.byte_position)) [
    | inl here ↦
        let t = ==→eq _ _ here in
        let ne : (7 - k % 8 == 7 - w.bits_in_buffer) ≡ false =
          ne→== _ _ (λ e. omega (arith, e, given.position, given.few)) in
        rw here (put_bit-at (7 - k % 8) (omega arith) ∙ rw ne)
    | inr away ↦ rw away
  ]

  put_bit-last : written (put_bit w bit) n ≡ bit
  unfolding written
  put_bit-last =
      let q : n / 8 ≡ w.byte_position = omega (arith, given.position, given.few) in
      let r : n % 8 ≡ w.bits_in_buffer = omega (arith, given.position, given.few) in
      rw (q, ==-refl w.byte_position, r)
        (put_bit-at (7 - w.bits_in_buffer) (omega arith) ∙ rw (==-refl (7 - w.bits_in_buffer)))

  put_bit-clear : (j : ℕ) → j < 8 - (w.bits_in_buffer + 1) → bit_at (put_bit w bit).bit_buffer j ≡ 0
  put_bit-clear j lt =
      let ne : (j == 7 - w.bits_in_buffer) ≡ false = ne→== _ _ (λ e. omega (arith, given.few)) in
      put_bit-at j (omega arith) ∙ rw ne (given.clear j (omega arith))

-- A byte that goes out holds the bits of the bit buffer.
pub put_byte-written :
    (w : Writer) (k : ℕ) → k < 8 * w.byte_position + 8 → written (put_byte w) k ≡ written w k
unfolding written stream_bit store
put_byte-written w k h =
    let away : (k / 8 == w.byte_position + 1) ≡ false = ne→== _ _ (λ e. omega arith) in
    elim (Bool-cases (k / 8 == w.byte_position)) [
      | inl here ↦
          let e = ==→eq _ _ here in rw (away, here, e, ==-refl (w.output_start + w.byte_position))
      | inr other ↦
          let ne : (w.output_start + k / 8 == w.output_start + w.byte_position) ≡ false =
            ne→== _ _ (λ e. ==-ne _ _ other (omega arith)) in
          rw (away, other, ne)
    ]

pub put_byte-header :
    (w : Writer) (i : ℕ) → i < w.output_start → (put_byte w).output_buffer i ≡ w.output_buffer i
unfolding store
put_byte-header w i h =
    let ne : (i == w.output_start + w.byte_position) ≡ false = ne→== _ _ (λ e. omega arith) in rw ne

zero_bit : (j : ℕ) → bit_at 0 j ≡ 0
unfolding bit_at
zero_bit j = omega (arith, zero-div (2 ^ j))

-- A writer that takes a bit and has room for it holds one bit more.
pub record Took (w : Writer) (n bit : ℕ) (result : Bool × Writer) : Type 0 where
  pub goes_on : result.0 ≡ true
  pub given : IsGiven result.1 (n + 1)
  pub after : IsAfter w n result.1
  pub last : written result.1 n ≡ bit

module _ (w : Writer) (n bit : ℕ) (given : IsGiven w n) (h : bit < 2) where
  Took-room : (w.bits_in_buffer + 1 == 8) ≡ false → Took w n bit (true, put_bit w bit)
  Took-room e = record {
    goes_on = refl;
    given = record {
      position = omega (arith, given.position);
      few = let ne = ==-ne _ _ e in omega (arith, given.few, ne);
      is_byte = put_bit-lt w n bit given h;
      clear = put_bit-clear w n bit given h;
    };
    after = record {
      same_start = refl;
      same_capacity = refl;
      same_bits = put_bit-written w n bit given h;
      same_header = λ i lt. refl;
    };
    last = put_bit-last w n bit given h;
  }

  Took-full : (w.bits_in_buffer + 1 == 8) ≡ true → Took w n bit (true, put_byte (put_bit w bit))
  Took-full e =
      let full : w.bits_in_buffer ≡ 7 = let t = ==→eq _ _ e in omega arith in
      record {
        goes_on = refl;
        given = record {
          position = omega (arith, given.position);
          few = omega arith;
          is_byte = omega arith;
          clear = λ j lt. zero_bit j;
        };
        after = record {
          same_start = refl;
          same_capacity = refl;
          same_bits = λ k lt.
              put_byte-written (put_bit w bit) k (omega (arith, given.position))
              ∙ put_bit-written w n bit given h k lt;
          same_header = λ i lt. put_byte-header (put_bit w bit) i lt;
        };
        last =
            put_byte-written (put_bit w bit) n (omega (arith, given.position))
            ∙ put_bit-last w n bit given h;
      }

  pub write_bit-Took : n < 8 * w.output_capacity → Took w n bit (write_bit w bit)
  unfolding write_bit
  write_bit-Took room = elim (Bool-cases (w.bits_in_buffer + 1 == 8)) [
    | inl e ↦
        let full : w.bits_in_buffer ≡ 7 = let t = ==→eq _ _ e in omega arith in
        let q : leb w.output_capacity w.byte_position ≡ false =
          lt→leb _ _ (omega (arith, given.position)) in
        rw (e, q) (Took-full e)
    | inr e ↦ rw e (Took-room e)
  ]
