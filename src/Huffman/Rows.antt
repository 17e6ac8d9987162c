-- ===== src/Huffman/Rows.antt =====
-- What the loops over the code lengths write in cli/src/commands/file_compress_commands.c.
use simple_file_system.Base.{
  ℕ, zero, suc, ◌+◌, ◌-◌, ◌*◌, ◌%◌, ◌^◌, ◌<◌, ◌≤◌, ◌≡◌, ◌≢◌, refl, ◌∙◌, inl, inr, arith, Bytes,
  store, ==-refl, ne→==, lt_or_le,
}
use simple_file_system.Huffman.Codes.{
  length_counts, next_code_loop, first_code_loop, offset_loop, copy_counts,
}
use simple_file_system.Huffman.Kraft.{IsPrefixLengths}
use simple_file_system.Huffman.Counts.{
  first_of, base_of, length_counts-le, first_of-small, base_of-le,
}

first_of-next :
    {lengths : Bytes}
    → IsPrefixLengths lengths
    → (m : ℕ) → m ≤ 16
    → (first_of lengths m + length_counts lengths m) * 2 % 2 ^ 32 ≡ first_of lengths (m + 1)
first_of-next prefix m h =
    let q : m + 1 ≡ suc m = omega arith in
    rw q (unfold first_of in omega (arith, first_of-small prefix m h))

pub base_of-next :
    (lengths : Bytes) (m : ℕ)
    → m ≤ 16
    → (base_of lengths m + length_counts lengths m) % 2 ^ 32 ≡ base_of lengths (m + 1)
base_of-next lengths m h =
    let q : m + 1 ≡ suc m = omega arith in
    rw q (
      unfold base_of in
      omega (arith, base_of-le lengths m (omega arith), length_counts-le lengths m h))

-- A loop over the lengths from `length` on leaves the rows below.
next_code_loop-below :
    (counts : Bytes) (rounds length code : ℕ) (next : Bytes) (l : ℕ)
    → l < length
    → next_code_loop counts rounds length code next l ≡ next l
unfolding next_code_loop store
next_code_loop-below counts zero length code next l h = refl
next_code_loop-below counts (suc rounds) length code next l h =
    next_code_loop-below counts rounds (length + 1) _ _ l (omega arith) ∙ ground arith

first_code_loop-below :
    (counts : Bytes) (rounds length code : ℕ) (first : Bytes) (l : ℕ)
    → l < length
    → first_code_loop counts rounds length code first l ≡ first l
unfolding first_code_loop store
first_code_loop-below counts zero length code first l h = refl
first_code_loop-below counts (suc rounds) length code first l h =
    first_code_loop-below counts rounds (length + 1) _ _ l (omega arith) ∙ ground arith

offset_loop-below :
    (counts : Bytes) (rounds length base : ℕ) (offsets : Bytes) (l : ℕ)
    → l < length
    → offset_loop counts rounds length base offsets l ≡ offsets l
unfolding offset_loop store
offset_loop-below counts zero length base offsets l h = refl
offset_loop-below counts (suc rounds) length base offsets l h =
    offset_loop-below counts rounds (length + 1) _ _ l (omega arith) ∙ ground arith

copy_counts-below :
    (counts : Bytes) (rounds length : ℕ) (copied : Bytes) (l : ℕ)
    → l < length
    → copy_counts counts rounds length copied l ≡ copied l
unfolding copy_counts store
copy_counts-below counts zero length copied l h = refl
copy_counts-below counts (suc rounds) length copied l h =
    copy_counts-below counts rounds (length + 1) _ l (omega arith) ∙ ground arith

pub store-other : (b : Bytes) (k v i : ℕ) → i ≢ k → store b k v i ≡ b i
unfolding store
store-other b k v i ne = rw (ne→== i k ne)

pub store-at : (b : Bytes) (k v : ℕ) → store b k v k ≡ v
unfolding store
store-at b k v = rw (==-refl k)

pub next_code_loop-first_of :
    {lengths : Bytes}
    → IsPrefixLengths lengths
    → (rounds m : ℕ) (next : Bytes) → m + rounds ≤ 16
    → (l : ℕ) → m < l
    → l ≤ m + rounds
    → next_code_loop (length_counts lengths) rounds (m + 1) (first_of lengths m) next l
      ≡ first_of lengths l
unfolding next_code_loop
next_code_loop-first_of prefix zero m next h l a b = absurd (omega arith)
next_code_loop-first_of {lengths} prefix (suc rounds) m next h l a b =
    let q : m + 1 - 1 ≡ m = omega arith in
    let r = first_of-next prefix m (omega arith) in
    elim (lt_or_le l (m + 1 + 1)) [
      | inl here ↦
          let e : l ≡ m + 1 = omega arith in
          rw (q, r, e)
            (next_code_loop-below (length_counts lengths) rounds (m + 1 + 1)
                (first_of lengths (m + 1)) (store next (m + 1) (first_of lengths (m + 1))) (m + 1)
                (omega arith)
              ∙ store-at next (m + 1) _)
      | inr above ↦
          rw (q, r)
            (next_code_loop-first_of prefix rounds (m + 1) _ (omega arith) l (omega arith)
              (omega arith))
    ]

pub first_code_loop-first_of :
    {lengths : Bytes}
    → IsPrefixLengths lengths
    → (rounds m : ℕ) (first : Bytes) → m + rounds ≤ 17
    → (l : ℕ) → m ≤ l
    → l < m + rounds
    → first_code_loop (length_counts lengths) rounds m (first_of lengths m) first l
      ≡ first_of lengths l
unfolding first_code_loop
first_code_loop-first_of prefix zero m first h l a b = absurd (omega arith)
first_code_loop-first_of {lengths} prefix (suc rounds) m first h l a b =
    let r = first_of-next prefix m (omega arith) in
    elim (lt_or_le l (m + 1)) [
      | inl here ↦
          let e : l ≡ m = omega arith in
          rw (r, e)
            (first_code_loop-below (length_counts lengths) rounds (m + 1) (first_of lengths (m + 1))
                (store first m (first_of lengths m)) m (omega arith)
              ∙ store-at first m _)
      | inr above ↦ rw r (
          first_code_loop-first_of prefix rounds (m + 1) _ (omega arith) l (omega arith)
            (omega arith))
    ]

pub offset_loop-base_of :
    (lengths : Bytes) (rounds m : ℕ) (offsets : Bytes)
    → m + rounds ≤ 17
    → (l : ℕ) → m ≤ l
    → l < m + rounds
    → offset_loop (length_counts lengths) rounds m (base_of lengths m) offsets l ≡ base_of lengths l
unfolding offset_loop
offset_loop-base_of lengths zero m offsets h l a b = absurd (omega arith)
offset_loop-base_of lengths (suc rounds) m offsets h l a b =
    let r = base_of-next lengths m (omega arith) in
    elim (lt_or_le l (m + 1)) [
      | inl here ↦
          let e : l ≡ m = omega arith in
          rw (r, e)
            (offset_loop-below (length_counts lengths) rounds (m + 1) (base_of lengths (m + 1))
                (store offsets m (base_of lengths m)) m (omega arith)
              ∙ store-at offsets m _)
      | inr above ↦
          rw r (
            offset_loop-base_of lengths rounds (m + 1) _ (omega arith) l (omega arith)
              (omega arith))
    ]

pub copy_counts-same :
    (counts : Bytes) (rounds m : ℕ) (copied : Bytes) (l : ℕ)
    → m ≤ l
    → l < m + rounds
    → copy_counts counts rounds m copied l ≡ counts l
unfolding copy_counts
copy_counts-same counts zero m copied l a b = absurd (omega arith)
copy_counts-same counts (suc rounds) m copied l a b = elim (lt_or_le l (m + 1)) [
  | inl here ↦
      let e : l ≡ m = omega arith in
      rw e (
        copy_counts-below counts rounds (m + 1) (store copied m (counts m)) m (omega arith)
        ∙ store-at copied m _)
  | inr above ↦ copy_counts-same counts rounds (m + 1) _ l (omega arith) (omega arith)
]
