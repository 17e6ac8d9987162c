-- ===== src/Huffman/Kraft.antt =====
-- The lengths that huffman_compute_code_lengths finds in cli/src/commands/file_compress_commands.c.
use simple_file_system.Base.{
  ℕ, zero, suc, ◌+◌, ◌-◌, ◌^◌, ◌<◌, ◌≤◌, ◌≡◌, refl, inl, inr, Option, none, some, arith, Bytes,
  zeros, store, ltb, ◌==◌, if◌then◌else◌, Bool-cases, lt→ltb, le→leb,
}
use simple_file_system.Base.Sum.{sum_below, sum_below-zero, sum_below-store}
use simple_file_system.Huffman.{
  Nodes, symbol_count, max_code_length, store_length, lengths_below, compute_code_lengths,
}
use simple_file_system.Huffman.Codes.{is_coded}
use native.Mathlib.Omega.{pow_step}

-- The share of the codes of 16 bits that begin with a code of this length.
unfoldable pub weight : ℕ → ℕ
weight length = if is_coded length then 2 ^ (16 - length) else 0

unfoldable pub kraft : Bytes → ℕ
kraft lengths = sum_below (λ s. weight (lengths s)) symbol_count

-- Lengths for which there is a prefix code of at most 16 bits.
pub record IsPrefixLengths (lengths : Bytes) : Type 0 where
  pub bounded : (s : ℕ) → lengths s ≤ max_code_length
  pub fits : kraft lengths ≤ 2 ^ 16

kraft-store : (table : Bytes) (at v : ℕ) → kraft (store table at v) ≤ kraft table + weight v
unfolding kraft
kraft-store table at v = sum_below-store weight table at v symbol_count

weight-at : (room depth : ℕ) → room + depth ≡ 16 → 0 < depth → weight depth ≡ 2 ^ room
unfolding weight
weight-at room depth e h =
    let q : 16 - depth ≡ room = omega arith in
    rw (lt→ltb 0 depth h, le→leb depth 16 (omega arith), q)

-- A leaf takes no more than the whole of the tree below its place.
weight-leaf :
    (room depth : ℕ) → room + depth ≡ 16 → weight (if ltb 0 depth then depth else 1) ≤ 2 ^ room
weight-leaf room zero e = let q : room ≡ 16 = omega arith in rw q (unfold weight in omega arith)
weight-leaf room (suc depth) e =
    rw (lt→ltb 0 (suc depth) (omega arith), weight-at room (suc depth) e (omega arith))
      (omega arith)

store_length-kraft :
    (s : Option ℕ) (room depth : ℕ) (table rest : Bytes)
    → room + depth ≡ 16
    → kraft rest ≤ kraft table + 2 ^ room
    → kraft (store_length s depth table rest) ≤ kraft table + 2 ^ room
unfolding store_length
store_length-kraft none room depth table rest e h = h
store_length-kraft (some s) room depth table rest e h =
    omega (arith, kraft-store table s (if ltb 0 depth then depth else 1), weight-leaf room depth e)

lengths_below-kraft :
    (nodes : Nodes) (room depth : ℕ) (index : Option ℕ) (table : Bytes)
    → room + depth ≡ 16
    → kraft (lengths_below nodes room depth index table) ≤ kraft table + 2 ^ room
unfolding lengths_below
lengths_below-kraft nodes room depth none table e = omega arith
lengths_below-kraft nodes zero depth (some index) table e =
    store_length-kraft (nodes index).symbol 0 depth table table e (omega arith)
lengths_below-kraft nodes (suc room) depth (some index) table e =
    let left : Bytes = lengths_below nodes room (depth + 1) (nodes index).left_child table in
    store_length-kraft (nodes index).symbol (suc room) depth table
      (lengths_below nodes room (depth + 1) (nodes index).right_child left) e
      (omega (
        arith,
        pow_step 2 room,
        lengths_below-kraft nodes room (depth + 1) (nodes index).left_child table (omega arith),
        lengths_below-kraft nodes room (depth + 1) (nodes index).right_child left (omega arith),
      ))

-- No length is above 16.
abbrev IsBounded : Bytes → Type 0
IsBounded table = (s : ℕ) → table s ≤ max_code_length

store_length-IsBounded :
    (s : Option ℕ) (depth : ℕ) (table rest : Bytes)
    → depth ≤ max_code_length
    → IsBounded table
    → IsBounded rest
    → IsBounded (store_length s depth table rest)
unfolding store_length store
store_length-IsBounded none depth table rest h ht hr i = hr i
store_length-IsBounded (some s) depth table rest h ht hr i = ground (arith, ht i)

lengths_below-IsBounded :
    (nodes : Nodes) (room depth : ℕ) (index : Option ℕ) (table : Bytes)
    → room + depth ≡ 16
    → IsBounded table
    → IsBounded (lengths_below nodes room depth index table)
unfolding lengths_below
lengths_below-IsBounded nodes room depth none table e h = h
lengths_below-IsBounded nodes zero depth (some index) table e h =
    store_length-IsBounded (nodes index).symbol depth table table (omega arith) h h
lengths_below-IsBounded nodes (suc room) depth (some index) table e h =
    let left =
      lengths_below-IsBounded nodes room (depth + 1) (nodes index).left_child table (omega arith)
        h in
    store_length-IsBounded (nodes index).symbol depth table _ (omega arith) h (
      lengths_below-IsBounded nodes room (depth + 1) (nodes index).right_child _ (omega arith) left)

zeros-kraft : kraft zeros ≡ 0
unfolding kraft weight
zeros-kraft = sum_below-zero _ symbol_count (λ j. refl)

-- Whatever the array of nodes holds, the lengths that huffman_compute_code_lengths finds are at most
-- 16, and they satisfy the inequality of Kraft: the shares that the codes of these lengths take of
-- the 2 ^ 16 words of 16 bits add up to at most all of them.
pub compute_code_lengths-IsPrefixLengths :
    (nodes : Nodes) (node_count : ℕ) → IsPrefixLengths (compute_code_lengths nodes node_count)
unfolding compute_code_lengths
compute_code_lengths-IsPrefixLengths nodes node_count = elim (Bool-cases (node_count == 0)) [
  | inl empty ↦ rw empty (record { bounded = λ s. omega arith; fits = omega (arith, zeros-kraft) })
  | inr full ↦ rw full (record {
    bounded =
        lengths_below-IsBounded nodes 16 0 (some (node_count - 1)) zeros refl (λ s. omega arith);
    fits =
        omega
          (arith, zeros-kraft, lengths_below-kraft nodes 16 0 (some (node_count - 1)) zeros refl);
  })
]
