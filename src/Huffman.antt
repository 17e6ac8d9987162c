-- ===== src/Huffman.antt =====
-- cli/src/commands/file_compress_commands.c: the Huffman coder behind the commands `compress` and
-- `decompress`. Here are its tables and the tree; the children hold the codes, the streams of bits and
-- the two routines over them. A table of 256 numbers is a function of the symbol, `-1` is `none`, and
-- a flag tells whether a call of `calloc` returned memory.
pub mod Codes
pub mod Streams
pub mod Coder
pub mod Kraft
pub mod Counts
pub mod Rows
pub mod Canonical
pub mod Sorted
pub mod Reading
pub mod Writing
pub mod Written
pub mod Decode
pub mod Restore
pub mod Agreeing
pub mod Packed
pub mod Tree
pub mod Roundtrip
pub mod Safety
use simple_file_system.Base.{
  ℕ, zero, suc, ◌+◌, ◌-◌, ◌*◌, ◌/◌, ◌%◌, ◌^◌, ◌<◌, ◌≤◌, ◌≡◌, ◌≢◌, ◌⊎◌, refl, sym, ap, ◌∙◌, fun_ext,
  inl, inr, Bool, true, false, not, ◌&&◌, ◌||◌, Option, none, some, List, [], ◌∷◌, ◌++◌, arith,
  Bytes, zeros, copy, store, AreBytes, u32_at, set_u32, byte_of_u32, u32_word, u32_at-agree,
  u32_at_of_bytes, u32_at-set_u32, u32_at-set_u32_ne, Status, file_access, invalid_argument,
  out_of_bounds, memory_allocation, read_only, no_space, Result, ok, err, Exec, pure, fail,
  reject_if, lift_result, continue, ◌>>=◌, ◌>>◌, bind-ok, by_result, ltb, leb, ◌==◌, if◌then◌else◌,
  Bool-cases, ltb→lt, lt→ltb, le→ltb, le→leb, lt→leb, ==→eq, ==-ne, ==-refl, ne→==, lt_or_le, min,
  max,
}

-- HUFFMAN_MAGIC
abbrev pub magic : ℕ
magic = 0x31465548

-- HUFFMAN_SYMBOL_COUNT
abbrev pub symbol_count : ℕ
symbol_count = 256

-- HUFFMAN_MAX_CODE_LENGTH
abbrev pub max_code_length : ℕ
max_code_length = 16

-- HUFFMAN_HEADER_SIZE
abbrev pub header_size : ℕ
header_size = 4 + 4 + symbol_count

-- huffman_node_t
pub record Node : Type 0 where
  pub frequency : ℕ
  pub symbol : Option ℕ
  pub left_child : Option ℕ
  pub right_child : Option ℕ

abbrev pub Nodes : Type 0
Nodes = ℕ → Node

-- `calloc(max_nodes, sizeof(huffman_node_t))`
abbrev pub zeroed_nodes : Nodes
zeroed_nodes i = record {
  frequency = 0;
  symbol = some 0;
  left_child = some 0;
  right_child = some 0;
}

abbrev pub store_node : Nodes → ℕ → Node → Nodes
store_node nodes at node i = if i == at then node else nodes i

-- The loop of huffman_count_frequencies.
unfoldable pub count_loop : Bytes → (rounds byte_index : ℕ) → Bytes → Bytes
count_loop source zero byte_index table = table
count_loop source (suc rounds) byte_index table =
    count_loop source rounds (byte_index + 1)
      (store table (source byte_index) ((table (source byte_index) + 1) % 2 ^ 32))

-- huffman_count_frequencies
unfoldable pub count_frequencies : Bytes → ℕ → Bytes
count_frequencies source source_length = count_loop source source_length 0 zeros

-- The loop of huffman_find_minimum_frequency.
unfoldable pub find_loop :
    Nodes → (ℕ → Bool) → (rounds node_index minimum_frequency : ℕ) → Option ℕ → Option ℕ
find_loop nodes is_used zero node_index minimum_frequency minimum_index = minimum_index
find_loop nodes is_used (suc rounds) node_index minimum_frequency minimum_index =
    let frequency = (nodes node_index).frequency in
    let is_less =
      (not (is_used node_index) && ltb 0 frequency) && ltb frequency minimum_frequency in
    find_loop nodes is_used rounds (node_index + 1)
      (if is_less then frequency else minimum_frequency)
      (if is_less then some node_index else minimum_index)

-- huffman_find_minimum_frequency, whose first minimum is UINT32_MAX
unfoldable pub find_minimum_frequency : Nodes → ℕ → (ℕ → Bool) → Option ℕ
find_minimum_frequency nodes node_count is_used =
    find_loop nodes is_used node_count 0 (2 ^ 32 - 1) none

-- The leaf of a symbol.
abbrev pub leaf : Bytes → ℕ → Node
leaf table symbol = record {
  frequency = table symbol;
  symbol = some symbol;
  left_child = none;
  right_child = none;
}

-- The leaves that huffman_build_tree begins with, and their number.
unfoldable pub leaf_loop : Bytes → (rounds symbol : ℕ) → Nodes → ℕ → Nodes × ℕ
leaf_loop table zero symbol nodes node_count = (nodes, node_count)
leaf_loop table (suc rounds) symbol nodes node_count =
    let is_present = ltb 0 (table symbol) in
    leaf_loop table rounds (symbol + 1)
      (if is_present then store_node nodes node_count (leaf table symbol) else nodes)
      (if is_present then node_count + 1 else node_count)

abbrev pub mark : (ℕ → Bool) → ℕ → ℕ → Bool
mark is_used at i = if i == at then true else is_used i

-- A node over the two that huffman_build_tree has found.
abbrev pub joined : Nodes → ℕ → ℕ → Node
joined nodes first second = record {
  frequency = ((nodes first).frequency + (nodes second).frequency) % 2 ^ 32;
  symbol = none;
  left_child = some first;
  right_child = some second;
}

-- The pair of a node that is found and of the result of the second search.
unfoldable pub pair_with : ℕ → Option ℕ → Option (ℕ × ℕ)
pair_with first none = none
pair_with first (some second) = some (first, second)

-- The second search of a round of the loop of huffman_build_tree.
unfoldable pub find_second : Nodes → ℕ → (ℕ → Bool) → Option ℕ → Option (ℕ × ℕ)
find_second nodes node_count is_used none = none
find_second nodes node_count is_used (some first) =
    pair_with first (find_minimum_frequency nodes node_count (mark is_used first))

-- The two nodes that a round of that loop takes, if there are two.
abbrev pub find_pair : Nodes → ℕ → (ℕ → Bool) → Option (ℕ × ℕ)
find_pair nodes node_count is_used =
    find_second nodes node_count is_used (find_minimum_frequency nodes node_count is_used)

-- A round of that loop, which goes on if it has a pair and room for a node.
unfoldable pub join_pair :
    (max_node_count : ℕ)
    → Nodes
    → ℕ
    → (rest : ℕ → ℕ → Option (Nodes × ℕ)) → Option (ℕ × ℕ)
    → Option (Nodes × ℕ)
join_pair max_node_count nodes node_count rest none = some (nodes, node_count)
join_pair max_node_count nodes node_count rest (some (first, second)) =
    if leb max_node_count node_count then some (nodes, node_count) else rest first second

-- The loop of huffman_build_tree on fuel.
unfoldable pub join_loop : (fuel max_node_count : ℕ) → Nodes → ℕ → (ℕ → Bool) → Option (Nodes × ℕ)
join_loop zero max_node_count nodes node_count is_used = none
join_loop (suc fuel) max_node_count nodes node_count is_used =
    join_pair max_node_count nodes node_count
      (λ first second.
        join_loop fuel max_node_count (store_node nodes node_count (joined nodes first second))
          (node_count + 1) (mark (mark is_used first) second))
      (find_pair nodes node_count is_used)

-- Node 1 of a tree with one symbol.
abbrev pub lone_parent : Nodes → Node
lone_parent nodes = record {
  frequency = (nodes 0).frequency;
  symbol = none;
  left_child = some 0;
  right_child = none;
}

-- What huffman_build_tree does with the leaves.
unfoldable pub join_leaves : Nodes → (node_count max_node_count : ℕ) → Option (Nodes × ℕ)
join_leaves nodes node_count max_node_count =
    let rest = join_loop (max_node_count + 1) max_node_count nodes node_count (λ i. false) in
    if node_count == 0
    then some (nodes, 0)
    else if node_count == 1
    then some (store_node nodes 1 (lone_parent nodes), 2)
    else rest

-- huffman_build_tree, on the node array of the caller; `none` is a loop that has run out of fuel.
unfoldable pub build_tree : Bool → Bytes → Nodes → ℕ → Option (Nodes × ℕ)
build_tree has_marks table nodes max_node_count =
    let (leaves, node_count) = leaf_loop table symbol_count 0 nodes 0 in
    let rest = join_leaves leaves node_count max_node_count in
    if has_marks then rest else some (nodes, 0)

-- The length of a leaf's code, or what the source goes on with at another node.
unfoldable pub store_length : Option ℕ → (depth : ℕ) → Bytes → Bytes → Bytes
store_length none depth table rest = rest
store_length (some symbol) depth table rest = store table symbol (if ltb 0 depth then depth else 1)

-- huffman_compute_code_lengths_recursive; `room` is what its depth leaves below the longest code.
unfoldable pub lengths_below : Nodes → (room depth : ℕ) → Option ℕ → Bytes → Bytes
lengths_below nodes room depth none table = table
lengths_below nodes zero depth (some index) table =
    store_length (nodes index).symbol depth table table
lengths_below nodes (suc room) depth (some index) table =
    store_length (nodes index).symbol depth table (
      lengths_below nodes room (depth + 1) (nodes index).right_child
        (lengths_below nodes room (depth + 1) (nodes index).left_child table))

-- huffman_compute_code_lengths
unfoldable pub compute_code_lengths : Nodes → ℕ → Bytes
compute_code_lengths nodes node_count =
    if node_count == 0
    then zeros
    else lengths_below nodes max_code_length 0 (some (node_count - 1)) zeros
