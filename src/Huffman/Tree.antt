-- ===== src/Huffman/Tree.antt =====
-- huffman_build_tree of cli/src/commands/file_compress_commands.c: its loop ends, and the search in it
-- finds a least node.
use simple_file_system.Base.{
  ℕ, zero, suc, ◌+◌, ◌-◌, ◌^◌, ◌<◌, ◌≤◌, ◌≡◌, refl, inl, inr, Bool, true, false, not, ◌&&◌, Option,
  none, some, arith, Bytes, ltb, ◌==◌, Bool-cases, le→leb, lt→leb, lt_or_le, max,
}
use simple_file_system.Huffman.{
  Nodes, symbol_count, leaf, leaf_loop, find_loop, find_minimum_frequency, store_node, joined, mark,
  find_pair, join_pair, join_loop, join_leaves, build_tree,
}

-- The loop ended, with no more nodes than there is room for.
abbrev pub EndsWithin : ℕ → Option (Nodes × ℕ) → Type 0
EndsWithin max none = ⊥
EndsWithin max (some (nodes, node_count)) = node_count ≤ max

join_pair-EndsWithin :
    (max : ℕ) (nodes : Nodes) (count : ℕ) (rest : ℕ → ℕ → Option (Nodes × ℕ))
    (pair : Option (ℕ × ℕ))
    → count ≤ max
    → ((first second : ℕ) → count < max → EndsWithin max (rest first second))
    → EndsWithin max (join_pair max nodes count rest pair)
unfolding join_pair
join_pair-EndsWithin max nodes count rest none h next = h
join_pair-EndsWithin max nodes count rest (some (first, second)) h next =
    elim (lt_or_le count max) [
      | inl lt ↦ rw (lt→leb max count lt) (next first second lt)
      | inr ge ↦ rw (le→leb max count ge) h
    ]

join_loop-EndsWithin :
    (fuel max : ℕ) (nodes : Nodes) (count : ℕ) (is_used : ℕ → Bool)
    → count ≤ max
    → max < fuel + count
    → EndsWithin max (join_loop fuel max nodes count is_used)
unfolding join_loop
join_loop-EndsWithin zero max nodes count is_used h enough = absurd (omega arith)
join_loop-EndsWithin (suc fuel) max nodes count is_used h enough =
    join_pair-EndsWithin max nodes count _ (find_pair nodes count is_used) h (λ first second lt.
      join_loop-EndsWithin fuel max (store_node nodes count (joined nodes first second)) (count + 1)
        (mark (mark is_used first) second) (omega arith) (omega arith))

leaf_loop-le :
    (table : Bytes) (rounds symbol : ℕ) (nodes : Nodes) (count : ℕ)
    → (leaf_loop table rounds symbol nodes count).1 ≤ rounds + count
unfolding leaf_loop
leaf_loop-le table zero symbol nodes count = omega arith
leaf_loop-le table (suc rounds) symbol nodes count = elim (Bool-cases (ltb 0 (table symbol))) [
  | inl present ↦
      rw (leaf_loop, present)
        (omega (
          arith,
          leaf_loop-le table rounds (symbol + 1) (store_node nodes count (leaf table symbol))
              (count + 1),
        ))
  | inr missing ↦
      rw (leaf_loop, missing) (omega (arith, leaf_loop-le table rounds (symbol + 1) nodes count))
]

join_leaves-EndsWithin :
    (nodes : Nodes) (count max : ℕ)
    → 2 ≤ max
    → count ≤ max
    → EndsWithin max (join_leaves nodes count max)
unfolding join_leaves
join_leaves-EndsWithin nodes count max two h = elim (Bool-cases (count == 0)) [
  | inl none_there ↦ rw none_there (omega arith)
  | inr more ↦ elim (Bool-cases (count == 1)) [
    | inl one ↦ rw (more, one) two
    | inr many ↦
        rw (more, many)
          (join_loop-EndsWithin (max + 1) max nodes count (λ i. false) h (omega arith))
  ]
]

-- With room for at least 256 nodes, the loop of huffman_build_tree ends on every table of
-- frequencies, and leaves no more nodes than the array has room for.
pub build_tree-EndsWithin :
    (has_marks : Bool) (table : Bytes) (nodes : Nodes) (max : ℕ)
    → symbol_count ≤ max
    → EndsWithin max (build_tree has_marks table nodes max)
unfolding build_tree
build_tree-EndsWithin false table nodes max h = omega arith
build_tree-EndsWithin true table nodes max h =
    join_leaves-EndsWithin _ _ max (omega arith)
      (omega (arith, leaf_loop-le table symbol_count 0 nodes 0))

-- A node that the search may take.
abbrev pub IsOpen : Nodes → (ℕ → Bool) → ℕ → Type 0
IsOpen nodes is_used i = (is_used i ≡ false) × (0 < (nodes i).frequency)

-- The first of the least open nodes below `n`, or none if there is no open node below `UINT32_MAX`.
abbrev pub IsLeast : Nodes → (ℕ → Bool) → ℕ → Option ℕ → Type 0
IsLeast nodes is_used n none =
    (j : ℕ) → j < n → IsOpen nodes is_used j → 2 ^ 32 - 1 ≤ (nodes j).frequency
IsLeast nodes is_used n (some i) =
    (i < n)
    × IsOpen nodes is_used i
    × ((j : ℕ) → j < n → IsOpen nodes is_used j → (nodes i).frequency ≤ (nodes j).frequency)
    × ((j : ℕ) → j < i → IsOpen nodes is_used j → (nodes i).frequency < (nodes j).frequency)

-- The frequency and the node that the search has kept of the nodes below `n`.
abbrev AreAbove : Nodes → (ℕ → Bool) → ℕ → ℕ → Type 0
AreAbove nodes is_used n minimum =
    (j : ℕ) → j < n → IsOpen nodes is_used j → minimum ≤ (nodes j).frequency

abbrev IsKept : Nodes → (ℕ → Bool) → ℕ → ℕ → Option ℕ → Type 0
IsKept nodes is_used n minimum none = minimum ≡ 2 ^ 32 - 1
IsKept nodes is_used n minimum (some i) =
    (i < n)
    × IsOpen nodes is_used i
    × (minimum ≡ (nodes i).frequency)
    × ((j : ℕ) → j < i → IsOpen nodes is_used j → minimum < (nodes j).frequency)

module _ (nodes : Nodes) (is_used : ℕ → Bool) where
  -- Whether the node takes the place of the least one so far.
  abbrev is_less : ℕ → ℕ → Bool
  is_less n minimum =
      (not (is_used n) && ltb 0 (nodes n).frequency) && ltb (nodes n).frequency minimum

  above_next :
      (n minimum m : ℕ)
      → AreAbove nodes is_used n minimum
      → m ≤ minimum
      → (IsOpen nodes is_used n → m ≤ (nodes n).frequency)
      → AreAbove nodes is_used (n + 1) m
  above_next n minimum m above h here j lt open_node = elim (lt_or_le j n) [
    | inl before ↦ omega (arith, above j before open_node)
    | inr last ↦ let q : j ≡ n = omega arith in rw q (here (rw q at open_node))
  ]

  IsKept-next :
      (n minimum : ℕ) (index : Option ℕ)
      → IsKept nodes is_used n minimum index
      → IsKept nodes is_used (n + 1) minimum index
  IsKept-next n minimum none kept = kept
  IsKept-next n minimum (some i) (inside, is_open, same, first) =
      (omega arith, is_open, same, first)

  not_less-le :
      (n minimum : ℕ)
      → is_less n minimum ≡ false
      → IsOpen nodes is_used n
      → minimum ≤ (nodes n).frequency
  not_less-le n minimum e (unused, positive) = ground arith

  find_loop-kept :
      (rounds n minimum : ℕ) (index : Option ℕ)
      → AreAbove nodes is_used n minimum
      → IsKept nodes is_used n minimum index
      → IsLeast nodes is_used (n + rounds) (find_loop nodes is_used rounds n minimum index)
  unfolding find_loop
  find_loop-kept zero n minimum none above kept =
      let q : n + 0 ≡ n = omega arith in rw q (λ j lt o. omega (arith, above j lt o))
  find_loop-kept zero n minimum (some i) above (inside, is_open, same, first) =
      let q : n + 0 ≡ n = omega arith in
      rw q (
        inside,
        is_open,
        λ j lt o. omega (arith, above j lt o),
        λ j lt o. omega (arith, first j lt o),
      )
  find_loop-kept (suc rounds) n minimum index above kept =
      let q : n + suc rounds ≡ n + 1 + rounds = omega arith in
      elim (Bool-cases (is_less n minimum)) [
        | inl less ↦
            let smaller : (nodes n).frequency < minimum = ground arith in
            let unused : is_used n ≡ false = ground arith in
            let positive : 0 < (nodes n).frequency = ground arith in
            rw (q, less)
              (find_loop-kept rounds (n + 1) (nodes n).frequency (some n)
                (above_next n minimum (nodes n).frequency above (omega arith) (λ o. omega arith))
                (omega arith, (unused, positive), refl, λ j lt o. omega (arith, above j lt o)))
        | inr not_less ↦
            rw (q, not_less)
              (find_loop-kept rounds (n + 1) minimum index
                (above_next n minimum minimum above (omega arith) (not_less-le n minimum not_less))
                (IsKept-next n minimum index kept))
      ]

  -- huffman_find_minimum_frequency returns the first of the least nodes that are not used and have a
  -- frequency above 0, and none only if no such node has a frequency below UINT32_MAX.
  pub find_minimum_frequency-IsLeast :
      (node_count : ℕ)
      → IsLeast nodes is_used node_count (find_minimum_frequency nodes node_count is_used)
  unfolding find_minimum_frequency
  find_minimum_frequency-IsLeast node_count =
      let q : 0 + node_count ≡ node_count = omega arith in
      rw q at (find_loop-kept node_count 0 (2 ^ 32 - 1) none (λ j lt. absurd (omega arith)) refl)
