-- ===== src/Index/Count.antt =====
-- The number of used inodes, src/metadata/index.c.
use simple_file_system.Base.{
  ℕ, zero, suc, ◌+◌, ◌<◌, ◌≡◌, refl, ◌∙◌, Bool, true, arith, Result, ok, err, if◌then◌else◌,
}
use simple_file_system.Base.Counting.{
  one_if, count_below, count_loop, count_loop-eq-count_below, count_below-change,
}
use simple_file_system.Index.{
  Index, allocate_inode, free_inode, count_used_from, count_used_inodes, put_inode, new_inode,
}
use simple_file_system.Index.Slots.{Allocated, allocate_inode-Allocated}

abbrev pub used : Index → ℕ → Bool
used x i = (x.inode_table i).is_used

count_used_from-count_loop :
    (x : Index) (rounds i acc : ℕ)
    → count_used_from x rounds i acc ≡ count_loop (used x) rounds i acc
unfolding count_used_from count_loop
count_used_from-count_loop x zero i acc = refl
count_used_from-count_loop x (suc rounds) i acc =
    count_used_from-count_loop x rounds (i + 1) (if used x i then acc + 1 else acc)

-- The function counts the slots of the table that are in use.
pub count_used_inodes-eq-count_below :
    (x : Index) → count_used_inodes x ≡ count_below (used x) x.total_inodes
unfolding count_used_inodes
count_used_inodes-eq-count_below x =
    count_used_from-count_loop x x.total_inodes 0 0
    ∙ count_loop-eq-count_below (used x) x.total_inodes

-- What an allocation does to the count.
abbrev pub CountedAllocation : Index → Result ℕ → Index → Type 0
CountedAllocation x (ok i) x' = count_used_inodes x' ≡ count_used_inodes x + 1
CountedAllocation x (err e) x' = count_used_inodes x' ≡ count_used_inodes x

count_of_Allocated :
    (x : Index) (type : ℕ) (r : Result ℕ) (x' : Index)
    → Allocated x type r x'
    → CountedAllocation x r x'
unfolding put_inode
count_of_Allocated x type (ok i) x' (inside, unused, _, e) =
    let y : Index = record x {
      inode_table = put_inode x.inode_table i (new_inode i type);
      is_dirty = true;
    } in
    rw e (
      ground (
        arith,
        count_used_inodes-eq-count_below x,
        count_used_inodes-eq-count_below y,
        count_below-change (used x) (used y) i x.total_inodes (λ j ne. ground arith),
      ))
count_of_Allocated x type (err e) x' (_, _, same) = rw same

-- An allocation that succeeds adds one to the count, and one that fails leaves it.
pub count-allocate_inode :
    (x : Index) (type : ℕ) → let (r, x') = allocate_inode type x in CountedAllocation x r x'
count-allocate_inode x type =
    let (r, x') = allocate_inode type x in
    count_of_Allocated x type r x' (allocate_inode-Allocated x type)

-- Freeing a slot of the table takes one off the count if it was used, and nothing otherwise.
pub count-free_inode :
    (x : Index) (i : ℕ)
    → i < x.total_inodes
    → count_used_inodes (free_inode i x).1 + one_if (used x i) ≡ count_used_inodes x
unfolding free_inode put_inode
count-free_inode x i h =
    let y = (free_inode i x).1 in
    ground (
      arith,
      count_used_inodes-eq-count_below x,
      count_used_inodes-eq-count_below y,
      count_below-change (used x) (used y) i x.total_inodes (λ j ne. ground arith),
    )
