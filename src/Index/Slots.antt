-- ===== src/Index/Slots.antt =====
-- Allocating, writing and freeing slots of the inode table of src/metadata/index.c.
use simple_file_system.Base.{
  ℕ, zero, suc, ◌+◌, ◌<◌, ◌≡◌, refl, inl, inr, true, false, ◌&&◌, arith, no_space, Result, ok, err,
  ltb, ◌==◌, if◌then◌else◌, Bool-cases, lt→leb, lt_or_le,
}
use simple_file_system.Index.{
  Inode, Index, read_inode, write_inode, allocate_from, allocate_inode, free_inode, put_inode,
}

-- What is read after a write: the inode at its own id, every other slot as before; an id out of
-- range is refused and changes nothing.
pub read_inode-write_inode :
    (x : Index) (n : Inode) (j : ℕ)
    → read_inode (write_inode n x).1 j
      ≡ (if j == n.id && ltb n.id x.total_inodes then ok n else read_inode x j)
unfolding read_inode write_inode
read_inode-write_inode x n j = ground arith

-- Every inode stands in the slot of its id, unless it is unused.
abbrev pub HasOwnIds : Index → Type 0
HasOwnIds x = (j : ℕ) → (x.inode_table j).is_used ≡ true → (x.inode_table j).id ≡ j

pub write_inode-HasOwnIds : (n : Inode) (x : Index) → HasOwnIds x → HasOwnIds (write_inode n x).1
unfolding write_inode
write_inode-HasOwnIds n x h j used = ground (arith, h j)

pub free_inode-HasOwnIds : (i : ℕ) (x : Index) → HasOwnIds x → HasOwnIds (free_inode i x).1
unfolding free_inode
free_inode-HasOwnIds i x h j used = ground (arith, h j)

-- The slots from `i` up to `n` are used.
abbrev pub UsedBelow : Index → ℕ → Type 0
UsedBelow x n = (j : ℕ) → j < n → (x.inode_table j).is_used ≡ true

-- An inode in use that has its id and type, one link and nothing else.
abbrev pub linked_once : (id type : ℕ) → Inode
linked_once id type = record {
  id = id;
  type = type;
  is_used = true;
  link_count = 1;
  size = 0;
  cluster_count = 0;
  direct_clusters = λ k. 0;
  single_indirect_cluster = 0;
  double_indirect_cluster = 0;
  triple_indirect_cluster = 0;
}

-- What an allocation does: it takes the lowest unused slot, writes a fresh inode there and leaves
-- every other slot alone; if every slot is used it fails and changes nothing.
abbrev pub Allocated : Index → ℕ → Result ℕ → Index → Type 0
Allocated x type (ok i) x' =
    (i < x.total_inodes)
    × ((x.inode_table i).is_used ≡ false)
    × UsedBelow x i
    × (x' ≡ record x {
      inode_table = λ j. if j == i then linked_once i type else x.inode_table j;
      is_dirty = true;
    })
Allocated x type (err e) x' = (e ≡ no_space) × UsedBelow x x.total_inodes × (x' ≡ x)

allocate_from-Allocated :
    (x : Index) (type rounds i : ℕ)
    → rounds + i ≡ x.total_inodes
    → UsedBelow x i
    → let (r, x') = allocate_from type rounds i x in Allocated x type r x'
unfolding allocate_from put_inode
allocate_from-Allocated x type zero i e u = (refl, λ j h. u j (omega arith), refl)
allocate_from-Allocated x type (suc rounds) i e u = elim (Bool-cases (x.inode_table i).is_used) [
  | inl used ↦ rw used (
      allocate_from-Allocated x type rounds (i + 1) (omega arith) (λ j h. elim (lt_or_le j i) [
        | inl lt ↦ u j lt
        | inr ge ↦ let q : j ≡ i = omega arith in rw (q, used)
      ]))
  | inr unused ↦
      let inside : i < x.total_inodes = omega arith in
      rw (unused, lt→leb _ _ inside) (inside, unused, u, refl)
]

-- An allocation takes the lowest unused slot, which then has an inode in use with its id, the type, one
-- link, no bytes and no clusters, and leaves every other slot alone; it fails, and changes nothing, exactly when every slot is used.
pub allocate_inode-Allocated :
    (x : Index) (type : ℕ) → let (r, x') = allocate_inode type x in Allocated x type r x'
unfolding allocate_inode
allocate_inode-Allocated x type =
    allocate_from-Allocated x type x.total_inodes 0 (omega arith) (λ j h. absurd (omega arith))
