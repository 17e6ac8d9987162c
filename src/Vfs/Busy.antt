-- ===== src/Vfs/Busy.antt =====
-- src/vfs/operations.c: a file that is open is not removed.
use simple_file_system.Base.{
  ℕ, zero, suc, ◌+◌, ◌<◌, ◌≤◌, ◌≡◌, refl, sym, ap, ◌∙◌, inl, inr, Bool, true, false, ◌&&◌, arith,
  invalid_argument, ok, err, ◌==◌, Bool-cases, ==→eq, ==-refl, lt_or_le,
}
use simple_file_system.Base.Text.{Text}
use simple_file_system.Platform.{Stdio}
use simple_file_system.Dir.{Stdlib}
use simple_file_system.Vfs.{Context, FileDescriptor}
use simple_file_system.Vfs.Files.{max_open_files}
use simple_file_system.Vfs.Operations.{
  open_from, is_inode_open, reject_open, locate, remove, remove_directory,
}
use simple_file_system.Vfs.Descriptors.{locate-HasFiles}

-- A descriptor of the table is open on an inode.
pub record IsOpenAt (open_files : ℕ → FileDescriptor) (id k : ℕ) : Type 0 where
  pub in_table : k < max_open_files
  pub opened : (open_files k).is_open ≡ true
  pub on_inode : (open_files k).inode_id ≡ id

open_from-finds :
    (open_files : ℕ → FileDescriptor) (id rounds i k : ℕ)
    → i ≤ k
    → k < i + rounds
    → (open_files k).is_open ≡ true
    → (open_files k).inode_id ≡ id
    → open_from open_files id rounds i ≡ true
unfolding open_from
open_from-finds files id zero i k h l o q = absurd (omega arith)
open_from-finds files id (suc rounds) i k h l o q = elim (lt_or_le i k) [
  | inl b ↦
      let rest = open_from-finds files id rounds (i + 1) k (omega arith) (omega arith) o q in
      elim (Bool-cases ((files i).is_open && (files i).inode_id == id)) [
        | inl t ↦ rw (t) refl
        | inr f ↦ rw (f) rest
      ]
  | inr b ↦
      let same : k ≡ i = omega arith in
      let o' : (files i).is_open ≡ true = rw (← same) o in
      let q' : (files i).inode_id ≡ id = rw (← same) q in rw (o', q', ==-refl id) refl
]

and-true : (a b : Bool) → (a && b) ≡ true → (a ≡ true) × (b ≡ true)
and-true true b h = (refl, h)
and-true false b h = cc

open_from-found :
    (open_files : ℕ → FileDescriptor) (id rounds i : ℕ)
    → i + rounds ≤ max_open_files
    → open_from open_files id rounds i ≡ true
    → (k : ℕ) × IsOpenAt open_files id k
unfolding open_from
open_from-found files id zero i l h = cc
open_from-found files id (suc rounds) i l h =
    elim (Bool-cases ((files i).is_open && (files i).inode_id == id)) [
      | inl t ↦
          let (o, q) = and-true (files i).is_open ((files i).inode_id == id) t in
          (
            i,
            record { in_table = omega arith; opened = o; on_inode = ==→eq (files i).inode_id id q },
          )
      | inr f ↦
          let h' : open_from files id rounds (i + 1) ≡ true = sym (rw (f) refl) ∙ h in
          open_from-found files id rounds (i + 1) (omega arith) h'
    ]

-- vfs_is_inode_open finds a descriptor that is open on the inode if there is one,
pub is_inode_open-finds :
    (open_files : ℕ → FileDescriptor) (id k : ℕ)
    → IsOpenAt open_files id k
    → is_inode_open open_files id ≡ true
unfolding is_inode_open
is_inode_open-finds files id k w =
    open_from-finds files id max_open_files 0 k (omega arith) (omega (arith, w.in_table)) w.opened
      w.on_inode

-- and only then.
pub is_inode_open-found :
    (open_files : ℕ → FileDescriptor) (id : ℕ)
    → is_inode_open open_files id ≡ true
    → (k : ℕ) × IsOpenAt open_files id k
unfolding is_inode_open
is_inode_open-found files id h = open_from-found files id max_open_files 0 (omega arith) h

module _ (io : Stdio) (lib : Stdlib) where
  pub locate-files :
      (path : Text) (v : Context io) → (locate io lib path v).1.open_files ≡ v.open_files
  locate-files path v =
      ((locate-HasFiles io lib v.open_files v.root_inode_id path).at v (refl, refl)).0

  -- fs_vfs_remove and fs_vfs_remove_directory refuse a file that a descriptor of the table is open on, and
  -- change nothing then but what finding the file changes.
  pub remove-refuses_open :
      (path : Text) (v v1 : Context io) (parent_id : ℕ) (name : Text) (id k : ℕ)
      → locate io lib path v ≡ (ok (parent_id, name, id), v1)
      → IsOpenAt v.open_files id k
      → (remove io lib path v ≡ (err invalid_argument, v1))
        × (remove_directory io lib path v ≡ (err invalid_argument, v1))
  unfolding remove remove_directory reject_open
  remove-refuses_open path v v1 parent_id name id k found w =
      let files : v1.open_files ≡ v.open_files =
        ap (λ r. r.1.open_files) (sym found) ∙ locate-files path v in
      let busy : is_inode_open v1.open_files id ≡ true =
        rw (files) (is_inode_open-finds v.open_files id k w) in
      (rw (found, busy) refl, rw (found, busy) refl)
