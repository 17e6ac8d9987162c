-- ===== src/Vfs/Files/Free.antt =====
-- vfs_find_free_descriptor of src/vfs/context.c.
use simple_file_system.Base.{
  ℕ, zero, suc, ◌+◌, ◌<◌, ◌≡◌, ap, ◌∙◌, inl, inr, true, false, Option, none, some, arith,
  Bool-cases, lt_or_le,
}
use simple_file_system.Vfs.{FileDescriptor}
use simple_file_system.Vfs.Files.{max_open_files, free_from, find_free_descriptor}

-- The first of `n` descriptors that is not open, or that all are open.
unfoldable pub IsFirstClosed : (ℕ → FileDescriptor) → (n : ℕ) → Option ℕ → Type 0
IsFirstClosed open_files n none = (j : ℕ) → j < n → (open_files j).is_open ≡ true
IsFirstClosed open_files n (some k) =
    (k < n) × ((open_files k).is_open ≡ false) × ((j : ℕ) → j < k → (open_files j).is_open ≡ true)

open_before :
    (open_files : ℕ → FileDescriptor) (i j : ℕ)
    → ((j : ℕ) → j < i → (open_files j).is_open ≡ true)
    → (open_files i).is_open ≡ true
    → j < i + 1
    → (open_files j).is_open ≡ true
open_before open_files i j before here h = elim (lt_or_le j i) [
  | inl below ↦ before j below
  | inr at ↦ let q : j ≡ i = omega arith in ap (λ j. (open_files j).is_open) q ∙ here
]

free_from-IsFirstClosed :
    (open_files : ℕ → FileDescriptor) (n rounds i : ℕ)
    → rounds + i ≡ n
    → ((j : ℕ) → j < i → (open_files j).is_open ≡ true)
    → IsFirstClosed open_files n (free_from open_files rounds i)
unfolding free_from IsFirstClosed
free_from-IsFirstClosed open_files n zero i e before = λ j h. before j (omega arith)
free_from-IsFirstClosed open_files n (suc rounds) i e before =
    elim (Bool-cases ((open_files i).is_open)) [
      | inl is_open ↦ rw is_open (
          free_from-IsFirstClosed open_files n rounds (i + 1) (omega arith)
            (λ j h. open_before open_files i j before is_open h))
      | inr closed ↦ rw closed (omega arith, closed, before)
    ]

-- vfs_find_free_descriptor finds the first descriptor of the table that is not open, and fails exactly
-- when all are open.
pub find_free_descriptor-IsFirstClosed :
    (open_files : ℕ → FileDescriptor)
    → IsFirstClosed open_files max_open_files (find_free_descriptor open_files)
unfolding find_free_descriptor
find_free_descriptor-IsFirstClosed open_files =
    free_from-IsFirstClosed open_files max_open_files max_open_files 0 (omega arith)
      (λ j h. absurd (omega arith))
