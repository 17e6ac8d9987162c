-- ===== src/Dir.antt =====
-- include/fs/types.h, fs_dentry_t, and the lists of entries of src/logical/dir.c: how the bytes of a
-- directory are read into a list of entries and written from one.
pub mod Table
pub mod Names
pub mod Changes
pub mod Represents
pub mod Roundtrip
pub mod Tables
pub mod Search
pub mod Runs
pub mod Stored
pub mod Lookup
use simple_file_system.Base.{
  ℕ, zero, suc, ◌+◌, ◌-◌, ◌*◌, ◌/◌, ◌%◌, ◌^◌, ◌<◌, ◌≤◌, ◌≡◌, ◌≢◌, ◌⊎◌, refl, sym, ap, ◌∙◌, fun_ext,
  inl, inr, Bool, true, false, not, ◌&&◌, ◌||◌, Option, none, some, List, [], ◌∷◌, ◌++◌, arith,
  Bytes, zeros, copy, store, AreBytes, u32_at, set_u32, byte_of_u32, u32_word, u32_at-agree,
  u32_at_of_bytes, u32_at-set_u32, u32_at-set_u32_ne, Status, file_access, invalid_argument,
  out_of_bounds, memory_allocation, read_only, no_space, Result, ok, err, Exec, pure, fail,
  reject_if, lift_result, continue, ◌>>=◌, ◌>>◌, bind-ok, ltb, leb, ◌==◌, if◌then◌else◌, Bool-cases,
  ltb→lt, lt→ltb, le→ltb, le→leb, lt→leb, ==→eq, ==-ne, ==-refl, ne→==, lt_or_le, min, max,
}
use mathlib.Core.List.{Permᴰ}
use simple_file_system.Base.Text.{Text, length, same, before, take, char_at, contains}
use simple_file_system.Config.{max_filename_length}

-- fs_dentry_t. The name is that of the end mark that `calloc` leaves behind it.
pub record Dentry : Type 0 where
  pub inode_id : ℕ
  pub record_length : ℕ
  pub name_length : ℕ
  pub name : Text

-- sizeof(fs_dentry_t)
abbrev pub dentry_bytes : ℕ
dentry_bytes = 8

-- fs_dentry_calculate_record_length
abbrev pub calculate_record_length : ℕ → ℕ
calculate_record_length name_length = (dentry_bytes + name_length + 1 + 3) / 4 * 4

-- fs_dentry_create, when `calloc` returns memory. Two lengths are `uint16_t`.
unfoldable pub dentry_create : (inode_id : ℕ) → Text → Dentry
unfolding take length
dentry_create inode_id name =
    let name_length = length name % 2 ^ 16 in
    record {
      inode_id = inode_id;
      record_length = calculate_record_length name_length % 2 ^ 16;
      name_length = name_length;
      name = take name_length name;
    }

-- The byte of an entry in memory.
unfoldable pub byte_of_dentry : Dentry → Bytes
unfolding byte_of_u32 char_at
byte_of_dentry e i =
    if ltb i 4
    then byte_of_u32 e.inode_id i
    else if ltb i 6
    then byte_of_u32 e.record_length (i - 4)
    else if ltb i 8
    then byte_of_u32 e.name_length (i - 6)
    else char_at e.name (i - 8)

-- The fields of the entry that stands at an offset of a buffer.
abbrev pub inode_id_at : Bytes → ℕ → ℕ
inode_id_at b o = b o + 256 * b (o + 1) + 65536 * b (o + 2) + 16777216 * b (o + 3)

abbrev pub record_length_at : Bytes → ℕ → ℕ
record_length_at b o = b (o + 4) + 256 * b (o + 5)

-- The string at an offset of a buffer, of at most `room` characters.
unfoldable pub text_at : Bytes → (room o : ℕ) → Text
text_at b zero o = []
text_at b (suc room) o = let rest = text_at b room (o + 1) in if b o == 0 then [] else b o ∷ rest

-- The first loop of load_and_parse_directory_entries. A record has at least a byte, so `size` rounds
-- are enough.
unfoldable pub count_records : (size : ℕ) → Bytes → (rounds current_offset : ℕ) → ℕ
count_records size buffer zero current_offset = 0
count_records size buffer (suc rounds) current_offset =
    let record_length = record_length_at buffer current_offset in
    let rest = count_records size buffer rounds (current_offset + record_length) in
    if leb size current_offset
    then 0
    else if ltb size (current_offset + dentry_bytes)
    then 0
    else if record_length == 0
    then 0
    else suc rest

-- The second loop, with `rounds` entries left.
unfoldable pub read_records : (size : ℕ) → Bytes → (rounds current_offset : ℕ) → List Dentry
unfolding dentry_create text_at
read_records size buffer zero current_offset = []
read_records size buffer (suc rounds) current_offset =
    let at = current_offset + dentry_bytes in
    dentry_create (inode_id_at buffer current_offset) (text_at buffer (size - at) at)
    ∷ read_records size buffer rounds (current_offset + record_length_at buffer current_offset)

-- The entries of a buffer, in its order.
unfoldable pub parse_entries : (size : ℕ) → Bytes → List Dentry
unfolding count_records read_records
parse_entries size buffer = read_records size buffer (count_records size buffer size 0) 0

-- The first loop of save_directory_entries.
unfoldable pub total_size : List Dentry → ℕ
total_size [] = 0
total_size (e ∷ es) = e.record_length + total_size es

-- The second loop, on a buffer whose first `at` bytes are filled.
unfoldable pub fill_entries : List Dentry → (at : ℕ) → Bytes → Bytes
unfolding copy byte_of_dentry
fill_entries [] at buffer = buffer
fill_entries (e ∷ es) at buffer =
    fill_entries es (at + e.record_length) (copy buffer at (byte_of_dentry e) 0 e.record_length)

-- `strcmp(entry->name, name) == 0`
abbrev pub named : Text → Dentry → Bool
named name e = same e.name name

-- The loops that look for a name.
unfoldable pub find_name : Text → List Dentry → Option ℕ
find_name name [] = none
find_name name (e ∷ es) = if named name e then some e.inode_id else find_name name es

-- The loop of fs_dir_update_entry_inode, when the name is there.
unfoldable pub update_first : Text → ℕ → List Dentry → List Dentry
update_first name id [] = []
update_first name id (e ∷ es) =
    if named name e then record e { inode_id = id } ∷ es else e ∷ update_first name id es

-- The loops of fs_dir_remove_entry, when the name is there.
unfoldable pub remove_first : Text → List Dentry → List Dentry
remove_first name [] = []
remove_first name (e ∷ es) = if named name e then es else e ∷ remove_first name es

-- The replacement of an entry by a new one in fs_dir_rename_entry.
unfoldable pub rename_first : (old_name new_name : Text) → List Dentry → List Dentry
unfolding dentry_create
rename_first old_name new_name [] = []
rename_first old_name new_name (e ∷ es) =
    if named old_name e
    then dentry_create e.inode_id new_name ∷ es
    else e ∷ rename_first old_name new_name es

abbrev pub dot : Text
dot = 46 ∷ []

abbrev pub dot_dot : Text
dot_dot = 46 ∷ 46 ∷ []

-- fs_dir_validate_name
unfoldable pub validate_name : Text → Result (Unit {0})
unfolding same contains length
validate_name name =
    if same name []
    then err invalid_argument
    else if same name dot || same name dot_dot
    then err invalid_argument
    else if ltb max_filename_length (length name)
    then err invalid_argument
    else if contains 47 name || contains 92 name
    then err invalid_argument
    else ok tt

-- Where dir.c asks for memory.
pub data Site : Type 0 where
  directory_buffer entry_array parsed_entry write_buffer longer_array new_entry : Site

-- What dir.c takes from <stdlib.h>: whether memory is given at a site, `qsort` by
-- compare_dentry_names_for_qsort, and what `bsearch` by compare_dentry_names_for_bsearch points at.
pub record Stdlib : Type 0 where
  pub has_memory : Site → Bool
  pub qsort : List Dentry → List Dentry
  pub bsearch : Text → List Dentry → Option Dentry

-- The names stand in the order of `strcmp`.
abbrev pub IsSorted : List Dentry → Type 0
IsSorted [] = Unit {0}
IsSorted (e ∷ []) = Unit {0}
IsSorted (e ∷ f ∷ es) = (before e.name f.name ≡ true) × IsSorted (f ∷ es)

-- What `bsearch` may return on the entries: one with the name, or nothing if none has it.
abbrev pub IsMatch : Text → List Dentry → Option Dentry → Type 0
IsMatch name es none = find_name name es ≡ none
IsMatch name es (some e) = (same e.name name ≡ true) × (l : List Dentry) × Permᴰ es (e ∷ l)

-- What the standard promises of the two calls.
pub record IsStdlib (lib : Stdlib) : Type 0 where
  pub qsort-IsSorted : (es : List Dentry) → IsSorted (lib.qsort es)
  pub qsort-perm : (es : List Dentry) → Permᴰ es (lib.qsort es)
  pub bsearch-IsMatch :
      (name : Text) (es : List Dentry) → IsSorted es → IsMatch name es (lib.bsearch name es)
