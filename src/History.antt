-- ===== src/History.antt =====
-- cli/src/core/history.c: the command lines that the shell remembers, and the place in them while the
-- user browses. A line is the list of its characters, without the end mark.
pub mod Browse
use simple_file_system.Base.{
  ℕ, zero, suc, ◌+◌, ◌-◌, ◌*◌, ◌/◌, ◌%◌, ◌^◌, ◌<◌, ◌≤◌, ◌≡◌, ◌≢◌, ◌⊎◌, refl, sym, ap, ◌∙◌, fun_ext,
  inl, inr, Bool, true, false, not, ◌&&◌, ◌||◌, Option, none, some, List, [], ◌∷◌, ◌++◌, arith,
  Bytes, zeros, copy, store, AreBytes, u32_at, set_u32, byte_of_u32, u32_word, u32_at-agree,
  u32_at_of_bytes, u32_at-set_u32, u32_at-set_u32_ne, Status, file_access, invalid_argument,
  out_of_bounds, memory_allocation, read_only, no_space, Result, ok, err, Exec, pure, fail,
  reject_if, lift_result, continue, ◌>>=◌, ◌>>◌, bind-ok, ltb, leb, ◌==◌, if◌then◌else◌, Bool-cases,
  ltb→lt, lt→ltb, le→ltb, le→leb, lt→leb, ==→eq, ==-ne, ==-refl, ne→==, lt_or_le, min, max,
}

abbrev pub max_entries : ℕ
max_entries = 128

abbrev pub max_length : ℕ
max_length = 512

-- cli_history_t
pub record History : Type 0 where
  pub entries : ℕ → List ℕ
  pub entry_count : ℕ
  pub browse_index : ℕ

-- cli_history_initialize
abbrev pub initial_history : History
initial_history = record { entries = λ i. []; entry_count = 0; browse_index = 0 }

-- `strcmp(a, b) == 0`
unfoldable pub same_line : List ℕ → List ℕ → Bool
same_line [] [] = true
same_line [] (b ∷ t) = false
same_line (a ∷ s) [] = false
same_line (a ∷ s) (b ∷ t) = a == b && same_line s t

-- `strncpy` of at most this many characters, and the end mark after them.
unfoldable pub take : ℕ → List ℕ → List ℕ
take zero line = []
take (suc n) [] = []
take (suc n) (a ∷ line) = a ∷ take n line

-- The oldest entry is dropped if there is no room for another.
abbrev pub make_room : History → History
make_room history = if ltb history.entry_count max_entries then history else record history {
  entries = λ i. if ltb i (max_entries - 1) then history.entries (i + 1) else history.entries i;
  entry_count = max_entries - 1;
}

-- The end of cli_history_add_entry.
abbrev pub append : List ℕ → History → History
append line history =
    let count = history.entry_count in
    record {
      entries = λ i. if i == count then take (max_length - 1) line else history.entries i;
      entry_count = count + 1;
      browse_index = count + 1;
    }

-- Whether the line is that of the last entry.
abbrev pub repeats : List ℕ → History → Bool
repeats line history =
    ltb 0 history.entry_count && same_line (history.entries (history.entry_count - 1)) line

-- cli_history_add_entry
unfoldable pub add_entry : List ℕ → History → History
unfolding take same_line
add_entry [] history = history
add_entry (a ∷ line) history =
    if repeats (a ∷ line) history
    then record history { browse_index = history.entry_count }
    else append (a ∷ line) (make_room history)

-- cli_history_browse_up; NULL is `none`.
unfoldable pub browse_up : History → Option (List ℕ) × History
browse_up history =
    if history.entry_count == 0
    then (none, history)
    else if history.browse_index == 0
    then (some (history.entries 0), history)
    else let index = history.browse_index - 1 in
      (some (history.entries index), record history { browse_index = index })

-- cli_history_browse_down
unfoldable pub browse_down : History → Option (List ℕ) × History
browse_down history =
    let index = history.browse_index + 1 in
    let moved = record history { browse_index = index } in
    if history.entry_count == 0
    then (none, history)
    else if leb history.entry_count history.browse_index
    then (some [], history)
    else if leb history.entry_count index
    then (some [], moved)
    else (some (history.entries index), moved)

-- cli_history_reset_browse
abbrev pub reset_browse : History → History
reset_browse history = record history { browse_index = history.entry_count }

-- cli_history_get_entry
unfoldable pub get_entry : History → ℕ → Option (List ℕ)
get_entry history entry_index =
    if leb history.entry_count entry_index then none else some (history.entries entry_index)
