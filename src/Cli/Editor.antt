-- ===== src/Cli/Editor.antt =====
-- cli/src/core/line_editor.c: the line that the user edits, key by key. What the editor writes to the
-- screen is left out; the line is the text in the buffer before its end mark, and its length is
-- `line_length`.
pub mod Bounds
pub mod Typing
use simple_file_system.Base.{
  ℕ, zero, suc, ◌+◌, ◌-◌, ◌*◌, ◌/◌, ◌%◌, ◌^◌, ◌<◌, ◌≤◌, ◌≡◌, ◌≢◌, ◌⊎◌, refl, sym, ap, ◌∙◌, fun_ext,
  inl, inr, Bool, true, false, not, ◌&&◌, ◌||◌, Option, none, some, List, [], ◌∷◌, ◌++◌, arith,
  Bytes, zeros, copy, store, AreBytes, u32_at, set_u32, byte_of_u32, u32_word, u32_at-agree,
  u32_at_of_bytes, u32_at-set_u32, u32_at-set_u32_ne, Status, file_access, invalid_argument,
  out_of_bounds, memory_allocation, read_only, no_space, Result, ok, err, Exec, pure, fail,
  reject_if, lift_result, continue, ◌>>=◌, ◌>>◌, bind-ok, by_result, ltb, leb, ◌==◌, if◌then◌else◌,
  Bool-cases, ltb→lt, lt→ltb, le→ltb, le→leb, lt→leb, ==→eq, ==-ne, ==-refl, ne→==, lt_or_le, min,
  max,
}
use simple_file_system.Base.Text.{Text, length, take, drop}
use simple_file_system.History.{History, browse_up, browse_down, reset_browse}

-- The keys of cli/include/core/terminal.h. A paste carries the text of cli_terminal_get_paste_data,
-- and any other code of a key stands under `character`.
pub data Key : Type 0 where
  no_key enter backspace up down left right home end delete ctrl_c ctrl_d tab escape : Key
  paste : Text → Key
  character : ℕ → Key

-- CLI_LINE_EDITOR_MAX_INPUT
abbrev pub max_input : ℕ
max_input = 2048

-- The variables of cli_line_editor_read.
pub record Editor : Type 0 where
  pub line : Text
  pub cursor_position : ℕ
  pub saved_line : Text
  pub is_navigating_history : Bool
  pub history : History

-- How a round of the loop ends: with the editor, or with the value that is returned and the line.
pub data Round : Type 0 where
  goes_on : Editor → Round
  returns : (accepted : Bool) → Text → History → Round

-- A text in place of the characters at the cursor that `count` drops, the cursor behind the text.
abbrev pub replace : (inserted : Text) (count : ℕ) → Editor → Editor
replace inserted count editor = record editor {
  line =
      take editor.cursor_position editor.line
      ++ (inserted ++ drop (editor.cursor_position + count) editor.line);
  cursor_position = editor.cursor_position + length inserted;
}

abbrev pub move_cursor : ℕ → Editor → Editor
move_cursor position editor = record editor { cursor_position = position }

-- The character at the cursor goes, if there is one.
unfoldable pub delete_at_cursor : Editor → Editor
delete_at_cursor editor =
    if ltb editor.cursor_position (length editor.line) then replace [] 1 editor else editor

-- The case CLI_KEY_BACKSPACE.
unfoldable pub delete_before_cursor : Editor → Editor
delete_before_cursor editor =
    if ltb 0 editor.cursor_position
    then replace [] 1 (move_cursor (editor.cursor_position - 1) editor)
    else editor

-- The case CLI_KEY_PASTE: as much of the text as the buffer has room for.
unfoldable pub insert_text : (buffer_size : ℕ) → Text → Editor → Editor
insert_text buffer_size text editor =
    replace (take (buffer_size - 1 - length editor.line) text) 0 editor

-- A line in place of the whole, the cursor at its end.
abbrev pub set_line : (buffer_size : ℕ) → Text → Editor → Editor
set_line buffer_size text editor =
    let line = take (buffer_size - 1) text in
    record editor { line = line; cursor_position = length line }

-- The line is kept before the first step into the history.
abbrev pub save_line : Editor → Editor
save_line editor = if editor.is_navigating_history then editor else record editor {
  saved_line = take (max_input - 1) editor.line;
  is_navigating_history = true;
}

abbrev pub show_entry : (buffer_size : ℕ) → Editor → Option Text × History → Editor
show_entry buffer_size editor (none, history) = record editor { history = history }
show_entry buffer_size editor (some entry, history) =
    set_line buffer_size entry (record editor { history = history })

-- The case CLI_KEY_UP.
unfoldable pub go_up : (buffer_size : ℕ) → Editor → Editor
go_up buffer_size editor =
    let saved = save_line editor in show_entry buffer_size saved (browse_up saved.history)

abbrev pub leave_history : (buffer_size : ℕ) → Editor → History → Editor
leave_history buffer_size editor history =
    set_line buffer_size editor.saved_line
      (record editor { history = history; is_navigating_history = false })

abbrev pub show_later : (buffer_size : ℕ) → Editor → Option Text × History → Editor
show_later buffer_size editor (none, history) = leave_history buffer_size editor history
show_later buffer_size editor (some [], history) = leave_history buffer_size editor history
show_later buffer_size editor (some (c ∷ s), history) =
    set_line buffer_size (c ∷ s) (record editor { history = history })

-- The case CLI_KEY_DOWN.
unfoldable pub go_down : (buffer_size : ℕ) → Editor → Editor
go_down buffer_size editor =
    if editor.is_navigating_history
    then show_later buffer_size editor (browse_down editor.history)
    else editor

-- The default case, of any other code.
unfoldable pub type_character : (buffer_size : ℕ) → ℕ → Editor → Editor
type_character buffer_size key editor =
    if (leb 32 key && ltb key 127) && ltb (length editor.line) (buffer_size - 1)
    then replace (key ∷ []) 0 editor
    else editor

-- "exit"
abbrev pub exit_line : Text
exit_line = 101 ∷ 120 ∷ 105 ∷ 116 ∷ []

-- The case CLI_KEY_CTRL_D.
unfoldable pub end_of_input : Editor → Round
end_of_input editor =
    if length editor.line == 0
    then returns true exit_line editor.history
    else goes_on (delete_at_cursor editor)

-- A round of the loop of cli_line_editor_read.
unfoldable pub press : (buffer_size : ℕ) → Key → Editor → Round
press buffer_size enter editor = returns true editor.line (reset_browse editor.history)
press buffer_size ctrl_c editor = returns false [] (reset_browse editor.history)
press buffer_size ctrl_d editor = end_of_input editor
press buffer_size backspace editor = goes_on (delete_before_cursor editor)
press buffer_size delete editor = goes_on (delete_at_cursor editor)
press buffer_size left editor = goes_on (move_cursor (editor.cursor_position - 1) editor)
press buffer_size right editor = goes_on (
    if ltb editor.cursor_position (length editor.line)
    then move_cursor (editor.cursor_position + 1) editor
    else editor)
press buffer_size home editor = goes_on (move_cursor 0 editor)
press buffer_size end editor = goes_on (move_cursor (length editor.line) editor)
press buffer_size (paste text) editor = goes_on (insert_text buffer_size text editor)
press buffer_size up editor = goes_on (go_up buffer_size editor)
press buffer_size down editor = goes_on (go_down buffer_size editor)
press buffer_size escape editor = goes_on editor
press buffer_size tab editor = goes_on editor
press buffer_size no_key editor = goes_on editor
press buffer_size (character key) editor = goes_on (type_character buffer_size key editor)

-- The variables before the loop.
abbrev pub first_editor : History → Editor
first_editor history = record {
  line = [];
  cursor_position = 0;
  saved_line = [];
  is_navigating_history = false;
  history = history;
}

abbrev pub and_then : Round → (Editor → Round) → Round
and_then (goes_on editor) rest = rest editor
and_then (returns accepted line history) rest = returns accepted line history

-- The loop of cli_line_editor_read on the keys that the user presses, until it returns or the keys
-- are at an end.
unfoldable pub press_all : (buffer_size : ℕ) → List Key → Editor → Round
press_all buffer_size [] editor = goes_on editor
press_all buffer_size (key ∷ keys) editor =
    and_then (press buffer_size key editor) (press_all buffer_size keys)
