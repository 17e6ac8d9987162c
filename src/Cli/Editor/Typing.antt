-- ===== src/Cli/Editor/Typing.antt =====
-- Typing a line into the editor of cli/src/core/line_editor.c.
use simple_file_system.Base.{
  ℕ, zero, suc, ◌+◌, ◌-◌, ◌<◌, ◌≤◌, ◌≡◌, refl, sym, ap, ◌∙◌, true, List, [], ◌∷◌, ◌++◌, arith,
  lt→ltb, le→leb,
}
use mathlib.Core.List.{append_assoc, append-nil}
use simple_file_system.Base.Text.{Text, length, take, drop}
use simple_file_system.History.{History, reset_browse}
use simple_file_system.Cli.Normal.{length-append}
use simple_file_system.Cli.Editor.{
  Key, enter, character, Editor, returns, press, press_all, type_character, first_editor,
}

-- The keys of a text.
unfoldable pub typed : Text → List Key
typed [] = enter ∷ []
typed (c ∷ s) = character c ∷ typed s

-- Every character is one that the editor takes.
unfoldable pub ArePrintable : Text → Type 0
ArePrintable [] = Unit {0}
ArePrintable (c ∷ s) = (32 ≤ c) × (c < 127) × ArePrintable s

take_all : (s : Text) → take (length s) s ≡ s
unfolding take length
take_all [] = refl
take_all (c ∷ s) = rw (take_all s)

drop_all : (n : ℕ) (s : Text) → n ≡ length s → drop n s ≡ []
unfolding drop length
drop_all zero [] e = refl
drop_all zero (c ∷ s) e = absurd (omega arith)
drop_all (suc n) [] e = refl
drop_all (suc n) (c ∷ s) e = drop_all n s (omega arith)

-- A character behind the line.
type_behind :
    (buffer_size c : ℕ) (editor : Editor)
    → 32 ≤ c
    → c < 127
    → length editor.line < buffer_size - 1
    → editor.cursor_position ≡ length editor.line
    → ((type_character buffer_size c editor).line ≡ editor.line ++ (c ∷ []))
      × ((type_character buffer_size c editor).cursor_position ≡ length editor.line + 1)
      × ((type_character buffer_size c editor).history ≡ editor.history)
unfolding type_character
type_behind buffer_size c editor a b room e =
    let d = drop_all (editor.cursor_position + 0) editor.line (omega arith) in
    rw (le→leb 32 c a, lt→ltb c 127 b, lt→ltb _ _ room, d, e, take_all editor.line)
      (refl, unfold length in refl, refl)

press_all-typed :
    (buffer_size : ℕ) (text : Text) (editor : Editor)
    → ArePrintable text
    → length editor.line + length text ≤ buffer_size - 1
    → editor.cursor_position ≡ length editor.line
    → press_all buffer_size (typed text) editor
      ≡ returns true (editor.line ++ text) (reset_browse editor.history)
unfolding press_all press typed ArePrintable length
press_all-typed buffer_size [] editor h room e = rw append-nil refl
press_all-typed buffer_size (c ∷ s) editor (a, b, h) room e =
    let next : Editor = type_character buffer_size c editor in
    let (line, cursor, history) = type_behind buffer_size c editor a b (omega arith) e in
    let size : length next.line ≡ length editor.line + 1 =
      ap length line ∙ length-append editor.line (c ∷ []) ∙ unfold length in refl in
    press_all-typed buffer_size s next h (omega (arith, size)) (cursor ∙ sym size)
    ∙ rw (line, history, append_assoc) refl

-- Typing the printable characters of a text that fits into the buffer and then Enter makes
-- cli_line_editor_read return the text, and the history is no longer browsed.
pub press_all-returns_typed :
    (buffer_size : ℕ) (text : Text) (history : History)
    → ArePrintable text
    → length text ≤ buffer_size - 1
    → press_all buffer_size (typed text) (first_editor history)
      ≡ returns true text (reset_browse history)
press_all-returns_typed buffer_size text history h room =
    press_all-typed buffer_size text (first_editor history) h (unfold length in omega arith)
      (unfold length in refl)
