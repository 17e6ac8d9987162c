-- ===== src/Cli/Editor/Bounds.antt =====
-- The bounds of the line and the cursor in cli/src/core/line_editor.c.
use simple_file_system.Base.{
  ℕ, zero, suc, ◌+◌, ◌-◌, ◌≤◌, ◌≡◌, refl, inl, inr, Bool, true, false, ◌&&◌, Option, none, some,
  List, [], ◌∷◌, ◌++◌, arith, ltb, leb, ◌==◌, if◌then◌else◌, Bool-cases,
}
use simple_file_system.Base.Text.{Text, length, take, drop}
use simple_file_system.History.{History, browse_up, browse_down, reset_browse}
use simple_file_system.History.Browse.{InBounds, steps-InBounds}
use simple_file_system.Cli.Normal.{length-append, length-take}
use simple_file_system.Cli.Editor.{
  Key, no_key, enter, backspace, up, down, left, right, home, end, delete, ctrl_c, ctrl_d, tab,
  escape, paste, character, Editor, Round, goes_on, returns, press, press_all, and_then, replace,
  move_cursor, delete_at_cursor, delete_before_cursor, insert_text, type_character, set_line,
  save_line, show_entry, show_later, leave_history, go_up, go_down, end_of_input,
}

-- The cursor is in the line or behind it, the line fits into the buffer with its end mark, and the
-- history is within its bounds.
pub record IsValid (buffer_size : ℕ) (editor : Editor) : Type 0 where
  pub cursor : editor.cursor_position ≤ length editor.line
  pub fits : length editor.line ≤ buffer_size - 1
  pub history : InBounds editor.history

-- A round that goes on does so with a valid editor, and one that returns leaves a line that fits.
abbrev pub IsValidRound : (buffer_size : ℕ) → Round → Type 0
IsValidRound buffer_size (goes_on editor) = IsValid buffer_size editor
IsValidRound buffer_size (returns accepted line history) =
    (length line ≤ buffer_size - 1) × InBounds history

length-drop : (n : ℕ) (s : Text) → length (drop n s) ≡ length s - n
unfolding drop length
length-drop zero s = omega arith
length-drop (suc n) [] = omega arith
length-drop (suc n) (c ∷ s) = omega (arith, length-drop n s)

pub length-take_within : (n : ℕ) (s : Text) → n ≤ length s → length (take n s) ≡ n
length-take_within n s h = ground (arith, length-take n s)

length-take_below : (n : ℕ) (s : Text) → length (take n s) ≤ n
length-take_below n s = ground (arith, length-take n s)

-- How long a line is after a change at the cursor.
pub length-replace :
    (inserted : Text) (count : ℕ) (editor : Editor)
    → editor.cursor_position ≤ length editor.line
    → length (replace inserted count editor).line
      ≡ editor.cursor_position
        + length inserted
        + (length editor.line - (editor.cursor_position + count))
length-replace inserted count editor h = omega (
  arith,
  length-append (take editor.cursor_position editor.line)
      (inserted ++ drop (editor.cursor_position + count) editor.line),
  length-append inserted (drop (editor.cursor_position + count) editor.line),
  length-drop (editor.cursor_position + count) editor.line,
  length-take_within editor.cursor_position editor.line h,
)

module _ (buffer_size : ℕ) where
  replace-IsValid :
      (inserted : Text) (count : ℕ) (editor : Editor)
      → IsValid buffer_size editor
      → length inserted + length editor.line ≤ buffer_size - 1
      → IsValid buffer_size (replace inserted count editor)
  replace-IsValid inserted count editor valid room =
      let size = length-replace inserted count editor valid.cursor in
      record {
        cursor = omega (arith, size);
        fits = omega (arith, size, valid.cursor);
        history = valid.history;
      }

  move-IsValid :
      (position : ℕ) (editor : Editor)
      → IsValid buffer_size editor
      → position ≤ length editor.line
      → IsValid buffer_size (move_cursor position editor)
  move-IsValid position editor valid h = record {
    cursor = h;
    fits = valid.fits;
    history = valid.history;
  }

  set_line-IsValid :
      (text : Text) (editor : Editor)
      → InBounds editor.history
      → IsValid buffer_size (set_line buffer_size text editor)
  set_line-IsValid text editor h = record {
    cursor = omega arith;
    fits = length-take_below (buffer_size - 1) text;
    history = h;
  }

  either-IsValid :
      (b : Bool) (x y : Editor)
      → (b ≡ true → IsValid buffer_size x)
      → (b ≡ false → IsValid buffer_size y)
      → IsValid buffer_size (if b then x else y)
  either-IsValid true x y f g = f refl
  either-IsValid false x y f g = g refl

  module _ (editor : Editor) (valid : IsValid buffer_size editor) where
    delete_at-IsValid : IsValid buffer_size (delete_at_cursor editor)
    unfolding delete_at_cursor length
    delete_at-IsValid =
        either-IsValid _ _ editor
          (λ inside. replace-IsValid [] 1 editor valid (omega (arith, valid.fits)))
          (λ outside. valid)

    delete_before-IsValid : IsValid buffer_size (delete_before_cursor editor)
    unfolding delete_before_cursor length
    delete_before-IsValid =
        either-IsValid _ _ editor
          (λ inside.
            replace-IsValid [] 1 (move_cursor (editor.cursor_position - 1) editor)
              (move-IsValid (editor.cursor_position - 1) editor valid (omega (arith, valid.cursor)))
              (omega (arith, valid.fits)))
          (λ outside. valid)

    type-IsValid : (key : ℕ) → IsValid buffer_size (type_character buffer_size key editor)
    unfolding type_character length
    type-IsValid key =
        either-IsValid ((leb 32 key && ltb key 127) && ltb (length editor.line) (buffer_size - 1)) _
          editor (λ room. replace-IsValid (key ∷ []) 0 editor valid (ground arith)) (λ none. valid)

    insert-IsValid : (text : Text) → IsValid buffer_size (insert_text buffer_size text editor)
    unfolding insert_text
    insert-IsValid text =
        replace-IsValid (take (buffer_size - 1 - length editor.line) text) 0 editor valid
          (omega (arith, valid.fits, length-take_below (buffer_size - 1 - length editor.line) text))

    save-IsValid : IsValid buffer_size (save_line editor)
    save-IsValid =
        either-IsValid editor.is_navigating_history editor _ (λ e. valid)
          (λ e. record { cursor = valid.cursor; fits = valid.fits; history = valid.history })

    show_entry-IsValid :
        (r : Option Text × History)
        → InBounds r.1
        → IsValid buffer_size (show_entry buffer_size editor r)
    show_entry-IsValid (none, h) b = record {
      cursor = valid.cursor;
      fits = valid.fits;
      history = b;
    }
    show_entry-IsValid (some entry, h) b = set_line-IsValid entry (record editor { history = h }) b

    left_history :
        (h : History) → InBounds h → IsValid buffer_size (leave_history buffer_size editor h)
    left_history h b =
        set_line-IsValid editor.saved_line
          (record editor { history = h; is_navigating_history = false }) b

    show_later-IsValid :
        (r : Option Text × History)
        → InBounds r.1
        → IsValid buffer_size (show_later buffer_size editor r)
    show_later-IsValid (none, h) b = left_history h b
    show_later-IsValid (some [], h) b = left_history h b
    show_later-IsValid (some (c ∷ s), h) b =
        set_line-IsValid (c ∷ s) (record editor { history = h }) b

    down-IsValid : IsValid buffer_size (go_down buffer_size editor)
    unfolding go_down
    down-IsValid =
        either-IsValid editor.is_navigating_history _ editor
          (λ e.
            show_later-IsValid (browse_down editor.history)
              (steps-InBounds editor.history [] valid.history).2)
          (λ e. valid)

  up-IsValid :
      (editor : Editor)
      → IsValid buffer_size editor
      → IsValid buffer_size (go_up buffer_size editor)
  unfolding go_up
  up-IsValid editor valid =
      let saved = save-IsValid editor valid in
      show_entry-IsValid (save_line editor) saved (browse_up (save_line editor).history)
        (steps-InBounds (save_line editor).history [] saved.history).1

  reset-InBounds : (h : History) → InBounds h → InBounds (reset_browse h)
  reset-InBounds h b = record { few = b.few; inside = omega arith }

  end_of_input-IsValid :
      5 ≤ buffer_size
      → (editor : Editor) → IsValid buffer_size editor
      → IsValidRound buffer_size (end_of_input editor)
  unfolding end_of_input
  end_of_input-IsValid room editor valid = elim (Bool-cases (length editor.line == 0)) [
    | inl empty ↦ rw empty (unfold length in omega arith, valid.history)
    | inr full ↦ rw full (delete_at-IsValid editor valid)
  ]

  press-IsValid :
      5 ≤ buffer_size
      → (key : Key) (editor : Editor) → IsValid buffer_size editor
      → IsValidRound buffer_size (press buffer_size key editor)
  unfolding press
  press-IsValid room enter editor valid = (valid.fits, reset-InBounds editor.history valid.history)
  press-IsValid room ctrl_c editor valid =
      (unfold length in omega arith, reset-InBounds editor.history valid.history)
  press-IsValid room ctrl_d editor valid = end_of_input-IsValid room editor valid
  press-IsValid room backspace editor valid = delete_before-IsValid editor valid
  press-IsValid room delete editor valid = delete_at-IsValid editor valid
  press-IsValid room left editor valid =
      move-IsValid (editor.cursor_position - 1) editor valid (omega (arith, valid.cursor))
  press-IsValid room right editor valid =
      either-IsValid _ _ editor
        (λ inside. move-IsValid (editor.cursor_position + 1) editor valid (ground arith))
        (λ e. valid)
  press-IsValid room home editor valid = move-IsValid 0 editor valid (omega arith)
  press-IsValid room end editor valid = move-IsValid (length editor.line) editor valid (omega arith)
  press-IsValid room (paste text) editor valid = insert-IsValid editor valid text
  press-IsValid room up editor valid = up-IsValid editor valid
  press-IsValid room down editor valid = down-IsValid editor valid
  press-IsValid room escape editor valid = valid
  press-IsValid room tab editor valid = valid
  press-IsValid room no_key editor valid = valid
  press-IsValid room (character key) editor valid = type-IsValid editor valid key

  -- Whatever keys are pressed, the line of cli_line_editor_read fits into a buffer of at least 5
  -- characters with its end mark, the cursor stays within the line or behind it, and the history
  -- stays within its bounds; the line that is returned fits as well.
  pub press_all-IsValid :
      5 ≤ buffer_size
      → (keys : List Key) (editor : Editor) → IsValid buffer_size editor
      → IsValidRound buffer_size (press_all buffer_size keys editor)
  unfolding press_all
  press_all-IsValid room [] editor valid = valid
  press_all-IsValid room (key ∷ keys) editor valid =
      after (press buffer_size key editor) (press-IsValid room key editor valid)
        (λ e v. press_all-IsValid room keys e v)
    where
      after :
          (round : Round)
          → IsValidRound buffer_size round
          → ((e : Editor)
              → IsValid buffer_size e
              → IsValidRound buffer_size (press_all buffer_size keys e))
          → IsValidRound buffer_size (and_then round (press_all buffer_size keys))
      after (goes_on e) v rest = rest e v
      after (returns accepted line history) v rest = v
