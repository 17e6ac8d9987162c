-- ===== src/Checks/Lines.antt =====
-- The theorems on the history of command lines at a concrete history.
use simple_file_system.Base.{◌≡◌, ◌-◌, refl, [], ◌∷◌, some}
use simple_file_system.History.{
  History, take, max_length, same_line, add_entry, browse_up, browse_down,
}
use simple_file_system.History.Browse.{browse_up-add_entry}

abbrev one_line : History
one_line = record { entries = λ i. 104 ∷ 105 ∷ []; entry_count = 1; browse_index = 1 }

browse_up-add_entry_example :
    let (found, up) = browse_up (add_entry (97 ∷ []) one_line) in
    (found ≡ some (take (max_length - 1) (97 ∷ []))) × ((browse_down up).0 ≡ some [])
unfolding same_line
browse_up-add_entry_example = browse_up-add_entry one_line 97 [] refl
