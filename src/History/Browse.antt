-- ===== src/History/Browse.antt =====
-- Adding to the history of cli/src/core/history.c and browsing in it.
use simple_file_system.Base.{
  ℕ, ◌+◌, ◌-◌, ◌<◌, ◌≤◌, ◌≡◌, refl, inl, inr, false, some, List, [], ◌∷◌, arith, Bool-cases, le→leb,
  lt→leb, ==-refl, ne→==,
}
use simple_file_system.History.{
  max_entries, max_length, History, take, make_room, repeats, add_entry, browse_up, browse_down,
}

-- The entries fit in the array and the place is one of them or the end.
pub record InBounds (history : History) : Type 0 where
  pub few : history.entry_count ≤ max_entries
  pub inside : history.browse_index ≤ history.entry_count

make_room-below : (h : History) → (make_room h).entry_count < max_entries
make_room-below h = ground arith

-- In a history within its bounds, adding a line, going up and going down all stay within the bounds.
pub steps-InBounds :
    (h : History) (line : List ℕ)
    → InBounds h
    → InBounds (add_entry line h) × InBounds (browse_up h).1 × InBounds (browse_down h).1
unfolding add_entry browse_up browse_down
steps-InBounds h line b = (
  added line,
  record { few = ground (arith, b.few, b.inside); inside = ground (arith, b.few, b.inside) },
  record { few = ground (arith, b.few, b.inside); inside = ground (arith, b.few, b.inside) },
)
  where
    added : (line : List ℕ) → InBounds (add_entry line h)
    added [] = b
    added (a ∷ line) = elim (Bool-cases (repeats (a ∷ line) h)) [
      | inl again ↦ rw again (record { few = b.few; inside = omega arith })
      | inr new ↦ rw new (record { few = omega (arith, make_room-below h); inside = omega arith })
    ]

-- After a line that is not empty and not that of the last entry is added, going up once gives it, cut
-- to 511 characters, and going down from there gives the empty line.
pub browse_up-add_entry :
    (h : History) (a : ℕ) (line : List ℕ)
    → repeats (a ∷ line) h ≡ false
    → let (found, up) = browse_up (add_entry (a ∷ line) h) in
      (found ≡ some (take (max_length - 1) (a ∷ line))) × ((browse_down up).0 ≡ some [])
unfolding add_entry browse_up browse_down
browse_up-add_entry h a line new =
    let n = (make_room h).entry_count in
    let e : n + 1 - 1 ≡ n = omega arith in
    let n_below : n < n + 1 = omega arith in
    rw (new, ne→== (n + 1) 0 (omega arith), e, ==-refl n)
      (
        refl,
        rw (ne→== (n + 1) 0 (omega arith), lt→leb _ _ n_below, le→leb (n + 1) (n + 1) (omega arith))
            refl,
      )
