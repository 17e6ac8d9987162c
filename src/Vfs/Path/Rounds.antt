-- ===== src/Vfs/Path/Rounds.antt =====
-- src/vfs/path.c: the loops along a path take at least a character in each round, so as many rounds as the
-- path has characters are enough.
use simple_file_system.Base.{
  ℕ, zero, suc, ◌-◌, ◌<◌, ◌≤◌, ◌≡◌, refl, sym, ap, ◌∙◌, fun_ext, inl, inr, Bool, true, false, [],
  ◌∷◌, arith, ◌==◌, if◌then◌else◌, Bool-cases, Exec, ok,
}
use simple_file_system.Base.Text.{Text, length, same, take, drop}
use simple_file_system.Config.{max_filename_length}
use simple_file_system.Base.Gives.{Gives, Gives-pure, Gives-rest}
use simple_file_system.Platform.{Stdio}
use simple_file_system.Index.{type_symlink}
use simple_file_system.Dir.{Stdlib, dot, dot_dot}
use simple_file_system.Dir.Table.{find_entry}
use simple_file_system.Vfs.{Context, get_inode, on_directories}
use simple_file_system.Vfs.Path.{
  slash, component_length, add_component, and_then, relative_loop, Walk, arrived, linked,
  out_of_rounds, follow_target, read_link, at_target, enter, walk,
}

-- The branch that is taken.
else-branch : {A : Type 0} (b : Bool) (x y : A) → b ≡ false → (if b then x else y) ≡ y
else-branch b x y f = rw (f) refl

length-drop : (n : ℕ) (s : Text) → length (drop n s) ≡ length s - n
unfolding length drop
length-drop zero s = omega arith
length-drop (suc n) [] = omega arith
length-drop (suc n) (c ∷ s) = length-drop n s ∙ omega arith

-- A component that is no slash has a character.
component_length-positive :
    (bound c : ℕ) (s : Text) → (c == slash) ≡ false → 0 < component_length (suc bound) (c ∷ s)
unfolding component_length
component_length-positive bound c s f = rw (f) (omega arith)

-- What is left behind it is shorter.
drop-shorter :
    (bound c : ℕ) (s : Text) (m : ℕ)
    → (c == slash) ≡ false
    → length (c ∷ s) ≤ suc m
    → length (drop (component_length (suc bound) (c ∷ s)) (c ∷ s)) ≤ m
unfolding length
drop-shorter bound c s m f h = omega (
  arith,
  component_length-positive bound c s f,
  length-drop (component_length (suc bound) (c ∷ s)) (c ∷ s),
)

-- With as many rounds as the path has characters or more, the loop of vfs_resolve_relative_components
-- returns the same.
pub relative_loop-rounds :
    (m n : ℕ) (path written : Text)
    → length path ≤ m
    → length path ≤ n
    → relative_loop m path written ≡ relative_loop n path written
unfolding relative_loop length
relative_loop-rounds zero zero path w h g = refl
relative_loop-rounds zero (suc n) [] w h g = refl
relative_loop-rounds (suc m) zero [] w h g = refl
relative_loop-rounds (suc m) (suc n) [] w h g = refl
relative_loop-rounds zero (suc n) (c ∷ s) w h g = absurd (omega arith)
relative_loop-rounds (suc m) zero (c ∷ s) w h g = absurd (omega arith)
relative_loop-rounds (suc m) (suc n) (c ∷ s) w h g =
    let k = component_length (length (c ∷ s)) (c ∷ s) in
    elim (Bool-cases (c == slash)) [
      | inl t ↦ rw (t) (relative_loop-rounds m n s (slash ∷ w) (omega arith) (omega arith))
      | inr f ↦
          let after : (u : Text)
              → relative_loop m (drop k (c ∷ s)) u ≡ relative_loop n (drop k (c ∷ s)) u =
            λ u.
              relative_loop-rounds m n (drop k (c ∷ s)) u (drop-shorter (length s) c s m f h)
                (drop-shorter (length s) c s n f g) in
          else-branch (c == slash) _ _ f
          ∙ ap (λ r. and_then (add_component (take k (c ∷ s)) w) r) (fun_ext after)
          ∙ sym (else-branch (c == slash) _ _ f)
    ]

-- A walk has come to its end.
abbrev pub IsFinished : Walk → Type 0
IsFinished (arrived id) = Unit {0}
IsFinished (linked target id) = Unit {0}
IsFinished out_of_rounds = ⊥

follow_target-IsFinished :
    (root current : ℕ) (target : Text) → IsFinished (follow_target root current target)
unfolding follow_target
follow_target-IsFinished root current [] = tt
follow_target-IsFinished root current (c ∷ s) = elim (Bool-cases (c == slash)) [
  | inl t ↦ rw t tt
  | inr f ↦ rw f tt
]

module _ (io : Stdio) (lib : Stdlib) where
  walk-same :
      (m n : ℕ) (path_cursor : Text) (current_inode_id : ℕ)
      → length path_cursor ≤ m
      → length path_cursor ≤ n
      → walk io lib m path_cursor current_inode_id ≡ walk io lib n path_cursor current_inode_id
  unfolding walk length
  walk-same zero zero [] a h g = refl
  walk-same zero zero (c ∷ s) a h g = refl
  walk-same zero (suc n) [] a h g = refl
  walk-same (suc m) zero [] a h g = refl
  walk-same (suc m) (suc n) [] a h g = refl
  walk-same zero (suc n) (c ∷ s) a h g = absurd (omega arith)
  walk-same (suc m) zero (c ∷ s) a h g = absurd (omega arith)
  walk-same (suc m) (suc n) (c ∷ s) a h g =
      let k = component_length max_filename_length (c ∷ s) in
      elim (Bool-cases (c == slash)) [
        | inl t ↦ rw (t) (walk-same m n s a (omega arith) (omega arith))
        | inr f ↦
            let rest : (id : ℕ)
                → walk io lib m (drop k (c ∷ s)) id ≡ walk io lib n (drop k (c ∷ s)) id =
              λ id.
                walk-same m n (drop k (c ∷ s)) id (drop-shorter 254 c s m f h)
                  (drop-shorter 254 c s n f g) in
            else-branch (c == slash) _ _ f
            ∙ ap (λ r. enter io lib (take k (c ∷ s)) a r) (fun_ext rest)
            ∙ sym (else-branch (c == slash) _ _ f)
      ]

  -- What a step gives that ends the walk, if it returns.
  abbrev Ends : Exec (Context io) Walk → Type 0
  Ends m = Gives (λ v. Unit {0}) m (λ r v. IsFinished r)

  Ends-if : (b : Bool) (m n : Exec (Context io) Walk) → Ends m → Ends n → Ends (if b then m else n)
  Ends-if true m n p q = p
  Ends-if false m n p q = q

  Ends-cases :
      (b : Bool) (m n : Exec (Context io) Walk)
      → (b ≡ true → Ends m)
      → (b ≡ false → Ends n)
      → Ends (if b then m else n)
  Ends-cases true m n p q = p refl
  Ends-cases false m n p q = q refl

  at_target-Ends : (current : ℕ) (target : Text) → Ends (at_target io lib current target)
  unfolding at_target
  at_target-Ends current target = record {
    at = λ v u r e.
        let same : follow_target v.root_inode_id current target ≡ r = cc in
        rw (← same) (follow_target-IsFinished v.root_inode_id current target);
  }

  enter-Ends :
      (component : Text) (current : ℕ) (next : ℕ → Exec (Context io) Walk)
      → ((id : ℕ) → Ends (next id))
      → Ends (enter io lib component current next)
  unfolding enter
  enter-Ends component current next k = Ends-if (same component dot) _ _ (k current) (
      Ends-if (same component dot_dot) _ _
        (Gives-rest (on_directories io (find_entry io lib current dot_dot)) k)
        (Gives-rest (on_directories io (find_entry io lib current component)) (λ id.
          Gives-rest (get_inode io id) (λ inode.
            Ends-if (inode.type == type_symlink) _ _
              (Gives-rest (read_link io lib inode) (λ target. at_target-Ends current target))
              (k id)))))

  walk-Ends :
      (rounds : ℕ) (path : Text) (id : ℕ) → length path ≤ rounds → Ends (walk io lib rounds path id)
  unfolding walk length
  walk-Ends zero [] id h = Gives-pure (arrived id) (λ v u. tt)
  walk-Ends (suc rounds) [] id h = Gives-pure (arrived id) (λ v u. tt)
  walk-Ends zero (c ∷ s) id h = absurd (omega arith)
  walk-Ends (suc rounds) (c ∷ s) id h =
      let k = component_length max_filename_length (c ∷ s) in
      Ends-cases (c == slash) _ _ (λ t. walk-Ends rounds s id (omega arith))
        (λ f.
          enter-Ends (take k (c ∷ s)) id (λ next. walk io lib rounds (drop k (c ∷ s)) next)
            (λ next. walk-Ends rounds (drop k (c ∷ s)) next (drop-shorter 254 c s rounds f h)))

  -- With as many rounds as the rest of the path has characters or more, the loop of vfs_resolve_path
  -- never runs out of them: what it returns, when it succeeds, is an inode or a symbolic link, and it
  -- does the same with any other number of rounds that is as large.
  pub walk-rounds :
      (m n : ℕ) (path_cursor : Text) (current_inode_id : ℕ)
      → length path_cursor ≤ m
      → length path_cursor ≤ n
      → ((v : Context io) (r : Walk)
          → (walk io lib m path_cursor current_inode_id v).0 ≡ ok r
          → IsFinished r)
        × (walk io lib m path_cursor current_inode_id ≡ walk io lib n path_cursor current_inode_id)
  walk-rounds m n path a h g =
      (λ v r e. (walk-Ends m path a h).at v tt r e, walk-same m n path a h g)
