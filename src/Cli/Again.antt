-- ===== src/Cli/Again.antt =====
-- cli_utils_normalize_fs_path of cli/src/utils.c on paths that it has made.
use simple_file_system.Base.{
  ℕ, zero, suc, ◌+◌, ◌-◌, ◌<◌, ◌≤◌, ◌≡◌, refl, ap, ◌∙◌, false, List, [], ◌∷◌, ◌++◌, arith, ◌==◌,
  lt→ltb,
}
use mathlib.Core.List.{append_assoc, append-nil}
use simple_file_system.Base.Text.{Text, length, take, contains}
use simple_file_system.Config.{max_filename_length}
use simple_file_system.Vfs.Path.{slash, max_path_length}
use simple_file_system.Cli.Paths.{
  skip_slashes, split_component, add_name, component_at, collect, print, print_or_root,
  normalize_fs_path,
}
use simple_file_system.Cli.Normal.{
  IsName, AreNames, length-append, length-take, take_whole, collect-AreNames, collect-le,
}

-- The text of components, the last of which stands first.
unfoldable pub spell : List Text → Text
spell [] = []
spell (name ∷ names) = spell names ++ (slash ∷ name)

-- The text of components, the first of which stands first.
unfoldable pub spell_forward : List Text → Text
spell_forward [] = []
spell_forward (name ∷ names) = slash ∷ (name ++ spell_forward names)

unfoldable pub rev_onto : List Text → List Text → List Text
rev_onto [] names = names
rev_onto (name ∷ rest) names = rev_onto rest (name ∷ names)

print-le : (size : ℕ) (names : List Text) → 1 ≤ size → length (print size names) ≤ size - 1
unfolding print length
print-le size [] h = omega arith
print-le size (name ∷ names) h = ground (
  arith,
  print-le size names h,
  length-append (print size names) (take (size - length (print size names) - 1) (slash ∷ name)),
  length-take (size - length (print size names) - 1) (slash ∷ name),
)

-- A path that does not fill the buffer is printed whole.
print-spell :
    (size : ℕ) (names : List Text)
    → length (print size names) < size - 1
    → print size names ≡ spell names
unfolding print spell
print-spell size [] h = refl
print-spell size (name ∷ names) h =
    let w : Text = print size names in
    let k : ℕ = size - length w - 1 in
    let total = length-append w (take k (slash ∷ name)) in
    let part = length-take k (slash ∷ name) in
    let inner : print size names ≡ spell names = print-spell size names (omega (arith, total)) in
    let whole : take k (slash ∷ name) ≡ slash ∷ name = take_whole k (slash ∷ name) (ground arith) in
    rw (whole, inner)

split_component-name :
    (name : Text) (names : List Text)
    → contains slash name ≡ false
    → split_component (name ++ spell_forward names) ≡ (name, spell_forward names)
unfolding split_component contains spell_forward
split_component-name [] [] h = refl
split_component-name [] (n ∷ names) h = refl
split_component-name (c ∷ s) names h =
    let here : (c == slash) ≡ false = ground arith in
    let later : contains slash s ≡ false = ground arith in
    rw (here, split_component-name s names later)

skip_slashes-name :
    (name rest : Text)
    → 0 < length name
    → contains slash name ≡ false
    → skip_slashes (slash ∷ (name ++ rest)) ≡ name ++ rest
unfolding skip_slashes contains length
skip_slashes-name [] rest a h = absurd (omega arith)
skip_slashes-name (c ∷ s) rest a h = let here : (c == slash) ≡ false = ground arith in rw here

add_name-IsName :
    (name : Text) (names : List Text)
    → IsName name
    → length names < 64
    → add_name name names ≡ name ∷ names
unfolding add_name
add_name-IsName name names is h = rw (is.not_dot, is.not_dot_dot, lt→ltb _ _ h)

component_at-name :
    (rest : Text → List Text → List Text) (name : Text) (behind names : List Text)
    → IsName name
    → length names < 64
    → component_at rest (name ++ spell_forward behind) names
      ≡ rest (spell_forward behind) (name ∷ names)
unfolding component_at length
component_at-name rest [] behind names is h = absurd (omega (arith, is.some_characters))
component_at-name rest (c ∷ s) behind names is h = rw (
  split_component-name (c ∷ s) behind is.no_slash,
  take_whole max_filename_length (c ∷ s) is.is_short,
  add_name-IsName (c ∷ s) names is h,
)

collect-spell_forward :
    (rounds : ℕ) (texts names : List Text)
    → AreNames texts
    → length texts ≤ rounds
    → length names + length texts ≤ 64
    → collect rounds (spell_forward texts) names ≡ rev_onto texts names
unfolding collect AreNames rev_onto spell_forward length
collect-spell_forward zero [] names are enough room = refl
collect-spell_forward (suc rounds) [] names are enough room =
    unfold skip_slashes component_at in refl
collect-spell_forward zero (t ∷ ts) names are enough room = absurd (omega arith)
collect-spell_forward (suc rounds) (t ∷ ts) names (is, are) enough room = rw (
  skip_slashes-name t (spell_forward ts) is.some_characters is.no_slash,
  component_at-name (collect rounds) t ts names is (omega arith),
  collect-spell_forward rounds ts (t ∷ names) are (omega arith) (omega arith),
)

-- The components of a path that begins with the spelling of `names`.
collect-spell :
    (rounds : ℕ) (names behind : List Text)
    → AreNames names
    → AreNames behind
    → length names + length behind ≤ rounds
    → length names + length behind ≤ 64
    → collect rounds (spell names ++ spell_forward behind) [] ≡ rev_onto behind names
unfolding spell AreNames length
collect-spell rounds [] behind are more enough room =
    collect-spell_forward rounds behind [] more (omega arith) (omega arith)
collect-spell rounds (n ∷ ns) behind (is, are) more enough room =
    let q : (spell ns ++ (slash ∷ n)) ++ spell_forward behind
        ≡ spell ns ++ spell_forward (n ∷ behind) =
      append_assoc (spell ns) (slash ∷ n) (spell_forward behind) ∙ unfold spell_forward in refl in
    rw q (
      collect-spell rounds ns (n ∷ behind) are (is, more) (omega arith) (omega arith)
      ∙ unfold rev_onto in refl)

spell-le : (names : List Text) → length names ≤ length (spell names)
unfolding spell length
spell-le [] = omega arith
spell-le (n ∷ ns) = omega (arith, spell-le ns, length-append (spell ns) (slash ∷ n))

normalize-spell :
    (size : ℕ) (names : List Text)
    → AreNames names
    → length names ≤ 64
    → length (spell names) ≤ 1023
    → normalize_fs_path (spell names) size ≡ print_or_root size names
unfolding normalize_fs_path
normalize-spell size names are few short =
    let q : spell names ++ spell_forward [] ≡ spell names =
      unfold spell_forward in append-nil (spell names) in
    rw (take_whole 1023 (spell names) short) (
      ap (print_or_root size) (
        rw q at (
          collect-spell (length (spell names)) names [] are (unfold AreNames in tt)
            (unfold length in omega (arith, spell-le names)) (unfold length in omega arith))
        ∙ unfold rev_onto in refl))

root_again : (size : ℕ) → normalize_fs_path (slash ∷ []) size ≡ print_or_root size []
unfolding normalize_fs_path take length collect skip_slashes component_at
root_again size = refl

again_root :
    (size : ℕ) → 1 < size → normalize_fs_path (print_or_root size []) size ≡ print_or_root size []
again_root size h =
    let whole : print_or_root size [] ≡ slash ∷ [] =
      unfold print_or_root in take_whole (size - 1) (slash ∷ []) (unfold length in omega arith) in
    ap (λ (p : Text). normalize_fs_path p size) whole ∙ root_again size

again_names :
    (size : ℕ) (names : List Text)
    → AreNames names
    → length names ≤ 64
    → size ≤ 1024
    → length (print_or_root size names) < size - 1
    → normalize_fs_path (print_or_root size names) size ≡ print_or_root size names
again_names size [] are few h short = again_root size (omega arith)
again_names size (n ∷ ns) are few h short =
    let q : print_or_root size (n ∷ ns) ≡ spell (n ∷ ns) =
      unfold print_or_root in print-spell size (n ∷ ns) short in
    let short_spelling : length (spell (n ∷ ns)) < size - 1 = rw q at short in
    ap (λ (p : Text). normalize_fs_path p size) q
    ∙ normalize-spell size (n ∷ ns) are few (omega arith)

-- Where the result of cli_utils_normalize_fs_path does not fill a buffer of at most 1024 characters,
-- normalizing it again changes nothing.
pub normalize_fs_path-again :
    (path : Text) (size : ℕ)
    → size ≤ 1024
    → length (normalize_fs_path path size) < size - 1
    → normalize_fs_path (normalize_fs_path path size) size ≡ normalize_fs_path path size
unfolding normalize_fs_path
normalize_fs_path-again path size h short =
    let input : Text = take (max_path_length - 1) path in
    again_names size (collect (length input) input [])
      (collect-AreNames (length input) input [] (unfold AreNames in tt))
      (collect-le (length input) input [] (unfold length in omega arith)) h short
