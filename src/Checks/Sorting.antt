-- ===== src/Checks/Sorting.antt =====
-- A standard library whose sort is by insertion and whose search goes from the front.
use simple_file_system.Base.{
  ◌≡◌, refl, ◌∙◌, inl, inr, true, false, Option, none, some, List, [], ◌∷◌, arith, if◌then◌else◌,
  Bool-cases,
}
use mathlib.Core.Path.{subst}
use mathlib.Core.List.{Permᴰ}
use simple_file_system.Base.Text.{Text, same, before}
use simple_file_system.Dir.{Dentry, find_name, named, Stdlib, IsSorted, IsMatch, IsStdlib}
use simple_file_system.Dir.Names.{find_name-skip}

abbrev insert : Dentry → List Dentry → List Dentry
insert e [] = e ∷ []
insert e (f ∷ es) = if before e.name f.name then e ∷ f ∷ es else f ∷ insert e es

abbrev sort : List Dentry → List Dentry
sort [] = []
sort (e ∷ es) = insert e (sort es)

abbrev search_for : Text → List Dentry → Option Dentry
search_for name [] = none
search_for name (e ∷ es) = if same e.name name then some e else search_for name es

abbrev pub simple : Stdlib
simple = record { has_memory = λ site. true; qsort = sort; bsearch = search_for }

Permᴰ-refl : (es : List Dentry) → Permᴰ es es
Permᴰ-refl [] = Permᴰ.nil
Permᴰ-refl (e ∷ es) = Permᴰ.cons refl (Permᴰ-refl es)

insert-perm : (e : Dentry) (es : List Dentry) → Permᴰ (e ∷ es) (insert e es)
insert-perm e [] = Permᴰ-refl (e ∷ [])
insert-perm e (f ∷ es) = elim (Bool-cases (before e.name f.name)) [
  | inl t ↦ rw (t) (Permᴰ-refl (e ∷ f ∷ es))
  | inr u ↦ rw (u) (Permᴰ.trans (Permᴰ.swap refl refl) (Permᴰ.cons refl (insert-perm e es)))
]

sort-perm : (es : List Dentry) → Permᴰ es (sort es)
sort-perm [] = Permᴰ.nil
sort-perm (e ∷ es) = Permᴰ.trans (Permᴰ.cons refl (sort-perm es)) (insert-perm e (sort es))

before-total : (s t : Text) → before s t ≡ false → before t s ≡ true
unfolding before
before-total [] t h = cc
before-total (a ∷ s) [] h = refl
before-total (a ∷ s) (b ∷ t) h = ground (arith, before-total s t)

insert-behind :
    (e f : Dentry) (es : List Dentry)
    → IsSorted (f ∷ es)
    → before f.name e.name ≡ true
    → IsSorted (insert e es)
    → IsSorted (f ∷ insert e es)
insert-behind e f [] s b i = (b, tt)
insert-behind e f (g ∷ es) (c, s) b i = elim (Bool-cases (before e.name g.name)) [
  | inl t ↦ rw (t) (b, (t, s))
  | inr u ↦
      let q : insert e (g ∷ es) ≡ g ∷ insert e es = rw (u) refl in
      let i' : IsSorted (g ∷ insert e es) = subst IsSorted q i in rw (u) (c, i')
]

tail-IsSorted : (f : Dentry) (es : List Dentry) → IsSorted (f ∷ es) → IsSorted es
tail-IsSorted f [] s = tt
tail-IsSorted f (g ∷ es) (c, s) = s

insert-IsSorted : (e : Dentry) (es : List Dentry) → IsSorted es → IsSorted (insert e es)
insert-IsSorted e [] s = tt
insert-IsSorted e (f ∷ es) s = elim (Bool-cases (before e.name f.name)) [
  | inl t ↦ rw (t) (t, s)
  | inr u ↦ rw (u) (
      insert-behind e f es s (before-total e.name f.name u)
        (insert-IsSorted e es (tail-IsSorted f es s)))
]

sort-IsSorted : (es : List Dentry) → IsSorted (sort es)
sort-IsSorted [] = tt
sort-IsSorted (e ∷ es) = insert-IsSorted e (sort es) (sort-IsSorted es)

behind-IsMatch :
    (name : Text) (f : Dentry) (es : List Dentry) (r : Option Dentry)
    → named name f ≡ false
    → IsMatch name es r
    → IsMatch name (f ∷ es) r
behind-IsMatch name f es none u m = find_name-skip name f es u ∙ m
behind-IsMatch name f es (some e) u (q, l, p) =
    (q, (f ∷ l), Permᴰ.trans (Permᴰ.cons refl p) (Permᴰ.swap refl refl))

search_for-IsMatch : (name : Text) (es : List Dentry) → IsMatch name es (search_for name es)
unfolding find_name
search_for-IsMatch name [] = refl
search_for-IsMatch name (e ∷ es) = elim (Bool-cases (same e.name name)) [
  | inl t ↦ rw (t) (t, es, Permᴰ-refl (e ∷ es))
  | inr u ↦ rw (u) (behind-IsMatch name e es (search_for name es) u (search_for-IsMatch name es))
]

pub simple-IsStdlib : IsStdlib simple
simple-IsStdlib = record {
  qsort-IsSorted = sort-IsSorted;
  qsort-perm = sort-perm;
  bsearch-IsMatch = λ name es s. search_for-IsMatch name es;
}
