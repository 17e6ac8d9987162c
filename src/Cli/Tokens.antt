-- ===== src/Cli/Tokens.antt =====
-- cli_utils_tokenize_line of cli/src/utils.c: the words of a command line.
use simple_file_system.Base.{
  ℕ, zero, suc, ◌≤◌, ◌≡◌, refl, Bool, false, ◌||◌, List, [], ◌∷◌, ◌++◌, arith, ◌==◌, if◌then◌else◌,
  max,
}
use simple_file_system.Base.Text.{Text, length, contains}

-- `' '`, `'\t'` and `'"'`
abbrev pub space : ℕ
space = 32

abbrev pub tab : ℕ
tab = 9

abbrev pub quote : ℕ
quote = 34

abbrev pub is_blank : ℕ → Bool
is_blank c = c == space || c == tab

abbrev pub is_quote : ℕ → Bool
is_quote c = c == quote

unfoldable pub skip_blanks : Text → Text
skip_blanks [] = []
skip_blanks (c ∷ s) = let rest = skip_blanks s in if is_blank c then rest else c ∷ s

-- The characters before the first one that ends a token, and what stands behind that one.
unfoldable pub split_at : (ℕ → Bool) → Text → Text × Text
split_at stops [] = ([], [])
split_at stops (c ∷ s) =
    let (token, rest) = split_at stops s in if stops c then ([], s) else (c ∷ token, rest)

-- A token at the front of a line without blanks before it, and the tokens that follow.
unfoldable pub token_at : (rest : Text → List Text) → Text → List Text
token_at rest [] = []
token_at rest (c ∷ s) =
    let (quoted, behind_quoted) = split_at is_quote s in
    let (word, behind_word) = split_at is_blank (c ∷ s) in
    if c == quote then quoted ∷ rest behind_quoted else word ∷ rest behind_word

-- The loop of cli_utils_tokenize_line; a round that does not end it takes one of the tokens left.
unfoldable pub tokens : (max_tokens : ℕ) → Text → List Text
tokens zero line = []
tokens (suc tokens_left) line = token_at (tokens tokens_left) (skip_blanks line)

-- cli_utils_tokenize_line
abbrev pub tokenize_line : Text → ℕ → List Text
tokenize_line line max_tokens = tokens max_tokens line

-- A line with each of the tokens in quotation marks.
unfoldable pub quoted_line : List Text → Text
quoted_line [] = []
quoted_line (token ∷ rest) = quote ∷ (token ++ (quote ∷ space ∷ quoted_line rest))

-- No token has a quotation mark in it.
unfoldable pub ArePlain : List Text → Type 0
ArePlain [] = Unit {0}
ArePlain (token ∷ rest) = (contains quote token ≡ false) × ArePlain rest

split_at-quote :
    (token rest : Text)
    → contains quote token ≡ false
    → split_at is_quote (token ++ (quote ∷ rest)) ≡ (token, rest)
unfolding split_at contains
split_at-quote [] rest h = refl
split_at-quote (c ∷ s) rest h =
    let here : (c == quote) ≡ false = ground arith in
    let later : contains quote s ≡ false = ground arith in rw (here, split_at-quote s rest later)

-- A blank before the tokens makes no difference.
tokens-space :
    (max_tokens : ℕ) (line : Text) → tokens max_tokens (space ∷ line) ≡ tokens max_tokens line
unfolding tokens skip_blanks
tokens-space zero line = refl
tokens-space (suc max) line = refl

-- cli_utils_tokenize_line finds the tokens of a line in which each stands between quotation marks and
-- none has such a mark in it, blanks and empty tokens too, if there are no more than it may find.
pub tokenize_line-quoted_line :
    (texts : List Text) (max_tokens : ℕ)
    → ArePlain texts
    → length texts ≤ max_tokens
    → tokenize_line (quoted_line texts) max_tokens ≡ texts
unfolding tokens token_at skip_blanks quoted_line ArePlain length
tokenize_line-quoted_line [] zero plain h = refl
tokenize_line-quoted_line [] (suc max) plain h = refl
tokenize_line-quoted_line (t ∷ ts) zero plain h = absurd (omega arith)
tokenize_line-quoted_line (t ∷ ts) (suc max) (here, rest) h = rw (
  split_at-quote t (space ∷ quoted_line ts) here,
  tokens-space max (quoted_line ts),
  tokenize_line-quoted_line ts max rest (omega arith),
)
