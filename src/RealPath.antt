-- ===== src/RealPath.antt =====
-- chapter_18/myrealpath.c: normalize_path(), which takes "." and ".." out of a path, in place. What it
-- writes never gets ahead of what strtok_r() has read, so that the parts are those of the path.
pub mod Normal
mod Examples
use tlpi_solutions.Common.{
  ℕ, ◌+◌, Bool, true, false, Option, none, some, List, [], ◌∷◌, ◌++◌, ◌==◌, if◌then◌else◌, length,
  take, bytes_eq,
}
use tlpi_solutions.PathSplit.{slash, dot, last_slash}

abbrev pub here : List ℕ
here = dot ∷ []

abbrev pub up : List ℕ
up = dot ∷ dot ∷ []

abbrev pub with_part : List ℕ → List (List ℕ) → List (List ℕ)
with_part [] others = others
with_part (c ∷ cs) others = (c ∷ cs) ∷ others

-- The bytes in front of the first slash, and the parts behind it.
unfoldable pub parts : List ℕ → List ℕ × List (List ℕ)
parts [] = ([], [])
parts (c ∷ cs) =
    let (first, others) = parts cs in
    if c == slash then ([], with_part first others) else (c ∷ first, others)

-- What the calls of strtok_r() give.
unfoldable pub tokens : List ℕ → List (List ℕ)
unfolding parts
tokens path = let (first, others) = parts path in with_part first others

-- The string in `path` after the first call, which stores a NUL behind the first part.
unfoldable pub first_string : List ℕ → List ℕ
unfolding parts
first_string [] = []
first_string (c ∷ cs) =
    let rest = first_string cs in if c == slash then c ∷ rest else (parts (c ∷ cs)).0

-- The string in `path`, and where `curr_pos` points to.
pub record Buffer : Type 0 where
  pub path : List ℕ
  pub curr_pos : ℕ

-- Without the last part.
unfoldable pub move_up : Buffer → Buffer
unfolding last_slash
move_up b = elim (last_slash b.path) [
  | none ↦ b
  | some i ↦ record { path = take i b.path; curr_pos = i }
]

-- The body of the loop, for one part.
unfoldable pub add_part : List ℕ → Buffer → Buffer
unfolding move_up
add_part part b = if bytes_eq part here then b else if bytes_eq part up then move_up b else record {
  path = take b.curr_pos b.path ++ slash ∷ part;
  curr_pos = b.curr_pos + 1 + length part;
}

unfoldable pub add_parts : List (List ℕ) → Buffer → Buffer
unfolding add_part
add_parts [] b = b
add_parts (part ∷ others) b = add_parts others (add_part part b)

abbrev pub or_root : List ℕ → List ℕ
or_root [] = slash ∷ []
or_root (c ∷ cs) = c ∷ cs

abbrev pub normalized : List (List ℕ) → List ℕ → List ℕ
normalized [] first = slash ∷ []
normalized (part ∷ others) first =
    or_root (add_parts (part ∷ others) (record { path = first; curr_pos = 0 })).path

unfoldable pub normalize_path : List ℕ → List ℕ
unfolding tokens first_string add_parts
normalize_path path = normalized (tokens path) (first_string path)
