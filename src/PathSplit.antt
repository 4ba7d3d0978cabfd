-- ===== src/PathSplit.antt =====
-- chapter_31/threadsafe_dirname.c, threadsafe_basename.c: dirname() and basename(). A string is the
-- list of its bytes in front of the NUL, so that a NUL stored at a place leaves what is in front of it.
-- The buffer of a thread is no one else's, and what it held before is not read.
pub mod Strings
pub mod Split
pub mod Posix
mod Examples
use tlpi_solutions.Common.{
  ℕ, zero, suc, ◌-◌, Bool, true, false, Option, none, some, List, [], ◌∷◌, ◌==◌, ltb, ◌&&◌,
  if◌then◌else◌, length, take, drop,
}

abbrev pub buf_size : ℕ
buf_size = 4096

abbrev pub slash : ℕ
slash = b'/'

abbrev pub dot : ℕ
dot = b'.'

-- buf[i], where the byte behind the string is its NUL.
unfoldable pub at : List ℕ → ℕ → ℕ
at [] i = 0
at (c ∷ cs) zero = c
at (c ∷ cs) (suc i) = at cs i

-- strrchr(buf, '/')
unfoldable pub last_slash : List ℕ → Option ℕ
last_slash [] = none
last_slash (c ∷ cs) = elim (last_slash cs) [
  | none ↦ if c == slash then some 0 else none
  | some i ↦ some (suc i)
]

-- The loop that removes slashes at the end, from the length `len` on.
unfoldable pub remove_slashes : List ℕ → (len : ℕ) → List ℕ
unfolding at
remove_slashes buf zero = buf
remove_slashes buf (suc len) =
    let shorter = remove_slashes (take len buf) len in
    if ltb 1 (suc len) && at buf len == slash then shorter else buf

-- The copy of the path, without slashes at the end.
unfoldable pub trimmed : List ℕ → List ℕ
unfolding remove_slashes
trimmed path = let buf = take (buf_size - 1) path in remove_slashes buf (length buf)

-- The loop that goes back over slashes, from the place of the last one: the buffer, and the place.
unfoldable pub skip_back : List ℕ → (slash : ℕ) → List ℕ × ℕ
unfolding at
skip_back buf zero = (buf, zero)
skip_back buf (suc i) =
    let rest = skip_back (take (suc i) buf) i in
    if at buf (suc i) == slash then rest else (buf, suc i)

-- dirname() behind the loop.
unfoldable pub cut_name : List ℕ → ℕ → List ℕ
unfolding at
cut_name buf i =
    let dir = take (suc i) buf in
    if i == 0 && at buf i == slash then take 1 buf else if at dir 0 == 0 then dot ∷ [] else dir

-- dirname() of the buffer without slashes at its end.
unfoldable pub dirname_of : List ℕ → List ℕ
unfolding last_slash skip_back cut_name
dirname_of buf = elim (last_slash buf) [
  | none ↦ dot ∷ []
  | some i ↦ let (dir, place) = skip_back buf i in cut_name dir place
]

-- `none` is NULL.
unfoldable pub dirname : Option (List ℕ) → List ℕ
unfolding trimmed dirname_of
dirname none = dot ∷ []
dirname (some []) = dot ∷ []
dirname (some (c ∷ cs)) = dirname_of (trimmed (c ∷ cs))

-- basename() of the buffer without slashes at its end.
unfoldable pub basename_of : List ℕ → List ℕ
unfolding last_slash at
basename_of buf = elim (last_slash buf) [
  | none ↦ buf
  | some i ↦ if i == 0 && at buf 1 == 0 then slash ∷ [] else drop (suc i) buf
]

unfoldable pub basename : Option (List ℕ) → List ℕ
unfolding trimmed basename_of
basename none = dot ∷ []
basename (some []) = dot ∷ []
basename (some (c ∷ cs)) = basename_of (trimmed (c ∷ cs))
