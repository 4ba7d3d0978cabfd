-- ===== src/PosixSem/Name.antt =====
-- The names of semaphores in chapter_53/posix_sem.c.
use tlpi_solutions.Common.{
  ℕ, Bool, Option, none, some, List, [], ◌∷◌, ◌++◌, ◌==◌, leb, if◌then◌else◌, length, take,
}
use tlpi_solutions.PosixSem.{einval, enametoolong, Result, ok, err, name_max}

abbrev pub slash : ℕ
slash = b'/'

-- What the file system does: whether open() with O_CREAT and O_EXCL succeeds or finds the file,
-- and ftok().
pub record Files : Type 0 where
  pub opens : List ℕ → Bool
  pub ftok : List ℕ → ℕ → ℕ

abbrev pub prefix : List ℕ
prefix =
    b'/' ∷ b't' ∷ b'm' ∷ b'p' ∷ b'/' ∷ b'p' ∷ b'o' ∷ b's' ∷ b'i' ∷ b'x' ∷ b'_' ∷ b's' ∷ b'e' ∷ b'm'
    ∷ b'_' ∷ []

abbrev pub tmp : List ℕ
tmp = b'/' ∷ b't' ∷ b'm' ∷ b'p' ∷ []

-- name[0] ? name[0] : 'P'
unfoldable pub project : List ℕ → ℕ
project [] = b'P'
project (c ∷ cs) = c

unfoldable pub name_to_key : Files → List ℕ → ℕ
unfolding project
name_to_key files name =
    let pathname = take 255 (prefix ++ name) in
    files.ftok (if files.opens pathname then pathname else tmp) (project name)

-- The checks of sem_open() and sem_unlink(), which give the name behind its slash. `none` is NULL.
unfoldable pub check_name : Option (List ℕ) → Result (List ℕ)
check_name none = err einval
check_name (some []) = err einval
check_name (some (c ∷ name)) =
    if c == slash
    then (if leb name_max (length name) then err enametoolong else ok name)
    else err einval
