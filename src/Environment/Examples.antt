-- ===== src/Environment/Examples.antt =====
-- Runs of chapter_06/myenv.c.
use tlpi_solutions.Common.{
  ℕ, ◌≡◌, refl, true, some, List, [], ◌∷◌, ◌++◌, ◌&&◌, ◌||◌, if◌then◌else◌, bytes_eq,
}
use tlpi_solutions.Environment.{
  equals, has_equals, bad_name, getenv, is_none, done, Outcome, mysetenv,
}
use native.Mathlib.Omega.{arith}
use tlpi_solutions.Environment.Lookup.{IsName, getenv-mysetenv}

abbrev home : List ℕ
home = b'H' ∷ b'O' ∷ b'M' ∷ b'E' ∷ []

abbrev root : List ℕ
root = b'/' ∷ []

-- HOME=/, HO=M, HOME=
abbrev env : List (List ℕ)
env = (home ++ equals ∷ root) ∷ (b'H' ∷ b'O' ∷ equals ∷ b'M' ∷ []) ∷ (home ++ equals ∷ []) ∷ []

abbrev ho : List ℕ
ho = b'H' ∷ b'O' ∷ []

ho-IsName : IsName ho
unfolding bad_name has_equals
ho-IsName = refl

home-IsName : IsName home
unfolding bad_name has_equals
home-IsName = refl

getenv-mysetenv_example :
    (o : Outcome) × (mysetenv true true (some home) (b'x' ∷ []) true env ≡ some o)
    × (o.ret ≡ done)
    × (o.outside ≡ (if true || is_none (getenv home env) then 1 else 0))
    × (getenv ho o.environ ≡ (
        if (true || is_none (getenv home env)) && bytes_eq ho home
        then some (b'x' ∷ [])
        else getenv ho env))
getenv-mysetenv_example =
    getenv-mysetenv home (b'x' ∷ []) ho true env home-IsName ho-IsName (omega arith)
