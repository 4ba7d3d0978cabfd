-- ===== src/RealPath/Examples.antt =====
-- The theorem about normalize_path() of chapter_18/myrealpath.c at a path, and a path of "." alone.
use tlpi_solutions.Common.{ℕ, ◌≡◌, refl, List, [], ◌∷◌, arith, codes}
use tlpi_solutions.PathSplit.{slash}
use tlpi_solutions.RealPath.{or_root, tokens, normalize_path}
use tlpi_solutions.RealPath.Normal.{resolve, render, moves, normalize_path_lem}

abbrev rest : List ℕ
rest = codes "/./b/../c/"

normalize_path_lem_example :
    normalize_path (slash ∷ b'a' ∷ rest)
    ≡ or_root (render (resolve (tokens (slash ∷ b'a' ∷ rest)) []))
normalize_path_lem_example =
    normalize_path_lem b'a' rest (λ e. omega (arith, e)) (unfold moves tokens in refl)

resolved : normalize_path (codes "/a/./b/../c/") ≡ codes "/a/c"
unfolding normalize_path
resolved = refl

above_root : normalize_path (codes "/../..") ≡ codes "/"
unfolding normalize_path
above_root = refl

-- The part stays where nothing is written over it.
only_here : normalize_path (codes "/.") ≡ codes "/."
unfolding normalize_path
only_here = refl

two_slashes : normalize_path (codes "//../a") ≡ codes "//a"
unfolding normalize_path
two_slashes = refl
