-- ===== src/PathSplit/Examples.antt =====
-- The theorem about chapter_31/threadsafe_dirname.c and threadsafe_basename.c at a path, and the paths
-- that the programs test.
use tlpi_solutions.Common.{ℕ, ◌≡◌, refl, some, List, arith, codes, IsString}
use tlpi_solutions.PathSplit.{dirname, basename}
use tlpi_solutions.PathSplit.Posix.{Splits, dirname_basename}

abbrev path : List ℕ
path = codes "/u//b/"

path-IsString : IsString path
path-IsString = (
  (λ e. omega (arith, e)),
  (
    (λ e. omega (arith, e)),
    (
      (λ e. omega (arith, e)),
      ((λ e. omega (arith, e)), ((λ e. omega (arith, e)), ((λ e. omega (arith, e)), tt))),
    ),
  ),
)

dirname_basename_example : Splits path (dirname (some path)) (basename (some path))
dirname_basename_example = dirname_basename path path-IsString (omega arith) (omega arith)

split : (dirname (some path) ≡ codes "/u") × (basename (some path) ≡ codes "b")
unfolding dirname basename
split = (refl, refl)

dirname_asserts :
    (dirname (some (codes "/")) ≡ codes "/")
    × (dirname (some (codes "")) ≡ codes ".")
    × (dirname (some (codes "/usr/lib")) ≡ codes "/usr")
    × (dirname (some (codes "/usr//")) ≡ codes "/")
unfolding dirname
dirname_asserts = (refl, refl, refl, refl)

basename_asserts :
    (basename (some (codes "/")) ≡ codes "/")
    × (basename (some (codes "")) ≡ codes ".")
    × (basename (some (codes "/usr/lib")) ≡ codes "lib")
    × (basename (some (codes "/usr//")) ≡ codes "usr")
unfolding basename
basename_asserts = (refl, refl, refl, refl)
