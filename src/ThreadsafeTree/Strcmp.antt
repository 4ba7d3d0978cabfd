-- ===== src/ThreadsafeTree/Strcmp.antt =====
-- strcmp() and strncmp() as chapter_30/threadsafe_tree.c uses them.
use tlpi_solutions.Common.{
  ℕ, zero, suc, ◌<◌, ◌≡◌, refl, ap, List, [], ◌∷◌, arith, length, ◌⊎◌, inl, inr,
}
use tlpi_solutions.ThreadsafeTree.{Sign, less, same, greater, strcmp, strncmp, sign}

pub strcmp-same : (a b : List ℕ) → strcmp a b ≡ same → a ≡ b
unfolding strcmp
strcmp-same [] [] e = refl
strcmp-same [] (y ∷ ys) e = ground arith
strcmp-same (x ∷ xs) [] e = ground arith
strcmp-same (x ∷ xs) (y ∷ ys) e = ground (arith, strcmp-same xs ys)

pub strcmp_refl : (a : List ℕ) → strcmp a a ≡ same
unfolding strcmp
strcmp_refl [] = refl
strcmp_refl (x ∷ xs) = ground (arith, strcmp_refl xs)

pub strncmp-strcmp : (n : ℕ) (a b : List ℕ) → length a < n → strncmp n a b ≡ strcmp a b
unfolding strcmp strncmp
strncmp-strcmp zero a b h = absurd (omega arith)
strncmp-strcmp (suc n) [] [] h = refl
strncmp-strcmp (suc n) [] (y ∷ ys) h = refl
strncmp-strcmp (suc n) (x ∷ xs) [] h = refl
strncmp-strcmp (suc n) (x ∷ xs) (y ∷ ys) h = ap (sign x y) (strncmp-strcmp n xs ys (omega arith))

pub Sign-cases : (s : Sign) → (s ≡ same) ⊎ ((s ≡ less) ⊎ (s ≡ greater))
Sign-cases less = inr (inl refl)
Sign-cases same = inl refl
Sign-cases greater = inr (inr refl)

pub strncmp_refl : (n : ℕ) (a : List ℕ) → strncmp n a a ≡ same
unfolding strncmp
strncmp_refl zero a = refl
strncmp_refl (suc n) [] = refl
strncmp_refl (suc n) (x ∷ xs) = ground (arith, strncmp_refl n xs)
