-- ===== src/DirService/Strings.antt =====
-- Fixed arrays that hold C strings, in chapter_48/dir_service/dir_service.c.
use tlpi_solutions.Common.{
  ℕ, zero, suc, ◌+◌, ◌-◌, ◌<◌, ◌≤◌, ◌≡◌, ◌≢◌, refl, ap, true, false, List, [], ◌∷◌, ◌++◌, arith,
  length, take, drop, set, bytes_eq, get_elem?, some,
}
use tlpi_solutions.DirService.{pad, strncmp_eq, c_str, copy_string}

-- The bytes of a C string are not 0.
abbrev pub IsString : List ℕ → Type 0
IsString [] = Unit {0}
IsString (c ∷ cs) = (c ≢ 0) × IsString cs

pub length-pad : (n : ℕ) (src : List ℕ) → length (pad n src) ≡ n
unfolding pad
length-pad zero src = refl
length-pad (suc n) [] = ap suc (length-pad n [])
length-pad (suc n) (c ∷ src) = ap suc (length-pad n src)

set_end :
    (n : ℕ) (xs : List ℕ) (d : List ℕ)
    → length xs ≡ n
    → length d ≡ n + 1
    → set (xs ++ drop n d) n 0 ≡ xs ++ 0 ∷ []
set_end zero [] [] e h = absurd (omega arith)
set_end zero [] (x ∷ []) e h = refl
set_end zero [] (x ∷ y ∷ d) e h = absurd (omega arith)
set_end zero (x ∷ xs) d e h = absurd (omega arith)
set_end (suc n) [] d e h = absurd (omega arith)
set_end (suc n) (x ∷ xs) [] e h = absurd (omega arith)
set_end (suc n) (x ∷ xs) (y ∷ d) e h = ap (λ l. x ∷ l) (set_end n xs d (omega arith) (omega arith))

-- An array of `n + 1` bytes after a copy: the string, cut to `n` bytes, and NULs.
pub copy_string-eq :
    (dst src : List ℕ) (n : ℕ)
    → length dst ≡ n + 1
    → copy_string dst src (n + 1) ≡ pad n src ++ 0 ∷ []
unfolding copy_string
copy_string-eq dst src n h =
    let e : n + 1 - 1 ≡ n = omega arith in rw e (set_end n (pad n src) dst (length-pad n src) h)

-- A name that fits compares equal to itself alone.
pub strncmp_eq-pad :
    (n : ℕ) (name j : List ℕ)
    → length name ≤ n
    → IsString name
    → IsString j
    → strncmp_eq (suc n) (pad n name ++ 0 ∷ []) j ≡ bytes_eq name j
unfolding strncmp_eq pad
strncmp_eq-pad zero [] [] h sn sj = refl
strncmp_eq-pad zero [] (y ∷ ys) h sn sj = ground arith
strncmp_eq-pad zero (x ∷ xs) j h sn sj = absurd (omega arith)
strncmp_eq-pad (suc n) [] [] h sn sj = refl
strncmp_eq-pad (suc n) [] (y ∷ ys) h sn sj = ground arith
strncmp_eq-pad (suc n) (x ∷ xs) [] h sn sj = ground arith
strncmp_eq-pad (suc n) (x ∷ xs) (y ∷ ys) h sn sj =
    ground (arith, strncmp_eq-pad n xs ys (omega arith) sn.1 sj.1)

-- An array compares equal to one name that fits, at most.
pub strncmp_eq-injective :
    (n : ℕ) (a k j : List ℕ)
    → length k < n
    → length j < n
    → IsString k
    → IsString j
    → strncmp_eq n a k ≡ true
    → strncmp_eq n a j ≡ true
    → k ≡ j
unfolding strncmp_eq
strncmp_eq-injective zero a k j hk hj sk sj ek ej = absurd (omega arith)
strncmp_eq-injective (suc n) a [] [] hk hj sk sj ek ej = refl
strncmp_eq-injective (suc n) [] (x ∷ k) j hk hj sk sj ek ej = ground arith
strncmp_eq-injective (suc n) [] [] (y ∷ j) hk hj sk sj ek ej = ground arith
strncmp_eq-injective (suc n) (c ∷ a) [] (y ∷ j) hk hj sk sj ek ej = ground arith
strncmp_eq-injective (suc n) (c ∷ a) (x ∷ k) [] hk hj sk sj ek ej = ground arith
strncmp_eq-injective (suc n) (c ∷ a) (x ∷ k) (y ∷ j) hk hj sk sj ek ej =
    ground (arith, strncmp_eq-injective n a k j)

-- An array with a NUL at `n` compares equal to no string of more than `n` bytes.
pub strncmp_eq-long :
    (n : ℕ) (a j : List ℕ)
    → get_elem? a n ≡ some 0
    → n < length j
    → IsString j
    → strncmp_eq (suc n) a j ≡ false
unfolding strncmp_eq
strncmp_eq-long n [] j e h s = ground arith
strncmp_eq-long n (c ∷ a) [] e h s = absurd (omega arith)
strncmp_eq-long zero (c ∷ a) (y ∷ j) e h s = ground arith
strncmp_eq-long (suc n) (c ∷ a) (y ∷ j) e h s =
    ground (arith, strncmp_eq-long n a j e (omega arith) s.1)

-- The string that an array holds after a copy.
pub c_str-pad :
    (n : ℕ) (src rest : List ℕ) → IsString src → c_str (pad n src ++ 0 ∷ rest) ≡ take n src
unfolding c_str pad
c_str-pad zero src rest s = refl
c_str-pad (suc n) [] rest s = refl
c_str-pad (suc n) (c ∷ src) rest s = ground (arith, c_str-pad n src rest s.1)

pub get_elem?-end : (n : ℕ) (xs : List ℕ) → length xs ≡ n → get_elem? (xs ++ 0 ∷ []) n ≡ some 0
get_elem?-end zero [] e = refl
get_elem?-end (suc n) [] e = absurd (omega arith)
get_elem?-end zero (x ∷ xs) e = absurd (omega arith)
get_elem?-end (suc n) (x ∷ xs) e = get_elem?-end n xs (omega arith)
