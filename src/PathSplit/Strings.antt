-- ===== src/PathSplit/Strings.antt =====
-- The loops of chapter_31/threadsafe_dirname.c and threadsafe_basename.c over the places of a string.
use tlpi_solutions.Common.{
  ℕ, zero, suc, ◌-◌, ◌<◌, ◌≡◌, ◌≢◌, refl, sym, ap, ◌∙◌, true, false, none, some, List, [], ◌∷◌,
  ◌++◌, ◌==◌, ltb, ◌&&◌, arith, length, length-append, take, replicate, take-append_length,
}
use mathlib.Core.List.{append_assoc, append-nil}
use tlpi_solutions.PathSplit.{slash, at, last_slash, remove_slashes, skip_back}

abbrev pub slashes : ℕ → List ℕ
slashes k = replicate k slash

-- No byte is a slash.
abbrev pub NoSlash : List ℕ → Type 0
NoSlash [] = Unit {0}
NoSlash (c ∷ cs) = (c ≢ slash) × NoSlash cs

pub at-append : (xs ys : List ℕ) (c : ℕ) → at (xs ++ c ∷ ys) (length xs) ≡ c
unfolding at
at-append [] ys c = refl
at-append (x ∷ xs) ys c = at-append xs ys c

pub slashes_end : (k : ℕ) → slashes (suc k) ≡ slashes k ++ slash ∷ []
slashes_end zero = refl
slashes_end (suc k) = ap (λ l. slash ∷ l) (slashes_end k)

-- A list with slashes behind it has one of them at its end.
pub one_more : (xs : List ℕ) (k : ℕ) → xs ++ slashes (suc k) ≡ (xs ++ slashes k) ++ slash ∷ []
one_more xs k = ap (λ l. xs ++ l) (slashes_end k) ∙ sym (append_assoc xs (slashes k) (slash ∷ []))

abbrev pub strip : List ℕ → List ℕ
strip buf = remove_slashes buf (length buf)

strip_one : (xs : List ℕ) → 0 < length xs → strip (xs ++ slash ∷ []) ≡ strip xs
unfolding remove_slashes
strip_one xs some_left =
    let size : length (xs ++ slash ∷ []) ≡ suc (length xs) =
      omega (arith, length-append xs (slash ∷ [])) in
    let long : ltb 1 (suc (length xs)) ≡ true = ground (arith, some_left) in
    rw (size, long, at-append xs [] slash, take-append_length xs (slash ∷ [])) refl

strip_end : (xs : List ℕ) (y : ℕ) → y ≢ slash → strip (xs ++ y ∷ []) ≡ xs ++ y ∷ []
unfolding remove_slashes
strip_end xs y other =
    let size : length (xs ++ y ∷ []) ≡ suc (length xs) = omega (arith, length-append xs (y ∷ [])) in
    let e : (y == slash) ≡ false = ground (arith, other) in
    let stop : (ltb 1 (suc (length xs)) && false) ≡ false = ground arith in
    rw (size, at-append xs [] y, e, stop) refl

-- The slashes at the end are removed.
pub strip_lem :
    (xs : List ℕ) (y k : ℕ) → y ≢ slash → strip ((xs ++ y ∷ []) ++ slashes k) ≡ xs ++ y ∷ []
strip_lem xs y zero other = ap strip (append-nil (xs ++ y ∷ [])) ∙ strip_end xs y other
strip_lem xs y (suc k) other =
    ap strip (one_more (xs ++ y ∷ []) k)
    ∙ strip_one ((xs ++ y ∷ []) ++ slashes k)
        (omega (arith, length-append (xs ++ y ∷ []) (slashes k), length-append xs (y ∷ [])))
    ∙ strip_lem xs y k other

-- But for the first byte.
pub strip-slashes : (k : ℕ) → strip (slashes (suc k)) ≡ slash ∷ []
strip-slashes zero = unfold remove_slashes in refl
strip-slashes (suc k) =
    ap strip (slashes_end (suc k)) ∙ strip_one (slashes (suc k)) (omega arith) ∙ strip-slashes k

pub last_slash-NoSlash : (name : List ℕ) → NoSlash name → last_slash name ≡ none
unfolding last_slash
last_slash-NoSlash [] w = refl
last_slash-NoSlash (c ∷ cs) w =
    let e : (c == slash) ≡ false = ground (arith, w.0) in rw (last_slash-NoSlash cs w.1, e) refl

pub last_slash-append :
    (xs name : List ℕ) → NoSlash name → last_slash (xs ++ slash ∷ name) ≡ some (length xs)
unfolding last_slash
last_slash-append [] name w = rw (last_slash-NoSlash name w) refl
last_slash-append (x ∷ xs) name w = rw (last_slash-append xs name w) refl

skip_slash :
    (buf : List ℕ) (i : ℕ)
    → at buf (suc i) ≡ slash
    → skip_back buf (suc i) ≡ skip_back (take (suc i) buf) i
unfolding skip_back
skip_slash buf i e = rw e refl

pub skip_step :
    (xs rest : List ℕ)
    → 0 < length xs
    → skip_back (xs ++ slash ∷ rest) (length xs) ≡ skip_back xs (length xs - 1)
skip_step (x ∷ xs) rest some_left =
    skip_slash ((x ∷ xs) ++ slash ∷ rest) (length xs) (at-append (x ∷ xs) rest slash)
    ∙ ap (λ l. skip_back l (length xs)) (take-append_length (x ∷ xs) (slash ∷ rest))
    ∙ ap (skip_back (x ∷ xs)) (omega arith)
skip_step [] rest some_left = absurd (omega (arith, some_left))

-- The slashes at the end of what is in front of the last one are skipped.
skip_all :
    (xs : List ℕ) (j : ℕ)
    → 0 < length xs
    → skip_back (xs ++ slashes j) (length (xs ++ slashes j) - 1) ≡ skip_back xs (length xs - 1)
skip_all xs zero some_left = ap (λ l. skip_back l (length l - 1)) (append-nil xs)
skip_all xs (suc j) some_left =
    let more : 0 < length (xs ++ slashes j) =
      omega (arith, some_left, length-append xs (slashes j)) in
    let size : length ((xs ++ slashes j) ++ slash ∷ []) - 1 ≡ length (xs ++ slashes j) =
      omega (arith, length-append (xs ++ slashes j) (slash ∷ [])) in
    ap (λ l. skip_back l (length l - 1)) (one_more xs j)
    ∙ ap (skip_back ((xs ++ slashes j) ++ slash ∷ [])) size
    ∙ skip_step (xs ++ slashes j) [] more
    ∙ skip_all xs j some_left

pub skip_back_lem :
    (xs rest : List ℕ) (j : ℕ)
    → 0 < length xs
    → skip_back ((xs ++ slashes j) ++ slash ∷ rest) (length (xs ++ slashes j))
      ≡ skip_back xs (length xs - 1)
skip_back_lem xs rest j some_left =
    skip_step (xs ++ slashes j) rest (omega (arith, some_left, length-append xs (slashes j)))
    ∙ skip_all xs j some_left
