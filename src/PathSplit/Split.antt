-- ===== src/PathSplit/Split.antt =====
-- What dirname() and basename() of chapter_31/threadsafe_dirname.c and threadsafe_basename.c give.
use tlpi_solutions.Common.{
  ℕ, zero, suc, ◌-◌, ◌<◌, ◌≡◌, ◌≢◌, refl, ap, ◌∙◌, false, none, some, List, [], ◌∷◌, ◌++◌, ◌==◌,
  ◌&&◌, arith, length, length-append, drop, take-ge, IsString,
}
use tlpi_solutions.PathSplit.{
  slash, dot, at, last_slash, skip_back, cut_name, dirname_of, basename_of,
}
use tlpi_solutions.PathSplit.Strings.{
  slashes, NoSlash, at-append, slashes_end, last_slash-append, skip_step, skip_back_lem,
}

module _ (buf : List ℕ) (w : last_slash buf ≡ none) where
  pub dirname_plain : dirname_of buf ≡ dot ∷ []
  unfolding dirname_of
  dirname_plain = rw (w, dirname_of) refl

  pub basename_plain : basename_of buf ≡ buf
  unfolding basename_of
  basename_plain = rw (w, basename_of) refl

dirname_behind :
    (buf dir : List ℕ) (i place : ℕ)
    → last_slash buf ≡ some i
    → skip_back buf i ≡ (dir, place)
    → dirname_of buf ≡ cut_name dir place
unfolding dirname_of
dirname_behind buf dir i place e b = rw (e, dirname_of) (ap (λ r. cut_name r.0 r.1) b)

-- A byte of a string behind its start.
name_there :
    (front name : List ℕ)
    → IsString name
    → 0 < length name
    → (length front == 0 && at (front ++ slash ∷ name) 1 == 0) ≡ false
unfolding at
name_there [] (c ∷ cs) s h = ground (arith, s.0)
name_there [] [] s h = absurd (omega (arith, h))
name_there (x ∷ xs) name s h = ground arith

drop-behind : (front name : List ℕ) → drop (suc (length front)) (front ++ slash ∷ name) ≡ name
drop-behind [] name = refl
drop-behind (x ∷ xs) name = drop-behind xs name

pub basename_behind :
    (front name : List ℕ)
    → NoSlash name
    → IsString name
    → 0 < length name
    → basename_of (front ++ slash ∷ name) ≡ name
unfolding basename_of
basename_behind front name w s h =
    rw (last_slash-append front name w, basename_of, name_there front name s h)
      (drop-behind front name)

cut_start : (r : List ℕ) → cut_name (slash ∷ r) 0 ≡ slash ∷ []
unfolding cut_name
cut_start r = refl

cut-front :
    (front : List ℕ) (x : ℕ)
    → IsString (front ++ x ∷ [])
    → x ≢ slash
    → cut_name (front ++ x ∷ []) (length front) ≡ front ++ x ∷ []
unfolding cut_name
cut-front [] x s other =
    let e : (x == slash) ≡ false = ground (arith, other) in
    let f : (x == 0) ≡ false = ground (arith, s.0) in rw (e, f) refl
cut-front (c ∷ cs) x s other =
    let f : (c == 0) ≡ false = ground (arith, s.0) in
    let first : (suc (length cs) == 0) ≡ false = ground arith in
    rw (first, f)
      (ap (λ l. c ∷ l)
        (take-ge (suc (length cs)) (cs ++ x ∷ []) (omega (arith, length-append cs (x ∷ [])))))

not_skipped :
    (buf : List ℕ) (i : ℕ)
    → (at buf (suc i) == slash) ≡ false
    → skip_back buf (suc i) ≡ (buf, suc i)
unfolding skip_back
not_skipped buf i e = rw e refl

stays :
    (front : List ℕ) (x : ℕ)
    → x ≢ slash
    → skip_back (front ++ x ∷ []) (length front) ≡ (front ++ x ∷ [], length front)
stays [] x other = unfold skip_back in refl
stays (c ∷ cs) x other =
    let e : (x == slash) ≡ false = ground (arith, other) in
    not_skipped ((c ∷ cs) ++ x ∷ []) (length cs)
      (ap (λ y. y == slash) (at-append (c ∷ cs) [] x) ∙ e)

-- The directory is below another one.
pub dirname_nested :
    (front name : List ℕ) (x j : ℕ)
    → IsString (front ++ x ∷ [])
    → x ≢ slash
    → NoSlash name
    → dirname_of (((front ++ x ∷ []) ++ slashes j) ++ slash ∷ name) ≡ front ++ x ∷ []
dirname_nested front name x j s other w =
    let dir = front ++ x ∷ [] in
    let size : length dir - 1 ≡ length front = omega (arith, length-append front (x ∷ [])) in
    dirname_behind ((dir ++ slashes j) ++ slash ∷ name) dir (length (dir ++ slashes j))
      (length front) (last_slash-append (dir ++ slashes j) name w)
      (skip_back_lem dir name j (omega (arith, length-append front (x ∷ [])))
        ∙ ap (skip_back dir) size
        ∙ stays front x other)
    ∙ cut-front front x s other

back_to_start :
    (j : ℕ) (rest : List ℕ)
    → (r : List ℕ) × (skip_back (slashes j ++ slash ∷ rest) (length (slashes j)) ≡ (slash ∷ r, 0))
back_to_start zero rest = (rest, unfold skip_back in refl)
back_to_start (suc j) rest =
    let (r, e) = back_to_start j [] in
    let size : length (slashes (suc j)) - 1 ≡ length (slashes j) = omega arith in
    (
      r,
      skip_step (slashes (suc j)) rest (omega arith)
          ∙ ap (skip_back (slashes (suc j))) size
          ∙ ap (λ l. skip_back l (length (slashes j))) (slashes_end j)
          ∙ e,
    )

-- The directory is the root.
pub dirname_root :
    (name : List ℕ) (j : ℕ) → NoSlash name → dirname_of (slashes j ++ slash ∷ name) ≡ slash ∷ []
dirname_root name j w =
    let (r, e) = back_to_start j name in
    dirname_behind (slashes j ++ slash ∷ name) (slash ∷ r) (length (slashes j)) 0
      (last_slash-append (slashes j) name w) e
    ∙ (cut_start r)
