-- ===== src/PathSplit/Posix.antt =====
-- dirname() and basename() of chapter_31/threadsafe_dirname.c and threadsafe_basename.c against POSIX.
use tlpi_solutions.Common.{
  ℕ, zero, suc, ◌-◌, ◌<◌, ◌≡◌, ◌≢◌, refl, sym, ap, ◌∙◌, subst, some, List, [], ◌∷◌, ◌++◌, ◌==◌,
  arith, length, length-append, take, take-ge, Bool-cases, inl, inr, IsString,
}
use tlpi_solutions.PathSplit.{
  buf_size, slash, dot, at, trimmed, dirname_of, dirname, basename_of, basename,
}
use tlpi_solutions.PathSplit.Strings.{
  slashes, NoSlash, at-append, strip, strip_lem, strip-slashes, last_slash-NoSlash,
}
use tlpi_solutions.PathSplit.Split.{
  dirname_plain, basename_plain, basename_behind, dirname_nested, dirname_root,
}

-- How POSIX splits a path into the name of its directory and its last component.
pub data Splits (path dir name : List ℕ) : Type 0 where
  root :
      (k : ℕ) → path ≡ slashes (suc k) → dir ≡ slash ∷ [] → name ≡ slash ∷ [] → Splits path dir name
  absolute :
      (j k : ℕ)
      → path ≡ (slashes j ++ slash ∷ name) ++ slashes k
      → dir ≡ slash ∷ []
      → NoSlash name
      → 0 < length name
      → Splits path dir name
  relative :
      (k : ℕ)
      → path ≡ name ++ slashes k
      → dir ≡ dot ∷ []
      → NoSlash name
      → 0 < length name
      → Splits path dir name
  nested :
      (front : List ℕ) (x j k : ℕ)
      → path ≡ (((front ++ x ∷ []) ++ slashes j) ++ slash ∷ name) ++ slashes k
      → dir ≡ front ++ x ∷ []
      → x ≢ slash
      → NoSlash name
      → 0 < length name
      → Splits path dir name

-- A path is slashes, or ends with another byte and slashes behind it.
data Ends (path : List ℕ) : Type 0 where
  all_slashes : (k : ℕ) → path ≡ slashes k → Ends path
  another :
      (front : List ℕ) (y k : ℕ) → y ≢ slash → path ≡ (front ++ y ∷ []) ++ slashes k → Ends path

Ends-cons : (c : ℕ) (cs : List ℕ) → Ends cs → Ends (c ∷ cs)
Ends-cons c cs (all_slashes k e) = elim (Bool-cases (c == slash)) [
  | inl x ↦ let same : c ≡ slash = ground (arith, x) in all_slashes (suc k) (rw (same, e) refl)
  | inr x ↦ another [] c k (ground (arith, x)) (ap (λ l. c ∷ l) e)
]
Ends-cons c cs (another front y k h e) = another (c ∷ front) y k h (ap (λ l. c ∷ l) e)

find_shape : (path : List ℕ) → Ends path
find_shape [] = all_slashes 0 refl
find_shape (c ∷ cs) = Ends-cons c cs (find_shape cs)

-- A string has no slash, or a last one.
data Last (buf : List ℕ) : Type 0 where
  no_slash : NoSlash buf → Last buf
  behind : (front name : List ℕ) → buf ≡ front ++ slash ∷ name → NoSlash name → Last buf

Last-cons : (c : ℕ) (cs : List ℕ) → Last cs → Last (c ∷ cs)
Last-cons c cs (no_slash w) = elim (Bool-cases (c == slash)) [
  | inl x ↦ let same : c ≡ slash = ground (arith, x) in behind [] cs (rw same refl) w
  | inr x ↦ no_slash (ground (arith, x), w)
]
Last-cons c cs (behind front name e w) = behind (c ∷ front) name (ap (λ l. c ∷ l) e) w

find_last_slash : (buf : List ℕ) → Last buf
find_last_slash [] = no_slash tt
find_last_slash (c ∷ cs) = Last-cons c cs (find_last_slash cs)

IsString-front : (xs ys : List ℕ) → IsString (xs ++ ys) → IsString xs
IsString-front [] ys s = tt
IsString-front (x ∷ xs) ys s = (s.0, IsString-front xs ys s.1)

IsString-back : (xs ys : List ℕ) → IsString (xs ++ ys) → IsString ys
IsString-back [] ys s = s
IsString-back (x ∷ xs) ys s = IsString-back xs ys s.1

-- What is behind the last slash is not empty where the string ends with another byte.
name-nonempty :
    (front pre name : List ℕ) (y : ℕ)
    → front ++ y ∷ [] ≡ pre ++ slash ∷ name
    → y ≢ slash
    → 0 < length name
name-nonempty front pre (c ∷ cs) y e h = omega arith
name-nonempty front pre [] y e h =
    let size : length front ≡ length pre =
      omega (arith, ap length e, length-append front (y ∷ []), length-append pre (slash ∷ [])) in
    let same : y ≡ slash =
      sym (at-append front [] y)
      ∙ ap (λ l. at l (length front)) e
      ∙ ap (at (pre ++ slash ∷ [])) size
      ∙ at-append pre [] slash in
    absurd (h same)

-- A string with a slash in it.
below :
    (path pre name : List ℕ) (k : ℕ)
    → path ≡ (pre ++ slash ∷ name) ++ slashes k
    → IsString (pre ++ slash ∷ name)
    → NoSlash name
    → 0 < length name
    → Splits path (dirname_of (pre ++ slash ∷ name)) (basename_of (pre ++ slash ∷ name))
below path pre name k e s w h =
    let base : basename_of (pre ++ slash ∷ name) ≡ name =
      basename_behind pre name w (IsString-back pre (slash ∷ name) s).1 h in
    subst (Splits path (dirname_of (pre ++ slash ∷ name))) (sym base) (elim (find_shape pre) [
      | all_slashes j p ↦
          absolute j k (e ∙ ap (λ l. (l ++ slash ∷ name) ++ slashes k) p)
            (ap (λ l. dirname_of (l ++ slash ∷ name)) p ∙ dirname_root name j w) w h
      | another front x j other p ↦
          let dir : IsString (front ++ x ∷ []) =
            IsString-front (front ++ x ∷ []) (slashes j)
              (subst IsString p (IsString-front pre (slash ∷ name) s)) in
          nested front x j k (e ∙ ap (λ l. (l ++ slash ∷ name) ++ slashes k) p)
            (ap (λ l. dirname_of (l ++ slash ∷ name)) p ∙ dirname_nested front name x j dir other w)
            other w h
    ])

-- A string that does not end with a slash.
without_end :
    (path front : List ℕ) (y k : ℕ)
    → path ≡ (front ++ y ∷ []) ++ slashes k
    → IsString (front ++ y ∷ [])
    → y ≢ slash
    → Splits path (dirname_of (front ++ y ∷ [])) (basename_of (front ++ y ∷ []))
without_end path front y k e s h =
    let buf = front ++ y ∷ [] in
    elim (find_last_slash buf) [
      | no_slash w ↦
          let nowhere = last_slash-NoSlash buf w in
          subst (Splits path (dirname_of buf)) (sym (basename_plain buf nowhere)) (
            relative k e (dirname_plain buf nowhere) w
              (omega (arith, length-append front (y ∷ []))))
      | behind pre name b w ↦
          subst (λ l. Splits path (dirname_of l) (basename_of l)) (sym b)
            (below path pre name k (e ∙ ap (λ l. l ++ slashes k) b) (subst IsString b s) w
              (name-nonempty front pre name y b h))
    ]

root_parts : (dirname_of (slash ∷ []) ≡ slash ∷ []) × (basename_of (slash ∷ []) ≡ slash ∷ [])
unfolding dirname_of basename_of
root_parts = (refl, refl)

of_slashes :
    (path : List ℕ) (k : ℕ)
    → path ≡ slashes k
    → 0 < length path
    → Splits path (dirname_of (strip path)) (basename_of (strip path))
of_slashes path zero e h = absurd (omega (arith, h, ap length e))
of_slashes path (suc k) e h =
    let stripped : strip path ≡ slash ∷ [] = ap strip e ∙ strip-slashes k in
    root k e (ap dirname_of stripped ∙ root_parts.0) (ap basename_of stripped ∙ root_parts.1)

of_strip :
    (path : List ℕ)
    → IsString path
    → 0 < length path
    → Splits path (dirname_of (strip path)) (basename_of (strip path))
of_strip path s h = elim (find_shape path) [
  | another front y k other e ↦
      let stripped : strip path ≡ front ++ y ∷ [] = ap strip e ∙ strip_lem front y k other in
      subst (λ l. Splits path (dirname_of l) (basename_of l)) (sym stripped)
        (without_end path front y k e
          (IsString-front (front ++ y ∷ []) (slashes k) (subst IsString e s)) other)
  | all_slashes k e ↦ of_slashes path k e h
]

-- Every path that fits in the buffer is split as POSIX says.
pub dirname_basename :
    (path : List ℕ)
    → IsString path
    → 0 < length path
    → length path < buf_size
    → Splits path (dirname (some path)) (basename (some path))
unfolding dirname basename trimmed
dirname_basename [] s h short = absurd (omega (arith, h))
dirname_basename (c ∷ cs) s h short =
    let all : take (buf_size - 1) (c ∷ cs) ≡ c ∷ cs =
      take-ge (buf_size - 1) (c ∷ cs) (omega (arith, short)) in
    subst (λ l. Splits (c ∷ cs) (dirname_of (strip l)) (basename_of (strip l))) (sym all)
      (of_strip (c ∷ cs) s h)
