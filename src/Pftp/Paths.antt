-- ===== src/Pftp/Paths.antt =====
-- The names that validate_filename() of chapter_61/pftp_common.c accepts, as paths.
use tlpi_solutions.Common.{
  ℕ, zero, suc, ◌≡◌, refl, true, false, Option, none, some, List, [], ◌∷◌, ◌==◌, ◌&&◌, ◌||◌,
  if◌then◌else◌, arith, length, bytes_eq, Bool-cases, inl, inr,
}
use tlpi_solutions.Pftp.{slash, dot, has_dots, starts, validate_filename}
use tlpi_solutions.Pftp.Server.{filepath}

-- The first component of a path, and the others.
unfoldable pub components : List ℕ → List ℕ × List (List ℕ)
components [] = ([], [])
components (c ∷ cs) =
    let (first, others) = components cs in
    if c == slash then ([], first ∷ others) else (c ∷ first, others)

abbrev pub parent : List ℕ
parent = dot ∷ dot ∷ []

-- How deep below its start a walk along components ends; `none` where it leaves the start upwards.
unfoldable pub walk : ℕ → List (List ℕ) → Option ℕ
walk depth [] = some depth
walk zero (c ∷ cs) =
    let stay = walk zero cs in
    let deeper = walk 1 cs in
    if bytes_eq c parent
    then none
    else if length c == 0 || bytes_eq c (dot ∷ [])
    then stay
    else deeper
walk (suc depth) (c ∷ cs) =
    let up = walk depth cs in
    let stay = walk (suc depth) cs in
    let deeper = walk (suc (suc depth)) cs in
    if bytes_eq c parent
    then up
    else if length c == 0 || bytes_eq c (dot ∷ [])
    then stay
    else deeper

-- The path of a file in the directory: a walk along the name does not leave it.
abbrev pub IsInside : List ℕ → Type 0
IsInside path =
    (name : List ℕ) × (path ≡ filepath name)
    × ((depth : ℕ) × (walk 0 ((components name).0 ∷ (components name).1) ≡ some depth))

abbrev NotUp : List (List ℕ) → Type 0
NotUp [] = Unit {0}
NotUp (c ∷ cs) = (bytes_eq c parent ≡ false) × NotUp cs

walk_down : (depth : ℕ) (cs : List (List ℕ)) → NotUp cs → (d : ℕ) × (walk depth cs ≡ some d)
unfolding walk
walk_down depth [] w = (depth, refl)
walk_down zero (c ∷ cs) w =
    let (stay, s) = walk_down zero cs w.1 in
    let (deeper, t) = walk_down 1 cs w.1 in
    elim (Bool-cases (length c == 0 || bytes_eq c (dot ∷ []))) [
      | inl here ↦ (stay, rw (w.0, here) s)
      | inr down ↦ (deeper, rw (w.0, down) t)
    ]
walk_down (suc depth) (c ∷ cs) w =
    let (stay, s) = walk_down (suc depth) cs w.1 in
    let (deeper, t) = walk_down (suc (suc depth)) cs w.1 in
    elim (Bool-cases (length c == 0 || bytes_eq c (dot ∷ []))) [
      | inl here ↦ (stay, rw (w.0, here) s)
      | inr down ↦ (deeper, rw (w.0, down) t)
    ]

dot-first : (cs : List ℕ) → bytes_eq (components cs).0 (dot ∷ []) ≡ true → starts dot cs ≡ true
unfolding components starts
dot-first [] e = cc
dot-first (c ∷ cs) e = ground arith

cons-NotUp :
    (c : ℕ) (cs : List ℕ)
    → (c == dot && bytes_eq (components cs).0 (dot ∷ [])) ≡ false
    → NotUp ((components cs).0 ∷ (components cs).1)
    → NotUp ((components (c ∷ cs)).0 ∷ (components (c ∷ cs)).1)
unfolding components
cons-NotUp c cs e w = elim (Bool-cases (c == slash)) [
  | inl x ↦ rw (x, components) (refl, w)
  | inr x ↦ rw (x, components, e) (refl, w.1)
]

components-NotUp :
    (cs : List ℕ) → has_dots cs ≡ false → NotUp ((components cs).0 ∷ (components cs).1)
unfolding has_dots
components-NotUp [] e = unfold components in (refl, tt)
components-NotUp (c ∷ []) e =
    cons-NotUp c [] (unfold components in ground arith) (components-NotUp [] refl)
components-NotUp (c ∷ d ∷ cs) e = elim (Bool-cases (bytes_eq (components (d ∷ cs)).0 (dot ∷ []))) [
  | inl x ↦
      let next : starts dot (d ∷ cs) ≡ true = dot-first (d ∷ cs) x in
      cons-NotUp c (d ∷ cs) (rw x (unfold starts in ground (arith, next, e)))
        (components-NotUp (d ∷ cs) (ground (arith, e)))
  | inr x ↦
      cons-NotUp c (d ∷ cs) (rw x (ground arith)) (components-NotUp (d ∷ cs) (ground (arith, e)))
]

-- A name that validate_filename() accepts is that of a file in the directory.
pub validate_filename-IsInside :
    (filename : List ℕ) → validate_filename filename ≡ true → IsInside (filepath filename)
unfolding validate_filename
validate_filename-IsInside filename e =
    let plain : has_dots filename ≡ false = ground (arith, e) in
    (
      filename,
      refl,
      walk_down 0 ((components filename).0 ∷ (components filename).1)
          (components-NotUp filename plain),
    )
