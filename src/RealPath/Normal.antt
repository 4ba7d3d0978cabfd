-- ===== src/RealPath/Normal.antt =====
-- normalize_path() of chapter_18/myrealpath.c against a stack of names.
use tlpi_solutions.Common.{
  ℕ, ◌+◌, ◌≡◌, ◌≢◌, refl, sym, ap, ◌∙◌, subst, Bool, true, false, List, [], ◌∷◌, ◌++◌, ◌==◌, not,
  ◌||◌, if◌then◌else◌, arith, length, length-append, drop, take-length, take-append_length,
  bytes_eq, Bool-cases, inl, inr,
}
use tlpi_solutions.PathSplit.{slash, last_slash}
use tlpi_solutions.PathSplit.Strings.{NoSlash, last_slash-append}
use tlpi_solutions.RealPath.{
  here, up, with_part, parts, tokens, first_string, Buffer, move_up, add_part, add_parts, or_root,
  normalized, normalize_path,
}

-- The names on the way down, the last one first.
unfoldable pub resolve : List (List ℕ) → List (List ℕ) → List (List ℕ)
resolve [] names = names
resolve (part ∷ others) names =
    let stay = resolve others names in
    let above = resolve others (drop 1 names) in
    let below = resolve others (part ∷ names) in
    if bytes_eq part here then stay else if bytes_eq part up then above else below

-- The path along names.
abbrev pub render : List (List ℕ) → List ℕ
render [] = []
render (name ∷ names) = render names ++ slash ∷ name

abbrev pub AllNames : List (List ℕ) → Type 0
AllNames [] = Unit {0}
AllNames (name ∷ names) = NoSlash name × AllNames names

with_part-AllNames :
    (first : List ℕ) (others : List (List ℕ))
    → NoSlash first
    → AllNames others
    → AllNames (with_part first others)
with_part-AllNames [] others w v = v
with_part-AllNames (c ∷ cs) others w v = (w, v)

parts-AllNames : (path : List ℕ) → NoSlash (parts path).0 × AllNames (parts path).1
unfolding parts
parts-AllNames [] = (tt, tt)
parts-AllNames (c ∷ cs) =
    let rest = parts-AllNames cs in
    elim (Bool-cases (c == slash)) [
      | inl e ↦ rw e (tt, with_part-AllNames (parts cs).0 (parts cs).1 rest.0 rest.1)
      | inr e ↦ rw e ((ground (arith, e), rest.0), rest.1)
    ]

abbrev at_end : List (List ℕ) → Buffer
at_end names = record { path = render names; curr_pos = length (render names) }

move_up-at_end :
    (names : List (List ℕ)) → AllNames names → move_up (at_end names) ≡ at_end (drop 1 names)
unfolding move_up last_slash
move_up-at_end [] w = refl
move_up-at_end (name ∷ names) w =
    rw
      (
        last_slash-append (render names) name w.0,
        move_up,
        take-append_length (render names) (slash ∷ name),
      )
      refl

-- What the loop and the stack do with a part.
data Kind (part : List ℕ) : Type 0 where
  is_here : bytes_eq part here ≡ true → Kind part
  is_up : bytes_eq part here ≡ false → bytes_eq part up ≡ true → Kind part
  is_name : bytes_eq part here ≡ false → bytes_eq part up ≡ false → Kind part

sort_part : (part : List ℕ) → Kind part
sort_part part = elim (Bool-cases (bytes_eq part here)) [
  | inl h ↦ is_here h
  | inr h ↦ elim (Bool-cases (bytes_eq part up)) [ inl u ↦ is_up h u | inr u ↦ is_name h u ]
]

module _ (part : List ℕ) (others names : List (List ℕ)) where
  resolve-here : bytes_eq part here ≡ true → resolve (part ∷ others) names ≡ resolve others names
  unfolding resolve
  resolve-here h = rw h refl

  resolve-up :
      bytes_eq part here ≡ false
      → bytes_eq part up ≡ true
      → resolve (part ∷ others) names ≡ resolve others (drop 1 names)
  unfolding resolve
  resolve-up h u = rw (h, u) refl

  resolve-name :
      bytes_eq part here ≡ false
      → bytes_eq part up ≡ false
      → resolve (part ∷ others) names ≡ resolve others (part ∷ names)
  unfolding resolve
  resolve-name h u = rw (h, u) refl

module _ (part : List ℕ) (b : Buffer) where
  add_part-here : bytes_eq part here ≡ true → add_part part b ≡ b
  unfolding add_part
  add_part-here h = rw h refl

  add_part-up : bytes_eq part here ≡ false → bytes_eq part up ≡ true → add_part part b ≡ move_up b
  unfolding add_part
  add_part-up h u = rw (h, u) refl

push-at_end :
    (part : List ℕ) (names : List (List ℕ))
    → bytes_eq part here ≡ false
    → bytes_eq part up ≡ false
    → add_part part (at_end names) ≡ at_end (part ∷ names)
unfolding add_part
push-at_end part names h u =
    let size : length (render names) + 1 + length part ≡ length (render names ++ slash ∷ part) =
      omega (arith, length-append (render names) (slash ∷ part)) in
    rw (h, u, take-length (render names), size) refl

AllNames-drop : (names : List (List ℕ)) → AllNames names → AllNames (drop 1 names)
AllNames-drop [] v = tt
AllNames-drop (name ∷ names) v = v.1

add_parts-cons :
    (part : List ℕ) (others : List (List ℕ)) (b c : Buffer)
    → add_part part b ≡ c
    → add_parts (part ∷ others) b ≡ add_parts others c
unfolding add_parts
add_parts-cons part others b c e = ap (add_parts others) e

add_parts-at_end :
    (ps names : List (List ℕ))
    → AllNames ps
    → AllNames names
    → add_parts ps (at_end names) ≡ at_end (resolve ps names)
add_parts-at_end [] names w v = unfold add_parts resolve in refl
add_parts-at_end (part ∷ others) names w v = elim (sort_part part) [
  | is_here h ↦
      add_parts-cons part others (at_end names) (at_end names) (add_part-here part (at_end names) h)
      ∙ add_parts-at_end others names w.1 v
      ∙ ap at_end (sym (resolve-here part others names h))
  | is_up h u ↦
      add_parts-cons part others (at_end names) (at_end (drop 1 names))
        (add_part-up part (at_end names) h u ∙ move_up-at_end names v)
      ∙ add_parts-at_end others (drop 1 names) w.1 (AllNames-drop names v)
      ∙ ap at_end (sym (resolve-up part others names h u))
  | is_name h u ↦
      add_parts-cons part others (at_end names) (at_end (part ∷ names)) (push-at_end part names h u)
      ∙ add_parts-at_end others (part ∷ names) w.1 (w.0, v)
      ∙ ap at_end (sym (resolve-name part others names h u))
]

-- The string and the place at the start of the loop.
abbrev at_start : List ℕ → Buffer
at_start first = record { path = slash ∷ first; curr_pos = 0 }

-- Some part is not ".".
unfoldable pub moves : List (List ℕ) → Bool
moves [] = false
moves (part ∷ others) = not (bytes_eq part here) || moves others

start_up : (first : List ℕ) → NoSlash first → move_up (at_start first) ≡ at_end []
unfolding move_up
start_up first w = rw (last_slash-append [] first w, move_up) refl

start_name :
    (part first : List ℕ)
    → bytes_eq part here ≡ false
    → bytes_eq part up ≡ false
    → add_part part (at_start first) ≡ at_end (part ∷ [])
unfolding add_part
start_name part first h u =
    rw (h, u) (ap (λ n. record { path = slash ∷ part; curr_pos = n }) (omega arith))

moves_on :
    (part : List ℕ) (others : List (List ℕ))
    → bytes_eq part here ≡ true
    → moves (part ∷ others) ≡ true
    → moves others ≡ true
unfolding moves
moves_on part others h m = subst (λ b. (not b || moves others) ≡ true) h m

add_parts-at_start :
    (ps : List (List ℕ)) (first : List ℕ)
    → AllNames ps
    → NoSlash first
    → moves ps ≡ true
    → add_parts ps (at_start first) ≡ at_end (resolve ps [])
add_parts-at_start [] first w f m = absurd (unfold moves in ground (arith, m))
add_parts-at_start (part ∷ others) first w f m = elim (sort_part part) [
  | is_here h ↦
      add_parts-cons part others (at_start first) (at_start first)
        (add_part-here part (at_start first) h)
      ∙ add_parts-at_start others first w.1 f (moves_on part others h m)
      ∙ ap at_end (sym (resolve-here part others [] h))
  | is_up h u ↦
      add_parts-cons part others (at_start first) (at_end [])
        (add_part-up part (at_start first) h u ∙ start_up first f)
      ∙ add_parts-at_end others [] w.1 tt
      ∙ ap at_end (sym (resolve-up part others [] h u))
  | is_name h u ↦
      add_parts-cons part others (at_start first) (at_end (part ∷ [])) (start_name part first h u)
      ∙ add_parts-at_end others (part ∷ []) w.1 (w.0, tt)
      ∙ ap at_end (sym (resolve-name part others [] h u))
]

normalized-moves :
    (ps : List (List ℕ)) (first : List ℕ)
    → moves ps ≡ true
    → normalized ps (slash ∷ first) ≡ or_root (add_parts ps (at_start first)).path
normalized-moves [] first m = absurd (unfold moves in ground (arith, m))
normalized-moves (part ∷ others) first m = refl

tokens-AllNames : (path : List ℕ) → AllNames (tokens path)
unfolding tokens
tokens-AllNames path =
    let w = parts-AllNames path in with_part-AllNames (parts path).0 (parts path).1 w.0 w.1

first_string-part :
    (c : ℕ) (cs : List ℕ) → c ≢ slash → first_string (slash ∷ c ∷ cs) ≡ slash ∷ (parts (c ∷ cs)).0
unfolding first_string
first_string-part c cs other = let e : (c == slash) ≡ false = ground (arith, other) in rw e refl

-- A path that starts with one slash, and has a part that is not ".": the result is the path along the
-- names that are left on a stack, where "." does nothing, ".." takes the last name off, if there is
-- one, and every other part is a name; it is "/" where none is left.
pub normalize_path_lem :
    (c : ℕ) (cs : List ℕ)
    → c ≢ slash
    → moves (tokens (slash ∷ c ∷ cs)) ≡ true
    → normalize_path (slash ∷ c ∷ cs) ≡ or_root (render (resolve (tokens (slash ∷ c ∷ cs)) []))
unfolding normalize_path
normalize_path_lem c cs other m =
    let path = slash ∷ c ∷ cs in
    let first = (parts (c ∷ cs)).0 in
    ap (normalized (tokens path)) (first_string-part c cs other)
    ∙ normalized-moves (tokens path) first m
    ∙ ap (λ b. or_root b.path)
        (add_parts-at_start (tokens path) first (tokens-AllNames path) (parts-AllNames (c ∷ cs)).0
          m)
