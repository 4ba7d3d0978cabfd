-- ===== src/Environment/Removal.antt =====
-- What myunsetenv() of chapter_06/myenv.c leaves.
use mathlib.Core.Path.{ap₂}
use tlpi_solutions.Common.{
  ℕ, zero, suc, ◌+◌, ◌≤◌, ◌<◌, ◌≡◌, refl, sym, ap, ◌∙◌, true, false, none, some, List, [], ◌∷◌,
  ◌++◌, if◌then◌else◌, arith, length, get_elem?, set, take, drop, length-set, get_elem?-lt,
  bytes_eq, bytes_eq_refl, bytes_eq_sound, Bool-cases, inl, inr,
}
use tlpi_solutions.Environment.{defines, getenv, done, unset_loop, myunsetenv}
use tlpi_solutions.Environment.Names.{defines-same}
use tlpi_solutions.Environment.Lookup.{IsName, IsName-has_equals}

-- The entries that do not define a name.
abbrev pub others : List ℕ → List (List ℕ) → List (List ℕ)
others name [] = []
others name (e ∷ env) = if defines name e then others name env else e ∷ others name env

module _ {A : Type 0} where
  drop-get_elem? :
      (xs : List A) (i : ℕ) (a : A) → get_elem? xs i ≡ some a → drop i xs ≡ a ∷ drop (i + 1) xs
  drop-get_elem? [] i a e = absurd (cc)
  drop-get_elem? (x ∷ xs) zero a e = cc
  drop-get_elem? (x ∷ xs) (suc i) a e =
      let s : suc i + 1 ≡ suc (i + 1) = omega arith in rw s (drop-get_elem? xs i a e)

  take-set :
      (xs : List A) (i : ℕ) (a : A)
      → i < length xs
      → take (i + 1) (set xs i a) ≡ take i xs ++ a ∷ []
  take-set [] i a h = absurd (omega arith)
  take-set (x ∷ xs) zero a h = refl
  take-set (x ∷ xs) (suc i) a h =
      let s : suc i + 1 ≡ suc (i + 1) = omega arith in
      rw s (ap (λ l. x ∷ l) (take-set xs i a (omega arith)))

  drop-set : (xs : List A) (i j : ℕ) (a : A) → i < j → drop j (set xs i a) ≡ drop j xs
  drop-set [] i j a h = refl
  drop-set (x ∷ xs) i zero a h = absurd (omega arith)
  drop-set (x ∷ xs) zero (suc j) a h = refl
  drop-set (x ∷ xs) (suc i) (suc j) a h = drop-set xs i j a (omega arith)

  drop-length : (xs : List A) → drop (length xs) xs ≡ []
  drop-length [] = refl
  drop-length (x ∷ xs) = drop-length xs

  append_assoc : (xs ys zs : List A) → (xs ++ ys) ++ zs ≡ xs ++ (ys ++ zs)
  append_assoc [] ys zs = refl
  append_assoc (x ∷ xs) ys zs = ap (λ l. x ∷ l) (append_assoc xs ys zs)

  append_nil : (xs : List A) → xs ++ [] ≡ xs
  append_nil [] = refl
  append_nil (x ∷ xs) = ap (λ l. x ∷ l) (append_nil xs)

abbrev result : List (List ℕ) × ℕ → List (List ℕ)
result (environ, envcnt) = take envcnt environ

module _ (left : ℕ) (name : List ℕ) (env : List (List ℕ)) (envcnt current : ℕ) (entry : List ℕ)
    (at : get_elem? env current ≡ some entry) where
  loop-hit :
      defines name entry ≡ true
      → unset_loop (suc left) name env envcnt current
        ≡ unset_loop left name env envcnt (current + 1)
  unfolding unset_loop
  loop-hit hit = rw (at, unset_loop, hit) refl

  loop-miss :
      defines name entry ≡ false
      → unset_loop (suc left) name env envcnt current
        ≡ unset_loop left name (set env envcnt entry) (envcnt + 1) (current + 1)
  unfolding unset_loop
  loop-miss miss = rw (at, unset_loop, miss) refl

  others-drop : others name (drop current env) ≡ (
      if defines name entry
      then others name (drop (current + 1) env)
      else entry ∷ others name (drop (current + 1) env))
  others-drop = ap (λ l. others name l) (drop-get_elem? env current entry at)

-- The loop appends what is left of the entries, without those of the name, to what it has kept.
unset_loop-others :
    (left : ℕ) (name : List ℕ) (env : List (List ℕ)) (envcnt current : ℕ)
    → envcnt ≤ current
    → current + left ≡ length env
    → result (unset_loop left name env envcnt current)
      ≡ take envcnt env ++ others name (drop current env)
unfolding unset_loop
unset_loop-others zero name env envcnt current le e =
    let at_end : current ≡ length env = omega (arith, e) in
    rw (at_end, drop-length env) (sym (append_nil (take envcnt env)))
unset_loop-others (suc left) name env envcnt current le e =
    let (entry, at) = get_elem?-lt env current (omega (arith, e)) in
    elim (Bool-cases (defines name entry)) [
      | inl hit ↦
          ap result (loop-hit left name env envcnt current entry at hit)
          ∙ unset_loop-others left name env envcnt (current + 1) (omega (arith, le))
              (omega (arith, e))
          ∙ ap (λ l. take envcnt env ++ l)
              (sym (others-drop left name env envcnt current entry at ∙ rw hit refl))
      | inr miss ↦
          let env' = set env envcnt entry in
          let same : length env' ≡ length env = length-set env envcnt entry in
          let kept : take (envcnt + 1) env' ≡ take envcnt env ++ entry ∷ [] =
            take-set env envcnt entry (omega (arith, e, le)) in
          let left_over : drop (current + 1) env' ≡ drop (current + 1) env =
            drop-set env envcnt (current + 1) entry (omega (arith, le)) in
          let tail : ((entry ∷ []) ++ others name (drop (current + 1) env))
              ≡ others name (drop current env) =
            sym (others-drop left name env envcnt current entry at ∙ rw miss refl) in
          ap result (loop-miss left name env envcnt current entry at miss)
          ∙ unset_loop-others left name env' (envcnt + 1) (current + 1) (omega (arith, le))
              (omega (arith, e, same))
          ∙ ap₂ (λ a b. a ++ others name b) kept left_over
          ∙ append_assoc (take envcnt env) (entry ∷ []) (others name (drop (current + 1) env))
          ∙ ap (λ l. take envcnt env ++ l) tail
    ]

pub myunsetenv_lem :
    (name : List ℕ) (env : List (List ℕ))
    → IsName name
    → myunsetenv (some name) env ≡ (done, others name env)
unfolding myunsetenv
myunsetenv_lem name env n =
    rw (n, myunsetenv)
      (ap (λ l. (done, l))
        (unset_loop-others (length env) name env 0 0 (omega arith) (omega arith)))

getenv-others_self : (name : List ℕ) (env : List (List ℕ)) → getenv name (others name env) ≡ none
unfolding getenv
getenv-others_self name [] = refl
getenv-others_self name (e ∷ env) = elim (Bool-cases (defines name e)) [
  | inl x ↦ rw x (getenv-others_self name env)
  | inr x ↦ rw (x, getenv, x) (getenv-others_self name env)
]

getenv-others :
    (other name : List ℕ) (env : List (List ℕ))
    → IsName other
    → IsName name
    → bytes_eq other name ≡ false
    → getenv other (others name env) ≡ getenv other env
unfolding getenv
getenv-others other name [] m n s = refl
getenv-others other name (e ∷ env) m n s =
    let rest = getenv-others other name env m n s in
    elim (Bool-cases (defines name e)) [
      | inl x ↦
          let miss : defines other e ≡ false = (elim (Bool-cases (defines other e)) [
            | inr y ↦ y
            | inl y ↦
                let same : other ≡ name =
                  defines-same other name e (IsName-has_equals other m) (IsName-has_equals name n) y
                    x in
                let s' : bytes_eq other name ≡ true = rw same (bytes_eq_refl name) in absurd (cc)
          ]) in
          rw (x, getenv, miss) rest
      | inr x ↦
          rw (x, getenv)
            (ap (λ r. if defines other e then some (drop (length other + 1) e) else r) rest)
    ]

-- After myunsetenv() of a name, which is not empty and has no '=', it has returned 0, and getenv()
-- finds nothing for the name, however many entries had it, and what it found before for every other
-- name.
pub getenv-myunsetenv :
    (name other : List ℕ) (env : List (List ℕ))
    → IsName name
    → IsName other
    → let (ret, env') = myunsetenv (some name) env in
      (ret ≡ done) × (getenv other env' ≡ (if bytes_eq other name then none else getenv other env))
getenv-myunsetenv name other env n m = rw (myunsetenv_lem name env n) (
  refl,
  (elim (Bool-cases (bytes_eq other name)) [
    | inl s ↦ rw (s, bytes_eq_sound other name s) (getenv-others_self name env)
    | inr s ↦ rw s (getenv-others other name env m n s)
  ]),
)
